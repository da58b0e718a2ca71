-- ===== src/Host/Serial.antt =====
-- src/serial.c. A flag word of termios is given by its bits. What the system's headers define and
-- what the system calls return are arguments.
mod Rates
pub mod Raw
use vekterm.Base.{
  ℕ, Bool, true, false, ◌&&◌, ◌||◌, not, ◌==◌, Option, none, some, List, [], ◌∷◌, ◌++◌,
  if◌then◌else◌,
}
use vekterm.Base.Int.{ℤ, pos, negsuc}
use vekterm.Host.App.{is_negative}

abbrev pub Bits : Type 0
Bits = ℕ → Bool

-- `x & ~m` and `x | m`
abbrev pub clear : Bits → Bits → Bits
clear x m = λ i. x i && not (m i)

abbrev pub either : Bits → Bits → Bits
either x m = λ i. x i || m i

-- `struct termios`, as far as it is used.
pub record Termios : Type 0 where
  pub c_iflag : Bits
  pub c_oflag : Bits
  pub c_lflag : Bits
  pub c_cflag : Bits
  pub c_cc : ℕ → ℕ
  pub ispeed : ℕ
  pub ospeed : ℕ

-- What <termios.h> defines; a rate or a flag that not every system has is an option.
pub record Headers : Type 0 where
  pub ignbrk : Bits
  pub brkint : Bits
  pub parmrk : Bits
  pub istrip : Bits
  pub inlcr : Bits
  pub igncr : Bits
  pub icrnl : Bits
  pub ixon : Bits
  pub ixoff : Bits
  pub ixany : Bits
  pub opost : Bits
  pub echo : Bits
  pub echonl : Bits
  pub icanon : Bits
  pub isig : Bits
  pub iexten : Bits
  pub csize : Bits
  pub parenb : Bits
  pub cstopb : Bits
  pub cs8 : Bits
  pub clocal : Bits
  pub cread : Bits
  pub crtscts : Option Bits
  pub vmin : ℕ
  pub vtime : ℕ
  pub b3000000 : Option ℕ
  pub b2000000 : Option ℕ
  pub b1500000 : Option ℕ
  pub b1000000 : Option ℕ
  pub b921600 : Option ℕ
  pub b460800 : Option ℕ
  pub b230400 : Option ℕ
  pub b115200 : ℕ
  pub b57600 : ℕ
  pub b38400 : ℕ
  pub b19200 : ℕ
  pub b9600 : ℕ

-- What `open` returns, what `tcgetattr` gives if it succeeds, and whether `tcsetattr` does.
pub record Port : Type 0 where
  pub opened : ℤ
  pub attributes : Option Termios
  pub accepted : Bool

-- The calls that change the port, and the warning.
pub data PortCall : Type 0 where
  closes : ℤ → PortCall
  sets : ℤ → Termios → PortCall
  flushes : ℤ → PortCall
  warns : ℤ → PortCall

abbrev pub is_rate : ℕ → ℤ → Bool
is_rate n (pos b) = n == b
is_rate n (negsuc b) = false

-- No hardware flow control, on a system that has the flag.
abbrev pub without_flow : Option Bits → Bits → Bits
without_flow none c = c
without_flow (some m) c = clear c m

module _ (h : Headers) where
  -- The cases of the switch.
  abbrev pub rates : List (ℕ × Option ℕ)
  rates =
      (3000000, h.b3000000)
      ∷ (2000000, h.b2000000)
      ∷ (1500000, h.b1500000)
      ∷ (1000000, h.b1000000)
      ∷ (921600, h.b921600)
      ∷ (460800, h.b460800)
      ∷ (230400, h.b230400)
      ∷ (115200, some h.b115200)
      ∷ (57600, some h.b57600)
      ∷ (38400, some h.b38400)
      ∷ (19200, some h.b19200)
      ∷ (9600, some h.b9600)
      ∷ []

  -- The constant of a rate, and whether it is exact.
  unfoldable pub select : List (ℕ × Option ℕ) → ℤ → ℕ × Bool
  select [] baud = (h.b115200, false)
  select ((n, none) ∷ cases) baud = select cases baud
  select ((n, some b) ∷ cases) baud =
      let rest = select cases baud in if is_rate n baud then (b, true) else rest

  unfoldable pub baud_constant : ℤ → ℕ × Bool
  baud_constant baud = select rates baud

  abbrev pub input_flags : Bits
  input_flags = either h.ignbrk (
      either h.brkint (
        either h.parmrk (
          either h.istrip (
            either h.inlcr
              (either h.igncr (either h.icrnl (either h.ixon (either h.ixoff h.ixany))))))))

  abbrev pub local_flags : Bits
  local_flags = either h.echo (either h.echonl (either h.icanon (either h.isig h.iexten)))

  abbrev pub frame_flags : Bits
  frame_flags = either h.csize (either h.parenb h.cstopb)

  abbrev pub line_flags : Bits
  line_flags = either h.cs8 (either h.clocal h.cread)

  -- The settings of raw mode.
  unfoldable pub raw : ℕ → Termios → Termios
  raw spd tio = record {
    c_iflag = clear tio.c_iflag input_flags;
    c_oflag = clear tio.c_oflag h.opost;
    c_lflag = clear tio.c_lflag local_flags;
    c_cflag = without_flow h.crtscts (either (clear tio.c_cflag frame_flags) line_flags);
    c_cc = λ i. if i == h.vtime then 0 else (if i == h.vmin then 0 else tio.c_cc i);
    ispeed = spd;
    ospeed = spd;
  }

  -- `vt_serial_open`: what it returns, and its calls.
  unfoldable pub vt_serial_open : Port → ℤ → ℤ × List PortCall
  vt_serial_open port baud =
      let fd = port.opened in
      let (spd, exact) = baud_constant baud in
      let warning = if exact then [] else warns baud ∷ [] in
      if is_negative fd then (negsuc 0, []) else elim port.attributes [
        | none ↦ (negsuc 0, closes fd ∷ [])
        | some tio ↦
            if port.accepted
            then (fd, warning ++ (sets fd (raw spd tio) ∷ flushes fd ∷ []))
            else (negsuc 0, warning ++ (sets fd (raw spd tio) ∷ closes fd ∷ []))
      ]
