-- ===== src/Host/Serial/Raw.antt =====
-- What the opening of a port leaves, and whether the port stays open.
use mathlib.Core.Path.{subst, sym}
use vekterm.Base.{
  All, ℕ, ◌≡◌, inl, inr, refl, arith, Bool, true, false, ◌&&◌, ◌||◌, not, ◌==◌, Option, none, some,
  List, [], ◌∷◌, ◌++◌, if◌then◌else◌, Bool-cases, Option-cases, ap, ◌∙◌,
}
use vekterm.Base.Int.{ℤ, negsuc}
use vekterm.Host.App.{is_negative}
use vekterm.Host.Serial.{
  Bits, Termios, Headers, Port, PortCall, closes, sets, flushes, warns, baud_constant, frame_flags,
  line_flags, without_flow, raw, vt_serial_open,
}
use vekterm.Host.Serial.Rates.{IsSpeed, constants, baud_constant-IsSpeed}

-- How often the calls close a descriptor.
unfoldable pub closings : List PortCall → List ℤ
closings [] = []
closings (closes fd ∷ cs) = fd ∷ closings cs
closings (sets fd t ∷ cs) = closings cs
closings (flushes fd ∷ cs) = closings cs
closings (warns b ∷ cs) = closings cs

-- No bit of a flag that the system has is set.
abbrev pub IsOff : Option Bits → Bits → Type 0
IsOff none c = Unit
IsOff (some f) c = (i : ℕ) → f i ≡ true → c i ≡ false

-- All bits of the flag are set in the word, or none is.
abbrev pub Has : Bits → Bits → Type 0
Has f c = (i : ℕ) → f i ≡ true → c i ≡ true

abbrev pub Lacks : Bits → Bits → Type 0
Lacks f c = (i : ℕ) → f i ≡ true → c i ≡ false

-- No other bit than those of the flags has changed.
abbrev pub KeepsRest : List Bits → Bits → Bits → Type 0
KeepsRest fs before after = (i : ℕ) → All (λ f. f i ≡ false) fs → after i ≡ before i

-- The flags of the processing of input and of local characters.
abbrev pub input_processing : Headers → List Bits
input_processing h =
    h.ignbrk ∷ h.brkint ∷ h.parmrk ∷ h.istrip ∷ h.inlcr ∷ h.igncr ∷ h.icrnl ∷ h.ixon ∷ h.ixoff
    ∷ h.ixany ∷ []

abbrev pub local_processing : Headers → List Bits
local_processing h = h.echo ∷ h.echonl ∷ h.icanon ∷ h.isig ∷ h.iexten ∷ []

-- Raw mode. A bit of another flag that is also one of CS8, CLOCAL and CREAD is set with it.
pub record IsRaw (h : Headers) (before after : Termios) : Type 0 where
  pub no_input : All (λ f. Lacks f after.c_iflag) (input_processing h)
  pub same_input : KeepsRest (input_processing h) before.c_iflag after.c_iflag
  pub no_output : Lacks h.opost after.c_oflag
  pub same_output : KeepsRest (h.opost ∷ []) before.c_oflag after.c_oflag
  pub no_local : All (λ f. Lacks f after.c_lflag) (local_processing h)
  pub same_local : KeepsRest (local_processing h) before.c_lflag after.c_lflag
  pub no_wait : (after.c_cc h.vmin ≡ 0) × (after.c_cc h.vtime ≡ 0)
  pub eight_bits : Has h.cs8 after.c_cflag
  pub local_reader : Has h.clocal after.c_cflag × Has h.cread after.c_cflag
  pub one_size :
      (i : ℕ)
      → h.csize i ≡ true
      → All (λ f. f i ≡ false) (h.cs8 ∷ h.clocal ∷ h.cread ∷ [])
      → after.c_cflag i ≡ false
  pub no_parity :
      (i : ℕ)
      → h.parenb i ≡ true
      → All (λ f. f i ≡ false) (h.cs8 ∷ h.clocal ∷ h.cread ∷ [])
      → after.c_cflag i ≡ false
  pub one_stop :
      (i : ℕ)
      → h.cstopb i ≡ true
      → All (λ f. f i ≡ false) (h.cs8 ∷ h.clocal ∷ h.cread ∷ [])
      → after.c_cflag i ≡ false
  pub no_flow : IsOff h.crtscts after.c_cflag

-- The flag of hardware flow control is none of the line flags.
abbrev pub IsApart : Option Bits → Bits → Type 0
IsApart none m = Unit
IsApart (some f) m = (i : ℕ) → m i ≡ true → f i ≡ false

line_kept :
    (f : Option Bits) (c m : Bits) (i : ℕ)
    → IsApart f m
    → m i ≡ true
    → without_flow f (λ j. c j || m j) i ≡ true
line_kept none c m i apart h = ground arith
line_kept (some f) c m i apart h = let off = apart i h in ground arith

flow_off : (f : Option Bits) (c : Bits) (i : ℕ) → c i ≡ false → without_flow f c i ≡ false
flow_off none c i h = h
flow_off (some f) c i h = ground arith

flow_cleared : (f : Option Bits) (c : Bits) → IsOff f (without_flow f c)
flow_cleared none c = tt
flow_cleared (some f) c = λ i h. ground arith

vmin_cleared : (a b : ℕ) (f : ℕ → ℕ) → (if a == b then 0 else (if a == a then 0 else f a)) ≡ 0
vmin_cleared a b f = ground arith

vtime_cleared : (b : ℕ) (x : ℕ) → (if b == b then 0 else x) ≡ 0
vtime_cleared b x = ground arith

raw-IsRaw :
    (h : Headers) (spd : ℕ) (tio : Termios)
    → IsApart h.crtscts (line_flags h)
    → IsRaw h tio (raw h spd tio)
unfolding raw
raw-IsRaw h spd tio apart =
    let line = λ (j : ℕ). tio.c_cflag j && not (frame_flags h j) in
    let kept =
      λ (i : ℕ) (e : line_flags h i ≡ true). line_kept h.crtscts line (line_flags h) i apart e in
    let off = λ (i : ℕ). flow_off h.crtscts (λ j. line j || line_flags h j) i in
    record {
      no_input = (
        λ i e. ground arith,
        (
          λ i e. ground arith,
          (
            λ i e. ground arith,
            (
              λ i e. ground arith,
              (
                λ i e. ground arith,
                (
                  λ i e. ground arith,
                  (
                    λ i e. ground arith,
                    (λ i e. ground arith, (λ i e. ground arith, (λ i e. ground arith, tt))),
                  ),
                ),
              ),
            ),
          ),
        ),
      );
      same_input = λ i e. ground arith;
      no_output = λ i e. ground arith;
      same_output = λ i e. ground arith;
      no_local = (
        λ i e. ground arith,
        (
          λ i e. ground arith,
          (λ i e. ground arith, (λ i e. ground arith, (λ i e. ground arith, tt))),
        ),
      );
      same_local = λ i e. ground arith;
      no_wait = (vmin_cleared h.vmin h.vtime tio.c_cc, vtime_cleared h.vtime _);
      eight_bits = λ i e. kept i (ground arith);
      local_reader = (λ i e. kept i (ground arith), λ i e. kept i (ground arith));
      one_size = λ i e k. off i (ground arith);
      no_parity = λ i e k. off i (ground arith);
      one_stop = λ i e k. off i (ground arith);
      no_flow = flow_cleared h.crtscts _;
    }

-- What comes of opening a port, and of the descriptor that `open` gave.
pub data Opened (h : Headers) (port : Port) (baud : ℤ) : ℤ × List PortCall → Type 0 where
  no_port : is_negative port.opened ≡ true → Opened h port baud (negsuc 0, [])
  given_up :
      (calls : List PortCall)
      → is_negative port.opened ≡ false
      → closings calls ≡ port.opened ∷ []
      → Opened h port baud (negsuc 0, calls)
  set_up :
      (before after : Termios) (calls : List PortCall)
      → is_negative port.opened ≡ false
      → port.attributes ≡ some before
      → port.accepted ≡ true
      → closings calls ≡ []
      → IsRaw h before after
      → IsSpeed h (constants h) baud after.ispeed
      → IsSpeed h (constants h) baud after.ospeed
      → Opened h port baud
          (port.opened, calls ++ (sets port.opened after ∷ flushes port.opened ∷ []))

closings-warning :
    (exact : Bool) (baud : ℤ) (cs : List PortCall)
    → closings ((if exact then [] else warns baud ∷ []) ++ cs) ≡ closings cs
unfolding closings
closings-warning true baud cs = refl
closings-warning false baud cs = refl

closings-warning_only :
    (exact : Bool) (baud : ℤ) → closings (if exact then [] else warns baud ∷ []) ≡ []
unfolding closings
closings-warning_only true baud = refl
closings-warning_only false baud = refl

closings-refused : (fd : ℤ) (t : Termios) → closings (sets fd t ∷ closes fd ∷ []) ≡ fd ∷ []
unfolding closings
closings-refused fd t = refl

-- If the flag of flow control is none of CS8, CLOCAL and CREAD, then whatever the system answers,
-- opening a port gives -1 or the descriptor of `open`. If it is -1 there was no descriptor, or it has
-- been closed, once; else nothing is closed, and the last calls have set the port to raw mode from
-- what it had and flushed it. In raw mode the ten flags of input processing, OPOST and the five flags
-- of local processing are off and nothing else of those words has changed; a read does not wait for a
-- byte; CS8, CLOCAL and CREAD are on, the other bits of CSIZE, PARENB and CSTOPB off, and so is flow
-- control. Both speeds are the constant of the rate, which is B115200 for a rate that the system does
-- not know, or that none of the twelve constants is for.
pub vt_serial_open-Opened :
    (h : Headers) (port : Port) (baud : ℤ)
    → IsApart h.crtscts (line_flags h)
    → Opened h port baud (vt_serial_open h port baud)
unfolding vt_serial_open
vt_serial_open-Opened h port baud apart =
    let fd = port.opened in
    let c = baud_constant h baud in
    let warn : List PortCall = if c.1 then [] else warns baud ∷ [] in
    let result : Bool → Option Termios → Bool → ℤ × List PortCall = λ absent attributes ok.
      if absent then (negsuc 0, []) else elim attributes as (λ _. ℤ × List PortCall) [
        | none ↦ (negsuc 0, closes fd ∷ [])
        | some tio ↦
            if ok
            then (fd, warn ++ (sets fd (raw h c.0 tio) ∷ flushes fd ∷ []))
            else (negsuc 0, warn ++ (sets fd (raw h c.0 tio) ∷ closes fd ∷ []))
      ] in
    elim (Bool-cases (is_negative fd)) [
      | inl absent ↦
          subst (Opened h port baud) (sym (ap (λ b. result b port.attributes port.accepted) absent))
            (no_port absent)
      | inr there ↦ elim (Option-cases port.attributes) [
        | inl unknown ↦
            subst (Opened h port baud) (sym (λ i. result (there i) (unknown i) port.accepted))
              (given_up (closes fd ∷ []) there (unfold closings in refl))
        | inr (tio, known) ↦ elim (Bool-cases port.accepted) [
          | inl ok ↦ subst (Opened h port baud) (sym (λ i. result (there i) (known i) (ok i))) (
              set_up tio (raw h c.0 tio) warn there known ok (closings-warning_only c.1 baud)
                (raw-IsRaw h c.0 tio apart) (unfold raw in baud_constant-IsSpeed h baud)
                (unfold raw in baud_constant-IsSpeed h baud))
          | inr refused ↦
              subst (Opened h port baud) (sym (λ i. result (there i) (known i) (refused i))) (
                given_up _ there (
                  closings-warning c.1 baud (sets fd (raw h c.0 tio) ∷ closes fd ∷ [])
                  ∙ closings-refused fd (raw h c.0 tio)))
        ]
      ]
    ]
