-- ===== src/Via/Stroke.antt =====
-- The writes that draw a line: the rates, the length of the ramp, its start, the beam on and off.
use vekterm.Base.{
  ℕ, ◌+◌, ◌*◌, ◌<◌, ◌≡◌, refl, arith, true, false, ◌&&◌, not, List, [], ◌∷◌, ◌++◌, ltb, shl, bit_or,
  bit_set, low_bits, ap, sym, ◌∙◌, if◌then◌else◌, All,
}
use mathlib.Core.List.{append-nil, append_assoc}
use mathlib.Core.Path.{subst}
use vekterm.Base.Int.{ℤ, pos, ◌+ℤ◌, ◌*ℤ◌, signed8}
use vekterm.Base.Bits.{bit_or-low_first}
use vekterm.Via.State.{Via, Lit, commit_ramp, arm_ramp}
use vekterm.Via.Write.{
  route, write_porta, write_portb, switch_beam, snap, write_pcr, vectrexwrite, writes,
}

-- The Y rate through the multiplexer, the X rate past it, the length of the ramp low byte first, then
-- the beam on and off. In the PCR 0xEE is the beam on and 0xCE off, both without zeroing.
abbrev pub stroke_writes : ℕ → ℕ → ℕ → ℕ → List (ℕ × ℕ)
stroke_writes dy dx lo hi =
    (0xD001, dy)
    ∷ (0xD000, 0x80)
    ∷ (0xD000, 0x81)
    ∷ (0xD001, dx)
    ∷ (0xD004, lo)
    ∷ (0xD005, hi)
    ∷ (0xD00C, 0xEE)
    ∷ (0xD00C, 0xCE)
    ∷ []

-- A state at rest: the multiplexer and the beam off, no ramp in flight, a sink with a `line`.
abbrev rest : Via → Via
rest v = record v { mux_en = false; beam_on = false; armed = false; g_sink = true }

-- The line of a stroke.
abbrev pub stroke_line : ℕ → ℕ → ℕ → Via → Lit
stroke_line ticks dy dx v = record {
  x0 = v.beam_x;
  y0 = v.beam_y;
  x1 = v.beam_x +ℤ signed8 dx *ℤ pos ticks;
  y1 = v.beam_y +ℤ signed8 dy *ℤ pos ticks;
  z = v.intensity;
}

-- What a stroke leaves: one line more, the beam at its end, off, no ramp in flight, and the
-- multiplexer off.
pub record Draws (l : Lit) (v u : Via) : Type 0 where
  pub called : u.lines ≡ v.lines ++ (l ∷ [])
  pub at_x : u.beam_x ≡ l.x1
  pub at_y : u.beam_y ≡ l.y1
  pub off : u.beam_on ≡ false
  pub done : u.armed ≡ false
  pub mux_off : u.mux_en ≡ false
  pub bright : u.intensity ≡ v.intensity
  pub sink : u.g_sink ≡ true

stroke-rest :
    (dif dy dx lo hi : ℕ) (v : Via)
    → 0 < v.intensity
    → v.intensity < 128
    → Draws
        (stroke_line (bit_or lo (shl hi 8) + dif) dy dx v)
        v
        (writes dif (stroke_writes dy dx lo hi) (rest v))
unfolding writes vectrexwrite write_porta write_portb write_pcr route switch_beam snap arm_ramp
    commit_ramp
stroke-rest dif dy dx lo hi v dim bright =
    let level : low_bits v.intensity 7 ≡ v.intensity = omega arith in
    let shows : not (bit_set v.intensity 7) ≡ true = ground arith in
    let some_light : ltb 0 (low_bits v.intensity 7) ≡ true = ground arith in
    let ticks = bit_or lo (shl hi 8) + dif in
    record {
      called =
          ap
            (λ b.
              if b && (ltb 0 (low_bits v.intensity 7) && true)
              then v.lines
                ++ (record (stroke_line ticks dy dx v) { z = low_bits v.intensity 7 } ∷ [])
              else v.lines)
            shows
          ∙ ap
              (λ b.
                if b && true
                then v.lines
                  ++ (record (stroke_line ticks dy dx v) { z = low_bits v.intensity 7 } ∷ [])
                else v.lines)
              some_light
          ∙ ap (λ z. v.lines ++ (record (stroke_line ticks dy dx v) { z = z } ∷ [])) level;
      at_x = refl;
      at_y = refl;
      off = refl;
      done = refl;
      mux_off = refl;
      bright = refl;
      sink = refl;
    }

-- The writes of a line, from a state at rest.
writes-stroke_writes :
    (dif dy dx lo hi : ℕ) (v : Via)
    → lo < 256
    → v.mux_en ≡ false
    → v.beam_on ≡ false
    → v.armed ≡ false
    → v.g_sink ≡ true
    → 0 < v.intensity
    → v.intensity < 128
    → Draws (stroke_line (256 * hi + lo + dif) dy dx v) v (writes dif (stroke_writes dy dx lo hi) v)
writes-stroke_writes dif dy dx lo hi v hlo mux off unarmed sink dim bright =
    let at_rest : v ≡ rest v =
      λ i. record v { mux_en = mux i; beam_on = off i; armed = unarmed i; g_sink = sink i } in
    let ticks : bit_or lo (shl hi 8) + dif ≡ 256 * hi + lo + dif =
      omega (arith, bit_or-low_first 8 hi lo hlo) in
    subst (λ t. Draws (stroke_line t dy dx v) v (writes dif (stroke_writes dy dx lo hi) v)) ticks
      (subst
        (λ u.
          Draws (stroke_line (bit_or lo (shl hi 8) + dif) dy dx v) v
            (writes dif (stroke_writes dy dx lo hi) u))
        (sym at_rest) (stroke-rest dif dy dx lo hi v dim bright))

-- A line to draw: its rates as bytes, and the length of its ramp.
pub record Ramp : Type 0 where
  pub dy : ℕ
  pub dx : ℕ
  pub lo : ℕ
  pub hi : ℕ

abbrev pub ticks_of : ℕ → Ramp → ℕ
ticks_of dif s = 256 * s.hi + s.lo + dif

-- The lines from a point, each from the end of the one before it.
unfoldable pub path : ℕ → ℕ → ℤ → ℤ → List Ramp → List Lit
path dif z x y [] = []
path dif z x y (s ∷ ss) =
    let x' = x +ℤ signed8 s.dx *ℤ pos (ticks_of dif s) in
    let y' = y +ℤ signed8 s.dy *ℤ pos (ticks_of dif s) in
    record { x0 = x; y0 = y; x1 = x'; y1 = y'; z = z } ∷ path dif z x' y' ss

unfoldable pub path_writes : List Ramp → List (ℕ × ℕ)
path_writes [] = []
path_writes (s ∷ ss) = stroke_writes s.dy s.dx s.lo s.hi ++ path_writes ss

writes-append :
    (dif : ℕ) (xs ys : List (ℕ × ℕ)) (v : Via)
    → writes dif (xs ++ ys) v ≡ writes dif ys (writes dif xs v)
unfolding writes
writes-append dif [] ys v = refl
writes-append dif (x ∷ xs) ys v = writes-append dif xs ys (vectrexwrite dif x.0 x.1 v)

-- With the multiplexer and the beam off, no ramp in flight, a brightness that shows and a sink with
-- a `line`, the writes of a chain of lines call the sink once for each line, in order: the first
-- from the beam, each other from the end of the one before it, to where the rates take the beam in
-- as many ticks as T1 counts and libpitrex adds, at that brightness.
pub writes-path_writes :
    (dif : ℕ) (ss : List Ramp) (v : Via)
    → All (λ (s : Ramp). s.lo < 256) ss
    → v.mux_en ≡ false
    → v.beam_on ≡ false
    → v.armed ≡ false
    → v.g_sink ≡ true
    → 0 < v.intensity
    → v.intensity < 128
    → (writes dif (path_writes ss) v).lines ≡ v.lines ++ path dif v.intensity v.beam_x v.beam_y ss
unfolding path path_writes
writes-path_writes dif [] v bytes mux off unarmed sink dim bright =
    unfold writes in sym (append-nil v.lines)
writes-path_writes dif (s ∷ ss) v bytes mux off unarmed sink dim bright =
    let first = stroke_writes s.dy s.dx s.lo s.hi in
    let u = writes dif first v in
    let d =
      writes-stroke_writes dif s.dy s.dx s.lo s.hi v bytes.0 mux off unarmed sink dim bright in
    let l = stroke_line (ticks_of dif s) s.dy s.dx v in
    let later =
      writes-path_writes dif ss u bytes.1 d.mux_off d.off d.done d.sink (omega (arith, d.bright))
        (omega (arith, d.bright)) in
    ap (λ w. w.lines) (writes-append dif first (path_writes ss) v)
    ∙ later
    ∙ (λ i. d.called i ++ path dif (d.bright i) (d.at_x i) (d.at_y i) ss)
    ∙ append_assoc v.lines (l ∷ []) (path dif v.intensity l.x1 l.y1 ss)
