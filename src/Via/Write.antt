-- ===== src/Via/Write.antt =====
-- tools/emu/via_vectrex.c: `vectrexwrite`, the registers that do something one by one.
use vekterm.Base.{
  ℕ, ◌≡◌, refl, ◌-◌, ◌%◌, ◌^◌, Bool, true, false, ◌&&◌, ◌||◌, List, [], ◌∷◌, ◌==◌, if◌then◌else◌,
  shr, low_bits,
}
use vekterm.Base.Int.{ℤ, pos, negsuc, signed8}
use vekterm.Via.State.{Via, r_porta, r_portb, r_t1ch, r_pcr, r_sr, commit_ramp, arm_ramp}

-- The conversion of an `int` to `unsigned char`.
abbrev pub to_uint8 : ℤ → ℕ
to_uint8 (pos n) = n % 2 ^ 8
to_uint8 (negsuc n) = 2 ^ 8 - 1 - n % 2 ^ 8

-- What both ports do at the end: the multiplexer hands the DAC on, `z` to the brightness.
unfoldable pub route : ℕ → Via → Via
route z v =
    if v.mux_en
    then (if v.mux_sel == 0
        then record v { y_rate = v.dac }
        else (if v.mux_sel == 2 then record v { intensity = z } else v))
    else record v { x_rate = v.dac }

unfoldable pub write_porta : ℕ → Via → Via
write_porta d v = route d (record v { dac = signed8 d })

unfoldable pub write_portb : ℕ → Via → Via
write_portb d v =
    route (to_uint8 v.dac) (record v { mux_en = low_bits d 1 == 0; mux_sel = low_bits (shr d 1) 2 })

-- The beam is switched on, which shows the ramp in flight, or off, which ends it.
unfoldable pub switch_beam : Bool → Via → Via
switch_beam on v =
    let u = record v { a_visible = (on && v.armed) || v.a_visible; beam_on = on } in
    if on then u else commit_ramp u

-- /ZERO snaps the beam to the centre.
unfoldable pub snap : Bool → Via → Via
snap zero v = if zero then record (commit_ramp v) { beam_x = pos 0; beam_y = pos 0 } else v

unfoldable pub write_pcr : ℕ → Via → Via
write_pcr d v = snap (low_bits (shr d 1) 3 == 6) (switch_beam (low_bits (shr d 5) 3 == 7) v)

unfoldable pub write_sr : ℕ → Via → Via
write_sr d v = if d == 0xFF || d == 0 then switch_beam (d == 0xFF) v else v

-- The register that a write goes to.
abbrev pub store : ℕ → ℕ → Via → Via
store a d v = record v { via = λ i. if i == a then d else v.via i }

unfoldable pub vectrexwrite : ℕ → ℕ → ℕ → Via → Via
vectrexwrite dif address d v =
    let a = low_bits address 4 in
    let u = store a d v in
    if a == r_porta
    then write_porta d u
    else (if a == r_portb
        then write_portb d u
        else (if a == r_t1ch
            then arm_ramp dif u
            else (if a == r_pcr then write_pcr d u else (if a == r_sr then write_sr d u else u))))

unfoldable pub vectrexwrite_short : ℕ → ℕ → ℕ → Via → Via
vectrexwrite_short dif address d v = vectrexwrite dif address d v

if-holds :
    (P : Via → Type 0) (b : Bool) (x y : Via) → (b ≡ true → P x) → P y → P (if b then x else y)
if-holds P true x y f p = f refl
if-holds P false x y f p = p

-- What holds of the state after each kind of write holds after a write.
pub vectrexwrite-holds :
    (P : Via → Type 0) (dif address d : ℕ) (v : Via)
    → let a = low_bits address 4 in
      let u = store a d v in
      P (write_porta d u)
      → P (write_portb d u)
      → P (arm_ramp dif u)
      → ((a == r_pcr) ≡ true → P (write_pcr d u))
      → ((a == r_sr) ≡ true → P (write_sr d u))
      → P u
      → P (vectrexwrite dif address d v)
unfolding vectrexwrite
vectrexwrite-holds P dif address d v porta portb ramp pcr sr plain =
    let a = low_bits address 4 in
    let u = store a d v in
    let rest4 : Via = if a == r_sr then write_sr d u else u in
    let rest3 : Via = if a == r_pcr then write_pcr d u else rest4 in
    let rest2 : Via = if a == r_t1ch then arm_ramp dif u else rest3 in
    let rest1 : Via = if a == r_portb then write_portb d u else rest2 in
    if-holds P (a == r_porta) (write_porta d u) rest1 (λ _. porta)
      (if-holds P (a == r_portb) (write_portb d u) rest2 (λ _. portb)
        (if-holds P (a == r_t1ch) (arm_ramp dif u) rest3 (λ _. ramp)
          (if-holds P (a == r_pcr) (write_pcr d u) rest4 pcr
            (if-holds P (a == r_sr) (write_sr d u) u sr plain))))

-- Writes, each an address and a byte, in their order.
unfoldable pub writes : ℕ → List (ℕ × ℕ) → Via → Via
writes dif [] v = v
writes dif (w ∷ ws) v = writes dif ws (vectrexwrite dif w.0 w.1 v)
