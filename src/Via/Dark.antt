-- ===== src/Via/Dark.antt =====
-- A blanked beam draws nothing.
use vekterm.Base.{
  ℕ, ◌≡◌, refl, arith, Bool, true, false, ◌&&◌, List, [], ◌∷◌, ◌==◌, low_bits, shr, All, ◌∙◌,
  if◌then◌else◌,
}
use vekterm.Via.State.{Via, r_pcr, r_sr, commit_ramp, arm_ramp}
use vekterm.Via.Write.{
  route, write_porta, write_portb, switch_beam, snap, write_pcr, write_sr, store, vectrexwrite,
  vectrexwrite-holds, writes,
}

-- The beam is off and no ramp that was lit is in flight.
pub record IsDark (v : Via) : Type 0 where
  pub beam_off : v.beam_on ≡ false
  pub ramp_off : (v.armed && v.a_visible) ≡ false

-- A write that does not switch the beam on: not to the PCR with CB2 high, nor 0xFF to the shift
-- register.
abbrev pub Blanks : ℕ × ℕ → Type 0
Blanks w =
    ((low_bits w.0 4 == r_pcr) && (low_bits (shr w.1 5) 3 == 7)) ≡ false
    × ((low_bits w.0 4 == r_sr) && (w.1 == 0xFF)) ≡ false

-- What a step in the dark does to the lines: nothing.
pub record StaysDark (v u : Via) : Type 0 where
  pub dark : IsDark u
  pub same : u.lines ≡ v.lines

commit_ramp-StaysDark : (v : Via) → IsDark v → StaysDark v (commit_ramp v)
unfolding commit_ramp
commit_ramp-StaysDark v h = ground (arith, h.beam_off, h.ramp_off)

arm_ramp-StaysDark : (dif : ℕ) (v : Via) → IsDark v → StaysDark v (arm_ramp dif v)
unfolding arm_ramp commit_ramp
arm_ramp-StaysDark dif v h = ground (arith, h.beam_off, h.ramp_off)

switch_beam-StaysDark : (v : Via) → IsDark v → StaysDark v (switch_beam false v)
unfolding switch_beam commit_ramp
switch_beam-StaysDark v h = ground (arith, h.beam_off, h.ramp_off)

snap-StaysDark : (b : Bool) (v : Via) → IsDark v → StaysDark v (snap b v)
unfolding snap commit_ramp
snap-StaysDark b v h = ground (arith, h.beam_off, h.ramp_off)

beam-StaysDark : (on : Bool) (v : Via) → on ≡ false → IsDark v → StaysDark v (switch_beam on v)
beam-StaysDark true v e h = cc
beam-StaysDark false v e h = switch_beam-StaysDark v h

after : {v u w : Via} → StaysDark v u → (IsDark u → StaysDark u w) → StaysDark v w
after s f = let t = f s.dark in record { dark = t.dark; same = t.same ∙ s.same }

if-StaysDark :
    (b : Bool) (v x y : Via)
    → (b ≡ true → StaysDark v x)
    → (b ≡ false → StaysDark v y)
    → StaysDark v (if b then x else y)
if-StaysDark true v x y f g = f refl
if-StaysDark false v x y f g = g refl

write_porta-StaysDark : (d : ℕ) (v : Via) → IsDark v → StaysDark v (write_porta d v)
unfolding write_porta route
write_porta-StaysDark d v h = ground (arith, h.beam_off, h.ramp_off)

write_portb-StaysDark : (d : ℕ) (v : Via) → IsDark v → StaysDark v (write_portb d v)
unfolding write_portb route
write_portb-StaysDark d v h = ground (arith, h.beam_off, h.ramp_off)

write_pcr-StaysDark :
    (d : ℕ) (v : Via) → (low_bits (shr d 5) 3 == 7) ≡ false → IsDark v → StaysDark v (write_pcr d v)
unfolding write_pcr
write_pcr-StaysDark d v e h =
    after (beam-StaysDark (low_bits (shr d 5) 3 == 7) v e h) (snap-StaysDark _ _)

write_sr-StaysDark : (d : ℕ) (v : Via) → (d == 0xFF) ≡ false → IsDark v → StaysDark v (write_sr d v)
unfolding write_sr
write_sr-StaysDark d v e h =
    if-StaysDark _ v _ _ (λ _. beam-StaysDark (d == 0xFF) v e h)
      (λ _. record { dark = h; same = refl })

and-false : (b c : Bool) → (b && c) ≡ false → b ≡ true → c ≡ false
and-false true c e h = e
and-false false c e h = cc

stored-StaysDark : (a d : ℕ) (v : Via) → IsDark v → StaysDark v (store a d v)
stored-StaysDark a d v h = record {
  dark = record { beam_off = h.beam_off; ramp_off = h.ramp_off };
  same = refl;
}

-- A write that does not switch the beam on draws nothing in the dark.
vectrexwrite-StaysDark :
    (dif a d : ℕ) (v : Via) → Blanks (a, d) → IsDark v → StaysDark v (vectrexwrite dif a d v)
vectrexwrite-StaysDark dif a d v b h =
    let u = store (low_bits a 4) d v in
    let dark = stored-StaysDark (low_bits a 4) d v h in
    vectrexwrite-holds (StaysDark v) dif a d v (after dark (write_porta-StaysDark d u))
      (after dark (write_portb-StaysDark d u)) (after dark (arm_ramp-StaysDark dif u))
      (λ at. after dark (write_pcr-StaysDark d u (and-false _ _ b.0 at)))
      (λ at. after dark (write_sr-StaysDark d u (and-false _ _ b.1 at))) dark

-- Writes that do not switch the beam on draw nothing, if it was off and no lit ramp was in flight.
pub writes-IsDark :
    (dif : ℕ) (ws : List (ℕ × ℕ)) (v : Via)
    → All Blanks ws
    → IsDark v
    → IsDark (writes dif ws v) × ((writes dif ws v).lines ≡ v.lines)
unfolding writes
writes-IsDark dif [] v bs h = (h, refl)
writes-IsDark dif (w ∷ ws) v bs h =
    let s = vectrexwrite-StaysDark dif w.0 w.1 v bs.0 h in
    let (dark, same) = writes-IsDark dif ws (vectrexwrite dif w.0 w.1 v) bs.1 s.dark in
    (dark, same ∙ s.same)
