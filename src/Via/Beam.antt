-- ===== src/Via/Beam.antt =====
-- What keeps the beam where a `double` counts exactly, and the brightness of a line in its range.
use native.Mathlib.Nat.{mul-le-mul_right}
use vekterm.Base.{
  ℕ, ◌+◌, ◌*◌, ◌^◌, ◌<◌, ◌≤◌, ◌≡◌, arith, Bool, ◌&&◌, ◌||◌, List, [], ◌∷◌, length, ◌==◌, All,
  low_bits, shr,
}
use vekterm.Base.Bits.{bit_or-low_first}
use vekterm.Base.Int.{signed8}
use vekterm.Via.State.{Via, commit_ramp, arm_ramp, vx_reset}
use vekterm.Via.Write.{
  route, write_porta, write_portb, switch_beam, snap, write_pcr, write_sr, store, to_uint8,
  vectrexwrite, vectrexwrite-holds, writes,
}
use vekterm.Via.Bounds.{
  Within, reach, IsLine, IsBounded, wider-IsBounded, if-IsBounded, commit_ramp-IsBounded,
}

module _ (dif : ℕ) where
  arm_ramp-IsBounded :
      (b : ℕ) (v : Via) → IsBounded dif b v → IsBounded dif (b + reach dif) (arm_ramp dif v)
  unfolding arm_ramp
  arm_ramp-IsBounded b v i =
      let u = commit_ramp v in
      let c = commit_ramp-IsBounded dif b v i in
      record {
        bytes = c.bytes;
        beam_x = c.beam_x;
        beam_y = c.beam_y;
        dac = c.dac;
        x_rate = c.x_rate;
        y_rate = c.y_rate;
        a_xrate = c.x_rate;
        a_yrate = c.y_rate;
        a_ticks =
            omega (arith, bit_or-low_first 8 (u.via 5) (u.via 4) (c.bytes 4), c.bytes 4, c.bytes 5);
        lines = c.lines;
      }

  route-IsBounded : (b z : ℕ) (v : Via) → IsBounded dif b v → IsBounded dif b (route z v)
  unfolding route
  route-IsBounded b z v i =
      if-IsBounded dif b v.mux_en _ _
        (if-IsBounded dif b (v.mux_sel == 0) _ _
          (record {
            bytes = i.bytes;
            beam_x = i.beam_x;
            beam_y = i.beam_y;
            dac = i.dac;
            x_rate = i.x_rate;
            y_rate = i.dac;
            a_xrate = i.a_xrate;
            a_yrate = i.a_yrate;
            a_ticks = i.a_ticks;
            lines = i.lines;
          })
          (if-IsBounded dif b (v.mux_sel == 2) _ _
            (record {
              bytes = i.bytes;
              beam_x = i.beam_x;
              beam_y = i.beam_y;
              dac = i.dac;
              x_rate = i.x_rate;
              y_rate = i.y_rate;
              a_xrate = i.a_xrate;
              a_yrate = i.a_yrate;
              a_ticks = i.a_ticks;
              lines = i.lines;
            })
            i))
        (record {
          bytes = i.bytes;
          beam_x = i.beam_x;
          beam_y = i.beam_y;
          dac = i.dac;
          x_rate = i.dac;
          y_rate = i.y_rate;
          a_xrate = i.a_xrate;
          a_yrate = i.a_yrate;
          a_ticks = i.a_ticks;
          lines = i.lines;
        })

  switch_beam-IsBounded :
      (b : ℕ) (on : Bool) (v : Via)
      → IsBounded dif b v
      → IsBounded dif (b + reach dif) (switch_beam on v)
  unfolding switch_beam
  switch_beam-IsBounded b on v i =
      let u = record v { a_visible = (on && v.armed) || v.a_visible; beam_on = on } in
      let i' : IsBounded dif b u = record {
        bytes = i.bytes;
        beam_x = i.beam_x;
        beam_y = i.beam_y;
        dac = i.dac;
        x_rate = i.x_rate;
        y_rate = i.y_rate;
        a_xrate = i.a_xrate;
        a_yrate = i.a_yrate;
        a_ticks = i.a_ticks;
        lines = i.lines;
      } in
      if-IsBounded dif (b + reach dif) on u (commit_ramp u)
        (wider-IsBounded dif b (b + reach dif) u (omega arith) i')
        (commit_ramp-IsBounded dif b u i')

  snap-IsBounded :
      (b : ℕ) (zero : Bool) (v : Via)
      → IsBounded dif b v
      → IsBounded dif (b + reach dif) (snap zero v)
  unfolding snap
  snap-IsBounded b zero v i =
      let c = commit_ramp-IsBounded dif b v i in
      if-IsBounded dif (b + reach dif) zero _ v
        (record {
          bytes = c.bytes;
          beam_x = omega arith;
          beam_y = omega arith;
          dac = c.dac;
          x_rate = c.x_rate;
          y_rate = c.y_rate;
          a_xrate = c.a_xrate;
          a_yrate = c.a_yrate;
          a_ticks = c.a_ticks;
          lines = c.lines;
        })
        (wider-IsBounded dif b (b + reach dif) v (omega arith) i)

  store-IsBounded :
      (b a d : ℕ) (v : Via) → d < 256 → IsBounded dif b v → IsBounded dif b (store a d v)
  store-IsBounded b a d v h i = record {
    bytes = λ j. ground (arith, i.bytes j);
    beam_x = i.beam_x;
    beam_y = i.beam_y;
    dac = i.dac;
    x_rate = i.x_rate;
    y_rate = i.y_rate;
    a_xrate = i.a_xrate;
    a_yrate = i.a_yrate;
    a_ticks = i.a_ticks;
    lines = i.lines;
  }

  signed8-Within : (d : ℕ) → d < 256 → Within 128 (signed8 d)
  signed8-Within d h = ground arith

  write_porta-IsBounded :
      (b d : ℕ) (v : Via) → d < 256 → IsBounded dif b v → IsBounded dif b (write_porta d v)
  unfolding write_porta
  write_porta-IsBounded b d v h i =
      let u = record v { dac = signed8 d } in
      let i' : IsBounded dif b u = record {
        bytes = i.bytes;
        beam_x = i.beam_x;
        beam_y = i.beam_y;
        dac = signed8-Within d h;
        x_rate = i.x_rate;
        y_rate = i.y_rate;
        a_xrate = i.a_xrate;
        a_yrate = i.a_yrate;
        a_ticks = i.a_ticks;
        lines = i.lines;
      } in
      route-IsBounded b d u i'

  write_portb-IsBounded :
      (b d : ℕ) (v : Via) → IsBounded dif b v → IsBounded dif b (write_portb d v)
  unfolding write_portb
  write_portb-IsBounded b d v i =
      let u = record v { mux_en = low_bits d 1 == 0; mux_sel = low_bits (shr d 1) 2 } in
      let i' : IsBounded dif b u = record {
        bytes = i.bytes;
        beam_x = i.beam_x;
        beam_y = i.beam_y;
        dac = i.dac;
        x_rate = i.x_rate;
        y_rate = i.y_rate;
        a_xrate = i.a_xrate;
        a_yrate = i.a_yrate;
        a_ticks = i.a_ticks;
        lines = i.lines;
      } in
      route-IsBounded b (to_uint8 v.dac) u i'

  write_pcr-IsBounded :
      (b d : ℕ) (v : Via) → IsBounded dif b v → IsBounded dif (b + 2 * reach dif) (write_pcr d v)
  unfolding write_pcr
  write_pcr-IsBounded b d v i =
      wider-IsBounded dif (b + reach dif + reach dif) (b + 2 * reach dif) _ (omega arith)
        (snap-IsBounded (b + reach dif) _ _ (switch_beam-IsBounded b _ v i))

  write_sr-IsBounded :
      (b d : ℕ) (v : Via) → IsBounded dif b v → IsBounded dif (b + reach dif) (write_sr d v)
  unfolding write_sr
  write_sr-IsBounded b d v i =
      if-IsBounded dif (b + reach dif) (d == 0xFF || d == 0) _ v (switch_beam-IsBounded b _ v i)
        (wider-IsBounded dif b (b + reach dif) v (omega arith) i)

  -- A write takes the beam at most two ramps farther out.
  vectrexwrite-IsBounded :
      (b a d : ℕ) (v : Via)
      → d < 256
      → IsBounded dif b v
      → IsBounded dif (b + 2 * reach dif) (vectrexwrite dif a d v)
  vectrexwrite-IsBounded b a d v h i =
      let u = store (low_bits a 4) d v in
      let j = store-IsBounded b (low_bits a 4) d v h i in
      let r = reach dif in
      let same =
        λ (w : Via) (k : IsBounded dif b w). wider-IsBounded dif b (b + 2 * r) w (omega arith) k in
      let once = λ (w : Via) (k : IsBounded dif (b + r) w).
        wider-IsBounded dif (b + r) (b + 2 * r) w (omega arith) k in
      vectrexwrite-holds (IsBounded dif (b + 2 * r)) dif a d v
        (same _ (write_porta-IsBounded b d u h j)) (same _ (write_portb-IsBounded b d u j))
        (once _ (arm_ramp-IsBounded b u j)) (λ _. write_pcr-IsBounded b d u j)
        (λ _. once _ (write_sr-IsBounded b d u j)) (same u j)

  pub writes-IsBounded :
      (b : ℕ) (ws : List (ℕ × ℕ)) (v : Via)
      → All (λ (w : ℕ × ℕ). w.1 < 256) ws
      → IsBounded dif b v
      → IsBounded dif (b + length ws * (2 * reach dif)) (writes dif ws v)
  unfolding writes
  writes-IsBounded b [] v hs i = wider-IsBounded dif b _ v (omega arith) i
  writes-IsBounded b (w ∷ ws) v hs i =
      wider-IsBounded dif (b + 2 * reach dif + length ws * (2 * reach dif)) _ _ (omega arith) (
        writes-IsBounded (b + 2 * reach dif) ws (vectrexwrite dif w.0 w.1 v) hs.1
          (vectrexwrite-IsBounded b w.0 w.1 v hs.0 i))

vx_reset-IsBounded :
    (dif : ℕ) (sink : Bool) (v : Via) → v.lines ≡ [] → IsBounded dif 0 (vx_reset sink v)
unfolding vx_reset
vx_reset-IsBounded dif sink v none = record {
  bytes = λ i. omega arith;
  beam_x = omega arith;
  beam_y = omega arith;
  dac = omega arith;
  x_rate = omega arith;
  y_rate = omega arith;
  a_xrate = omega arith;
  a_yrate = omega arith;
  a_ticks = omega arith;
  lines = rw none tt;
}

-- After a reset, with no line drawn yet and SCALE_STRENGTH_DIF a uint16_t, in at most 2 ^ 28 writes of
-- bytes the beam and both ends of every line that is drawn stay within 2 ^ 53 of the centre, where a
-- `double` is exact on integers, and every line has a brightness from 1 to 127.
pub writes-IsExact :
    (dif : ℕ) (sink : Bool) (ws : List (ℕ × ℕ)) (v : Via)
    → dif < 2 ^ 16
    → v.lines ≡ []
    → All (λ (w : ℕ × ℕ). w.1 < 256) ws
    → length ws ≤ 2 ^ 28
    → let u = writes dif ws (vx_reset sink v) in
      Within (2 ^ 53) u.beam_x × Within (2 ^ 53) u.beam_y × All (IsLine (2 ^ 53)) u.lines
writes-IsExact dif sink ws v h none bytes few =
    let far : 0 + length ws * (2 * reach dif) ≤ 2 ^ 53 =
      let many = mul-le-mul_right (2 * reach dif) few in omega (arith, many) in
    let i =
      wider-IsBounded dif _ (2 ^ 53) _ far
        (writes-IsBounded dif 0 ws (vx_reset sink v) bytes (vx_reset-IsBounded dif sink v none)) in
    (i.beam_x, i.beam_y, i.lines)
