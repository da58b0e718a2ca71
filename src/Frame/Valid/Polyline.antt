-- ===== src/Frame/Valid/Polyline.antt =====
-- A polyline payload keeps a parser valid.
use vekterm.Base.{
  ℕ, zero, suc, ◌+◌, ◌-◌, ◌≤◌, ◌<◌, ◌≡◌, arith, Option-cases, >>=-eq-some, inl, inr, List, some,
  All,
}
use vekterm.Base.Int.{ℤ, pos, ◌+ℤ◌}
use vekterm.Frame.State.{Parser}
use vekterm.Frame.Beam.{clamp_dev_int}
use vekterm.Frame.Ext.Polyline.{
  Header, read_header, delta_bytes, stride, read_delta, read_z, Pen, advance, points, close, start,
  draw_points, dispatch_polyline,
}
use vekterm.Frame.Valid.{IsByte, byte_at-lt, IsValid}
use vekterm.Frame.Valid.Beam.{clamp_dev_int-le, add_segment-IsValid}

read_header-bright :
    (buf : List ℕ) {h : Header} → All IsByte buf → read_header buf ≡ some h → h.bright < 256
unfolding read_header
read_header-bright buf {h} bytes e = ground (arith, byte_at-lt buf 1 h.bright bytes)

read_z-lt :
    (h : Header) (buf : List ℕ) (off : ℕ) {z : ℕ}
    → All IsByte buf
    → h.bright < 256
    → read_z h buf off ≡ some z
    → z < 256
unfolding read_z
read_z-lt h buf off {z} bytes bright e = ground (arith, byte_at-lt buf off z bytes)

record IsPen {C : Type 0} (pen : Pen C) : Type 0 where
  valid : IsValid pen.parser
  px_in : pen.px ≤ 4095
  py_in : pen.py ≤ 4095

module _ {C : Type 0} where
  advance-IsPen :
      (pen : Pen C) (dx dy : ℤ) (z : ℕ) → IsPen pen → z < 256 → IsPen (advance pen dx dy z)
  unfolding advance
  advance-IsPen pen dx dy z v hz =
      let cx = clamp_dev_int (pen.x +ℤ dx) in
      let cy = clamp_dev_int (pen.y +ℤ dy) in
      let x = clamp_dev_int-le (pen.x +ℤ dx) in
      let y = clamp_dev_int-le (pen.y +ℤ dy) in
      let added = add_segment-IsValid pen.px pen.py cx cy z v.valid v.px_in v.py_in x y hz in
      ground arith

  points-IsPen :
      (h : Header) (buf : List ℕ) (left off : ℕ) (pen : Pen C) {out : Pen C}
      → All IsByte buf
      → h.bright < 256
      → IsPen pen
      → points h buf left off pen ≡ some out
      → IsPen out
  unfolding points
  points-IsPen h buf zero off pen bytes bright v e = ground arith
  points-IsPen h buf (suc left) off pen bytes bright v e =
      let (d, delta, rest) = >>=-eq-some (read_delta h buf off) _ e in
      let (z, sample, rest') = >>=-eq-some (read_z h buf (off + delta_bytes h)) _ rest in
      points-IsPen h buf left (off + stride h) (advance pen d.0 d.1 z) bytes bright
        (advance-IsPen pen d.0 d.1 z v (read_z-lt h buf (off + delta_bytes h) bytes bright sample))
        rest'

  close-IsValid :
      (h : Header) (npts : ℕ) (pen : Pen C)
      → h.bright < 256
      → IsPen pen
      → IsValid (close h npts pen)
  unfolding close
  close-IsValid h npts pen bright v =
      let x = clamp_dev_int-le (pos h.x0) in
      let y = clamp_dev_int-le (pos h.y0) in
      let added =
        add_segment-IsValid pen.px pen.py (clamp_dev_int (pos h.x0)) (clamp_dev_int (pos h.y0))
          h.bright v.valid v.px_in v.py_in x y bright in
      ground arith

  start-IsPen : (h : Header) (p : Parser C) → IsValid p → IsPen (start h p)
  start-IsPen h p v = record {
    valid = v;
    px_in = clamp_dev_int-le (pos h.x0);
    py_in = clamp_dev_int-le (pos h.y0);
  }

  draw_points-IsValid :
      (h : Header) (p : Parser C) (buf : List ℕ) (len : ℕ) {out : Parser C}
      → All IsByte buf
      → h.bright < 256
      → IsValid p
      → draw_points h p buf len ≡ some out
      → IsValid out
  unfolding draw_points
  draw_points-IsValid h p buf len bytes bright v e =
      elim (Option-cases (points h buf (h.count - 1) 8 (start h p))) [
        | inl fault ↦ ground arith
        | inr (pen, drawn) ↦
            let v' =
              points-IsPen h buf (h.count - 1) 8 (start h p) bytes bright (start-IsPen h p v)
                drawn in
            let closed = close-IsValid h (h.count - 1) pen bright v' in ground arith
      ]

  -- A polyline that is drawn without a fault leaves the parser valid.
  pub dispatch_polyline-IsValid :
      (p : Parser C) (buf : List ℕ) (len : ℕ) {out : Parser C}
      → All IsByte buf
      → IsValid p
      → dispatch_polyline p buf len ≡ some out
      → IsValid out
  unfolding dispatch_polyline
  dispatch_polyline-IsValid p buf len {out} bytes v e = elim (Option-cases (read_header buf)) [
    | inl no_header ↦ ground arith
    | inr (h, header) ↦
        let bright = read_header-bright buf bytes header in
        ground (arith, draw_points-IsValid h p buf len {out = out} bytes bright v)
  ]
