-- ===== src/Frame/Faults/Polyline.antt =====
-- A polyline is drawn without a fault, whatever its payload holds.
use vekterm.Base.{
  ℕ, zero, suc, ◌+◌, ◌-◌, ◌*◌, ◌≤◌, ◌<◌, arith, ltb, Bool-cases, inl, inr, List, length,
  get_elem?_total, IsDefined, IsDefined-some, >>=-IsDefined, value,
}
use vekterm.Base.Int.{signed8}
use vekterm.Frame.State.{Parser}
use vekterm.Frame.Ext.Polyline.{
  Header, delta_bytes, stride, read_delta, read_z, Pen, advance, points, start, draw_points,
  dispatch_polyline,
}
use vekterm.Frame.Faults.Readers.{rd_i16_total, polyline_header_total}

module _ (h : Header) (buf : List ℕ) (off : ℕ) where
  read_delta-IsDefined : off + delta_bytes h ≤ length buf → IsDefined (read_delta h buf off)
  unfolding read_delta
  read_delta-IsDefined room = elim (Bool-cases h.wide) [
    | inl wide ↦
        let (dx, ex) = rd_i16_total buf off (ground arith) in
        let (dy, ey) = rd_i16_total buf (off + 2) (ground arith) in
        IsDefined-some _ {a = (dx, dy)} (ground arith)
    | inr narrow ↦
        let (dx, ex) = get_elem?_total buf off (ground arith) in
        let (dy, ey) = get_elem?_total buf (off + 1) (ground arith) in
        IsDefined-some _ {a = (signed8 dx, signed8 dy)} (ground arith)
  ]

  read_z-IsDefined : off + stride h ≤ length buf → IsDefined (read_z h buf (off + delta_bytes h))
  unfolding read_z stride
  read_z-IsDefined room = elim (Bool-cases h.has_intensity) [
    | inl own ↦
        let (z, e) = get_elem?_total buf (off + delta_bytes h) (ground arith) in
        IsDefined-some _ {a = z} (ground arith)
    | inr shared ↦ IsDefined-some _ {a = h.bright} (ground arith)
  ]

delta_bytes-le-stride : (h : Header) → delta_bytes h ≤ stride h
unfolding stride
delta_bytes-le-stride h = omega arith

stride-le : (h : Header) → stride h ≤ 5
unfolding stride
stride-le h = ground arith

module _ {C : Type 0} where
  points-IsDefined :
      (h : Header) (buf : List ℕ) (left off : ℕ) (pen : Pen C)
      → off + left * stride h ≤ length buf
      → IsDefined (points h buf left off pen)
  unfolding points
  points-IsDefined h buf zero off pen room = tt
  points-IsDefined h buf (suc left) off pen room =
      let first = delta_bytes-le-stride h in
      >>=-IsDefined (read_delta h buf off) _ (read_delta-IsDefined h buf off (omega arith)) λ d _.
        >>=-IsDefined (read_z h buf (off + delta_bytes h)) _
          (read_z-IsDefined h buf off (omega arith))
          λ z _. points-IsDefined h buf left (off + stride h) (advance pen d.0 d.1 z) (omega arith)

  draw_points-IsDefined :
      (h : Header) (p : Parser C) (buf : List ℕ) (len : ℕ)
      → h.count < 65536
      → len ≤ length buf
      → IsDefined (draw_points h p buf len)
  unfolding draw_points
  draw_points-IsDefined h p buf len small room =
      let total : (h.count - 1) * stride h ≤ 65535 * 5 = grind (arith, stride-le h) in
      elim (Bool-cases (ltb len (8 + (h.count - 1) * stride h))) [
        | inl short ↦ ground arith
        | inr enough ↦
            let (pen, drawn) =
              value _ (points-IsDefined h buf (h.count - 1) 8 (start h p) (ground arith)) in
            ground arith
      ]

  -- The polyline expander never reads past its buffer, where that holds the header and the bytes
  -- of the payload: a payload that is cut off is not drawn.
  pub dispatch_polyline-IsDefined :
      (p : Parser C) (buf : List ℕ) (len : ℕ)
      → 8 ≤ length buf
      → len ≤ length buf
      → IsDefined (dispatch_polyline p buf len)
  unfolding dispatch_polyline
  dispatch_polyline-IsDefined p buf len long room =
      let (h, header, small) = polyline_header_total buf long in
      let drawn = draw_points-IsDefined h p buf len small room in ground arith
