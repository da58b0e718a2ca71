-- ===== src/Frame/Client/Payload.antt =====
-- An extension payload calls no callback.
use vekterm.Base.{
  ℕ, zero, suc, ◌+◌, ◌-◌, ◌≡◌, refl, arith, ◌∙◌, Option-cases, >>=-eq-some, inl, inr, List, some,
}
use vekterm.Base.Int.{ℤ}
use vekterm.Frame.State.{Parser}
use vekterm.Frame.Beam.{add_segment, emit_lit}
use vekterm.Frame.Ext.Heightfield
use vekterm.Frame.Ext.Polyline
use vekterm.Frame.Ext.Dispatch.{dispatch_subtype, dispatch_ext}

module _ {C : Type 0} where
  sink-lit :
      (h : Heightfield.Header) (buf : List ℕ) (r c idx z : ℕ) (run : Heightfield.Run C)
      {out : Heightfield.Run C}
      → Heightfield.lit h buf r c idx z run ≡ some out
      → out.parser.sink ≡ run.parser.sink
  unfolding Heightfield.lit add_segment
  sink-lit h buf r c idx z run {out} e = ground arith

  sink-point :
      (h : Heightfield.Header) (buf : List ℕ) (r k : ℕ) (run : Heightfield.Run C)
      {out : Heightfield.Run C}
      → Heightfield.point h buf r k run ≡ some out
      → out.parser.sink ≡ run.parser.sink
  unfolding Heightfield.point
  sink-point h buf r k run {out} e =
      let c = Heightfield.column h r k in
      elim (Option-cases (Heightfield.sample_z h buf (Heightfield.index h r c))) [
        | inl no_sample ↦ ground arith
        | inr (z, sample) ↦
            ground (arith, sink-lit h buf r c (Heightfield.index h r c) z run {out = out})
      ]

  sink-columns :
      (h : Heightfield.Header) (buf : List ℕ) (r left k : ℕ) (run : Heightfield.Run C)
      {out : Heightfield.Run C}
      → Heightfield.columns h buf r left k run ≡ some out
      → out.parser.sink ≡ run.parser.sink
  unfolding Heightfield.columns
  sink-columns h buf r zero k run e = ground arith
  sink-columns h buf r (suc left) k run e =
      let (run', step, rest) = >>=-eq-some (Heightfield.point h buf r k run) _ e in
      sink-columns h buf r left (k + 1) run' rest ∙ sink-point h buf r k run step

  sink-scan :
      (h : Heightfield.Header) (buf : List ℕ) (left r : ℕ) (p : Parser C) {out : Parser C}
      → Heightfield.scan h buf left r p ≡ some out
      → out.sink ≡ p.sink
  unfolding Heightfield.scan
  sink-scan h buf zero r p e = ground arith
  sink-scan h buf (suc left) r p e =
      let (run, row, rest) =
        >>=-eq-some (Heightfield.columns h buf r h.cols 0 (Heightfield.fresh p)) _ e in
      sink-scan h buf left (r + 1) run.parser rest
      ∙ sink-columns h buf r h.cols 0 (Heightfield.fresh p) row

  sink-dispatch_heightfield :
      (p : Parser C) (buf : List ℕ) (len : ℕ) {out : Parser C}
      → Heightfield.dispatch_heightfield p buf len ≡ some out
      → out.sink ≡ p.sink
  unfolding Heightfield.dispatch_heightfield
  sink-dispatch_heightfield p buf len {out} e = elim (Option-cases (Heightfield.read_header buf)) [
    | inl no_header ↦ ground arith
    | inr (h, header) ↦ ground (arith, sink-scan h buf h.rows 0 p {out = out})
  ]

  sink-advance :
      (pen : Polyline.Pen C) (dx dy : ℤ) (z : ℕ)
      → (Polyline.advance pen dx dy z).parser.sink ≡ pen.parser.sink
  unfolding Polyline.advance add_segment
  sink-advance pen dx dy z = ground arith

  sink-points :
      (h : Polyline.Header) (buf : List ℕ) (left off : ℕ) (pen : Polyline.Pen C)
      {out : Polyline.Pen C}
      → Polyline.points h buf left off pen ≡ some out
      → out.parser.sink ≡ pen.parser.sink
  unfolding Polyline.points
  sink-points h buf zero off pen e = ground arith
  sink-points h buf (suc left) off pen e =
      let (d, delta, rest) = >>=-eq-some (Polyline.read_delta h buf off) _ e in
      let (z, sample, rest') =
        >>=-eq-some (Polyline.read_z h buf (off + Polyline.delta_bytes h)) _ rest in
      sink-points h buf left (off + Polyline.stride h) (Polyline.advance pen d.0 d.1 z) rest'
      ∙ sink-advance pen d.0 d.1 z

  sink-close :
      (h : Polyline.Header) (npts : ℕ) (pen : Polyline.Pen C)
      → (Polyline.close h npts pen).sink ≡ pen.parser.sink
  unfolding Polyline.close add_segment
  sink-close h npts pen = ground arith

  sink-draw_points :
      (h : Polyline.Header) (p : Parser C) (buf : List ℕ) (len : ℕ) {out : Parser C}
      → Polyline.draw_points h p buf len ≡ some out
      → out.sink ≡ p.sink
  unfolding Polyline.draw_points
  sink-draw_points h p buf len {out} e =
      elim (Option-cases (Polyline.points h buf (h.count - 1) 8 (Polyline.start h p))) [
        | inl fault ↦ ground arith
        | inr (pen, drawn) ↦
            let kept = sink-points h buf (h.count - 1) 8 (Polyline.start h p) drawn in
            ground (arith, sink-close h (h.count - 1) pen)
      ]

  sink-dispatch_polyline :
      (p : Parser C) (buf : List ℕ) (len : ℕ) {out : Parser C}
      → Polyline.dispatch_polyline p buf len ≡ some out
      → out.sink ≡ p.sink
  unfolding Polyline.dispatch_polyline
  sink-dispatch_polyline p buf len {out} e = elim (Option-cases (Polyline.read_header buf)) [
    | inl no_header ↦ ground arith
    | inr (h, header) ↦ ground (arith, sink-draw_points h p buf len {out = out})
  ]

  sink-dispatch_subtype :
      (p : Parser C) {out : Parser C} → dispatch_subtype p ≡ some out → out.sink ≡ p.sink
  unfolding dispatch_subtype
  sink-dispatch_subtype p {out} e = ground (
    arith,
    sink-dispatch_heightfield p p.ext_buf p.ext_len {out = out},
    sink-dispatch_polyline p p.ext_buf p.ext_len {out = out},
  )

  pub sink-dispatch_ext :
      (p : Parser C) {out : Parser C} → dispatch_ext p ≡ some out → out.sink ≡ p.sink
  unfolding dispatch_ext
  sink-dispatch_ext p {out} e = elim (Option-cases (dispatch_subtype p)) [
    | inl fault ↦ ground arith
    | inr (q, drawn) ↦ let kept = sink-dispatch_subtype p drawn in ground arith
  ]

  pub sink-emit_lit : (p : Parser C) (x y : ℕ) → (emit_lit p x y).sink ≡ p.sink
  unfolding emit_lit add_segment
  sink-emit_lit p x y = refl
