-- ===== src/Frame/Valid/Beam.antt =====
-- The resets and the primitive that stores a vector keep a parser valid.
use vekterm.Base.{
  ℕ, ◌≤◌, ◌<◌, arith, Bool-cases, inl, inr, set, length-set, length-replicate, All, All-set,
  All-replicate,
}
use vekterm.Base.Int.{ℤ}
use vekterm.Protocol.Hello.{max_pipeline, ext_max}
use vekterm.Frame.State.{Segment, Frame, Sink, Parser}
use vekterm.Frame.Beam.{
  clamp_dev_coord, clamp_dev_int, zero_segment, reset_frame, init, resync, store_segment,
  add_segment, emit_lit,
}
use vekterm.Frame.Valid.{IsByte, IsInGrid, IsFrame, IsValid}

pub clamp_dev_coord-le : (v : ℕ) → clamp_dev_coord v ≤ 4095
unfolding clamp_dev_coord
clamp_dev_coord-le v = ground arith

pub clamp_dev_int-le : (v : ℤ) → clamp_dev_int v ≤ 4095
unfolding clamp_dev_int
clamp_dev_int-le v = ground arith

store_segment-IsFrame :
    (f : Frame) (s : Segment) → IsFrame f → IsInGrid s → IsFrame (store_segment f s)
store_segment-IsFrame f s v g =
    let grid : All IsInGrid (set f.segments f.count s) =
      All-set IsInGrid f.segments f.count s v.on_grid g in
    ground (arith, length-set f.segments f.count s)

module _ {C : Type 0} where
  pub add_segment-IsValid :
      {p : Parser C} (x0 y0 x1 y1 z : ℕ)
      → IsValid p
      → x0 ≤ 4095
      → y0 ≤ 4095
      → x1 ≤ 4095
      → y1 ≤ 4095
      → z < 256
      → IsValid (add_segment p x0 y0 x1 y1 z)
  unfolding add_segment
  add_segment-IsValid {p} x0 y0 x1 y1 z v h0 h1 h2 h3 hz =
      let frame =
        store_segment-IsFrame p.frame
          (record { x0 = x0; y0 = y0; x1 = x1; y1 = y1; brightness = z }) v.vectors (omega arith) in
      ground arith

  pub reset_frame-IsValid : {p : Parser C} → IsValid p → IsValid (reset_frame p)
  unfolding reset_frame
  reset_frame-IsValid v = ground arith

  pub resync-IsValid : {p : Parser C} → IsValid p → IsValid (resync p)
  unfolding resync
  resync-IsValid v = ground arith

  pub emit_lit-IsValid :
      {p : Parser C} (x y : ℕ) → IsValid p → x ≤ 4095 → y ≤ 4095 → IsValid (emit_lit p x y)
  unfolding emit_lit
  emit_lit-IsValid {p} x y v hx hy = elim (Bool-cases p.have_pos) [
    | inl e ↦
        rw e (add_segment-IsValid _ _ x y p.brightness v (omega arith) (omega arith) hx hy v.bright)
    | inr e ↦
        rw e (add_segment-IsValid _ _ x y p.brightness v (omega arith) (omega arith) hx hy v.bright)
  ]

  -- A fresh parser is valid.
  pub init-IsValid : (s : Sink C) → IsValid (init s)
  unfolding init
  init-IsValid s =
      let vectors =
        All-replicate IsInGrid max_pipeline zero_segment (unfold zero_segment in omega arith) in
      let payload = All-replicate IsByte ext_max 0 (omega arith) in
      let word = All-replicate IsByte 4 0 (omega arith) in
      ground (
        arith,
        length-replicate max_pipeline zero_segment,
        length-replicate {A = ℕ} ext_max 0,
        length-replicate {A = ℕ} 4 0,
      )
