-- ===== src/Frame/Valid/Word.antt =====
-- A word keeps a parser valid.
use vekterm.Base.{ℕ, ◌<◌, ◌≡◌, arith, Bool, Option-cases, inl, inr, some}
use vekterm.Protocol.Word.{
  Flag, Command, complete, rgb, xy, quality, frame, cmd, ext, exit, decode_word,
}
use vekterm.Protocol.Coord.{brightness_from_rgb}
use vekterm.Frame.State.{Parser}
use vekterm.Frame.Beam.{clamp_dev_coord}
use vekterm.Frame.Ext.Dispatch.{dispatch_subtype, dispatch_ext}
use vekterm.Frame.Parser.{
  on_header, on_xy, on_complete, on_exit_word, begin_ext, on_ext, on_cmd, dispatch, feed_word,
}
use vekterm.Frame.Valid.{IsValid}
use vekterm.Frame.Valid.Beam.{clamp_dev_coord-le, emit_lit-IsValid, reset_frame-IsValid}
use vekterm.Frame.Valid.Heightfield.{dispatch_heightfield-IsValid}
use vekterm.Frame.Valid.Polyline.{dispatch_polyline-IsValid}

-- The three channels of a colour word are bytes.
IsColour : Command → Type 0
IsColour c = (c.r < 256) × (c.g < 256) × (c.b < 256)

decode_word-IsColour : (w : ℕ) → IsColour (decode_word w)
unfolding decode_word IsColour
decode_word-IsColour w = ground arith

brightness_from_rgb-lt : (r g b : ℕ) → r < 256 → g < 256 → b < 256 → brightness_from_rgb r g b < 256
unfolding brightness_from_rgb
brightness_from_rgb-lt r g b hr hg hb = ground arith

module _ {C : Type 0} where
  dispatch_subtype-IsValid :
      (p : Parser C) {out : Parser C} → IsValid p → dispatch_subtype p ≡ some out → IsValid out
  unfolding dispatch_subtype
  dispatch_subtype-IsValid p {out} v e = ground (
    arith,
    dispatch_heightfield-IsValid p p.ext_buf p.ext_len {out = out} v.ext_bytes_ok v,
    dispatch_polyline-IsValid p p.ext_buf p.ext_len {out = out} v.ext_bytes_ok v,
  )

  pub dispatch_ext-IsValid :
      (p : Parser C) {out : Parser C} → IsValid p → dispatch_ext p ≡ some out → IsValid out
  unfolding dispatch_ext
  dispatch_ext-IsValid p {out} v e = elim (Option-cases (dispatch_subtype p)) [
    | inl fault ↦ ground arith
    | inr (q, drawn) ↦ let v' = dispatch_subtype-IsValid p v drawn in ground arith
  ]

  on_header-IsValid : (p : Parser C) (n : ℕ) → IsValid p → IsValid (on_header p n)
  unfolding on_header
  on_header-IsValid p n v = let v' = reset_frame-IsValid v in ground arith

  on_xy-IsValid : (p : Parser C) (c : Command) → IsValid p → IsValid (on_xy p c)
  unfolding on_xy
  on_xy-IsValid p c v =
      let x = clamp_dev_coord-le c.x in
      let y = clamp_dev_coord-le c.y in
      let lit = emit_lit-IsValid (clamp_dev_coord c.x) (clamp_dev_coord c.y) v x y in ground arith

  on_complete-IsValid : (p : Parser C) (m : Bool) → IsValid p → IsValid (on_complete p m)
  unfolding on_complete
  on_complete-IsValid p m v = reset_frame-IsValid (ground arith)

  pub begin_ext-IsValid : (p : Parser C) (w : ℕ) → IsValid p → IsValid (begin_ext p w)
  unfolding begin_ext
  begin_ext-IsValid p w v = ground arith

  on_ext-IsValid :
      (p : Parser C) (w : ℕ) {out : Parser C} → IsValid p → on_ext p w ≡ some out → IsValid out
  unfolding on_ext
  on_ext-IsValid p w {out} v e =
      let v' = begin_ext-IsValid p w v in
      ground (arith, dispatch_ext-IsValid (begin_ext p w) {out = out} v')

  on_exit_word-IsValid : (p : Parser C) → IsValid p → IsValid (on_exit_word p)
  unfolding on_exit_word
  on_exit_word-IsValid p v = ground arith

  on_cmd-IsValid : (p : Parser C) (w : ℕ) → IsValid p → IsValid (on_cmd p w)
  unfolding on_cmd
  on_cmd-IsValid p w v = ground arith

  dispatch-IsValid :
      (f : Flag) (c : Command) (w : ℕ) (p : Parser C) {out : Parser C}
      → IsColour c
      → IsValid p
      → dispatch f c w p ≡ some out
      → IsValid out
  unfolding dispatch IsColour
  dispatch-IsValid frame c w p colour v e = ground (arith, on_header-IsValid p c.value v)
  dispatch-IsValid rgb c w p colour v e =
      ground (arith, brightness_from_rgb-lt c.r c.g c.b colour.0 colour.1 colour.2)
  dispatch-IsValid xy c w p colour v e = ground (arith, on_xy-IsValid p c v)
  dispatch-IsValid complete c w p colour v e = ground (arith, on_complete-IsValid p c.monochrome v)
  dispatch-IsValid exit c w p colour v e = ground (arith, on_exit_word-IsValid p v)
  dispatch-IsValid ext c w p colour v e = on_ext-IsValid p w v e
  dispatch-IsValid cmd c w p colour v e = ground (arith, on_cmd-IsValid p w v)
  dispatch-IsValid quality c w p colour v e = ground arith

  pub feed_word-IsValid :
      (p : Parser C) (w : ℕ) {out : Parser C} → IsValid p → feed_word p w ≡ some out → IsValid out
  unfolding feed_word
  feed_word-IsValid p w v e =
      dispatch-IsValid (decode_word w).flag (decode_word w) w _ (decode_word-IsColour w)
        (ground arith) e
