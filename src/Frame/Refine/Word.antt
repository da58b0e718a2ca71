-- ===== src/Frame/Refine/Word.antt =====
-- Each operation on the frame under construction follows the picture.
use Prim.Native.Nat.{max}
use vekterm.Base.{ℕ, ◌≤◌, ◌≡◌, refl, arith, true, false, length, ◌∙◌, u16, if◌then◌else◌}
use vekterm.Protocol.Hello.{max_pipeline}
use vekterm.Protocol.Coord.{brightness_from_rgb}
use vekterm.Protocol.Message.{move, draw}
use vekterm.Frame.State.{Segment, Frame, Parser}
use vekterm.Frame.Beam.{clamp_dev_coord, reset_frame, add_segment, emit_lit, store_segment}
use vekterm.Frame.Parser.{on_header}
use vekterm.Frame.Picture.{Picture, blank, grid, stroke, draws}
use vekterm.Frame.Refine.Store.{Holds, reset_counts-Holds, store_segment-Holds}

pub record Follows {C : Type 0} (p : Parser C) (pic : Picture) : Type 0 where
  pub buffer : Holds p.frame pic.strokes
  pub pen_x : p.cur_x ≡ pic.pen_x
  pub pen_y : p.cur_y ≡ pic.pen_y
  pub home : p.have_pos ≡ false → (pic.pen_x ≡ 2048) × (pic.pen_y ≡ 2048)
  pub in_x : pic.pen_x ≤ 4095
  pub in_y : pic.pen_y ≤ 4095
  pub level : p.brightness ≡ pic.level
  pub travel : p.frame.total_length ≡ pic.travel

pub brightness-eq-max : (r g b : ℕ) → brightness_from_rgb r g b ≡ max r (max g b)
unfolding brightness_from_rgb
brightness-eq-max r g b = ground arith

pub clamp-eq-grid : (v : ℕ) → clamp_dev_coord v ≡ grid v
unfolding clamp_dev_coord
clamp-eq-grid v = ground arith

total_length-store_segment :
    (f : Frame) (s : Segment) → (store_segment f s).total_length ≡ f.total_length
total_length-store_segment f s = ground arith

module _ {C : Type 0} where
  pub reset_frame-Follows :
      (p : Parser C) → length p.frame.segments ≡ max_pipeline → Follows (reset_frame p) (blank 0)
  unfolding reset_frame
  reset_frame-Follows p room = let empty = reset_counts-Holds p.frame room in ground arith

  pub on_header-Follows :
      (p : Parser C) (n : ℕ)
      → length p.frame.segments ≡ max_pipeline
      → Follows (on_header p n) (blank n)
  unfolding on_header reset_frame
  on_header-Follows p n room = let empty = reset_counts-Holds p.frame room in ground arith

  pub emit_lit-Follows :
      {p : Parser C} {pic : Picture} (x y : ℕ)
      → Follows p pic
      → Follows (emit_lit p (grid x) (grid y)) (draws (draw x y) pic)
  unfolding emit_lit add_segment draws
  emit_lit-Follows {p} {pic} x y f =
      let stored = store_segment-Holds p.frame pic.strokes (stroke pic x y) f.buffer in
      let from_x : u16 (if p.have_pos then p.cur_x else 2048) ≡ pic.pen_x =
        ground (arith, f.home) in
      let from_y : u16 (if p.have_pos then p.cur_y else 2048) ≡ pic.pen_y =
        ground (arith, f.home) in
      rw (from_x, from_y, f.level)
        (record {
          buffer = stored;
          pen_x = refl;
          pen_y = refl;
          home = λ e. cc;
          in_x = omega arith;
          in_y = omega arith;
          level = refl;
          travel = total_length-store_segment p.frame (stroke pic x y) ∙ f.travel;
        })

  -- The position is the only thing that a move changes.
  pub on_move-Follows :
      {p : Parser C} {pic : Picture} (x y : ℕ)
      → Follows p pic
      → Follows
          (record p { cur_x = grid x; cur_y = grid y; have_pos = true })
          (draws (move x y) pic)
  unfolding draws
  on_move-Follows x y f = record {
    buffer = f.buffer;
    pen_x = refl;
    pen_y = refl;
    home = λ e. cc;
    in_x = omega arith;
    in_y = omega arith;
    level = f.level;
    travel = f.travel;
  }
