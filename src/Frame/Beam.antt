-- ===== src/Frame/Beam.antt =====
-- src/frame.c: clamps, field readers, the resets and the primitive that stores a vector.
use vekterm.Base.{
  ℕ, ◌+◌, true, false, Option, some, List, ltb, if◌then◌else◌, ◌>>=◌, bit_or, u16, shl, get_elem?,
  set, replicate,
}
use vekterm.Base.Int.{ℤ, pos, ltb_ℤ, pos_part, signed16}
use vekterm.Protocol.Word.{word_bytes}
use vekterm.Protocol.Hello.{max_pipeline, ext_max}
use vekterm.Protocol.Coord.{dvg_res_max}
use vekterm.Frame.State.{Segment, Frame, Sink, Parser, dev_center}

unfoldable pub clamp_dev_coord : ℕ → ℕ
clamp_dev_coord v = if ltb dvg_res_max v then dvg_res_max else v

-- The last cast is of a value from 0 to 4095.
unfoldable pub clamp_dev_int : ℤ → ℕ
clamp_dev_int v =
    if ltb_ℤ v (pos 0)
    then 0
    else (if ltb_ℤ (pos dvg_res_max) v then dvg_res_max else u16 (pos_part v))

unfoldable pub rd_u16 : List ℕ → ℕ → Option ℕ
rd_u16 b off = do
  high ← get_elem? b off
  low ← get_elem? b (off + 1)
  some (u16 (bit_or (shl high 8) low))

unfoldable pub rd_i16 : List ℕ → ℕ → Option ℤ
rd_i16 b off = do w ← rd_u16 b off; some (signed16 w)

abbrev pub reset_counts : Frame → Frame
reset_counts f = record f { count = 0; total_length = 0; monochrome = false; overflow = false }

-- `memset` to zero
unfoldable pub zero_segment : Segment
zero_segment = record { x0 = 0; y0 = 0; x1 = 0; y1 = 0; brightness = 0 }

unfoldable pub zero_frame : Frame
unfolding zero_segment
zero_frame = record {
  segments = replicate max_pipeline zero_segment;
  count = 0;
  total_length = 0;
  monochrome = false;
  overflow = false;
}

abbrev pub store_segment : Frame → Segment → Frame
store_segment f s =
    if ltb f.count max_pipeline
    then record f { segments = set f.segments f.count s; count = f.count + 1 }
    else record f { overflow = true }

module _ {C : Type 0} where
  -- `vt_parser_reset_frame`
  unfoldable pub reset_frame : Parser C → Parser C
  reset_frame p = record p {
    frame = reset_counts p.frame;
    brightness = 0;
    have_pos = false;
    cur_x = dev_center;
    cur_y = dev_center;
  }

  -- `vt_parser_init`
  unfoldable pub init : Sink C → Parser C
  unfolding reset_frame zero_frame
  init s = reset_frame (record {
    sink = s;
    bytes = replicate word_bytes 0;
    nbytes = 0;
    cur_x = 0;
    cur_y = 0;
    have_pos = false;
    brightness = 0;
    ext_subtype = 0;
    ext_remaining = 0;
    ext_len = 0;
    ext_overflow = false;
    ext_buf = replicate ext_max 0;
    frame = zero_frame;
    words_seen = 0;
    frames_done = 0;
    session_over = false;
  })

  -- `vt_parser_resync`
  unfoldable pub resync : Parser C → Parser C
  resync p = record p { nbytes = 0; ext_remaining = 0; ext_len = 0; ext_overflow = false }

  unfoldable pub add_segment : Parser C → ℕ → ℕ → ℕ → ℕ → ℕ → Parser C
  add_segment p x0 y0 x1 y1 z = record p {
    frame = store_segment p.frame (record { x0 = x0; y0 = y0; x1 = x1; y1 = y1; brightness = z });
    cur_x = x1;
    cur_y = y1;
    have_pos = true;
  }

  unfoldable pub emit_lit : Parser C → ℕ → ℕ → Parser C
  unfolding add_segment
  emit_lit p x y =
      let sx = u16 (if p.have_pos then p.cur_x else dev_center) in
      let sy = u16 (if p.have_pos then p.cur_y else dev_center) in
      add_segment p sx sy x y p.brightness
