-- ===== src/Frame/State.antt =====
-- src/frame.h: the frame under construction, the sink and the decoder state.
use vekterm.Base.{ℕ, Bool, Option, List}

-- `vt_segment`
pub record Segment : Type 0 where
  pub x0 : ℕ
  pub y0 : ℕ
  pub x1 : ℕ
  pub y1 : ℕ
  pub brightness : ℕ

-- `vt_frame`; `segments` is the whole array, of which the first `count` are in use.
pub record Frame : Type 0 where
  pub segments : List Segment
  pub count : ℕ
  pub total_length : ℕ
  pub monochrome : Bool
  pub overflow : Bool

-- `vt_sink`. `ctx` is what the context pointer leads to; a callback maps it to what it becomes,
-- and a NULL callback is `none`.
pub record Sink (C : Type 0) : Type 0 where
  pub ctx : C
  pub on_frame : Option (C → Frame → C)
  pub on_exit : Option (C → C)
  pub on_query : Option (C → C)
  pub on_keepalive : Option (C → C)

-- `vt_parser`
pub record Parser (C : Type 0) : Type 0 where
  pub sink : Sink C
  pub bytes : List ℕ
  pub nbytes : ℕ
  pub cur_x : ℕ
  pub cur_y : ℕ
  pub have_pos : Bool
  pub brightness : ℕ
  pub ext_subtype : ℕ
  pub ext_remaining : ℕ
  pub ext_len : ℕ
  pub ext_overflow : Bool
  pub ext_buf : List ℕ
  pub frame : Frame
  pub words_seen : ℕ
  pub frames_done : ℕ
  pub session_over : Bool

-- VT_DEV_CENTER
abbrev pub dev_center : ℕ
dev_center = 2048
