-- ===== src/Host/Stub.antt =====
-- src/backend.h and src/backend_stub.c: the backend that reports each frame. What it prints is a
-- list of lines. `unsigned long` has 64 bits. `stub_refresh` does nothing, and `stub_shutdown` frees
-- the context.
use vekterm.Base.{
  ℕ, ◌+◌, Bool, true, false, Option, none, some, List, [], ◌∷◌, map, take, u64, if◌then◌else◌,
}
use vekterm.Base.Int.{ℤ}
use vekterm.Frame.State.{Segment, Frame}
use vekterm.Frame.Beam.{zero_frame}

-- `vt_options`
pub record Options : Type 0 where
  pub vectrex_min : ℤ
  pub vectrex_max : ℤ
  pub scale : ℤ
  pub bright_shift : ℤ
  pub verbose : Bool

-- `stub_ctx`
pub record Stub : Type 0 where
  pub opt : Options
  pub active : Frame
  pub have_frame : Bool
  pub frames : ℕ

-- The lines on stdout, with the values that they show: a frame's number, its vectors, its travel
-- and its overflow; a vector; a keepalive; the verdict of the self test.
pub data Line : Type 0 where
  frame_line : ℕ → ℕ → ℕ → Bool → Line
  vector_line : Segment → Line
  keepalive_line : Line
  selftest_line : Bool → ℕ → Line

-- `stub_init`, when `calloc` finds memory and when it does not.
unfoldable pub stub_init : Bool → Options → Option Stub
stub_init false opt = none
stub_init true opt =
    some (record { opt = opt; active = zero_frame; have_frame = false; frames = 0 })

-- What `stub_set_frame` prints: the loop reads the first `count` vectors, which the array has.
unfoldable pub frame_lines : Options → ℕ → Frame → List Line
frame_lines opt n f =
    frame_line n f.count f.total_length f.overflow
    ∷ (if opt.verbose then map vector_line (take f.count f.segments) else [])

unfoldable pub stub_set_frame : Stub → Frame → Stub × List Line
unfolding frame_lines
stub_set_frame c f =
    let n = u64 (c.frames + 1) in
    (record c { active = f; have_frame = true; frames = n }, frame_lines c.opt n f)
