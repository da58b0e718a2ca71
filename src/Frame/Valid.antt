-- ===== src/Frame/Valid.antt =====
-- What holds of a parser between two calls: every index is in bounds, every stored vector is on
-- the device grid.
pub mod Beam
pub mod Heightfield
pub mod Polyline
pub mod Word
pub mod Feed
use vekterm.Base.{ℕ, ◌≤◌, ◌<◌, ◌≡◌, true, List, length, All, All-get_elem?, get_elem?, some}
use vekterm.Protocol.Word.{word_bytes}
use vekterm.Protocol.Hello.{max_pipeline, ext_max}
use vekterm.Protocol.Coord.{dvg_res_max}
use vekterm.Frame.State.{Segment, Frame, Parser}

abbrev pub IsByte : ℕ → Type 0
IsByte b = b < 256

pub byte_at-lt : (xs : List ℕ) (i b : ℕ) → All IsByte xs → get_elem? xs i ≡ some b → b < 256
byte_at-lt xs i b h e = All-get_elem? IsByte xs i h e

-- A vector of the device grid, with a brightness of eight bits.
pub record IsInGrid (s : Segment) : Type 0 where
  pub left : s.x0 ≤ dvg_res_max
  pub bottom : s.y0 ≤ dvg_res_max
  pub right : s.x1 ≤ dvg_res_max
  pub top : s.y1 ≤ dvg_res_max
  pub bright : s.brightness < 256

pub record IsFrame (f : Frame) : Type 0 where
  pub capacity : length f.segments ≡ max_pipeline
  pub used : f.count ≤ max_pipeline
  pub on_grid : All IsInGrid f.segments

pub record IsValid {C : Type 0} (p : Parser C) : Type 0 where
  pub vectors : IsFrame p.frame
  pub word_room : length p.bytes ≡ word_bytes
  pub word_bytes_ok : All IsByte p.bytes
  pub word_partial : p.nbytes < word_bytes
  pub beam_x : p.cur_x ≤ dvg_res_max
  pub beam_y : p.cur_y ≤ dvg_res_max
  pub bright : p.brightness < 256
  pub ext_room : length p.ext_buf ≡ ext_max
  pub ext_bytes_ok : All IsByte p.ext_buf
  pub ext_partial : p.ext_len ≤ ext_max
