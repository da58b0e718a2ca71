-- ===== src/Frame/Ext/Heightfield.antt =====
-- src/frame.c, `dispatch_heightfield`. A read past the array is `none`. The `int` sums are not
-- wrapped; they stay in range.
use vekterm.Base.{
  ℕ, zero, suc, ◌+◌, ◌-◌, ◌*◌, ◌==◌, ◌&&◌, ◌^◌, Bool, true, false, Option, some, List, ltb,
  if◌then◌else◌, ◌>>=◌, u16, u32, shr, bit_set, get_elem?,
}
use vekterm.Base.Int.{ℤ, pos, ◌+ℤ◌, ◌*ℤ◌}
use vekterm.Frame.State.{Parser}
use vekterm.Frame.Beam.{clamp_dev_int, rd_u16, rd_i16, add_segment}

-- The local variables that the sixteen bytes of the header set.
pub record Header : Type 0 where
  pub cols : ℕ
  pub rows : ℕ
  pub x0 : ℤ
  pub x_step : ℤ
  pub y0 : ℤ
  pub y_step : ℤ
  pub y_scale : ℕ
  pub bright : ℕ
  pub has_intensity : Bool
  pub serpentine : Bool

unfoldable pub read_header : List ℕ → Option Header
read_header buf = do
  flags ← get_elem? buf 0
  cols ← rd_u16 buf 1
  rows ← rd_u16 buf 3
  x0 ← rd_i16 buf 5
  x_step ← rd_i16 buf 7
  y0 ← rd_i16 buf 9
  y_step ← rd_i16 buf 11
  y_scale ← rd_u16 buf 13
  bright ← get_elem? buf 15
  some (record {
    cols = cols;
    rows = rows;
    x0 = x0;
    x_step = x_step;
    y0 = y0;
    y_step = y_step;
    y_scale = y_scale;
    bright = bright;
    has_intensity = bit_set flags 0;
    serpentine = bit_set flags 1;
  })

-- `n`, the number of samples, and `need`, the length that the payload must have: both `uint32_t`.
unfoldable pub samples : Header → ℕ
samples h = u32 (h.cols * h.rows)

unfoldable pub need : Header → ℕ
unfolding samples
need h = u32 (u32 (16 + samples h) + (if h.has_intensity then samples h else 0))

-- `have`, `px` and `py` of a row, with the parser that the vectors go to.
pub record Run (C : Type 0) : Type 0 where
  pub parser : Parser C
  pub have : Bool
  pub px : ℕ
  pub py : ℕ

-- What a row starts from.
abbrev pub fresh : {C : Type 0} → Parser C → Run C
fresh p = record { parser = p; have = false; px = 0; py = 0 }

-- The column of the `k`th step of row `r`.
unfoldable pub column : Header → ℕ → ℕ → ℕ
column h r k = if h.serpentine && bit_set r 0 then u16 (h.cols + 2 ^ 16 - 1 - k) else k

unfoldable pub index : Header → ℕ → ℕ → ℕ
index h r c = u32 (u32 (r * h.cols) + c)

module _ (h : Header) where
  -- `z`
  unfoldable pub sample_z : List ℕ → ℕ → Option ℕ
  sample_z buf idx = if h.has_intensity then get_elem? buf (16 + samples h + idx) else some h.bright

  -- `x` and `y` of a sample with displacement `d`
  unfoldable pub sample_x : ℕ → ℕ
  sample_x c = clamp_dev_int (h.x0 +ℤ pos c *ℤ h.x_step)

  unfoldable pub sample_y : ℕ → ℕ → ℕ
  sample_y r d = clamp_dev_int (h.y0 +ℤ pos r *ℤ h.y_step +ℤ pos (shr (u32 (d * h.y_scale)) 8))

module _ {C : Type 0} (h : Header) (buf : List ℕ) where
  -- The rest of the body of the inner loop at a sample that is not blanked.
  unfoldable pub lit : ℕ → ℕ → ℕ → ℕ → Run C → Option (Run C)
  lit r c idx z run = do
    d ← get_elem? buf (16 + idx)
    some (record {
      parser =
          if run.have
          then add_segment run.parser run.px run.py (sample_x h c) (sample_y h r d) z
          else run.parser;
      have = true;
      px = sample_x h c;
      py = sample_y h r d;
    })

  -- The body of the inner loop.
  unfoldable pub point : ℕ → ℕ → Run C → Option (Run C)
  point r k run = do
    let c = column h r k
    let idx = index h r c
    z ← sample_z h buf idx
    if z == 0 then some (record run { have = false }) else lit r c idx z run

  -- The inner loop at step `k`, with `left` steps to go.
  unfoldable pub columns : ℕ → ℕ → ℕ → Run C → Option (Run C)
  columns r zero k run = some run
  columns r (suc left) k run = do run' ← point r k run; columns r left (k + 1) run'

  -- The outer loop at row `r`.
  unfoldable pub scan : ℕ → ℕ → Parser C → Option (Parser C)
  scan zero r p = some p
  scan (suc left) r p = do run ← columns r h.cols 0 (fresh p); scan left (r + 1) run.parser

module _ {C : Type 0} where
  unfoldable pub dispatch_heightfield : Parser C → List ℕ → ℕ → Option (Parser C)
  dispatch_heightfield p buf len =
      if ltb len 16
      then some p
      else (do h ← read_header buf; if ltb len (need h) then some p else scan h buf h.rows 0 p)
