-- ===== src/Frame/Ext/Polyline.antt =====
-- src/frame.c, `dispatch_polyline`. A read past the array is `none`. The `int` sums are not
-- wrapped; they stay in range.
use vekterm.Base.{
  ℕ, zero, suc, ◌+◌, ◌-◌, ◌*◌, ◌==◌, ◌&&◌, Bool, Option, some, List, ltb, leb, if◌then◌else◌, ◌>>=◌,
  u32, bit_set, get_elem?,
}
use vekterm.Base.Int.{ℤ, pos, ◌+ℤ◌, signed8}
use vekterm.Frame.State.{Parser}
use vekterm.Frame.Beam.{clamp_dev_int, rd_u16, rd_i16, add_segment}

-- The local variables that the eight bytes of the header set.
pub record Header : Type 0 where
  pub bright : ℕ
  pub x0 : ℕ
  pub y0 : ℕ
  pub count : ℕ
  pub has_intensity : Bool
  pub closed : Bool
  pub wide : Bool

unfoldable pub read_header : List ℕ → Option Header
read_header buf = do
  flags ← get_elem? buf 0
  bright ← get_elem? buf 1
  x0 ← rd_u16 buf 2
  y0 ← rd_u16 buf 4
  count ← rd_u16 buf 6
  some (record {
    bright = bright;
    x0 = x0;
    y0 = y0;
    count = count;
    has_intensity = bit_set flags 0;
    closed = bit_set flags 1;
    wide = bit_set flags 2;
  })

-- The bytes of the displacement, and of a point.
abbrev pub delta_bytes : Header → ℕ
delta_bytes h = if h.wide then 4 else 2

unfoldable pub stride : Header → ℕ
stride h = delta_bytes h + (if h.has_intensity then 1 else 0)

-- `dx` and `dy` at the offset `off`
unfoldable pub read_delta : Header → List ℕ → ℕ → Option (ℤ × ℤ)
read_delta h buf off =
    if h.wide
    then (do dx ← rd_i16 buf off; dy ← rd_i16 buf (off + 2); some (dx, dy))
    else (do dx ← get_elem? buf off; dy ← get_elem? buf (off + 1); some (signed8 dx, signed8 dy))

unfoldable pub read_z : Header → List ℕ → ℕ → Option ℕ
read_z h buf off = if h.has_intensity then get_elem? buf off else some h.bright

-- `x`, `y`, `px` and `py`, with the parser that the vectors go to.
pub record Pen (C : Type 0) : Type 0 where
  pub parser : Parser C
  pub x : ℤ
  pub y : ℤ
  pub px : ℕ
  pub py : ℕ

module _ {C : Type 0} where
  -- The body of the loop after its reads.
  unfoldable pub advance : Pen C → ℤ → ℤ → ℕ → Pen C
  advance pen dx dy z =
      let x = pen.x +ℤ dx in
      let y = pen.y +ℤ dy in
      let cx = clamp_dev_int x in
      let cy = clamp_dev_int y in
      record {
        parser = if ltb 0 z then add_segment pen.parser pen.px pen.py cx cy z else pen.parser;
        x = x;
        y = y;
        px = cx;
        py = cy;
      }

  -- The loop with `left` points to go, at the offset `off` of the pointer `p` in the payload.
  unfoldable pub points : Header → List ℕ → ℕ → ℕ → Pen C → Option (Pen C)
  points h buf zero off pen = some pen
  points h buf (suc left) off pen = do
    d ← read_delta h buf off
    z ← read_z h buf (off + delta_bytes h)
    points h buf left (off + stride h) (advance pen d.0 d.1 z)

  -- The closing vector.
  unfoldable pub close : Header → ℕ → Pen C → Parser C
  close h npts pen =
      if h.closed && leb 1 npts && ltb 0 h.bright
      then add_segment pen.parser pen.px pen.py (clamp_dev_int (pos h.x0))
          (clamp_dev_int (pos h.y0)) h.bright
      else pen.parser

  abbrev pub start : Header → Parser C → Pen C
  start h p = record {
    parser = p;
    x = pos h.x0;
    y = pos h.y0;
    px = clamp_dev_int (pos h.x0);
    py = clamp_dev_int (pos h.y0);
  }

  -- What follows the header. `npts` cannot wrap at a positive count.
  unfoldable pub draw_points : Header → Parser C → List ℕ → ℕ → Option (Parser C)
  draw_points h p buf len =
      let npts = h.count - 1 in
      if h.count == 0
      then some p
      else (if ltb len (u32 (8 + u32 (npts * stride h)))
          then some p
          else (do pen ← points h buf npts 8 (start h p); some (close h npts pen)))

  unfoldable pub dispatch_polyline : Parser C → List ℕ → ℕ → Option (Parser C)
  dispatch_polyline p buf len =
      if ltb len 8 then some p else (do h ← read_header buf; draw_points h p buf len)
