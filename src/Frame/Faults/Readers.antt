-- ===== src/Frame/Faults/Readers.antt =====
-- The field readers succeed inside the buffer, and so do the readers of the two headers.
use vekterm.Base.{
  ℕ, ◌+◌, ◌≤◌, ◌<◌, ◌≡◌, arith, List, some, length, get_elem?_total, bit_set, u16, bit_or, shl,
}
use vekterm.Base.Int.{ℤ, signed16}
use vekterm.Frame.Beam.{rd_u16, rd_i16}
use vekterm.Frame.Ext.Heightfield
use vekterm.Frame.Ext.Polyline

pub rd_u16_total :
    (b : List ℕ) (off : ℕ) → off + 1 < length b → (w : ℕ) × (rd_u16 b off ≡ some w) × (w < 65536)
unfolding rd_u16
rd_u16_total b off h =
    let (hi, e) = get_elem?_total b off (omega arith) in
    let (lo, e') = get_elem?_total b (off + 1) h in
    (u16 (bit_or (shl hi 8) lo), ground arith, omega arith)

pub rd_i16_total : (b : List ℕ) (off : ℕ) → off + 1 < length b → (w : ℤ) × (rd_i16 b off ≡ some w)
unfolding rd_i16
rd_i16_total b off h = let (w, e, small) = rd_u16_total b off h in (signed16 w, ground arith)

pub heightfield_header_total :
    (buf : List ℕ)
    → 16 ≤ length buf
    → (h : Heightfield.Header) × (Heightfield.read_header buf ≡ some h)
      × (h.cols < 65536)
      × (h.rows < 65536)
unfolding Heightfield.read_header
heightfield_header_total buf long =
    let (flags, e0) = get_elem?_total buf 0 (omega arith) in
    let (cols, e1, small_cols) = rd_u16_total buf 1 (omega arith) in
    let (rows, e2, small_rows) = rd_u16_total buf 3 (omega arith) in
    let (x0, e3) = rd_i16_total buf 5 (omega arith) in
    let (x_step, e4) = rd_i16_total buf 7 (omega arith) in
    let (y0, e5) = rd_i16_total buf 9 (omega arith) in
    let (y_step, e6) = rd_i16_total buf 11 (omega arith) in
    let (y_scale, e7, small_scale) = rd_u16_total buf 13 (omega arith) in
    let (bright, e8) = get_elem?_total buf 15 (omega arith) in
    (
      record {
        cols = cols;
        rows = rows;
        x0 = x0;
        x_step = x_step;
        y0 = y0;
        y_step = y_step;
        y_scale = y_scale;
        bright = bright;
        has_intensity = bit_set flags 0;
        serpentine = bit_set flags 1;
      },
      rw (e0, e1, e2, e3, e4, e5, e6, e7, e8),
      small_cols,
      small_rows,
    )

pub polyline_header_total :
    (buf : List ℕ)
    → 8 ≤ length buf
    → (h : Polyline.Header) × (Polyline.read_header buf ≡ some h) × (h.count < 65536)
unfolding Polyline.read_header
polyline_header_total buf long =
    let (flags, e0) = get_elem?_total buf 0 (omega arith) in
    let (bright, e1) = get_elem?_total buf 1 (omega arith) in
    let (x0, e2, small_x) = rd_u16_total buf 2 (omega arith) in
    let (y0, e3, small_y) = rd_u16_total buf 4 (omega arith) in
    let (count, e4, small_count) = rd_u16_total buf 6 (omega arith) in
    (
      record {
        bright = bright;
        x0 = x0;
        y0 = y0;
        count = count;
        has_intensity = bit_set flags 0;
        closed = bit_set flags 1;
        wide = bit_set flags 2;
      },
      rw (e0, e1, e2, e3, e4),
      small_count,
    )
