-- ===== src/Receiver/Draw.antt =====
-- What the receiver draws of a frame that it was given.
use mathlib.Core.List.{append-nil, append_assoc}
use native.Mathlib.Numerals.{add-one}
use vekterm.Base.{
  ℕ, suc, ◌+◌, ◌*◌, ◌/◌, ◌≤◌, ◌<◌, ◌≡◌, refl, arith, ap, sym, ◌∙◌, List, [], ◌∷◌, ◌++◌, map, length,
  length-take, take, set, take-set, length-set,
}
use vekterm.Base.Int.{ℤ, pos, ◌+ℤ◌, to_int16, to_int16_id}
use vekterm.Protocol.Coord.{map_coord}
use vekterm.Protocol.Coord.Nearest.{map_coord_nearest}
use vekterm.Frame.State.{Segment, Frame}
use vekterm.Frame.Refine.Store.{Holds}
use vekterm.Receiver.State.{vectrex_min, vectrex_max, DrawSeg, direct_draw, Globals, emit}
use vekterm.Receiver.Callbacks.{to_vectrex, draw_of, copy_segments, on_frame, draw_active_frame}

pub length-copy_segments :
    (i : ℕ) (segs : List Segment) (draw : List DrawSeg)
    → length (copy_segments i segs draw) ≡ length draw
unfolding copy_segments
length-copy_segments i [] draw = refl
length-copy_segments i (s ∷ segs) draw =
    length-copy_segments (i + 1) segs (set draw i _) ∙ length-set draw i _

pub take-copy_segments :
    (segs : List Segment) (i : ℕ) (draw : List DrawSeg)
    → i + length segs ≤ length draw
    → take (i + length segs) (copy_segments i segs draw) ≡ take i draw ++ map draw_of segs
unfolding copy_segments
take-copy_segments [] i draw room =
    let e : i + 0 ≡ i = omega arith in rw e (sym (append-nil (take i draw)))
take-copy_segments (s ∷ segs) i draw room =
    let v = draw_of s in
    let later =
      take-copy_segments segs (i + 1) (set draw i v) (omega (arith, length-set draw i v)) in
    let first = take-set draw i v (omega arith) in
    let wider : i + suc (length segs) ≡ i + 1 + length segs = omega arith in
    let one : take (i + 1) (set draw i v) ≡ take i draw ++ (v ∷ []) = rw add-one first in
    rw wider (
      later
      ∙ ap (λ xs. xs ++ map draw_of segs) one
      ∙ append_assoc (take i draw) (v ∷ []) (map draw_of segs))

-- A frame whose buffer holds the vectors of a picture is drawn, when the receiver has got it, as
-- those vectors in their order, each mapped once, as far as the buffer went.
draw_active_frame-on_frame :
    (g : Globals) (f : Frame) (strokes : List Segment)
    → length g.g_draw ≡ 3000
    → Holds f strokes
    → draw_active_frame (on_frame g f)
      ≡ emit (on_frame g f) (map direct_draw (map draw_of (take 3000 strokes)))
unfolding draw_active_frame on_frame
draw_active_frame-on_frame g f strokes room h =
    let count = length-take f.count f.segments (omega (arith, h.count, h.room)) in
    let copied = take-copy_segments (take f.count f.segments) 0 g.g_draw (omega (arith, h.count)) in
    let mapped = copy_segments 0 (take f.count f.segments) g.g_draw in
    let whole : f.count ≡ 0 + length (take f.count f.segments) = omega (arith, count) in
    let all : take f.count mapped ≡ map draw_of (take 3000 strokes) =
      ap (λ n. take n mapped) whole ∙ copied ∙ ap (λ xs. map draw_of xs) h.stored in
    ap (λ ds. emit (on_frame g f) (map direct_draw ds)) all

-- A coordinate of the integrator range that is nearest to where `v` of the device grid lies in it.
pub record Near (v : ℕ) (x : ℤ) : Type 0 where
  pub offset : ℕ
  pub from_min : x ≡ vectrex_min +ℤ pos offset
  pub above : 4095 * offset ≤ 20000 * v + 2047
  pub below : 20000 * v ≤ 4095 * offset + 2047
  pub inside : offset ≤ 20000

range_end : vectrex_min +ℤ pos 20000 ≡ vectrex_max
unfolding ◌+ℤ◌
range_end = refl

narrow : (m : ℕ) → m ≤ 20000 → to_int16 (vectrex_min +ℤ pos m) ≡ vectrex_min +ℤ pos m
unfolding ◌+ℤ◌
narrow m h = to_int16_id (vectrex_min +ℤ pos m) (ground arith) (ground arith)

to_vectrex-Near : (v : ℕ) → v ≤ 4095 → Near v (to_vectrex v)
to_vectrex-Near v h =
    let (m, rising, falling, above, below) =
      map_coord_nearest vectrex_min 20000 v (omega arith) h in
    let inside : m ≤ 20000 = omega arith in
    let at : map_coord (pos v) vectrex_min vectrex_max ≡ vectrex_min +ℤ pos m =
      ap (λ end. map_coord (pos v) vectrex_min end) (sym range_end) ∙ rising in
    record {
      offset = m;
      from_min = ap to_int16 at ∙ narrow m inside;
      above = above;
      below = below;
      inside = inside;
    }

-- A vector on the device grid is mapped end by end to the nearest points of the integrator range,
-- with no wrap in 16 bits, and its intensity to half of it, which the z axis can take.
pub draw_of_lem :
    (s : Segment)
    → s.x0 ≤ 4095
    → s.y0 ≤ 4095
    → s.x1 ≤ 4095
    → s.y1 ≤ 4095
    → s.brightness < 256
    → Near s.x0 (draw_of s).x0
      × Near s.y0 (draw_of s).y0
      × Near s.x1 (draw_of s).x1
      × Near s.y1 (draw_of s).y1
      × ((draw_of s).z ≡ s.brightness / 2)
      × ((draw_of s).z < 128)
unfolding draw_of
draw_of_lem s hx0 hy0 hx1 hy1 hb = (
  to_vectrex-Near s.x0 hx0,
  to_vectrex-Near s.y0 hy0,
  to_vectrex-Near s.x1 hx1,
  to_vectrex-Near s.y1 hy1,
  omega arith,
  omega arith,
)
