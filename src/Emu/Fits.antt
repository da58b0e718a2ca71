-- ===== src/Emu/Fits.antt =====
-- In the loop of `draw_line` no `int` overflows, when the ends are near enough.
use vekterm.Base.{ℕ, ◌+◌, ◌*◌, ◌^◌, ◌<◌, ◌≤◌, ◌≡◌, refl, arith, Bool, true, false, ◌&&◌}
use vekterm.Base.Int.{ℤ, pos, negsuc, ◌+ℤ◌, ◌-ℤ◌, pos_part, neg_part, +ℤ_parts, -ℤ_parts}
use vekterm.Emu.Raster.{
  Course, Cursor, fits_int, glow_fits, toward, step, step_fits, distance, line_fits,
}
use vekterm.Emu.Ends.{Ahead, IsOnWay, goes_x, goes_y, goes_x-le, goes_y-le, stepped}

-- A coordinate of less than 2 ^ 28 above or below 0.
pub record IsNear (v : ℤ) : Type 0 where
  pub above : pos_part v < 2 ^ 28
  pub below : neg_part v < 2 ^ 28

-- The difference of the parts is what counts.
fits_between :
    (z : ℤ)
    → pos_part z < neg_part z + 2 ^ 31
    → neg_part z < pos_part z + 2 ^ 31
    → fits_int z ≡ true
unfolding fits_int
fits_between z h k = ground arith

size-lt :
    (z : ℤ) (n : ℕ)
    → pos_part z < neg_part z + n
    → neg_part z < pos_part z + n
    → pos_part z + neg_part z < n
size-lt (pos m) n h k = omega arith
size-lt (negsuc m) n h k = omega arith

pub distance-lt : (a b : ℤ) → IsNear a → IsNear b → distance a b < 2 ^ 29
distance-lt a b h k =
    size-lt (b -ℤ a) (2 ^ 29) (omega (arith, -ℤ_parts b a, h.above, h.below, k.above, k.below))
      (omega (arith, -ℤ_parts b a, h.above, h.below, k.above, k.below))

-- The course of a line between near ends, and the bounds of `err`.
pub record IsShort (l : Course) : Type 0 where
  pub short_x : l.dx < 2 ^ 29
  pub short_y : l.dy < 2 ^ 29
  pub end_x : IsNear l.x1
  pub end_y : IsNear l.y1

pub record IsBounded (l : Course) (c : Cursor) : Type 0 where
  pub most : pos_part c.err ≤ neg_part c.err + 2 * l.dx
  pub least : neg_part c.err ≤ pos_part c.err + 2 * l.dy

-- A coordinate on the way is not far away.
pub record IsAround (v : ℤ) : Type 0 where
  pub above : pos_part v < neg_part v + 2 ^ 30
  pub below : neg_part v < pos_part v + 2 ^ 30

Ahead-IsAround :
    (up : Bool) (v w : ℤ) (p d : ℕ) → Ahead up v p w → p ≤ d → d < 2 ^ 29 → IsNear w → IsAround v
Ahead-IsAround true v w p d h k short near = record {
  above = omega (arith, h, near.above);
  below = omega (arith, h, near.below);
}
Ahead-IsAround false v w p d h k short near = record {
  above = omega (arith, h, near.above);
  below = omega (arith, h, near.below);
}

up_fits : (v : ℤ) → IsAround v → fits_int (v +ℤ pos 1) ≡ true
up_fits v h =
    fits_between (v +ℤ pos 1) (omega (arith, +ℤ_parts v (pos 1), h.above))
      (omega (arith, +ℤ_parts v (pos 1), h.below))

down_fits : (v : ℤ) → IsAround v → fits_int (v -ℤ pos 1) ≡ true
down_fits v h =
    fits_between (v -ℤ pos 1) (omega (arith, -ℤ_parts v (pos 1), h.above))
      (omega (arith, -ℤ_parts v (pos 1), h.below))

stay_fits : (v : ℤ) → IsAround v → fits_int v ≡ true
stay_fits v h = fits_between v (omega (arith, h.above)) (omega (arith, h.below))

toward_fits : (up : Bool) (v : ℤ) → IsAround v → fits_int (toward up v) ≡ true
toward_fits true v h = up_fits v h
toward_fits false v h = down_fits v h

pub glow_fits-true : (x y : ℤ) → IsAround x → IsAround y → glow_fits x y ≡ true
glow_fits-true x y h k = rw (up_fits x h, down_fits x h, up_fits y k, down_fits y k) refl

module _ (l : Course) (short : IsShort l) where
  pub on_way-IsAround : (p q : ℕ) (c : Cursor) → IsOnWay l p q c → IsAround c.x × IsAround c.y
  on_way-IsAround p q c v = (
    Ahead-IsAround l.up_x c.x l.x1 p l.dx v.in_x v.less_x short.short_x short.end_x,
    Ahead-IsAround l.up_y c.y l.y1 q l.dy v.in_y v.less_y short.short_y short.end_y,
  )

  bounded_fits : (c : Cursor) → IsBounded l c → fits_int c.err ≡ true
  bounded_fits c b =
      fits_between c.err (omega (arith, b.most, short.short_x))
        (omega (arith, b.least, short.short_y))

  twice_fits : (c : Cursor) → IsBounded l c → fits_int (c.err +ℤ c.err) ≡ true
  twice_fits c b =
      fits_between (c.err +ℤ c.err) (omega (arith, +ℤ_parts c.err c.err, b.most, short.short_x))
        (omega (arith, +ℤ_parts c.err c.err, b.least, short.short_y))

  -- After the first test, and after both.
  first-IsBounded :
      (c : Cursor) (a : Bool) → goes_x l c ≡ a → IsBounded l c → IsBounded l (stepped l c a false)
  first-IsBounded c true go b =
      let e = goes_x-le l c go in
      record {
        most = omega (arith, b.most, -ℤ_parts c.err (pos l.dy));
        least = omega (arith, e, -ℤ_parts c.err (pos l.dy));
      }
  first-IsBounded c false go b = b

  both-IsBounded :
      (c : Cursor) (a b : Bool)
      → goes_x l c ≡ a
      → goes_y l c ≡ b
      → IsBounded l c
      → IsBounded l (stepped l c a b)
  both-IsBounded c a false go_x go_y h = first-IsBounded c a go_x h
  both-IsBounded c true true go_x go_y h =
      let e = goes_x-le l c go_x in
      let f = goes_y-le l c go_y in
      let m = -ℤ_parts c.err (pos l.dy) in
      let n = +ℤ_parts (c.err -ℤ pos l.dy) (pos l.dx) in
      record { most = omega arith; least = omega arith }
  both-IsBounded c false true go_x go_y h =
      let f = goes_y-le l c go_y in
      let n = +ℤ_parts c.err (pos l.dx) in
      record { most = omega (arith, h.most); least = omega (arith, h.least) }

  first_fits : (c : Cursor) (a : Bool) → IsAround c.x → fits_int (stepped l c a false).x ≡ true
  first_fits c true h = toward_fits l.up_x c.x h
  first_fits c false h = stay_fits c.x h

  both_fits : (c : Cursor) (a b : Bool) → IsAround c.y → fits_int (stepped l c a b).y ≡ true
  both_fits c true true h = toward_fits l.up_y c.y h
  both_fits c false true h = toward_fits l.up_y c.y h
  both_fits c true false h = stay_fits c.y h
  both_fits c false false h = stay_fits c.y h

  pub step-IsBounded : (c : Cursor) → IsBounded l c → IsBounded l (step l c)
  unfolding step
  step-IsBounded c h = both-IsBounded c (goes_x l c) (goes_y l c) refl refl h

  pub step_fits-true :
      (p q : ℕ) (c : Cursor) → IsOnWay l p q c → IsBounded l c → step_fits l c ≡ true
  unfolding step_fits
  step_fits-true p q c v h =
      let (around_x, around_y) = on_way-IsAround p q c v in
      let a = goes_x l c in
      let b = goes_y l c in
      let first = first-IsBounded c a refl h in
      let both = both-IsBounded c a b refl refl h in
      and_five (twice_fits c h) (bounded_fits (stepped l c a false) first) (first_fits c a around_x)
        (bounded_fits (stepped l c a b) both) (both_fits c a b around_y)
    where
      and_five :
          {s t u v w : Bool}
          → s ≡ true
          → t ≡ true
          → u ≡ true
          → v ≡ true
          → w ≡ true
          → (s && (t && (u && (v && w)))) ≡ true
      and_five s t u v w = ground arith

pub line_fits-true :
    (x0 y0 x1 y1 : ℤ) (z : ℕ)
    → IsNear x0
    → IsNear y0
    → IsNear x1
    → IsNear y1
    → z < 2 ^ 30
    → line_fits x0 y0 x1 y1 z ≡ true
unfolding line_fits
line_fits-true x0 y0 x1 y1 bright a b c d dim =
    let dx = distance x0 x1 in
    let dy = distance y0 y1 in
    let short_x = distance-lt x0 x1 a c in
    let short_y = distance-lt y0 y1 b d in
    let w = fits_between (x1 -ℤ x0) (omega (arith, short_x)) (omega (arith, short_x)) in
    let x = fits_between (y1 -ℤ y0) (omega (arith, short_y)) (omega (arith, short_y)) in
    let y = fits_between (pos dx) (omega arith) (omega arith) in
    let z = fits_between (pos dy) (omega arith) (omega arith) in
    let u =
      fits_between (pos dx -ℤ pos dy) (omega (arith, -ℤ_parts (pos dx) (pos dy)))
        (omega (arith, -ℤ_parts (pos dx) (pos dy))) in
    let v = fits_between (pos (120 + bright)) (omega arith) (omega arith) in
    rw (w, x, y, z, u, v) refl
