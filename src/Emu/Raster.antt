-- ===== src/Emu/Raster.antt =====
-- tools/emu/emu_main.c: the framebuffer, and `draw_line` from the pixels of its ends on: the scaling
-- of a `double` to a pixel is left out. An overflow of an `int` in that loop is `none`.
use vekterm.Base.{
  ℕ, zero, suc, ◌+◌, ◌*◌, ◌/◌, ◌^◌, Bool, true, false, ◌&&◌, ◌||◌, ◌==◌, Option, none, some, List,
  set, get_elem?, replicate, ltb, leb, if◌then◌else◌, ◌>>=◌,
}
use vekterm.Base.Int.{ℤ, pos, ◌+ℤ◌, ◌-ℤ◌, pos_part, neg_part, ltb_ℤ}

-- `fb`, `W` and `H`
pub record Screen : Type 0 where
  pub fb : List ℕ
  pub width : ℕ
  pub height : ℕ

unfoldable pub fb_init : ℕ → ℕ → Screen
fb_init w h = record { fb = replicate (w * h) 0; width = w; height = h }

abbrev pub leb_ℤ : ℤ → ℤ → Bool
leb_ℤ a b = leb (pos_part a + neg_part b) (pos_part b + neg_part a)

abbrev pub eq_ℤ : ℤ → ℤ → Bool
eq_ℤ a b = pos_part a + neg_part b == pos_part b + neg_part a

-- The test of `px_add`: the pixel is not on the screen.
abbrev pub is_off : Screen → ℤ → ℤ → Bool
is_off s x y =
    ltb_ℤ x (pos 0) || (ltb_ℤ y (pos 0) || (leb_ℤ (pos s.width) x || leb_ℤ (pos s.height) y))

-- `s > 255 ? 255 : s`
abbrev pub capped : ℕ → ℕ
capped s = if ltb 255 s then 255 else s

-- A read or a write outside of `fb` is `none`.
unfoldable pub px_add : Screen → ℤ → ℤ → ℕ → Option Screen
px_add s x y v =
    let i = pos_part y * s.width + pos_part x in
    if is_off s x y
    then some s
    else (get_elem? s.fb i >>= λ p. some (record s { fb = set s.fb i (capped (p + v)) }))

-- An `int` can hold the number.
unfoldable pub fits_int : ℤ → Bool
fits_int z = ltb (pos_part z) (2 ^ 31) && leb (neg_part z) (2 ^ 31)

-- The coordinates of the pixels around one do not overflow.
abbrev pub glow_fits : ℤ → ℤ → Bool
glow_fits x y =
    fits_int (x +ℤ pos 1)
    && (fits_int (x -ℤ pos 1) && (fits_int (y +ℤ pos 1) && fits_int (y -ℤ pos 1)))

-- The pixels of a step: the core, and the glow around it.
unfoldable pub plot : ℤ → ℤ → ℕ → Screen → Option Screen
plot x y z s =
    if glow_fits x y
    then (px_add s x y (capped (120 + z)) >>= λ a. px_add a (x +ℤ pos 1) y (z / 3) >>= λ b.
        px_add b (x -ℤ pos 1) y (z / 3) >>= λ c.
        px_add c x (y +ℤ pos 1) (z / 3) >>= λ d. px_add d x (y -ℤ pos 1) (z / 3))
    else none

-- What the loop does not change: the end, the distances and whether a step goes up.
pub record Course : Type 0 where
  pub x1 : ℤ
  pub y1 : ℤ
  pub dx : ℕ
  pub dy : ℕ
  pub up_x : Bool
  pub up_y : Bool
  pub z : ℕ

-- `px0`, `py0` and `err`
pub record Cursor : Type 0 where
  pub x : ℤ
  pub y : ℤ
  pub err : ℤ

abbrev pub is_end : Course → Cursor → Bool
is_end l p = eq_ℤ p.x l.x1 && eq_ℤ p.y l.y1

abbrev pub toward : Bool → ℤ → ℤ
toward up v = if up then v +ℤ pos 1 else v -ℤ pos 1

-- `if (e2 >= dy) { err += dy; px0 += sx; }`; the `dy` of the source is the distance negated.
abbrev pub step_x : Course → ℤ → Cursor → Cursor
step_x l e2 p =
    if leb_ℤ (pos 0 -ℤ pos l.dy) e2
    then record p { err = p.err -ℤ pos l.dy; x = toward l.up_x p.x }
    else p

abbrev pub step_y : Course → ℤ → Cursor → Cursor
step_y l e2 p =
    if leb_ℤ e2 (pos l.dx) then record p { err = p.err +ℤ pos l.dx; y = toward l.up_y p.y } else p

unfoldable pub step : Course → Cursor → Cursor
step l p = let e2 = p.err +ℤ p.err in step_y l e2 (step_x l e2 p)

-- No sum of a step overflows: `2 * err`, and `err` and the position after each test.
unfoldable pub step_fits : Course → Cursor → Bool
step_fits l p =
    let e2 = p.err +ℤ p.err in
    let a = step_x l e2 p in
    let b = step_y l e2 a in
    fits_int e2 && (fits_int a.err && (fits_int a.x && (fits_int b.err && fits_int b.y)))

-- The loop, of at most `n` steps; `none` is also that they were not enough.
unfoldable pub walk : Course → ℕ → Cursor → Screen → Option Screen
walk l zero p s = none
walk l (suc n) p s = plot p.x p.y l.z s >>= λ t. elim (is_end l p) [
  | true ↦ some t
  | false ↦ elim (step_fits l p) [ true ↦ walk l n (step l p) t | false ↦ none ]
]

-- `abs(b - a)`
abbrev pub distance : ℤ → ℤ → ℕ
distance a b = let d = b -ℤ a in pos_part d + neg_part d

abbrev pub line_between : ℤ → ℤ → ℤ → ℤ → ℕ → Course
line_between x0 y0 x1 y1 z = record {
  x1 = x1;
  y1 = y1;
  dx = distance x0 x1;
  dy = distance y0 y1;
  up_x = ltb_ℤ x0 x1;
  up_y = ltb_ℤ y0 y1;
  z = z;
}

-- The differences, their sizes, `dx + dy`, with `dy` negated, and `120 + z` do not overflow.
unfoldable pub line_fits : ℤ → ℤ → ℤ → ℤ → ℕ → Bool
line_fits x0 y0 x1 y1 z =
    let dx = distance x0 x1 in
    let dy = distance y0 y1 in
    fits_int (x1 -ℤ x0)
    && (fits_int (y1 -ℤ y0)
        && (fits_int (pos dx)
            && (fits_int (pos dy) && (fits_int (pos dx -ℤ pos dy) && fits_int (pos (120 + z))))))

-- Each step goes nearer to the end, so that the sum of the distances is enough.
unfoldable pub draw_line : ℤ → ℤ → ℤ → ℤ → ℕ → Screen → Option Screen
draw_line x0 y0 x1 y1 z s =
    let l = line_between x0 y0 x1 y1 z in
    if line_fits x0 y0 x1 y1 z
    then walk l (l.dx + l.dy + 1) (record { x = x0; y = y0; err = pos l.dx -ℤ pos l.dy }) s
    else none
