-- ===== src/Protocol/Coord/Nearest.antt =====
-- `vt_map_coord` against linear interpolation rounded to nearest.
use vekterm.Base.{ℕ, ◌+◌, ◌*◌, ◌/◌, ◌^◌, ◌≤◌, ◌<◌, ◌≡◌, arith}
use Prim.Native.Nat.{min}
use vekterm.Base.Int.{
  ℤ, pos, negsuc, ◌+ℤ◌, ◌-ℤ◌, ◌*ℤ◌, ◌≤ℤ◌, quot_ℤ, int_laws, to_int32, to_int32_id,
}
use vekterm.Protocol.Coord.{map_coord, clamp_res, round_quot}

-- The device coordinate that is used: the nearest one on the grid.
abbrev pub on_grid : ℤ → ℕ
on_grid (pos n) = min n 4095
on_grid (negsuc n) = 0

pub clamp_res-eq-on_grid : (dev : ℤ) → clamp_res dev ≡ pos (on_grid dev)
unfolding clamp_res
clamp_res-eq-on_grid (pos n) = ground arith
clamp_res-eq-on_grid (negsuc n) = ground arith

-- The quotient of `n` by the grid's size, rounded to nearest.
abbrev pub nearest : ℕ → ℕ
nearest n = (n + 2047) / 4095

round_quot-pos : (n : ℕ) → round_quot (pos n) ≡ pos (nearest n)
unfolding round_quot quot_ℤ ◌+ℤ◌
round_quot-pos n = ground arith

round_quot-neg : (n : ℕ) → round_quot (pos 0 -ℤ pos n) ≡ pos 0 -ℤ pos (nearest n)
unfolding round_quot quot_ℤ ◌+ℤ◌ ◌-ℤ◌
round_quot-neg n = ground arith

pos-*ℤ : (s d : ℕ) → pos s *ℤ pos d ≡ pos (s * d)
unfolding ◌*ℤ◌
pos-*ℤ s d = ground arith

neg-*ℤ : (s d : ℕ) → (pos 0 -ℤ pos s) *ℤ pos d ≡ pos 0 -ℤ pos (s * d)
unfolding ◌*ℤ◌ ◌-ℤ◌
neg-*ℤ s d = grind arith

nearest-le : (s d : ℕ) → d ≤ 4095 → nearest (s * d) ≤ s
nearest-le s d h = let p : s * d ≤ s * 4095 = grind arith in omega arith

on_grid-le : (dev : ℤ) → on_grid dev ≤ 4095
on_grid-le (pos n) = omega arith
on_grid-le (negsuc n) = omega arith

-- The quotient fits an `int`, so its conversion keeps it.
to_int32-rise : (q s : ℕ) → q ≤ s → s < 2 ^ 31 → to_int32 (pos q) ≡ pos q
to_int32-rise q s h k = to_int32_id (pos q) (omega arith) (omega arith)

to_int32-fall : (q s : ℕ) → q ≤ s → s < 2 ^ 31 → to_int32 (pos 0 -ℤ pos q) ≡ pos 0 -ℤ pos q
unfolding ◌-ℤ◌
to_int32-fall q s h k = to_int32_id (pos 0 -ℤ pos q) (ground arith) (ground arith)

-- On a rising range of `s` steps a device coordinate lands `nearest (s * d)` above the start.
pub map_coord-rise :
    (dev lo : ℤ) (s : ℕ)
    → s < 2 ^ 31
    → map_coord dev lo (lo +ℤ pos s) ≡ lo +ℤ pos (nearest (s * on_grid dev))
unfolding map_coord
map_coord-rise dev lo s h =
    let d : ℕ = on_grid dev in
    let span : lo +ℤ pos s -ℤ lo ≡ pos s = omega int_laws in
    rw (span, clamp_res-eq-on_grid dev, pos-*ℤ s d, round_quot-pos (s * d))
      (rw (to_int32-rise (nearest (s * d)) s (nearest-le s d (on_grid-le dev)) h))

-- On a falling range it lands as far below.
pub map_coord-fall :
    (dev lo : ℤ) (s : ℕ)
    → s < 2 ^ 31
    → map_coord dev lo (lo -ℤ pos s) ≡ lo -ℤ pos (nearest (s * on_grid dev))
unfolding map_coord
map_coord-fall dev lo s h =
    let d : ℕ = on_grid dev in
    let q : ℕ = nearest (s * d) in
    let span : lo -ℤ pos s -ℤ lo ≡ pos 0 -ℤ pos s = omega int_laws in
    let sum : lo +ℤ (pos 0 -ℤ pos q) ≡ lo -ℤ pos q = omega int_laws in
    rw (span, clamp_res-eq-on_grid dev, neg-*ℤ s d, round_quot-neg (s * d))
      (rw (to_int32-fall q s (nearest-le s d (on_grid-le dev)) h) sum)

on_grid-below : (dev : ℤ) → dev ≤ℤ pos 0 → on_grid dev ≡ 0
on_grid-below (pos n) h = omega arith
on_grid-below (negsuc n) h = omega arith

on_grid-above : (dev : ℤ) → pos 4095 ≤ℤ dev → on_grid dev ≡ 4095
on_grid-above (pos n) h = omega arith
on_grid-above (negsuc n) h = omega arith

on_grid_mono : (dev dev' : ℤ) → dev ≤ℤ dev' → on_grid dev ≤ on_grid dev'
on_grid_mono (pos n) (pos m) h = omega arith
on_grid_mono (pos n) (negsuc m) h = omega arith
on_grid_mono (negsuc n) (pos m) h = omega arith
on_grid_mono (negsuc n) (negsuc m) h = omega arith

nearest-start : (s : ℕ) → nearest (s * 0) ≡ 0
nearest-start s = omega arith

nearest-end : (s : ℕ) → nearest (s * 4095) ≡ s
nearest-end s = omega arith

nearest_mono : (s d d' : ℕ) → d ≤ d' → nearest (s * d) ≤ nearest (s * d')
nearest_mono s d d' h = let p : s * d ≤ s * d' = grind arith in omega arith

-- The two ends of the device grid, and all that lies past them, are mapped exactly onto the ends
-- of the range, whether it rises or falls, if its width fits an `int`.
map_coord_ends :
    (low high lo : ℤ) (s : ℕ)
    → s < 2 ^ 31
    → low ≤ℤ pos 0
    → pos 4095 ≤ℤ high
    → (map_coord low lo (lo +ℤ pos s) ≡ lo)
      × (map_coord high lo (lo +ℤ pos s) ≡ lo +ℤ pos s)
      × (map_coord low lo (lo -ℤ pos s) ≡ lo)
      × (map_coord high lo (lo -ℤ pos s) ≡ lo -ℤ pos s)
map_coord_ends low high lo s h p q = (
  rw (map_coord-rise low lo s h, on_grid-below low p, nearest-start s) (omega int_laws),
  rw (map_coord-rise high lo s h, on_grid-above high q, nearest-end s),
  rw (map_coord-fall low lo s h, on_grid-below low p, nearest-start s) (omega int_laws),
  rw (map_coord-fall high lo s h, on_grid-above high q, nearest-end s),
)

-- On a range whose width `s` is below 2 ^ 31, a device coordinate `d` on the grid is mapped to the
-- integer nearest to the exact interpolation: above the start of a rising range, or below that of a
-- falling one, by `m`, where `4095 * m` differs from `s * d` by less than half of 4095. (On a wider
-- range the conversion of the quotient to an `int` would not keep it.)
pub map_coord_nearest :
    (lo : ℤ) (s d : ℕ)
    → s < 2 ^ 31
    → d ≤ 4095
    → (m : ℕ) × (map_coord (pos d) lo (lo +ℤ pos s) ≡ lo +ℤ pos m)
      × (map_coord (pos d) lo (lo -ℤ pos s) ≡ lo -ℤ pos m)
      × (4095 * m ≤ s * d + 2047)
      × (s * d ≤ 4095 * m + 2047)
map_coord_nearest lo s d h k =
    let e : on_grid (pos d) ≡ d = omega arith in
    (
      nearest (s * d),
      rw (map_coord-rise (pos d) lo s h, e),
      rw (map_coord-fall (pos d) lo s h, e),
      omega arith,
      omega arith,
    )

-- A larger device coordinate is never mapped below a smaller one on a rising range, nor above it
-- on a falling one.
map_coord_mono :
    (lo dev dev' : ℤ) (s : ℕ)
    → s < 2 ^ 31
    → dev ≤ℤ dev'
    → (map_coord dev lo (lo +ℤ pos s) ≤ℤ map_coord dev' lo (lo +ℤ pos s))
      × (map_coord dev' lo (lo -ℤ pos s) ≤ℤ map_coord dev lo (lo -ℤ pos s))
map_coord_mono lo dev dev' s h k =
    let less = nearest_mono s (on_grid dev) (on_grid dev') (on_grid_mono dev dev' k) in
    (
      rw (map_coord-rise dev lo s h, map_coord-rise dev' lo s h) (omega int_laws),
      rw (map_coord-fall dev lo s h, map_coord-fall dev' lo s h) (omega int_laws),
    )

-- On a range whose width is below 2 ^ 31, rising or falling, every device coordinate lands inside the
-- range, whether it is on the grid or not.
pub map_coord_bounds :
    (dev lo : ℤ) (s : ℕ)
    → s < 2 ^ 31
    → (lo ≤ℤ map_coord dev lo (lo +ℤ pos s))
      × (map_coord dev lo (lo +ℤ pos s) ≤ℤ lo +ℤ pos s)
      × (lo -ℤ pos s ≤ℤ map_coord dev lo (lo -ℤ pos s))
      × (map_coord dev lo (lo -ℤ pos s) ≤ℤ lo)
map_coord_bounds dev lo s h =
    let most = nearest-le s (on_grid dev) (on_grid-le dev) in
    (
      rw (map_coord-rise dev lo s h) (omega int_laws),
      rw (map_coord-rise dev lo s h) (omega int_laws),
      rw (map_coord-fall dev lo s h) (omega int_laws),
      rw (map_coord-fall dev lo s h) (omega int_laws),
    )
