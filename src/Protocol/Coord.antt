-- ===== src/Protocol/Coord.antt =====
-- src/protocol.c, colour and coordinate arithmetic. `int64_t` is not wrapped: for `int` arguments
-- no step of `vt_map_coord` leaves its range.
pub mod Nearest
use vekterm.Base.{ℕ, ◌*◌, ltb, if◌then◌else◌, u8}
use vekterm.Base.Int.{ℤ, pos, negsuc, ◌+ℤ◌, ◌-ℤ◌, ◌*ℤ◌, quot_ℤ, ltb_ℤ, to_int32}

abbrev pub dvg_res_min : ℕ
dvg_res_min = 0

abbrev pub dvg_res_max : ℕ
dvg_res_max = 4095

-- `vt_scale_color`, of a value whose shift fits an `int`
unfoldable pub scale_color : ℤ → ℕ
scale_color (negsuc n) = 0
scale_color (pos n) = let scaled = n * 16 in if ltb 255 scaled then 255 else u8 scaled

unfoldable pub brightness_from_rgb : ℕ → ℕ → ℕ → ℕ
brightness_from_rgb r g b = let m = if ltb r g then g else r in if ltb m b then b else m

-- The two clamps at the head of `vt_map_coord`.
unfoldable pub clamp_res : ℤ → ℤ
clamp_res dev =
    let low = if ltb_ℤ dev (pos dvg_res_min) then pos dvg_res_min else dev in
    if ltb_ℤ (pos dvg_res_max) low then pos dvg_res_max else low

-- `VT_DVG_RES_MAX / 2` is 2047.
unfoldable pub round_quot : ℤ → ℤ
round_quot num =
    if ltb_ℤ num (pos 0)
    then quot_ℤ (num -ℤ pos 2047) dvg_res_max
    else quot_ℤ (num +ℤ pos 2047) dvg_res_max

-- The conversion of the quotient to `int`, of 32 bits, and the sum with the start of the range.
unfoldable pub map_coord : ℤ → ℤ → ℤ → ℤ
map_coord dev out_lo out_hi = out_lo +ℤ to_int32 (round_quot ((out_hi -ℤ out_lo) *ℤ clamp_res dev))
