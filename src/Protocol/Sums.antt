-- ===== src/Protocol/Sums.antt =====
-- src/protocol.c: the word of each encoder as a sum of its fields.
use vekterm.Base.{ℕ, ◌+◌, ◌*◌, ◌%◌, ◌^◌, ◌<◌, ◌≡◌, refl, arith, Bool, true, false, if◌then◌else◌}
use vekterm.Base.Bits.{bit_or-disjoint}
use vekterm.Protocol.Word.{
  Flag, complete, rgb, xy, quality, frame, cmd, ext, exit, flag_value, word_flag, word_of_bytes,
}
use vekterm.Protocol.Encode.{
  encode_rgb, encode_xy, encode_frame, encode_quality, encode_complete, encode_ext,
}

-- A bit as a number.
abbrev pub bit : Bool → ℕ
bit b = if b then 1 else 0

pub encode_rgb_sum :
    (r g b : ℕ)
    → r < 256
    → g < 256
    → b < 256
    → encode_rgb r g b ≡ 2 ^ 29 + r * 2 ^ 16 + g * 2 ^ 8 + b
unfolding encode_rgb
encode_rgb_sum r g b hr hg hb = ground (
  arith,
  bit_or-disjoint 29 (2 ^ 29) (r * 2 ^ 16),
  bit_or-disjoint 16 (2 ^ 29 + r * 2 ^ 16) (g * 2 ^ 8),
  bit_or-disjoint 8 (2 ^ 29 + r * 2 ^ 16 + g * 2 ^ 8) b,
)

pub encode_xy_sum :
    (x y : ℕ) (blank : Bool)
    → encode_xy x y blank ≡ 2 * 2 ^ 29 + bit blank * 2 ^ 28 + x % 2 ^ 14 * 2 ^ 14 + y % 2 ^ 14
unfolding encode_xy
encode_xy_sum x y blank = ground (
  arith,
  bit_or-disjoint 29 (2 * 2 ^ 29) (bit blank * 2 ^ 28),
  bit_or-disjoint 28 (2 * 2 ^ 29 + bit blank * 2 ^ 28) (x % 2 ^ 14 * 2 ^ 14),
  bit_or-disjoint 14 (2 * 2 ^ 29 + bit blank * 2 ^ 28 + x % 2 ^ 14 * 2 ^ 14) (y % 2 ^ 14),
)

pub encode_frame_sum : (n : ℕ) → encode_frame n ≡ 4 * 2 ^ 29 + n % 2 ^ 29
unfolding encode_frame
encode_frame_sum n = ground (arith, bit_or-disjoint 29 (4 * 2 ^ 29) (n % 2 ^ 29))

pub encode_quality_sum : (n : ℕ) → encode_quality n ≡ 3 * 2 ^ 29 + n % 2 ^ 29
unfolding encode_quality
encode_quality_sum n = ground (arith, bit_or-disjoint 29 (3 * 2 ^ 29) (n % 2 ^ 29))

pub encode_complete_sum : (m : Bool) → encode_complete m ≡ bit m * 2 ^ 28
unfolding encode_complete
encode_complete_sum true = refl
encode_complete_sum false = refl

pub encode_ext_sum : (s n : ℕ) → encode_ext s n ≡ 6 * 2 ^ 29 + s % 2 ^ 5 * 2 ^ 24 + n % 2 ^ 24
unfolding encode_ext
encode_ext_sum s n = ground (
  arith,
  bit_or-disjoint 29 (6 * 2 ^ 29) (s % 2 ^ 5 * 2 ^ 24),
  bit_or-disjoint 24 (6 * 2 ^ 29 + s % 2 ^ 5 * 2 ^ 24) (n % 2 ^ 24),
)

-- The flag is the top three bits, whatever stands below them.
pub flag_of_sum :
    (f : Flag) (rest : ℕ) → rest < 2 ^ 29 → word_flag (flag_value f * 2 ^ 29 + rest) ≡ f
unfolding word_flag
flag_of_sum complete rest h = ground arith
flag_of_sum rgb rest h = ground arith
flag_of_sum xy rest h = ground arith
flag_of_sum quality rest h = ground arith
flag_of_sum frame rest h = ground arith
flag_of_sum cmd rest h = ground arith
flag_of_sum ext rest h = ground arith
flag_of_sum exit rest h = ground arith

-- Four bytes make the word that they spell in base 256.
pub word_of_bytes_sum :
    (b0 b1 b2 b3 : ℕ)
    → b0 < 256
    → b1 < 256
    → b2 < 256
    → b3 < 256
    → word_of_bytes b0 b1 b2 b3 ≡ b0 * 2 ^ 24 + b1 * 2 ^ 16 + b2 * 2 ^ 8 + b3
unfolding word_of_bytes
word_of_bytes_sum b0 b1 b2 b3 h0 h1 h2 h3 = ground (
  arith,
  bit_or-disjoint 24 (b0 * 2 ^ 24) (b1 * 2 ^ 16),
  bit_or-disjoint 16 (b0 * 2 ^ 24 + b1 * 2 ^ 16) (b2 * 2 ^ 8),
  bit_or-disjoint 8 (b0 * 2 ^ 24 + b1 * 2 ^ 16 + b2 * 2 ^ 8) b3,
)
