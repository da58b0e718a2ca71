-- ===== src/Base/Bits.antt =====
-- `|` of fields that do not overlap, as a sum.
use Prim.Native.Nat.{
  ℕ, zero, suc, ◌+◌, ◌*◌, ◌/◌, ◌%◌, ◌^◌, ◌≤◌, ◌<◌, max, bit_or, digits, bit_or-bitwise,
}
use mathlib.Core.Path.{◌≡◌, refl, ap}
use native.Mathlib.Nat.{le_refl, pow-suc, div-add-mod}
use native.Mathlib.Omega.{arith}

abbrev or_digits : ℕ → ℕ → ℕ → ℕ
or_digits = digits (λ b. b) max

-- Fuel beyond the number itself is not used.
or_digits_fuel : (n m a b : ℕ) → a ≤ n → a ≤ m → or_digits n a b ≡ or_digits m a b
or_digits_fuel zero zero a b p q = refl
or_digits_fuel zero (suc m) zero b p q = refl
or_digits_fuel zero (suc m) (suc a) b p q = absurd (omega arith)
or_digits_fuel (suc n) zero zero b p q = refl
or_digits_fuel (suc n) zero (suc a) b p q = absurd (omega arith)
or_digits_fuel (suc n) (suc m) zero b p q = refl
or_digits_fuel (suc n) (suc m) (suc a) b p q =
    omega (arith, or_digits_fuel n m (suc a / 2) (b / 2) (omega arith) (omega arith))

zero-bit_or : (b : ℕ) → bit_or 0 b ≡ b
zero-bit_or b = bit_or-bitwise 0 b

bit_or-digit : (a b : ℕ) → bit_or a b ≡ bit_or (a / 2) (b / 2) * 2 + max (a % 2) (b % 2)
bit_or-digit zero b = omega (arith, zero-bit_or b, zero-bit_or (b / 2))
bit_or-digit (suc a) b = omega (
  arith,
  bit_or-bitwise (suc a) b,
  bit_or-bitwise (suc a / 2) (b / 2),
  or_digits_fuel a (suc a / 2) (suc a / 2) (b / 2) (omega arith) (omega arith),
)

bit_or-zero_below : (n a : ℕ) → a ≤ n → bit_or a 0 ≡ a
bit_or-zero_below n zero h = refl
bit_or-zero_below zero (suc a) h = absurd (omega arith)
bit_or-zero_below (suc n) (suc a) h =
    omega (arith, bit_or-digit (suc a) 0, bit_or-zero_below n (suc a / 2) (omega arith))

-- `(hi << k) | lo` is a sum when `lo` has at most `k` bits.
pub bit_or-shl : (k hi lo : ℕ) → lo < 2 ^ k → bit_or (hi * 2 ^ k) lo ≡ hi * 2 ^ k + lo
bit_or-shl zero hi lo h = ground (arith, bit_or-zero_below hi hi (le_refl hi))
bit_or-shl (suc k) hi lo h = ground (
  arith,
  bit_or-digit (hi * 2 ^ suc k) lo,
  ap (λ (t : ℕ). hi * t) (pow-suc 2 k),
  pow-suc 2 k,
  bit_or-shl k hi (lo / 2),
)

-- `x | lo` is a sum when the `k` low bits of `x` are clear and `lo` has no others.
pub bit_or-disjoint : (k x lo : ℕ) → x % 2 ^ k ≡ 0 → lo < 2 ^ k → bit_or x lo ≡ x + lo
bit_or-disjoint k x lo clear h =
    ground (arith, bit_or-shl k (x / 2 ^ k) lo h, div-add-mod x (2 ^ k))

bit_or-comm_below : (n a b : ℕ) → a ≤ n → bit_or a b ≡ bit_or b a
bit_or-comm_below zero a b h = omega (
  arith,
  zero-bit_or b,
  bit_or-zero_below b b (le_refl b),
  ap (λ t. bit_or t b) (none a h),
  ap (λ t. bit_or b t) (none a h),
)
  where
    none : (a : ℕ) → a ≤ 0 → a ≡ 0
    none a h = omega arith
bit_or-comm_below (suc n) a b h =
    omega
      (arith, bit_or-digit a b, bit_or-digit b a, bit_or-comm_below n (a / 2) (b / 2) (omega arith))

-- `lo | (hi << k)`, the fields the other way round.
pub bit_or-low_first : (k hi lo : ℕ) → lo < 2 ^ k → bit_or lo (hi * 2 ^ k) ≡ hi * 2 ^ k + lo
bit_or-low_first k hi lo h =
    omega (arith, bit_or-comm_below lo lo (hi * 2 ^ k) (le_refl lo), bit_or-shl k hi lo h)
