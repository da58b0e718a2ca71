-- ===== src/Host/Serial/Rates.antt =====
-- The constant of a line rate.
use mathlib.Core.Path.{subst}
use mathlib.Core.List.{Mem, mem-cons_self, mem-cons_of_mem}
use vekterm.Base.{
  All, ℕ, ◌≡◌, inl, inr, arith, true, false, Option, none, some, List, [], ◌∷◌, Bool-cases, ap,
}
use vekterm.Base.Int.{ℤ, pos, negsuc, pos_part}
use vekterm.Host.Serial.{Headers, baud_constant, is_rate, select}

-- The constant that a rate is set by: its own, and B115200 for a rate that the system does not know
-- and for any other number.
abbrev pub or_115200 : Headers → Option ℕ → ℕ
or_115200 h o = elim o [ none ↦ h.b115200 | some b ↦ b ]

abbrev pub constants : Headers → List (ℕ × Option ℕ)
constants h =
    (3000000, h.b3000000)
    ∷ (2000000, h.b2000000)
    ∷ (1500000, h.b1500000)
    ∷ (1000000, h.b1000000)
    ∷ (921600, h.b921600)
    ∷ (460800, h.b460800)
    ∷ (230400, h.b230400)
    ∷ (115200, some h.b115200)
    ∷ (57600, some h.b57600)
    ∷ (38400, some h.b38400)
    ∷ (19200, some h.b19200)
    ∷ (9600, some h.b9600)
    ∷ []

pub data IsSpeed (h : Headers) (table : List (ℕ × Option ℕ)) : ℤ → ℕ → Type 0 where
  listed : (n : ℕ) (o : Option ℕ) → Mem (n, o) table → IsSpeed h table (pos n) (or_115200 h o)
  unlisted : (baud : ℤ) → All (λ c. ¬ (baud ≡ pos c.0)) table → IsSpeed h table baud h.b115200

rate_hit : (n : ℕ) (baud : ℤ) → is_rate n baud ≡ true → pos n ≡ baud
rate_hit n (pos b) h = let e : n ≡ b = ground arith in ap pos e
rate_hit n (negsuc b) h = cc

rate_miss : (n : ℕ) (baud : ℤ) → is_rate n baud ≡ false → ¬ (baud ≡ pos n)
rate_miss n (pos b) h = λ e. let same : b ≡ n = ap pos_part e in ground arith
rate_miss n (negsuc b) h = λ e. cc

module _ (h : Headers) where
  IsSpeed-cons :
      (c : ℕ × Option ℕ) (table : List (ℕ × Option ℕ)) (baud : ℤ) (spd : ℕ)
      → ¬ (baud ≡ pos c.0)
      → IsSpeed h table baud spd
      → IsSpeed h (c ∷ table) baud spd
  IsSpeed-cons c table baud spd differs (listed n o at) = listed n o (mem-cons_of_mem _ at)
  IsSpeed-cons c table baud spd differs (unlisted b none_of) = unlisted b (differs, none_of)

  -- A rate that the system does not know, when the rest of the table has it or not.
  IsSpeed-absent :
      (n : ℕ) (table : List (ℕ × Option ℕ)) (baud : ℤ) (spd : ℕ)
      → IsSpeed h table baud spd
      → IsSpeed h ((n, none) ∷ table) baud spd
  IsSpeed-absent n table baud spd (listed m o at) = listed m o (mem-cons_of_mem _ at)
  IsSpeed-absent n table baud spd (unlisted b none_of) = elim (Bool-cases (is_rate n b)) [
    | inl hit ↦
        subst (λ r. IsSpeed h ((n, none) ∷ table) r h.b115200) (rate_hit n b hit)
          (listed n none mem-cons_self)
    | inr miss ↦ unlisted b (rate_miss n b miss, none_of)
  ]

  select-IsSpeed :
      (table : List (ℕ × Option ℕ)) (baud : ℤ) → IsSpeed h table baud (select h table baud).0
  unfolding select
  select-IsSpeed [] baud = unlisted baud tt
  select-IsSpeed ((n, none) ∷ table) baud =
      IsSpeed-absent n table baud _ (select-IsSpeed table baud)
  select-IsSpeed ((n, some b) ∷ table) baud = elim (Bool-cases (is_rate n baud)) [
    | inl hit ↦ rw hit (
        subst (λ r. IsSpeed h ((n, some b) ∷ table) r b) (rate_hit n baud hit)
          (listed n (some b) mem-cons_self))
    | inr miss ↦
        rw miss (
          IsSpeed-cons (n, some b) table baud _ (rate_miss n baud miss) (select-IsSpeed table baud))
  ]

  pub baud_constant-IsSpeed : (baud : ℤ) → IsSpeed h (constants h) baud (baud_constant h baud).0
  unfolding baud_constant
  baud_constant-IsSpeed baud = select-IsSpeed (constants h) baud
