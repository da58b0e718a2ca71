-- ===== src/Base/Chain.antt =====
-- Chains of steps that can fail.
use mathlib.Core.Path.{◌≡◌, refl, subst}
use mathlib.Core.Option.{Option, none, some}

-- `none` is an access out of bounds.
infixl 5 ◌>>=◌
abbrev pub ◌>>=◌ {ℓ κ} : {A : Type ℓ} {B : Type κ} → Option A → (A → Option B) → Option B
none >>= f = none
some a >>= f = f a

-- A chain that succeeds did so at each step.
pub >>=-eq-some {ℓ κ} :
    {A : Type ℓ} {B : Type κ} (m : Option A) (f : A → Option B) {b : B}
    → (m >>= f) ≡ some b
    → (a : A) × (m ≡ some a) × (f a ≡ some b)
>>=-eq-some none f h = cc
>>=-eq-some (some a) f h = (a, refl, h)

-- A step that does not fail.
abbrev pub IsDefined {ℓ} : {A : Type ℓ} → Option A → Type 0
IsDefined none = ⊥
IsDefined (some a) = Unit

module _ {ℓ} {A : Type ℓ} where
  pub IsDefined-some : (o : Option A) {a : A} → o ≡ some a → IsDefined o
  IsDefined-some none e = cc
  IsDefined-some (some b) e = tt

  pub value : (o : Option A) → IsDefined o → (a : A) × (o ≡ some a)
  value none d = absurd d
  value (some a) d = (a, refl)

  -- A chain does not fail if its first step does not, and its second does not at what that gives.
  pub >>=-IsDefined {κ} :
      {B : Type κ} (m : Option A) (f : A → Option B)
      → IsDefined m
      → ((a : A) → m ≡ some a → IsDefined (f a))
      → IsDefined (m >>= f)
  >>=-IsDefined none f d h = d
  >>=-IsDefined (some a) f d h = h a refl

  pub >>=-some : (m : Option A) → (m >>= λ a. some a) ≡ m
  >>=-some none = refl
  >>=-some (some a) = refl

-- What holds of the result of a chain, if it has one.
abbrev pub OnSome {ℓ κ} : {A : Type ℓ} → (A → Type κ) → Option A → Type κ
OnSome P none = Unit
OnSome P (some a) = P a

pub OnSome->>= {ℓ κ} :
    {A B : Type ℓ} {P : A → Type κ} (Q : B → Type κ) (m : Option A) (f : A → Option B)
    → OnSome P m
    → ((a : A) → P a → OnSome Q (f a))
    → OnSome Q (m >>= f)
OnSome->>= Q none f v h = tt
OnSome->>= Q (some a) f v h = h a v

pub OnSome-elim {ℓ κ} :
    {A : Type ℓ} (P : A → Type κ) (m : Option A) {a : A} → OnSome P m → m ≡ some a → P a
OnSome-elim P m v e = subst (λ o. OnSome P o) e v
