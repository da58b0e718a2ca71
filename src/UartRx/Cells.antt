-- ===== src/UartRx/Cells.antt =====
-- A queue in a circular array of `n` cells, from some cell on.
use vekterm.Base.{
  ℕ, zero, suc, ◌+◌, ◌-◌, ◌≤◌, ◌<◌, ◌≡◌, ◌≢◌, refl, arith, some, List, [], ◌∷◌, ◌++◌, length,
  get_elem?, set, ltb, if◌then◌else◌,
}

module _ {ℓ} {A : Type ℓ} where
  pub get_elem?-set :
      (xs : List A) (i : ℕ) (v : A) → i < length xs → get_elem? (set xs i v) i ≡ some v
  get_elem?-set [] i v h = absurd (omega arith)
  get_elem?-set (x ∷ xs) zero v h = refl
  get_elem?-set (x ∷ xs) (suc i) v h = get_elem?-set xs i v (omega arith)

  pub get_elem?-set_other :
      (xs : List A) (i j : ℕ) (v : A) → i ≢ j → get_elem? (set xs i v) j ≡ get_elem? xs j
  get_elem?-set_other [] i j v h = refl
  get_elem?-set_other (x ∷ xs) zero zero v h = absurd (h refl)
  get_elem?-set_other (x ∷ xs) zero (suc j) v h = refl
  get_elem?-set_other (x ∷ xs) (suc i) zero v h = refl
  get_elem?-set_other (x ∷ xs) (suc i) (suc j) v h = get_elem?-set_other xs i j v (omega arith)

module _ (n : ℕ) where
  -- An index less than twice the size, brought into the array.
  abbrev pub wrap : ℕ → ℕ
  wrap x = if ltb x n then x else x - n

  -- The cells from the index `t` on hold these.
  abbrev pub Spans : List ℕ → ℕ → List ℕ → Type 0
  Spans buf t [] = Unit
  Spans buf t (c ∷ held) = (get_elem? buf t ≡ some c) × Spans buf (wrap (t + 1)) held

  -- What is written `d` cells after the start of a shorter queue leaves it as it is.
  Spans-set :
      (buf held : List ℕ) (t h d c : ℕ)
      → t < n
      → d < n
      → length held ≤ d
      → h ≡ wrap (t + d)
      → Spans buf t held
      → Spans (set buf h c) t held
  Spans-set buf [] t h d c inside near short at s = tt
  Spans-set buf (b ∷ held) t h d c inside near short at s =
      let apart : h ≢ t = ground arith in
      let at' : h ≡ wrap (wrap (t + 1) + (d - 1)) = ground arith in
      (
        rw (get_elem?-set_other buf h t c apart) s.0,
        Spans-set buf held (wrap (t + 1)) h (d - 1) c (ground arith) (omega arith) (omega arith) at'
            s.1,
      )

  -- What is written just after its end extends it.
  pub Spans-extend :
      (buf held : List ℕ) (t h c : ℕ)
      → length buf ≡ n
      → t < n
      → length held < n
      → h ≡ wrap (t + length held)
      → Spans buf t held
      → Spans (set buf h c) t (held ++ (c ∷ []))
  Spans-extend buf [] t h c room inside short at s =
      let here : h ≡ t = ground arith in (rw here (get_elem?-set buf t c (omega arith)), tt)
  Spans-extend buf (b ∷ held) t h c room inside short at s =
      let apart : h ≢ t = ground arith in
      let at' : h ≡ wrap (wrap (t + 1) + length held) = ground arith in
      (
        rw (get_elem?-set_other buf h t c apart) s.0,
        Spans-extend buf held (wrap (t + 1)) h c room (ground arith) (omega arith) at' s.1,
      )
