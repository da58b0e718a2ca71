-- ===== src/Emu/Capture.antt =====
-- tools/emu/emu_main.c and tools/emu/emu_vekterm.c: the captured segments, in an array that grows. A
-- segment is whatever the emulator's sink is given, and `realloc` is an argument.
use mathlib.Core.List.{append_assoc, append-nil}
use mathlib.Core.Path.{subst}
use vekterm.Base.{
  ℕ, suc, ◌+◌, ◌*◌, ◌^◌, ◌≤◌, ◌<◌, ◌==◌, ◌≡◌, refl, arith, Bool-cases, inl, inr, Option, none, some,
  List, [], ◌∷◌, ◌++◌, length, length-set, take, set, take-set, ltb, lt→ltb, ap, sym, ◌∙◌, ◌>>=◌,
  if◌then◌else◌,
}

-- `segs`, `nsegs` and `capsegs`
pub record Capture {ℓ} (A : Type ℓ) : Type ℓ where
  pub segs : List A
  pub nsegs : ℕ
  pub capsegs : ℕ

-- What the library says of `realloc` to a size, when there is memory: the cells that both have stay.
pub record IsRealloc {ℓ} {A : Type ℓ} (realloc : List A → ℕ → List A) : Type ℓ where
  pub size : (xs : List A) (n : ℕ) → length (realloc xs n) ≡ n
  pub kept : (xs : List A) (n k : ℕ) → k ≤ length xs → k ≤ n → take k (realloc xs n) ≡ take k xs

-- An assignment to `xs[i]`.
unfoldable pub assign {ℓ} : {A : Type ℓ} → List A → ℕ → A → Option (List A)
assign xs i a = if ltb i (length xs) then some (set xs i a) else none

module _ {ℓ} {A : Type ℓ} (realloc : List A → ℕ → List A) where
  -- The growth of the array, from `first` on; the capacity is an `int`.
  unfoldable pub grow : ℕ → Capture A → Option (Capture A)
  grow first c =
      let cap = if c.capsegs == 0 then first else c.capsegs * 2 in
      if ltb cap (2 ^ 31)
      then some (record c { segs = realloc c.segs cap; capsegs = cap })
      else none

  unfoldable pub on_line : ℕ → Capture A → A → Option (Capture A)
  on_line first c seg = do
    r ← if c.nsegs == c.capsegs then grow first c else some c
    segs ← assign r.segs r.nsegs seg
    some (record r { segs = segs; nsegs = r.nsegs + 1 })

  -- The sink is called with these segments.
  unfoldable pub on_lines : ℕ → Capture A → List A → Option (Capture A)
  on_lines first c [] = some c
  on_lines first c (seg ∷ left) = do d ← on_line first c seg; on_lines first d left

-- The static variables before `main`.
abbrev pub no_segs {ℓ} : {A : Type ℓ} → Capture A
no_segs = record { segs = []; nsegs = 0; capsegs = 0 }

-- The array has its size and its first cells are what the sink was given.
pub record IsCapture {ℓ} {A : Type ℓ} (c : Capture A) (given : List A) : Type ℓ where
  pub size : length c.segs ≡ c.capsegs
  pub used : c.nsegs ≤ c.capsegs
  pub holds : take c.nsegs c.segs ≡ given

module _ {ℓ} {A : Type ℓ} {realloc : List A → ℕ → List A} (library : IsRealloc realloc) where
  grow-IsCapture :
      (first : ℕ) (c : Capture A) (given : List A)
      → 0 < first
      → first < 2 ^ 31
      → c.capsegs < 2 ^ 30
      → IsCapture c given
      → (d : Capture A) × (grow realloc first c ≡ some d)
        × IsCapture d given
        × (d.nsegs ≡ c.nsegs)
        × (c.capsegs < d.capsegs)
  unfolding grow
  grow-IsCapture first c given more low few v =
      let cap = if c.capsegs == 0 then first else c.capsegs * 2 in
      let larger : c.capsegs < cap = ground arith in
      let inside : cap < 2 ^ 31 = ground arith in
      (
        record c { segs = realloc c.segs cap; capsegs = cap },
        rw (lt→ltb cap (2 ^ 31) inside) refl,
        record {
          size = library.size c.segs cap;
          used = omega (arith, v.used);
          holds =
              library.kept c.segs cap c.nsegs (omega (arith, v.size, v.used))
                (omega (arith, v.used))
              ∙ v.holds;
        },
        refl,
        larger,
      )

  -- A segment written where there is room.
  written :
      (c : Capture A) (given : List A) (seg : A)
      → c.nsegs < c.capsegs
      → IsCapture c given
      → let segs = set c.segs c.nsegs seg in
        (assign c.segs c.nsegs seg ≡ some segs)
        × IsCapture (record c { segs = segs; nsegs = c.nsegs + 1 }) (given ++ (seg ∷ []))
  unfolding assign
  written c given seg room v =
      let inside : c.nsegs < length c.segs = omega (arith, v.size) in
      let next : c.nsegs + 1 ≡ suc c.nsegs = omega arith in
      (
        rw (lt→ltb c.nsegs (length c.segs) inside) refl,
        record {
          size = length-set c.segs c.nsegs seg ∙ v.size;
          used = omega arith;
          holds =
              ap (λ n. take n (set c.segs c.nsegs seg)) next
              ∙ take-set c.segs c.nsegs seg inside
              ∙ ap (λ xs. xs ++ (seg ∷ [])) v.holds;
        },
      )

  on_line-IsCapture :
      (first : ℕ) (c : Capture A) (given : List A) (seg : A)
      → 0 < first
      → first < 2 ^ 31
      → c.nsegs < 2 ^ 30
      → IsCapture c given
      → (d : Capture A) × (on_line realloc first c seg ≡ some d)
        × IsCapture d (given ++ (seg ∷ []))
        × (d.nsegs ≡ c.nsegs + 1)
  unfolding on_line
  on_line-IsCapture first c given seg more low few v = elim (Bool-cases (c.nsegs == c.capsegs)) [
    | inl full ↦
        let (r, grown, v', same, room) = grow-IsCapture first c given more low (ground arith) v in
        let (wrote, v'') = written r given seg (ground arith) v' in
        (
          record r { segs = set r.segs r.nsegs seg; nsegs = r.nsegs + 1 },
          rw (full, grown, wrote) refl,
          v'',
          omega arith,
        )
    | inr free ↦
        let (wrote, v') = written c given seg (ground (arith, v.used)) v in
        (
          record c { segs = set c.segs c.nsegs seg; nsegs = c.nsegs + 1 },
          rw (free, wrote) refl,
          v',
          refl,
        )
  ]

  on_lines-IsCapture :
      (first : ℕ) (left : List A) (c : Capture A) (given : List A)
      → 0 < first
      → first < 2 ^ 31
      → c.nsegs + length left < 2 ^ 30
      → IsCapture c given
      → (d : Capture A) × (on_lines realloc first c left ≡ some d) × IsCapture d (given ++ left)
  unfolding on_lines
  on_lines-IsCapture first [] c given more low few v =
      (c, refl, subst (IsCapture c) (sym (append-nil given)) v)
  on_lines-IsCapture first (seg ∷ left) c given more low few v =
      let (d, step, v', next) = on_line-IsCapture first c given seg more low (omega arith) v in
      let (e, rest, v'') =
        on_lines-IsCapture first left d (given ++ (seg ∷ [])) more low (omega arith) v' in
      (
        e,
        ap (λ o. o >>= λ d. on_lines realloc first d left) step ∙ rest,
        subst (IsCapture e) (append_assoc given (seg ∷ []) left) v'',
      )

  -- While there is memory, whatever the size that the array begins with is: of less than 2 ^ 30
  -- segments none is written outside of the array and no capacity leaves an `int`, and the segments
  -- in use are those that the sink was given, in order.
  pub on_lines-captured :
      (first : ℕ) (given : List A)
      → 0 < first
      → first < 2 ^ 31
      → length given < 2 ^ 30
      → (c : Capture A) × (on_lines realloc first no_segs given ≡ some c)
        × (take c.nsegs c.segs ≡ given)
  on_lines-captured first given more low few =
      let start : IsCapture (no_segs {A = A}) [] = record {
        size = refl;
        used = omega arith;
        holds = refl;
      } in
      let (c, done, v) = on_lines-IsCapture first given no_segs [] more low (omega arith) start in
      (c, done, v.holds)
