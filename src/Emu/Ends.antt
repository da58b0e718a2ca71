-- ===== src/Emu/Ends.antt =====
-- The steps of `draw_line` lead to its end.
use vekterm.Base.{
  ℕ, zero, suc, ◌+◌, ◌*◌, ◌<◌, ◌≤◌, ◌≡◌, refl, arith, Bool, true, false, if◌then◌else◌, Bool-cases,
  inl, inr, sym,
}
use mathlib.Core.Path.{subst}
use vekterm.Base.Int.{ℤ, pos, ◌+ℤ◌, ◌-ℤ◌, pos_part, neg_part, ltb_ℤ, +ℤ_parts, -ℤ_parts}
use vekterm.Emu.Raster.{Course, Cursor, leb_ℤ, eq_ℤ, is_end, toward, step, distance}

-- `p` steps lead from `v` to `w`.
abbrev pub Ahead : Bool → ℤ → ℕ → ℤ → Type 0
Ahead true v p w = pos_part w + neg_part v ≡ pos_part v + neg_part w + p
Ahead false v p w = pos_part v + neg_part w ≡ pos_part w + neg_part v + p

-- There are `p` steps left in x and `q` in y, and `err` is what they make it.
pub record IsOnWay (l : Course) (p q : ℕ) (c : Cursor) : Type 0 where
  pub in_x : Ahead l.up_x c.x p l.x1
  pub in_y : Ahead l.up_y c.y q l.y1
  pub less_x : p ≤ l.dx
  pub less_y : q ≤ l.dy
  pub error : pos_part c.err + l.dy + q * l.dx ≡ neg_part c.err + l.dx + p * l.dy

toward-Ahead : (up : Bool) (v w : ℤ) (p : ℕ) → Ahead up v (suc p) w → Ahead up (toward up v) p w
toward-Ahead true v w p h = omega (arith, +ℤ_parts v (pos 1), h)
toward-Ahead false v w p h = omega (arith, -ℤ_parts v (pos 1), h)

-- At no distance it is there.
Ahead-end : (up : Bool) (v w : ℤ) → Ahead up v 0 w → eq_ℤ v w ≡ true
Ahead-end true v w h = ground (arith, h)
Ahead-end false v w h = ground (arith, h)

not_there : (up : Bool) (v w : ℤ) (p : ℕ) → Ahead up v (suc p) w → eq_ℤ v w ≡ false
not_there true v w p h = ground (arith, h)
not_there false v w p h = ground (arith, h)

-- The two tests of a step.
abbrev pub goes_x : Course → Cursor → Bool
goes_x l c = leb_ℤ (pos 0 -ℤ pos l.dy) (c.err +ℤ c.err)

abbrev pub goes_y : Course → Cursor → Bool
goes_y l c = leb_ℤ (c.err +ℤ c.err) (pos l.dx)

pub goes_x-le :
    (l : Course) (c : Cursor) → goes_x l c ≡ true → 2 * neg_part c.err ≤ 2 * pos_part c.err + l.dy
goes_x-le l c h = ground (arith, +ℤ_parts c.err c.err, -ℤ_parts (pos 0) (pos l.dy))

pub goes_y-le :
    (l : Course) (c : Cursor) → goes_y l c ≡ true → 2 * pos_part c.err ≤ 2 * neg_part c.err + l.dx
goes_y-le l c h = ground (arith, +ℤ_parts c.err c.err)

-- One of them holds.
pub goes_on : (l : Course) (c : Cursor) → goes_x l c ≡ false → goes_y l c ≡ true
goes_on l c h = ground (arith, +ℤ_parts c.err c.err, -ℤ_parts (pos 0) (pos l.dy))

abbrev pub moved_x : Course → Cursor → Cursor
moved_x l c = record c { err = c.err -ℤ pos l.dy; x = toward l.up_x c.x }

abbrev pub moved_y : Course → Cursor → Cursor
moved_y l c = record c { err = c.err +ℤ pos l.dx; y = toward l.up_y c.y }

module _ (l : Course) where
  moved_x-IsOnWay : (p q : ℕ) (c : Cursor) → IsOnWay l (suc p) q c → IsOnWay l p q (moved_x l c)
  moved_x-IsOnWay p q c h = record {
    in_x = toward-Ahead l.up_x c.x l.x1 p h.in_x;
    in_y = h.in_y;
    less_x = omega (arith, h.less_x);
    less_y = h.less_y;
    error = omega (arith, h.error, -ℤ_parts c.err (pos l.dy));
  }

  moved_y-IsOnWay : (p q : ℕ) (c : Cursor) → IsOnWay l p (suc q) c → IsOnWay l p q (moved_y l c)
  moved_y-IsOnWay p q c h = record {
    in_x = h.in_x;
    in_y = toward-Ahead l.up_y c.y l.y1 q h.in_y;
    less_x = h.less_x;
    less_y = omega (arith, h.less_y);
    error = omega (arith, h.error, +ℤ_parts c.err (pos l.dx));
  }

  -- A step in x is not past the end, nor is one in y.
  left_x :
      (p q : ℕ) (c : Cursor)
      → IsOnWay l p q c
      → 0 < p + q
      → goes_x l c ≡ true
      → (p' : ℕ) × (p ≡ suc p')
  left_x (suc p) q c h more go = (p, refl)
  left_x zero zero c h more go = absurd (omega arith)
  left_x zero (suc q) c h more go = absurd (omega (arith, h.error, h.less_y, goes_x-le l c go))

  left_y :
      (p q : ℕ) (c : Cursor)
      → IsOnWay l p q c
      → 0 < p + q
      → goes_y l c ≡ true
      → (q' : ℕ) × (q ≡ suc q')
  left_y p (suc q) c h more go = (q, refl)
  left_y zero zero c h more go = absurd (omega arith)
  left_y (suc p) zero c h more go = absurd (omega (arith, h.error, h.less_x, goes_y-le l c go))

  -- A step, for the outcomes of its tests.
  abbrev pub stepped : Cursor → Bool → Bool → Cursor
  stepped c a b = let d = if a then moved_x l c else c in if b then moved_y l d else d

  -- A step that is not at the end comes nearer to it.
  pub step-IsOnWay :
      (p q : ℕ) (c : Cursor)
      → IsOnWay l p q c
      → 0 < p + q
      → (p' : ℕ) × (q' : ℕ) × IsOnWay l p' q' (step l c) × (p' + q' < p + q)
  unfolding step
  step-IsOnWay p q c h more = elim (Bool-cases (goes_x l c)) [
    | inl a ↦
        let (p', e) = left_x p q c h more a in
        let h' = moved_x-IsOnWay p' q c (subst (λ n. IsOnWay l n q c) e h) in
        elim (Bool-cases (goes_y l c)) [
          | inl b ↦
              let (q', f) = left_y p q c h more b in
              (
                p',
                q',
                subst (IsOnWay l p' q') (sym (λ i. stepped c (a i) (b i))) (
                    moved_y-IsOnWay p' q' (moved_x l c)
                      (subst (λ n. IsOnWay l p' n (moved_x l c)) f h')),
                omega (arith, e, f),
              )
          | inr b ↦ (
            p',
            q,
            subst (IsOnWay l p' q) (sym (λ i. stepped c (a i) (b i))) h',
            omega (arith, e),
          )
        ]
    | inr a ↦
        let b = goes_on l c a in
        let (q', f) = left_y p q c h more b in
        (
          p,
          q',
          subst (IsOnWay l p q') (sym (λ i. stepped c (a i) (b i)))
              (moved_y-IsOnWay p q' c (subst (λ n. IsOnWay l p n c) f h)),
          omega (arith, f),
        )
  ]

pub at_end : (l : Course) (c : Cursor) → IsOnWay l 0 0 c → is_end l c ≡ true
at_end l c v =
    let a = Ahead-end l.up_x c.x l.x1 v.in_x in
    let b = Ahead-end l.up_y c.y l.y1 v.in_y in rw (a, b) refl

pub on_way : (l : Course) (p q : ℕ) (c : Cursor) → IsOnWay l p q c → is_end l c ≡ false → 0 < p + q
on_way l zero zero c v e = let a = at_end l c v in cc
on_way l (suc p) q c v e = omega arith
on_way l zero (suc q) c v e = omega arith

pub distance-Ahead : (a b : ℤ) → Ahead (ltb_ℤ a b) a (distance a b) b
distance-Ahead a b = elim (Bool-cases (ltb_ℤ a b)) [
  | inl up ↦ rw up (ground (arith, -ℤ_parts b a))
  | inr down ↦ rw down (ground (arith, -ℤ_parts b a))
]
