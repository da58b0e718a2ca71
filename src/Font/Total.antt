-- ===== src/Font/Total.antt =====
-- Any text can be drawn, and its case does not matter.
use vekterm.Base.{
  Option, none, ap, some, ◌>>=◌, get_elem?, Option-cases, inl, inr, ℕ, zero, suc, ◌+◌, ◌*◌, ◌≤◌,
  ◌<◌, ◌≡◌, refl, arith, List, [], ◌∷◌, All, All-get_elem?, length, get_elem?_total, IsDefined,
  value, ◌==◌, ◌%◌,
}
use vekterm.Base.Int.{ℤ}
use vekterm.Font.Draw.{
  lifted, Glyph, Stroke, Style, Nib, Hardware, fold_case, glyph_index, touch, trace, write_glyphs,
  draw_text,
}

pub glyph_index-lt : (c : ℕ) → glyph_index c < 95
unfolding glyph_index fold_case
glyph_index-lt c = ground arith

-- The two characters are the same, or the second is a small letter and the first its capital.
pub data IsCapital : ℕ → ℕ → Type 0 where
  same : {c : ℕ} → IsCapital c c
  small : (k : ℕ) → k < 26 → IsCapital (65 + k) (97 + k)

glyph_index-small : (k : ℕ) → k < 26 → glyph_index (65 + k) ≡ glyph_index (97 + k)
unfolding glyph_index fold_case
glyph_index-small k h = ground arith

glyph_index-IsCapital : (c d : ℕ) → IsCapital c d → glyph_index c ≡ glyph_index d
glyph_index-IsCapital c d same = refl
glyph_index-IsCapital c d (small k h) = glyph_index-small k h

-- The first text is the second with some of its small letters in capitals.
pub data AreCapitals : List ℕ → List ℕ → Type 0 where
  both_empty : AreCapitals [] []
  both : {c d : ℕ} {s t : List ℕ} → IsCapital c d → AreCapitals s t → AreCapitals (c ∷ s) (d ∷ t)

-- The points that a glyph counts are in its array.
abbrev pub IsWhole : Glyph → Type 0
IsWhole g = 2 * g.count ≤ length g.points

trace-IsDefined :
    (st : Style) (penx : ℤ) (points : List ℤ) (left i : ℕ) (nib : Nib)
    → 2 * (i + left) ≤ length points
    → IsDefined (trace st penx points left i nib)
unfolding trace
trace-IsDefined st penx points zero i nib room = tt
trace-IsDefined st penx points (suc left) i nib room =
    let (hx, ex) = get_elem?_total points (2 * i) (omega arith) in
    let (hy, ey) = get_elem?_total points (2 * i + 1) (omega arith) in
    rw (ex, ey)
      (trace-IsDefined st penx points left (i + 1) (touch st penx hx hy nib) (omega arith))

-- A text is defined if its strokes are.
IsDefined->>= :
    {A B : Type 0} (f : A → B) (o : Option A) → IsDefined o → IsDefined (o >>= λ a. some (f a))
IsDefined->>= f none h = h
IsDefined->>= f (some a) h = tt

module _ (table : List Glyph) (full : length table ≡ 95) (whole : All IsWhole table) where
  write_glyphs-IsDefined :
      (st : Style) (s : List ℕ) (idx : ℕ) (penx : ℤ) (strokes : List Stroke)
      → IsDefined (write_glyphs table st s idx penx strokes)
  unfolding write_glyphs
  write_glyphs-IsDefined st [] idx penx strokes = tt
  write_glyphs-IsDefined st (c ∷ s) idx penx strokes =
      let (g, found) = get_elem?_total table (glyph_index c) (omega (arith, glyph_index-lt c)) in
      let ok : IsWhole g = All-get_elem? IsWhole table (glyph_index c) whole found in
      let nib = lifted (idx % 1 == 0) strokes in
      let (end, traced) =
        value (trace st penx g.points g.count 0 nib)
          (trace-IsDefined st penx g.points g.count 0 nib (omega arith)) in
      rw (found, traced) (write_glyphs-IsDefined st s (idx + 1) _ end.strokes)

  -- With a table of 95 glyphs whose points are in their arrays, no text makes the renderer read
  -- outside of them, whatever its characters are.
  draw_text-IsDefined :
      (hw : Hardware) (current_scale : ℕ) (x y : ℤ) (s : List ℕ) (size brightness : ℕ)
      → IsDefined (draw_text table hw current_scale x y s size brightness)
  unfolding draw_text
  draw_text-IsDefined hw current_scale x y s size brightness =
      IsDefined->>= _ _ (write_glyphs-IsDefined _ s 0 _ [])

module _ (table : List Glyph) where
  write_glyphs-AreCapitals :
      (st : Style) (s t : List ℕ) (idx : ℕ) (penx : ℤ) (strokes : List Stroke)
      → AreCapitals s t
      → write_glyphs table st s idx penx strokes ≡ write_glyphs table st t idx penx strokes
  unfolding write_glyphs
  write_glyphs-AreCapitals st [] [] idx penx strokes both_empty = refl
  write_glyphs-AreCapitals st [] (d ∷ t) idx penx strokes h = elim h [ ]
  write_glyphs-AreCapitals st (c ∷ s) [] idx penx strokes h = elim h [ ]
  write_glyphs-AreCapitals st (c ∷ s) (d ∷ t) idx penx strokes (both h hs) =
      let e = glyph_index-IsCapital c d h in
      elim (Option-cases (get_elem? table (glyph_index d))) [
        | inl absent ↦ rw (e, absent) refl
        | inr (g, found) ↦
            elim (Option-cases (trace st penx g.points g.count 0 (lifted (idx % 1 == 0) strokes))) [
              | inl fault ↦ rw (e, found, fault) refl
              | inr (nib, traced) ↦
                  rw (e, found, traced) (write_glyphs-AreCapitals st s t (idx + 1) _ nib.strokes hs)
            ]
      ]

  -- Two texts of which the first is the second with some or all of its small letters in capitals are
  -- drawn with the same strokes, whatever the other characters are.
  pub draw_text-AreCapitals :
      (hw : Hardware) (current_scale : ℕ) (x y : ℤ) (s t : List ℕ) (size brightness : ℕ)
      → AreCapitals s t
      → draw_text table hw current_scale x y s size brightness
        ≡ draw_text table hw current_scale x y t size brightness
  unfolding draw_text
  draw_text-AreCapitals hw current_scale x y s t size brightness h =
      ap (λ o. o >>= λ strokes. some (strokes, current_scale))
        (write_glyphs-AreCapitals _ s t 0 _ [] h)
