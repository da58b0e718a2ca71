-- ===== src/Font/Outline.antt =====
-- What a text looks like: the segments of its glyphs, each at its place.
use mathlib.Core.List.{append_assoc, append-nil}
use vekterm.Base.{
  ℕ, ◌+◌, ◌*◌, ◌==◌, ◌%◌, ◌≡◌, arith, true, Option, none, some, List, [], ◌∷◌, ◌++◌, length,
  get_elem?, get_elem?_total, All, All-get_elem?, bit_or, ap, sym, ◌∙◌, ◌>>=◌,
}
use vekterm.Base.Int.{ℤ, pos, ◌+ℤ◌, ◌*ℤ◌}
use vekterm.Font.Draw.{
  Glyph, Stroke, Style, Hardware, lifted, force_fix_size, font_pos, font_scale, fixed_scale,
  glyph_index, write_glyphs, draw_text,
}
use vekterm.Font.Total.{IsWhole, glyph_index-lt}
use vekterm.Font.Glyph.{pairs, segments, strokes_of, follow, follow-lifted, trace-follow}

-- The strokes of a glyph whose pen is at `penx`: those of its segments.
abbrev pub glyph_strokes : Style → ℤ → Glyph → List Stroke
glyph_strokes st penx g = strokes_of st penx true (segments (pairs g.count g.points))

module _ (table : List Glyph) (st : Style) where
  -- The glyph of a character, and the width that the pen goes on by.
  abbrev pub glyph_of : ℕ → Glyph
  glyph_of c = or_none (get_elem? table (glyph_index c))
    where
      or_none : Option Glyph → Glyph
      or_none none = record { count = 0; width = 0; points = [] }
      or_none (some g) = g

  -- The strokes of a text: those of its glyphs, one beside the other.
  unfoldable pub outline : List ℕ → ℤ → List Stroke
  outline [] penx = []
  outline (c ∷ s) penx =
      let g = glyph_of c in glyph_strokes st penx g ++ outline s (penx +ℤ pos (g.width * st.mul))

module _ (table : List Glyph) (full : length table ≡ 95) (whole : All IsWhole table) where
  write_glyphs-outline :
      (st : Style) (s : List ℕ) (idx : ℕ) (penx : ℤ) (strokes : List Stroke)
      → write_glyphs table st s idx penx strokes ≡ some (strokes ++ outline table st s penx)
  unfolding write_glyphs outline
  write_glyphs-outline st [] idx penx strokes = ap some (sym (append-nil strokes))
  write_glyphs-outline st (c ∷ s) idx penx strokes =
      let (g, found) = get_elem?_total table (glyph_index c) (omega (arith, glyph_index-lt c)) in
      let ok : IsWhole g = All-get_elem? IsWhole table (glyph_index c) whole found in
      let start : (idx % 1 == 0) ≡ true = ground arith in
      let end = follow st penx (pairs g.count g.points) (lifted true strokes) in
      let traced = trace-follow st penx g.points g.count 0 (lifted true strokes) (omega arith) in
      let drawn = follow-lifted st penx (pairs g.count g.points) strokes in
      let next = penx +ℤ pos (g.width * st.mul) in
      let rest = write_glyphs-outline st s (idx + 1) next end.strokes in
      rw (found, start, traced)
        (rest
          ∙ ap (λ ss. some (ss ++ outline table st s next)) drawn
          ∙ ap some (append_assoc strokes (glyph_strokes st penx g) (outline table st s next)))

  -- With a table of 95 glyphs whose points are in their arrays, whatever the characters of a text
  -- are, it is drawn without a read out of bounds as the outlines of its glyphs, one beside the other
  -- from the place on: of each glyph the segments from each point to the next, but none to or from a
  -- lift of the pen, all at the one scale of the size, the first of a glyph setting the integrators to
  -- zero. `currentScale` is then what it was before.
  pub draw_text-outline :
      (hw : Hardware) (current_scale : ℕ) (x y : ℤ) (s : List ℕ) (size brightness : ℕ)
      → let st : Style = record {
        base_y = y *ℤ pos font_pos;
        mul = size * font_scale;
        brightness = brightness;
        forced = bit_or hw.common_hints force_fix_size;
        scale = fixed_scale hw (size * font_scale);
      } in
        draw_text table hw current_scale x y s size brightness
        ≡ some (outline table st s (x *ℤ pos font_pos), current_scale)
  unfolding draw_text
  draw_text-outline hw current_scale x y s size brightness =
      ap (λ o. o >>= λ strokes. some (strokes, current_scale))
        (write_glyphs-outline _ s 0 (x *ℤ pos font_pos) [])
