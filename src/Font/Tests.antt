-- ===== src/Font/Tests.antt =====
-- A table of blanks with the letter A in it, and a text of it.
use vekterm.Base.{
  some, ◌≡◌, arith, List, [], ◌∷◌, ◌++◌, All, All-append, All-replicate, length, length-append,
  length-replicate, replicate,
}
use vekterm.Base.Int.{pos, negsuc, ◌*ℤ◌}
use vekterm.Font.Draw.{Glyph, Style, Hardware, fixed_scale, draw_text}
use vekterm.Font.Total.{IsWhole, AreCapitals, both, both_empty, same, small, draw_text-AreCapitals}
use vekterm.Font.Outline.{outline, draw_text-outline}

abbrev blank_glyph : Glyph
blank_glyph = record { count = 0; width = 6; points = pos 0 ∷ [] }

-- A stroke, the pen lifted, and another point.
abbrev letter_a : Glyph
letter_a = record {
  count = 4;
  width = 6;
  points = pos 0 ∷ pos 0 ∷ pos 0 ∷ pos 8 ∷ negsuc 0 ∷ negsuc 0 ∷ pos 4 ∷ pos 0 ∷ [];
}

abbrev sparse_table : List Glyph
sparse_table = replicate 33 blank_glyph ++ (letter_a ∷ replicate 61 blank_glyph)

sparse_table-length : length sparse_table ≡ 95
sparse_table-length = omega (
  arith,
  length-append (replicate 33 blank_glyph) (letter_a ∷ replicate 61 blank_glyph),
  length-replicate 33 blank_glyph,
  length-replicate 61 blank_glyph,
)

blank-IsWhole : IsWhole blank_glyph
blank-IsWhole = omega arith

sparse_table-IsWhole : All IsWhole sparse_table
sparse_table-IsWhole =
    All-append IsWhole (replicate 33 blank_glyph) (letter_a ∷ replicate 61 blank_glyph)
      (All-replicate IsWhole 33 blank_glyph blank-IsWhole)
      (omega arith, All-replicate IsWhole 61 blank_glyph blank-IsWhole)

abbrev libpitrex : Hardware
libpitrex = record { common_hints = 0; max_used_strength = 95 }

abbrev style : Style
style = record {
  base_y = pos 28 *ℤ pos 128;
  mul = 63;
  brightness = 80;
  forced = 256;
  scale = fixed_scale libpitrex 63;
}

draw_text-outline_example :
    draw_text sparse_table libpitrex 40 (negsuc 57) (pos 28) (65 ∷ 97 ∷ 200 ∷ []) 3 80
    ≡ some (outline sparse_table style (65 ∷ 97 ∷ 200 ∷ []) (negsuc 57 *ℤ pos 128), 40)
draw_text-outline_example =
    draw_text-outline sparse_table sparse_table-length sparse_table-IsWhole libpitrex 40 (negsuc 57)
      (pos 28) (65 ∷ 97 ∷ 200 ∷ []) 3 80

-- "Zoe" in capitals.
abbrev zoe : AreCapitals (90 ∷ 79 ∷ 69 ∷ []) (90 ∷ 111 ∷ 101 ∷ [])
zoe = both same (both (small 14 (omega arith)) (both (small 4 (omega arith)) both_empty))

draw_text-AreCapitals_example :
    draw_text sparse_table libpitrex 40 (pos 0) (pos 0) (90 ∷ 79 ∷ 69 ∷ []) 3 80
    ≡ draw_text sparse_table libpitrex 40 (pos 0) (pos 0) (90 ∷ 111 ∷ 101 ∷ []) 3 80
draw_text-AreCapitals_example =
    draw_text-AreCapitals sparse_table libpitrex 40 (pos 0) (pos 0) (90 ∷ 79 ∷ 69 ∷ [])
      (90 ∷ 111 ∷ 101 ∷ []) 3 80 zoe
