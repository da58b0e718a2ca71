-- ===== src/Font/Draw.antt =====
-- src/font.c, `vt_draw_string`. The table of glyphs, which a script writes, and the globals of
-- libpitrex are arguments; the calls of v_directDraw32Hinted are the strokes in their order. The
-- `int32_t` positions are not wrapped: a text that leaves their range leaves the screen long before.
use vekterm.Base.{
  ℕ, zero, suc, ◌+◌, ◌-◌, ◌*◌, ◌/◌, ◌%◌, ◌==◌, ◌&&◌, ◌||◌, Bool, true, false, Option, some, List,
  [], ◌∷◌, ◌++◌, ltb, leb, if◌then◌else◌, ◌>>=◌, u16, bit_or, get_elem?,
}
use vekterm.Base.Int.{ℤ, pos, negsuc, ◌+ℤ◌, ◌*ℤ◌}

abbrev pub font_scale : ℕ
font_scale = 21

abbrev pub font_pos : ℕ
font_pos = 128

abbrev pub font_minscale : ℕ
font_minscale = 5

abbrev pub force_fix_size : ℕ
force_fix_size = 256

abbrev pub force_zero : ℕ
force_zero = 1

abbrev pub zero_every : ℕ
zero_every = 1

abbrev pub font_first : ℕ
font_first = 0x20

abbrev pub font_last : ℕ
font_last = 0x7E

-- `vfont_glyph_t`
pub record Glyph : Type 0 where
  pub count : ℕ
  pub width : ℕ
  pub points : List ℤ

-- The arguments of a call of v_directDraw32Hinted, and what `currentScale` is then.
pub record Stroke : Type 0 where
  pub from_x : ℤ
  pub from_y : ℤ
  pub to_x : ℤ
  pub to_y : ℤ
  pub brightness : ℕ
  pub forced : ℕ
  pub scale : ℕ

-- `baseY`, `mul`, `brightness`, `forced`, and `currentScale` as it has been set
pub record Style : Type 0 where
  pub base_y : ℤ
  pub mul : ℕ
  pub brightness : ℕ
  pub forced : ℕ
  pub scale : ℕ

-- `prevx`, `prevy`, `pen_up` and `glyph_zero`, and the strokes so far.
pub record Nib : Type 0 where
  pub prevx : ℤ
  pub prevy : ℤ
  pub pen_up : Bool
  pub glyph_zero : Bool
  pub strokes : List Stroke

-- The fold to capitals, and the blank for what has no glyph.
unfoldable pub fold_case : ℕ → ℕ
fold_case c = if leb 97 c && leb c 122 then c - 0x20 else c

unfoldable pub glyph_index : ℕ → ℕ
unfolding fold_case
glyph_index c =
    let f = fold_case c in
    (if ltb f font_first || ltb font_last f then font_first else f) - font_first

abbrev pub is_minus_one : ℤ → Bool
is_minus_one (negsuc zero) = true
is_minus_one _ = false

-- What a glyph starts from.
abbrev pub lifted : Bool → List Stroke → Nib
lifted zeroed strokes = record {
  prevx = pos 0;
  prevy = pos 0;
  pen_up = true;
  glyph_zero = zeroed;
  strokes = strokes;
}

module _ (st : Style) (penx : ℤ) where
  -- The body of the loop over the points, at the point (hx, hy).
  unfoldable pub touch : ℤ → ℤ → Nib → Nib
  touch hx hy nib =
      let sx = penx +ℤ hx *ℤ pos st.mul in
      let sy = st.base_y +ℤ hy *ℤ pos st.mul in
      let f = if nib.glyph_zero then bit_or st.forced force_zero else st.forced in
      let stroke : Stroke = record {
        from_x = nib.prevx;
        from_y = nib.prevy;
        to_x = sx;
        to_y = sy;
        brightness = st.brightness;
        forced = f;
        scale = st.scale;
      } in
      if is_minus_one hx && is_minus_one hy then record nib { pen_up = true } else record {
        prevx = sx;
        prevy = sy;
        pen_up = false;
        glyph_zero = if nib.pen_up then nib.glyph_zero else false;
        strokes = if nib.pen_up then nib.strokes else nib.strokes ++ (stroke ∷ []);
      }

  -- The loop over the points of a glyph from index `i`, with `left` to go.
  unfoldable pub trace : List ℤ → ℕ → ℕ → Nib → Option Nib
  trace points zero i nib = some nib
  trace points (suc left) i nib = do
    hx ← get_elem? points (2 * i)
    hy ← get_elem? points (2 * i + 1)
    trace points left (i + 1) (touch hx hy nib)

-- The loop over the characters, at the `glyph_idx`th, with the strokes so far.
unfoldable pub write_glyphs :
    List Glyph → Style → List ℕ → ℕ → ℤ → List Stroke → Option (List Stroke)
write_glyphs table st [] idx penx strokes = some strokes
write_glyphs table st (c ∷ s) idx penx strokes = do
  g ← get_elem? table (glyph_index c)
  nib ← trace st penx g.points g.count 0 (lifted (idx % zero_every == 0) strokes)
  write_glyphs table st s (idx + 1) (penx +ℤ pos (g.width * st.mul)) nib.strokes

-- The globals of libpitrex that are read.
pub record Hardware : Type 0 where
  pub common_hints : ℕ
  pub max_used_strength : ℕ

-- `fixed`, as it is stored in `currentScale`
unfoldable pub fixed_scale : Hardware → ℕ → ℕ
fixed_scale hw mul =
    let s = if hw.max_used_strength == 0 then 1 else hw.max_used_strength in
    let fixed = 8 * mul / s in u16 (if ltb fixed font_minscale then font_minscale else fixed)

-- `vt_draw_string`: the strokes of a text, and `currentScale` after them.
unfoldable pub draw_text :
    List Glyph → Hardware → ℕ → ℤ → ℤ → List ℕ → ℕ → ℕ → Option (List Stroke × ℕ)
draw_text table hw current_scale x y s size brightness =
    let saved_scale = current_scale in
    let st : Style = record {
      base_y = y *ℤ pos font_pos;
      mul = size * font_scale;
      brightness = brightness;
      forced = bit_or hw.common_hints force_fix_size;
      scale = fixed_scale hw (size * font_scale);
    } in
    write_glyphs table st s 0 (x *ℤ pos font_pos) [] >>= λ strokes. some (strokes, saved_scale)
