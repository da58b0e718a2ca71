-- ===== src/Font/Glyph.antt =====
-- What a glyph looks like: the segments between its points, as the loop over them draws them.
use mathlib.Core.List.{append_assoc, append-nil}
use vekterm.Base.{
  ℕ, zero, suc, ◌+◌, ◌*◌, ◌≤◌, ◌≡◌, refl, arith, Bool, true, false, Bool-cases, inl, inr, ◌&&◌,
  ◌||◌, some, List, [], ◌∷◌, ◌++◌, map, length, drop, get_elem?, get_elem?_total, if◌then◌else◌,
  bit_or, ap, sym, ◌∙◌,
}
use vekterm.Base.Int.{ℤ, pos, negsuc, ◌+ℤ◌, ◌*ℤ◌}
use vekterm.Font.Draw.{Stroke, Style, Nib, is_minus_one, lifted, force_zero, touch, trace}

-- The points of a glyph, two coordinates each.
abbrev pub pairs : ℕ → List ℤ → List (ℤ × ℤ)
pairs zero zs = []
pairs (suc n) (x ∷ y ∷ zs) = (x, y) ∷ pairs n zs
pairs (suc n) _ = []

-- A point at which the pen is lifted.
abbrev pub is_lift : ℤ × ℤ → Bool
is_lift p = is_minus_one p.0 && is_minus_one p.1

-- The segments of a glyph: from each point to the next, unless one of the two is a lift.
unfoldable pub segments : List (ℤ × ℤ) → List ((ℤ × ℤ) × (ℤ × ℤ))
segments [] = []
segments (a ∷ []) = []
segments (a ∷ b ∷ ps) =
    let later = segments (b ∷ ps) in if is_lift a || is_lift b then later else (a, b) ∷ later

-- The places of a glyph's points, and the strokes of its segments.
module _ (st : Style) (penx : ℤ) where
  abbrev place_x : ℤ → ℤ
  place_x hx = penx +ℤ hx *ℤ pos st.mul

  abbrev place_y : ℤ → ℤ
  place_y hy = st.base_y +ℤ hy *ℤ pos st.mul

  abbrev pub stroke_of : ℕ → (ℤ × ℤ) × (ℤ × ℤ) → Stroke
  stroke_of forced s = record {
    from_x = place_x s.0.0;
    from_y = place_y s.0.1;
    to_x = place_x s.1.0;
    to_y = place_y s.1.1;
    brightness = st.brightness;
    forced = forced;
    scale = st.scale;
  }

  -- The first one sets the integrators to zero, if `zeroed` says so.
  abbrev pub strokes_of : Bool → List ((ℤ × ℤ) × (ℤ × ℤ)) → List Stroke
  strokes_of zeroed [] = []
  strokes_of zeroed (s ∷ segs) =
      stroke_of (if zeroed then bit_or st.forced force_zero else st.forced) s
      ∷ map (stroke_of st.forced) segs

  -- The loop over the points, as a list.
  abbrev pub follow : List (ℤ × ℤ) → Nib → Nib
  follow [] nib = nib
  follow (p ∷ ps) nib = follow ps (touch st penx p.0 p.1 nib)

  -- The nib is at this point, down unless the point is a lift.
  record Stands (nib : Nib) (at : ℤ × ℤ) : Type 0 where
    pub up : nib.pen_up ≡ is_lift at
    pub from_x : is_lift at ≡ false → nib.prevx ≡ place_x at.0
    pub from_y : is_lift at ≡ false → nib.prevy ≡ place_y at.1

  strokes_of-map :
      (segs : List ((ℤ × ℤ) × (ℤ × ℤ))) → strokes_of false segs ≡ map (stroke_of st.forced) segs
  strokes_of-map [] = refl
  strokes_of-map (s ∷ segs) = refl

  touch-lift :
      (b : ℤ × ℤ) (nib : Nib)
      → is_lift b ≡ true
      → touch st penx b.0 b.1 nib ≡ record nib { pen_up = true }
  unfolding touch
  touch-lift b nib h = rw h refl

  touch-move :
      (b : ℤ × ℤ) (nib : Nib)
      → is_lift b ≡ false
      → nib.pen_up ≡ true
      → touch st penx b.0 b.1 nib
        ≡ record nib { prevx = place_x b.0; prevy = place_y b.1; pen_up = false }
  unfolding touch
  touch-move b nib h up = rw (h, up) refl

  touch-draw :
      (a b : ℤ × ℤ) (nib : Nib)
      → is_lift b ≡ false
      → nib.pen_up ≡ false
      → nib.prevx ≡ place_x a.0
      → nib.prevy ≡ place_y a.1
      → touch st penx b.0 b.1 nib ≡ record nib {
        prevx = place_x b.0;
        prevy = place_y b.1;
        pen_up = false;
        glyph_zero = false;
        strokes =
            nib.strokes
            ++ (stroke_of (if nib.glyph_zero then bit_or st.forced force_zero else st.forced) (a, b)
                ∷ []);
      }
  unfolding touch
  touch-draw a b nib h up ex ey = rw (h, up, ex, ey) refl

  follow-strokes :
      (ps : List (ℤ × ℤ)) (a : ℤ × ℤ) (nib : Nib)
      → Stands nib a
      → (follow ps nib).strokes ≡ nib.strokes ++ strokes_of nib.glyph_zero (segments (a ∷ ps))
  unfolding segments
  follow-strokes [] a nib v = sym (append-nil nib.strokes)
  follow-strokes (b ∷ ps) a nib v = elim (Bool-cases (is_lift b)) [
    | inl lift ↦
        let nib' = record nib { pen_up = true } in
        let kept : (is_lift a || is_lift b) ≡ true = ground arith in
        let rest =
          follow-strokes ps b nib' (record { up = sym lift; from_x = λ e. cc; from_y = λ e. cc }) in
        ap (λ n. (follow ps n).strokes) (touch-lift b nib lift)
        ∙ rest
        ∙ ap
            (λ c.
              nib.strokes
              ++ strokes_of nib.glyph_zero
                  (if c then segments (b ∷ ps) else (a, b) ∷ segments (b ∷ ps)))
            (sym kept)
    | inr on ↦ elim (Bool-cases (is_lift a)) [
      | inl start ↦
          let nib' = record nib { prevx = place_x b.0; prevy = place_y b.1; pen_up = false } in
          let kept : (is_lift a || is_lift b) ≡ true = ground arith in
          let rest =
            follow-strokes ps b nib'
              (record { up = sym on; from_x = λ e. refl; from_y = λ e. refl }) in
          ap (λ n. (follow ps n).strokes) (touch-move b nib on (v.up ∙ start))
          ∙ rest
          ∙ ap
              (λ c.
                nib.strokes
                ++ strokes_of nib.glyph_zero
                    (if c then segments (b ∷ ps) else (a, b) ∷ segments (b ∷ ps)))
              (sym kept)
      | inr from ↦
          let first =
            stroke_of (if nib.glyph_zero then bit_or st.forced force_zero else st.forced) (a, b) in
          let nib' = record nib {
            prevx = place_x b.0;
            prevy = place_y b.1;
            pen_up = false;
            glyph_zero = false;
            strokes = nib.strokes ++ (first ∷ []);
          } in
          let drawn : (is_lift a || is_lift b) ≡ false = ground arith in
          let rest =
            follow-strokes ps b nib'
              (record { up = sym on; from_x = λ e. refl; from_y = λ e. refl }) in
          ap (λ n. (follow ps n).strokes)
            (touch-draw a b nib on (v.up ∙ from) (v.from_x from) (v.from_y from))
          ∙ rest
          ∙ append_assoc nib.strokes (first ∷ []) (strokes_of false (segments (b ∷ ps)))
          ∙ ap (λ ss. nib.strokes ++ (first ∷ ss)) (strokes_of-map (segments (b ∷ ps)))
          ∙ ap
              (λ c.
                nib.strokes
                ++ strokes_of nib.glyph_zero
                    (if c then segments (b ∷ ps) else (a, b) ∷ segments (b ∷ ps)))
              (sym drawn)
    ]
  ]

  pub follow-lifted :
      (ps : List (ℤ × ℤ)) (strokes : List Stroke)
      → (follow ps (lifted true strokes)).strokes ≡ strokes ++ strokes_of true (segments ps)
  unfolding segments
  follow-lifted [] strokes = sym (append-nil strokes)
  follow-lifted (p ∷ ps) strokes =
      follow-strokes (p ∷ ps) (negsuc 0, negsuc 0) (lifted true strokes)
        (record { up = refl; from_x = λ e. cc; from_y = λ e. cc })

drop_two :
    (zs : List ℤ) (k : ℕ) {x y : ℤ}
    → get_elem? zs k ≡ some x
    → get_elem? zs (suc k) ≡ some y
    → drop k zs ≡ x ∷ y ∷ drop (suc (suc k)) zs
drop_two [] k ex ey = cc
drop_two (z ∷ []) zero ex ey = cc
drop_two (z ∷ z' ∷ zs) zero {x} {y} ex ey =
    let head : z ≡ x = cc in
    let next : z' ≡ y = cc in ap (λ w. w ∷ z' ∷ zs) head ∙ ap (λ w. x ∷ w ∷ zs) next
drop_two (z ∷ zs) (suc k) ex ey = drop_two zs k ex ey

-- The loop over the points of a glyph follows them as a list.
pub trace-follow :
    (st : Style) (penx : ℤ) (points : List ℤ) (left i : ℕ) (nib : Nib)
    → 2 * (i + left) ≤ length points
    → trace st penx points left i nib ≡ some (follow st penx (pairs left (drop (2 * i) points)) nib)
unfolding trace
trace-follow st penx points zero i nib room = refl
trace-follow st penx points (suc left) i nib room =
    let (hx, ex) = get_elem?_total points (2 * i) (omega arith) in
    let (hy, ey) = get_elem?_total points (2 * i + 1) (omega arith) in
    let next : 2 * i + 1 ≡ suc (2 * i) = omega arith in
    let further : suc (suc (2 * i)) ≡ 2 * (i + 1) = omega arith in
    let cut : drop (2 * i) points ≡ hx ∷ hy ∷ drop (2 * (i + 1)) points =
      drop_two points (2 * i) ex (ap (get_elem? points) (sym next) ∙ ey)
      ∙ ap (λ n. hx ∷ hy ∷ drop n points) further in
    let later = trace-follow st penx points left (i + 1) (touch st penx hx hy nib) (omega arith) in
    rw (ex, ey, cut) later
