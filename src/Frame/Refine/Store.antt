-- ===== src/Frame/Refine/Store.antt =====
-- The frame buffer holds the vectors of a picture, as many as fit.
use Prim.Native.Nat.{min}
use vekterm.Base.{
  ℕ, ◌+◌, ◌≤◌, ◌<◌, ◌≡◌, refl, arith, true, ltb, lt→ltb, le→ltb, dec_lt, List, [], ◌∷◌, ◌++◌,
  length, length-append, set, length-set, take, take-set, take-all, take-append_left, ap, sym, ◌∙◌,
}
use native.Mathlib.Numerals.{add-one}
use vekterm.Protocol.Hello.{max_pipeline}
use vekterm.Frame.State.{Segment, Frame}
use vekterm.Frame.Beam.{store_segment, reset_counts}

pub record Holds (f : Frame) (strokes : List Segment) : Type 0 where
  pub room : length f.segments ≡ max_pipeline
  pub count : f.count ≡ min (length strokes) max_pipeline
  pub stored : take f.count f.segments ≡ take max_pipeline strokes
  pub dropped : f.overflow ≡ ltb max_pipeline (length strokes)

pub reset_counts-Holds : (f : Frame) → length f.segments ≡ max_pipeline → Holds (reset_counts f) []
reset_counts-Holds f h = record { room = h; count = omega arith; stored = refl; dropped = refl }

module _ (cap : ℕ) (strokes : List Segment) (s : Segment) where
  abbrev extended : List Segment
  extended = strokes ++ (s ∷ [])

  take_one_more :
      (segs : List Segment) (n : ℕ)
      → n < length segs
      → length strokes + 1 ≤ cap
      → take n segs ≡ take cap strokes
      → take (n + 1) (set segs n s) ≡ take cap extended
  take_one_more segs n inside fits same = rw add-one (
      take-set segs n s inside
      ∙ ap (λ xs. xs ++ (s ∷ [])) (same ∙ take-all cap strokes (omega arith))
      ∙ sym (take-all cap extended (omega (arith, length-append strokes (s ∷ [])))))

  take_no_more : cap ≤ length strokes → take cap strokes ≡ take cap extended
  take_no_more full = sym (take-append_left cap strokes (s ∷ []) full)

one_more : (n l : ℕ) → n ≡ min l max_pipeline → n < max_pipeline → n + 1 ≡ min (l + 1) max_pipeline
one_more n l e h = omega arith

fits_more :
    (n l : ℕ)
    → n ≡ min l max_pipeline
    → n < max_pipeline
    → ltb max_pipeline l ≡ ltb max_pipeline (l + 1)
fits_more n l e h = ground arith

no_more : (n l : ℕ) → n ≡ min l max_pipeline → max_pipeline ≤ n → n ≡ min (l + 1) max_pipeline
no_more n l e h = omega arith

drops_more : (l : ℕ) → max_pipeline ≤ l → true ≡ ltb max_pipeline (l + 1)
drops_more l h = ground arith

-- Storing a vector is drawing it at the end of the picture.
pub store_segment-Holds :
    (f : Frame) (strokes : List Segment) (s : Segment)
    → Holds f strokes
    → Holds (store_segment f s) (strokes ++ (s ∷ []))
store_segment-Holds f strokes s h =
    let l : ℕ = length strokes in
    let longer : length (strokes ++ (s ∷ [])) ≡ l + 1 =
      omega (arith, length-append strokes (s ∷ [])) in
    elim (dec_lt f.count max_pipeline) [
      | yes free ↦ rw (lt→ltb f.count max_pipeline free) (record {
        room = length-set f.segments f.count s ∙ h.room;
        count = rw longer (one_more f.count l h.count free);
        stored =
            take_one_more max_pipeline strokes s f.segments f.count (omega arith) (omega arith)
              h.stored;
        dropped = rw longer (h.dropped ∙ fits_more f.count l h.count free);
      })
      | no full ↦ rw (le→ltb f.count max_pipeline (omega arith)) (record {
        room = h.room;
        count = rw longer (no_more f.count l h.count (omega arith));
        stored = h.stored ∙ take_no_more max_pipeline strokes s (omega arith);
        dropped = rw longer (drops_more l (omega arith));
      })
    ]
