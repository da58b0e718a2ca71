-- ===== src/Frame/Faults/Feed.antt =====
-- The only bytes that make the parser read past its payload buffer.
use vekterm.Base.{
  ℕ, ◌-◌, ◌≡◌, refl, ap, ltb, arith, false, Bool-cases, Option-cases, inl, inr, List, [], ◌∷◌, ◌++◌,
  none, some, length, set, length-set, All, IsDefined, value,
}
use vekterm.Protocol.Word.{
  Flag, Command, complete, rgb, xy, quality, frame, cmd, ext, exit, decode_word, unpack_be,
}
use vekterm.Frame.State.{Parser}
use vekterm.Frame.Ext.Heightfield.{dispatch_heightfield}
use vekterm.Frame.Ext.Polyline.{dispatch_polyline}
use vekterm.Frame.Ext.Dispatch.{dispatch_subtype, dispatch_ext}
use vekterm.Frame.Parser.{
  begin_ext, on_ext, dispatch, feed_word, store_payload, feed_payload, gather, feed_byte, feed,
}
use vekterm.Frame.Valid.{IsByte, IsValid}
use vekterm.Frame.Valid.Feed.{store_payload-IsValid, feed_byte-IsValid}
use vekterm.Frame.Faults.Heightfield.{Wraps, dispatch_heightfield_fault}
use vekterm.Frame.Faults.Polyline.{dispatch_polyline-IsDefined}

unpack_be-IsDefined : (bytes : List ℕ) → length bytes ≡ 4 → IsDefined (unpack_be bytes)
unfolding unpack_be
unpack_be-IsDefined [] h = absurd (omega arith)
unpack_be-IsDefined (a ∷ []) h = absurd (omega arith)
unpack_be-IsDefined (a ∷ b ∷ []) h = absurd (omega arith)
unpack_be-IsDefined (a ∷ b ∷ c ∷ []) h = absurd (omega arith)
unpack_be-IsDefined (a ∷ b ∷ c ∷ d ∷ rest) h = tt

module _ {C : Type 0} where
  -- What a container that faults is.
  pub record IsHostile (p : Parser C) : Type 0 where
    pub kept : p.ext_overflow ≡ false
    pub heightfield : p.ext_subtype ≡ 1
    pub wraps : Wraps p.ext_buf

  dispatch_ext_fault : (p : Parser C) → IsValid p → dispatch_ext p ≡ none → IsHostile p
  unfolding dispatch_ext dispatch_subtype
  dispatch_ext_fault p v e =
      let room = v.ext_room in
      let drawn = dispatch_polyline-IsDefined p p.ext_buf p.ext_len (omega arith) (omega arith) in
      elim (Option-cases (dispatch_heightfield p p.ext_buf p.ext_len)) [
        | inl fault ↦ record {
          kept = ground arith;
          heightfield = ground arith;
          wraps =
              dispatch_heightfield_fault p p.ext_buf p.ext_len (omega arith) (omega arith) fault;
        }
        | inr (q, fine) ↦ absurd (ground arith)
      ]

  begin_ext-drawn : (p : Parser C) (w : ℕ) → IsDefined (dispatch_ext (begin_ext p w))
  unfolding dispatch_ext dispatch_subtype begin_ext dispatch_heightfield dispatch_polyline
  begin_ext-drawn p w = ground arith

  dispatch-IsDefined :
      (f : Flag) (c : Command) (w : ℕ) (p : Parser C) → IsDefined (dispatch f c w p)
  unfolding dispatch on_ext
  dispatch-IsDefined frame c w p = tt
  dispatch-IsDefined rgb c w p = tt
  dispatch-IsDefined xy c w p = tt
  dispatch-IsDefined complete c w p = tt
  dispatch-IsDefined exit c w p = tt
  dispatch-IsDefined ext c w p = let drawn = begin_ext-drawn p w in ground arith
  dispatch-IsDefined cmd c w p = tt
  dispatch-IsDefined quality c w p = tt

  -- A command word, whatever it is and whatever the parser holds, never makes it read out of
  -- bounds.
  pub feed_word-IsDefined : (p : Parser C) (w : ℕ) → IsDefined (feed_word p w)
  unfolding feed_word
  feed_word-IsDefined p w = dispatch-IsDefined (decode_word w).flag (decode_word w) w _

  gather-IsDefined : (p : Parser C) (n b : ℕ) → length p.bytes ≡ 4 → IsDefined (gather p n b)
  unfolding gather
  gather-IsDefined p n b room =
      let same = length-set p.bytes n b in
      let (w, word) = value _ (unpack_be-IsDefined (set p.bytes n b) (omega arith)) in
      let fed = feed_word-IsDefined (record p { bytes = set p.bytes n b; nbytes = 0 }) w in
      ground arith

  ext_remaining-store_payload :
      (p : Parser C) (b : ℕ) → (store_payload p b).ext_remaining ≡ p.ext_remaining - 1
  unfolding store_payload
  ext_remaining-store_payload p b = refl

  -- A byte makes a valid parser read out of bounds only where it completes the payload of a
  -- container that declares a heightfield with intensities, whose length wraps.
  pub feed_byte_fault :
      (p : Parser C) (b : ℕ)
      → IsByte b
      → IsValid p
      → feed_byte p b ≡ none
      → (p.ext_remaining ≡ 1) × IsHostile (store_payload p b)
  unfolding feed_byte feed_payload
  feed_byte_fault p b hb v e = elim (Bool-cases (ltb 0 p.ext_remaining)) [
    | inl payload ↦
        let count = ext_remaining-store_payload p b in
        (
          ground arith,
          dispatch_ext_fault (store_payload p b) (store_payload-IsValid p b hb v) (ground arith),
        )
    | inr word ↦
        let fed = gather-IsDefined p p.nbytes b v.word_room in
        let inside = v.word_partial in absurd (ground arith)
  ]

  -- Where a valid parser reads out of bounds on a stream of bytes, some bytes left it valid and the
  -- next one completed the payload of a container that declares a heightfield with intensities,
  -- whose needed length wraps in 32 bits.
  pub feed_fault :
      (bytes : List ℕ) (p : Parser C)
      → All IsByte bytes
      → IsValid p
      → feed p bytes ≡ none
      → (pre : List ℕ) × (b : ℕ) × (rest : List ℕ) × (q : Parser C) × (bytes ≡ pre ++ (b ∷ rest))
        × (feed p pre ≡ some q)
        × IsValid q
        × (q.ext_remaining ≡ 1)
        × IsHostile (store_payload q b)
  unfolding feed
  feed_fault [] p hs v e = absurd (ground arith)
  feed_fault (b ∷ bytes) p hs v e = elim (Option-cases (feed_byte p b)) [
    | inl fault ↦
        let (last, hostile) = feed_byte_fault p b hs.0 v fault in
        ([], b, bytes, p, refl, refl, v, last, hostile)
    | inr (p', step) ↦
        let (pre, c, rest, q, split, reach, valid, last, hostile) =
          feed_fault bytes p' hs.1 (feed_byte-IsValid p b hs.0 v step) (rw step at e) in
        (b ∷ pre, c, rest, q, ap (λ xs. b ∷ xs) split, rw step reach, valid, last, hostile)
  ]
