-- ===== src/Frame/Valid/Feed.antt =====
-- Bytes keep a parser valid.
use vekterm.Base.{
  ℕ, ◌<◌, ◌≡◌, arith, Option-cases, >>=-eq-some, inl, inr, List, [], ◌∷◌, some, set, length-set,
  All, All-set,
}
use vekterm.Protocol.Word.{unpack_be}
use vekterm.Frame.State.{Parser}
use vekterm.Frame.Parser.{store_payload, feed_payload, gather, feed_byte, feed}
use vekterm.Frame.Valid.{IsByte, IsValid}
use vekterm.Frame.Valid.Word.{dispatch_ext-IsValid, feed_word-IsValid}

module _ {C : Type 0} where
  pub store_payload-IsValid :
      (p : Parser C) (b : ℕ) → IsByte b → IsValid p → IsValid (store_payload p b)
  unfolding store_payload
  store_payload-IsValid p b hb v =
      let stored = All-set IsByte p.ext_buf p.ext_len b v.ext_bytes_ok hb in
      ground (arith, length-set p.ext_buf p.ext_len b)

  feed_payload-IsValid :
      (p : Parser C) (b : ℕ) {out : Parser C}
      → IsByte b
      → IsValid p
      → feed_payload p b ≡ some out
      → IsValid out
  unfolding feed_payload
  feed_payload-IsValid p b {out} hb v e =
      let v' = store_payload-IsValid p b hb v in
      ground (arith, dispatch_ext-IsValid (store_payload p b) {out = out} v')

  gather-IsValid :
      (p : Parser C) (n b : ℕ) {out : Parser C}
      → IsByte b
      → n < 4
      → IsValid p
      → gather p n b ≡ some out
      → IsValid out
  unfolding gather
  gather-IsValid p n b {out} hb hn v e =
      let kept = All-set IsByte p.bytes n b v.word_bytes_ok hb in
      let same = length-set p.bytes n b in
      elim (Option-cases (unpack_be (set p.bytes n b))) [
        | inl short ↦ ground arith
        | inr (w, word) ↦
            let q : Parser C = record p { bytes = set p.bytes n b; nbytes = 0 } in
            ground (arith, feed_word-IsValid q w {out = out} (ground arith))
      ]

  pub feed_byte-IsValid :
      (p : Parser C) (b : ℕ) {out : Parser C}
      → IsByte b
      → IsValid p
      → feed_byte p b ≡ some out
      → IsValid out
  unfolding feed_byte
  feed_byte-IsValid p b {out} hb v e = ground (
    arith,
    feed_payload-IsValid p b {out = out} hb v,
    gather-IsValid p p.nbytes b {out = out} hb v.word_partial v,
  )

  -- Feeding bytes, however many, keeps a parser valid.
  pub feed-IsValid :
      (bytes : List ℕ) (p : Parser C) {out : Parser C}
      → All IsByte bytes
      → IsValid p
      → feed p bytes ≡ some out
      → IsValid out
  unfolding feed
  feed-IsValid [] p hs v e = ground arith
  feed-IsValid (b ∷ bytes) p hs v e =
      let (q, step, rest) = >>=-eq-some (feed_byte p b) _ e in
      feed-IsValid bytes q hs.1 (feed_byte-IsValid p b hs.0 v step) rest
