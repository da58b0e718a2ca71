-- ===== src/Frame/Container.antt =====
-- What becomes of the payload of an extension container, byte by byte.
use vekterm.Base.{
  ℕ, suc, ◌+◌, ◌≤◌, ◌<◌, ◌≡◌, refl, arith, true, false, List, [], ◌∷◌, ◌++◌, some, length, set,
  length-set, take, take-set, ap, sym, ◌∙◌, >>=-some, ◌>>=◌, ◌==◌, ltb, ◌^◌, u64,
}
use mathlib.Core.List.{append_assoc}
use native.Mathlib.Numerals.{add-one}
use vekterm.Protocol.Word.{pack_be}
use vekterm.Protocol.Hello.{ext_max}
use vekterm.Protocol.Message.{container, encode, meaning}
use vekterm.Protocol.RoundTrip.{encode-lt, ext_fields-encode_ext}
use vekterm.Frame.State.{Parser}
use vekterm.Frame.Ext.Dispatch.{dispatch_ext, set_overflow}
use vekterm.Frame.Parser.{
  begin_ext, on_ext, dispatch, feed_word, store_payload, feed_payload, feed_byte, feed,
}
use vekterm.Frame.Refine.Client.{feed_word-encode}
use vekterm.Frame.Refine.Stream.{feed-pack_be}

module _ {C : Type 0} where
  -- What an oversized container leaves: the frame is marked, and nothing was stored.
  abbrev skipped : Parser C → Parser C
  skipped p = record p {
    frame = set_overflow p.frame;
    ext_remaining = 0;
    ext_subtype = 0;
    ext_len = 0;
    ext_overflow = false;
  }

  skip_last :
      (p : Parser C) (b : ℕ)
      → p.ext_overflow ≡ true
      → p.ext_remaining ≡ 1
      → feed_byte p b ≡ some (skipped p)
  unfolding feed_byte feed_payload store_payload dispatch_ext
  skip_last p b over last = ground arith

  skip_one :
      (p : Parser C) (b n : ℕ)
      → p.ext_overflow ≡ true
      → p.ext_remaining ≡ suc (suc n)
      → feed_byte p b ≡ some (record p { ext_remaining = suc n })
  unfolding feed_byte feed_payload store_payload
  skip_one p b n over more = ground arith

  skip_payload :
      (b : ℕ) (payload : List ℕ) (p : Parser C)
      → p.ext_overflow ≡ true
      → p.ext_remaining ≡ suc (length payload)
      → feed p (b ∷ payload) ≡ some (skipped p)
  unfolding feed
  skip_payload b [] p over count = rw (skip_last p b over count)
  skip_payload b (c ∷ payload) p over count =
      rw (skip_one p b (length payload) over count)
        (skip_payload c payload (record p { ext_remaining = suc (length payload) }) over refl)

  -- The header of a container whose payload does not fit.
  begin_oversized :
      (p : Parser C) (subtype n : ℕ)
      → subtype < 32
      → n < 2 ^ 24
      → ext_max < n
      → feed_word p (encode (container subtype n))
        ≡ some (record p {
          words_seen = u64 (p.words_seen + 1);
          ext_subtype = subtype;
          ext_len = 0;
          ext_overflow = true;
          ext_remaining = n;
        })
  unfolding dispatch meaning on_ext begin_ext encode
  begin_oversized p subtype n few short big =
      let (s, l) = ext_fields-encode_ext subtype n few short in
      let nonzero : (n == 0) ≡ false = ground arith in
      let over : ltb ext_max n ≡ true = ground arith in
      feed_word-encode p (container subtype n) (few, short) ∙ rw (s, l, nonzero, over) refl

  -- At the start of a word, a container that announces a payload of more than 8192 bytes is read to
  -- the end of that payload without a fault, and is not drawn or stored: the frame is marked as
  -- overflowed, the word of the header counts as seen and stays in the word buffer, and nothing else
  -- of the parser has changed but that its record of a container is empty, so that the next byte
  -- starts a word.
  pub feed_oversized :
      (p : Parser C) (subtype : ℕ) (payload : List ℕ)
      → p.nbytes ≡ 0
      → p.ext_remaining ≡ 0
      → length p.bytes ≡ 4
      → subtype < 32
      → length payload < 2 ^ 24
      → 8192 < length payload
      → let word = encode (container subtype (length payload)) in
        feed p (pack_be word ++ payload)
        ≡ some (record p {
          bytes = pack_be word;
          nbytes = 0;
          words_seen = u64 (p.words_seen + 1);
          frame = set_overflow p.frame;
          ext_remaining = 0;
          ext_subtype = 0;
          ext_len = 0;
          ext_overflow = false;
        })
  feed_oversized p subtype [] n r room few short big = absurd (omega arith)
  feed_oversized p subtype (b ∷ payload) n r room few short big =
      let word = encode (container subtype (length (b ∷ payload))) in
      let p' = record p { bytes = pack_be word; nbytes = 0; ext_remaining = 0 } in
      feed-pack_be p word (b ∷ payload) (encode-lt (container subtype _) (few, short)) n r room
      ∙ ap (λ o. o >>= λ q. feed q (b ∷ payload))
          (begin_oversized p' subtype (length (b ∷ payload)) few short big)
      ∙ skip_payload b payload _ refl refl

  -- What a container that fits leaves to dispatch: its payload stands at the start of the buffer.
  abbrev gathered : Parser C → List ℕ → ℕ → Parser C
  gathered p buf len = record p { ext_buf = buf; ext_len = len; ext_remaining = 0 }

  gather_last :
      (p : Parser C) (b : ℕ)
      → p.ext_overflow ≡ false
      → p.ext_remaining ≡ 1
      → p.ext_len < ext_max
      → feed_byte p b ≡ dispatch_ext (gathered p (set p.ext_buf p.ext_len b) (p.ext_len + 1))
  unfolding feed_byte feed_payload store_payload
  gather_last p b kept last room = ground arith

  abbrev stored : Parser C → ℕ → ℕ → Parser C
  stored p b left = record p {
    ext_buf = set p.ext_buf p.ext_len b;
    ext_len = p.ext_len + 1;
    ext_remaining = left;
  }

  gather_one :
      (p : Parser C) (b n : ℕ)
      → p.ext_overflow ≡ false
      → p.ext_remaining ≡ suc (suc n)
      → p.ext_len < ext_max
      → feed_byte p b ≡ some (stored p b (suc n))
  unfolding feed_byte feed_payload store_payload
  gather_one p b n kept more room = ground arith

  take-stored :
      (p : Parser C) (b : ℕ) {held : List ℕ}
      → length p.ext_buf ≡ ext_max
      → p.ext_len < ext_max
      → take p.ext_len p.ext_buf ≡ held
      → take (p.ext_len + 1) (set p.ext_buf p.ext_len b) ≡ held ++ (b ∷ [])
  take-stored p b size room here =
      rw add-one (take-set p.ext_buf p.ext_len b (omega arith) ∙ ap (λ xs. xs ++ (b ∷ [])) here)

  -- Gathering the rest of a payload behind the bytes that the buffer already holds.
  gathers :
      (payload : List ℕ) (b : ℕ) (p : Parser C) (held : List ℕ)
      → p.ext_overflow ≡ false
      → p.ext_remaining ≡ suc (length payload)
      → length p.ext_buf ≡ ext_max
      → p.ext_len + suc (length payload) ≤ ext_max
      → take p.ext_len p.ext_buf ≡ held
      → (buf : List ℕ) × (feed p (b ∷ payload)
          ≡ dispatch_ext (gathered p buf (p.ext_len + suc (length payload))))
        × (take (p.ext_len + suc (length payload)) buf ≡ held ++ (b ∷ payload))
  unfolding feed
  gathers [] b p held kept count size room here = (
    set p.ext_buf p.ext_len b,
    >>=-some (feed_byte p b) ∙ gather_last p b kept count (omega arith),
    take-stored p b size (omega arith) here,
  )
  gathers (c ∷ payload) b p held kept count size room here =
      let left : ℕ = suc (length payload) in
      let e : p.ext_len + 1 + left ≡ p.ext_len + suc left = omega arith in
      let (buf, fed, prefix) =
        gathers payload c (stored p b left) (held ++ (b ∷ [])) kept refl
          (length-set p.ext_buf p.ext_len b ∙ size) (omega arith)
          (take-stored p b size (omega arith) here) in
      (
        buf,
        rw (gather_one p b (length payload) kept count (omega arith))
            (fed ∙ ap (λ n. dispatch_ext (gathered p buf n)) e),
        ap (λ n. take n buf) (sym e) ∙ prefix ∙ append_assoc held (b ∷ []) (c ∷ payload),
      )

  -- The payload of a container that fits, gathered from its first byte, is dispatched once, when
  -- it is complete, from the start of the buffer and with its length, and nothing else has changed.
  pub feed_container :
      (b : ℕ) (payload : List ℕ) (p : Parser C)
      → p.ext_overflow ≡ false
      → p.ext_len ≡ 0
      → p.ext_remaining ≡ suc (length payload)
      → length p.ext_buf ≡ ext_max
      → suc (length payload) ≤ ext_max
      → (buf : List ℕ) × (feed p (b ∷ payload)
          ≡ dispatch_ext
              (record p { ext_buf = buf; ext_len = suc (length payload); ext_remaining = 0 }))
        × (take (suc (length payload)) buf ≡ b ∷ payload)
  feed_container b payload p kept fresh count size room =
      let (buf, fed, prefix) =
        gathers payload b p [] kept count size (omega arith) (ap (λ n. take n p.ext_buf) fresh) in
      let e : p.ext_len + suc (length payload) ≡ suc (length payload) = omega arith in
      (
        buf,
        fed ∙ ap (λ n. dispatch_ext (gathered p buf n)) e,
        ap (λ n. take n buf) (sym e) ∙ prefix,
      )
