-- ===== src/Frame/Refine/Stream.antt =====
-- A whole stream of bytes: the words are put together whatever the reads, and the client sees the
-- frames that the messages draw.
use vekterm.Base.{
  ℕ, ◌^◌, ◌<◌, ◌≡◌, refl, arith, true, Option-cases, inl, inr, some, u8, shr, ◌>>=◌, List, [], ◌∷◌,
  ◌++◌, length, length-replicate, All, ap, ◌∙◌,
}
use vekterm.Protocol.Word.{pack_be, unpack_be, word_of_bytes}
use vekterm.Protocol.Hello.{max_pipeline}
use vekterm.Protocol.Message.{Message, encode, Fits}
use vekterm.Protocol.Sums.{word_of_bytes_sum}
use vekterm.Protocol.RoundTrip.{encode-lt}
use vekterm.Frame.State.{Sink, Parser}
use vekterm.Frame.Valid.{IsByte}
use vekterm.Frame.Beam.{init, zero_segment}
use vekterm.Frame.Parser.{count_word, gather, feed_byte, feed_word, feed}
use vekterm.Frame.Picture.{Picture, Shown, blank, performs, depicts}
use vekterm.Frame.Refine.Client.{
  recorder, IsClient, IsRecorder-IsClient, Plays, is_plain, feed_word-encode, count_word-Plays,
  dispatch-meaning, obeys, obeys-Plays,
}

module _ {C : Type 0} where
  -- Bytes fed in two reads are the bytes fed in one.
  pub feed-append :
      (xs ys : List ℕ) (p : Parser C) → feed p (xs ++ ys) ≡ (feed p xs >>= λ q. feed q ys)
  unfolding feed
  feed-append [] ys p = refl
  feed-append (x ∷ xs) ys p = elim (Option-cases (feed_byte p x)) [
    | inl fault ↦ rw fault
    | inr (q, step) ↦ rw step (feed-append xs ys q)
  ]

  -- The parser with the reassembly buffer set.
  abbrev pub loaded : Parser C → List ℕ → Parser C
  loaded p bytes = record p { bytes = bytes; nbytes = 0; ext_remaining = 0 }

  feed_four :
      (p : Parser C) (o0 o1 o2 o3 a b c d : ℕ) (rest : List ℕ)
      → feed (loaded p (o0 ∷ o1 ∷ o2 ∷ o3 ∷ [])) (a ∷ b ∷ c ∷ d ∷ rest)
        ≡ (feed_word (loaded p (a ∷ b ∷ c ∷ d ∷ [])) (word_of_bytes a b c d) >>= λ q. feed q rest)
  unfolding feed feed_byte gather unpack_be
  feed_four p o0 o1 o2 o3 a b c d rest = refl

  reload : (p : Parser C) → p.nbytes ≡ 0 → p.ext_remaining ≡ 0 → p ≡ loaded p p.bytes
  reload p n r = λ i. record p { nbytes = n i; ext_remaining = r i }

  feed_four_at :
      (bytes : List ℕ) (p : Parser C) (a b c d : ℕ) (rest : List ℕ)
      → length bytes ≡ 4
      → feed (loaded p bytes) (a ∷ b ∷ c ∷ d ∷ rest)
        ≡ (feed_word (loaded p (a ∷ b ∷ c ∷ d ∷ [])) (word_of_bytes a b c d) >>= λ q. feed q rest)
  feed_four_at (o0 ∷ o1 ∷ o2 ∷ o3 ∷ []) p a b c d rest h = feed_four p o0 o1 o2 o3 a b c d rest
  feed_four_at [] p a b c d rest h = absurd (omega arith)
  feed_four_at (o0 ∷ []) p a b c d rest h = absurd (omega arith)
  feed_four_at (o0 ∷ o1 ∷ []) p a b c d rest h = absurd (omega arith)
  feed_four_at (o0 ∷ o1 ∷ o2 ∷ []) p a b c d rest h = absurd (omega arith)
  feed_four_at (o0 ∷ o1 ∷ o2 ∷ o3 ∷ o4 ∷ os) p a b c d rest h = absurd (omega arith)

  -- At the start of a word the four bytes of a word, most significant first, are that word.
  pub feed-pack_be :
      (p : Parser C) (w : ℕ) (rest : List ℕ)
      → w < 2 ^ 32
      → p.nbytes ≡ 0
      → p.ext_remaining ≡ 0
      → length p.bytes ≡ 4
      → feed p (pack_be w ++ rest) ≡ (
          feed_word (record p { bytes = pack_be w; nbytes = 0; ext_remaining = 0 }) w >>= λ q.
          feed q rest)
  unfolding pack_be
  feed-pack_be p w rest h n r room =
      let same =
        word_of_bytes_sum (u8 (shr w 24)) (u8 (shr w 16)) (u8 (shr w 8)) (u8 (shr w 0))
          (omega arith) (omega arith) (omega arith) (omega arith) in
      let word : word_of_bytes (u8 (shr w 24)) (u8 (shr w 16)) (u8 (shr w 8)) (u8 (shr w 0)) ≡ w =
        omega arith in
      ap (λ s. feed s (pack_be w ++ rest)) (reload p n r)
      ∙ feed_four_at p.bytes p _ _ _ _ rest room
      ∙ ap (λ v. feed_word (loaded p (pack_be w)) v >>= λ q. feed q rest) word

-- What a sender writes for a list of messages.
unfoldable pub transmit : List Message → List ℕ
transmit [] = []
transmit (m ∷ ms) = pack_be (encode m) ++ transmit ms

pub transmit-IsByte : (ms : List Message) → All IsByte (transmit ms)
unfolding transmit pack_be
transmit-IsByte [] = tt
transmit-IsByte (m ∷ ms) =
    (omega arith, (omega arith, (omega arith, (omega arith, transmit-IsByte ms))))

-- A message that fits its word and carries no payload.
pub record IsPlain (m : Message) : Type 0 where
  pub fits : Fits m
  pub no_payload : is_plain m ≡ true

-- What the messages do to a parser, one after the other.
unfoldable pub hears : {C : Type 0} → List Message → Parser C → Parser C
hears [] p = p
hears (m ∷ ms) p = hears ms (obeys m (count_word (loaded p (pack_be (encode m)))))

module _ {C : Type 0} {W : Sink C → List Shown → Type 0} (client : IsClient W) where
  loaded-Plays :
      {p : Parser C} {pic : Picture} {out : List Shown} (w : ℕ)
      → Plays W p pic out
      → Plays W (loaded p (pack_be w)) pic out
  unfolding pack_be
  loaded-Plays w v = ground arith

  -- One message on the wire moves the parser as the message says.
  feed-message :
      (m : Message) (rest : List ℕ) {p : Parser C} {pic : Picture} {out : List Shown}
      → IsPlain m
      → Plays W p pic out
      → feed p (pack_be (encode m) ++ rest)
        ≡ feed (obeys m (count_word (loaded p (pack_be (encode m))))) rest
  feed-message m rest {p} plain v =
      let p' : Parser C = loaded p (pack_be (encode m)) in
      let read =
        feed-pack_be p (encode m) rest (encode-lt m plain.fits) v.word_start v.no_payload
          v.word_room in
      let obeyed =
        feed_word-encode p' m plain.fits ∙ dispatch-meaning m (count_word p') plain.no_payload in
      read ∙ ap (λ o. o >>= λ q. feed q rest) obeyed

  -- On the wire messages do what they say, and the client sees the frames that they draw.
  pub feed-hears :
      (ms : List Message) {p : Parser C} {pic : Picture} {out : List Shown}
      → All IsPlain ms
      → Plays W p pic out
      → (feed p (transmit ms) ≡ some (hears ms p))
        × Plays W (hears ms p) (depicts ms pic) (performs ms pic out)
  unfolding transmit performs hears depicts
  feed-hears [] plain v = (unfold feed in refl, v)
  feed-hears (m ∷ ms) {p} plain v =
      let v' =
        obeys-Plays client m plain.0.no_payload (count_word-Plays W (loaded-Plays (encode m) v)) in
      let (rest, v'') = feed-hears ms plain.1 v' in
      (feed-message m (transmit ms) plain.0 v ∙ rest, v'')

  pub init-Plays : (s : Sink C) → W s [] → Plays W (init s) (blank 0) []
  unfolding init
  init-Plays s w =
      ground (arith, length-replicate max_pipeline zero_segment, length-replicate {A = ℕ} 4 0)

-- A fresh parser fed the bytes of any list of messages without payloads, whose fields fit their
-- words, reads nothing out of bounds, and its client is shown exactly the frames that the messages
-- draw, in order.
pub feed-transmit :
    (ms : List Message)
    → All IsPlain ms
    → (q : Parser (List Shown)) × (feed (init (recorder [])) (transmit ms) ≡ some q)
      × (q.sink.ctx ≡ performs ms (blank 0) [])
feed-transmit ms plain =
    let start = init-Plays IsRecorder-IsClient (recorder []) refl in
    let (fed, played) = feed-hears IsRecorder-IsClient ms plain start in
    (hears ms (init (recorder [])), fed, ap (λ (s : Sink (List Shown)). s.ctx) played.sink)
