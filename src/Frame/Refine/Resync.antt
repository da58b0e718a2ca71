-- ===== src/Frame/Refine/Resync.antt =====
-- `vt_parser_resync` puts a parser that lost the stream back in step.
use vekterm.Base.{ℕ, ◌<◌, ◌^◌, ◌≡◌, refl, List, ◌∷◌, ◌++◌, some, All, length, ap, ◌∙◌, ◌>>=◌}
use vekterm.Protocol.Word.{pack_be}
use vekterm.Protocol.Message.{Message, header, encode}
use vekterm.Protocol.RoundTrip.{encode-lt}
use vekterm.Frame.State.{Sink, Parser}
use vekterm.Frame.Beam.{reset_frame, resync}
use vekterm.Frame.Parser.{on_header, count_word, feed_word, feed}
use vekterm.Frame.Valid.{IsValid}
use vekterm.Frame.Picture.{Shown, blank, performs}
use vekterm.Frame.Refine.Word.{on_header-Follows}
use vekterm.Frame.Refine.Client.{
  recorder, IsRecorder, IsRecorder-IsClient, Plays, feed_word-encode, dispatch-meaning, obeys,
}
use vekterm.Frame.Refine.Stream.{loaded, feed-pack_be, transmit, IsPlain, feed-hears, hears}

on_header-Plays :
    (p : Parser (List Shown)) (n : ℕ) {out : List Shown}
    → IsValid p
    → p.sink ≡ recorder out
    → Plays IsRecorder
        (on_header (count_word (loaded (resync p) (pack_be (encode (header n))))) n)
        (blank n)
        out
unfolding on_header reset_frame resync pack_be
on_header-Plays p n v sink = record {
  follows =
      on_header-Follows (count_word (loaded (resync p) (pack_be (encode (header n))))) n
        v.vectors.capacity;
  sink = sink;
  word_start = refl;
  no_payload = refl;
  word_room = refl;
}

feed-resync_word :
    (p : Parser (List Shown)) (w : ℕ) (rest : List ℕ)
    → length p.bytes ≡ 4
    → w < 2 ^ 32
    → feed (resync p) (pack_be w ++ rest)
      ≡ (feed_word (loaded (resync p) (pack_be w)) w >>= λ q. feed q rest)
unfolding resync
feed-resync_word p w rest room h = feed-pack_be (resync p) w rest h refl refl room

-- Whatever a valid parser was in the middle of, after a resync and a frame header its client is
-- shown what the messages after the header draw, and nothing of what came before.
pub feed-resync :
    (p : Parser (List Shown)) (n : ℕ) (ms : List Message) (out : List Shown)
    → IsValid p
    → p.sink ≡ recorder out
    → IsPlain (header n)
    → All IsPlain ms
    → (q : Parser (List Shown)) × (feed (resync p) (transmit (header n ∷ ms)) ≡ some q)
      × (q.sink.ctx ≡ performs ms (blank n) out)
unfolding transmit obeys
feed-resync p n ms out v sink first plain =
    let w : ℕ = encode (header n) in
    let p' : Parser (List Shown) = loaded (resync p) (pack_be w) in
    let read = feed-resync_word p w (transmit ms) v.word_room (encode-lt (header n) first.fits) in
    let obeyed =
      feed_word-encode p' (header n) first.fits
      ∙ dispatch-meaning (header n) (count_word p') refl in
    let (rest, played) = feed-hears IsRecorder-IsClient ms plain (on_header-Plays p n v sink) in
    (
      hears ms (obeys (header n) (count_word p')),
      read ∙ ap (λ o. o >>= λ q. feed q (transmit ms)) obeyed ∙ rest,
      ap (λ (s : Sink (List Shown)). s.ctx) played.sink,
    )
