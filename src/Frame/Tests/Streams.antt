-- ===== src/Frame/Tests/Streams.antt =====
-- Streams of command words.
use vekterm.Base.{
  ℕ, ◌≡◌, refl, arith, true, false, some, List, [], ◌∷◌, ◌++◌, length, replicate, set, take,
  length-replicate, All,
}
use vekterm.Protocol.Hello.{ext_max}
use vekterm.Protocol.Word.{pack_be}
use vekterm.Protocol.Message.{Message, container, encode, colour, move, draw, header, hint, done}
use vekterm.Frame.State.{Parser}
use vekterm.Frame.Beam.{init, resync}
use vekterm.Frame.Parser.{feed, feed_byte, gather}
use vekterm.Frame.Ext.Dispatch.{dispatch_ext}
use vekterm.Frame.Valid.{IsValid}
use vekterm.Frame.Valid.Beam.{init-IsValid}
use vekterm.Frame.Valid.Feed.{feed-IsValid}
use vekterm.Frame.Picture.{Shown, blank, draws, shows, performs}
use vekterm.Frame.Refine.Client.{recorder}
use vekterm.Frame.Refine.Stream.{IsPlain, transmit, feed-transmit}
use vekterm.Frame.Refine.Resync.{feed-resync}
use vekterm.Frame.Container.{feed_oversized, feed_container}

abbrev white_line : List Message
white_line =
    header 400 ∷ colour 240 240 240 ∷ move 2049 2050 ∷ draw 2449 2050 ∷ hint 5 ∷ done false ∷ []

abbrev line_shown : Shown
line_shown = record {
  vectors = record { x0 = 2049; y0 = 2050; x1 = 2449; y1 = 2050; brightness = 240 } ∷ [];
  travel = 400;
  monochrome = false;
  overflow = false;
}

performs-white_line : performs white_line (blank 0) [] ≡ line_shown ∷ []
unfolding performs draws shows
performs-white_line = refl

abbrev idle : Parser (List Shown)
idle = init (recorder [])

white_line-IsPlain : All IsPlain white_line
white_line-IsPlain = ground arith

feed-transmit_example :
    (q : Parser (List Shown)) × (feed idle (transmit white_line) ≡ some q)
    × (q.sink.ctx ≡ performs white_line (blank 0) [])
feed-transmit_example = feed-transmit white_line white_line-IsPlain

-- A parser that lost the stream in the middle of a word.
abbrev slipped : Parser (List Shown)
slipped = record idle { bytes = set idle.bytes 0 0x80; nbytes = 1 }

feed_slip : feed idle (0x80 ∷ []) ≡ some slipped
unfolding feed feed_byte gather init
feed_slip = refl

feed-IsValid_example : IsValid slipped
feed-IsValid_example =
    feed-IsValid (0x80 ∷ []) idle (omega arith) (init-IsValid (recorder [])) feed_slip

slipped-IsValid : IsValid slipped
slipped-IsValid = feed-IsValid (0x80 ∷ []) idle (omega arith) (init-IsValid (recorder [])) feed_slip

feed-resync_example :
    (q : Parser (List Shown)) × (feed
        (resync slipped)
        (transmit (header 400 ∷ colour 240 240 240 ∷ done true ∷ []))
      ≡ some q)
    × (q.sink.ctx ≡ performs (colour 240 240 240 ∷ done true ∷ []) (blank 400) [])
feed-resync_example =
    feed-resync slipped 400 (colour 240 240 240 ∷ done true ∷ []) [] slipped-IsValid
      (unfold init in refl) (ground arith) (ground arith)

-- A container of one byte more than the buffer holds.
abbrev long_payload : List ℕ
long_payload = replicate 8193 7

long_length : length long_payload ≡ 8193
long_length = length-replicate 8193 7

feed_oversized_example :
    let word = encode (container 5 (length long_payload)) in
    feed idle (pack_be word ++ long_payload)
    ≡ some (record idle {
      bytes = pack_be word;
      nbytes = 0;
      words_seen = 1;
      frame = record idle.frame { overflow = true };
      ext_remaining = 0;
      ext_subtype = 0;
      ext_len = 0;
      ext_overflow = false;
    })
unfolding init
feed_oversized_example =
    feed_oversized idle 5 long_payload (unfold init in refl) (unfold init in refl)
      (unfold init in length-replicate {A = ℕ} 4 0) (omega arith) (omega (arith, long_length))
      (omega (arith, long_length))

abbrev container_open : Parser (List Shown)
container_open = record idle {
  ext_subtype = 9;
  ext_len = 0;
  ext_overflow = false;
  ext_remaining = 3;
}

feed_container_example :
    (buf : List ℕ) × (feed container_open (7 ∷ 8 ∷ 9 ∷ [])
      ≡ dispatch_ext (record container_open { ext_buf = buf; ext_len = 3; ext_remaining = 0 }))
    × (take 3 buf ≡ 7 ∷ 8 ∷ 9 ∷ [])
unfolding init
feed_container_example =
    feed_container 7 (8 ∷ 9 ∷ []) container_open refl refl refl (length-replicate {A = ℕ} ext_max 0)
      (omega arith)
