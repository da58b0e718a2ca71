-- ===== src/Host/Selftest.antt =====
-- The self test of src/vekterm.c passes.
use vekterm.Base.{
  Option, Bool, if◌then◌else◌, ℕ, false, ◌≡◌, refl, arith, true, false, some, List, [], ◌∷◌, ◌++◌,
  map, ap, ◌∙◌, ◌>>=◌, Option-cases, inl, inr, All,
}
use vekterm.Base.Int.{negsuc}
use vekterm.Protocol.Word.{pack_be}
use vekterm.Protocol.Message.{Message, header, colour, move, draw, hint, done, encode}
use vekterm.Frame.State.{Sink, Parser}
use vekterm.Frame.Picture.{Shown, blank, draws, shows, performs}
use vekterm.Frame.Beam.{init}
use vekterm.Frame.Parser.{feed}
use vekterm.Frame.Refine.Stream.{IsPlain, transmit, hears, feed-hears, feed-append, init-Plays}
use vekterm.Frame.Beam.{zero_frame, reset_frame, emit_lit, add_segment}
use vekterm.Frame.Parser.{on_complete, on_header}
use vekterm.Frame.Refine.Client.{obeys}
use vekterm.Host.App.{verdict, app_on_frame}
use vekterm.Host.Stub.{Stub, stub_set_frame, Options, Line, selftest_line, stub_init}
use vekterm.Host.App.{App, app_sink, first_app, selftest_words, feed_words, run_selftest}
use vekterm.Host.Seen.{report, without_pings, app-IsClient, first_app-Seen}

abbrev pub selftest_messages : List Message
selftest_messages =
    header 400 ∷ colour 240 240 240 ∷ move 2049 2050 ∷ draw 2449 2050 ∷ hint 5 ∷ done false ∷ []

feed_words-encode :
    {C : Type 0} (ms : List Message) (p : Parser C)
    → feed_words (map encode ms) p ≡ feed p (transmit ms)
unfolding feed_words transmit
feed_words-encode [] p = unfold feed in refl
feed_words-encode (m ∷ ms) p = elim (Option-cases (feed p (pack_be (encode m)))) [
  | inl fault ↦ rw (feed-append (pack_be (encode m)) (transmit ms) p, fault) refl
  | inr (q, fed) ↦
      rw (feed-append (pack_be (encode m)) (transmit ms) p, fed) (feed_words-encode ms q)
]

abbrev fresh_stub : Options → Stub
fresh_stub opt = record { opt = opt; active = zero_frame; have_frame = false; frames = 0 }

abbrev start_parser : Options → Parser App
start_parser opt = init (app_sink (first_app (fresh_stub opt) (negsuc 0)))

abbrev finished : Options → Parser App
finished opt = hears selftest_messages (start_parser opt)

finished-verdict : (opt : Options) → verdict (finished opt) ≡ true
unfolding hears obeys init app_sink app_on_frame stub_set_frame on_complete on_header reset_frame
    emit_lit add_segment pack_be encode
finished-verdict opt = refl

finished-frames : (opt : Options) → (finished opt).sink.ctx.frames ≡ 1
unfolding hears obeys init app_sink app_on_frame stub_set_frame on_complete on_header reset_frame
    emit_lit add_segment pack_be encode
finished-frames opt = refl

abbrev pub selftest_shown : List Shown
selftest_shown =
    record {
      vectors = record { x0 = 2049; y0 = 2050; x1 = 2449; y1 = 2050; brightness = 240 } ∷ [];
      travel = 400;
      monochrome = false;
      overflow = false;
    }
    ∷ []

performs-selftest : performs selftest_messages (blank 0) [] ≡ selftest_shown
unfolding performs draws shows
performs-selftest = refl

run-finished :
    (opt : Options)
    → (feed_words selftest_words (start_parser opt) ≡ some (finished opt))
      × (without_pings (finished opt).sink.ctx.stdout ≡ report opt.verbose 0 selftest_shown)
unfolding selftest_words encode
run-finished opt =
    let plain : All IsPlain selftest_messages = ground arith in
    let app = first_app (fresh_stub opt) (negsuc 0) in
    let seen = first_app-Seen (fresh_stub opt) (negsuc 0) refl in
    let (fed, played) =
      feed-hears (app-IsClient opt) selftest_messages plain
        (init-Plays (app-IsClient opt) (app_sink app) (app, refl, seen)) in
    let (app', wired, seen') = played.sink in
    (
      feed_words-encode selftest_messages (start_parser opt) ∙ fed,
      ap (λ (t : Sink App). without_pings t.ctx.stdout) wired
          ∙ unfold app_sink in
            seen'.printed ∙ ap (λ out. report opt.verbose 0 out) performs-selftest,
    )

-- What the self test gives with a verdict.
abbrev ending : List Line → Bool → ℕ → Option (ℕ × List Line)
ending lines b n = some (if b then 0 else 1, lines ++ (selftest_line b n ∷ []))

-- Whatever the options are, if there is memory for the backend the self test reads nothing out of
-- bounds, reports its one frame and passes: exit code 0, with its verdict as the last line.
pub run_selftest-passes :
    (opt : Options)
    → (lines : List Line) × (run_selftest true opt ≡ some (0, lines ++ (selftest_line true 1 ∷ [])))
      × (without_pings lines ≡ report opt.verbose 0 selftest_shown)
unfolding run_selftest stub_init
run_selftest-passes opt =
    let (fed, printed) = run-finished opt in
    let lines = (finished opt).sink.ctx.stdout in
    (
      lines,
      ap
            (λ o. o >>= λ p. some (
              if verdict p then 0 else 1,
              p.sink.ctx.stdout ++ (selftest_line (verdict p) p.sink.ctx.frames ∷ []),
            ))
            fed
          ∙ ap (λ b. ending lines b (finished opt).sink.ctx.frames) (finished-verdict opt)
          ∙ ap (λ n. ending lines true n) (finished-frames opt),
      printed,
    )
