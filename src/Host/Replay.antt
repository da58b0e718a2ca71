-- ===== src/Host/Replay.antt =====
-- A recorded stream through the main loop of src/vekterm.c, to the lines on stdout.
use vekterm.Base.{
  ℕ, ◌≡◌, refl, arith, if◌then◌else◌, Bool, true, false, some, List, [], ◌∷◌, All, ap, sym, ◌∙◌,
  concat, u64, length,
}
use vekterm.Base.Int.{ℤ}
use mathlib.Core.Path.{subst}
use vekterm.Protocol.Word.{pack_be}
use vekterm.Protocol.Message.{
  Message, colour, move, draw, header, hint, done, leave, ping, container, encode, is_leave,
}
use vekterm.Frame.State.{Sink, Parser}
use vekterm.Frame.Beam.{init, reset_frame, emit_lit}
use vekterm.Frame.Parser.{count_word, on_header, on_complete, feed}
use vekterm.Frame.Picture.{blank, performs}
use vekterm.Frame.Valid.{IsByte}
use vekterm.Frame.Valid.Beam.{init-IsValid}
use vekterm.Frame.Refine.Stream.{
  IsPlain, loaded, transmit, transmit-IsByte, hears, feed-hears, init-Plays,
}
use vekterm.Frame.Refine.Client.{obeys, on_cmd-ping}
use vekterm.Host.Stub.{Options, Stub, stub_init}
use vekterm.Host.App.{App, app_sink, first_app}
use vekterm.Host.Loop.{end_of_file, read_loop}
use vekterm.Host.Seen.{Seen, report, without_pings, app-IsClient, first_app-Seen}
use vekterm.Host.Chunks.{
  Flags, wired-exit_seen, frame-Flags, keepalive-Flags, turns, read_loop-turns,
}

abbrev pub IsStaying : Message → Type 0
IsStaying m = is_leave m ≡ false

if-Flags :
    (b : Bool) (x y : Parser App)
    → Flags false x.sink
    → Flags false y.sink
    → Flags false (if b then x else y).sink
if-Flags true x y v u = v
if-Flags false x y v u = u

-- Only the end of a session sets the exit flag.
obeys-Flags :
    (m : Message) (p : Parser App)
    → is_leave m ≡ false
    → Flags false p.sink
    → Flags false (obeys m p).sink
unfolding obeys on_header reset_frame
obeys-Flags (colour r g b) p h v = v
obeys-Flags (move x y) p h v = v
obeys-Flags (draw x y) p h v = unfold emit_lit in v
obeys-Flags (header n) p h v = v
obeys-Flags (hint n) p h v = v
obeys-Flags (done m) p h v = unfold on_complete in frame-Flags false p.sink _ v
obeys-Flags leave p h v = cc
obeys-Flags ping p h v =
    subst (λ (q : Parser App). Flags false q.sink) (sym (on_cmd-ping p))
      (if-Flags _ _ _ (keepalive-Flags false p.sink v) v)
obeys-Flags (container s n) p h v = v

hears-Flags :
    (ms : List Message) (p : Parser App)
    → All IsStaying ms
    → Flags false p.sink
    → Flags false (hears ms p).sink
unfolding hears
hears-Flags [] p stays v = v
hears-Flags (m ∷ ms) p stays v =
    let p' : Parser App = count_word (loaded p (pack_be (encode m))) in
    hears-Flags ms (obeys m p') stays.1 (obeys-Flags m p' stays.0 v)

stub_init-fresh_parser :
    (opt : Options) (stub : Stub)
    → stub_init true opt ≡ some stub
    → (stub.opt ≡ opt) × (stub.frames ≡ 0)
unfolding stub_init
stub_init-fresh_parser opt stub made = (ground arith, ground arith)

-- The tool without an input file fitted to a fresh_parser backend.
abbrev pub fresh_parser : Stub → ℤ → Parser App
fresh_parser stub fd = init (app_sink (first_app stub fd))

-- A file of messages without payloads and without an exit, whose fields fit their words, read in
-- any pieces by the tool without `--once`: the loop ends at the end of the file, and apart from the
-- lines about keepalives it has printed the report of exactly the frames that the messages draw,
-- with their vectors if the options are verbose, and has counted them.
pub read_loop-report :
    (opt : Options) (stub : Stub) (fd : ℤ) (ms : List Message) (chunks : List (List ℕ))
    → stub_init true opt ≡ some stub
    → All IsPlain ms
    → All IsStaying ms
    → concat chunks ≡ transmit ms
    → (q : Parser App) × (read_loop false true (turns chunks) (fresh_parser stub fd)
        ≡ some (end_of_file, q))
      × (without_pings q.sink.ctx.stdout ≡ report opt.verbose 0 (performs ms (blank 0) []))
      × (q.sink.ctx.frames ≡ u64 (length (performs ms (blank 0) [])))
read_loop-report opt stub fd ms chunks made plain stays same =
    let (opts, none_yet) = stub_init-fresh_parser opt stub made in
    let app = first_app stub fd in
    let seen = subst (λ o. Seen o app []) opts (first_app-Seen stub fd none_yet) in
    let (fed, played) =
      feed-hears (app-IsClient opt) ms plain
        (init-Plays (app-IsClient opt) (app_sink app) (app, refl, seen)) in
    let (app', wired, seen') = played.sink in
    let (app'', wired', unseen) =
      hears-Flags ms (fresh_parser stub fd) stays (unfold init in (app, refl, refl)) in
    (
      hears ms (fresh_parser stub fd),
      read_loop-turns chunks (fresh_parser stub fd) (hears ms (fresh_parser stub fd))
          (subst (All IsByte) (sym same) (transmit-IsByte ms)) (init-IsValid _)
          (unfold init in (app, refl)) (ap (feed (fresh_parser stub fd)) same ∙ fed)
          (wired-exit_seen _ app'' wired' ∙ unseen),
      ap (λ (t : Sink App). without_pings t.ctx.stdout) wired ∙ unfold app_sink in seen'.printed,
      ap (λ (t : Sink App). t.ctx.frames) wired ∙ unfold app_sink in seen'.counted,
    )
