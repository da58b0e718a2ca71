-- ===== src/Host/Main/Report.antt =====
-- A file given on the command line, from its bytes to what is printed.
use Prim.Native.String.{String}
use text.Mathlib.Text.{◌==◌}
use vekterm.Base.{
  concat, ℕ, ◌≡◌, true, false, Option, none, some, List, [], ◌∷◌, if◌then◌else◌, ◌>>=◌, All, ap,
  sym, ◌∙◌, u64, length,
}
use vekterm.Base.Int.{ℤ, pos, ltb_ℤ}
use vekterm.Protocol.Message.{Message}
use vekterm.Frame.State.{Parser}
use vekterm.Frame.Beam.{init}
use vekterm.Frame.Picture.{blank, performs}
use vekterm.Frame.Refine.Stream.{IsPlain, transmit}
use vekterm.Host.Stub.{Stub, stub_init}
use vekterm.Host.App.{App, app_sink, first_app, is_negative, run_selftest}
use vekterm.Host.Cli.{Settings, ok, stop, read_args}
use vekterm.Host.Serial.{PortCall, closes, vt_serial_open}
use vekterm.Host.Loop.{Ended, end_of_file, is_running, read_loop}
use vekterm.Host.Seen.{report, without_pings}
use vekterm.Host.Chunks.{turns}
use vekterm.Host.Replay.{IsStaying, fresh_parser, read_loop-report}
use vekterm.Host.Main.{
  System, Outcome, stops, tests, no_source, no_memory, serves, open_source, close_source,
  source_is_eofable, reply_fd, serve_source, run_settings, main,
}

-- Settings to replay a file to its end, on a system that can.
pub record Replays (sys : System) (s : Settings) (file : String) (chunks : List (List ℕ))
    : Type 0 where
  pub no_test : s.selftest ≡ false
  pub to_end : s.once ≡ false
  pub named : s.input ≡ some file
  pub no_stdin : (file == "-") ≡ false
  pub found : is_negative (sys.open_file file) ≡ false
  pub regular : source_is_eofable (sys.fstat (sys.open_file file)) ≡ true
  pub memory : sys.memory ≡ true
  pub reads : sys.turns ≡ turns chunks

-- The outcome of the loop.
abbrev outcome : ℤ → Ended × Parser App → Outcome
outcome fd a = serves a.0 a.1 (if is_running a.0 then [] else close_source fd)

serve_source-report :
    (sys : System) (s : Settings) (fd : ℤ) (stub : Stub) (a : Ended × Parser App)
    → stub_init sys.memory s.opt ≡ some stub
    → read_loop s.once
        (source_is_eofable (sys.fstat fd))
        sys.turns
        (init (app_sink (first_app stub (reply_fd s fd))))
      ≡ some a
    → serve_source sys s fd [] ≡ some (outcome fd a)
unfolding serve_source
serve_source-report sys s fd stub a made looped =
    ap
      (λ m. elim m as (λ _. Option Outcome) [
        | none ↦ some (no_memory (close_source fd))
        | some stub' ↦
            read_loop s.once (source_is_eofable (sys.fstat fd)) sys.turns
              (init (app_sink (first_app stub' (reply_fd s fd))))
            >>= λ b. some (outcome fd b)
      ])
      made
    ∙ ap (λ o. o >>= λ b. some (outcome fd b)) looped

main-serve_source :
    (sys : System) (args : List String) (s : Settings) (file : String) (chunks : List (List ℕ))
    → read_args sys.strtol args ≡ ok s
    → Replays sys s file chunks
    → main sys args ≡ serve_source sys s (sys.open_file file) []
unfolding main run_settings open_source
main-serve_source sys args s file chunks read v =
    let after : ℤ × List PortCall → Option Outcome =
      λ r. if is_negative r.0 then some (no_source r.1) else serve_source sys s r.0 r.1 in
    let source : Option String → ℤ × List PortCall = λ i. elim i as (λ _. ℤ × List PortCall) [
      | none ↦ vt_serial_open sys.headers (sys.open_port s.port) s.baud
      | some input ↦ if input == "-" then (pos 0, []) else (sys.open_file input, [])
    ] in
    ap
      (λ t. elim t as (λ _. Option Outcome) [
        | stop code n ↦ some (stops code n)
        | ok s' ↦ run_settings sys s'
      ])
      read
    ∙ ap
        (λ b. elim b as (λ _. Option Outcome) [
          | true ↦ run_selftest sys.memory s.opt >>= λ t. some (tests t.0 t.1)
          | false ↦ after (source s.input)
        ])
        v.no_test
    ∙ ap (λ i. after (source i)) v.named
    ∙ ap (λ b. after (if b then (pos 0, []) else (sys.open_file file, []))) v.no_stdin
    ∙ ap (λ b. if b then some (no_source []) else serve_source sys s (sys.open_file file) [])
        v.found

has_stub :
    (sys : System) (s : Settings)
    → sys.memory ≡ true
    → (stub : Stub) × (stub_init sys.memory s.opt ≡ some stub)
unfolding stub_init
has_stub sys s memory = (_, ap (λ b. stub_init b s.opt) memory)

-- If the command line is accepted and names a file to be replayed to its end, the file can be opened,
-- with a descriptor above those of the standard streams, and there is memory, then for a file of messages without payloads and without an exit, whose
-- fields fit their words, read in any pieces, the program ends at the end of the file and closes it, once;
-- apart from the lines about keepalives it has printed the report of exactly the frames that the
-- messages draw, with their vectors if the options are verbose, and it has counted them.
pub main-report :
    (sys : System) (args : List String) (s : Settings) (file : String) (ms : List Message)
    (chunks : List (List ℕ))
    → read_args sys.strtol args ≡ ok s
    → Replays sys s file chunks
    → ltb_ℤ (pos 2) (sys.open_file file) ≡ true
    → All IsPlain ms
    → All IsStaying ms
    → concat chunks ≡ transmit ms
    → (q : Parser App) × (main sys args
        ≡ some (serves end_of_file q (closes (sys.open_file file) ∷ [])))
      × (without_pings q.sink.ctx.stdout ≡ report s.opt.verbose 0 (performs ms (blank 0) []))
      × (q.sink.ctx.frames ≡ u64 (length (performs ms (blank 0) [])))
main-report sys args s file ms chunks read v own plain stays same =
    let fd = sys.open_file file in
    let (stub, made) = has_stub sys s v.memory in
    let made' : stub_init true s.opt ≡ some stub =
      ap (λ b. stub_init b s.opt) (sym v.memory) ∙ made in
    let (q, looped, printed, counted) =
      read_loop-report s.opt stub (reply_fd s fd) ms chunks made' plain stays same in
    let looped' : read_loop s.once (source_is_eofable (sys.fstat fd)) sys.turns
          (fresh_parser stub (reply_fd s fd))
        ≡ some (end_of_file, q) =
      (λ i. read_loop (v.to_end i) (v.regular i) (v.reads i) (fresh_parser stub (reply_fd s fd)))
      ∙ looped in
    (
      q,
      main-serve_source sys args s file chunks read v
          ∙ serve_source-report sys s fd stub (end_of_file, q) made looped'
          ∙ ap (λ b. some (serves end_of_file q (if b then closes fd ∷ [] else []))) own,
      printed,
      counted,
    )
