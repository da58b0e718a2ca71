-- ===== src/Host/App.antt =====
-- src/vekterm.c: the state of the tool, its callbacks, and the self test.
use vekterm.Base.{
  ℕ, ◌+◌, ◌==◌, ◌&&◌, Bool, true, false, Option, none, some, List, [], ◌∷◌, ◌++◌, u64,
  if◌then◌else◌, ◌>>=◌,
}
use vekterm.Base.Int.{ℤ, pos, negsuc}
use vekterm.Protocol.Word.{pack_be}
use vekterm.Protocol.Encode.{encode_frame, encode_rgb, encode_xy, encode_quality, encode_complete}
use vekterm.Protocol.Hello.{hello_descriptor}
use vekterm.Frame.State.{Frame, Sink, Parser}
use vekterm.Frame.Beam.{init}
use vekterm.Frame.Parser.{feed}
use vekterm.Host.Stub.{
  Options, Stub, Line, keepalive_line, selftest_line, stub_init, stub_set_frame,
}

-- `app_state`, with what has been printed and what has been written to `out_fd`.
pub record App : Type 0 where
  pub backend_ctx : Stub
  pub frames : ℕ
  pub exit_seen : Bool
  pub out_fd : ℤ
  pub stdout : List Line
  pub sent : List ℕ

unfoldable pub app_on_frame : App → Frame → App
app_on_frame app f =
    let shown = stub_set_frame app.backend_ctx f in
    record app {
      backend_ctx = shown.0;
      stdout = app.stdout ++ shown.1;
      frames = u64 (app.frames + 1);
    }

unfoldable pub app_on_exit : App → App
app_on_exit app = record app { exit_seen = true }

unfoldable pub app_on_keepalive : App → App
app_on_keepalive app = record app { stdout = app.stdout ++ (keepalive_line ∷ []) }

abbrev pub is_negative : ℤ → Bool
is_negative (pos n) = false
is_negative (negsuc n) = true

-- The result of the write is ignored.
unfoldable pub app_on_query : App → App
app_on_query app =
    if is_negative app.out_fd then app else record app { sent = app.sent ++ hello_descriptor }

unfoldable pub app_sink : App → Sink App
app_sink app = record {
  ctx = app;
  on_frame = some app_on_frame;
  on_exit = some app_on_exit;
  on_query = some app_on_query;
  on_keepalive = some app_on_keepalive;
}

abbrev pub first_app : Stub → ℤ → App
first_app stub fd = record {
  backend_ctx = stub;
  frames = 0;
  exit_seen = false;
  out_fd = fd;
  stdout = [];
  sent = [];
}

-- The frame that the self test feeds.
unfoldable pub selftest_words : List ℕ
selftest_words =
    encode_frame 400
    ∷ encode_rgb 0xF0 0xF0 0xF0
    ∷ encode_xy 2049 2050 true
    ∷ encode_xy 2449 2050 false
    ∷ encode_quality 5
    ∷ encode_complete false
    ∷ []

unfoldable pub feed_words : {C : Type 0} → List ℕ → Parser C → Option (Parser C)
feed_words [] p = some p
feed_words (w ∷ ws) p = do q ← feed p (pack_be w); feed_words ws q

-- The verdict of `run_selftest` and its exit code.
abbrev pub verdict : Parser App → Bool
verdict p = p.sink.ctx.frames == 1 && p.frames_done == 1

-- `run_selftest`: the exit code and what is on stdout; `memory` is whether `calloc` succeeds.
unfoldable pub run_selftest : Bool → Options → Option (ℕ × List Line)
run_selftest memory opt = elim (stub_init memory opt) [
  | none ↦ some (1, [])
  | some stub ↦ feed_words selftest_words (init (app_sink (first_app stub (negsuc 0)))) >>= λ p.
      let app = p.sink.ctx in
      some (if verdict p then 0 else 1, app.stdout ++ (selftest_line (verdict p) app.frames ∷ []))
]
