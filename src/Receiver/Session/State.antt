-- ===== src/Receiver/Session/State.antt =====
-- The receiver between two frames, and what a turn with a frame leaves behind.
use vekterm.Base.{
  ℕ, ◌≡◌, ◌<◌, refl, arith, Bool, List, [], ◌∷◌, ◌++◌, length, map, ap, ◌∙◌, if◌then◌else◌,
}
use vekterm.Frame.State.{Sink, Parser}
use vekterm.Frame.Beam.{resync}
use vekterm.Frame.Parser.{with_ctx}
use vekterm.Frame.Picture.{Picture, Shown, blank}
use vekterm.Frame.Valid.{IsValid}
use vekterm.Frame.Refine.Client.{Plays}
use vekterm.UartRx.Refine.{Holds}
use vekterm.Receiver.State.{wait_recal, direct_draw, write, Call, Globals}
use vekterm.Receiver.Callbacks.{receiver_sink, draw_of}
use vekterm.Receiver.Reply.{Promised}
use vekterm.Receiver.Picture.{IsShowing-kept, Draws}
use vekterm.Receiver.Loop.{World, Machine, globals}
use vekterm.Receiver.Session.Hear.{queued}

-- Between two turns: the parser is at the start of a word and has drawn this of the next frame, the
-- receiver holds the newest of the frames shown, and the ring is empty.
pub record IsBetween (m : Machine) (pic : Picture) (shown : List Shown) : Type 0 where
  pub valid : IsValid m.parser
  pub plays : Plays (Draws (globals m).calls (globals m).g_peer_v2) m.parser pic shown
  pub lost : ℕ
  pub empty : Holds m.ring (queued [] lost)

-- Between two frames.
abbrev pub IsListening : Machine → List Shown → Type 0
IsListening m shown = IsBetween m (blank 0) shown

-- Between `m` and `out` the receiver has waited for the refresh, drawn this frame and replied. The
-- FIFO has been read.
pub record IsAnswered (m out : Machine) (sh : Shown) : Type 0 where
  pub us : ℕ
  pub reply : List ℕ
  pub calls :
      (globals out).calls
      ≡ (globals m).calls
        ++ ((wait_recal ∷ map direct_draw (map draw_of sh.vectors)) ++ map write reply)
  pub told :
      Promised (globals m).g_peer_v2 us (length sh.vectors) (if sh.overflow then 1 else 0) reply
  pub onward : m.polls < out.polls

-- And the time without activity starts again, at a reading of the timer in that turn.
pub record IsDrawn (w : World) (m out : Machine) (sh : Shown) : Type 0 where
  pub answered : IsAnswered m out sh
  pub at : ℕ
  pub later : m.timer_reads < at
  pub active : out.last_activity ≡ w.counter_lo at

-- A change of the globals that leaves the held frame.
pub change-Draws :
    {made : List Call} {peer : Bool} (s : Sink Globals) (g : Globals) (out : List Shown)
    → g.g_draw ≡ s.ctx.g_draw
    → g.g_draw_count ≡ s.ctx.g_draw_count
    → g.g_have_frame ≡ s.ctx.g_have_frame
    → g.g_overflow ≡ s.ctx.g_overflow
    → Draws made peer s out
    → Draws g.calls g.g_peer_v2 (with_ctx s g) out
unfolding receiver_sink
change-Draws s g out draw count have over (g0, wired, showing, calls, voice) =
    let ctx : s.ctx ≡ g0 = ap (λ (t : Sink Globals). t.ctx) wired in
    (
      g,
      ap (λ (t : Sink Globals). with_ctx t g) wired,
      IsShowing-kept out (draw ∙ ap (λ (h : Globals). h.g_draw) ctx)
          (count ∙ ap (λ (h : Globals). h.g_draw_count) ctx)
          (have ∙ ap (λ (h : Globals). h.g_have_frame) ctx)
          (over ∙ ap (λ (h : Globals). h.g_overflow) ctx) showing,
      refl,
      refl,
    )

-- The same of a parser that may also have been put at the start of a word.
pub change-Plays :
    {made : List Call} {peer : Bool} (p : Parser Globals) (g : Globals) (out : List Shown)
    {pic : Picture}
    → g.g_draw ≡ p.sink.ctx.g_draw
    → g.g_draw_count ≡ p.sink.ctx.g_draw_count
    → g.g_have_frame ≡ p.sink.ctx.g_have_frame
    → g.g_overflow ≡ p.sink.ctx.g_overflow
    → Plays (Draws made peer) p pic out
    → Plays (Draws g.calls g.g_peer_v2) (record p { sink = with_ctx p.sink g }) pic out
change-Plays p g out draw count have over v =
    let f = v.follows in
    record {
      follows = ground arith;
      sink = change-Draws p.sink g out draw count have over v.sink;
      word_start = v.word_start;
      no_payload = v.no_payload;
      word_room = v.word_room;
    }

pub resync-Plays :
    {W : Sink Globals → List Shown → Type 0} {p : Parser Globals} {pic : Picture} {out : List Shown}
    → Plays W p pic out
    → Plays W (resync p) pic out
unfolding resync
resync-Plays v =
    let f = v.follows in
    record {
      follows = ground arith;
      sink = v.sink;
      word_start = refl;
      no_payload = refl;
      word_room = v.word_room;
    }
