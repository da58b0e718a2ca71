-- ===== src/Receiver/Ready.antt =====
-- The invariant of the main loop.
pub mod Receive
pub mod Turn
use vekterm.Base.{
  not, ◌&&◌, ltb, ℕ, zero, suc, ◌+◌, ◌≤◌, ◌<◌, ◌==◌, ◌%◌, ◌≡◌, refl, arith, Bool, true, false,
  Bool-cases, Option-cases, inl, inr, Option, none, some, List, [], ◌∷◌, length, length-replicate,
  length-set, map, take, set, ◌∙◌, ap, sym, ◌>>=◌, OnSome, OnSome->>=, OnSome-elim, u8,
  if◌then◌else◌,
}
use vekterm.Base.Int.{ℤ, pos, negsuc}
use vekterm.Frame.State.{Segment, Frame, Parser}
use vekterm.Frame.Beam.{init, reset_frame, resync}
use vekterm.Frame.Parser.{feed}
use vekterm.Frame.Valid.{IsFrame, IsValid}
use vekterm.Frame.Valid.Beam.{init-IsValid, resync-IsValid}
use vekterm.Frame.Valid.Feed.{feed-IsValid}
use vekterm.Frame.Client.Feed.{Serves, with_ctx-Serves, feed-Serves}
use vekterm.UartRx.Ring.{poll, flush, reset_ring, Ring, get, rxbuf_size}
use vekterm.UartRx.Queue.{Queue, serve, arrivals, flushing}
use vekterm.UartRx.Refine.{Holds, Gives, get-Gives, flush-Holds, drain_fifo-Holds, reset_ring-Holds}
use vekterm.Receiver.State.{
  line_rate, uart_baud, baud_options, rx_spins, wait_recal, DrawSeg, Call, Globals, emit,
}
use vekterm.Receiver.Draw.{length-copy_segments}
use vekterm.Receiver.Callbacks.{
  on_frame, on_exit, on_keepalive, on_query, copy_segments, receiver_sink, draw_active_frame,
}
use vekterm.Receiver.Reply.{send_sync_reply}
use vekterm.Receiver.Text.{draw_idle_splash}
use vekterm.Receiver.Turns.{IsTuned}
use vekterm.Receiver.Loop.{
  zero_seg, start_up, static_globals, static_ring, find_baud, now, timed, Machine, World, globals,
  change, set_activity, poll_uart, flush_uart, realign, set_baud, baud_at, pressed,
  handle_splash_buttons, accept, next_byte, consume, waiting, receive, expire, redraw, ask, turn,
}

-- The draw list has its size, of which at most all is in use, and the line rate is in the table.
pub record IsSound (g : Globals) : Type 0 where
  pub room : length g.g_draw ≡ 3000
  pub used : g.g_draw_count ≤ 3000
  pub tuned : IsTuned g

pub record IsReady (m : Machine) : Type 0 where
  pub valid : IsValid m.parser
  pub serves : Serves IsSound m.parser.sink
  pub queue : Queue
  pub holds : Holds m.ring queue

on_frame-IsSound : (g : Globals) (f : Frame) → IsFrame f → IsSound g → IsSound (on_frame g f)
unfolding on_frame
on_frame-IsSound g f i v = record {
  room = length-copy_segments 0 (take f.count f.segments) g.g_draw ∙ v.room;
  used = i.used;
  tuned = record { in_table = v.tuned.in_table; current = v.tuned.current };
}

-- What only writes calls, or sets a flag.
pub same_state :
    {g h : Globals}
    → h.g_draw ≡ g.g_draw
    → h.g_draw_count ≤ g.g_draw_count
    → h.g_baud_idx ≡ g.g_baud_idx
    → h.g_cur_baud ≡ g.g_cur_baud
    → IsSound g
    → IsSound h
same_state {g} {h} draw count idx baud v = record {
  room = rw draw v.room;
  used = omega (arith, v.used);
  tuned = record {
    in_table = omega (arith, v.tuned.in_table);
    current = baud ∙ v.tuned.current ∙ ap baud_at (sym idx);
  };
}

pub receiver_sink-Serves : (g : Globals) → IsSound g → Serves IsSound (receiver_sink g)
unfolding receiver_sink on_exit on_keepalive on_query
receiver_sink-Serves g v = record {
  ctx_ok = v;
  frame_ok = λ c f i j. on_frame-IsSound c f i j;
  exit_ok = λ c j. j;
  query_ok = λ c j. same_state refl (omega arith) refl refl j;
  keepalive_ok = λ c j. same_state refl (omega arith) refl refl j;
}

pub emit-IsSound : (g : Globals) (cs : List Call) → IsSound g → IsSound (emit g cs)
emit-IsSound g cs v = same_state refl (omega arith) refl refl v

pub if-IsSound : (b : Bool) (x y : Globals) → IsSound x → IsSound y → IsSound (if b then x else y)
if-IsSound true x y v u = v
if-IsSound false x y v u = u

pub change-IsReady : (m : Machine) (g : Globals) → IsReady m → IsSound g → IsReady (change m g)
change-IsReady m g v s = record {
  valid = let i = v.valid in ground arith;
  serves = with_ctx-Serves IsSound m.parser.sink g v.serves s;
  queue = v.queue;
  holds = v.holds;
}
