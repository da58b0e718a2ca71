-- ===== src/Receiver/Tests/Cuts.antt =====
-- A receiver that holds a frame, to which five bytes of another come and then a whole one.
use mathlib.Core.List.{append-nil}
use mathlib.Core.Path.{subst}
use vekterm.Base.{
  ℕ, ◌+◌, ◌<◌, ◌==◌, ◌≡◌, refl, arith, true, false, Option, none, some, List, [], ◌∷◌, ◌++◌, length,
  ltb, ap, sym, ◌∙◌, if◌then◌else◌,
}
use vekterm.Protocol.Word.{pack_be}
use vekterm.Protocol.Message.{Message, colour, draw, header}
use vekterm.Frame.Beam.{init, resync, reset_frame, zero_frame}
use vekterm.Frame.Picture.{blank, view, finish, depicts}
use vekterm.Frame.Refine.Stream.{transmit}
use vekterm.Receiver.State.{rx_timeout_us}
use vekterm.Receiver.Callbacks.{on_frame, receiver_sink}
use vekterm.Receiver.Expiry.{is_late}
use vekterm.Receiver.Picture.{newest, receiver-IsClient}
use vekterm.Receiver.Loop.{
  World, Machine, globals, change, elapsed, now, flush_uart, turn, start_up,
}
use vekterm.Receiver.Session.Bytes.{frame_bytes}
use vekterm.Receiver.Session.Hear.{Arrives}
use vekterm.Receiver.Session.State.{IsListening}
use vekterm.Receiver.Session.Drawn.{scene, drawn}
use vekterm.Receiver.Session.Series.{main_loop, start_up-IsListening}
use vekterm.Receiver.Session.Lapse.{Lapses}
use vekterm.Receiver.Session.Cut.{turn-cut, main_loop-cut}

abbrev lost : List Message
lost = colour 5 5 5 ∷ []

abbrev cut_bytes : List ℕ
cut_bytes = transmit lost ++ (64 ∷ [])

abbrev shape : List Message
shape = colour 9 9 9 ∷ draw 100 100 ∷ []

abbrev shape_bytes : List ℕ
shape_bytes = frame_bytes (header 7 ∷ shape) true

abbrev clock : ℕ → ℕ
clock n = if ltb n 2 then 0 else (if ltb n 3 then 30000 else 60000)

abbrev cut_line : World
cut_line = record {
  counter_lo = clock;
  fifo = λ n. if n == 1 then cut_bytes else shape_bytes;
  buttons = λ n. 0;
  version = [];
  commit = [];
}

abbrev holding : Machine
holding = change (start_up cut_line) (on_frame (globals (start_up cut_line)) zero_frame)

holding-timer : holding.timer_reads ≡ 1
unfolding start_up flush_uart
holding-timer = refl

holding-polls : holding.polls ≡ 1
unfolding start_up flush_uart
holding-polls = refl

holding-IsListening : IsListening holding (view zero_frame ∷ [])
unfolding start_up flush_uart on_frame init resync reset_frame receiver_sink zero_frame
holding-IsListening =
    let i = (start_up-IsListening cut_line).0 in
    let g = globals (start_up cut_line) in
    let v = i.valid in
    let f = i.plays.follows in
    record {
      valid = ground arith;
      plays = record {
        follows = ground arith;
        sink =
            (receiver-IsClient g.calls g.g_peer_v2).sees (start_up cut_line).parser.sink []
              zero_frame (omega arith) (omega arith) i.plays.sink;
        word_start = i.plays.word_start;
        no_payload = i.plays.no_payload;
        word_room = i.plays.word_room;
      };
      lost = i.lost;
      empty = i.empty;
    }

newest-holding : newest (view zero_frame ∷ []) ≡ some (view zero_frame)
unfolding newest
newest-holding = refl

cut_bytes-length : length cut_bytes ≡ 5
unfolding transmit pack_be
cut_bytes-length = refl

shape_bytes-length : length shape_bytes ≡ 16
unfolding frame_bytes transmit pack_be
shape_bytes-length = refl

-- The time is over at the reading after the first poll.
cut-Lapses :
    Lapses cut_line (now cut_line holding) (holding.timer_reads + 1) holding.polls (cut_bytes ∷ [])
unfolding start_up flush_uart
cut-Lapses = (omega arith, refl, omega (arith, cut_bytes-length), omega arith)

abbrev or_holding : Option Machine → Machine
or_holding none = holding
or_holding (some m) = m

-- The old frame is not too old then.
cut-early : is_late cut_line (holding.timer_reads + 1 + 1 + 1) holding ≡ false
unfolding start_up flush_uart
cut-early = refl

clock-steps : (n : ℕ) → elapsed (clock (n + 1)) (clock n) < rx_timeout_us
clock-steps n = ground arith

-- The next turn finds the whole frame.
shape-Arrives :
    (mid : Machine)
    → turn cut_line holding ≡ some mid
    → Arrives cut_line (now cut_line mid) (mid.timer_reads + 1) mid.polls (shape_bytes ∷ [])
shape-Arrives mid e =
    let (mid', e', between, again, _) =
      turn-cut cut_line holding (blank 0) (view zero_frame ∷ []) (view zero_frame) lost (64 ∷ [])
        (cut_bytes ∷ []) holding-IsListening newest-holding (ground arith) (ground arith)
        (omega arith) (omega arith, tt) (append-nil cut_bytes) (omega arith) cut-Lapses cut-early in
    let same : mid' ≡ mid = ap or_holding (sym e' ∙ e) in
    let onward : 1 < mid'.polls = omega (arith, holding-polls, again.onward) in
    let past : 1 < mid.polls = subst (λ (m : Machine). 1 < m.polls) same onward in
    let other : (mid.polls == 1) ≡ false = ground arith in
    (
      clock-steps mid.timer_reads,
      ap (λ b. if b then cut_bytes else shape_bytes) other,
      omega (arith, shape_bytes-length),
      tt,
    )

main_loop-cut_example :
    let w = cut_line in
    let old = view zero_frame in
    let new = finish (depicts shape (blank 7)) true in
    (out : Machine) × (main_loop w 2 holding ≡ some out)
    × (drawn (globals out).calls ≡ drawn (globals holding).calls ++ (scene old ++ scene new))
    × IsListening out (old ∷ new ∷ [])
main_loop-cut_example =
    main_loop-cut cut_line holding (view zero_frame ∷ []) (view zero_frame) lost (64 ∷ [])
      (cut_bytes ∷ []) 7 shape true (shape_bytes ∷ []) holding-IsListening newest-holding
      (ground arith) (ground arith) (omega arith) (omega arith, tt) (append-nil cut_bytes)
      (omega arith) cut-Lapses cut-early (ground arith) (ground arith) (append-nil shape_bytes)
      (omega arith) shape-Arrives
