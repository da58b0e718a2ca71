-- ===== src/Receiver/Tests/Sessions.antt =====
-- A receiver that finds the bytes of a frame in the first poll of its loop, and then those of pings.
use mathlib.Core.List.{append-nil}
use mathlib.Core.Path.{subst}
use vekterm.Base.{
  ℕ, ◌+◌, ◌<◌, ◌==◌, ◌≡◌, refl, arith, false, Option, none, some, List, [], ◌∷◌, length, ap, sym,
  ◌∙◌, if◌then◌else◌,
}
use vekterm.Protocol.Word.{pack_be}
use vekterm.Protocol.Message.{Message, colour, draw, ping}
use vekterm.Frame.Picture.{blank, finish, depicts}
use vekterm.Frame.Refine.Stream.{transmit}
use vekterm.Receiver.Loop.{World, Machine, globals, turn, start_up}
use vekterm.Receiver.Session.Bytes.{frame_bytes}
use vekterm.Receiver.Session.State.{IsListening, IsDrawn}
use vekterm.Receiver.Session.Turn.{turn-frame}
use vekterm.Receiver.Session.Drawn.{drawn}
use vekterm.Receiver.Session.Hear.{Arrives}
use vekterm.Receiver.Loop.{now, flush_uart}
use vekterm.Receiver.Session.Series.{
  Sent, sends, pings, picture, scenes, main_loop, start_up-IsListening, start_up-draws,
}

abbrev strokes : List Message
strokes = colour 9 0 0 ∷ draw 7 8 ∷ draw 4095 0 ∷ []

-- A sender that sends one frame, and then pings.
abbrev frame_line : World
frame_line = record {
  counter_lo = λ n. 0;
  fifo = λ n. if n == 1 then frame_bytes strokes false else transmit (ping ∷ []);
  buttons = λ n. 0;
  version = [];
  commit = [];
}

abbrev sent : Sent
sent = record { body = strokes; mono = false; pieces = frame_bytes strokes false ∷ [] }

frame_bytes-length : length (frame_bytes strokes false) ≡ 16
unfolding frame_bytes transmit pack_be
frame_bytes-length = refl

ping-length : length (transmit (ping ∷ [])) ≡ 4
unfolding transmit pack_be
ping-length = refl

start_up-polls : (start_up frame_line).polls ≡ 1
unfolding start_up flush_uart
start_up-polls = refl

abbrev line_at : ℕ → List ℕ
line_at n = if n == 1 then frame_bytes strokes false else transmit (ping ∷ [])

first-Arrives :
    Arrives frame_line
      (now frame_line (start_up frame_line))
      ((start_up frame_line).timer_reads + 1)
      (start_up frame_line).polls
      sent.pieces
first-Arrives = (omega arith, ap line_at start_up-polls, omega (arith, frame_bytes-length), tt)

turn-frame_example :
    let w = frame_line in
    (out : Machine) × (turn w (start_up w) ≡ some out)
    × IsListening out (finish (depicts strokes (blank 0)) false ∷ [])
    × IsDrawn w (start_up w) out (finish (depicts strokes (blank 0)) false)
turn-frame_example =
    turn-frame frame_line (start_up frame_line) [] strokes false sent.pieces
      (start_up-IsListening frame_line).0 (ground arith) (ground arith) (append-nil _) (omega arith)
      first-Arrives

abbrev or_start : Option Machine → Machine
or_start none = start_up frame_line
or_start (some m) = m

-- After the first turn the line has pings.
ping-Arrives :
    (out : Machine)
    → turn frame_line (start_up frame_line) ≡ some out
    → Arrives frame_line
        (now frame_line out)
        (out.timer_reads + 1)
        out.polls
        (transmit (ping ∷ []) ∷ [])
ping-Arrives out e =
    let (out', e', i, d) =
      turn-frame frame_line (start_up frame_line) [] strokes false sent.pieces
        (start_up-IsListening frame_line).0 (ground arith) (ground arith) (append-nil _)
        (omega arith) first-Arrives in
    let same : out' ≡ out = ap or_start (sym e' ∙ e) in
    let onward : 1 < out'.polls = omega (arith, start_up-polls, d.answered.onward) in
    let past : 1 < out.polls = subst (λ (m : Machine). 1 < m.polls) same onward in
    let other : (out.polls == 1) ≡ false = ground arith in
    (
      omega arith,
      ap (λ b. if b then frame_bytes strokes false else transmit (ping ∷ [])) other,
      omega (arith, ping-length),
      tt,
    )

start_up-draws_example :
    let w = frame_line in
    (out : Machine) × (main_loop w 2 (start_up w) ≡ some out)
    × (drawn (globals out).calls ≡ scenes [] (sends sent ∷ pings (transmit (ping ∷ []) ∷ []) ∷ []))
    × IsListening out (picture sent ∷ [])
start_up-draws_example =
    start_up-draws frame_line sent (pings (transmit (ping ∷ []) ∷ []) ∷ [])
      (record {
        plain = ground arith;
        drawing = ground arith;
        bytes = append-nil _;
        few = omega arith;
      })
      ((append-nil _, omega arith), tt)
      (first-Arrives, λ out e. (ping-Arrives out e, λ out' e'. tt))
