-- ===== src/Receiver/Tests/Pictures.antt =====
-- A receiver that is shown two frames, and one that holds a frame on a silent line.
use vekterm.Base.{
  ◌*◌, ◌≡◌, refl, arith, true, false, some, List, [], ◌∷◌, map, length, length-replicate,
}
use vekterm.Protocol.Message.{Message, header, colour, move, draw, done}
use vekterm.Frame.State.{Parser}
use vekterm.Frame.Beam.{init, zero_frame}
use vekterm.Frame.Parser.{feed}
use vekterm.Frame.Picture.{Shown, blank, draws, shows, performs}
use vekterm.Frame.Refine.Stream.{transmit}
use vekterm.Receiver.State.{direct_draw, Globals, emit}
use vekterm.Receiver.Callbacks.{receiver_sink, draw_of, on_frame, draw_active_frame}
use vekterm.Receiver.Picture.{newest, feed-draw_active_frame}
use vekterm.Receiver.Loop.{World, Machine, globals, change, static_globals, start_up}

abbrev two_frames : List Message
two_frames =
    colour 255 0 0
    ∷ draw 7 7
    ∷ done true
    ∷ header 9
    ∷ colour 8 9 10
    ∷ move 0 0
    ∷ draw 4095 5000
    ∷ done false
    ∷ []

abbrev second_shown : Shown
second_shown = record {
  vectors = record { x0 = 0; y0 = 0; x1 = 4095; y1 = 4095; brightness = 10 } ∷ [];
  travel = 9;
  monochrome = false;
  overflow = false;
}

newest-two_frames : newest (performs two_frames (blank 0) []) ≡ some second_shown
unfolding newest performs draws shows
newest-two_frames = refl

static_globals-room : length static_globals.g_draw ≡ 3000
unfolding static_globals
static_globals-room = length-replicate 3000 _

feed-draw_active_frame_example :
    (p : Parser Globals) × (feed (init (receiver_sink static_globals)) (transmit two_frames)
      ≡ some p)
    × (p.sink.ctx.g_have_frame ≡ true)
    × (p.sink.ctx.g_overflow ≡ false)
    × (draw_active_frame p.sink.ctx
        ≡ emit p.sink.ctx (map direct_draw (map draw_of second_shown.vectors)))
feed-draw_active_frame_example =
    feed-draw_active_frame static_globals two_frames second_shown static_globals-room (ground arith)
      newest-two_frames

-- The timer runs fast enough for a frame to run out in the turn.
abbrev silent_line : World
silent_line = record {
  counter_lo = λ n. 20000000 * n;
  fifo = λ n. [];
  buttons = λ n. 0;
  version = 118 ∷ 49 ∷ [];
  commit = 97 ∷ 98 ∷ 99 ∷ [];
}

abbrev holding : Machine
holding = change (start_up silent_line) (on_frame (globals (start_up silent_line)) zero_frame)
