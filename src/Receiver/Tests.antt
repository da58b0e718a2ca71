-- ===== src/Receiver/Tests.antt =====
-- A receiver that has just started, with an idle line and a button held down.
mod Pictures
mod Sessions
mod Cuts
use vekterm.Base.{
  ℕ, ◌*◌, ◌≤◌, ◌<◌, ◌/◌, ◌≡◌, refl, arith, List, [], ◌∷◌, ◌++◌, map, take, length, length-replicate,
  All,
}
use vekterm.Base.Int.{pos}
use vekterm.Frame.State.{Segment, Frame}
use vekterm.Frame.Beam.{resync, init, store_segment, zero_frame, zero_segment, reset_counts}
use vekterm.Frame.Refine.Store.{Holds, store_segment-Holds, reset_counts-Holds}
use vekterm.UartRx.Refine
use vekterm.UartRx.Queue.{Queue, serve, flushing, arrivals}
use vekterm.Base.{false, some}
use vekterm.Receiver.State.{rx_spins, direct_draw, Globals, emit, write}
use vekterm.Receiver.Callbacks.{receiver_sink, draw_of, on_frame, draw_active_frame}
use vekterm.Receiver.Draw.{Near, draw_of_lem}
use vekterm.Receiver.Reply.{send_sync_reply, Promised, send_sync_reply_lem, sync_flags}
use vekterm.Receiver.Text.{append_u32, value_of, IsDigit, append_u32_lem, version_line, baud_line}
use vekterm.Receiver.Ready.{IsReady}
use vekterm.Receiver.Ready.Turn.{turn-IsReady, start_up-IsReady}
use vekterm.Receiver.Loop.{
  waiting, timed, now, receive, redraw, expire, set_activity, turn, World, Machine, globals,
  static_globals, static_ring, start_up, flush_uart, consume, ask, handle_splash_buttons, find_baud,
}
use vekterm.Receiver.Turns.{IsTuned, consume_fuel, ask_lem, handle_splash_buttons-IsTuned}

abbrev quiet_line : World
quiet_line = record {
  counter_lo = λ n. 1000 * n;
  fifo = λ n. [];
  buttons = λ n. 1;
  version = 118 ∷ 49 ∷ [];
  commit = 97 ∷ 98 ∷ 99 ∷ [];
}

abbrev started : Machine
started = start_up quiet_line

abbrev nothing : Queue
nothing = record { held = []; lost = 0 }

started-Holds : Refine.Holds started.ring nothing
unfolding start_up flush_uart static_ring arrivals
started-Holds =
    Refine.flush-Holds _ nothing [] (Refine.reset_ring-Holds static_ring (length-replicate 16384 0))

consume_fuel_example : consume quiet_line 1 started ≡ consume quiet_line 16384 started
consume_fuel_example =
    consume_fuel quiet_line [] 0 1 16384 started started-Holds (omega arith) (omega arith)

ask_lem_example :
    ((ask quiet_line started 700).parser.nbytes ≡ 0)
    × ((ask quiet_line started 700).parser.ext_remaining ≡ 0)
    × Refine.Holds (ask quiet_line started 700).ring (serve nothing (flushing []))
    × ((reply : List ℕ) × (globals (ask quiet_line started 700)
          ≡ emit (globals started) (map write reply))
        × Promised
            (globals started).g_peer_v2
            700
            (globals started).g_draw_count
            (sync_flags (globals started))
            reply)
ask_lem_example = ask_lem quiet_line started 700 nothing started-Holds

started-IsTuned : IsTuned (globals started)
unfolding start_up flush_uart static_globals find_baud send_sync_reply resync init receiver_sink
started-IsTuned = record { in_table = omega arith; current = refl }

send_sync_reply_lem_example :
    (reply : List ℕ) × (send_sync_reply (globals started) 70000 (pos 12) 1
      ≡ emit (globals started) (map write reply))
    × Promised (globals started).g_peer_v2 70000 12 1 reply
send_sync_reply_lem_example = send_sync_reply_lem (globals started) 70000 12 1

append_u32_lem_example :
    (digits : List ℕ) × (append_u32 [] 921600 ≡ [] ++ digits)
    × (value_of 0 digits ≡ 921600)
    × (1 ≤ length digits)
    × (length digits ≤ 10)
    × All IsDigit digits
append_u32_lem_example = append_u32_lem [] 921600 (omega arith)

abbrev diagonal : Segment
diagonal = record { x0 = 0; y0 = 0; x1 = 4095; y1 = 4095; brightness = 255 }

draw_of_lem_example :
    Near 0 (draw_of diagonal).x0
    × Near 0 (draw_of diagonal).y0
    × Near 4095 (draw_of diagonal).x1
    × Near 4095 (draw_of diagonal).y1
    × ((draw_of diagonal).z ≡ 255 / 2)
    × ((draw_of diagonal).z < 128)
draw_of_lem_example =
    draw_of_lem diagonal (omega arith) (omega arith) (omega arith) (omega arith) (omega arith)

abbrev one_line : Frame
one_line = store_segment (reset_counts zero_frame) diagonal

one_line-Holds : Holds one_line (diagonal ∷ [])
unfolding zero_frame
one_line-Holds =
    store_segment-Holds (reset_counts zero_frame) [] diagonal
      (reset_counts-Holds zero_frame (length-replicate 3000 zero_segment))

abbrev blank_globals : Globals
blank_globals = static_globals

blank_globals-room : length blank_globals.g_draw ≡ 3000
unfolding static_globals
blank_globals-room = length-replicate 3000 _

-- The timer is past the receive timeout when it is read again, so that nothing is waited for.
abbrev slow_line : World
slow_line = record {
  counter_lo = λ n. 100000 * n;
  fifo = λ n. [];
  buttons = λ n. 1;
  version = 118 ∷ 49 ∷ [];
  commit = 97 ∷ 98 ∷ 99 ∷ [];
}

abbrev first : Machine
first = start_up slow_line

abbrev waited : Machine
waited = timed slow_line (set_activity (timed slow_line first) false)

abbrev second : Machine
second = let drawn = redraw slow_line (expire slow_line waited) in ask slow_line drawn.0 drawn.1

receive-first :
    receive slow_line (now slow_line first) rx_spins (set_activity (timed slow_line first) false)
    ≡ some waited
unfolding receive waiting start_up flush_uart
receive-first = refl

turn-first : turn slow_line first ≡ some second
unfolding turn
turn-first = rw receive-first refl

turn-IsReady_example : IsReady second
turn-IsReady_example = turn-IsReady slow_line first (start_up-IsReady slow_line) turn-first
