-- ===== src/Receiver/Loop.antt =====
-- src/vekterm_baremetal.c: `set_baud`, the buttons of the splash, and one turn of the loop of `main`.
-- The system timer, the receive FIFO and the buttons are arguments: what the `n`th read finds.
use Prim.Native.Nat.{bit_and}
use vekterm.Base.{
  replicate, ℕ, zero, suc, ◌+◌, ◌-◌, ◌==◌, ◌%◌, ◌^◌, Bool, true, false, not, ◌&&◌, Option, none,
  some, List, [], ◌∷◌, ltb, leb, if◌then◌else◌, ◌>>=◌, u8, u32, get_elem?, length,
}
use vekterm.Base.Int.{ℤ, pos, negsuc}
use vekterm.Protocol.Hello.{max_pipeline}
use vekterm.Frame.State.{Parser}
use vekterm.Frame.Beam.{init, resync}
use vekterm.Frame.Parser.{with_ctx, feed}
use vekterm.UartRx.Ring.{Ring, rxbuf_size, reset_ring, poll, flush, get}
use vekterm.Receiver.State.{
  uart_baud, device_up, baud_options, DrawSeg, idle_timeout_us, rx_timeout_us, rx_spins,
  sync_flag_idle, line_rate, wait_recal, Globals, emit,
}
use vekterm.Receiver.Callbacks.{receiver_sink, draw_active_frame}
use vekterm.Receiver.Reply.{send_sync_reply, sync_flags}
use vekterm.Receiver.Text.{draw_idle_splash}

-- The variables of `main`, the ring, and how often the timer, the FIFO and the buttons were read.
pub record Machine : Type 0 where
  pub parser : Parser Globals
  pub ring : Ring
  pub last_activity : ℕ
  pub timer_reads : ℕ
  pub polls : ℕ
  pub button_reads : ℕ

abbrev pub globals : Machine → Globals
globals m = m.parser.sink.ctx

-- A change of the globals.
abbrev pub change : Machine → Globals → Machine
change m g = let p = m.parser in record m { parser = record p { sink = with_ctx p.sink g } }

abbrev pub set_activity : Machine → Bool → Machine
set_activity m b = let g = globals m in change m (record g { g_activity = b })

-- The difference of two readings of the timer, a `uint32_t`.
abbrev pub elapsed : ℕ → ℕ → ℕ
elapsed now before = u32 (now + 2 ^ 32 - before)

-- `g_baud_options[i]`; the index stays inside the table.
abbrev pub baud_at : ℕ → ℕ
baud_at i = or_zero (get_elem? baud_options i)
  where
    or_zero : Option ℕ → ℕ
    or_zero none = 0
    or_zero (some b) = b

-- What is outside of the program: the value of `counter_lo` at its `n`th read, the bytes that the
-- `n`th poll finds, what `v_readButtons` returns the `n`th time, and the texts of the build.
pub record World : Type 0 where
  pub counter_lo : ℕ → ℕ
  pub fifo : ℕ → List ℕ
  pub buttons : ℕ → ℕ
  pub version : List ℕ
  pub commit : List ℕ

module _ (w : World) where
  -- A read of the timer.
  abbrev pub now : Machine → ℕ
  now m = w.counter_lo m.timer_reads

  abbrev pub timed : Machine → Machine
  timed m = record m { timer_reads = m.timer_reads + 1 }

  -- `uart_rx_poll()` and `uart_rx_flush()`
  unfoldable pub poll_uart : Machine → Machine
  poll_uart m = record m { ring = poll m.ring (w.fifo m.polls); polls = m.polls + 1 }

  unfoldable pub flush_uart : Machine → Machine
  flush_uart m = record m { ring = flush m.ring (w.fifo m.polls); polls = m.polls + 1 }

  -- The call of `vt_parser_resync`.
  abbrev pub realign : Machine → Machine
  realign m = record m { parser = resync m.parser }

  -- `set_baud`
  unfoldable pub set_baud : Machine → ℕ → Machine
  set_baud m baud =
      let g = globals m in
      let slow = change m (record (emit g (line_rate baud ∷ [])) { g_cur_baud = baud }) in
      realign (flush_uart (record slow { ring = reset_ring m.ring }))

  -- `now & ~prev`, of eight bits
  abbrev pub pressed : ℕ → ℕ → ℕ
  pressed b prev = bit_and b (255 - prev)

  unfoldable pub handle_splash_buttons : Machine → Machine
  handle_splash_buttons m =
      let b = u8 (w.buttons m.button_reads) in
      let g = globals m in
      let next = (g.g_baud_idx + 1) % length baud_options in
      let read = record m { button_reads = m.button_reads + 1 } in
      if pressed b g.prev == 0
      then change read (record g { prev = b })
      else set_baud (change read (record g { prev = b; g_baud_idx = next })) (baud_at next)

  -- The condition and the body of the loop over the bytes of the ring: the machine after them, and
  -- whether the loop goes on.
  unfoldable pub accept : Machine → ℤ × Ring → Option (Machine × Bool)
  accept m (negsuc n, ring) = some (record m { ring = ring }, false)
  accept m (pos b, ring) = do
    p ← feed m.parser (u8 b ∷ [])
    some (record m { parser = p; ring = ring }, true)

  unfoldable pub next_byte : Machine → Option (Machine × Bool)
  next_byte m = if (globals m).g_activity then some (m, false) else (do a ← get m.ring; accept m a)

  -- That loop, of at most `n` steps.
  unfoldable pub consume : ℕ → Machine → Option Machine
  consume zero m = some m
  consume (suc n) m = do a ← next_byte m; elim a.1 [ true ↦ consume n a.0 | false ↦ some a.0 ]

  -- The condition of the receive loop with `n` left in `spins` after the decrement: the timer is
  -- read if the others hold.
  unfoldable pub waiting : ℕ → ℕ → Machine → Bool × Machine
  waiting t0 n m =
      if not (globals m).g_activity && ltb 0 n
      then (ltb (elapsed (now m) t0) rx_timeout_us, timed m)
      else (false, m)

  -- The receive loop. A ring has room for less than `rxbuf_size` bytes, so that many steps are
  -- enough for the loop over its bytes.
  unfoldable pub receive : ℕ → ℕ → Machine → Option Machine
  receive t0 zero m = some m
  receive t0 (suc n) m =
      let a = waiting t0 n m in
      elim a.0 [
        | true ↦ consume rxbuf_size (poll_uart a.1) >>= λ m'. receive t0 n m'
        | false ↦ some a.1
      ]

  -- What becomes of the held frame.
  unfoldable pub expire : Machine → Machine
  expire m =
      let t = now m in
      let g = globals m in
      let read = timed m in
      if g.g_activity
      then record read { last_activity = t }
      else (if g.g_have_frame && leb idle_timeout_us (elapsed t m.last_activity)
          then change read (record g { g_have_frame = false; g_draw_count = 0; g_overflow = false })
          else read)

  -- A redraw, and how long it took.
  unfoldable pub redraw : Machine → Machine × ℕ
  redraw m =
      let synced = change m (emit (globals m) (wait_recal ∷ [])) in
      let g = globals synced in
      let ready = if g.g_have_frame then synced else handle_splash_buttons synced in
      let r = globals ready in
      let drawn =
        change (timed ready)
          (if g.g_have_frame then draw_active_frame r else draw_idle_splash w.version w.commit r) in
      (timed drawn, elapsed (now drawn) (now ready))

  -- The end of a turn, after a redraw that took `draw_us`.
  unfoldable pub ask : Machine → ℕ → Machine
  ask m draw_us =
      let clean = realign (flush_uart m) in
      let g = globals clean in
      change clean (send_sync_reply g draw_us (pos g.g_draw_count) (sync_flags g))

  -- The body of the loop of `main`.
  unfoldable pub turn : Machine → Option Machine
  turn m = do
    heard ← receive (now m) rx_spins (set_activity (timed m) false)
    let drawn = redraw (expire heard)
    some (ask drawn.0 drawn.1)

-- The globals before `main`.
abbrev pub zero_seg : DrawSeg
zero_seg = record { x0 = pos 0; y0 = pos 0; x1 = pos 0; y1 = pos 0; z = 0 }

unfoldable pub static_globals : Globals
static_globals = record {
  g_draw = replicate max_pipeline zero_seg;
  g_draw_count = 0;
  g_have_frame = false;
  g_overflow = false;
  g_activity = false;
  g_peer_v2 = false;
  g_baud_idx = 0;
  g_cur_baud = uart_baud;
  prev = 0;
  calls = [];
}

unfoldable pub static_ring : Ring
static_ring = record { rxbuf = replicate rxbuf_size 0; rx_head = 0; rx_tail = 0; rx_drops = 0 }

-- The search of `main` for the line rate from index `i`, or what it was.
unfoldable pub find_baud : ℕ → List ℕ → ℕ → ℕ
find_baud i [] idx = idx
find_baud i (b ∷ options) idx =
    let rest = find_baud (i + 1) options idx in if b == uart_baud then i else rest

-- `main` up to its loop.
unfoldable pub start_up : World → Machine
start_up w =
    let g = record (emit static_globals device_up) {
      g_cur_baud = uart_baud;
      g_baud_idx = find_baud 0 baud_options 0;
    } in
    let m = realign w (
      flush_uart w (record {
        parser = init (receiver_sink g);
        ring = reset_ring static_ring;
        last_activity = 0;
        timer_reads = 0;
        polls = 0;
        button_reads = 0;
      })) in
    let read = record (timed w m) { last_activity = now w m } in
    change read (send_sync_reply (globals read) 0 (pos 0) sync_flag_idle)
