-- ===== src/Receiver/Ready/Turn.antt =====
-- A turn of the main loop keeps the receiver ready.
use vekterm.Base.{
  ℕ, ◌+◌, ◌<◌, ◌≡◌, refl, arith, false, some, List, [], ◌∷◌, length-replicate, OnSome->>=,
  OnSome-elim, u8,
}
use vekterm.Base.Int.{ℤ}
use vekterm.Frame.Beam.{init, reset_frame}
use vekterm.Frame.Valid.Beam.{init-IsValid}
use vekterm.Frame.Client.Feed.{Serves}
use vekterm.UartRx.Refine.{reset_ring-Holds}
use vekterm.Receiver.State.{
  uart_baud, device_up, baud_options, rx_spins, wait_recal, Call, Globals, emit,
}
use vekterm.Receiver.Callbacks.{receiver_sink, draw_active_frame}
use vekterm.Receiver.Reply.{send_sync_reply}
use vekterm.Receiver.Text.{draw_idle_splash}
use vekterm.Receiver.Loop.{
  zero_seg, start_up, static_globals, static_ring, find_baud, now, timed, Machine, World, globals,
  change, set_activity, set_baud, baud_at, handle_splash_buttons, receive, expire, redraw, ask,
  turn,
}
use vekterm.Receiver.Ready.{
  IsSound, IsReady, same_state, emit-IsSound, if-IsSound, change-IsReady, receiver_sink-Serves,
}
use vekterm.Receiver.Ready.Receive.{
  flush_uart-IsReady, realign-IsReady, timed-IsReady, if-IsReady, receive-IsReady,
}

module _ (w : World) where
  expire-IsReady : (m : Machine) → IsReady m → IsReady (expire w m)
  unfolding expire
  expire-IsReady m v =
      let timed_ready = timed-IsReady w m v in
      if-IsReady w (globals m).g_activity _ _
        (record { valid = v.valid; serves = v.serves; queue = v.queue; holds = v.holds })
        (if-IsReady w _ _ _
          (change-IsReady (timed w m) _ timed_ready
            (same_state refl (omega arith) refl refl v.serves.ctx_ok))
          timed_ready)

  -- A new line rate of the table, with a new ring and the parser at the start of a word.
  retuned-IsReady :
      (m : Machine) (b i : ℕ)
      → IsReady m
      → i < 6
      → let g = globals m in
        IsReady (set_baud w (change m (record g { prev = b; g_baud_idx = i })) (baud_at i))
  unfolding set_baud
  retuned-IsReady m b i v inside =
      let sound = v.serves.ctx_ok in
      let changed = change-IsReady m _ v (record {
        room = sound.room;
        used = sound.used;
        tuned = record { in_table = inside; current = refl };
      }) in
      realign-IsReady w _ (
        flush_uart-IsReady w _ (record {
          valid = changed.valid;
          serves = changed.serves;
          queue = record { held = []; lost = 0 };
          holds = reset_ring-Holds m.ring v.holds.room;
        }))

  handle_splash_buttons-IsReady : (m : Machine) → IsReady m → IsReady (handle_splash_buttons w m)
  unfolding handle_splash_buttons
  handle_splash_buttons-IsReady m v =
      let read : IsReady (record m { button_reads = m.button_reads + 1 }) = record {
        valid = v.valid;
        serves = v.serves;
        queue = v.queue;
        holds = v.holds;
      } in
      if-IsReady w _ _ _
        (change-IsReady _ _ read (same_state refl (omega arith) refl refl v.serves.ctx_ok))
        (retuned-IsReady (record m { button_reads = m.button_reads + 1 })
          (u8 (w.buttons m.button_reads)) _ read (omega arith))

  emit-IsReady :
      (m : Machine) (cs : List Call) → IsReady m → IsReady (change m (emit (globals m) cs))
  emit-IsReady m cs v =
      change-IsReady m _ v (same_state refl (omega arith) refl refl v.serves.ctx_ok)

  redraw-IsReady : (m : Machine) → IsReady m → IsReady (redraw w m).0
  unfolding redraw draw_active_frame draw_idle_splash
  redraw-IsReady m v =
      let synced = emit-IsReady m (wait_recal ∷ []) v in
      let ready =
        if-IsReady w (globals m).g_have_frame _ _ synced (handle_splash_buttons-IsReady _ synced) in
      let sound = ready.serves.ctx_ok in
      timed-IsReady w _ (
        change-IsReady _ _ (timed-IsReady w _ ready) (
          if-IsSound (globals m).g_have_frame _ _ (emit-IsSound _ _ sound)
            (emit-IsSound _ _ sound)))

  ask-IsReady : (m : Machine) (us : ℕ) → IsReady m → IsReady (ask w m us)
  unfolding ask send_sync_reply
  ask-IsReady m us v =
      let clean = realign-IsReady w _ (flush_uart-IsReady w m v) in
      let sound = clean.serves.ctx_ok in
      change-IsReady _ _ clean (if-IsSound _ _ _ (emit-IsSound _ _ sound) (emit-IsSound _ _ sound))

  -- A turn of the main loop that meets no fault of the parser leaves the receiver ready for the
  -- next: the parser valid, the ring a queue of bytes, the draw list in bounds, and the line rate
  -- that of the entry of the table that the buttons have come to.
  pub turn-IsReady : (m : Machine) {out : Machine} → IsReady m → turn w m ≡ some out → IsReady out
  unfolding turn
  turn-IsReady m v e =
      let quiet =
        change-IsReady (timed w m) _ (timed-IsReady w m v)
          (same_state refl (omega arith) refl refl v.serves.ctx_ok) in
      OnSome-elim IsReady (turn w m)
        (OnSome->>= IsReady (receive w (now w m) rx_spins (set_activity (timed w m) false)) _
          (receive-IsReady w (now w m) rx_spins _ quiet)
          λ heard ready. ask-IsReady _ _ (redraw-IsReady _ (expire-IsReady heard ready)))
        e

  -- The globals when the parser is set up.
  abbrev first_globals : Globals
  first_globals = record (emit static_globals device_up) {
    g_cur_baud = uart_baud;
    g_baud_idx = find_baud 0 baud_options 0;
  }

  first_globals-IsSound : IsSound first_globals
  unfolding static_globals find_baud
  first_globals-IsSound = record {
    room = length-replicate 3000 zero_seg;
    used = omega arith;
    tuned = record { in_table = omega arith; current = refl };
  }

  send_sync_reply-IsSound :
      (g : Globals) (us flags : ℕ) (n : ℤ) → IsSound g → IsSound (send_sync_reply g us n flags)
  unfolding send_sync_reply
  send_sync_reply-IsSound g us flags n v =
      if-IsSound g.g_peer_v2 _ _ (emit-IsSound g _ v) (emit-IsSound g _ v)

  init-Serves : (g : Globals) → IsSound g → Serves IsSound (init (receiver_sink g)).sink
  unfolding init reset_frame
  init-Serves g v = receiver_sink-Serves g v

  -- The receiver is ready when it has started.
  pub start_up-IsReady : IsReady (start_up w)
  unfolding start_up
  start_up-IsReady =
      let base = realign-IsReady w _ (
        flush_uart-IsReady w _ (record {
          valid = init-IsValid (receiver_sink first_globals);
          serves = init-Serves first_globals first_globals-IsSound;
          queue = record { held = []; lost = 0 };
          holds = reset_ring-Holds static_ring (unfold static_ring in length-replicate 16384 0);
        })) in
      change-IsReady _ _
        (record {
          valid = base.valid;
          serves = base.serves;
          queue = base.queue;
          holds = base.holds;
        })
        (send_sync_reply-IsSound _ 0 _ _ base.serves.ctx_ok)
