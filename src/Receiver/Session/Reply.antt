-- ===== src/Receiver/Session/Reply.antt =====
-- The end of a turn after activity: the refresh, the drawing and the reply.
use mathlib.Core.Path.{subst}
use mathlib.Core.List.{append_assoc}
use vekterm.Base.{
  ◌&&◌, ◌≤◌, ◌+◌, ℕ, ◌≡◌, refl, arith, Bool, true, false, List, [], ◌∷◌, ◌++◌, length, take, map,
  ap, sym, ◌∙◌, if◌then◌else◌, leb, ◌&&◌,
}
use vekterm.Base.Int.{pos}
use vekterm.Frame.State.{Parser}
use vekterm.Frame.Beam.{resync}
use vekterm.Frame.Parser.{with_ctx}
use vekterm.Frame.Picture.{Picture, Shown}
use vekterm.Frame.Valid.{IsValid}
use vekterm.Frame.Valid.Beam.{resync-IsValid}
use vekterm.Frame.Refine.Client.{Plays}
use vekterm.UartRx.Ring.{flush}
use vekterm.UartRx.Queue.{arrivals}
use vekterm.UartRx.Refine.{Holds, flush-Holds}
use vekterm.Receiver.State.{idle_timeout_us, wait_recal, direct_draw, write, Call, Globals, emit}
use vekterm.Receiver.Callbacks.{draw_of, draw_active_frame}
use vekterm.Receiver.Reply.{send_sync_reply, sync_flags, send_sync_reply_lem, Promised}
use vekterm.Receiver.Picture.{IsHeld, Draws}
use vekterm.Receiver.Loop.{
  World, Machine, globals, change, elapsed, now, timed, flush_uart, handle_splash_buttons, expire,
  redraw, ask,
}
use vekterm.Receiver.Session.Hear.{queued}
use vekterm.Receiver.Expiry.{is_late, end_turn}
use vekterm.Receiver.Text.{draw_idle_splash}
use vekterm.Receiver.Session.State.{IsBetween, IsAnswered, change-Plays}

module _ (w : World) where
  -- The globals once the held frame has been drawn.
  abbrev shown_globals : Machine → Globals
  shown_globals m = draw_active_frame (emit (globals m) (wait_recal ∷ []))

  -- The end of a turn with a frame held; the last activity is then at this time.
  pub record IsFinished (m out : Machine) (since : ℕ) : Type 0 where
    pub us : ℕ
    pub arrived : List ℕ
    pub ring : out.ring ≡ flush m.ring arrived
    pub active : out.last_activity ≡ since
    pub polls : out.polls ≡ m.polls + 1
    pub parser :
        let g = shown_globals m in
        let r = resync m.parser in
        out.parser ≡ record r {
          sink = with_ctx r.sink (send_sync_reply g us (pos g.g_draw_count) (sync_flags g));
        }

  expire-active :
      (m : Machine)
      → (globals m).g_activity ≡ true
      → expire w m ≡ record (timed w m) { last_activity = now w m }
  unfolding expire
  expire-active m on =
      ap
        (λ b.
          if b
          then record (timed w m) { last_activity = now w m }
          else (if (globals m).g_have_frame
                && leb idle_timeout_us (elapsed (now w m) m.last_activity)
              then change (timed w m) (record (globals m) {
                g_have_frame = false;
                g_draw_count = 0;
                g_overflow = false;
              })
              else timed w m))
        on

  -- A redraw of a held frame.
  abbrev redrawn : Machine → Machine
  redrawn m = change (timed w m) (shown_globals m)

  redraw-held :
      (m : Machine)
      → (globals m).g_have_frame ≡ true
      → (us : ℕ) × (redraw w m ≡ (timed w (redrawn m), us))
  unfolding redraw
  redraw-held m have = (
    elapsed (now w (redrawn m)) (now w m),
    ap
        (λ b.
          let synced = change m (emit (globals m) (wait_recal ∷ [])) in
          let ready = if b then synced else handle_splash_buttons w synced in
          let r = globals ready in
          let drawn =
            change (timed w ready)
              (if b then draw_active_frame r else draw_idle_splash w.version w.commit r) in
          (timed w drawn, elapsed (now w drawn) (now w ready)))
        have,
  )

  -- A turn with activity takes its time.
  abbrev noted : Machine → Machine
  noted m = record (timed w m) { last_activity = now w m }

  ask-IsFinished :
      (m : Machine) (us since : ℕ)
      → let e = record (timed w m) { last_activity = since } in
        IsFinished m (ask w (timed w (redrawn e)) us) since
  unfolding ask flush_uart resync draw_active_frame
  ask-IsFinished m us since = record {
    us = us;
    arrived = w.fifo m.polls;
    ring = refl;
    active = refl;
    polls = refl;
    parser = refl;
  }

  pub end_turn-IsFinished :
      (m : Machine)
      → (globals m).g_activity ≡ true
      → (globals m).g_have_frame ≡ true
      → IsFinished m (end_turn w m) (now w m)
  end_turn-IsFinished m on have =
      let (us, drawn) = redraw-held (noted m) have in
      subst (λ out. IsFinished m out (now w m))
        (sym (ap (λ a. ask w a.0 a.1) (ap (redraw w) (expire-active m on) ∙ drawn)))
        (ask-IsFinished m us (now w m))

  -- Without activity, and before the frame is too old.
  expire-quiet :
      (m : Machine)
      → (globals m).g_activity ≡ false
      → is_late w m.timer_reads m ≡ false
      → expire w m ≡ timed w m
  unfolding expire
  expire-quiet m quiet early =
      let gone =
        change (timed w m)
          (record (globals m) { g_have_frame = false; g_draw_count = 0; g_overflow = false }) in
      ap
        (λ b.
          if b
          then noted m
          else (if (globals m).g_have_frame && is_late w m.timer_reads m then gone else timed w m))
        quiet
      ∙ ap (λ b. if (globals m).g_have_frame && b then gone else timed w m) early
      ∙ ap (λ b. if b then gone else timed w m) (never (globals m).g_have_frame)
    where
      never : (b : Bool) → (b && false) ≡ false
      never true = refl
      never false = refl

  pub end_turn-quiet :
      (m : Machine)
      → (globals m).g_activity ≡ false
      → is_late w m.timer_reads m ≡ false
      → (globals m).g_have_frame ≡ true
      → IsFinished m (end_turn w m) m.last_activity
  end_turn-quiet m quiet early have =
      let (us, drawn) = redraw-held (timed w m) have in
      subst (λ out. IsFinished m out m.last_activity)
        (sym (ap (λ a. ask w a.0 a.1) (ap (redraw w) (expire-quiet m quiet early) ∙ drawn)))
        (ask-IsFinished m us m.last_activity)

  -- What the receiver holds is drawn.
  shown_globals-calls :
      (m : Machine) (sh : Shown)
      → IsHeld (globals m) sh
      → (shown_globals m).calls
        ≡ (globals m).calls ++ (wait_recal ∷ map direct_draw (map draw_of sh.vectors))
  unfolding draw_active_frame
  shown_globals-calls m sh h =
      append_assoc (globals m).calls (wait_recal ∷ [])
        (map direct_draw (take (globals m).g_draw_count (globals m).g_draw))
      ∙ ap (λ ds. (globals m).calls ++ (wait_recal ∷ map direct_draw ds)) h.vectors

  sync_flags-held :
      (g : Globals) (b : Bool)
      → g.g_have_frame ≡ true
      → g.g_overflow ≡ b
      → sync_flags g ≡ (if b then 1 else 0)
  unfolding sync_flags
  sync_flags-held g true have over = rw (have, over) refl
  sync_flags-held g false have over = rw (have, over) refl

  -- The reply is the last thing of a turn, and changes only what has been written.
  end_turn-parser :
      (m out : Machine) {since : ℕ}
      → IsFinished m out since
      → (us : ℕ) × (reply : List ℕ) × (out.parser ≡ (
          let r = resync m.parser in
          record r { sink = with_ctx r.sink (emit (shown_globals m) (map write reply)) }))
        × Promised (globals m).g_peer_v2 us (globals m).g_draw_count (sync_flags (globals m)) reply
  end_turn-parser m out i =
      let g = shown_globals m in
      let r = resync m.parser in
      let (reply, said, told) = send_sync_reply_lem g i.us g.g_draw_count (sync_flags g) in
      (
        i.us,
        reply,
        i.parser ∙ ap (λ h. record r { sink = with_ctx r.sink h }) said,
        unfold draw_active_frame sync_flags in told,
      )

  -- After a turn the receiver is between two turns.
  pub end_turn-IsBetween :
      (m out : Machine) (shown : List Shown) (lost : ℕ) {made : List Call} {peer : Bool}
      {pic : Picture} {since : ℕ}
      → IsValid m.parser
      → Plays (Draws made peer) (resync m.parser) pic shown
      → Holds m.ring (queued [] lost)
      → IsFinished m out since
      → IsBetween out pic shown
  unfolding draw_active_frame
  end_turn-IsBetween m out shown lost {pic = pic} valid plays empty i =
      let (us, reply, same, told) = end_turn-parser m out i in
      let g = emit (shown_globals m) (map write reply) in
      let r = resync m.parser in
      let v = resync-IsValid valid in
      let again =
        change-Plays r g shown (unfold resync in refl) (unfold resync in refl)
          (unfold resync in refl) (unfold resync in refl) plays in
      record {
        valid = subst IsValid (sym same) (ground arith);
        plays =
            subst
              (λ (p : Parser Globals).
                Plays (Draws p.sink.ctx.calls p.sink.ctx.g_peer_v2) p pic shown)
              (sym same) again;
        lost = (arrivals (queued [] lost) i.arrived).lost;
        empty =
            subst (λ r. Holds r (queued [] (arrivals (queued [] lost) i.arrived).lost)) (sym i.ring)
              (flush-Holds m.ring (queued [] lost) i.arrived empty);
      }

  -- In a turn that starts with these calls made, what is held is drawn, and the sender told.
  pub end_turn-IsAnswered :
      (start m out : Machine) (sh : Shown) {since : ℕ}
      → (globals m).calls ≡ (globals start).calls
      → (globals m).g_peer_v2 ≡ (globals start).g_peer_v2
      → IsHeld (globals m) sh
      → IsFinished m out since
      → start.polls ≤ m.polls
      → IsAnswered start out sh
  end_turn-IsAnswered start m out sh calls peer held i onward =
      let (us, reply, same, told) = end_turn-parser m out i in
      record {
        us = us;
        reply = reply;
        onward = omega (arith, i.polls, onward);
        calls =
            ap (λ (p : Parser Globals). p.sink.ctx.calls) same
            ∙ ap (λ cs. cs ++ map write reply) (shown_globals-calls m sh held)
            ∙ append_assoc (globals m).calls _ (map write reply)
            ∙ ap
                (λ cs.
                  cs
                  ++ ((wait_recal ∷ map direct_draw (map draw_of sh.vectors)) ++ map write reply))
                calls;
        told =
            subst (λ b. Promised b us (length sh.vectors) (if sh.overflow then 1 else 0) reply) peer
              (subst (λ n. Promised (globals m).g_peer_v2 us n (if sh.overflow then 1 else 0) reply)
                held.count
                (subst (λ f. Promised (globals m).g_peer_v2 us (globals m).g_draw_count f reply)
                  (sync_flags-held (globals m) sh.overflow held.have held.overflow) told));
      }
