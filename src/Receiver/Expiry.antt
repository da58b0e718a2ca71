-- ===== src/Receiver/Expiry.antt =====
-- A turn of the receiver on a silent line: what becomes of the frame that it holds.
use vekterm.Base.{ℕ, ◌≡◌, Bool, false, leb, List, [], ◌∷◌, map, if◌then◌else◌}
use vekterm.Receiver.State.{idle_timeout_us, wait_recal, write, Globals, emit}
use vekterm.Receiver.Callbacks.{draw_active_frame}
use vekterm.Receiver.Reply.{sync_flags, Promised}
use vekterm.Receiver.Text.{draw_idle_splash}
use vekterm.Receiver.Loop.{
  World, Machine, globals, change, elapsed, handle_splash_buttons, expire, redraw, ask,
}

-- The receiver shows its splash.
pub record IsIdle (g : Globals) : Type 0 where
  pub no_frame : g.g_have_frame ≡ false
  pub no_vectors : g.g_draw_count ≡ 0
  pub no_overflow : g.g_overflow ≡ false

-- The globals of a receiver that holds no frame any more.
abbrev dropped : Globals → Globals
dropped g = record g { g_have_frame = false; g_draw_count = 0; g_overflow = false }

module _ (w : World) where
  -- The frame is out of time at the `k`th reading of the timer.
  abbrev pub is_late : ℕ → Machine → Bool
  is_late k m = leb idle_timeout_us (elapsed (w.counter_lo k) m.last_activity)

  -- The held frame has been drawn again, after a wait for the refresh, and the sender has its reply.
  pub record IsRedrawn (m out : Machine) : Type 0 where
    pub us : ℕ
    pub reply : List ℕ
    pub calls :
        globals out
        ≡ emit
            (draw_active_frame (emit (record (globals m) { g_activity = false }) (wait_recal ∷ [])))
            (map write reply)
    pub told :
        Promised (globals m).g_peer_v2 us (globals m).g_draw_count (sync_flags (globals m)) reply

  -- The machine `heard` without its frame, after a wait for the refresh.
  pub record IsEmptied (m heard emptied : Machine) : Type 0 where
    pub globals_of :
        globals emptied
        ≡ emit (dropped (record (globals m) { g_activity = false })) (wait_recal ∷ [])
    pub buttons : emptied.button_reads ≡ heard.button_reads

  -- The frame is gone; after a wait for the refresh and the reading of the buttons, which changes
  -- no more than the line rate and what goes with it, the splash is drawn, and the sender is told so.
  pub record IsDropped (m heard out : Machine) : Type 0 where
    pub us : ℕ
    pub emptied : Machine
    pub reply : List ℕ
    pub gone : IsEmptied m heard emptied
    pub idle : IsIdle (globals (handle_splash_buttons w emptied))
    pub calls :
        globals out
        ≡ emit
            (draw_idle_splash w.version w.commit (globals (handle_splash_buttons w emptied)))
            (map write reply)
    pub told : Promised (globals m).g_peer_v2 us 0 2 reply

  abbrev synced : Machine → Machine
  synced m = change m (emit (globals m) (wait_recal ∷ []))

  -- The globals after a redraw, when the test gives `b`.
  abbrev redrawn : Bool → Machine → Globals
  redrawn b m =
      let r = globals (if b then synced m else handle_splash_buttons w (synced m)) in
      if b then draw_active_frame r else draw_idle_splash w.version w.commit r

  -- The end of a turn after the receive loop.
  abbrev pub end_turn : Machine → Machine
  end_turn heard = let drawn = redraw w (expire w heard) in ask w drawn.0 drawn.1
