-- ===== src/Receiver/Turns.antt =====
-- What holds of a turn of the receiver.
use vekterm.Base.{
  if◌then◌else◌, ℕ, zero, suc, ◌<◌, ◌==◌, ◌≡◌, refl, arith, Bool, true, false, Bool-cases,
  Option-cases, inl, inr, some, List, [], ◌∷◌, map, length, ◌>>=◌, u8, ◌∙◌, ap,
}
use vekterm.Base.Int.{pos}
use vekterm.Frame.Beam.{resync}
use vekterm.Frame.Parser.{feed}
use vekterm.UartRx.Ring.{Ring, get}
use vekterm.UartRx.Queue.{Queue, flushing, serve}
use vekterm.UartRx.Refine.{Holds, get-Gives, flush-Holds}
use vekterm.Receiver.State.{write, Globals, emit}
use vekterm.Receiver.Reply.{send_sync_reply_lem, sync_flags, Promised}
use vekterm.Receiver.Loop.{
  Machine, World, globals, baud_at, pressed, handle_splash_buttons, set_baud, flush_uart, accept,
  next_byte, consume, ask,
}

-- The line rate that is in use is that of the table's entry which the buttons have come to.
pub record IsTuned (g : Globals) : Type 0 where
  pub in_table : g.g_baud_idx < 6
  pub current : g.g_cur_baud ≡ baud_at g.g_baud_idx

if-IsTuned :
    (b : Bool) (x y : Machine)
    → IsTuned (globals x)
    → IsTuned (globals y)
    → IsTuned (globals (if b then x else y))
if-IsTuned true x y t u = t
if-IsTuned false x y t u = u

module _ (w : World) where
  next_byte-given :
      (m : Machine) (c : ℕ) (ring : Ring)
      → (globals m).g_activity ≡ false
      → get m.ring ≡ some (pos c, ring)
      → next_byte w m
        ≡ (feed m.parser (u8 c ∷ []) >>= λ p. some (record m { parser = p; ring = ring }, true))
  unfolding next_byte accept
  next_byte-given m c ring quiet given =
      ap (λ b. if b then some (m, false) else (get m.ring >>= λ a. accept w m a)) quiet
      ∙ ap (λ o. o >>= λ a. accept w m a) given

  -- Fuel does not matter to the loop over the bytes of the ring, as long as it is more than what
  -- the ring holds: with any such the loop ends in the same way, be it a fault of the parser.
  pub consume_fuel :
      (held : List ℕ) (lost n n' : ℕ) (m : Machine)
      → Holds m.ring (record { held = held; lost = lost })
      → length held < n
      → length held < n'
      → consume w n m ≡ consume w n' m
  unfolding consume next_byte accept
  consume_fuel held lost zero n' m h enough enough' = absurd (omega arith)
  consume_fuel held lost (suc n) zero m h enough enough' = absurd (omega arith)
  consume_fuel [] lost (suc n) (suc n') m h enough enough' =
      elim (Bool-cases (globals m).g_activity) [
        | inl heard ↦ rw heard refl
        | inr quiet ↦ rw (quiet, get-Gives m.ring [] lost h) refl
      ]
  consume_fuel (c ∷ held) lost (suc n) (suc n') m h enough enough' =
      let (ring, given, h') = get-Gives m.ring (c ∷ held) lost h in
      elim (Bool-cases (globals m).g_activity) [
        | inl heard ↦ rw heard refl
        | inr quiet ↦ elim (Option-cases (feed m.parser (u8 c ∷ []))) [
          | inl fault ↦ rw (next_byte-given m c ring quiet given, fault) refl
          | inr (p, fed) ↦
              rw (next_byte-given m c ring quiet given, fed)
                (consume_fuel held lost n n' (record m { parser = p; ring = ring }) h' (omega arith)
                  (omega arith))
        ]
      ]

  -- A turn ends with the ring empty and the parser at the start of a word, whatever came before,
  -- and with one reply: the sync byte, or to a sender that has negotiated the timing record.
  pub ask_lem :
      (m : Machine) (us : ℕ) (q : Queue)
      → Holds m.ring q
      → ((ask w m us).parser.nbytes ≡ 0)
        × ((ask w m us).parser.ext_remaining ≡ 0)
        × Holds (ask w m us).ring (serve q (flushing (w.fifo m.polls)))
        × ((reply : List ℕ) × (globals (ask w m us) ≡ emit (globals m) (map write reply))
            × Promised
                (globals m).g_peer_v2
                us
                (globals m).g_draw_count
                (sync_flags (globals m))
                reply)
  unfolding ask flush_uart resync
  ask_lem m us q h = (
    refl,
    refl,
    flush-Holds m.ring q (w.fifo m.polls) h,
    send_sync_reply_lem (globals m) us (globals m).g_draw_count (sync_flags (globals m)),
  )

  -- The buttons of the splash leave the receiver at a line rate of the table.
  pub handle_splash_buttons-IsTuned :
      (m : Machine) → IsTuned (globals m) → IsTuned (globals (handle_splash_buttons w m))
  unfolding handle_splash_buttons set_baud flush_uart resync
  handle_splash_buttons-IsTuned m t =
      if-IsTuned (pressed w (u8 (w.buttons m.button_reads)) (globals m).prev == 0) _ _
        (record { in_table = t.in_table; current = t.current })
        (record { in_table = omega arith; current = refl })
