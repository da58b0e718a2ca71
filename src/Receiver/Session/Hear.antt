-- ===== src/Receiver/Session/Hear.antt =====
-- The receive loop on the pieces in which a calm stream comes: it stops at the stream's end.
use mathlib.Core.Path.{subst}
use vekterm.Base.{
  map, ℕ, zero, suc, ◌+◌, ◌≤◌, ◌<◌, ◌≡◌, refl, arith, Bool, true, false, not, ◌&&◌, Bool-cases, inl,
  inr, Option, some, List, [], ◌∷◌, length, concat, All, All-parts, ltb, lt→ltb, ap, ◌∙◌, ◌>>=◌, u8,
  if◌then◌else◌,
}
use vekterm.Base.Int.{pos}
use vekterm.Frame.State.{Parser}
use vekterm.Frame.Parser.{feed_byte, feed}
use vekterm.Frame.Valid.{IsByte}
use vekterm.UartRx.Ring.{Ring, rxbuf_size, get, poll, drain_fifo}
use vekterm.UartRx.Queue.{Queue, capacity, arrivals_fit}
use vekterm.UartRx.Refine.{Holds, get-Gives, drain_fifo-Holds}
use vekterm.Receiver.State.{rx_timeout_us, Globals}
use vekterm.Receiver.Loop.{
  World, Machine, globals, elapsed, poll_uart, accept, next_byte, consume, waiting, receive,
}
use vekterm.Receiver.Session.Calm.{is_active, Calm, Calm-split}

abbrev pub queued : List ℕ → ℕ → Queue
queued held lost = record { held = held; lost = lost }

u8-IsByte : (bytes : List ℕ) → All IsByte bytes → map u8 bytes ≡ bytes
u8-IsByte [] hs = refl
u8-IsByte (b ∷ bytes) hs =
    let here : u8 b ≡ b = omega (arith, hs.0) in
    ap (λ c. c ∷ map u8 bytes) here ∙ ap (λ bs. b ∷ bs) (u8-IsByte bytes hs.1)

-- A parser that is active has come to the end of a calm stream.
Calm-active : (bytes : List ℕ) (p q : Parser Globals) → Calm p bytes q → is_active p ≡ true → p ≡ q
Calm-active [] p q c on = c
Calm-active (b ∷ bytes) p q (quiet, later) on = cc

module _ (w : World) where
  next_byte-empty :
      (m : Machine) (lost : ℕ) → Holds m.ring (queued [] lost) → next_byte w m ≡ some (m, false)
  unfolding next_byte accept
  next_byte-empty m lost h = elim (Bool-cases (globals m).g_activity) [
    | inl on ↦ rw on refl
    | inr off ↦ rw (off, get-Gives m.ring [] lost h) refl
  ]

  next_byte-quiet :
      (m : Machine) (b : ℕ) (s : Parser Globals) (r : Ring)
      → is_active m.parser ≡ false
      → get m.ring ≡ some (pos b, r)
      → u8 b ≡ b
      → feed_byte m.parser b ≡ some s
      → next_byte w m ≡ some (record m { parser = s; ring = r }, true)
  unfolding next_byte accept feed
  next_byte-quiet m b s r quiet given byte fed =
      let took : Parser Globals → Option (Machine × Bool) =
        λ p. some (record m { parser = p; ring = r }, true) in
      ap (λ c. if c then some (m, false) else (get m.ring >>= λ a. accept w m a)) quiet
      ∙ ap (λ o. o >>= λ a. accept w m a) given
      ∙ ap (λ c. (feed_byte m.parser c >>= λ q. some q) >>= took) byte
      ∙ ap (λ o. (o >>= λ q. some q) >>= took) fed

  -- The loop over the bytes of the ring takes a calm stream whole.
  pub consume-Calm :
      (bytes : List ℕ) (n : ℕ) (m : Machine) (q : Parser Globals) (lost : ℕ)
      → length bytes < n
      → All IsByte bytes
      → Holds m.ring (queued bytes lost)
      → Calm m.parser bytes q
      → (r : Ring) × (consume w n m ≡ some (record m { parser = q; ring = r }))
        × Holds r (queued [] lost)
  unfolding consume
  consume-Calm bytes zero m q lost long hs h c = absurd (omega arith)
  consume-Calm [] (suc n) m q lost long hs h c =
      (m.ring, rw (next_byte-empty m lost h) (ap (λ p. some (record m { parser = p })) c), h)
  consume-Calm (b ∷ bytes) (suc n) m q lost long hs h (quiet, (s, fed, later)) =
      let (r, given, h') = get-Gives m.ring (b ∷ bytes) lost h in
      let next = next_byte-quiet m b s r quiet given (omega (arith, hs.0)) fed in
      let (r', rest, h'') =
        consume-Calm bytes n (record m { parser = s; ring = r }) q lost (omega arith) hs.1 h'
          later in
      (r', rw next rest, h'')

  -- The pieces come with the next polls, each in time, and none is more than the ring takes.
  abbrev pub Arrives : ℕ → ℕ → ℕ → List (List ℕ) → Type 0
  Arrives t0 i k [] = Unit
  Arrives t0 i k (piece ∷ pieces) =
      (elapsed (w.counter_lo i) t0 < rx_timeout_us)
      × (w.fifo k ≡ piece)
      × (length piece ≤ capacity)
      × Arrives t0 (i + 1) (k + 1) pieces

  -- After the receive loop: the parser is this, the ring is empty, and only the timer and the FIFO
  -- have been read.
  pub record Heard (m : Machine) (q : Parser Globals) (lost : ℕ) (o : Option Machine) : Type 0 where
    pub ring : Ring
    pub timer_reads : ℕ
    pub polls : ℕ
    pub later : m.timer_reads ≤ timer_reads
    pub onward : m.polls ≤ polls
    pub ended :
        o ≡ some (record m { parser = q; ring = ring; timer_reads = timer_reads; polls = polls })
    pub empty : Holds ring (queued [] lost)

  pub poll_uart-fit :
      (m : Machine) (piece : List ℕ) (lost : ℕ)
      → w.fifo m.polls ≡ piece
      → length piece ≤ capacity
      → All IsByte piece
      → Holds m.ring (queued [] lost)
      → Holds (poll_uart w m).ring (queued piece lost)
  unfolding poll_uart poll
  poll_uart-fit m piece lost same short hs h = rw same (
      subst (Holds (drain_fifo m.ring piece))
        (arrivals_fit piece [] lost (omega arith) ∙ ap (λ bs. queued bs lost) (u8-IsByte piece hs))
        (drain_fifo-Holds piece m.ring (queued [] lost) h))

  pub poll_uart-polled :
      (m : Machine) → poll_uart w m ≡ record m { ring = (poll_uart w m).ring; polls = m.polls + 1 }
  unfolding poll_uart
  poll_uart-polled m = refl

  -- The receive loop after its condition.
  abbrev pub entered : ℕ → ℕ → Bool × Machine → Option Machine
  entered t0 n a = elim a.0 as (λ _. Option Machine) [
    | true ↦ consume w rxbuf_size (poll_uart w a.1) >>= λ m'. receive w t0 n m'
    | false ↦ some a.1
  ]

  receive-active :
      (t0 n : ℕ) (m : Machine) → is_active m.parser ≡ true → receive w t0 (suc n) m ≡ some m
  unfolding receive waiting
  receive-active t0 n m on =
      ap
        (λ b. entered t0 n (
          if not b && ltb 0 n
          then (
            ltb (elapsed (w.counter_lo m.timer_reads) t0) rx_timeout_us,
            record m { timer_reads = m.timer_reads + 1 },
          )
          else (false, m)))
        on

  pub receive-waiting :
      (t0 n : ℕ) (m : Machine)
      → is_active m.parser ≡ false
      → 0 < n
      → elapsed (w.counter_lo m.timer_reads) t0 < rx_timeout_us
      → receive w t0 (suc n) m ≡ entered t0 n (true, record m { timer_reads = m.timer_reads + 1 })
  unfolding receive waiting
  receive-waiting t0 n m quiet more soon =
      let early = ltb (elapsed (w.counter_lo m.timer_reads) t0) rx_timeout_us in
      let read = record m { timer_reads = m.timer_reads + 1 } in
      ap (λ b. entered t0 n (if not b && ltb 0 n then (early, read) else (false, m))) quiet
      ∙ ap (λ b. entered t0 n (if b then (early, read) else (false, m))) (lt→ltb 0 n more)
      ∙ ap (λ b. entered t0 n (b, read)) (lt→ltb _ _ soon)

  stopped :
      (t0 n : ℕ) (m : Machine) (q : Parser Globals) (lost : ℕ)
      → Holds m.ring (queued [] lost)
      → m.parser ≡ q
      → is_active m.parser ≡ true
      → Heard m q lost (receive w t0 (suc n) m)
  stopped t0 n m q lost h same on = record {
    ring = m.ring;
    timer_reads = m.timer_reads;
    polls = m.polls;
    later = omega arith;
    onward = omega arith;
    ended = receive-active t0 n m on ∙ ap (λ p. some (record m { parser = p })) same;
    empty = h;
  }

  -- A calm stream whose end is activity, in pieces that come in time: the receive loop takes it whole.
  pub receive-Calm :
      (t0 : ℕ) (pieces : List (List ℕ)) (n : ℕ) (m : Machine) (q : Parser Globals) (lost : ℕ)
      → length pieces < n
      → All IsByte (concat pieces)
      → Holds m.ring (queued [] lost)
      → Calm m.parser (concat pieces) q
      → is_active q ≡ true
      → Arrives t0 m.timer_reads m.polls pieces
      → Heard m q lost (receive w t0 n m)
  receive-Calm t0 pieces zero m q lost long hs h c on come = absurd (omega arith)
  receive-Calm t0 [] (suc n) m q lost long hs h c on come =
      let loud = ap (λ (p : Parser Globals). p.sink.ctx.g_activity) c ∙ on in
      stopped t0 n m q lost h c loud
  receive-Calm t0 (piece ∷ pieces) (suc n) m q lost long hs h c on (soon, same, short, later) =
      elim (Bool-cases (is_active m.parser)) [
        | inl loud ↦ stopped t0 n m q lost h (Calm-active _ m.parser q c loud) loud
        | inr quiet ↦
            let (here, there) = All-parts IsByte piece (concat pieces) hs in
            let (p, left, right) = Calm-split piece (concat pieces) m.parser q c in
            let read = record m { timer_reads = m.timer_reads + 1 } in
            let polled = record read { ring = (poll_uart w read).ring; polls = m.polls + 1 } in
            let (r, taken, h') =
              consume-Calm piece rxbuf_size polled p lost (omega arith) here
                (poll_uart-fit read piece lost same short here h) left in
            let heard =
              receive-Calm t0 pieces n (record polled { parser = p; ring = r }) q lost (omega arith)
                there h' right on later in
            record {
              ring = heard.ring;
              timer_reads = heard.timer_reads;
              polls = heard.polls;
              later = omega (arith, heard.later);
              onward = omega (arith, heard.onward);
              ended =
                  receive-waiting t0 n m quiet (omega arith) soon
                  ∙ ap (λ o. o >>= λ m'. receive w t0 n m')
                      (ap (consume w rxbuf_size) (poll_uart-polled read) ∙ taken)
                  ∙ heard.ended;
              empty = heard.empty;
            }
      ]
