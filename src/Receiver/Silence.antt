-- ===== src/Receiver/Silence.antt =====
-- The receive loop on a silent line.
use vekterm.Base.{
  ℕ, zero, suc, ◌+◌, ◌==◌, ◌≤◌, ◌≡◌, refl, arith, Bool, true, false, not, ◌&&◌, Bool-cases, inl,
  inr, ltb, Option, some, [], ◌>>=◌, if◌then◌else◌, ap, ◌∙◌,
}
use vekterm.Base.Int.{negsuc}
use vekterm.UartRx.Ring.{Ring, rxbuf_size, get, poll, drain_fifo}
use vekterm.Receiver.Loop.{
  World, Machine, globals, poll_uart, accept, next_byte, consume, waiting, receive,
}

-- What does not change while nothing comes.
pub record Idles (m m' : Machine) : Type 0 where
  pub parser : m'.parser ≡ m.parser
  pub ring : m'.ring ≡ m.ring
  pub last_activity : m'.last_activity ≡ m.last_activity
  pub timer : m.timer_reads ≤ m'.timer_reads

-- No activity yet, and nothing in the ring.
pub record IsQuiet (m : Machine) : Type 0 where
  pub quiet : (globals m).g_activity ≡ false
  pub empty : (m.ring.rx_head == m.ring.rx_tail) ≡ true

Idles-IsQuiet : (m m' : Machine) → Idles m m' → IsQuiet m → IsQuiet m'
Idles-IsQuiet m m' i h = record {
  quiet = ap (λ p. p.sink.ctx.g_activity) i.parser ∙ h.quiet;
  empty = ap (λ (r : Ring). r.rx_head == r.rx_tail) i.ring ∙ h.empty;
}

Idles-trans : (a b c : Machine) → Idles a b → Idles b c → Idles a c
Idles-trans a b c i j = record {
  parser = j.parser ∙ i.parser;
  ring = j.ring ∙ i.ring;
  last_activity = j.last_activity ∙ i.last_activity;
  timer = omega (arith, i.timer, j.timer);
}

module _ (w : World) (silent : (k : ℕ) → w.fifo k ≡ []) where
  poll_uart-silent : (m : Machine) → poll_uart w m ≡ record m { polls = m.polls + 1 }
  unfolding poll_uart poll drain_fifo
  poll_uart-silent m =
      ap (λ f. record m { ring = drain_fifo m.ring f; polls = m.polls + 1 }) (silent m.polls)

  next_byte-IsQuiet : (m : Machine) → IsQuiet m → next_byte w m ≡ some (m, false)
  unfolding next_byte accept
  next_byte-IsQuiet m h =
      let given : get m.ring ≡ some (negsuc 0, m.ring) = unfold get in rw h.empty refl in
      ap (λ b. if b then some (m, false) else (get m.ring >>= λ a. accept w m a)) h.quiet
      ∙ ap (λ o. o >>= λ a. accept w m a) given

  consume-IsQuiet : (n : ℕ) (m : Machine) → IsQuiet m → consume w n m ≡ some m
  unfolding consume
  consume-IsQuiet zero m h = refl
  consume-IsQuiet (suc n) m h =
      ap
        (λ o. o >>= λ a. elim a.1 as (λ _. Option Machine) [
          | true ↦ consume w n a.0
          | false ↦ some a.0
        ])
        (next_byte-IsQuiet m h)

  drained :
      (m : Machine)
      → IsQuiet m
      → consume w rxbuf_size (poll_uart w m) ≡ some (record m { polls = m.polls + 1 })
  drained m h =
      ap (consume w rxbuf_size) (poll_uart-silent m)
      ∙ consume-IsQuiet rxbuf_size (record m { polls = m.polls + 1 })
          (record { quiet = h.quiet; empty = h.empty })

  pair-Idles :
      (b : Bool) (m : Machine) (x y : Bool × Machine)
      → Idles m x.1
      → Idles m y.1
      → Idles m (if b then x else y).1
  pair-Idles true m x y v u = v
  pair-Idles false m x y v u = u

  waiting-Idles : (t0 n : ℕ) (m : Machine) → Idles m (waiting w t0 n m).1
  unfolding waiting
  waiting-Idles t0 n m =
      pair-Idles (not (globals m).g_activity && ltb 0 n) m _ _
        (record { parser = refl; ring = refl; last_activity = refl; timer = omega arith })
        (record { parser = refl; ring = refl; last_activity = refl; timer = omega arith })

  -- The receive loop ends, and has found nothing.
  pub receive-IsQuiet :
      (t0 n : ℕ) (m : Machine)
      → IsQuiet m
      → (m' : Machine) × (receive w t0 n m ≡ some m') × Idles m m'
  unfolding receive
  receive-IsQuiet t0 zero m h =
      (m, refl, record { parser = refl; ring = refl; last_activity = refl; timer = omega arith })
  receive-IsQuiet t0 (suc n) m h =
      let a = waiting w t0 n m in
      let first = waiting-Idles t0 n m in
      let quiet = Idles-IsQuiet m a.1 first h in
      let next : Bool → Option Machine = λ b. elim b as (λ _. Option Machine) [
        | true ↦ consume w rxbuf_size (poll_uart w a.1) >>= λ m'. receive w t0 n m'
        | false ↦ some a.1
      ] in
      elim (Bool-cases a.0) [
        | inl on ↦
            let polled = record a.1 { polls = a.1.polls + 1 } in
            let (m', rest, idle) =
              receive-IsQuiet t0 n polled (record { quiet = quiet.quiet; empty = quiet.empty }) in
            (
              m',
              ap next on ∙ ap (λ o. o >>= λ m'. receive w t0 n m') (drained a.1 quiet) ∙ rest,
              Idles-trans m a.1 m' first (record {
                parser = idle.parser;
                ring = idle.ring;
                last_activity = idle.last_activity;
                timer = idle.timer;
              }),
            )
        | inr off ↦ (a.1, ap next off, first)
      ]
