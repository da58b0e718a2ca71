-- ===== src/Receiver/Ready/Receive.antt =====
-- Receiving keeps the receiver ready.
use vekterm.Base.{
  not, ◌&&◌, ltb, ℕ, zero, suc, ◌<◌, arith, Bool, true, false, Option-cases, inl, inr, Option, some,
  List, [], ◌∷◌, ◌>>=◌, OnSome, OnSome->>=, u8, if◌then◌else◌,
}
use vekterm.Base.Int.{pos}
use vekterm.Frame.Beam.{resync}
use vekterm.Frame.Parser.{feed}
use vekterm.Frame.Valid.Beam.{resync-IsValid}
use vekterm.Frame.Valid.Feed.{feed-IsValid}
use vekterm.Frame.Client.Feed.{feed-Serves}
use vekterm.UartRx.Ring.{poll, Ring, get, rxbuf_size}
use vekterm.UartRx.Queue.{Queue, serve, arrivals, flushing}
use vekterm.UartRx.Refine.{Holds, get-Gives, flush-Holds, drain_fifo-Holds}
use vekterm.Receiver.Loop.{
  timed, Machine, World, globals, poll_uart, flush_uart, realign, accept, next_byte, consume,
  waiting, receive,
}
use vekterm.Receiver.Ready.{IsSound, IsReady}

module _ (w : World) where
  pub poll_uart-IsReady : (m : Machine) → IsReady m → IsReady (poll_uart w m)
  unfolding poll_uart poll
  poll_uart-IsReady m v = record {
    valid = v.valid;
    serves = v.serves;
    queue = arrivals v.queue (w.fifo m.polls);
    holds = drain_fifo-Holds (w.fifo m.polls) m.ring v.queue v.holds;
  }

  pub flush_uart-IsReady : (m : Machine) → IsReady m → IsReady (flush_uart w m)
  unfolding flush_uart
  flush_uart-IsReady m v = record {
    valid = v.valid;
    serves = v.serves;
    queue = serve v.queue (flushing (w.fifo m.polls));
    holds = flush-Holds m.ring v.queue (w.fifo m.polls) v.holds;
  }

  pub realign-IsReady : (m : Machine) → IsReady m → IsReady (realign w m)
  unfolding resync
  realign-IsReady m v = record {
    valid = resync-IsValid v.valid;
    serves = v.serves;
    queue = v.queue;
    holds = v.holds;
  }

  Ready : Machine × Bool → Type 0
  Ready a = IsReady a.0

  -- The parser takes a byte of the ring.
  fed-IsReady :
      (m : Machine) (b : ℕ) (ring : Ring) (q : Queue)
      → IsReady m
      → Holds ring q
      → OnSome Ready (accept w m (pos b, ring))
  unfolding accept Ready
  fed-IsReady m b ring q v h = elim (Option-cases (feed m.parser (u8 b ∷ []))) [
    | inl fault ↦ rw fault tt
    | inr (p, fed) ↦
        let small : u8 b < 256 = omega arith in
        rw fed (record {
          valid = feed-IsValid (u8 b ∷ []) m.parser (small, tt) v.valid fed;
          serves = feed-Serves IsSound (u8 b ∷ []) m.parser (small, tt) v.valid v.serves fed;
          queue = q;
          holds = h;
        })
  ]

  taken-IsReady :
      (held : List ℕ) (lost : ℕ) (m : Machine)
      → IsReady m
      → Holds m.ring (record { held = held; lost = lost })
      → OnSome Ready (get m.ring >>= λ g. accept w m g)
  unfolding accept Ready
  taken-IsReady [] lost m v h = rw (get-Gives m.ring [] lost h) v
  taken-IsReady (c ∷ held) lost m v h =
      let (ring, given, h') = get-Gives m.ring (c ∷ held) lost h in
      rw given (fed-IsReady m c ring (record { held = held; lost = lost }) v h')

  if-OnSome :
      (b : Bool) (x y : Option (Machine × Bool))
      → OnSome Ready x
      → OnSome Ready y
      → OnSome Ready (if b then x else y)
  if-OnSome true x y v u = v
  if-OnSome false x y v u = u

  next_byte-IsReady : (m : Machine) → IsReady m → OnSome Ready (next_byte w m)
  unfolding next_byte Ready
  next_byte-IsReady m v =
      if-OnSome (globals m).g_activity _ _ v (taken-IsReady v.queue.held v.queue.lost m v v.holds)

  consume-IsReady : (n : ℕ) (m : Machine) → IsReady m → OnSome IsReady (consume w n m)
  unfolding consume
  consume-IsReady zero m v = v
  consume-IsReady (suc n) m v =
      OnSome->>= IsReady (next_byte w m) _ (next_byte-IsReady m v) λ a ready.
        elim a.1
          as (λ b.
            OnSome IsReady
              (elim b as (λ _. Option Machine) [ true ↦ consume w n a.0 | false ↦ some a.0 ])) [
                | true ↦ consume-IsReady n a.0 (unfold Ready in ready)
                | false ↦ unfold Ready in ready
              ]

  pub timed-IsReady : (m : Machine) → IsReady m → IsReady (timed w m)
  timed-IsReady m v = record {
    valid = v.valid;
    serves = v.serves;
    queue = v.queue;
    holds = v.holds;
  }

  pair-IsReady :
      (b : Bool) (x y : Bool × Machine) → IsReady x.1 → IsReady y.1 → IsReady (if b then x else y).1
  pair-IsReady true x y v u = v
  pair-IsReady false x y v u = u

  pub if-IsReady : (b : Bool) (x y : Machine) → IsReady x → IsReady y → IsReady (if b then x else y)
  if-IsReady true x y v u = v
  if-IsReady false x y v u = u

  waiting-IsReady : (t0 n : ℕ) (m : Machine) → IsReady m → IsReady (waiting w t0 n m).1
  unfolding waiting
  waiting-IsReady t0 n m v =
      pair-IsReady (not (globals m).g_activity && ltb 0 n) _ _ (timed-IsReady m v) v

  pub receive-IsReady : (t0 n : ℕ) (m : Machine) → IsReady m → OnSome IsReady (receive w t0 n m)
  unfolding receive
  receive-IsReady t0 zero m v = v
  receive-IsReady t0 (suc n) m v =
      let a = waiting w t0 n m in
      let ready = waiting-IsReady t0 n m v in
      elim a.0
        as (λ b. OnSome IsReady (elim b as (λ _. Option Machine) [
          | true ↦ consume w rxbuf_size (poll_uart w a.1) >>= λ m'. receive w t0 n m'
          | false ↦ some a.1
        ])) [
          | true ↦
              OnSome->>= IsReady (consume w rxbuf_size (poll_uart w a.1)) _
                (consume-IsReady rxbuf_size (poll_uart w a.1) (poll_uart-IsReady a.1 ready))
                (λ m' ready'. receive-IsReady t0 n m' ready')
          | false ↦ ready
        ]
