-- ===== src/Receiver/Session/Lapse.antt =====
-- The receive loop on a calm stream after which nothing more comes in time, and the start of a word
-- that is never finished.
use mathlib.Core.Path.{subst}
use vekterm.Base.{
  ℕ, zero, suc, ◌+◌, ◌≤◌, ◌<◌, ◌≡◌, refl, arith, false, not, ◌&&◌, Option, some, List, [], ◌∷◌,
  length, concat, All, All-parts, ltb, lt→ltb, le→ltb, ap, sym, ◌∙◌, ◌>>=◌, if◌then◌else◌,
}
use vekterm.Frame.State.{Parser}
use vekterm.Frame.Parser.{gather, feed_byte, feed}
use vekterm.Frame.Valid.{IsByte}
use vekterm.Frame.Refine.Stream.{loaded}
use vekterm.UartRx.Ring.{Ring, rxbuf_size}
use vekterm.UartRx.Queue.{capacity}
use vekterm.UartRx.Refine.{Holds}
use vekterm.Receiver.State.{rx_timeout_us, Globals}
use vekterm.Receiver.Loop.{World, Machine, elapsed, poll_uart, consume, waiting, receive}
use vekterm.Receiver.Session.Calm.{is_active, Calm, Calm-split}
use vekterm.Receiver.Session.Hear.{
  queued, consume-Calm, poll_uart-fit, poll_uart-polled, entered, receive-waiting,
}

-- Before the end of a calm stream without activity there is none.
Calm-quiet :
    (bytes : List ℕ) (p q : Parser Globals)
    → Calm p bytes q
    → is_active q ≡ false
    → is_active p ≡ false
Calm-quiet [] p q c off = ap is_active c ∙ off
Calm-quiet (b ∷ bytes) p q (quiet, later) off = quiet

module _ (w : World) where
  -- The pieces, some of which may be empty, come with the next polls, each in time, and then the time
  -- is over.
  abbrev pub Lapses : ℕ → ℕ → ℕ → List (List ℕ) → Type 0
  Lapses t0 i k [] = rx_timeout_us ≤ elapsed (w.counter_lo i) t0
  Lapses t0 i k (piece ∷ pieces) =
      (elapsed (w.counter_lo i) t0 < rx_timeout_us)
      × (w.fifo k ≡ piece)
      × (length piece ≤ capacity)
      × Lapses t0 (i + 1) (k + 1) pieces

  receive-late :
      (t0 n : ℕ) (m : Machine)
      → is_active m.parser ≡ false
      → 0 < n
      → rx_timeout_us ≤ elapsed (w.counter_lo m.timer_reads) t0
      → receive w t0 (suc n) m ≡ some (record m { timer_reads = m.timer_reads + 1 })
  unfolding receive waiting
  receive-late t0 n m quiet more late =
      let early = ltb (elapsed (w.counter_lo m.timer_reads) t0) rx_timeout_us in
      let read = record m { timer_reads = m.timer_reads + 1 } in
      ap (λ b. entered w t0 n (if not b && ltb 0 n then (early, read) else (false, m))) quiet
      ∙ ap (λ b. entered w t0 n (if b then (early, read) else (false, m))) (lt→ltb 0 n more)
      ∙ ap (λ b. entered w t0 n (b, read)) (le→ltb _ _ late)

  -- After the receive loop: the parser is this, the ring is empty, and the timer has been read once
  -- for each piece and once more.
  pub record Lapsed (m : Machine) (q : Parser Globals) (lost polled : ℕ) (o : Option Machine)
      : Type 0 where
    pub ring : Ring
    pub ended :
        o
        ≡ some (record m {
          parser = q;
          ring = ring;
          timer_reads = m.timer_reads + polled + 1;
          polls = m.polls + polled;
        })
    pub empty : Holds ring (queued [] lost)

  -- A calm stream that ends without activity, and then no time is left: the receive loop takes it
  -- whole and ends.
  pub receive-Lapsed :
      (t0 : ℕ) (pieces : List (List ℕ)) (n : ℕ) (m : Machine) (q : Parser Globals) (lost : ℕ)
      → length pieces + 1 < n
      → All IsByte (concat pieces)
      → Holds m.ring (queued [] lost)
      → Calm m.parser (concat pieces) q
      → is_active q ≡ false
      → Lapses t0 m.timer_reads m.polls pieces
      → Lapsed m q lost (length pieces) (receive w t0 n m)
  receive-Lapsed t0 pieces zero m q lost long hs h c off come = absurd (omega arith)
  receive-Lapsed t0 [] (suc n) m q lost long hs h c off late =
      let reads : m.timer_reads + 1 ≡ m.timer_reads + 0 + 1 = omega arith in
      let polls : m.polls ≡ m.polls + 0 = omega arith in
      record {
        ring = m.ring;
        ended =
            receive-late t0 n m (ap is_active c ∙ off) (omega arith) late
            ∙ (λ i. some (record m { parser = c i; timer_reads = reads i; polls = polls i }));
        empty = h;
      }
  receive-Lapsed t0 (piece ∷ pieces) (suc n) m q lost long hs h c off (soon, same, short, later) =
      let (here, there) = All-parts IsByte piece (concat pieces) hs in
      let (p, left, right) = Calm-split piece (concat pieces) m.parser q c in
      let quiet = Calm-quiet _ m.parser q c off in
      let read = record m { timer_reads = m.timer_reads + 1 } in
      let polled = record read { ring = (poll_uart w read).ring; polls = m.polls + 1 } in
      let (r, taken, h') =
        consume-Calm w piece rxbuf_size polled p lost (omega arith) here
          (poll_uart-fit w read piece lost same short here h) left in
      let rest =
        receive-Lapsed t0 pieces n (record polled { parser = p; ring = r }) q lost (omega arith)
          there h' right off later in
      let reads : m.timer_reads + 1 + length pieces + 1 ≡ m.timer_reads + suc (length pieces) + 1 =
        omega arith in
      let polls : m.polls + 1 + length pieces ≡ m.polls + suc (length pieces) = omega arith in
      record {
        ring = rest.ring;
        ended =
            receive-waiting w t0 n m quiet (omega arith) soon
            ∙ ap (λ o. o >>= λ m'. receive w t0 n m')
                (ap (consume w rxbuf_size) (poll_uart-polled w read) ∙ taken)
            ∙ rest.ended
            ∙ (λ i. some (record m {
              parser = q;
              ring = rest.ring;
              timer_reads = reads i;
              polls = polls i;
            }));
        empty = rest.empty;
      }

-- What is left of a parser by up to three bytes of a word.
pub record Partial {C : Type 0} (p : Parser C) (bytes : List ℕ) : Type 0 where
  pub buffer : List ℕ
  pub nbytes : ℕ
  pub room : length buffer ≡ 4
  pub fed : feed p bytes ≡ some (record p { bytes = buffer; nbytes = nbytes })

loaded-Partial :
    {C : Type 0} (buffer bytes : List ℕ) (p : Parser C)
    → length buffer ≡ 4
    → length bytes < 4
    → Partial (loaded p buffer) bytes
unfolding feed feed_byte gather
loaded-Partial (o0 ∷ o1 ∷ o2 ∷ o3 ∷ []) [] p h k = record {
  buffer = o0 ∷ o1 ∷ o2 ∷ o3 ∷ [];
  nbytes = 0;
  room = refl;
  fed = refl;
}
loaded-Partial (o0 ∷ o1 ∷ o2 ∷ o3 ∷ []) (a ∷ []) p h k = record {
  buffer = a ∷ o1 ∷ o2 ∷ o3 ∷ [];
  nbytes = 1;
  room = refl;
  fed = refl;
}
loaded-Partial (o0 ∷ o1 ∷ o2 ∷ o3 ∷ []) (a ∷ b ∷ []) p h k = record {
  buffer = a ∷ b ∷ o2 ∷ o3 ∷ [];
  nbytes = 2;
  room = refl;
  fed = refl;
}
loaded-Partial (o0 ∷ o1 ∷ o2 ∷ o3 ∷ []) (a ∷ b ∷ c ∷ []) p h k = record {
  buffer = a ∷ b ∷ c ∷ o3 ∷ [];
  nbytes = 3;
  room = refl;
  fed = refl;
}
loaded-Partial (o0 ∷ o1 ∷ o2 ∷ o3 ∷ []) (a ∷ b ∷ c ∷ d ∷ bytes) p h k = absurd (omega arith)
loaded-Partial [] bytes p h k = absurd (omega arith)
loaded-Partial (o0 ∷ []) bytes p h k = absurd (omega arith)
loaded-Partial (o0 ∷ o1 ∷ []) bytes p h k = absurd (omega arith)
loaded-Partial (o0 ∷ o1 ∷ o2 ∷ []) bytes p h k = absurd (omega arith)
loaded-Partial (o0 ∷ o1 ∷ o2 ∷ o3 ∷ o4 ∷ os) bytes p h k = absurd (omega arith)

pub feed-Partial :
    {C : Type 0} (p : Parser C) (bytes : List ℕ)
    → p.nbytes ≡ 0
    → p.ext_remaining ≡ 0
    → length p.bytes ≡ 4
    → length bytes < 4
    → Partial p bytes
feed-Partial p bytes n r room short =
    let start : p ≡ loaded p p.bytes = λ i. record p { nbytes = n i; ext_remaining = r i } in
    subst (λ s. Partial s bytes) (sym start) (loaded-Partial p.bytes bytes p room short)
