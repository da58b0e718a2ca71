-- ===== src/Emu/Shim.antt =====
-- The shim of the receive ring answers as the ring of src/uart_rx.c does.
use mathlib.Core.Path.{subst}
use mathlib.Core.List.{append_assoc, append-nil}
use vekterm.Base.{
  ℕ, ◌+◌, ◌≤◌, ◌<◌, ◌==◌, ◌%◌, ◌≡◌, refl, arith, true, false, Option, some, List, [], ◌∷◌, ◌++◌,
  length, length-append, length-set, concat, sym, ◌∙◌, u8, map,
}
use vekterm.UartRx.Ring.{Ring}
use vekterm.UartRx.Cells.{wrap, Spans, Spans-extend}
use vekterm.UartRx.Queue.{
  Queue, capacity, arrivals, arrivals_fit, Op, restart, fetch, test, count, polling, flushing,
  Answer, answer, serve, answers, run,
}
use vekterm.UartRx.Refine.{Holds, run-answers}
use vekterm.Emu.Wire.{
  rb_size, Wire, store, store_all, uart_rx_init, uart_rx_poll, uart_rx_flush, uart_rx_pending,
  uart_rx_get, uart_rx_overruns, emulate, emulates,
}

-- The shim holds these bytes.
pub record Mirrors (w : Wire) (held : List ℕ) : Type 0 where
  pub room : length w.rb ≡ rb_size
  pub tail_inside : w.rt < rb_size
  pub bounded : length held < rb_size
  pub head_at : w.rh ≡ wrap rb_size (w.rt + length held)
  pub bytes : Spans rb_size w.rb w.rt held

mod-wrap : (x : ℕ) → x < 131072 → x % rb_size ≡ wrap rb_size x
mod-wrap x h = ground arith

store-Mirrors :
    (w : Wire) (held : List ℕ) (b : ℕ)
    → length held < 65535
    → Mirrors w held
    → Mirrors (store w b) (held ++ (u8 b ∷ []))
unfolding store
store-Mirrors w held b short h =
    let longer = length-append held (u8 b ∷ []) in
    let apart : ((w.rh + 1) % rb_size == w.rt) ≡ false = ground (arith, h.head_at, h.tail_inside) in
    rw apart (record {
      room = omega (arith, length-set w.rb w.rh (u8 b), h.room);
      tail_inside = h.tail_inside;
      bounded = omega arith;
      head_at = ground (arith, h.head_at, h.tail_inside);
      bytes =
          Spans-extend rb_size w.rb held w.rt w.rh (u8 b) h.room h.tail_inside h.bounded h.head_at
            h.bytes;
    })

store_all-Mirrors :
    (buf : List ℕ) (w : Wire) (held : List ℕ)
    → length held + length buf < rb_size
    → Mirrors w held
    → Mirrors (store_all w buf) (held ++ map u8 buf)
unfolding store_all
store_all-Mirrors [] w held short h = subst (Mirrors w) (sym (append-nil held)) h
store_all-Mirrors (b ∷ buf) w held short h =
    let longer = length-append held (u8 b ∷ []) in
    subst (Mirrors (store_all (store w b) buf)) (append_assoc held (u8 b ∷ []) (map u8 buf)) (
      store_all-Mirrors buf (store w b) (held ++ (u8 b ∷ [])) (omega arith)
        (store-Mirrors w held b (omega arith) h))

store_all-append :
    (xs ys : List ℕ) (w : Wire) → store_all w (xs ++ ys) ≡ store_all (store_all w xs) ys
unfolding store_all
store_all-append [] ys w = refl
store_all-append (x ∷ xs) ys w = store_all-append xs ys (store w x)

-- However the bytes are cut into reads.
uart_rx_poll-concat :
    (reads : List (List ℕ)) (w : Wire) → uart_rx_poll w reads ≡ store_all w (concat reads)
unfolding uart_rx_poll store_all
uart_rx_poll-concat [] w = refl
uart_rx_poll-concat (buf ∷ reads) w =
    uart_rx_poll-concat reads (store_all w buf) ∙ sym (store_all-append buf (concat reads) w)

-- No byte is lost: what comes has room in the ring of src/uart_rx.c.
abbrev pub Fits : Queue → Op → Type 0
Fits q (polling fifo) = length q.held + length fifo ≤ capacity
Fits q (flushing fifo) = length q.held + length fifo ≤ capacity
Fits q _ = Unit

abbrev pub IsLossless : Queue → List Op → Type 0
IsLossless q [] = Unit
IsLossless q (o ∷ ops) = Fits q o × IsLossless (serve q o) ops

-- The shim holds the queue, which has lost nothing.
pub record IsShim (w : Wire) (q : Queue) : Type 0 where
  pub mirrors : Mirrors w q.held
  pub none_lost : q.lost ≡ 0

emptied :
    (w : Wire) (n : ℕ)
    → length w.rb ≡ rb_size
    → n < rb_size
    → Mirrors (record w { rh = n; rt = n }) []
emptied w n room inside = record {
  room = room;
  tail_inside = inside;
  bounded = omega arith;
  head_at = ground arith;
  bytes = tt;
}

module _ (reads : List ℕ → List (List ℕ))
    (whole : (fifo : List ℕ) → concat (reads fifo) ≡ fifo) where
  -- An operation answers as the queue does.
  abbrev Emulates : Queue → Op → Option (Answer × Wire) → Type 0
  Emulates q o done = (w : Wire) × (done ≡ some (answer q o, w)) × IsShim w (serve q o)

  polled-IsShim :
      (w : Wire) (q : Queue) (fifo : List ℕ)
      → length q.held + length fifo ≤ capacity
      → IsShim w q
      → IsShim (uart_rx_poll w (reads fifo)) (arrivals q fifo)
  polled-IsShim w q fifo room h =
      let mirrored = store_all-Mirrors fifo w q.held (omega arith) h.mirrors in
      rw (uart_rx_poll-concat (reads fifo) w, whole fifo, arrivals_fit fifo q.held q.lost room)
        (record { mirrors = mirrored; none_lost = h.none_lost })

  fetched :
      (w : Wire) (held : List ℕ) (lost : ℕ)
      → IsShim w (record { held = held; lost = lost })
      → Emulates (record { held = held; lost = lost }) fetch (emulate reads w fetch)
  unfolding emulate uart_rx_get
  fetched w [] lost h =
      let level : (w.rh == w.rt) ≡ true =
        ground (arith, h.mirrors.head_at, h.mirrors.tail_inside) in
      (w, rw level refl, h)
  fetched w (c ∷ held) lost h =
      let m = h.mirrors in
      let apart : (w.rh == w.rt) ≡ false = ground (arith, m.head_at, m.tail_inside, m.bounded) in
      (
        record w { rt = (w.rt + 1) % rb_size },
        rw (apart, m.bytes.0) refl,
        record {
          mirrors = record {
            room = m.room;
            tail_inside = omega arith;
            bounded = omega (arith, m.bounded);
            head_at = ground (arith, m.head_at, m.tail_inside);
            bytes = rw (mod-wrap (w.rt + 1) (omega (arith, m.tail_inside))) m.bytes.1;
          };
          none_lost = h.none_lost;
        },
      )

  tested :
      (w : Wire) (held : List ℕ) (lost : ℕ)
      → IsShim w (record { held = held; lost = lost })
      → Emulates (record { held = held; lost = lost }) test (emulate reads w test)
  unfolding emulate uart_rx_pending
  tested w [] lost h =
      let level : (w.rh == w.rt) ≡ true =
        ground (arith, h.mirrors.head_at, h.mirrors.tail_inside) in
      (w, rw level refl, h)
  tested w (c ∷ held) lost h =
      let m = h.mirrors in
      let apart : (w.rh == w.rt) ≡ false = ground (arith, m.head_at, m.tail_inside, m.bounded) in
      (w, rw apart refl, h)

  head_inside : (w : Wire) (held : List ℕ) → Mirrors w held → w.rh < rb_size
  head_inside w held m = ground (arith, m.head_at, m.tail_inside, m.bounded)

  flushed :
      (w : Wire) (q : Queue) (fifo : List ℕ)
      → length q.held + length fifo ≤ capacity
      → IsShim w q
      → Emulates q (flushing fifo) (emulate reads w (flushing fifo))
  unfolding emulate uart_rx_flush
  flushed w q fifo room h =
      let polled = polled-IsShim w q fifo room h in
      let m = polled.mirrors in
      let v = uart_rx_poll w (reads fifo) in
      (
        record v { rt = v.rh },
        refl,
        record {
          mirrors = emptied v v.rh m.room (head_inside v _ m);
          none_lost = polled.none_lost;
        },
      )

  emulate-Emulates :
      (w : Wire) (q : Queue) (o : Op) → IsShim w q → Fits q o → Emulates q o (emulate reads w o)
  unfolding emulate uart_rx_init uart_rx_overruns
  emulate-Emulates w q restart h fits = (
    uart_rx_init w,
    refl,
    record { mirrors = emptied w 0 h.mirrors.room (omega arith); none_lost = refl },
  )
  emulate-Emulates w q fetch h fits = fetched w q.held q.lost h
  emulate-Emulates w q test h fits = tested w q.held q.lost h
  emulate-Emulates w q count h fits = (w, rw h.none_lost refl, h)
  emulate-Emulates w q (polling fifo) h fits =
      (uart_rx_poll w (reads fifo), refl, polled-IsShim w q fifo fits h)
  emulate-Emulates w q (flushing fifo) h fits = flushed w q fifo fits h

  emulates-answers :
      (ops : List Op) (w : Wire) (q : Queue)
      → IsShim w q
      → IsLossless q ops
      → emulates reads w ops ≡ some (answers q ops)
  unfolding emulates
  emulates-answers [] w q h room = refl
  emulates-answers (o ∷ ops) w q h (fits, room) =
      let (w', done, h') = emulate-Emulates w q o h fits in
      rw (done, emulates-answers ops w' (serve q o) h' room) refl

  -- When no byte finds the ring of src/uart_rx.c full, the shim answers whatever is done with it, in
  -- whatever order, as that ring does, however the terminal cuts the bytes into reads: a poll, a
  -- flush, a test, a byte or its absence, and the number of lost bytes, which is zero.
  pub emulates-run :
      (ops : List Op) (w : Wire) (r : Ring) (q : Queue)
      → IsShim w q
      → Holds r q
      → IsLossless q ops
      → emulates reads w ops ≡ run r ops
  emulates-run ops w r q h real room =
      emulates-answers ops w q h room ∙ sym (run-answers ops r q real)
