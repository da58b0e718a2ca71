-- ===== src/UartRx/Refine.antt =====
-- The ring implements the bounded queue.
use vekterm.Base.{
  map, ◌^◌, sym, ◌∙◌, ℕ, true, false, ◌+◌, ◌-◌, ◌≤◌, ◌<◌, ◌==◌, ◌≡◌, refl, arith, Option, some,
  List, [], ◌∷◌, ◌++◌, u8, u32, length, length-append, length-set, dec_lt, take, lt→ltb, le→ltb,
}
use vekterm.Base.Int.{pos, negsuc}
use vekterm.UartRx.Ring.{
  Ring, rxbuf_size, rx_mask, push, drain_fifo, reset_ring, poll, flush, pending, get, overruns,
}
use vekterm.UartRx.Cells.{wrap, Spans, Spans-extend}
use vekterm.UartRx.Queue.{
  arrivals_room, Queue, capacity, arrive, arrivals, Op, restart, fetch, test, count, polling,
  flushing, Answer, answer, serve, answers, perform, run,
}

pub record Holds (r : Ring) (q : Queue) : Type 0 where
  pub room : length r.rxbuf ≡ rxbuf_size
  pub tail_inside : r.rx_tail < rxbuf_size
  pub bounded : length q.held ≤ capacity
  pub head_at : r.rx_head ≡ rx_mask (r.rx_tail + length q.held)
  pub bytes : Spans rxbuf_size r.rxbuf r.rx_tail q.held
  pub drops : r.rx_drops ≡ q.lost

-- The mask brings an index into the array.
mask-wrap : (x : ℕ) → x < 32768 → rx_mask x ≡ wrap rxbuf_size x
mask-wrap x h = ground arith

push-Holds : (r : Ring) (q : Queue) (io : ℕ) → Holds r q → Holds (push r io) (arrive q io)
unfolding push arrive
push-Holds r q io h = elim (dec_lt (length q.held) capacity) [
  | yes free ↦
      let longer = length-append q.held (u8 io ∷ []) in
      let apart : (rx_mask (r.rx_head + 1) == r.rx_tail) ≡ false =
        ground (arith, h.head_at, h.tail_inside) in
      rw (lt→ltb (length q.held) capacity free, apart)
        (record {
          room = omega (arith, length-set r.rxbuf r.rx_head (u8 io), h.room);
          tail_inside = h.tail_inside;
          bounded = omega arith;
          head_at = omega (arith, h.head_at);
          bytes =
              Spans-extend rxbuf_size r.rxbuf q.held r.rx_tail r.rx_head (u8 io) h.room
                h.tail_inside (omega arith) (h.head_at ∙ mask-wrap _ (omega (arith, h.tail_inside)))
                h.bytes;
          drops = h.drops;
        })
  | no full ↦
      let meets : (rx_mask (r.rx_head + 1) == r.rx_tail) ≡ true =
        ground (arith, h.head_at, h.tail_inside, h.bounded) in
      rw (le→ltb (length q.held) capacity (omega arith), meets)
        (record {
          room = h.room;
          tail_inside = h.tail_inside;
          bounded = h.bounded;
          head_at = h.head_at;
          bytes = h.bytes;
          drops = rw h.drops refl;
        })
]

pub drain_fifo-Holds :
    (fifo : List ℕ) (r : Ring) (q : Queue) → Holds r q → Holds (drain_fifo r fifo) (arrivals q fifo)
unfolding drain_fifo arrivals
drain_fifo-Holds [] r q h = h
drain_fifo-Holds (io ∷ fifo) r q h =
    drain_fifo-Holds fifo (push r io) (arrive q io) (push-Holds r q io h)

-- An empty queue is held wherever the tail stands.
emptied :
    (r : Ring) (n : ℕ)
    → length r.rxbuf ≡ rxbuf_size
    → r.rx_tail < rxbuf_size
    → r.rx_head ≡ r.rx_tail
    → r.rx_drops ≡ n
    → Holds r (record { held = []; lost = n })
emptied r n room inside level same = record {
  room = room;
  tail_inside = inside;
  bounded = omega arith;
  head_at = omega arith;
  bytes = tt;
  drops = same;
}

abbrev pub Follows : Queue → Op → Option (Answer × Ring) → Type 0
Follows q o done = (r : Ring) × (done ≡ some (answer q o, r)) × Holds r (serve q o)

-- What the ring gives when it holds these bytes.
abbrev pub Gives : ℕ → List ℕ → Ring → Type 0
Gives lost [] r = get r ≡ some (negsuc 0, r)
Gives lost (c ∷ held) r =
    (r' : Ring) × (get r ≡ some (pos c, r')) × Holds r' (record { held = held; lost = lost })

pub get-Gives :
    (r : Ring) (held : List ℕ) (lost : ℕ)
    → Holds r (record { held = held; lost = lost })
    → Gives lost held r
unfolding get
get-Gives r [] lost h =
    let level : (r.rx_head == r.rx_tail) ≡ true = ground (arith, h.head_at, h.tail_inside) in
    rw level refl
get-Gives r (c ∷ held) lost h =
    let apart : (r.rx_head == r.rx_tail) ≡ false =
      ground (arith, h.head_at, h.tail_inside, h.bounded) in
    (
      record r { rx_tail = rx_mask (r.rx_tail + 1) },
      rw (apart, h.bytes.0) refl,
      record {
        room = h.room;
        tail_inside = omega arith;
        bounded = omega (arith, h.bounded);
        head_at = omega (arith, h.head_at);
        bytes = rw (mask-wrap (r.rx_tail + 1) (omega (arith, h.tail_inside))) h.bytes.1;
        drops = h.drops;
      },
    )

fetch-Follows :
    (r : Ring) (held : List ℕ) (lost : ℕ)
    → Holds r (record { held = held; lost = lost })
    → Follows (record { held = held; lost = lost }) fetch (perform r fetch)
unfolding perform
fetch-Follows r [] lost h = (r, rw (get-Gives r [] lost h) refl, h)
fetch-Follows r (c ∷ held) lost h =
    let (r', given, h') = get-Gives r (c ∷ held) lost h in (r', rw given refl, h')

test-Follows :
    (r : Ring) (held : List ℕ) (lost : ℕ)
    → Holds r (record { held = held; lost = lost })
    → Follows (record { held = held; lost = lost }) test (perform r test)
unfolding perform pending
test-Follows r [] lost h =
    let level : (r.rx_head == r.rx_tail) ≡ true = ground (arith, h.head_at, h.tail_inside) in
    (r, rw level refl, h)
test-Follows r (c ∷ held) lost h =
    let apart : (r.rx_head == r.rx_tail) ≡ false =
      ground (arith, h.head_at, h.tail_inside, h.bounded) in
    (r, rw apart refl, h)

-- A flush empties the ring.
pub flush-Holds :
    (r : Ring) (q : Queue) (fifo : List ℕ)
    → Holds r q
    → Holds (flush r fifo) (serve q (flushing fifo))
unfolding flush poll
flush-Holds r q fifo h =
    let drained = drain_fifo-Holds fifo r q h in
    emptied (flush r fifo) (arrivals q fifo).lost drained.room (omega (arith, drained.head_at)) refl
      drained.drops

perform-Follows : (r : Ring) (q : Queue) (o : Op) → Holds r q → Follows q o (perform r o)
unfolding perform reset_ring poll flush overruns
perform-Follows r q restart h =
    (reset_ring r, refl, emptied (reset_ring r) 0 h.room (omega arith) refl refl)
perform-Follows r q fetch h = fetch-Follows r q.held q.lost h
perform-Follows r q test h = test-Follows r q.held q.lost h
perform-Follows r q count h = (r, rw h.drops refl, h)
perform-Follows r q (polling fifo) h = (drain_fifo r fifo, refl, drain_fifo-Holds fifo r q h)
perform-Follows r q (flushing fifo) h = (flush r fifo, refl, flush-Holds r q fifo h)

-- Whatever is done with the ring, in whatever order, it never reads outside its array, and its
-- callers are told what the queue of at most 16383 bytes that it holds would tell them: bytes in
-- the order of their arrival, -1 when there is none, and the number of bytes lost.
pub run-answers :
    (ops : List Op) (r : Ring) (q : Queue) → Holds r q → run r ops ≡ some (answers q ops)
unfolding run
run-answers [] r q h = refl
run-answers (o ∷ ops) r q h =
    let (r', done, h') = perform-Follows r q o h in
    rw (done, run-answers ops r' (serve q o) h') refl

-- A poll moves the bytes that the hardware holds behind those of the ring, in order, as many as
-- there is room for, and counts the others, modulo 2 ^ 32: with room for all of them none is lost.
poll-Holds :
    (r : Ring) (q : Queue) (fifo : List ℕ)
    → Holds r q
    → q.lost < 2 ^ 32
    → let room = capacity - length q.held in
      Holds (poll r fifo) (record {
        held = q.held ++ take room (map u8 fifo);
        lost = u32 (q.lost + (length fifo - room));
      })
unfolding poll
poll-Holds r q fifo h small =
    let room : ℕ = capacity - length q.held in
    let arrived = arrivals_room fifo q.held q.lost room (omega (arith, h.bounded)) small in
    rw (sym arrived) (drain_fifo-Holds fifo r q h)

-- A ring whose array has its size holds the empty queue when it has been started.
pub reset_ring-Holds :
    (r : Ring) → length r.rxbuf ≡ rxbuf_size → Holds (reset_ring r) (record { held = []; lost = 0 })
unfolding reset_ring
reset_ring-Holds r room = emptied (reset_ring r) 0 room (omega arith) refl refl
