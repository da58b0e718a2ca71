-- ===== src/UartRx/Queue.antt =====
-- What the receive ring promises: a queue of at most 16383 bytes, in the order of their arrival,
-- and the number of bytes that found it full.
use mathlib.Core.List.{append_assoc, append-nil}
use vekterm.Base.{
  take-all, sym, ap, ◌∙◌, zero, suc, ◌-◌, ◌<◌, ◌≤◌, ◌^◌, ◌≡◌, arith, take, map, le→ltb, lt→ltb,
  length-append, refl, ℕ, ◌+◌, Bool, Option, some, List, [], ◌∷◌, ◌++◌, ltb, if◌then◌else◌, ◌>>=◌,
  length, u8, u32,
}
use vekterm.Base.Int.{ℤ, pos, negsuc}
use vekterm.UartRx.Ring.{Ring, reset_ring, poll, flush, pending, get, overruns}

abbrev pub capacity : ℕ
capacity = 16383

pub record Queue : Type 0 where
  pub held : List ℕ
  pub lost : ℕ

-- A byte joins the end of the queue, or is lost.
unfoldable pub arrive : Queue → ℕ → Queue
arrive q io =
    if ltb (length q.held) capacity
    then record q { held = q.held ++ (u8 io ∷ []) }
    else record q { lost = u32 (q.lost + 1) }

unfoldable pub arrivals : Queue → List ℕ → Queue
arrivals q [] = q
arrivals q (io ∷ fifo) = arrivals (arrive q io) fifo

-- What the receiver does with the ring; a poll or a flush finds some bytes in the hardware.
pub data Op : Type 0 where
  restart fetch test count : Op
  polling flushing : List ℕ → Op

-- What an operation tells its caller.
pub data Answer : Type 0 where
  silence : Answer
  byte : ℤ → Answer
  ready : Bool → Answer
  dropped : ℕ → Answer

abbrev pub is_nonempty : List ℕ → Bool
is_nonempty [] = Bool.false
is_nonempty (c ∷ held) = Bool.true

abbrev pub first : List ℕ → ℤ
first [] = negsuc 0
first (c ∷ held) = pos c

abbrev pub rest : List ℕ → List ℕ
rest [] = []
rest (c ∷ held) = held

-- The queue after an operation, and the answer to it.
abbrev pub serve : Queue → Op → Queue
serve q restart = record { held = []; lost = 0 }
serve q fetch = record q { held = rest q.held }
serve q test = q
serve q count = q
serve q (polling fifo) = arrivals q fifo
serve q (flushing fifo) = record (arrivals q fifo) { held = [] }

abbrev pub answer : Queue → Op → Answer
answer q fetch = byte (first q.held)
answer q test = ready (is_nonempty q.held)
answer q count = dropped q.lost
answer q _ = silence

abbrev pub answers : Queue → List Op → List Answer
answers q [] = []
answers q (o ∷ ops) = answer q o ∷ answers (serve q o) ops

-- The same by the code.
unfoldable pub perform : Ring → Op → Option (Answer × Ring)
perform r restart = some (silence, reset_ring r)
perform r fetch = do a ← get r; some (byte a.0, a.1)
perform r test = some (ready (pending r), r)
perform r count = some (dropped (overruns r), r)
perform r (polling fifo) = some (silence, poll r fifo)
perform r (flushing fifo) = some (silence, flush r fifo)

unfoldable pub run : Ring → List Op → Option (List Answer)
run r [] = some []
run r (o ∷ ops) = do a ← perform r o; outs ← run a.1 ops; some (a.0 ∷ outs)

abbrev queue_of : List ℕ → ℕ → Queue
queue_of held lost = record { held = held; lost = lost }

same_queue : {xs ys : List ℕ} {m n : ℕ} → xs ≡ ys → m ≡ n → queue_of xs m ≡ queue_of ys n
same_queue e f = rw (e, f) refl

-- What finds `n` places free: as many bytes as that join the queue, and the others are lost.
pub arrivals_room :
    (fifo held : List ℕ) (lost n : ℕ)
    → length held + n ≡ capacity
    → lost < 2 ^ 32
    → arrivals (record { held = held; lost = lost }) fifo
      ≡ record { held = held ++ take n (map u8 fifo); lost = u32 (lost + (length fifo - n)) }
unfolding arrivals arrive
arrivals_room [] held lost n room small =
    same_queue (sym (append-nil held) ∙ ap (λ xs. held ++ xs) (sym (take-all n [] (omega arith))))
      (omega arith)
arrivals_room (io ∷ fifo) held lost zero room small =
    let full = le→ltb (length held) capacity (omega arith) in
    let later = arrivals_room fifo held (u32 (lost + 1)) 0 room (omega arith) in
    rw (full, later) (same_queue refl (omega arith))
arrivals_room (io ∷ fifo) held lost (suc n) room small =
    let free = lt→ltb (length held) capacity (omega arith) in
    let longer = length-append held (u8 io ∷ []) in
    let later = arrivals_room fifo (held ++ (u8 io ∷ [])) lost n (omega arith) small in
    rw (free, later)
      (same_queue (append_assoc held (u8 io ∷ []) (take n (map u8 fifo))) (omega arith))

-- What finds room for all of it joins the queue.
pub arrivals_fit :
    (fifo held : List ℕ) (lost : ℕ)
    → length held + length fifo ≤ capacity
    → arrivals (record { held = held; lost = lost }) fifo
      ≡ record { held = held ++ map u8 fifo; lost = lost }
unfolding arrivals arrive
arrivals_fit [] held lost room = same_queue (sym (append-nil held)) refl
arrivals_fit (c ∷ fifo) held lost room =
    let free = lt→ltb (length held) capacity (omega arith) in
    let longer = length-append held (u8 c ∷ []) in
    let later = arrivals_fit fifo (held ++ (u8 c ∷ [])) lost (omega arith) in
    rw (free, later) (same_queue (append_assoc held (u8 c ∷ []) (map u8 fifo)) refl)
