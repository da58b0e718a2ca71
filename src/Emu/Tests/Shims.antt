-- ===== src/Emu/Tests/Shims.antt =====
-- The shim of the receive ring, fed a byte at a time, and an array of segments that grows twice.
use vekterm.Base.{
  ℕ, zero, suc, ◌≤◌, ◌≡◌, refl, arith, some, List, [], ◌∷◌, ◌++◌, length-append, length-take,
  length-replicate, take, take-append_left, replicate, concat, map, ap, ◌∙◌,
}
use vekterm.UartRx.Ring.{Ring, reset_ring}
use vekterm.UartRx.Queue.{
  Queue, Op, fetch, test, count, restart, polling, flushing, arrivals, arrive, run,
}
use vekterm.UartRx.Refine.{reset_ring-Holds}
use vekterm.Emu.Wire.{Wire, rb_size, emulates}
use vekterm.Emu.Shim.{IsShim, emulates-run}
use vekterm.Emu.Capture.{Capture, IsRealloc, no_segs, on_lines, on_lines-captured}

abbrev one_by_one : List ℕ → List (List ℕ)
one_by_one fifo = map (λ b. b ∷ []) fifo

concat-one_by_one : (fifo : List ℕ) → concat (one_by_one fifo) ≡ fifo
concat-one_by_one [] = refl
concat-one_by_one (b ∷ fifo) = ap (λ bs. b ∷ bs) (concat-one_by_one fifo)

-- The static arrays are zero before the program starts.
abbrev boot : Ring
boot = record { rxbuf = replicate 16384 0; rx_head = 0; rx_tail = 0; rx_drops = 0 }

abbrev boot_wire : Wire
boot_wire = record { rb = replicate rb_size 0; rh = 0; rt = 0 }

abbrev empty : Queue
empty = record { held = []; lost = 0 }

boot_wire-IsShim : IsShim boot_wire empty
boot_wire-IsShim = record {
  mirrors = record {
    room = length-replicate rb_size 0;
    tail_inside = omega arith;
    bounded = omega arith;
    head_at = refl;
    bytes = tt;
  };
  none_lost = refl;
}

abbrev session : List Op
session = restart ∷ polling (65 ∷ 322 ∷ []) ∷ fetch ∷ test ∷ flushing (7 ∷ []) ∷ fetch ∷ count ∷ []

emulates-run_example : emulates one_by_one boot_wire session ≡ run (reset_ring boot) session
unfolding arrivals arrive
emulates-run_example =
    emulates-run one_by_one concat-one_by_one session boot_wire (reset_ring boot) empty
      boot_wire-IsShim (reset_ring-Holds boot (length-replicate 16384 0)) (ground arith)

-- A library that fills what is new with zeros.
abbrev zeroing : List ℕ → ℕ → List ℕ
zeroing xs n = take n (xs ++ replicate n 0)

take-take : (n k : ℕ) (xs : List ℕ) → k ≤ n → take k (take n xs) ≡ take k xs
take-take n zero xs h = refl
take-take zero (suc k) xs h = absurd (omega arith)
take-take (suc n) (suc k) [] h = refl
take-take (suc n) (suc k) (x ∷ xs) h = ap (λ ys. x ∷ ys) (take-take n k xs (omega arith))

zeroing-IsRealloc : IsRealloc zeroing
zeroing-IsRealloc = record {
  size = λ xs n.
      let added = length-append xs (replicate n 0) in
      length-take n (xs ++ replicate n 0) (omega (arith, length-replicate {A = ℕ} n 0));
  kept = λ xs n k h room.
      take-take n k (xs ++ replicate n 0) room ∙ take-append_left k xs (replicate n 0) h;
}

on_lines-captured_example :
    (c : Capture ℕ) × (on_lines zeroing 2 no_segs (7 ∷ 8 ∷ 9 ∷ []) ≡ some c)
    × (take c.nsegs c.segs ≡ 7 ∷ 8 ∷ 9 ∷ [])
on_lines-captured_example =
    on_lines-captured zeroing-IsRealloc 2 (7 ∷ 8 ∷ 9 ∷ []) (omega arith) (omega arith) (omega arith)
