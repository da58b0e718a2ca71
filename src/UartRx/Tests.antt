-- ===== src/UartRx/Tests.antt =====
-- A ring at work.
use vekterm.Base.{◌≡◌, refl, true, false, some, List, [], ◌∷◌, replicate, length-replicate}
use vekterm.Base.Int.{pos, negsuc}
use vekterm.UartRx.Ring.{Ring, reset_ring}
use vekterm.UartRx.Queue.{
  Op, fetch, test, count, polling, flushing, silence, byte, ready, dropped, answers, run, arrivals,
  arrive, Queue,
}
use vekterm.UartRx.Refine.{Holds, reset_ring-Holds, run-answers}

-- The static array is zero before the program starts.
abbrev boot : Ring
boot = record { rxbuf = replicate 16384 0; rx_head = 0; rx_tail = 0; rx_drops = 0 }

abbrev empty : Queue
empty = record { held = []; lost = 0 }

boot-Holds : Holds (reset_ring boot) empty
boot-Holds = reset_ring-Holds boot (length-replicate 16384 0)

abbrev session : List Op
session =
    polling (65 ∷ 322 ∷ []) ∷ fetch ∷ test ∷ fetch ∷ fetch ∷ flushing (7 ∷ []) ∷ test ∷ count ∷ []

answers-session :
    answers empty session
    ≡ silence
      ∷ byte (pos 65)
      ∷ ready true
      ∷ byte (pos 66)
      ∷ byte (negsuc 0)
      ∷ silence
      ∷ ready false
      ∷ dropped 0
      ∷ []
unfolding arrivals arrive
answers-session = refl

run-answers_example : run (reset_ring boot) session ≡ some (answers empty session)
run-answers_example = run-answers session (reset_ring boot) empty boot-Holds
