-- ===== src/Checks/Queue.antt =====
-- The theorems of the signal queue on short runs.
use execution_engine_multi.Prelude.{◌≤◌, refl, false, List, [], ◌∷◌}
use execution_engine_multi.Prelude.Int.{ℤ}
use execution_engine_multi.Checks.Samples.{signal}
use execution_engine_multi.Domain.Signal.{InboundSignal, long}
use execution_engine_multi.Signals.Queue.{Shared, idle, Move, put, start, stop, work, run, initial}
use execution_engine_multi.Signals.Queue.Exclusion.{in_flight, run_exclusive}
use execution_engine_multi.Signals.Queue.Fifo.{accepted, alone, Quietly, run_fifo}

abbrev one : InboundSignal ℤ
one = signal "s1" long

abbrev two : InboundSignal ℤ
two = signal "s2" long

-- Two workers, and the same signal is put again while the first worker has it.
abbrev moves : List (Move ℤ)
moves =
    start
    ∷ put 1 one
    ∷ work 0
    ∷ work 0
    ∷ put 2 one
    ∷ stop
    ∷ start
    ∷ put 3 two
    ∷ work 1
    ∷ work 1
    ∷ work 0
    ∷ work 0
    ∷ put 4 one
    ∷ []

run_exclusive_example : in_flight "s1" (run moves initial) ≤ 1
run_exclusive_example = run_exclusive moves "s1"

abbrev empty : Shared ℤ
empty = record { queue = []; queued_ids = []; is_stopped = false; is_paused = false; handled = [] }

abbrev quiet_moves : List (Move ℤ)
quiet_moves = put 1 one ∷ put 2 two ∷ work 0 ∷ work 0 ∷ work 0 ∷ work 0 ∷ []

run_fifo_example :
    Quietly empty idle
      (accepted quiet_moves (alone empty idle))
      (run quiet_moves (alone empty idle))
run_fifo_example =
    run_fifo quiet_moves empty idle (refl, (refl, (refl, (refl, (refl, (refl, tt)))))) refl
