-- ===== src/Signals/Queue/Exclusion.antt =====
-- Whatever the interleaving, no id is twice on its way, and the queue keeps its bound.
use execution_engine_multi.Prelude.{
  member, member-set_add, member-discard, ℕ, zero, suc, ◌+◌, ◌≤◌, ◌≡◌, String, ◌==◌, eq_iff, Bool,
  true, false, List, [], ◌∷◌, ◌++◌, length, length-append, arith,
}
use execution_engine_multi.Domain.Signal.{InboundSignal}
use execution_engine_multi.Signals.Queue.{
  max_queue_size, Item, entry, sentinel, Worker, idle, polling, holding, running, gone, Shared,
  QueueState, Move, put, start, stop, pause, resume, work, put_signal, stamp, request_stop,
  take_item, step_worker, advance, apply, run, initial,
}

abbrev bit : Bool → ℕ
bit true = 1
bit false = 0

module _ {F : Type 0} where
  -- How often an id waits in the queue, and how often a worker has it.
  abbrev pub in_queue : String → List (Item F) → ℕ
  in_queue x [] = 0
  in_queue x (entry s ∷ q) = bit (s.id == x) + in_queue x q
  in_queue x (sentinel ∷ q) = in_queue x q

  abbrev pub at_worker : String → Worker F → ℕ
  at_worker x idle = 0
  at_worker x polling = 0
  at_worker x (holding s) = bit (s.id == x)
  at_worker x (running s) = bit (s.id == x)
  at_worker x gone = 0

  abbrev pub at_workers : String → List (Worker F) → ℕ
  at_workers x [] = 0
  at_workers x (w ∷ ws) = at_worker x w + at_workers x ws

  -- The number of times that an id is waiting or being executed.
  abbrev pub in_flight : String → QueueState F → ℕ
  in_flight x st = in_queue x st.shared.queue + at_workers x st.workers

  in_queue-append :
      (x : String) (p q : List (Item F)) → in_queue x (p ++ q) ≡ in_queue x p + in_queue x q
  in_queue-append x [] q = omega arith
  in_queue-append x (entry s ∷ p) q = omega (arith, in_queue-append x p q)
  in_queue-append x (sentinel ∷ p) q = in_queue-append x p q

  at_workers-append :
      (x : String) (p q : List (Worker F)) → at_workers x (p ++ q) ≡ at_workers x p + at_workers x q
  at_workers-append x [] q = omega arith
  at_workers-append x (w ∷ p) q = omega (arith, at_workers-append x p q)

-- Every id on its way is reserved, and is on its way once.
abbrev pub IsExclusive : {F : Type 0} → String → QueueState F → Type 0
IsExclusive x st = in_flight x st ≤ bit (member x st.shared.queued_ids)

module _ {F : Type 0} (x : String) where
  -- One `get` moves an id from the queue to the worker.
  take_item-moves :
      (q : List (Item F)) (sh : Shared F)
      → sh.queue ≡ q
      → let (w', sh') = take_item q sh in
        (at_worker x w' + in_queue x sh'.queue ≡ in_queue x q)
        × (sh'.queued_ids ≡ sh.queued_ids)
        × (length sh'.queue ≤ length q)
  unfolding take_item
  take_item-moves [] sh e = ground arith
  take_item-moves (entry s ∷ q) sh e = ground arith
  take_item-moves (sentinel ∷ q) sh e = ground arith

  -- A step of a worker moves an id from the queue to itself, or ends its reservation.
  step_worker-moves :
      (w : Worker F) (sh : Shared F)
      → let (w', sh') = step_worker w sh in
        (at_worker x w' + in_queue x sh'.queue + bit (member x sh.queued_ids)
          ≤ at_worker x w + in_queue x sh.queue + bit (member x sh'.queued_ids))
        × (length sh'.queue ≤ length sh.queue)
  unfolding step_worker
  step_worker-moves idle sh = ground arith
  step_worker-moves polling sh = ground (arith, take_item-moves sh.queue sh)
  step_worker-moves (holding s) sh = ground arith
  step_worker-moves (running s) sh = ground (arith, member-discard x s.id sh.queued_ids)
  step_worker-moves gone sh = ground arith

  advance-moves :
      (i : ℕ) (ws : List (Worker F)) (sh : Shared F)
      → let (ws', sh') = advance i ws sh in
        (at_workers x ws' + in_queue x sh'.queue + bit (member x sh.queued_ids)
          ≤ at_workers x ws + in_queue x sh.queue + bit (member x sh'.queued_ids))
        × (length sh'.queue ≤ length sh.queue)
  unfolding advance
  advance-moves i [] sh = ground arith
  advance-moves zero (w ∷ ws) sh = ground (arith, step_worker-moves w sh)
  advance-moves (suc i) (w ∷ ws) sh = ground (arith, advance-moves i ws sh)

  put_signal-IsExclusive :
      (now : ℕ) (s : InboundSignal F) (sh : Shared F) (ws : List (Worker F))
      → in_queue x sh.queue + at_workers x ws ≤ bit (member x sh.queued_ids)
      → let sh' = put_signal now s sh in
        in_queue x sh'.queue + at_workers x ws ≤ bit (member x sh'.queued_ids)
  unfolding put_signal stamp
  put_signal-IsExclusive now s sh ws h = ground (
    arith,
    member-set_add x s.id sh.queued_ids,
    in_queue-append x sh.queue (entry (stamp now s) ∷ []),
    eq_iff s.id x,
  )

  request_stop-IsExclusive :
      (sh : Shared F) (ws : List (Worker F))
      → in_queue x sh.queue + at_workers x ws ≤ bit (member x sh.queued_ids)
      → let sh' = request_stop sh in
        in_queue x sh'.queue + at_workers x ws ≤ bit (member x sh'.queued_ids)
  unfolding request_stop
  request_stop-IsExclusive sh ws h = ground (arith, in_queue-append x sh.queue (sentinel ∷ []))

  -- Every move keeps the reservations exclusive.
  apply-IsExclusive :
      (m : Move F) (st : QueueState F) → IsExclusive x st → IsExclusive x (apply m st)
  unfolding apply
  apply-IsExclusive (put now s) st h = put_signal-IsExclusive now s st.shared st.workers h
  apply-IsExclusive start st h = omega (arith, at_workers-append x st.workers (idle ∷ []))
  apply-IsExclusive stop st h = request_stop-IsExclusive st.shared st.workers h
  apply-IsExclusive pause st h = h
  apply-IsExclusive resume st h = h
  apply-IsExclusive (work i) st h = omega (arith, advance-moves i st.workers st.shared)

  run-IsExclusive :
      (ms : List (Move F)) (st : QueueState F) → IsExclusive x st → IsExclusive x (run ms st)
  unfolding run
  run-IsExclusive [] st h = h
  run-IsExclusive (m ∷ ms) st h = run-IsExclusive ms (apply m st) (apply-IsExclusive m st h)

bit-le : (b : Bool) → bit b ≤ 1
bit-le true = omega arith
bit-le false = omega arith

module _ {F : Type 0} where
  -- From a new queue, after any moves of any number of producers and workers, starts, stops and
  -- pauses included, no id is at once twice in the queue or in the hands of a worker.
  pub run_exclusive : (ms : List (Move F)) (x : String) → in_flight x (run ms initial) ≤ 1
  unfolding initial
  run_exclusive ms x = omega (
    arith,
    run-IsExclusive x ms initial (omega arith),
    bit-le (member x (run ms initial).shared.queued_ids),
  )

  apply-length :
      (m : Move F) (st : QueueState F)
      → length st.shared.queue ≤ max_queue_size
      → length (apply m st).shared.queue ≤ max_queue_size
  unfolding apply put_signal stamp request_stop
  apply-length (put now s) st h =
      ground (arith, length-append st.shared.queue (entry (stamp now s) ∷ []))
  apply-length start st h = h
  apply-length stop st h = ground (arith, length-append st.shared.queue (sentinel ∷ []))
  apply-length pause st h = h
  apply-length resume st h = h
  apply-length (work i) st h = omega (arith, advance-moves "" i st.workers st.shared)

  run_bounded_from :
      (ms : List (Move F)) (st : QueueState F)
      → length st.shared.queue ≤ max_queue_size
      → length (run ms st).shared.queue ≤ max_queue_size
  unfolding run
  run_bounded_from [] st h = h
  run_bounded_from (m ∷ ms) st h = run_bounded_from ms (apply m st) (apply-length m st h)

  -- The queue never holds more than fifty entries, sentinels included.
  run_bounded : (ms : List (Move F)) → length (run ms initial).shared.queue ≤ max_queue_size
  unfolding initial
  run_bounded ms = run_bounded_from ms initial (omega arith)
