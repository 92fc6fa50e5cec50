-- ===== src/Signals/Queue/Fifo.antt =====
-- With one worker that is not being stopped, signals are executed in the order of their arrival,
-- one at a time, and none is lost.
use mathlib.Core.List.{append_assoc, append-nil}
use execution_engine_multi.Prelude.{
  ℕ, zero, suc, ◌≡◌, refl, ap, sym, ◌∙◌, Bool, true, false, List, [], ◌∷◌, ◌++◌, All, arith,
  Bool-cases, inl, inr, member, if◌then◌else◌,
}
use execution_engine_multi.Domain.Signal.{InboundSignal}
use execution_engine_multi.Signals.Queue.{
  Item, entry, sentinel, Worker, idle, polling, holding, running, gone, Shared, QueueState, Move,
  put, start, stop, pause, resume, work, put_signal, stamp, take_item, step_worker, advance, apply,
  run, has_room,
}

module _ {F : Type 0} where
  abbrev pub waiting : List (Item F) → List (InboundSignal F)
  waiting [] = []
  waiting (entry s ∷ q) = s ∷ waiting q
  waiting (sentinel ∷ q) = waiting q

  abbrev pub held : Worker F → List (InboundSignal F)
  held idle = []
  held polling = []
  held (holding s) = s ∷ []
  held (running s) = []
  held gone = []

  -- What was executed, what the worker is about to execute, and what waits.
  abbrev pub ledger : Shared F → Worker F → List (InboundSignal F)
  ledger sh w = sh.handled ++ (held w ++ waiting sh.queue)

  -- The moves that neither start nor stop a worker.
  abbrev pub is_quiet : Move F → Bool
  is_quiet start = false
  is_quiet stop = false
  is_quiet _ = true

  waiting-append : (p q : List (Item F)) → waiting (p ++ q) ≡ waiting p ++ waiting q
  waiting-append [] q = refl
  waiting-append (entry s ∷ p) q = ap (◌∷◌ s) (waiting-append p q)
  waiting-append (sentinel ∷ p) q = waiting-append p q

  -- The signals that a move puts into the queue: one that is not in flight and finds room.
  abbrev pub accepted_now : Move F → Shared F → List (InboundSignal F)
  accepted_now (put now s) sh =
      if member s.id sh.queued_ids then [] else if has_room sh then stamp now s ∷ [] else []
  accepted_now _ sh = []

  -- Those of a run, in their order.
  abbrev pub accepted : List (Move F) → QueueState F → List (InboundSignal F)
  accepted [] st = []
  accepted (m ∷ ms) st = accepted_now m st.shared ++ accepted ms (apply m st)

  put_signal-ledger :
      (now : ℕ) (s : InboundSignal F) (sh : Shared F) (w : Worker F)
      → ledger (put_signal now s sh) w ≡ ledger sh w ++ accepted_now (put now s) sh
  unfolding put_signal
  put_signal-ledger now s sh w = elim (Bool-cases (member s.id sh.queued_ids)) [
    | inl known ↦ rw known (sym (append-nil _))
    | inr new ↦ elim (Bool-cases (has_room sh)) [
      | inl room ↦
          rw (new, room, waiting-append sh.queue (entry (stamp now s) ∷ [])) (simp append_assoc)
      | inr full ↦ rw (new, full) (sym (append-nil _))
    ]
  ]

  take_item-ledger :
      (q : List (Item F)) (sh : Shared F)
      → sh.queue ≡ q
      → let (w', sh') = take_item q sh in ledger sh' w' ≡ sh.handled ++ waiting q
  unfolding take_item
  take_item-ledger [] sh e = rw e
  take_item-ledger (entry s ∷ q) sh e = refl
  take_item-ledger (sentinel ∷ q) sh e = refl

  step_worker-ledger :
      (w : Worker F) (sh : Shared F)
      → sh.is_stopped ≡ false
      → let (w', sh') = step_worker w sh in ledger sh' w' ≡ ledger sh w
  unfolding step_worker
  step_worker-ledger idle sh live = simp live
  step_worker-ledger polling sh live = take_item-ledger sh.queue sh refl
  step_worker-ledger (holding s) sh live = elim (Bool-cases sh.is_paused) [
    | inl paused ↦ simp (live, paused)
    | inr free ↦ simp (live, free, append_assoc)
  ]
  step_worker-ledger (running s) sh live = refl
  step_worker-ledger gone sh live = refl

  step_worker-is_stopped :
      (w : Worker F) (sh : Shared F) → (step_worker w sh).1.is_stopped ≡ sh.is_stopped
  unfolding step_worker take_item
  step_worker-is_stopped idle sh = ground arith
  step_worker-is_stopped polling sh = take_case sh.queue
    where
      take_case : (q : List (Item F)) → (take_item q sh).1.is_stopped ≡ sh.is_stopped
      take_case [] = refl
      take_case (entry s ∷ q) = refl
      take_case (sentinel ∷ q) = refl
  step_worker-is_stopped (holding s) sh = ground arith
  step_worker-is_stopped (running s) sh = refl
  step_worker-is_stopped gone sh = refl

  put_signal-is_stopped :
      (now : ℕ) (s : InboundSignal F) (sh : Shared F)
      → (put_signal now s sh).is_stopped ≡ sh.is_stopped
  unfolding put_signal
  put_signal-is_stopped now s sh = ground arith

  -- A state of one worker.
  abbrev pub alone : Shared F → Worker F → QueueState F
  alone sh w = record { shared = sh; workers = w ∷ [] }

  -- The state is again one of one worker, which is not being stopped, and these signals have come at
  -- the end of the ledger.
  abbrev pub Quietly : Shared F → Worker F → List (InboundSignal F) → QueueState F → Type 0
  Quietly sh w extra st =
      (sh' : Shared F) × (w' : Worker F) × (st ≡ alone sh' w')
      × (sh'.is_stopped ≡ false)
      × (ledger sh' w' ≡ ledger sh w ++ extra)

  apply_quiet :
      (m : Move F) (sh : Shared F) (w : Worker F)
      → is_quiet m ≡ true
      → sh.is_stopped ≡ false
      → Quietly sh w (accepted_now m sh) (apply m (alone sh w))
  unfolding apply advance
  apply_quiet (put now s) sh w q live = (
    put_signal now s sh,
    w,
    refl,
    put_signal-is_stopped now s sh ∙ live,
    put_signal-ledger now s sh w,
  )
  apply_quiet start sh w q live = cc
  apply_quiet stop sh w q live = cc
  apply_quiet pause sh w q live =
      (record sh { is_paused = true }, w, refl, live, sym (append-nil _))
  apply_quiet resume sh w q live =
      (record sh { is_paused = false }, w, refl, live, sym (append-nil _))
  apply_quiet (work zero) sh w q live = (
    (step_worker w sh).1,
    (step_worker w sh).0,
    refl,
    step_worker-is_stopped w sh ∙ live,
    step_worker-ledger w sh live ∙ sym (append-nil _),
  )
  apply_quiet (work (suc i)) sh w q live = (sh, w, refl, live, sym (append-nil _))

  -- One worker, no start and no stop: the executed signals, the one at hand and the waiting ones, in
  -- this order, are those of before followed by the accepted signals of the run, each once and in the
  -- order of their arrival. No move in the run sets the stop flag.
  pub run_fifo :
      (ms : List (Move F)) (sh : Shared F) (w : Worker F)
      → All (λ m. is_quiet m ≡ true) ms
      → sh.is_stopped ≡ false
      → Quietly sh w (accepted ms (alone sh w)) (run ms (alone sh w))
  unfolding run
  run_fifo [] sh w q live = (sh, w, refl, live, sym (append-nil _))
  run_fifo (m ∷ ms) sh w q live =
      let (sh', w', e, live', c) = apply_quiet m sh w q.0 live in
      let (sh2, w2, e2, live2, c2) = run_fifo ms sh' w' q.1 live' in
      let first = accepted_now m sh in
      (
        sh2,
        w2,
        ap (run ms) e ∙ e2,
        live2,
        c2
            ∙ ap (λ l. l ++ accepted ms (alone sh' w')) c
            ∙ append_assoc (ledger sh w) first (accepted ms (alone sh' w'))
            ∙ ap (λ st. ledger sh w ++ (first ++ accepted ms st)) (sym e),
      )
