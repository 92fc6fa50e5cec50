-- ===== src/Signals/Queue/Restart.antt =====
-- What `put` goes by, and what a stop leaves behind.
use execution_engine_multi.Prelude.{ℕ, ◌≡◌, ◌≢◌, eq_iff, true, [], ◌∷◌, arith, member}
use execution_engine_multi.Domain.Signal.{InboundSignal}
use execution_engine_multi.Signals.Queue.{
  holding, gone, Shared, put, work, put_signal, stamp, step_worker, advance, apply, run, initial,
}
use execution_engine_multi.Signals.Queue.Fifo.{waiting, alone}

module _ {F : Type 0} where
  -- Two signals for one symbol with different ids that are put into a new queue both wait, in their
  -- order.
  put_same_symbol :
      (now later : ℕ) (s t : InboundSignal F)
      → s.symbol ≡ t.symbol
      → s.id ≢ t.id
      → waiting (run (put now s ∷ put later t ∷ []) initial).shared.queue
        ≡ stamp now s ∷ stamp later t ∷ []
  unfolding run apply initial put_signal
  put_same_symbol now later s t same ne = ground (arith, eq_iff s.id t.id)

  -- A worker that holds a signal whose id is reserved and then sees the stop ends without executing
  -- it and leaves the id reserved: a signal with that id that is put then changes nothing.
  stop-keeps_reservation :
      (sh : Shared F) (s t : InboundSignal F) (now : ℕ)
      → sh.is_stopped ≡ true
      → member s.id sh.queued_ids ≡ true
      → t.id ≡ s.id
      → (apply (work 0) (alone sh (holding s)) ≡ alone sh gone)
        × (apply (put now t) (alone sh gone) ≡ alone sh gone)
  unfolding apply put_signal advance step_worker
  stop-keeps_reservation sh s t now stopped known same = (simp stopped, simp (same, known))
