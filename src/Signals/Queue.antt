-- ===== src/Signals/Queue.antt =====
-- src/signals/queue.py: `SignalQueue`, with its producers and its worker threads as moves that
-- interleave in any order. A move is one critical section: `put` under the lock, one `get` of the
-- worker, its test of the flags, the end of the callback. A `get` that times out and a wait that
-- goes on change nothing. The callback's effect on the engine is not part of this state: `handled`
-- lists the signals that it was called with, whether it raised or not.
pub mod Exclusion
pub mod Fifo
pub mod Restart
use execution_engine_multi.Prelude.{
  member, set_add, discard, ℕ, zero, suc, String, Bool, true, false, some, List, [], ◌∷◌, ◌++◌,
  length, or_else, ltb, if◌then◌else◌,
}
use execution_engine_multi.Domain.Signal.{InboundSignal}

abbrev pub max_queue_size : ℕ
max_queue_size = 50

-- An entry of the queue: `stop` puts the sentinel `None`.
pub data Item (F : Type 0) : Type 0 where
  entry : InboundSignal F → Item F
  sentinel : Item F

-- Where a worker thread stands in `_worker`: at the head of the loop, before `get`, between `get`
-- and the call, in the call, or past the loop.
pub data Worker (F : Type 0) : Type 0 where
  idle polling : Worker F
  holding running : InboundSignal F → Worker F
  gone : Worker F

pub record Shared (F : Type 0) : Type 0 where
  pub queue : List (Item F)
  pub queued_ids : List String
  pub is_stopped : Bool
  pub is_paused : Bool
  pub handled : List (InboundSignal F)

-- `stop` waits ten seconds for its thread, so an earlier worker can outlive it.
pub record QueueState (F : Type 0) : Type 0 where
  pub shared : Shared F
  pub workers : List (Worker F)

pub data Move (F : Type 0) : Type 0 where
  put : (now : ℕ) → InboundSignal F → Move F
  start stop pause resume : Move F
  work : (worker : ℕ) → Move F

module _ {F : Type 0} where
  -- `put_nowait`, which raises `queue.Full`.
  abbrev has_room : Shared F → Bool
  has_room sh = ltb (length sh.queue) max_queue_size

  pub stamp : ℕ → InboundSignal F → InboundSignal F
  stamp now s = record s { queued_at = or_else s.queued_at (some now) }

  -- `put`
  put_signal : ℕ → InboundSignal F → Shared F → Shared F
  unfolding stamp
  put_signal now s sh =
      if member s.id sh.queued_ids
      then sh
      else if has_room sh
      then record sh {
        queue = sh.queue ++ entry (stamp now s) ∷ [];
        queued_ids = set_add s.id sh.queued_ids;
      }
      else sh

  -- `stop`, up to the wait for the thread.
  request_stop : Shared F → Shared F
  request_stop sh = record sh {
    is_stopped = true;
    queue = if has_room sh then sh.queue ++ sentinel ∷ [] else sh.queue;
  }

  -- One `get`.
  take_item : List (Item F) → Shared F → Worker F × Shared F
  take_item [] sh = (idle, sh)
  take_item (entry s ∷ q) sh = (holding s, record sh { queue = q })
  take_item (sentinel ∷ q) sh = (gone, record sh { queue = q })

  -- One step of a worker.
  step_worker : Worker F → Shared F → Worker F × Shared F
  unfolding take_item
  step_worker idle sh = if sh.is_stopped then (gone, sh) else (polling, sh)
  step_worker polling sh = take_item sh.queue sh
  step_worker (holding s) sh =
      if sh.is_stopped
      then (gone, sh)
      else if sh.is_paused
      then (holding s, sh)
      else (running s, record sh { handled = sh.handled ++ s ∷ [] })
  step_worker (running s) sh = (idle, record sh { queued_ids = discard s.id sh.queued_ids })
  step_worker gone sh = (gone, sh)

  advance : ℕ → List (Worker F) → Shared F → List (Worker F) × Shared F
  unfolding step_worker
  advance i [] sh = ([], sh)
  advance zero (w ∷ ws) sh = let (w', sh') = step_worker w sh in (w' ∷ ws, sh')
  advance (suc i) (w ∷ ws) sh = let (ws', sh') = advance i ws sh in (w ∷ ws', sh')

  unfoldable pub apply : Move F → QueueState F → QueueState F
  unfolding put_signal request_stop advance
  apply (put now s) st = record st { shared = put_signal now s st.shared }
  apply start st = record {
    shared = record st.shared { is_stopped = false };
    workers = st.workers ++ idle ∷ [];
  }
  apply stop st = record st { shared = request_stop st.shared }
  apply pause st = record st { shared = record st.shared { is_paused = true } }
  apply resume st = record st { shared = record st.shared { is_paused = false } }
  apply (work i) st =
      let (ws, sh) = advance i st.workers st.shared in record { shared = sh; workers = ws }

  pub run : List (Move F) → QueueState F → QueueState F
  run [] st = st
  run (m ∷ ms) st = run ms (apply m st)

  -- `__init__`
  unfoldable pub initial : QueueState F
  initial = record {
    shared = record {
      queue = [];
      queued_ids = [];
      is_stopped = false;
      is_paused = false;
      handled = [];
    };
    workers = [];
  }
