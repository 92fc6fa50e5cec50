-- ===== src/Signals/Consumer/Outbox/Reconnect.antt =====
-- What a reconnection brings to the gateway.
use execution_engine_multi.Prelude.{
  ℕ, ◌+◌, ◌≤◌, ◌≡◌, refl, String, Bool, true, Option, none, some, List, [], ◌∷◌, ◌++◌, All, keep,
  map, append-nil, length, Bool-cases, inl, inr,
}
use execution_engine_multi.Signals.Consumer.Outbox.{
  Report, Row, Outbox, Queued, Reporter, is_pending, outbox_load_pending, replay_from,
  replay_outbox,
}
use execution_engine_multi.Signals.Consumer.Outbox.Kept.{All-weaken}
use execution_engine_multi.Signals.Consumer.Outbox.Waiting.{
  item_of, message_of, serve_all, replay_rows-append, mark_all, serve_all-drains, InQueue,
  InQueue-append, Waits, AllWait, pending-Waits, AllWait-mark_all,
}

-- What a replay would find in a database.
abbrev pub pending_in : ℕ → Option Outbox → List Row
pending_in now none = []
pending_in now (some o) = outbox_load_pending now o

none-pending :
    (now : ℕ) (rows : List Row) → All (Waits now []) rows → keep (is_pending now) rows ≡ []
none-pending now [] h = refl
none-pending now (row ∷ rows) h = elim (Bool-cases (is_pending now row)) [
  | inl pending ↦ absurd (nothing (h.0 pending))
  | inr other ↦ rw (other, keep) (none-pending now rows h.1)
]
  where
    nothing : {id : ℕ} → InQueue id [] → ⊥
    nothing h = elim h [ ]

AllWait-pending_in : (now : ℕ) (db : Option Outbox) → AllWait now [] db → pending_in now db ≡ []
unfolding outbox_load_pending
AllWait-pending_in now none h = refl
AllWait-pending_in now (some o) h = none-pending now o.rows h

AllWait-append :
    (now : ℕ) (before queue : List Queued) (db : Option Outbox)
    → AllWait now queue db
    → AllWait now (before ++ queue) db
AllWait-append now before queue none h = tt
AllWait-append now before queue (some o) h =
    All-weaken (Waits now queue) (Waits now (before ++ queue))
      (λ row k p. InQueue-append before (k p)) o.rows h

AllWait-pending : (now : ℕ) (db : Option Outbox) → AllWait now (map item_of (pending_in now db)) db
unfolding outbox_load_pending
AllWait-pending now none = tt
AllWait-pending now (some o) = pending-Waits now o.rows

replay_outbox-append :
    (now : ℕ) (db : Option Outbox) (queue : List Queued) (wire sunk : List (String × Report))
    → length queue + length (pending_in now db) ≤ 1000
    → replay_outbox true now
        (record { db = db; queue = queue; in_hand = none; wire = wire; sunk = sunk })
      ≡ record {
        db = db;
        queue = queue ++ map item_of (pending_in now db);
        in_hand = none;
        wire = wire;
        sunk = sunk;
      }
unfolding replay_outbox replay_from
replay_outbox-append now none queue wire sunk room = rw append-nil refl
replay_outbox-append now (some o) queue wire sunk room =
    rw (replay_rows-append (outbox_load_pending now o) queue room) refl

-- A free worker whose queue has room for the unsent rows of the last hour: after a replay and as many
-- rounds with a working connection and database as there are items, the queue is empty, what waited
-- and then the unsent rows went to the gateway in this order, and no row is left to replay.
pub reconnect_delivers :
    (write : ℕ → Bool) (now at : ℕ) (db : Option Outbox) (queue : List Queued)
    (wire sunk : List (String × Report))
    → length queue + length (pending_in now db) ≤ 1000
    → let r : Reporter = record {
      db = db;
      queue = queue;
      in_hand = none;
      wire = wire;
      sunk = sunk;
    } in
      let all = queue ++ map item_of (pending_in now db) in
      let r' = serve_all (length all) write at (replay_outbox true now r) in
      (r'.queue ≡ []) × (r'.wire ≡ wire ++ map message_of all) × (pending_in now r'.db ≡ [])
reconnect_delivers write now at db queue wire sunk room =
    let all = queue ++ map item_of (pending_in now db) in
    let waits =
      AllWait-append now queue (map item_of (pending_in now db)) db (AllWait-pending now db) in
    rw
      (replay_outbox-append now db queue wire sunk room, serve_all-drains write at all db wire sunk)
      (
        refl,
        refl,
        AllWait-pending_in now (mark_all at all db) (AllWait-mark_all now at all db waits),
      )
