-- ===== src/Signals/Consumer/Outbox.antt =====
-- src/signals/consumer.py: the lifecycle reports of `SignalConsumer`, from `_queue_lifecycle` to
-- `_deliver_lifecycle_report`, over the table `event_outbox` of src/infra/db.py. The threads are
-- moves that interleave: a report, the replay after an activation, a `get` of the worker, its
-- delivery, an eviction, and a restart of the process, which loses the queue. A write that raises leaves the table as it was. The column `payload_json`
-- holds the report itself, and the engine id and the account, which are the same in all reports, are
-- left out. `None` for the activation is a move that does not come.
pub mod Kept
pub mod Waiting
pub mod Reconnect
pub mod Keeping
pub mod Sent
use execution_engine_multi.Prelude.{
  ℕ, zero, suc, ◌+◌, ◌-◌, String, ◌==◌, Bool, true, false, not, ◌&&◌, Option, none, some, List, [],
  ◌∷◌, ◌++◌, keep, map, length, eqb, ltb, leb, if◌then◌else◌,
}

pub data Stage : Type 0 where
  received accepted rejected attempted opened failed : Stage

pub record Report : Type 0 where
  pub signal_id : String
  pub stage : Stage
  pub observed_at : String
  pub reason : Option String
  pub trade_id : Option String
  pub broker_ticket : Option String

-- A row of `event_outbox`. `sent` is the column of that name.
pub record Row : Type 0 where
  pub id : ℕ
  pub event : String
  pub report : Report
  pub sent : Bool
  pub created_at : ℕ
  pub sent_at : Option ℕ

-- The table, in the order of the ids, and the next id, which `AUTOINCREMENT` never gives twice.
pub record Outbox : Type 0 where
  pub next_id : ℕ
  pub rows : List Row

-- An item of `_lifecycle_queue`.
pub record Queued : Type 0 where
  pub event : String
  pub report : Report
  pub row : Option ℕ

-- The database, the queue, the item that the worker took, and what went to the gateway and to the
-- sink of a managed engine.
pub record Reporter : Type 0 where
  pub db : Option Outbox
  pub queue : List Queued
  pub in_hand : Option Queued
  pub wire : List (String × Report)
  pub sunk : List (String × Report)

-- `outbox_enqueue`
pub outbox_enqueue : ℕ → String → Report → Outbox → Outbox
outbox_enqueue now event report o = record {
  next_id = o.next_id + 1;
  rows =
      o.rows
      ++ record {
        id = o.next_id;
        event = event;
        report = report;
        sent = false;
        created_at = now;
        sent_at = none;
      }
        ∷ [];
}

abbrev pub mark_row : ℕ → ℕ → Row → Row
mark_row now id row = if eqb row.id id then record row { sent = true; sent_at = some now } else row

pub outbox_mark_sent : ℕ → ℕ → Outbox → Outbox
outbox_mark_sent now id o = record o { rows = map (mark_row now id) o.rows }

abbrev pub max_age_ms : ℕ
max_age_ms = 3600000

abbrev pub is_pending : ℕ → Row → Bool
is_pending now row = not row.sent && leb (now - max_age_ms) row.created_at

unfoldable pub outbox_load_pending : ℕ → Outbox → List Row
outbox_load_pending now o = keep (is_pending now) o.rows

-- `sent_at < cutoff`, for the default age of a day; the comparison fails for NULL.
abbrev is_old : ℕ → Option ℕ → Bool
is_old now none = false
is_old now (some at) = ltb (at + 86400000) now

pub outbox_evict_sent : ℕ → Outbox → Outbox
outbox_evict_sent now o = record o {
  rows = keep (λ row. not (row.sent && is_old now row.sent_at)) o.rows;
}

-- One of so many attempts from the given one on does not raise.
abbrev is_written : (ℕ → Bool) → ℕ → ℕ → Bool
is_written write attempt zero = false
is_written write attempt (suc left) =
    let later = is_written write (attempt + 1) left in if write attempt then true else later

-- `_persist_to_outbox` with its three attempts: the database and the id of the new row.
pub persist_to_outbox :
    (write : ℕ → Bool) (now : ℕ) (event : String) (report : Report)
    → Option Outbox
    → Option Outbox × Option ℕ
unfolding outbox_enqueue
persist_to_outbox write now event report none = (none, none)
persist_to_outbox write now event report (some o) =
    if is_written write 1 3
    then (some (outbox_enqueue now event report o), some o.next_id)
    else (some o, none)

abbrev queue_limit : ℕ
queue_limit = 1000

-- `put_nowait`, which raises `queue.Full`.
abbrev put_nowait : Queued → List Queued → List Queued
put_nowait q queue = if ltb (length queue) queue_limit then queue ++ q ∷ [] else queue

-- `if reason:` and the like: an empty text is left out.
abbrev or_null : Option String → Option String
or_null none = none
or_null (some s) = if s == "" then none else some s

-- `reason[:1000]`
clip : ℕ → String → String
clip zero s = String.[]
clip (suc n) String.[] = String.[]
clip (suc n) (String.◌∷◌ c s) = String.◌∷◌ c (clip n s)

abbrev clipped : Option String → Option String
clipped none = none
clipped (some s) = some (clip 1000 s)

pub make_report :
    Stage
    → String
    → (observed_at : String) → (reason trade_id broker_ticket : Option String) → Report
unfolding clip
make_report stage signal_id observed_at reason trade_id broker_ticket = record {
  signal_id = signal_id;
  stage = stage;
  observed_at = observed_at;
  reason = clipped (or_null reason);
  trade_id = or_null trade_id;
  broker_ticket = or_null broker_ticket;
}

-- `_queue_lifecycle`, of the report that it makes first. A managed engine has a sink.
pub queue_report : (has_sink : Bool) (write : ℕ → Bool) (now : ℕ) → Report → Reporter → Reporter
unfolding persist_to_outbox
queue_report has_sink write now report r =
    if has_sink
    then record r { sunk = r.sunk ++ ("execution.lifecycle", report) ∷ [] }
    else let (db, row) = persist_to_outbox write now "execution.lifecycle" report r.db in
      let q : Queued = record { event = "execution.lifecycle"; report = report; row = row } in
      record r { db = db; queue = put_nowait q r.queue }

-- The loop of `_replay_outbox`, which ends at a full queue.
pub replay_rows : List Row → List Queued → List Queued
replay_rows [] queue = queue
replay_rows (row ∷ rows) queue =
    let q : Queued = record { event = row.event; report = row.report; row = some row.id } in
    let rest = replay_rows rows (queue ++ q ∷ []) in
    if ltb (length queue) queue_limit then rest else queue

replay_from : (is_loaded : Bool) (now : ℕ) → Option Outbox → Reporter → Reporter
unfolding replay_rows outbox_load_pending
replay_from is_loaded now none r = r
replay_from is_loaded now (some o) r =
    if is_loaded then record r { queue = replay_rows (outbox_load_pending now o) r.queue } else r

-- `_replay_outbox`; the loading raises or not.
pub replay_outbox : (is_loaded : Bool) (now : ℕ) → Reporter → Reporter
unfolding replay_from
replay_outbox is_loaded now r = replay_from is_loaded now r.db r

take_from : Option Queued → List Queued → Reporter → Reporter
take_from (some _) queue r = r
take_from none [] r = r
take_from none (q ∷ queue) r = record r { queue = queue; in_hand = some q }

-- A `get` of the worker, which is free.
pub take : Reporter → Reporter
unfolding take_from
take r = take_from r.in_hand r.queue r

-- `outbox_mark_sent` of an item with a row; the write raises or not.
abbrev pub mark_sent : (is_marked : Bool) (now : ℕ) → Option ℕ → Option Outbox → Option Outbox
mark_sent is_marked now none db = db
mark_sent is_marked now (some id) none = none
mark_sent is_marked now (some id) (some o) =
    if is_marked then some (outbox_mark_sent now id o) else some o

-- The last chance of an item that has no row.
abbrev pub persist_late : (ℕ → Bool) → ℕ → Queued → Option ℕ → Option Outbox → Option Outbox
persist_late write now q (some id) db = db
persist_late write now q none db = (persist_to_outbox write now q.event q.report db).0

-- `_deliver_lifecycle_report`
deliver_item :
    (is_sent is_marked : Bool) (write : ℕ → Bool) (now : ℕ) → Option Queued → Reporter → Reporter
unfolding outbox_mark_sent persist_to_outbox
deliver_item is_sent is_marked write now none r = r
deliver_item is_sent is_marked write now (some q) r =
    if is_sent
    then record r {
      in_hand = none;
      wire = r.wire ++ (q.event, q.report) ∷ [];
      db = mark_sent is_marked now q.row r.db;
    }
    else record r { in_hand = none; db = persist_late write now q q.row r.db }

pub deliver : (is_sent is_marked : Bool) (write : ℕ → Bool) (now : ℕ) → Reporter → Reporter
unfolding deliver_item
deliver is_sent is_marked write now r = deliver_item is_sent is_marked write now r.in_hand r

evict_from : ℕ → Option Outbox → Reporter → Reporter
unfolding outbox_evict_sent
evict_from now none r = r
evict_from now (some o) r = record r { db = some (outbox_evict_sent now o) }

pub evict : ℕ → Reporter → Reporter
unfolding evict_from
evict now r = evict_from now r.db r

pub data Move : Type 0 where
  reported : (has_sink : Bool) (write : ℕ → Bool) (now : ℕ) (report : Report) → Move
  replayed : (is_loaded : Bool) (now : ℕ) → Move
  taken : Move
  delivered : (is_sent is_marked : Bool) (write : ℕ → Bool) (now : ℕ) → Move
  evicted : (now : ℕ) → Move
  restarted : Move

unfoldable pub move : Move → Reporter → Reporter
move (reported has_sink write now report) r = queue_report has_sink write now report r
move (replayed is_loaded now) r = replay_outbox is_loaded now r
move taken r = take r
move (delivered is_sent is_marked write now) r = deliver is_sent is_marked write now r
move (evicted now) r = evict now r
move restarted r = record r { queue = []; in_hand = none }

unfoldable pub moves : List Move → Reporter → Reporter
moves [] r = r
moves (m ∷ ms) r = moves ms (move m r)
