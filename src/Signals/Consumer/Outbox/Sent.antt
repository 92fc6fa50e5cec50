-- ===== src/Signals/Consumer/Outbox/Sent.antt =====
-- What a row of the outbox that is marked as sent says.
use execution_engine_multi.Prelude.{
  ℕ, Bool, true, false, Option, none, some, List, [], ◌∷◌, All, All-append, ltb, length, if_ind,
}
use execution_engine_multi.Signals.Consumer.Outbox.{
  Report, Row, Outbox, Queued, Reporter, Move, reported, replayed, taken, delivered, evicted,
  restarted, outbox_load_pending, outbox_evict_sent, persist_to_outbox, queue_report, replay_rows,
  replay_from, take_from, evict_from, replay_outbox, take, deliver_item, deliver, evict, mark_sent,
  persist_late, move, moves,
}
use execution_engine_multi.Signals.Consumer.Outbox.Kept.{
  Message, SentOn, message, HasRow, IsKept, RowsKept, HandHasRow, QueueHasRows, Inv, All-keep,
  All-weaken, Fits-evict, rows-evict,
}
use execution_engine_multi.Signals.Consumer.Outbox.Keeping.{
  Keeps-some, Keeps-queue, Keeps-hand, persist-Keeps, mark_sent-Keeps, persist_late-Keeps,
}

Inv-queue_report :
    (has_sink : Bool) (write : ℕ → Bool) (now : ℕ) (report : Report) (r : Reporter)
    → Inv r
    → Inv (queue_report has_sink write now report r)
unfolding queue_report
Inv-queue_report true write now report r inv = record {
  rows = inv.rows;
  queued = inv.queued;
  hand = inv.hand;
}
Inv-queue_report false write now report r inv =
    let m : Message = ("execution.lifecycle", report) in
    let (keeps, rows, has) = persist-Keeps write now m r.db r.wire inv.rows in
    let db = (persist_to_outbox write now "execution.lifecycle" report r.db).0 in
    let queued = Keeps-queue r.db db keeps r.queue inv.queued in
    record {
      rows = rows;
      queued =
          if_ind (QueueHasRows db) (ltb (length r.queue) 1000)
            (All-append (λ q. HasRow db (q.event, q.report) q.row) r.queue _ queued (has, tt))
            queued;
      hand = Keeps-hand r.db db keeps r.in_hand inv.hand;
    }

replay_rows-QueueHasRows :
    (o : Outbox) (wire : List Message) (rows : List Row) (queue : List Queued)
    → All (IsKept o wire) rows
    → QueueHasRows (some o) queue
    → QueueHasRows (some o) (replay_rows rows queue)
unfolding replay_rows
replay_rows-QueueHasRows o wire [] queue kept h = h
replay_rows-QueueHasRows o wire (row ∷ rows) queue kept h =
    if_ind (QueueHasRows (some o)) (ltb (length queue) 1000)
      (replay_rows-QueueHasRows o wire rows _ kept.1
        (All-append (λ q. HasRow (some o) (q.event, q.report) q.row) queue _ h (kept.0.0, tt)))
      h

Inv-replay_from :
    (is_loaded : Bool) (now : ℕ) (db : Option Outbox) (queue : List Queued) (hand : Option Queued)
    (wire sunk : List Message)
    → RowsKept db wire
    → QueueHasRows db queue
    → HandHasRow db hand
    → Inv (
        replay_from is_loaded now db
          (record { db = db; queue = queue; in_hand = hand; wire = wire; sunk = sunk }))
unfolding replay_from
Inv-replay_from is_loaded now none queue hand wire sunk rows queued held = record {
  rows = rows;
  queued = queued;
  hand = held;
}
Inv-replay_from false now (some o) queue hand wire sunk rows queued held = record {
  rows = rows;
  queued = queued;
  hand = held;
}
Inv-replay_from true now (some o) queue hand wire sunk rows queued held = record {
  rows = rows;
  queued =
      replay_rows-QueueHasRows o wire (outbox_load_pending now o) queue
        (unfold outbox_load_pending in All-keep (IsKept o wire) _ o.rows rows) queued;
  hand = held;
}

Inv-take_from :
    (hand : Option Queued) (queue : List Queued) (r : Reporter)
    → RowsKept r.db r.wire
    → QueueHasRows r.db queue
    → Inv r
    → Inv (take_from hand queue r)
unfolding take_from
Inv-take_from (some q) queue r rows queued inv = inv
Inv-take_from none [] r rows queued inv = inv
Inv-take_from none (q ∷ queue) r rows queued inv = record {
  rows = rows;
  queued = queued.1;
  hand = queued.0;
}

Inv-deliver_item :
    (is_sent is_marked : Bool) (write : ℕ → Bool) (now : ℕ) (hand : Option Queued) (r : Reporter)
    → HandHasRow r.db hand
    → Inv r
    → Inv (deliver_item is_sent is_marked write now hand r)
unfolding deliver_item
Inv-deliver_item is_sent is_marked write now none r has inv = inv
Inv-deliver_item true is_marked write now (some q) r has inv =
    let m : Message = (q.event, q.report) in
    let (keeps, rows) = mark_sent-Keeps is_marked now m q.row r.db r.wire has inv.rows in
    record {
      rows = rows;
      queued = Keeps-queue r.db (mark_sent is_marked now q.row r.db) keeps r.queue inv.queued;
      hand = tt;
    }
Inv-deliver_item false is_marked write now (some q) r has inv =
    let (keeps, rows) = persist_late-Keeps write now q q.row r.db r.wire inv.rows in
    record {
      rows = rows;
      queued = Keeps-queue r.db (persist_late write now q q.row r.db) keeps r.queue inv.queued;
      hand = tt;
    }

Inv-evict_from :
    (now : ℕ) (db : Option Outbox) (queue : List Queued) (hand : Option Queued)
    (wire sunk : List Message)
    → RowsKept db wire
    → QueueHasRows db queue
    → HandHasRow db hand
    → Inv (
        evict_from now db
          (record { db = db; queue = queue; in_hand = hand; wire = wire; sunk = sunk }))
unfolding evict_from
Inv-evict_from now none queue hand wire sunk rows queued held = record {
  rows = rows;
  queued = queued;
  hand = held;
}
Inv-evict_from now (some o) queue hand wire sunk rows queued held =
    let keeps = Keeps-some o (outbox_evict_sent now o) (Fits-evict now o) in
    record {
      rows = rows-evict o wire rows now;
      queued = Keeps-queue (some o) (some (outbox_evict_sent now o)) keeps queue queued;
      hand = Keeps-hand (some o) (some (outbox_evict_sent now o)) keeps hand held;
    }

Inv-move : (m : Move) (r : Reporter) → Inv r → Inv (move m r)
unfolding move replay_outbox take deliver evict
Inv-move (reported has_sink write now report) r inv =
    Inv-queue_report has_sink write now report r inv
Inv-move (replayed is_loaded now) r inv =
    Inv-replay_from is_loaded now r.db r.queue r.in_hand r.wire r.sunk inv.rows inv.queued inv.hand
Inv-move taken r inv = Inv-take_from r.in_hand r.queue r inv.rows inv.queued inv
Inv-move (delivered is_sent is_marked write now) r inv =
    Inv-deliver_item is_sent is_marked write now r.in_hand r inv.hand inv
Inv-move (evicted now) r inv =
    Inv-evict_from now r.db r.queue r.in_hand r.wire r.sunk inv.rows inv.queued inv.hand
Inv-move restarted r inv = record { rows = inv.rows; queued = tt; hand = tt }

Inv-moves : (ms : List Move) (r : Reporter) → Inv r → Inv (moves ms r)
unfolding moves
Inv-moves [] r inv = inv
Inv-moves (m ∷ ms) r inv = Inv-moves ms (move m r) (Inv-move m r inv)

-- The rows of a table.
abbrev pub rows_of : Option Outbox → List Row
rows_of none = []
rows_of (some o) = o.rows

abbrev pub first_start : ℕ → Reporter
first_start next_id = record {
  db = some (record { next_id = next_id; rows = [] });
  queue = [];
  in_hand = none;
  wire = [];
  sunk = [];
}

RowsKept-SentOn :
    (db : Option Outbox) (wire : List Message)
    → RowsKept db wire
    → All (λ row. SentOn row.sent (message row) wire) (rows_of db)
RowsKept-SentOn none wire h = tt
RowsKept-SentOn (some o) wire h =
    All-weaken (IsKept o wire) (λ row. SentOn row.sent (message row) wire) (λ row k. k.1) o.rows h

-- From an empty outbox on, over any sequence of reports, replays, deliveries, evictions and restarts,
-- with any failures of the database and of the connection, the message of every row that is marked
-- as sent went to the gateway.
pub moves-SentOn :
    (ms : List Move) (next_id : ℕ)
    → let r = moves ms (first_start next_id) in
      All (λ row. SentOn row.sent (message row) r.wire) (rows_of r.db)
moves-SentOn ms next_id =
    let r = moves ms (first_start next_id) in
    RowsKept-SentOn r.db r.wire
      (Inv-moves ms (first_start next_id) (record { rows = tt; queued = tt; hand = tt })).rows
