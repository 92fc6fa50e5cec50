-- ===== src/Signals/Consumer/Outbox/Keeping.antt =====
-- What a change of the table keeps of the items that are on their way.
use execution_engine_multi.Prelude.{
  ℕ, Bool, true, false, Option, none, some, List, [], ◌∷◌, ◌++◌, if_ind,
}
use execution_engine_multi.Signals.Consumer.Outbox.{
  Outbox, Queued, outbox_enqueue, outbox_mark_sent, persist_to_outbox, is_written, mark_sent,
  persist_late,
}
use execution_engine_multi.Signals.Consumer.Outbox.Kept.{
  Message, Fits, HasRow, RowsKept, HandHasRow, QueueHasRows, All-weaken, Fits-enqueue, Fits-mark,
  Fits-new, rows-enqueue, rows-append, rows-mark,
}

-- What a change of the table keeps of the items that are on their way.
pub Keeps : Option Outbox → Option Outbox → Type 0
Keeps db db' = (m : Message) (row : Option ℕ) → HasRow db m row → HasRow db' m row

pub Keeps-some :
    (o o' : Outbox)
    → ((m : Message) (id : ℕ) → Fits o m id → Fits o' m id)
    → Keeps (some o) (some o')
unfolding Keeps
Keeps-some o o' step m none h = h
Keeps-some o o' step m (some id) h = step m id h

pub Keeps-queue :
    (db db' : Option Outbox)
    → Keeps db db'
    → (queue : List Queued) → QueueHasRows db queue
    → QueueHasRows db' queue
unfolding Keeps
Keeps-queue db db' keeps =
    All-weaken (λ q. HasRow db (q.event, q.report) q.row)
      (λ q. HasRow db' (q.event, q.report) q.row) (λ q h. keeps (q.event, q.report) q.row h)

pub Keeps-hand :
    (db db' : Option Outbox)
    → Keeps db db'
    → (hand : Option Queued) → HandHasRow db hand
    → HandHasRow db' hand
unfolding Keeps
Keeps-hand db db' keeps none h = h
Keeps-hand db db' keeps (some q) h = keeps (q.event, q.report) q.row h

RowsKept-append :
    (db : Option Outbox) (wire more : List Message) → RowsKept db wire → RowsKept db (wire ++ more)
RowsKept-append none wire more h = h
RowsKept-append (some o) wire more h = rows-append o wire h more

-- A write keeps what is there, and its row has the message.
pub persist-Keeps :
    (write : ℕ → Bool) (now : ℕ) (m : Message) (db : Option Outbox) (wire : List Message)
    → RowsKept db wire
    → let p = persist_to_outbox write now m.0 m.1 db in
      Keeps db p.0 × RowsKept p.0 wire × HasRow p.0 m p.1
unfolding persist_to_outbox Keeps
persist-Keeps write now m none wire h = ((λ m row k. k), h, tt)
persist-Keeps write now (event, report) (some o) wire h =
    if_ind
      (λ (p : Option Outbox × Option ℕ).
        Keeps (some o) p.0 × RowsKept p.0 wire × HasRow p.0 (event, report) p.1)
      (is_written write 1 3)
      (
        Keeps-some o (outbox_enqueue now event report o) (Fits-enqueue now event report o),
        rows-enqueue o wire h now event report,
        Fits-new o wire h now event report,
      )
      ((λ m row k. k), h, tt)

pub mark_sent-Keeps :
    (is_marked : Bool) (now : ℕ) (m : Message) (row : Option ℕ) (db : Option Outbox)
    (wire : List Message)
    → HasRow db m row
    → RowsKept db wire
    → Keeps db (mark_sent is_marked now row db)
      × RowsKept (mark_sent is_marked now row db) (wire ++ m ∷ [])
unfolding Keeps
mark_sent-Keeps is_marked now m none db wire has h =
    ((λ m' row k. k), RowsKept-append db wire (m ∷ []) h)
mark_sent-Keeps is_marked now m (some id) none wire has h = ((λ m' row k. k), tt)
mark_sent-Keeps true now m (some id) (some o) wire has h =
    (Keeps-some o (outbox_mark_sent now id o) (Fits-mark now id o), rows-mark o wire h now id m has)
mark_sent-Keeps false now m (some id) (some o) wire has h =
    ((λ m' row k. k), rows-append o wire h (m ∷ []))

pub persist_late-Keeps :
    (write : ℕ → Bool) (now : ℕ) (q : Queued) (row : Option ℕ) (db : Option Outbox)
    (wire : List Message)
    → RowsKept db wire
    → Keeps db (persist_late write now q row db) × RowsKept (persist_late write now q row db) wire
unfolding Keeps
persist_late-Keeps write now q (some id) db wire h = ((λ m row k. k), h)
persist_late-Keeps write now q none db wire h =
    let (keeps, rows, has) = persist-Keeps write now (q.event, q.report) db wire h in (keeps, rows)
