-- ===== src/Signals/Consumer/Outbox/Waiting.antt =====
-- Rounds of delivery, and the rows that wait for them.
use execution_engine_multi.Prelude.{
  ℕ, zero, suc, ◌+◌, ◌≤◌, ◌≡◌, refl, sym, ◌∙◌, String, Bool, true, false, Option, none, some, List,
  [], ◌∷◌, ◌++◌, All, keep, map, append-nil, append_assoc, length, arith, eqb, ltb, if◌then◌else◌,
  Bool-cases, inl, inr, length-append,
}
use execution_engine_multi.Signals.Consumer.Outbox.{
  Report, Row, Outbox, Queued, Reporter, mark_row, outbox_mark_sent, is_pending, replay_rows, take,
  deliver, mark_sent,
}
use execution_engine_multi.Signals.Consumer.Outbox.Kept.{All-weaken, All-map}

abbrev pub item_of : Row → Queued
item_of row = record { event = row.event; report = row.report; row = some row.id }

abbrev pub message_of : Queued → String × Report
message_of q = (q.event, q.report)

-- One round of the worker while the connection and the database work.
pub serve : (write : ℕ → Bool) (now : ℕ) → Reporter → Reporter
serve write now r = deliver true true write now (take r)

pub serve_all : ℕ → (write : ℕ → Bool) (now : ℕ) → Reporter → Reporter
serve_all zero write now r = r
serve_all (suc n) write now r = serve_all n write now (serve write now r)

pub replay_rows-append :
    (rows : List Row) (queue : List Queued)
    → length queue + length rows ≤ 1000
    → replay_rows rows queue ≡ queue ++ map item_of rows
unfolding replay_rows
replay_rows-append [] queue room = sym (append-nil queue)
replay_rows-append (row ∷ rows) queue room = elim (Bool-cases (ltb (length queue) 1000)) [
  | inl free ↦ rw free (
      replay_rows-append rows (queue ++ item_of row ∷ [])
        (omega (arith, length-append {0} queue (item_of row ∷ [])))
      ∙ append_assoc queue (item_of row ∷ []) (map item_of rows))
  | inr full ↦ absurd (ground arith)
]

-- The table after the items were delivered.
pub mark_all : ℕ → List Queued → Option Outbox → Option Outbox
mark_all now [] db = db
mark_all now (q ∷ queue) db = mark_all now queue (mark_sent true now q.row db)

pub serve_all-drains :
    (write : ℕ → Bool) (now : ℕ) (queue : List Queued) (db : Option Outbox)
    (wire sunk : List (String × Report))
    → serve_all
        (length queue)
        write
        now
        (record { db = db; queue = queue; in_hand = none; wire = wire; sunk = sunk })
      ≡ record {
        db = mark_all now queue db;
        queue = [];
        in_hand = none;
        wire = wire ++ map message_of queue;
        sunk = sunk;
      }
unfolding serve_all serve take deliver mark_all
serve_all-drains write now [] db wire sunk = rw append-nil refl
serve_all-drains write now (q ∷ queue) db wire sunk =
    serve_all-drains write now queue (mark_sent true now q.row db) (wire ++ message_of q ∷ []) sunk
    ∙ rw append_assoc refl

-- An item for the row stands in the queue.
pub data InQueue (id : ℕ) : List Queued → Type 0 where
  here : {q : Queued} {queue : List Queued} → q.row ≡ some id → InQueue id (q ∷ queue)
  there : {q : Queued} {queue : List Queued} → InQueue id queue → InQueue id (q ∷ queue)

pub InQueue-append :
    {id : ℕ} (before : List Queued) {queue : List Queued}
    → InQueue id queue
    → InQueue id (before ++ queue)
InQueue-append [] h = h
InQueue-append (q ∷ before) h = there (InQueue-append before h)

-- Every row that would be replayed has an item.
abbrev pub Waits : ℕ → List Queued → Row → Type 0
Waits now queue row = is_pending now row ≡ true → InQueue row.id queue

abbrev pub AllWait : ℕ → List Queued → Option Outbox → Type 0
AllWait now queue none = Unit
AllWait now queue (some o) = All (Waits now queue) o.rows

Waits-cons :
    (now : ℕ) (row : Row) (rows rest : List Row) (b : Bool)
    → is_pending now row ≡ b
    → All (Waits now (map item_of rest)) rows
    → All (Waits now (map item_of (if b then row ∷ rest else rest))) (row ∷ rows)
Waits-cons now row rows rest true e h = (
  λ _. here refl,
  All-weaken (Waits now (map item_of rest)) (Waits now (item_of row ∷ map item_of rest))
      (λ x k p. there (k p)) rows h,
)
Waits-cons now row rows rest false e h = ((λ p. cc), h)

pub pending-Waits :
    (now : ℕ) (rows : List Row) → All (Waits now (map item_of (keep (is_pending now) rows))) rows
pending-Waits now [] = tt
pending-Waits now (row ∷ rows) =
    Waits-cons now row rows (keep (is_pending now) rows) (is_pending now row) refl
      (pending-Waits now rows)

skip :
    {id j : ℕ} {q : Queued} {queue : List Queued}
    → InQueue id (q ∷ queue)
    → q.row ≡ some j
    → eqb id j ≡ false
    → InQueue id queue
skip (here e) e' miss = absurd (ground arith)
skip (there h) e' miss = h

-- A delivery leaves an item for every row that is still unsent.
Waits-mark :
    (now at id : ℕ) (q : Queued) (queue : List Queued)
    → q.row ≡ some id
    → (row : Row) → Waits now (q ∷ queue) row
    → Waits now queue (mark_row at id row)
Waits-mark now at id q queue e row waits = elim (Bool-cases (eqb row.id id)) [
  | inl hit ↦ rw (hit, mark_row) (λ pending. cc)
  | inr miss ↦ rw (miss, mark_row) (λ pending. skip (waits pending) e miss)
]

Waits-none :
    (now : ℕ) (q : Queued) (queue : List Queued)
    → q.row ≡ none
    → (row : Row) → Waits now (q ∷ queue) row
    → Waits now queue row
Waits-none now q queue e row waits pending = unlinked (waits pending) e
  where
    unlinked : {id : ℕ} → InQueue id (q ∷ queue) → q.row ≡ none → InQueue id queue
    unlinked (here e) e' = cc
    unlinked (there h) e' = h

AllWait-mark :
    (now at : ℕ) (q : Queued) (queue : List Queued) (row : Option ℕ) (db : Option Outbox)
    → q.row ≡ row
    → AllWait now (q ∷ queue) db
    → AllWait now queue (mark_sent true at row db)
unfolding outbox_mark_sent
AllWait-mark now at q queue none none e h = tt
AllWait-mark now at q queue none (some o) e h =
    All-weaken (Waits now (q ∷ queue)) (Waits now queue) (Waits-none now q queue e) o.rows h
AllWait-mark now at q queue (some id) none e h = tt
AllWait-mark now at q queue (some id) (some o) e h =
    All-map (Waits now (q ∷ queue)) (Waits now queue) (mark_row at id)
      (Waits-mark now at id q queue e) o.rows h

pub AllWait-mark_all :
    (now at : ℕ) (queue : List Queued) (db : Option Outbox)
    → AllWait now queue db
    → AllWait now [] (mark_all at queue db)
unfolding mark_all
AllWait-mark_all now at [] db h = h
AllWait-mark_all now at (q ∷ queue) db h =
    AllWait-mark_all now at queue (mark_sent true at q.row db)
      (AllWait-mark now at q queue q.row db refl h)
