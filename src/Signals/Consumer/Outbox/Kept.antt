-- ===== src/Signals/Consumer/Outbox/Kept.antt =====
-- What the rows of the outbox say about the items that are on their way and about the wire, and what
-- its statements keep of it.
use execution_engine_multi.Prelude.{
  ℕ, ◌<◌, ◌≡◌, refl, sym, String, Bool, true, false, Option, none, some, List, [], ◌∷◌, ◌++◌, All,
  All-append, keep, map, arith, eqb, Bool-cases, inl, inr, if_ind, subst,
}
use execution_engine_multi.Signals.Consumer.Outbox.{
  Report, Row, Outbox, Queued, Reporter, outbox_enqueue, mark_row, outbox_mark_sent,
  outbox_evict_sent,
}

abbrev pub Message : Type 0
Message = String × Report

pub data OnWire (m : Message) : List Message → Type 0 where
  here : {wire : List Message} → OnWire m (m ∷ wire)
  there : {other : Message} {wire : List Message} → OnWire m wire → OnWire m (other ∷ wire)

pub OnWire-append :
    {m : Message} {wire : List Message} (more : List Message)
    → OnWire m wire
    → OnWire m (wire ++ more)
OnWire-append more here = here
OnWire-append more (there w) = there (OnWire-append more w)

pub OnWire-last : (m : Message) (wire : List Message) → OnWire m (wire ++ m ∷ [])
OnWire-last m [] = here
OnWire-last m (x ∷ wire) = there (OnWire-last m wire)

module _ {ℓ κ} {A : Type ℓ} (P : A → Type κ) where
  pub All-keep : (f : A → Bool) (xs : List A) → All P xs → All P (keep f xs)
  All-keep f [] h = tt
  All-keep f (x ∷ xs) h = elim (Bool-cases (f x)) [
    | inl stays ↦ rw stays (h.0, All-keep f xs h.1)
    | inr goes ↦ rw goes (All-keep f xs h.1)
  ]

  pub All-map {μ} :
      (Q : A → Type μ) (f : A → A)
      → ((x : A) → P x → Q (f x))
      → (xs : List A) → All P xs
      → All Q (map f xs)
  All-map Q f step [] h = tt
  All-map Q f step (x ∷ xs) h = (step x h.0, All-map Q f step xs h.1)

  pub All-both {μ} : (Q : A → Type μ) (xs : List A) → All P xs → All Q xs → All (λ x. P x × Q x) xs
  All-both Q [] hp hq = tt
  All-both Q (x ∷ xs) hp hq = ((hp.0, hq.0), All-both Q xs hp.1 hq.1)

  pub All-weaken {μ} :
      (Q : A → Type μ) → ((x : A) → P x → Q x) → (xs : List A) → All P xs → All Q xs
  All-weaken Q step [] h = tt
  All-weaken Q step (x ∷ xs) h = (step x h.0, All-weaken Q step xs h.1)

abbrev pub message : Row → Message
message row = (row.event, row.report)

-- The rows of an id hold the message, and the id was given away.
abbrev pub Fits : Outbox → Message → ℕ → Type 0
Fits o m id = (id < o.next_id) × All (λ row. row.id ≡ id → message row ≡ m) o.rows

abbrev pub HasRow : Option Outbox → Message → Option ℕ → Type 0
HasRow none m row = Unit
HasRow (some o) m none = Unit
HasRow (some o) m (some id) = Fits o m id

-- A row that is marked was sent.
abbrev pub SentOn : Bool → Message → List Message → Type 0
SentOn true m wire = OnWire m wire
SentOn false m wire = Unit

abbrev pub IsKept : Outbox → List Message → Row → Type 0
IsKept o wire row = Fits o (message row) row.id × SentOn row.sent (message row) wire

abbrev pub RowsKept : Option Outbox → List Message → Type 0
RowsKept none wire = Unit
RowsKept (some o) wire = All (IsKept o wire) o.rows

abbrev pub HandHasRow : Option Outbox → Option Queued → Type 0
HandHasRow db none = Unit
HandHasRow db (some q) = HasRow db (q.event, q.report) q.row

abbrev pub QueueHasRows : Option Outbox → List Queued → Type 0
QueueHasRows db queue = All (λ q. HasRow db (q.event, q.report) q.row) queue

pub record Inv (r : Reporter) : Type 0 where
  pub rows : RowsKept r.db r.wire
  pub queued : QueueHasRows r.db r.queue
  pub hand : HandHasRow r.db r.in_hand

pub SentOn-append :
    (b : Bool) (m : Message) (wire more : List Message)
    → SentOn b m wire
    → SentOn b m (wire ++ more)
SentOn-append true m wire more h = OnWire-append more h
SentOn-append false m wire more h = h

pub Fits-enqueue :
    (now : ℕ) (event : String) (report : Report) (o : Outbox) (m : Message) (id : ℕ)
    → Fits o m id
    → Fits (outbox_enqueue now event report o) m id
unfolding outbox_enqueue
Fits-enqueue now event report o m id (given, rows) = (
  omega arith,
  All-append (λ row. row.id ≡ id → message row ≡ m) o.rows _ rows ((λ e. absurd (omega arith)), tt),
)

pub Fits-mark :
    (now j : ℕ) (o : Outbox) (m : Message) (id : ℕ)
    → Fits o m id
    → Fits (outbox_mark_sent now j o) m id
unfolding outbox_mark_sent
Fits-mark now j o m id (given, rows) = (
  given,
  All-map (λ row. row.id ≡ id → message row ≡ m) (λ row. row.id ≡ id → message row ≡ m)
      (mark_row now j)
      (λ row h. if_ind (λ (row' : Row). row'.id ≡ id → message row' ≡ m) (eqb row.id j) h h) o.rows
      rows,
)

pub Fits-evict :
    (now : ℕ) (o : Outbox) (m : Message) (id : ℕ)
    → Fits o m id
    → Fits (outbox_evict_sent now o) m id
unfolding outbox_evict_sent
Fits-evict now o m id (given, rows) =
    (given, All-keep (λ row. row.id ≡ id → message row ≡ m) _ o.rows rows)

module _ (o : Outbox) (wire : List Message) (rows : All (IsKept o wire) o.rows) where
  pub Fits-new :
      (now : ℕ) (event : String) (report : Report)
      → Fits (outbox_enqueue now event report o) (event, report) o.next_id
  unfolding outbox_enqueue
  Fits-new now event report = (
    omega arith,
    All-append (λ row. row.id ≡ o.next_id → message row ≡ (event, report)) o.rows _
        (All-weaken (IsKept o wire) (λ row. row.id ≡ o.next_id → message row ≡ (event, report))
          (λ row h e. let given = h.0.0 in absurd (omega arith)) o.rows rows)
        ((λ e. refl), tt),
  )

  pub rows-enqueue :
      (now : ℕ) (event : String) (report : Report)
      → All
          (IsKept (outbox_enqueue now event report o) wire)
          (outbox_enqueue now event report o).rows
  unfolding outbox_enqueue
  rows-enqueue now event report =
      let o' = outbox_enqueue now event report o in
      All-append (IsKept o' wire) o.rows _
        (All-weaken (IsKept o wire) (IsKept o' wire)
          (λ row h. (Fits-enqueue now event report o (message row) row.id h.0, h.1)) o.rows rows)
        ((Fits-new now event report, tt), tt)

  pub rows-append : (more : List Message) → All (IsKept o (wire ++ more)) o.rows
  rows-append more =
      All-weaken (IsKept o wire) (IsKept o (wire ++ more))
        (λ row h. (h.0, SentOn-append row.sent (message row) wire more h.1)) o.rows rows

  marked :
      (now id : ℕ) (m : Message) (row : Row)
      → IsKept o wire row × (row.id ≡ id → message row ≡ m)
      → IsKept (outbox_mark_sent now id o) (wire ++ m ∷ []) (mark_row now id row)
  marked now id m row (kept, same) =
      let fits = Fits-mark now id o (message row) row.id kept.0 in
      elim (Bool-cases (eqb row.id id)) [
        | inl hit ↦
            let is_m : message row ≡ m = same (ground arith) in
            rw (hit, mark_row)
              (fits, subst (λ x. OnWire x (wire ++ m ∷ [])) (sym is_m) (OnWire-last m wire))
        | inr other ↦
            rw (other, mark_row) (fits, SentOn-append row.sent (message row) wire (m ∷ []) kept.1)
      ]

  pub rows-mark :
      (now id : ℕ) (m : Message)
      → Fits o m id
      → All (IsKept (outbox_mark_sent now id o) (wire ++ m ∷ [])) (outbox_mark_sent now id o).rows
  unfolding outbox_mark_sent
  rows-mark now id m fits =
      All-map (λ row. IsKept o wire row × (row.id ≡ id → message row ≡ m))
        (IsKept (outbox_mark_sent now id o) (wire ++ m ∷ [])) (mark_row now id) (marked now id m)
        o.rows (All-both (IsKept o wire) (λ row. row.id ≡ id → message row ≡ m) o.rows rows fits.1)

  pub rows-evict :
      (now : ℕ) → All (IsKept (outbox_evict_sent now o) wire) (outbox_evict_sent now o).rows
  unfolding outbox_evict_sent
  rows-evict now =
      let o' = outbox_evict_sent now o in
      All-keep (IsKept o' wire) _ o.rows (
        All-weaken (IsKept o wire) (IsKept o' wire)
          (λ row h. (Fits-evict now o (message row) row.id h.0, h.1)) o.rows rows)
