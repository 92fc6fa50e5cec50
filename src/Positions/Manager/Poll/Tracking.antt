-- ===== src/Positions/Manager/Poll/Tracking.antt =====
-- What the adoption of the broker's positions leaves in the store: the poll's reconciliation.
use execution_engine_multi.Prelude.{
  ℕ, ◌≡◌, refl, sym, ap, ◌∙◌, String, ◌==◌, eq_iff, Bool, true, false, ◌&&◌, ◌||◌, some, is_some,
  List, [], ◌∷◌, Dict, lookup, insert, values, keep, find_first, lookup-insert, All, arith,
  Bool-cases, Option-cases, inl, inr, if_true, if_false, if◌then◌else◌, some-injective, subst,
}
use execution_engine_multi.Prelude.Python.{Python}
use execution_engine_multi.Config.{ExecutionConfig}
use execution_engine_multi.Domain.Position.{Position}
use execution_engine_multi.Domain.Trade.{Trade, is_open}
use execution_engine_multi.Positions.Store.{get, get_by_ticket, get_open_trades, add}
use execution_engine_multi.Positions.Store.Laws.{values-insert}
use execution_engine_multi.Positions.Store.Held.{
  has, IsHeld, find_first-insert, find_first-holds, has-entry_ticket, entry_ticket-has,
}
use execution_engine_multi.Positions.Manager.{truthy_ticket, trade_stub_from_position}
use execution_engine_multi.Positions.Manager.State.{ManagerState, Broker, with_store}
use execution_engine_multi.Positions.Manager.Poll.{
  is_tracked, record_of, load_by_ticket, adopt, reconcile,
}

or_drop : (a b c : Bool) → b ≡ false → ((a && b) || c) ≡ true → c ≡ true
or_drop true true c e h = cc
or_drop true false c e h = h
or_drop false b c e h = h

module _ {F : Type 0} where
  is_tracked-IsHeld :
      (ticket : ℕ) (p : Trade F → Bool) (ts : List (Trade F))
      → is_tracked ticket (keep p ts) ≡ true
      → is_some (find_first (has ticket) ts) ≡ true
  unfolding is_tracked
  is_tracked-IsHeld ticket p [] e = e
  is_tracked-IsHeld ticket p (t ∷ ts) e = elim (Bool-cases (has ticket t)) [
    | inl held ↦ rw held refl
    | inr away ↦ rw away (is_tracked-IsHeld ticket p ts (later away (p t) e))
  ]
    where
      later :
          has ticket t ≡ false
          → (kept : Bool) → is_tracked ticket (if kept then t ∷ keep p ts else keep p ts) ≡ true
          → is_tracked ticket (keep p ts) ≡ true
      later away true h = or_drop (truthy_ticket t.entry_ticket) (has ticket t) _ away h
      later away false h = h

module _ {F : Type 0} ⦃py : Python F⦄ (cfg : ExecutionConfig F) (b : Broker F)
    (ticket_of : String → ℕ) where
  -- The id of a trade determines its ticket.
  abbrev pub IsTicketed : Trade F → Type 0
  IsTicketed t = t.entry_ticket ≡ some (ticket_of t.id)

  abbrev pub AreTicketed : Dict (Trade F) → Type 0
  AreTicketed trades =
      (k : String) (t : Trade F) → get k trades ≡ some t → t.entry_ticket ≡ some (ticket_of k)

  module _
      (saved : (ticket : ℕ) (t : Trade F)
        → load_by_ticket ticket b.saved ≡ some t
        → IsTicketed t) where
    -- The stub of a position would carry its ticket in its id.
    abbrev pub IsNamed : Position F → Type 0
    IsNamed pos = ticket_of (trade_stub_from_position b.now pos).id ≡ pos.ticket

    -- The trade that is adopted for a position.
    abbrev IsFor : Position F → ManagerState F → ManagerState F × Trade F → Type 0
    IsFor pos st x = (x.0.store ≡ st.store) × (x.1.entry_ticket ≡ some pos.ticket) × IsTicketed x.1

    record_of-IsFor :
        (pos : Position F) (st : ManagerState F)
        → IsNamed pos
        → IsFor pos st (record_of cfg b pos st)
    unfolding record_of load_by_ticket trade_stub_from_position
    record_of-IsFor pos st named = elim (Option-cases (load_by_ticket pos.ticket b.saved)) [
      | inl absent ↦ rw (absent, record_of) (refl, refl, ap some (sym named))
      | inr (t, found) ↦
          rw (found, record_of)
            (
              refl,
              has-entry_ticket pos.ticket t (find_first-holds (has pos.ticket) b.saved t found),
              saved pos.ticket t found,
            )
    ]

    -- What one adoption leaves: the ids, the ticket of the position, and what was held before.
    abbrev IsAdopted : Position F → ManagerState F → ManagerState F → Type 0
    IsAdopted pos before after =
        AreTicketed after.store
        × IsHeld pos.ticket after.store
        × ((ticket : ℕ) → IsHeld ticket before.store → IsHeld ticket after.store)

    add-IsAdopted :
        (pos : Position F) (t : Trade F) (before after : ManagerState F)
        → after.store ≡ before.store
        → t.entry_ticket ≡ some pos.ticket
        → IsTicketed t
        → AreTicketed before.store
        → IsAdopted pos before (with_store (add t after.store) after)
    unfolding add get
    add-IsAdopted pos t before after same ticket own ids = rw same (
      ticketed,
      values-insert (has pos.ticket) t.id t before.store (entry_ticket-has pos.ticket t ticket),
      λ n held.
          find_first-insert (has n) t.id t before.store
            (λ old found h. rw (own ∙ sym (ids t.id old found)) h) held,
    )
      where
        ticketed : AreTicketed (insert t.id t before.store)
        ticketed k u e =
            let found : (if t.id == k then some t else lookup k before.store) ≡ some u =
              sym (lookup-insert t.id k t before.store) ∙ e in
            elim (Bool-cases (t.id == k)) [
              | inl here ↦
                  let same_id : t.id ≡ k = ground (arith, eq_iff t.id k, here) in
                  subst (λ (x : Trade F). x.entry_ticket ≡ some (ticket_of k))
                    (some-injective _ _ (rw here at found))
                    (subst (λ i. t.entry_ticket ≡ some (ticket_of i)) same_id own)
              | inr other ↦ ids k u (rw other at found)
            ]

    adopt-IsAdopted :
        (tracked : List (Trade F)) (pos : Position F) (st : ManagerState F)
        → IsNamed pos
        → AreTicketed st.store
        → (is_tracked pos.ticket tracked ≡ true → IsHeld pos.ticket st.store)
        → IsAdopted pos st (adopt cfg b tracked pos st)
    unfolding adopt get_by_ticket
    adopt-IsAdopted tracked pos st named ids known =
        elim (Bool-cases (is_tracked pos.ticket tracked)) [
          | inl there ↦ if_true (IsAdopted pos st) _ _ there (ids, known there, λ n h. h)
          | inr missing ↦
              if_false (IsAdopted pos st) _ _ missing
                (by_found (record_of cfg b pos st) (record_of-IsFor pos st named))
        ]
      where
        by_found :
            (x : ManagerState F × Trade F)
            → IsFor pos st x
            → IsAdopted pos st (
                if is_some (get_by_ticket pos.ticket x.0.store)
                then x.0
                else with_store (add x.1 x.0.store) x.0)
        by_found (after, t) (same, ticket, own) =
            elim (Bool-cases (is_some (get_by_ticket pos.ticket after.store))) [
              | inl held ↦ if_true (IsAdopted pos st) _ _ held (unchanged after same held)
              | inr lost ↦
                  if_false (IsAdopted pos st) _ _ lost
                    (add-IsAdopted pos t st after same ticket own ids)
            ]
          where
            unchanged :
                (after : ManagerState F)
                → after.store ≡ st.store
                → IsHeld pos.ticket after.store
                → IsAdopted pos st after
            unchanged after same held = (rw same ids, held, λ n h. rw same h)

    reconcile-All :
        (tracked : List (Trade F)) (positions : List (Position F)) (st : ManagerState F)
        → All IsNamed positions
        → AreTicketed st.store
        → ((n : ℕ) → is_tracked n tracked ≡ true → IsHeld n st.store)
        → All (λ pos. IsHeld pos.ticket (reconcile cfg b tracked positions st).store) positions
          × ((n : ℕ) → IsHeld n st.store → IsHeld n (reconcile cfg b tracked positions st).store)
    unfolding reconcile
    reconcile-All tracked [] st named ids known = (tt, λ n h. h)
    reconcile-All tracked (pos ∷ rest) st named ids known =
        let one = adopt-IsAdopted tracked pos st named.0 ids (known pos.ticket) in
        let more =
          reconcile-All tracked rest (adopt cfg b tracked pos st) named.1 one.0
            (λ n h. one.2 n (known n h)) in
        ((more.1 pos.ticket one.1, more.0), λ n h. more.1 n (one.2 n h))

    -- After the poll has reconciled the store with the broker's positions, the store finds a trade
    -- for the ticket of each of them. The id of a trade determines its ticket: in the store, in the
    -- saved rows and in the ids of stubs.
    pub reconcile-get_by_ticket :
        (positions : List (Position F)) (st : ManagerState F)
        → All IsNamed positions
        → AreTicketed st.store
        → All
            (λ pos.
              is_some (
                get_by_ticket pos.ticket
                  (reconcile cfg b (get_open_trades st.store) positions st).store)
              ≡ true)
            positions
    unfolding get_by_ticket get_open_trades
    reconcile-get_by_ticket positions st named ids =
        (reconcile-All (get_open_trades st.store) positions st named ids
          (λ n. is_tracked-IsHeld n (λ t. is_open t.status) (values st.store))).0
