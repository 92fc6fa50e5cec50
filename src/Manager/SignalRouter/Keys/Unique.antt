-- ===== src/Manager/SignalRouter/Keys/Unique.antt =====
-- The keys of the table `signal_deliveries` stay unique.
use execution_engine_multi.Prelude.{
  ℕ, ◌≡◌, refl, String, false, List, [], ◌∷◌, ◌++◌, map, All, All-append, or_false, if_ind,
  Bool-cases, inl, inr,
}
use execution_engine_multi.Manager.SignalRouter.{
  Delivery, DeliveryStatus, pending, has_key, contains_key, inserted, queue_signal_delivery,
  record_signal_outcome,
}
use execution_engine_multi.Manager.SignalRouter.Table.{AreUnique}
use execution_engine_multi.Manager.SignalRouter.Keys.{mark, touch}

AreUnique-append :
    (new : Delivery) (rows : List Delivery)
    → AreUnique rows
    → contains_key new.signal_id new.agent_id rows ≡ false
    → AreUnique (rows ++ new ∷ [])
unfolding AreUnique
AreUnique-append new [] u h = (tt, tt)
AreUnique-append new (r ∷ rows) u h =
    let (miss, later) = or_false (has_key new.signal_id new.agent_id r) _ h in
    (
      All-append (λ d. has_key d.signal_id d.agent_id r ≡ false) rows (new ∷ []) u.0 (miss, tt),
      AreUnique-append new rows u.1 later,
    )

-- A change that leaves the keys alone.
abbrev pub KeepsKey : (Delivery → Delivery) → Type 0
KeepsKey f = (r : Delivery) → ((f r).signal_id ≡ r.signal_id) × ((f r).agent_id ≡ r.agent_id)

All-misses :
    (f : Delivery → Delivery) (r : Delivery) (rows : List Delivery)
    → KeepsKey f
    → All (λ d. has_key d.signal_id d.agent_id r ≡ false) rows
    → All (λ d. has_key d.signal_id d.agent_id (f r) ≡ false) (map f rows)
All-misses f r [] k h = tt
All-misses f r (d ∷ rows) k h =
    (rw ((k r).0) (rw ((k r).1) (rw ((k d).0) (rw ((k d).1) h.0))), All-misses f r rows k h.1)

pub AreUnique-map :
    (f : Delivery → Delivery) (rows : List Delivery)
    → KeepsKey f
    → AreUnique rows
    → AreUnique (map f rows)
unfolding AreUnique
AreUnique-map f [] k u = tt
AreUnique-map f (r ∷ rows) k u = (All-misses f r rows k u.0, AreUnique-map f rows k u.1)

pub AreUnique-queue :
    (s a payload : String) (expires_at now : ℕ) (rows : List Delivery)
    → AreUnique rows
    → AreUnique (queue_signal_delivery s a payload expires_at now rows)
unfolding queue_signal_delivery
AreUnique-queue s a payload expires_at now rows u = elim (Bool-cases (contains_key s a rows)) [
  | inl found ↦ rw found u
  | inr missing ↦
      rw missing (AreUnique-append (inserted s a payload pending expires_at now) rows u missing)
]

pub AreUnique-record :
    (s a payload : String) (status : DeliveryStatus) (now : ℕ) (rows : List Delivery)
    → AreUnique rows
    → AreUnique (record_signal_outcome s a payload status now rows)
unfolding record_signal_outcome mark
AreUnique-record s a payload status now rows u = elim (Bool-cases (contains_key s a rows)) [
  | inl found ↦ rw found (
      AreUnique-map (touch s a (mark status now)) rows
        (λ r.
          if_ind (λ (x : Delivery). (x.signal_id ≡ r.signal_id) × (x.agent_id ≡ r.agent_id))
            (has_key s a r) (refl, refl) (refl, refl))
        u)
  | inr missing ↦ rw missing (AreUnique-append (inserted s a payload status now now) rows u missing)
]
