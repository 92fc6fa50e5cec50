-- ===== src/Manager/SignalRouter/Keys.antt =====
-- The table `signal_deliveries` as a function from its keys: what a statement does to the row under a
-- key.
pub mod Unique
use mathlib.Core.Option
use execution_engine_multi.Prelude.{
  ℕ, ◌≡◌, refl, sym, ◌∙◌, eq_iff, String, ◌==◌, Bool, true, false, ◌&&◌, Option, none, some,
  is_some, or_default, none-ne-some, some-injective, subst, List, [], ◌∷◌, ◌++◌, map, arith,
  if◌then◌else◌, if_ind, Bool-cases, inl, inr,
}
use execution_engine_multi.Manager.SignalRouter.{
  Delivery, DeliveryStatus, pending, has_key, contains_key, inserted, queue_signal_delivery,
  record_signal_outcome, get_signal_delivery,
}

abbrev pub is_key : (signal_id agent_id other_signal other_agent : String) → Bool
is_key s a s' a' = (s' == s) && (a' == a)

get-some :
    (s a : String) (rows : List Delivery) (r : Delivery)
    → get_signal_delivery s a rows ≡ some r
    → has_key s a r ≡ true
get-some s a [] r e = elim (none-ne-some r e) [ ]
get-some s a (x ∷ rows) r e = by_test (has_key s a x) refl (get-some s a rows r) e
  where
    by_test :
        (b : Bool)
        → has_key s a x ≡ b
        → (get_signal_delivery s a rows ≡ some r → has_key s a r ≡ true)
        → (if b then some x else get_signal_delivery s a rows) ≡ some r
        → has_key s a r ≡ true
    by_test true hit later h = subst (λ y. has_key s a y ≡ true) (some-injective x r h) hit
    by_test false miss later h = later h

pub is_key-same : (s a s' a' : String) → is_key s a s' a' ≡ true → (s' ≡ s) × (a' ≡ a)
is_key-same s a s' a' e = ground (arith, eq_iff s' s, eq_iff a' a, e)

contains_key-get :
    (s a : String) (rows : List Delivery)
    → contains_key s a rows ≡ is_some (get_signal_delivery s a rows)
contains_key-get s a [] = refl
contains_key-get s a (r ∷ rows) = ground (arith, contains_key-get s a rows)

-- A search of the key `s a` in a row that has it finds the key `s' a'` there if they are equal.
has_key-is_key :
    (s a s' a' : String) (r : Delivery) → has_key s a r ≡ true → has_key s' a' r ≡ is_key s a s' a'
has_key-is_key s a s' a' r e = ground (
  arith,
  eq_iff r.signal_id s,
  eq_iff r.signal_id s',
  eq_iff r.agent_id a,
  eq_iff r.agent_id a',
  eq_iff s' s,
  eq_iff a' a,
)

is_key-contains :
    (s a s' a' : String) (rows : List Delivery)
    → is_key s a s' a' ≡ true
    → contains_key s' a' rows ≡ is_some (get_signal_delivery s a rows)
is_key-contains s a s' a' rows e =
    let (same_s, same_a) = is_key-same s a s' a' e in
    subst (λ x. contains_key x a' rows ≡ is_some (get_signal_delivery s a rows)) (sym same_s)
      (subst (λ x. contains_key s x rows ≡ is_some (get_signal_delivery s a rows)) (sym same_a)
        (contains_key-get s a rows))

abbrev or_new : Option Delivery → Option Delivery → Option Delivery
or_new none new = new
or_new (some r) new = some r

get-append :
    (s a : String) (new : Delivery) (rows : List Delivery)
    → get_signal_delivery s a (rows ++ new ∷ [])
      ≡ or_new (get_signal_delivery s a rows) (if has_key s a new then some new else none)
get-append s a new [] = refl
get-append s a new (r ∷ rows) = elim (Bool-cases (has_key s a r)) [
  | inl hit ↦ rw hit refl
  | inr miss ↦ rw miss (get-append s a new rows)
]

-- Changed rows that keep their keys are found where the old ones are.
pub get-map :
    (s a : String) (f : Delivery → Delivery) (rows : List Delivery)
    → ((r : Delivery) → has_key s a (f r) ≡ has_key s a r)
    → get_signal_delivery s a (map f rows) ≡ Option.map f (get_signal_delivery s a rows)
get-map s a f [] same = refl
get-map s a f (r ∷ rows) same = elim (Bool-cases (has_key s a r)) [
  | inl hit ↦ rw (same r) (rw hit refl)
  | inr miss ↦ rw (same r) (rw miss (get-map s a f rows same))
]

is_some-map : (f : Delivery → Delivery) (o : Option Delivery) → is_some (Option.map f o) ≡ is_some o
is_some-map f none = refl
is_some-map f (some r) = refl

-- The two cases of an insertion under a key. The row under the key that is looked for is `o` before
-- and `o'` after an update, and `wanted` tells whether the keys are equal.
when_found :
    (o o' : Option Delivery) (new : Delivery) (wanted : Bool)
    → (wanted ≡ true → true ≡ is_some o')
    → (if wanted then o' else o) ≡ (if wanted then some (or_default o' new) else o)
when_found o o' new false h = refl
when_found o (some r) new true h = refl
when_found o none new true h = let e = h refl in cc

when_new :
    (o o' : Option Delivery) (new : Delivery) (wanted : Bool)
    → is_some o' ≡ is_some o
    → (wanted ≡ true → false ≡ is_some o)
    → or_new o (if wanted then some new else none)
      ≡ (if wanted then some (or_default o' new) else o)
when_new none o' new false same h = refl
when_new (some r) o' new false same h = refl
when_new none none new true same h = refl
when_new none (some r) new true same h = cc
when_new (some r) o' new true same h = let e = h refl in cc

pub get-queue :
    (s a s' a' payload : String) (expires_at now : ℕ) (rows : List Delivery)
    → get_signal_delivery s a (queue_signal_delivery s' a' payload expires_at now rows) ≡ (
        if is_key s a s' a'
        then some (
            or_default
              (get_signal_delivery s a rows)
              (inserted s' a' payload pending expires_at now))
        else get_signal_delivery s a rows)
unfolding queue_signal_delivery
get-queue s a s' a' payload expires_at now rows = elim (Bool-cases (contains_key s' a' rows)) [
  | inl found ↦ rw found (
      if_ind (λ o'. old ≡ o') wanted refl refl
      ∙ when_found old old new wanted (λ same. sym found ∙ here same))
  | inr missing ↦
      rw missing (
        get-append s a new rows
        ∙ when_new old old new wanted refl (λ same. sym missing ∙ here same))
]
  where
    old : Option Delivery
    old = get_signal_delivery s a rows

    new : Delivery
    new = inserted s' a' payload pending expires_at now

    wanted : Bool
    wanted = is_key s a s' a'

    here : wanted ≡ true → contains_key s' a' rows ≡ is_some old
    here = is_key-contains s a s' a' rows

pub mark : DeliveryStatus → ℕ → Delivery → Delivery
mark status now r = record r { status = status; error = ""; updated_at = now }

-- The update of the rows that have the key `s' a'`.
abbrev pub touch : (s' a' : String) → (Delivery → Delivery) → Delivery → Delivery
touch s' a' f r = if has_key s' a' r then f r else r

some-if : (b : Bool) (x y : Delivery) → some (if b then x else y) ≡ (if b then some x else some y)
some-if true x y = refl
some-if false x y = refl

map-touch :
    (s a s' a' : String) (f : Delivery → Delivery) (rows : List Delivery)
    → Option.map (touch s' a' f) (get_signal_delivery s a rows) ≡ (
        if is_key s a s' a'
        then Option.map f (get_signal_delivery s a rows)
        else get_signal_delivery s a rows)
map-touch s a s' a' f rows = by_row (get_signal_delivery s a rows) (get-some s a rows)
  where
    by_row :
        (o : Option Delivery)
        → ((r : Delivery) → o ≡ some r → has_key s a r ≡ true)
        → Option.map (touch s' a' f) o ≡ (if is_key s a s' a' then Option.map f o else o)
    by_row none h = if_ind (λ o. none ≡ o) (is_key s a s' a') refl refl
    by_row (some r) h =
        rw (has_key-is_key s a s' a' r (h r refl)) (some-if (is_key s a s' a') (f r) r)

pub get-record :
    (s a s' a' payload : String) (status : DeliveryStatus) (now : ℕ) (rows : List Delivery)
    → get_signal_delivery s a (record_signal_outcome s' a' payload status now rows) ≡ (
        if is_key s a s' a'
        then some (
            or_default
              (Option.map (mark status now) (get_signal_delivery s a rows))
              (inserted s' a' payload status now now))
        else get_signal_delivery s a rows)
unfolding record_signal_outcome mark
get-record s a s' a' payload status now rows = elim (Bool-cases (contains_key s' a' rows)) [
  | inl found ↦ rw found (
      get-map s a (touch s' a' (mark status now)) rows
        (λ r. if_ind (λ x. has_key s a x ≡ has_key s a r) (has_key s' a' r) refl refl)
      ∙ map-touch s a s' a' (mark status now) rows
      ∙ when_found old marked new wanted
          (λ same. sym found ∙ here same ∙ sym (is_some-map (mark status now) old)))
  | inr missing ↦ rw missing (
      get-append s a new rows
      ∙ when_new old marked new wanted (is_some-map (mark status now) old)
          (λ same. sym missing ∙ here same))
]
  where
    old : Option Delivery
    old = get_signal_delivery s a rows

    marked : Option Delivery
    marked = Option.map (mark status now) old

    new : Delivery
    new = inserted s' a' payload status now now

    wanted : Bool
    wanted = is_key s a s' a'

    here : wanted ≡ true → contains_key s' a' rows ≡ is_some old
    here = is_key-contains s a s' a' rows
