-- ===== src/Manager/SignalRouter/Table.antt =====
-- One pass over the table handles every due delivery once, and no other row.
use execution_engine_multi.Prelude.{
  ℕ, ◌≡◌, refl, sym, ap, ◌∙◌, eq_iff, Bool, true, false, List, [], ◌∷◌, keep, map, All, arith, leb,
  if◌then◌else◌, if_ind, if_true, if_false,
}
use execution_engine_multi.Manager.SignalRouter.{
  Delivery, Outside, apply_change, change_of, has_key, update_signal_delivery, is_due, insert_due,
  sort_due, list_due_signal_deliveries, process_all, process_due_deliveries,
}
use execution_engine_multi.Manager.SignalRouter.Deadline.{pass}

-- `d` names the row `r`.
abbrev names : Delivery → Delivery → Bool
names d r = has_key d.signal_id d.agent_id r

names_self : (r : Delivery) → names r r ≡ true
names_self r = ground (arith, eq_iff r.signal_id r.signal_id, eq_iff r.agent_id r.agent_id)

names_sym : (d r : Delivery) → names d r ≡ names r d
names_sym d r = ground (
  arith,
  eq_iff d.signal_id r.signal_id,
  eq_iff r.signal_id d.signal_id,
  eq_iff d.agent_id r.agent_id,
  eq_iff r.agent_id d.agent_id,
)

-- No two rows have one key.
unfoldable pub AreUnique : List Delivery → Type 0
AreUnique [] = Unit
AreUnique (r ∷ rows) = All (λ d. names d r ≡ false) rows × AreUnique rows

abbrev Misses : Delivery → List Delivery → Type 0
Misses r ds = All (λ d. names d r ≡ false) ds

-- The row is in the list, and no other entry names it.
data Once (r : Delivery) : List Delivery → Type 0 where
  here : {ds : List Delivery} → Misses r ds → Once r (r ∷ ds)
  there : {d : Delivery} {ds : List Delivery} → names d r ≡ false → Once r ds → Once r (d ∷ ds)

module _ (out : Outside) where
  hit : Delivery → Delivery → Delivery
  hit d r = if names d r then apply_change out.now (change_of out d) r else r

  -- What a list of handled deliveries makes of one row.
  follow : List Delivery → Delivery → Delivery
  follow [] r = r
  follow (d ∷ ds) r = follow ds (hit d r)

  map-map :
      (f g : Delivery → Delivery) (rows : List Delivery)
      → map f (map g rows) ≡ map (λ r. f (g r)) rows
  map-map f g [] = refl
  map-map f g (r ∷ rows) = ap (λ (xs : List Delivery). f (g r) ∷ xs) (map-map f g rows)

  map-id : (rows : List Delivery) → map (λ (r : Delivery). r) rows ≡ rows
  map-id [] = refl
  map-id (r ∷ rows) = ap (λ (xs : List Delivery). r ∷ xs) (map-id rows)

  process_all-follow : (ds rows : List Delivery) → process_all out ds rows ≡ map (follow ds) rows
  unfolding process_all follow update_signal_delivery hit
  process_all-follow [] rows = sym (map-id rows)
  process_all-follow (d ∷ ds) rows =
      process_all-follow ds
        (update_signal_delivery d.signal_id d.agent_id out.now (change_of out d) rows)
      ∙ map-map (follow ds) (hit d) rows

  follow-Misses : (ds : List Delivery) (r : Delivery) → Misses r ds → follow ds r ≡ r
  unfolding follow hit
  follow-Misses [] r h = refl
  follow-Misses (d ∷ ds) r h =
      ap (follow ds) (if_false (λ (x : Delivery). x ≡ r) (names d r) _ h.0 refl)
      ∙ follow-Misses ds r h.1

  follow-Once :
      (r : Delivery) (ds : List Delivery)
      → Once r ds
      → follow ds r ≡ apply_change out.now (change_of out r) r
  unfolding follow hit apply_change
  follow-Once r _ (here {ds} h) =
      ap (follow ds) (if_true (λ (x : Delivery). x ≡ changed r) (names r r) _ (names_self r) refl)
      ∙ follow-Misses ds (changed r) h
    where
      changed : Delivery → Delivery
      changed r = apply_change out.now (change_of out r) r
  follow-Once r _ (there {d} {ds} miss h) =
      ap (follow ds) (if_false (λ (x : Delivery). x ≡ r) (names d r) _ miss refl)
      ∙ follow-Once r ds h

Misses-insert :
    (r d : Delivery) (ds : List Delivery)
    → names d r ≡ false
    → Misses r ds
    → Misses r (insert_due d ds)
unfolding insert_due
Misses-insert r d [] miss h = (miss, tt)
Misses-insert r d (e ∷ es) miss h =
    if_ind (Misses r) (leb d.next_attempt_at e.next_attempt_at) (miss, h)
      (h.0, Misses-insert r d es miss h.1)

Misses-sort : (r : Delivery) (ds : List Delivery) → Misses r ds → Misses r (sort_due ds)
unfolding sort_due
Misses-sort r [] h = tt
Misses-sort r (d ∷ ds) h = Misses-insert r d (sort_due ds) h.0 (Misses-sort r ds h.1)

Misses-keep :
    (p : Delivery → Bool) (r : Delivery) (ds : List Delivery) → Misses r ds → Misses r (keep p ds)
Misses-keep p r [] h = tt
Misses-keep p r (d ∷ ds) h =
    if_ind (Misses r) (p d) (h.0, Misses-keep p r ds h.1) (Misses-keep p r ds h.1)

Once-insert_self : (r : Delivery) (ds : List Delivery) → Misses r ds → Once r (insert_due r ds)
unfolding insert_due
Once-insert_self r [] h = here tt
Once-insert_self r (e ∷ es) h =
    if_ind (Once r) (leb r.next_attempt_at e.next_attempt_at) (here h)
      (there h.0 (Once-insert_self r es h.1))

Once-insert :
    (r d : Delivery) (ds : List Delivery) → names d r ≡ false → Once r ds → Once r (insert_due d ds)
unfolding insert_due
Once-insert r d _ miss (here {ds} h) =
    if_ind (Once r) (leb d.next_attempt_at r.next_attempt_at) (there miss (here h))
      (here (Misses-insert r d ds miss h))
Once-insert r d _ miss (there {d = e} {ds = es} other h) =
    if_ind (Once r) (leb d.next_attempt_at e.next_attempt_at) (there miss (there other h))
      (there other (Once-insert r d es miss h))

-- A due row is once in the list of due rows, any other is not in it.
module _ (now : ℕ) where
  abbrev Listed : List Delivery → Delivery → Type 0
  Listed ds r = if is_due now r then Once r ds else Misses r ds

  Listed-insert :
      (d : Delivery) (ds : List Delivery) (r : Delivery)
      → names d r ≡ false
      → Listed ds r
      → Listed (insert_due d ds) r
  Listed-insert d ds r miss = by_due (is_due now r)
    where
      by_due :
          (due : Bool)
          → (if due then Once r ds else Misses r ds)
          → (if due then Once r (insert_due d ds) else Misses r (insert_due d ds))
      by_due true h = Once-insert r d ds miss h
      by_due false h = Misses-insert r d ds miss h

  Listed-insert-All :
      (d : Delivery) (ds rows : List Delivery)
      → Misses d rows
      → All (Listed ds) rows
      → All (Listed (insert_due d ds)) rows
  Listed-insert-All d ds [] misses h = tt
  Listed-insert-All d ds (r ∷ rows) misses h = (
    Listed-insert d ds r (names_sym d r ∙ misses.0) h.0,
    Listed-insert-All d ds rows misses.1 h.1,
  )

  All-Listed :
      (rows : List Delivery)
      → AreUnique rows
      → All (Listed (sort_due (keep (is_due now) rows))) rows
  unfolding AreUnique sort_due insert_due
  All-Listed [] u = tt
  All-Listed (r ∷ rows) u = by_due (All-Listed rows u.1) (is_due now r)
    where
      due_rows : List Delivery
      due_rows = sort_due (keep (is_due now) rows)

      away : Misses r due_rows
      away = Misses-sort r (keep (is_due now) rows) (Misses-keep (is_due now) r rows u.0)

      by_due :
          All (Listed (sort_due (keep (is_due now) rows))) rows
          → (due : Bool)
          → (if due
              then Once r
                  (sort_due (if due then r ∷ keep (is_due now) rows else keep (is_due now) rows))
              else Misses r
                  (sort_due (if due then r ∷ keep (is_due now) rows else keep (is_due now) rows)))
            × All
                (Listed
                  (sort_due (if due then r ∷ keep (is_due now) rows else keep (is_due now) rows)))
                rows
      by_due later true =
          (Once-insert_self r due_rows away, Listed-insert-All r due_rows rows u.0 later)
      by_due later false = (away, later)

map-cong :
    (f g : Delivery → Delivery) (P : Delivery → Type 0)
    → ((r : Delivery) → P r → f r ≡ g r)
    → (rows : List Delivery) → All P rows
    → map f rows ≡ map g rows
map-cong f g P same [] h = refl
map-cong f g P same (r ∷ rows) h =
    ap (λ (x : Delivery). x ∷ map f rows) (same r h.0)
    ∙ ap (λ (xs : List Delivery). g r ∷ xs) (map-cong f g P same rows h.1)

follow-pass :
    (out : Outside) (ds : List Delivery) (r : Delivery)
    → Listed out.now ds r
    → follow out ds r ≡ pass out r
unfolding pass
follow-pass out ds r = by_due (is_due out.now r)
  where
    by_due :
        (due : Bool)
        → (if due then Once r ds else Misses r ds)
        → follow out ds r ≡ (if due then apply_change out.now (change_of out r) r else r)
    by_due true h = follow-Once out r ds h
    by_due false h = follow-Misses out ds r h

-- One pass over a table without duplicate keys treats every row by itself: it gives each due delivery
-- its change exactly once, whatever the order, and leaves every other row as it is.
pub process_due_deliveries_lem :
    (out : Outside) (rows : List Delivery)
    → AreUnique rows
    → process_due_deliveries out rows ≡ map (pass out) rows
unfolding process_due_deliveries list_due_signal_deliveries
process_due_deliveries_lem out rows u =
    let due = sort_due (keep (is_due out.now) rows) in
    process_all-follow out due rows
    ∙ map-cong (follow out due) (pass out) (Listed out.now due) (follow-pass out due) rows
        (All-Listed out.now rows u)
