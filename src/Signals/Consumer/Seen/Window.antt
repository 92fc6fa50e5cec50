-- ===== src/Signals/Consumer/Seen/Window.antt =====
-- How long a key is remembered.
use execution_engine_multi.Prelude.{
  ℕ, ◌+◌, ◌≤◌, ◌<◌, ◌≡◌, refl, sym, subst, true, false, none, some, List, [], ◌∷◌, ◌++◌, length,
  length-append, arith, leb, eq_iff, if◌then◌else◌, Bool-cases, inl, inr,
}
use execution_engine_multi.Signals.Consumer.Seen.{
  Key, same_key, is_seen, pop_oldest, enter, admit_key,
}

pub same_key_refl : (k : Key) → same_key k k ≡ true
same_key_refl (event, id) = ground (arith, eq_iff event event, eq_iff id id)

-- The table after a key was offered.
abbrev pub after_key : ℕ → List Key → Key → List Key
after_key limit seen k = elim (admit_key limit k seen) [ none ↦ seen | some seen' ↦ seen' ]

-- The key stands in the table with at most so many keys after it.
pub data Within (k : Key) (n : ℕ) : List Key → Type 0 where
  here : {later : List Key} → length later ≤ n → Within k n (k ∷ later)
  there : {j : Key} {seen : List Key} → Within k n seen → Within k n (j ∷ seen)

Within-seen : {k : Key} {n : ℕ} {seen : List Key} → Within k n seen → is_seen k seen ≡ true
Within-seen {k} (here h) = ground (arith, same_key_refl k)
Within-seen {k} (there {j} {seen} w) = ground (arith, Within-seen w)

Within-last :
    (k j : Key) {n : ℕ} {seen : List Key} → Within k n seen → Within k (n + 1) (seen ++ j ∷ [])
Within-last k j (here {later} h) = here (omega (arith, length-append {0} later (j ∷ []), h))
Within-last k j (there w) = there (Within-last k j w)

Within-new : (k : Key) (seen : List Key) → Within k 0 (seen ++ k ∷ [])
Within-new k [] = here (omega arith)
Within-new k (j ∷ seen) = there (Within-new k seen)

Within-pop :
    {k : Key} {n : ℕ} {seen : List Key}
    → Within k n seen
    → n + 1 < length seen
    → Within k n (pop_oldest seen)
Within-pop (here h) more = absurd (omega arith)
Within-pop (there w) more = w

Within-le : {k : Key} {n m : ℕ} {seen : List Key} → Within k n seen → n ≤ m → Within k m seen
Within-le (here h) le = here (omega arith)
Within-le (there w) le = there (Within-le w le)

Within-after :
    (limit : ℕ) (k j : Key) {n : ℕ} {seen : List Key}
    → Within k n seen
    → n + 1 < limit
    → Within k (n + 1) (after_key limit seen j)
unfolding admit_key enter
Within-after limit k j {n} {seen} w room = elim (Bool-cases (is_seen j seen)) [
  | inl old ↦ rw (old, after_key) (Within-le w (omega arith))
  | inr new ↦
      rw (new, after_key)
        (elim (Bool-cases (leb limit (length seen))) [
          | inl full ↦ rw full (Within-last k j (Within-pop w (ground arith)))
          | inr spare ↦ rw spare (Within-last k j w)
        ])
]

-- The table after a list of keys was offered.
abbrev pub after_keys : ℕ → List Key → List Key → List Key
after_keys limit seen [] = seen
after_keys limit seen (k ∷ ks) = after_keys limit (after_key limit seen k) ks

Within-keys :
    (limit : ℕ) (k : Key) (ks : List Key) {n : ℕ} {seen : List Key}
    → Within k n seen
    → n + length ks < limit
    → Within k (n + length ks) (after_keys limit seen ks)
Within-keys limit k [] w room = Within-le w (omega arith)
Within-keys limit k (j ∷ ks) {n} {seen} w room =
    Within-le (Within-keys limit k ks (Within-after limit k j w (omega arith)) (omega arith))
      (omega arith)

Within-enter : (limit : ℕ) (k : Key) (seen : List Key) → Within k 0 (enter limit k seen)
unfolding enter
Within-enter limit k seen = Within-new k (if leb limit (length seen) then pop_oldest seen else seen)

-- A key that passed is refused again as long as fewer keys than the capacity were offered after it.
pub remembered :
    (limit : ℕ) (k : Key) (seen ks : List Key) {seen' : List Key}
    → admit_key limit k seen ≡ some seen'
    → length ks < limit
    → admit_key limit k (after_keys limit seen' ks) ≡ none
unfolding admit_key enter
remembered limit k seen ks {seen'} passed few = elim (Bool-cases (is_seen k seen)) [
  | inl old ↦ cc
  | inr new ↦
      let entered : seen' ≡ enter limit k seen = ground (arith, new) in
      let w : Within k (0 + length ks) (after_keys limit seen' ks) =
        Within-keys limit k ks (subst (Within k 0) (sym entered) (Within-enter limit k seen))
          (omega arith) in
      rw (Within-seen w) refl
]

-- A key that was not seen passes.
pub admit_key-new :
    (limit : ℕ) (k : Key) (seen : List Key)
    → is_seen k seen ≡ false
    → admit_key limit k seen ≡ some (enter limit k seen)
unfolding admit_key
admit_key-new limit k seen new = rw new refl

length-pop : (seen : List Key) → length (pop_oldest seen) ≤ length seen
length-pop [] = omega arith
length-pop (k ∷ seen) = omega arith

length-after :
    (limit : ℕ) (k : Key) (seen : List Key)
    → 0 < limit
    → length seen ≤ limit
    → length (after_key limit seen k) ≤ limit
unfolding admit_key enter
length-after limit k [] pos le = ground arith
length-after limit k (j ∷ seen) pos le = ground (arith, length-append {0} seen (k ∷ []))

-- The table never holds more keys than its capacity.
pub seen_bounded :
    (limit : ℕ) (ks seen : List Key)
    → 0 < limit
    → length seen ≤ limit
    → length (after_keys limit seen ks) ≤ limit
seen_bounded limit [] seen pos le = le
seen_bounded limit (k ∷ ks) seen pos le =
    seen_bounded limit ks (after_key limit seen k) pos (length-after limit k seen pos le)
