-- ===== src/Execution/State/Pending.antt =====
-- A release undoes its reservation.
use execution_engine_multi.Prelude.{
  ℕ, ◌+◌, ◌≡◌, ◌≢◌, refl, String, eq_iff, false, none, some, List, [], ◌∷◌, Dict, lookup, insert,
  erase, lookup-insert, member, set_add, discard, arith, Option-cases, inl, inr,
}
use execution_engine_multi.Execution.State.{count_up, count_down}

insert_back :
    (k : String) (n m : ℕ) (d : Dict ℕ) → lookup k d ≡ some n → insert k n (insert k m d) ≡ d
insert_back k n m [] h = cc
insert_back k n m ((j, w) ∷ d) h = ground (arith, insert_back k n m d)

erase_back :
    (k : String) (n m : ℕ) (d : Dict ℕ)
    → lookup k d ≡ none
    → erase k (insert k n (insert k m d)) ≡ d
erase_back k n m [] h = ground (arith, eq_iff k k)
erase_back k n m ((j, w) ∷ d) h = ground (arith, erase_back k n m d)

lookup-insert_self : (k : String) (v : ℕ) (d : Dict ℕ) → lookup k (insert k v d) ≡ some v
lookup-insert_self k v d = ground (arith, lookup-insert k k v d, eq_iff k k)

-- No stored count is zero: `_release` drops such an entry.
abbrev pub IsCounted : Dict ℕ → Type 0
IsCounted pending = (k : String) → lookup k pending ≢ some 0

pub count_down-count_up : (k : String) (d : Dict ℕ) → IsCounted d → count_down k (count_up k d) ≡ d
unfolding count_down count_up
count_down-count_up k d ok = elim (Option-cases (lookup k d)) [
  | inl absent ↦ ground (arith, lookup-insert_self k 1 d, erase_back k 0 1 d absent)
  | inr (n, e) ↦ ground (arith, ok k, lookup-insert_self k (n + 1) d, insert_back k n (n + 1) d e)
]

discard_absent : (x : String) (xs : List String) → member x xs ≡ false → discard x xs ≡ xs
discard_absent x [] h = refl
discard_absent x (y ∷ ys) h = ground (arith, discard_absent x ys)

pub discard-set_add :
    (x : String) (xs : List String) → member x xs ≡ false → discard x (set_add x xs) ≡ xs
discard-set_add x xs h = ground (arith, eq_iff x x, discard_absent x xs h)
