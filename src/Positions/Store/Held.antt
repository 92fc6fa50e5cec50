-- ===== src/Positions/Store/Held.antt =====
-- The store's trades by their tickets, after an insertion.
use execution_engine_multi.Prelude.{
  ℕ, ◌≡◌, refl, ap, subst, String, ◌==◌, Bool, true, Option, none, some, is_some, List, [], ◌∷◌,
  Dict, lookup, insert, values, find_first, arith, eqb, Bool-cases, inl, inr, if_ind,
  some-injective, none-ne-some,
}
use execution_engine_multi.Domain.Trade.{Trade}
use execution_engine_multi.Positions.Store.{has_ticket}

module _ {F : Type 0} where
  abbrev pub has : ℕ → Trade F → Bool
  has ticket t = has_ticket ticket t.entry_ticket

  -- A trade of the store has the ticket.
  abbrev pub IsHeld : ℕ → Dict (Trade F) → Type 0
  IsHeld ticket trades = is_some (find_first (has ticket) (values trades)) ≡ true

  -- An insertion that keeps the test on what it replaces loses no entry that passes it.
  pub find_first-insert :
      (p : Trade F → Bool) (k : String) (t : Trade F) (d : Dict (Trade F))
      → ((old : Trade F) → lookup k d ≡ some old → p old ≡ true → p t ≡ true)
      → is_some (find_first p (values d)) ≡ true
      → is_some (find_first p (values (insert k t d))) ≡ true
  find_first-insert p k t [] h e = cc
  find_first-insert p k t ((j, w) ∷ d) h e = elim (Bool-cases (j == k)) [
    | inl same ↦ rw same (elim (Bool-cases (p w)) [
      | inl old ↦ rw (h w (rw same refl) old) refl
      | inr none_here ↦
          if_ind (λ (o : Option (Trade F)). is_some o ≡ true) (p t) refl (rw none_here at e)
    ])
    | inr other ↦ rw other (elim (Bool-cases (p w)) [
      | inl old ↦ rw old refl
      | inr none_here ↦
          rw none_here
            (find_first-insert p k t d (λ old found. h old (rw other found)) (rw none_here at e))
    ])
  ]

  pub find_first-holds :
      (p : Trade F → Bool) (ts : List (Trade F)) (t : Trade F)
      → find_first p ts ≡ some t
      → p t ≡ true
  find_first-holds p [] t e = elim (none-ne-some t e) [ ]
  find_first-holds p (u ∷ ts) t e = elim (Bool-cases (p u)) [
    | inl hit ↦ subst (λ (x : Trade F). p x ≡ true) (some-injective _ _ (rw hit at e)) hit
    | inr miss ↦ find_first-holds p ts t (rw miss at e)
  ]

  pub has-entry_ticket :
      (ticket : ℕ) (t : Trade F) → has ticket t ≡ true → t.entry_ticket ≡ some ticket
  has-entry_ticket ticket t e = by_ticket t.entry_ticket e
    where
      by_ticket : (o : Option ℕ) → has_ticket ticket o ≡ true → o ≡ some ticket
      by_ticket none h = cc
      by_ticket (some n) h = ap some (same n h)
        where
          same : (n : ℕ) → eqb n ticket ≡ true → n ≡ ticket
          same n h = ground arith

  pub entry_ticket-has :
      (ticket : ℕ) (t : Trade F) → t.entry_ticket ≡ some ticket → has ticket t ≡ true
  entry_ticket-has ticket t e = rw e (ground arith)
