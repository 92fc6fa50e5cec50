-- ===== src/Positions/Store/Laws.antt =====
-- The reads of the trade store after its writes.
use execution_engine_multi.Prelude.{
  ℕ, ◌≡◌, refl, ◌∙◌, sym, String, ◌==◌, eq_iff, Bool, true, false, Option, none, some, [], ◌∷◌,
  Dict, lookup, insert, values, find_first, is_some, lookup-insert, arith,
}
use execution_engine_multi.Domain.Trade.{Trade}
use execution_engine_multi.Positions.Store.{update, get}

module _ {F : Type 0} where
  pub values-insert :
      (p : Trade F → Bool) (k : String) (t : Trade F) (d : Dict (Trade F))
      → p t ≡ true
      → is_some (find_first p (values (insert k t d))) ≡ true
  values-insert p k t [] e = ground arith
  values-insert p k t ((j, w) ∷ d) e = ground (arith, values-insert p k t d)

  -- `update` hands back the trade that the store then holds under the key, or nothing for a key that
  -- the store does not hold, and it changes the entry of no other key.
  pub update_lem :
      (k j : String) (patch : Trade F → Trade F) (now : ℕ) (trades : Dict (Trade F))
      → ((update k patch now trades).1 ≡ get k (update k patch now trades).0)
        × ((k == j) ≡ false → get j (update k patch now trades).0 ≡ get j trades)
  unfolding update get
  update_lem k j patch now trades = by_entry (lookup k trades) refl
    where
      IsWritten : Dict (Trade F) × Option (Trade F) → Type 0
      IsWritten (trades', result) =
          (result ≡ lookup k trades') × ((k == j) ≡ false → lookup j trades' ≡ lookup j trades)

      changed : Trade F → Trade F
      changed t = record (patch t) { updated_at = now }

      by_entry :
          (o : Option (Trade F))
          → lookup k trades ≡ o
          → IsWritten (elim o as (λ _. Dict (Trade F) × Option (Trade F)) [
            | none ↦ (trades, none)
            | some t ↦ (insert k (changed t) trades, some (changed t))
          ])
      by_entry none e = (sym e, λ _. refl)
      by_entry (some t) e = (
        sym (lookup-insert k k (changed t) trades ∙ ground (arith, eq_iff k k)),
        λ ne. lookup-insert k j (changed t) trades ∙ simp ne,
      )
