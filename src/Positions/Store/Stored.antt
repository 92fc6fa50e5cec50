-- ===== src/Positions/Store/Stored.antt =====
-- What holds of the trade that the store holds under a key.
use execution_engine_multi.Prelude.{
  ℕ, ◌≡◌, refl, sym, ◌∙◌, subst, String, ◌==◌, eq_iff, none, some, Dict, lookup, lookup-erase,
  if◌then◌else◌, arith, Option-cases, Bool-cases, inl, inr, some-injective, none-ne-some,
}
use execution_engine_multi.Domain.Trade.{Trade}
use execution_engine_multi.Positions.Store.{update, remove, get}
use execution_engine_multi.Positions.Store.Laws.{update_lem}

module _ {F : Type 0} (k : String) where
  -- The trade under the key, if any, carries the key as its id and has the property.
  abbrev pub Stored : (Trade F → Type 0) → Dict (Trade F) → Type 0
  Stored Q trades = (t : Trade F) → get k trades ≡ some t → (t.id ≡ k) × Q t

  abbrev stamped : (Trade F → Trade F) → ℕ → Trade F → Trade F
  stamped patch now t = record (patch t) { updated_at = now }

  module _ (patch : Trade F → Trade F) (now : ℕ) (trades : Dict (Trade F)) where
    pub get-update-none : get k trades ≡ none → update k patch now trades ≡ (trades, none)
    unfolding update get
    get-update-none e = rw (e, update) refl

    pub get-update-some :
        (t : Trade F)
        → get k trades ≡ some t
        → (update k patch now trades).1 ≡ some (stamped patch now t)
    unfolding update get
    get-update-some t e = rw (e, update) refl

    Stored-update :
        (Q Q' : Trade F → Type 0)
        → ((t : Trade F) → t.id ≡ k → Q t → ((patch t).id ≡ k) × Q' (stamped patch now t))
        → Stored Q trades
        → Stored Q' (update k patch now trades).0
    Stored-update Q Q' keep h t e = elim (Option-cases (get k trades)) [
      | inl absent ↦
          let gone : get k trades ≡ some t = rw (get-update-none absent) at e in
          elim (none-ne-some t (sym absent ∙ gone)) [ ]
      | inr (old, present) ↦
          let now_t : stamped patch now old ≡ t =
            some-injective _ _
              (sym (get-update-some old present) ∙ (update_lem k k patch now trades).0 ∙ e) in
          let kept = keep old (h old present).0 (h old present).1 in
          (subst (λ (x : Trade F). x.id ≡ k) now_t kept.0, subst Q' now_t kept.1)
    ]

  -- The same for the id of a trade that is the key.
  pub Stored-update_at :
      (j : String) (patch : Trade F → Trade F) (now : ℕ) (trades : Dict (Trade F))
      (Q Q' : Trade F → Type 0)
      → j ≡ k
      → ((t : Trade F) → t.id ≡ k → Q t → ((patch t).id ≡ k) × Q' (stamped patch now t))
      → Stored Q trades
      → Stored Q' (update j patch now trades).0
  Stored-update_at j patch now trades Q Q' e keep h =
      subst (λ i. Stored Q' (update i patch now trades).0) (sym e)
        (Stored-update patch now trades Q Q' keep h)

  -- Nothing is under a key that was removed.
  pub get-remove : (trades : Dict (Trade F)) → get k (remove k trades) ≡ none
  unfolding get remove
  get-remove trades = lookup-erase k k trades ∙ ground (arith, eq_iff k k)

  pub Stored-remove :
      (Q : Trade F → Type 0) (j : String) (trades : Dict (Trade F))
      → Stored Q trades
      → Stored Q (remove j trades)
  unfolding get remove
  Stored-remove Q j trades h t e =
      let left : (if j == k then none else lookup k trades) ≡ some t =
        sym (lookup-erase j k trades) ∙ e in
      elim (Bool-cases (j == k)) [
        | inl same ↦ elim (none-ne-some t (rw same at left)) [ ]
        | inr other ↦ h t (rw other at left)
      ]
