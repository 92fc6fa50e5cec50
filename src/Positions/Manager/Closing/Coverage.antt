-- ===== src/Positions/Manager/Closing/Coverage.antt =====
-- The emergency stop asks for the close of every position that has a quote.
use execution_engine_multi.Prelude.{
  ℕ, ◌+◌, ◌≡◌, refl, ap, Bool, true, false, Option, none, some, is_some, List, [], ◌∷◌, ◌++◌, map,
  keep, length, eqb, arith, if◌then◌else◌,
}
use execution_engine_multi.Prelude.Python.{Python}
use execution_engine_multi.Config.{ExecutionConfig}
use execution_engine_multi.Domain.Position.{Position, SymbolInfo}
use execution_engine_multi.Brokers.{Tick, CloseRequest}
use execution_engine_multi.Positions.Manager.State.{close_returns, Broker}
use execution_engine_multi.Positions.Manager.Closing.{
  failures, quotes, close_request, try_close, close_each, emergency_close_all,
}

module _ {F : Type 0} ⦃py : Python F⦄ (cfg : ExecutionConfig F) (b : Broker F) where
  abbrev is_quoted : Position F → Bool
  is_quoted pos = is_some (quotes b pos.symbol)

  abbrev done : List (CloseRequest F × Bool) → List (CloseRequest F × Bool)
  done xs = keep (λ x. x.1) xs

  -- The orders and the errors of a loop over the positions.
  abbrev Covers : List (Position F) → List (CloseRequest F × Bool) × ℕ → Type 0
  Covers positions r =
      (map (λ x. x.0.ticket) r.0 ≡ map (λ pos. pos.ticket) (keep is_quoted positions))
      × (length (done r.0) + r.1 ≡ length positions)

  -- One position before the others.
  Covers-try :
      (pos : Position F) (rest : List (Position F)) (q : Option (SymbolInfo F × Tick F))
      (later : List (CloseRequest F × Bool) × ℕ)
      → quotes b pos.symbol ≡ q
      → Covers rest later
      → Covers
          (pos ∷ rest)
          ((try_close cfg b pos q).0 ++ later.0, (try_close cfg b pos q).1 + later.1)
  unfolding try_close close_request
  Covers-try pos rest none later e h = (rw e h.0, omega (arith, h.1))
  Covers-try pos rest (some q) later e h = (
    rw e (ap (λ (ts : List ℕ). pos.ticket ∷ ts) h.0),
    by_answer (close_returns b (close_request cfg b pos q)),
  )
    where
      by_answer :
          (ok : Bool)
          → length (done ((close_request cfg b pos q, ok) ∷ later.0))
              + ((if ok then 0 else 1) + later.1)
            ≡ length (pos ∷ rest)
      by_answer true = omega (arith, h.1)
      by_answer false = omega (arith, h.1)

  close_each-Covers :
      (positions : List (Position F)) → Covers positions (close_each cfg b positions)
  unfolding close_each
  close_each-Covers [] = (refl, refl)
  close_each-Covers (pos ∷ rest) =
      Covers-try pos rest (quotes b pos.symbol) (close_each cfg b rest) refl
        (close_each-Covers rest)

  -- An emergency stop that knows the positions sends a close order for each of them that has a quote,
  -- in their order, whatever fails before it; it ends without an exception exactly if every position
  -- was closed, and its exception counts the others.
  pub emergency_close_all-Covers :
      (positions : List (Position F))
      → let r = emergency_close_all cfg b (some positions) in
        (map (λ x. x.0.ticket) r.sent
          ≡ map (λ pos. pos.ticket) (keep (λ pos. is_some (quotes b pos.symbol)) positions))
        × ((n : ℕ) × (r.failure ≡ (if eqb n 0 then none else some (failures n)))
            × (length (keep (λ x. x.1) r.sent) + n ≡ length positions))
  unfolding emergency_close_all
  emergency_close_all-Covers positions =
      let h = close_each-Covers positions in (h.0, ((close_each cfg b positions).1, refl, h.1))
