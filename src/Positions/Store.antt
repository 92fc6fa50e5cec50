-- ===== src/Positions/Store.antt =====
-- src/positions/store.py: `PositionStore`, a dict of trades by their id under one lock. Each
-- method is one critical section. `copy.deepcopy` makes the values of the model.
pub mod Laws
pub mod Stored
pub mod Held
use execution_engine_multi.Prelude.{
  ℕ, String, ◌==◌, Bool, false, Option, none, some, List, [], ◌∷◌, Dict, lookup, insert, erase,
  values, keep, find_first, length, eqb,
}
use execution_engine_multi.Domain.Trade.{Trade, is_open}

abbrev pub has_ticket : ℕ → Option ℕ → Bool
has_ticket ticket none = false
has_ticket ticket (some n) = eqb n ticket

module _ {F : Type 0} where
  -- `add`
  unfoldable pub add : Trade F → Dict (Trade F) → Dict (Trade F)
  add t trades = insert t.id t trades

  -- `update`: `patch` stands for the `setattr` calls, which act on a known trade only.
  pub update : String → (Trade F → Trade F) → ℕ → Dict (Trade F) → Dict (Trade F) × Option (Trade F)
  update k patch now trades = elim (lookup k trades) [
    | none ↦ (trades, none)
    | some t ↦
        let t' : Trade F = record (patch t) { updated_at = now } in (insert k t' trades, some t')
  ]

  pub remove : String → Dict (Trade F) → Dict (Trade F)
  remove k trades = erase k trades

  pub hydrate : List (Trade F) → Dict (Trade F) → Dict (Trade F)
  hydrate [] trades = trades
  hydrate (t ∷ ts) trades = hydrate ts (insert t.id t trades)

  unfoldable pub get : String → Dict (Trade F) → Option (Trade F)
  get k trades = lookup k trades

  unfoldable pub get_by_signal_id : String → Dict (Trade F) → Option (Trade F)
  get_by_signal_id sid trades = find_first (λ t. t.signal_id == sid) (values trades)

  unfoldable pub get_by_ticket : ℕ → Dict (Trade F) → Option (Trade F)
  get_by_ticket ticket trades = find_first (λ t. has_ticket ticket t.entry_ticket) (values trades)

  unfoldable pub get_open_trades : Dict (Trade F) → List (Trade F)
  get_open_trades trades = keep (λ t. is_open t.status) (values trades)

  pub get_all : Dict (Trade F) → List (Trade F)
  get_all trades = values trades

  pub size : Dict (Trade F) → ℕ
  size trades = length trades
