-- ===== src/Positions/Manager/Poll.antt =====
-- src/positions/manager.py: `_poll` and `hydrate_from_broker`. What the poll first tells the
-- execution engine about the daily loss is in Execution.Polling. The repository's reads do not raise.
pub mod Tracking
pub mod Managed
use execution_engine_multi.Prelude.{
  ℕ, ◌+◌, Bool, false, not, ◌&&◌, ◌||◌, Option, none, some, is_some, find_first, List, [], ◌∷◌, eqb,
  ltb, if◌then◌else◌,
}
use execution_engine_multi.Prelude.Python.{Python, zero_f}
use execution_engine_multi.Config.{ExecutionConfig}
use execution_engine_multi.Domain.Position.{Position}
use execution_engine_multi.Domain.Trade.{buy, sell, Trade}
use execution_engine_multi.Positions.Store
use execution_engine_multi.Positions.Manager.{is_stub, truthy_ticket, trade_stub_from_position}
use execution_engine_multi.Positions.Manager.State.{
  ManagerState, Broker, save_called, emit, with_store, set_last_price, set_misses,
}
use execution_engine_multi.Positions.Manager.Lifecycle.{handle_tp1_price_reached}
use execution_engine_multi.Positions.Manager.Gone.{handle_position_gone}

-- `_stub_miss_limit`
abbrev pub stub_miss_limit : ℕ
stub_miss_limit = 3

module _ {F : Type 0} where
  -- `pos.ticket in tracked_tickets`: a ticket of 0 is not collected.
  pub is_tracked : ℕ → List (Trade F) → Bool
  is_tracked ticket [] = false
  is_tracked ticket (t ∷ ts) =
      (truthy_ticket t.entry_ticket && Store.has_ticket ticket t.entry_ticket)
      || is_tracked ticket ts

  -- `TradeRepository.load_by_ticket` of src/infra/database.py
  unfoldable pub load_by_ticket : ℕ → List (Trade F) → Option (Trade F)
  load_by_ticket ticket saved = find_first (λ t. Store.has_ticket ticket t.entry_ticket) saved

  -- `broker_by_ticket`: the last position with the ticket.
  pub position_of : ℕ → List (Position F) → Option (Position F)
  position_of ticket [] = none
  position_of ticket (pos ∷ rest) = elim (position_of ticket rest) [
    | none ↦ if eqb pos.ticket ticket then some pos else none
    | some later ↦ some later
  ]

module _ {F : Type 0} ⦃py : Python F⦄ (cfg : ExecutionConfig F) (b : Broker F) where
  -- The saved record, or a stub, which is saved.
  record_of : Position F → ManagerState F → ManagerState F × Trade F
  record_of pos st = elim (load_by_ticket pos.ticket b.saved) [
    | some saved ↦ (st, saved)
    | none ↦ let stub = trade_stub_from_position b.now pos in (emit (save_called stub) st, stub)
  ]

  -- One position that the store may miss.
  adopt : List (Trade F) → Position F → ManagerState F → ManagerState F
  adopt tracked pos st =
      if is_tracked pos.ticket tracked
      then st
      else let found = record_of pos st in
        if is_some (Store.get_by_ticket pos.ticket found.0.store)
        then found.0
        else with_store (Store.add found.1 found.0.store) found.0

  pub reconcile : List (Trade F) → List (Position F) → ManagerState F → ManagerState F
  reconcile tracked [] st = st
  reconcile tracked (pos ∷ rest) st = reconcile tracked rest (adopt tracked pos st)

  -- A stub is given two more polls before it counts as gone.
  unfoldable pub miss_stub : Trade F → ℕ → ManagerState F → ManagerState F
  miss_stub t misses st =
      if ltb misses stub_miss_limit
      then set_misses t.id misses st
      else handle_position_gone b t (set_misses t.id 0 st)

  unfoldable pub handle_missing : Trade F → ManagerState F → ManagerState F
  handle_missing t st =
      if is_stub t then miss_stub t (st.misses t.id + 1) st else handle_position_gone b t st

  pub tp1_reached : Trade F → F → Bool
  tp1_reached t price =
      not t.was_tp1_hit
      && not (is_stub t)
      && not (py.eqb t.tp1 zero_f)
      && elim t.side [ buy ↦ py.leb t.tp1 price | sell ↦ py.leb price t.tp1 ]

  unfoldable pub handle_present : Trade F → ℕ → Position F → ManagerState F → ManagerState F
  handle_present t ticket pos st =
      let seen = set_last_price ticket (some pos.current_price) (set_misses t.id 0 st) in
      if tp1_reached t pos.current_price then handle_tp1_price_reached cfg b t seen else seen

  -- The body of the loop over the open trades.
  unfoldable pub manage : List (Position F) → Trade F → ManagerState F → ManagerState F
  manage positions t st = elim t.entry_ticket [
    | none ↦ st
    | some ticket ↦ elim (position_of ticket positions) [
      | none ↦ handle_missing t st
      | some pos ↦ handle_present t ticket pos st
    ]
  ]

  -- An exception ends the loop.
  manage_all : List (Position F) → List (Trade F) → ManagerState F → ManagerState F
  manage_all positions [] st = st
  manage_all positions (t ∷ ts) st =
      let rest = manage_all positions ts (manage positions t st) in
      if (manage positions t st).is_aborted then manage positions t st else rest

  -- `positions` is `none` where the broker does not answer.
  poll : Option (List (Position F)) → ManagerState F → ManagerState F
  poll none st = st
  poll (some positions) st =
      let reconciled =
        reconcile (Store.get_open_trades st.store) positions (record st { is_aborted = false }) in
      manage_all positions (Store.get_open_trades reconciled.store) reconciled

  -- `hydrate_from_broker`: the last saved row of a ticket wins. `saved` is empty where it cannot be
  -- read.
  saved_of : ℕ → List (Trade F) → Option (Trade F)
  saved_of ticket [] = none
  saved_of ticket (t ∷ ts) = elim (saved_of ticket ts) [
    | none ↦ if Store.has_ticket ticket t.entry_ticket then some t else none
    | some later ↦ some later
  ]

  hydrated_trade : List (Trade F) → Position F → Trade F
  hydrated_trade saved pos = elim (saved_of pos.ticket saved) [
    | none ↦ trade_stub_from_position b.now pos
    | some t ↦ record t { current_lots = pos.lots; stop_loss = pos.stop_loss }
  ]

  hydrated_trades : List (Trade F) → List (Position F) → List (Trade F)
  hydrated_trades saved [] = []
  hydrated_trades saved (pos ∷ rest) = hydrated_trade saved pos ∷ hydrated_trades saved rest

  save_stubs : List (Trade F) → List (Position F) → ManagerState F → ManagerState F
  save_stubs saved [] st = st
  save_stubs saved (pos ∷ rest) st = save_stubs saved rest (
      if is_some (saved_of pos.ticket saved)
      then st
      else emit (save_called (trade_stub_from_position b.now pos)) st)

  hydrate_from_broker :
      List (Trade F) → Option (List (Position F)) → ManagerState F → ManagerState F
  hydrate_from_broker saved none st = st
  hydrate_from_broker saved (some []) st = st
  hydrate_from_broker saved (some (pos ∷ rest)) st =
      let stubs = save_stubs saved (pos ∷ rest) st in
      with_store (Store.hydrate (hydrated_trades saved (pos ∷ rest)) stubs.store) stubs
