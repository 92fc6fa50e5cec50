-- ===== src/Positions/Manager/Closing.antt =====
-- src/positions/manager.py: `emergency_close_all` and `close_trade`, the closes that an operator asks
-- for. The store is left to the next poll.
pub mod Coverage
use execution_engine_multi.Prelude.{
  ℕ, ◌+◌, ◌++◌, String, Bool, Option, none, some, List, [], ◌∷◌, Dict, find_first, eqb,
  if◌then◌else◌,
}
use execution_engine_multi.Prelude.Python.{Python}
use execution_engine_multi.Config.{ExecutionConfig}
use execution_engine_multi.Domain.Position.{Position, PositionSide, SymbolInfo, order_filling_mode}
use execution_engine_multi.Domain.Trade.{Trade}
use execution_engine_multi.Brokers.{Tick, CloseRequest}
use execution_engine_multi.Utils.Price.{normalise_lots}
use execution_engine_multi.Positions.Store
use execution_engine_multi.Positions.Manager.{order_side_of}
use execution_engine_multi.Positions.Manager.State.{close_returns, Broker}

-- What the two methods raise.
pub data CloseError : Type 0 where
  unreachable trade_not_found position_not_found no_quote refused : CloseError
  failures : ℕ → CloseError

-- The orders sent with the broker's answers, and the exception, if any.
pub record Closing (F : Type 0) : Type 0 where
  pub sent : List (CloseRequest F × Bool)
  pub failure : Option CloseError

module _ {F : Type 0} where
  abbrev closing_price : PositionSide → Tick F → F
  closing_price PositionSide.buy t = t.bid
  closing_price PositionSide.sell t = t.ask

  -- `_mt5_pos` answers for the symbol: `none` where either call fails.
  pub quotes : Broker F → String → Option (SymbolInfo F × Tick F)
  quotes b symbol = elim (b.symbol_info symbol) [
    | none ↦ none
    | some si ↦ elim (b.tick symbol) [ none ↦ none | some tick ↦ some (si, tick) ]
  ]

module _ {F : Type 0} ⦃py : Python F⦄ (cfg : ExecutionConfig F) (b : Broker F) where
  pub close_request : Position F → SymbolInfo F × Tick F → CloseRequest F
  close_request pos (si, tick) = record {
    ticket = pos.ticket;
    symbol = pos.symbol;
    side = order_side_of pos.side;
    volume = normalise_lots pos.lots si.volume_step si.volume_min si.volume_max;
    price = closing_price pos.side tick;
    slippage = cfg.slippage;
    magic = cfg.magic;
    filling_mode = order_filling_mode si;
  }

  -- One position: the order, if there is a quote, and whether it counts as an error.
  pub try_close : Position F → Option (SymbolInfo F × Tick F) → List (CloseRequest F × Bool) × ℕ
  try_close pos none = ([], 1)
  try_close pos (some q) =
      let order = close_request pos q in
      ((order, close_returns b order) ∷ [], if close_returns b order then 0 else 1)

  -- The loop goes on after a failure.
  pub close_each : List (Position F) → List (CloseRequest F × Bool) × ℕ
  close_each [] = ([], 0)
  close_each (pos ∷ rest) =
      let first = try_close pos (quotes b pos.symbol) in
      let later = close_each rest in (first.0 ++ later.0, first.1 + later.1)

  pub emergency_close_all : Option (List (Position F)) → Closing F
  emergency_close_all none = record { sent = []; failure = some unreachable }
  emergency_close_all (some positions) =
      let all = close_each positions in
      record { sent = all.0; failure = if eqb all.1 0 then none else some (failures all.1) }

  close_one : Option (Position F) → Closing F
  close_one none = record { sent = []; failure = some position_not_found }
  close_one (some pos) = elim (quotes b pos.symbol) [
    | none ↦ record { sent = []; failure = some no_quote }
    | some q ↦
        let order = close_request pos q in
        record {
          sent = (order, close_returns b order) ∷ [];
          failure = if close_returns b order then none else some refused;
        }
  ]

  -- The position is the first with the ticket of the trade. `positions` is what the broker reports,
  -- or `none` where it does not answer.
  close_trade : String → Dict (Trade F) → Option (List (Position F)) → Closing F
  close_trade id trades positions = elim (Store.get id trades) [
    | none ↦ record { sent = []; failure = some trade_not_found }
    | some t ↦ elim t.entry_ticket [
      | none ↦ record { sent = []; failure = some trade_not_found }
      | some ticket ↦ elim positions [
        | none ↦ record { sent = []; failure = some unreachable }
        | some ps ↦ close_one (find_first (λ pos. eqb pos.ticket ticket) ps)
      ]
    ]
  ]
