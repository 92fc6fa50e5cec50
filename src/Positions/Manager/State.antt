-- ===== src/Positions/Manager/State.antt =====
-- src/positions/manager.py: the fields of `PositionManager` with the store that it shares, what the
-- broker and the repository answer in one poll, and what the poll does to the outside.
use execution_engine_multi.Prelude.{
  ℕ, String, ◌==◌, Bool, Option, List, [], ◌∷◌, ◌++◌, Dict, eqb, if◌then◌else◌,
}
use execution_engine_multi.Domain.Position.{SymbolInfo}
use execution_engine_multi.Domain.Trade.{Trade}
use execution_engine_multi.Brokers.{Tick, CloseRequest, CloseReply, is_executed, ModifyRequest}

-- The orders with the broker's answer, the calls of `save`, whatever it answers, and the events.
pub data Effect (F : Type 0) : Type 0 where
  close_sent : CloseRequest F → CloseReply → Effect F
  levels_sent : ModifyRequest F → (is_done : Bool) → Effect F
  save_called trade_tp1_hit trade_tp2_hit trade_sl_hit trade_closed : Trade F → Effect F

-- `_last_price` and `_stub_miss_count` are read with a default only, so they are functions.
pub record ManagerState (F : Type 0) : Type 0 where
  pub store : Dict (Trade F)
  pub last_price : ℕ → Option F
  pub misses : String → ℕ
  pub trace : List (Effect F)
  -- An exception has left the loop of the poll.
  pub is_aborted : Bool

-- The answers in one poll, `none` where a call raises or returns `None`. `deal_price` is `none` where
-- the call raises, and `some none` where it returns `None`. `be_symbol_info` and
-- `be_tick` are the second reads, which the break-even step makes where the first gave nothing;
-- `saved` is what `load_open_trades` reads.
pub record Broker (F : Type 0) : Type 0 where
  pub symbol_info : String → Option (SymbolInfo F)
  pub tick : String → Option (Tick F)
  pub be_symbol_info : String → Option (SymbolInfo F)
  pub be_tick : String → Option (Tick F)
  pub close : CloseRequest F → CloseReply
  pub modify_ok : ModifyRequest F → Bool
  pub deal_price : Option ℕ → Option (Option F)
  pub save_ok : Trade F → Bool
  pub saved : List (Trade F)
  pub now : ℕ

module _ {F : Type 0} where
  abbrev pub emit : Effect F → ManagerState F → ManagerState F
  emit e st = record st { trace = st.trace ++ e ∷ [] }

  abbrev pub with_store : Dict (Trade F) → ManagerState F → ManagerState F
  with_store trades st = record st { store = trades }

  -- `_last_price[ticket] = price` and `.pop(ticket, None)`.
  abbrev pub set_last_price : ℕ → Option F → ManagerState F → ManagerState F
  set_last_price ticket price st = record st {
    last_price = λ k. if eqb k ticket then price else st.last_price k;
  }

  -- `_stub_miss_count[id] = n`; `pop` sets it back to 0.
  abbrev pub set_misses : String → ℕ → ManagerState F → ManagerState F
  set_misses id n st = record st { misses = λ k. if k == id then n else st.misses k }

  -- `close_position` returns: the order is done and confirmed.
  abbrev pub close_returns : Broker F → CloseRequest F → Bool
  close_returns b order = is_executed (b.close order)
