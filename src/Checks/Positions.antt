-- ===== src/Checks/Positions.antt =====
-- The theorems of the position manager and of the trade store on one open trade and on one stub.
use execution_engine_multi.Prelude.{
  ℕ, ◌+◌, ◌≡◌, refl, true, false, none, some, is_some, List, [], ◌∷◌, map, keep, length, eqb,
  if◌then◌else◌,
}
use execution_engine_multi.Prelude.{◌||◌, ◌==◌, String}
use execution_engine_multi.Prelude.Int.{ℤ, ◌+ℤ◌, ◌-ℤ◌}
use execution_engine_multi.Checks.Floats.{Python-ℤ, FloatOrder-ℤ}
use execution_engine_multi.Checks.Samples.{dec, execution_config, symbol_info, trade}
use execution_engine_multi.Domain.Position.{Position, PositionSide}
use execution_engine_multi.Domain.Trade.{Trade}
use execution_engine_multi.Brokers.{Tick}
use execution_engine_multi.Positions.Store.{get}
use execution_engine_multi.Positions.Manager.{
  trade_stub_from_position, valid_breakeven_sl, breakeven_anchor, breakeven_buffer, protected_sl,
  is_allowed, min_distance,
}
use execution_engine_multi.Positions.Manager.State.{ManagerState, Broker}
use execution_engine_multi.Positions.Manager.Poll.{handle_missing}
use execution_engine_multi.Prelude.{◌+◌}
use execution_engine_multi.Brokers.{executed, executed_unconfirmed}
use execution_engine_multi.Positions.Manager.Closed.{
  IsClosedAs, IsEnded, handle_position_gone-IsEnded,
}
use execution_engine_multi.Positions.Manager.Breakeven.{IsBreakeven, valid_breakeven_sl-IsBreakeven}
use execution_engine_multi.Positions.Manager.Eviction.{handle_missing-thrice}
use execution_engine_multi.Positions.Manager.Closing.{quotes, failures, emergency_close_all}
use execution_engine_multi.Positions.Manager.Closing.Coverage.{emergency_close_all-Covers}

-- A market above the first target.
abbrev tick : Tick ℤ
tick = record { bid = dec 1106 3; ask = dec 11061 4 }

abbrev broker : Broker ℤ
broker = record {
  symbol_info = λ s. some symbol_info;
  tick = λ s. some tick;
  be_symbol_info = λ s. some symbol_info;
  be_tick = λ s. some tick;
  close = λ c. executed;
  modify_ok = λ m. true;
  deal_price = λ n. some none;
  save_ok = λ t. true;
  saved = [];
  now = 2000;
}

abbrev position : Position ℤ
position = record {
  ticket = 42;
  symbol = "EURUSD";
  side = PositionSide.buy;
  lots = dec 2 1;
  open_price = dec 11002 4;
  current_price = dec 1106 3;
  stop_loss = dec 1095 3;
  take_profit = dec 1115 3;
  swap = dec 0 0;
  profit = dec 0 0;
  open_time = 1010;
  magic = 77;
}

abbrev holding : Trade ℤ → ManagerState ℤ
holding t = record {
  store = (t.id, t) ∷ [];
  last_price = λ n. none;
  misses = λ s. 0;
  trace = [];
  is_aborted = false;
}

-- The first close is executed, but not confirmed; the second is.
abbrev polls : List (Broker ℤ × List (Position ℤ))
polls =
    (record broker { close = λ c. executed_unconfirmed }, position ∷ [])
    ∷ (broker, position ∷ [])
    ∷ (record broker { modify_ok = λ m. false }, position ∷ [])
    ∷ []

handle_position_gone-IsEnded_example :
    IsEnded (record broker { deal_price = λ n. none }) trade trade refl broker (holding trade)
unfolding get
handle_position_gone-IsEnded_example =
    handle_position_gone-IsEnded (record broker { deal_price = λ n. none }) trade trade refl broker
      (holding trade) refl refl

abbrev stub : Trade ℤ
stub = trade_stub_from_position 1000 position

handle_missing-thrice_example :
    let second =
      handle_missing execution_config broker stub
        (handle_missing execution_config broker stub (holding stub)) in
    (second.store ≡ (holding stub).store)
    × (second.trace ≡ (holding stub).trace)
    × IsClosedAs stub (holding stub) (handle_missing execution_config broker stub second)
unfolding get trade_stub_from_position
handle_missing-thrice_example =
    handle_missing-thrice execution_config stub broker broker broker stub (holding stub) refl refl
      refl refl refl

valid_breakeven_sl-IsBreakeven_example :
    IsBreakeven trade symbol_info tick (dec 15 1) (dec 11002 4) (dec 110015 5)
unfolding valid_breakeven_sl breakeven_buffer protected_sl is_allowed min_distance breakeven_anchor
    ◌+ℤ◌ ◌-ℤ◌
valid_breakeven_sl-IsBreakeven_example =
    valid_breakeven_sl-IsBreakeven FloatOrder-ℤ trade symbol_info tick (dec 15 1) (dec 10 0)
      (dec 11002 4) (dec 110015 5) refl refl

emergency_close_all-Covers_example :
    let r = emergency_close_all execution_config broker (some (position ∷ [])) in
    (map (λ x. x.0.ticket) r.sent
      ≡ map (λ pos. pos.ticket) (keep (λ pos. is_some (quotes broker pos.symbol)) (position ∷ [])))
    × ((n : ℕ) × (r.failure ≡ (if eqb n 0 then none else some (failures n)))
        × (length (keep (λ x. x.1) r.sent) + n ≡ 1))
emergency_close_all-Covers_example =
    emergency_close_all-Covers execution_config broker (position ∷ [])

-- The broker also has a position that no record knows.
abbrev other_position : Position ℤ
other_position = record position { ticket = 43; symbol = "GBPUSD" }

abbrev ticket_of : String → ℕ
ticket_of id = if id == "t1" || id == "STUB_EURUSD_n_BUY" then 42 else 43
