-- ===== src/Positions/Manager.antt =====
-- src/positions/manager.py: the functions below the class, which read a trade, a symbol and a tick.
pub mod State
pub mod Lifecycle
pub mod Gone
pub mod Poll
pub mod Counts
pub mod Partials
pub mod Quiet
pub mod Closed
pub mod Breakeven
pub mod Eviction
pub mod Closing
use Prim.Native.Char.{code}
use Prim.Native.String.{◌++◌}
use execution_engine_multi.Prelude.{
  ℕ, ◌+◌, String, Bool, true, false, not, ◌||◌, Option, none, some, eqb, ltb, leb, if◌then◌else◌,
}
use execution_engine_multi.Prelude.Python.{Python, zero_f, min_f, max_f}
use execution_engine_multi.Domain.Position.{Position, PositionSide, SymbolInfo}
use execution_engine_multi.Domain.Trade.{OrderSide, buy, sell, Trade, TradePlan, opened}
use execution_engine_multi.Brokers.{Tick}

-- `text.startswith(prefix)`
abbrev pub starts_with : (prefix text : String) → Bool
starts_with String.[] text = true
starts_with (String.◌∷◌ c s) String.[] = false
starts_with (String.◌∷◌ c s) (String.◌∷◌ d t) =
    let rest = starts_with s t in if eqb (code c) (code d) then rest else false

abbrev pub is_stub : {F : Type 0} → Trade F → Bool
is_stub t = starts_with "STUB_" t.id

-- The truth of an optional number: `None` and 0 are false.
abbrev pub truthy_ticket : Option ℕ → Bool
truthy_ticket none = false
truthy_ticket (some n) = not (eqb n 0)

abbrev pub order_side_of : PositionSide → OrderSide
order_side_of PositionSide.buy = OrderSide.buy
order_side_of PositionSide.sell = OrderSide.sell

abbrev side_name : OrderSide → String
side_name buy = "BUY"
side_name sell = "SELL"

module _ {F : Type 0} ⦃py : Python F⦄ where
  abbrev pub truthy_price : Option F → Bool
  truthy_price none = false
  truthy_price (some x) = not (py.eqb x zero_f)

  -- The reward over the risk, with the sign of the side.
  abbrev pub rr_of : (risk reward : F) → F
  rr_of risk reward = if py.leb risk zero_f then zero_f else py.div reward risk

  pub calculate_realized_rr : Trade F → F → F
  calculate_realized_rr t close_price = elim t.entry_price [
    | none ↦ zero_f
    | some entry ↦ if py.eqb entry zero_f || py.eqb t.stop_loss entry then zero_f else elim t.side [
      | buy ↦ rr_of (py.sub entry t.stop_loss) (py.sub close_price entry)
      | sell ↦ rr_of (py.sub t.stop_loss entry) (py.sub entry close_price)
    ]
  ]

  is_profitable_close : Trade F → Bool
  is_profitable_close t = elim t.entry_price [
    | none ↦ false
    | some entry ↦ elim t.close_price [
      | none ↦ false
      | some close ↦ elim t.side [ buy ↦ py.ltb entry close | sell ↦ py.ltb close entry ]
    ]
  ]

  is_losing_close : Trade F → Bool
  is_losing_close t = elim t.entry_price [
    | none ↦ false
    | some entry ↦ elim t.close_price [
      | none ↦ false
      | some close ↦ elim t.side [ buy ↦ py.ltb close entry | sell ↦ py.ltb entry close ]
    ]
  ]

  -- The entry of the signal, or of the fill where the plan has no signal.
  unfoldable pub breakeven_anchor : Trade F → F → F
  breakeven_anchor t fill = elim t.plan.signal [ none ↦ fill | some s ↦ s.entry_price ]

  -- How far past the anchor the stop goes.
  unfoldable pub breakeven_buffer :
      (entry original_stop bid ask spread_multiplier max_buffer_pct : F) → F
  breakeven_buffer entry original_stop bid ask spread_multiplier max_buffer_pct =
      let initial_risk = py.abs (py.sub entry original_stop) in
      let spread = max_f (py.sub ask bid) zero_f in
      let multiplier = max_f spread_multiplier zero_f in
      let risk_cap = py.div (py.mul initial_risk (max_f max_buffer_pct zero_f)) (py.lit 100 0) in
      if py.eqb multiplier zero_f
      then zero_f
      else max_f spread (min_f (py.mul spread multiplier) risk_cap)

  -- The larger of the two broker distances and one more point.
  unfoldable pub min_distance : SymbolInfo F → F
  min_distance si =
      let points = if ltb si.stops_level si.freeze_level then si.freeze_level else si.stops_level in
      py.mul (py.lit (points + 1) 0) si.point

  abbrev pub digits_or_five : SymbolInfo F → ℕ
  digits_or_five si = if eqb si.digits 0 then 5 else si.digits

  unfoldable pub protected_sl : OrderSide → (entry buffer : F) → F
  protected_sl buy entry buffer = py.add entry buffer
  protected_sl sell entry buffer = py.sub entry buffer

  -- The quote is there, and the level is far enough from it.
  unfoldable pub is_allowed : OrderSide → Tick F → (distance level : F) → Bool
  is_allowed buy tick distance level =
      if py.leb tick.bid zero_f then false else py.leb level (py.sub tick.bid distance)
  is_allowed sell tick distance level =
      if py.leb tick.ask zero_f then false else py.leb (py.add tick.ask distance) level

  -- `_valid_breakeven_sl`
  unfoldable pub valid_breakeven_sl :
      Trade F → SymbolInfo F → Tick F → (spread_multiplier max_buffer_pct : F) → Option F
  valid_breakeven_sl t si tick spread_multiplier max_buffer_pct = elim t.entry_price [
    | none ↦ none
    | some fill ↦
        let entry = breakeven_anchor t fill in
        let buffer =
          breakeven_buffer entry t.plan.stop_loss tick.bid tick.ask spread_multiplier
            max_buffer_pct in
        let level = protected_sl t.side entry buffer in
        if is_allowed t.side tick (min_distance si) level
        then some (py.round level (digits_or_five si))
        else none
  ]

  -- `_trade_stub_from_position`: the plan has no signal.
  abbrev stub_plan : ℕ → Position F → TradePlan F
  stub_plan ts pos = record {
    signal_id = "unknown";
    symbol = pos.symbol;
    side = order_side_of pos.side;
    entry_price = pos.open_price;
    stop_loss = pos.stop_loss;
    tp1 = pos.take_profit;
    tp2 = pos.take_profit;
    lot_size = pos.lots;
    risk_amount = zero_f;
    risk_percent = zero_f;
    risk_reward_ratio = zero_f;
    planned_at = ts;
    signal = none;
    tp1_lots = zero_f;
    risk_multiplier = py.lit 1 0;
  }

  abbrev stub_id : Position F → String
  stub_id pos =
      "STUB_"
      ++ pos.symbol
      ++ "_"
      ++ py.show_int pos.ticket
      ++ "_"
      ++ side_name (order_side_of pos.side)

  unfoldable pub trade_stub_from_position : ℕ → Position F → Trade F
  trade_stub_from_position ts pos = record {
    id = stub_id pos;
    signal_id = "unknown";
    symbol = pos.symbol;
    side = order_side_of pos.side;
    status = opened;
    plan = stub_plan ts pos;
    entry_ticket = some pos.ticket;
    entry_price = some pos.open_price;
    entry_lots = pos.lots;
    current_lots = pos.lots;
    tp1_lots = zero_f;
    stop_loss = pos.stop_loss;
    tp1 = pos.take_profit;
    tp2 = pos.take_profit;
    was_tp1_hit = false;
    tp1_hit_at = none;
    tp1_close_price = none;
    was_tp2_hit = false;
    tp2_hit_at = none;
    was_sl_hit = false;
    sl_hit_at = none;
    opened_at = some pos.open_time;
    closed_at = none;
    close_reason = none;
    close_price = none;
    realized_pnl = none;
    realized_rr = none;
    created_at = ts;
    updated_at = ts;
  }
