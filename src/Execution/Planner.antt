-- ===== src/Execution/Planner.antt =====
-- src/execution/planner.py: `TradePlanner.plan`. `tf_key` is the key of the signal's time
-- frames, which `_tf_pair_key` builds, and `planned_at` is the reading of the clock. The log line is
-- not modelled.
pub mod Sound
use execution_engine_multi.Prelude.{ℕ, String, Bool, ◌&&◌, ◌||◌, Option, none, some, if◌then◌else◌}
use execution_engine_multi.Prelude.Python.{Python, zero_f, one_f, min_f, max_f, or_f}
use execution_engine_multi.Config.{RiskConfig, ExecutionConfig}
use execution_engine_multi.Config.Overrides.{tp1_trigger_pct_for, tp1_percentage_for}
use execution_engine_multi.Domain.Signal.{InboundSignal, SignalDirection, long, short}
use execution_engine_multi.Domain.Position.{AccountInfo, SymbolInfo}
use execution_engine_multi.Domain.Trade.{TradePlan, OrderSide, buy, sell}
use execution_engine_multi.Utils.LotCalculator.{LotCalcResult, calculate_lot_size}
use execution_engine_multi.Risk.Loss.{LossTracker, daily_risk_amount}

abbrev pub side_of : SignalDirection → OrderSide
side_of long = buy
side_of short = sell

module _ {F : Type 0} ⦃py : Python F⦄ where
  -- An absent price and a price of zero are both false.
  spread_price : Option F → Option F → F
  spread_price none _ = zero_f
  spread_price (some ask) none = zero_f
  spread_price (some ask) (some bid) =
      if py.eqb ask zero_f || py.eqb bid zero_f then zero_f else py.sub ask bid

  -- A price moved with the direction of the trade, and one moved against it.
  abbrev ahead : SignalDirection → F → F → F
  ahead long price by = py.add price by
  ahead short price by = py.sub price by

  abbrev behind : SignalDirection → F → F → F
  behind long price by = py.sub price by
  behind short price by = py.add price by

  -- The stop that the size is calculated with: the distance from the worst allowed fill, and the
  -- spread on top.
  unfoldable pub sizing_stop : ExecutionConfig F → InboundSignal F → SymbolInfo F → F
  unfolding spread_price
  sizing_stop cfg s si =
      let surcharge = py.mul (spread_price si.ask si.bid) cfg.spread_risk_multiplier in
      let stop_distance = py.abs (py.sub s.entry_price s.stop_loss) in
      let slip = py.mul cfg.max_entry_slippage_pct_of_stop stop_distance in
      let pessimistic_entry = ahead s.direction s.entry_price slip in
      let distance = py.add (py.abs (py.sub pessimistic_entry s.stop_loss)) surcharge in
      behind s.direction s.entry_price distance

  -- `max(0.0, min(1.0, risk_multiplier))`
  unfoldable pub clamped_multiplier : F → F
  clamped_multiplier m = max_f zero_f (min_f one_f m)

  abbrev pub is_tp1_eligible : (trigger_pct close_pct : F) → Bool
  is_tp1_eligible trigger_pct close_pct =
      py.ltb zero_f close_pct && (py.ltb zero_f trigger_pct && py.ltb trigger_pct (py.lit 100 0))

  -- A volume rounded down to whole steps.
  abbrev whole_steps : F → F → F
  whole_steps step volume = py.mul (py.floor (py.div volume step)) step

  unfoldable pub tp1_volume : (trigger_pct close_pct : F) → SymbolInfo F → F → F
  tp1_volume trigger_pct close_pct si lots =
      let step = or_f si.volume_step (py.lit 1 2) in
      let part = py.round (whole_steps step (py.mul lots (py.div close_pct (py.lit 100 0)))) 2 in
      if is_tp1_eligible trigger_pct close_pct
      then (if py.ltb part step
          then zero_f
          else if py.leb lots part
          then py.round (whole_steps step (py.sub lots step)) 2
          else part)
      else zero_f

  static_tp1 : F → InboundSignal F → F
  static_tp1 trigger_pct s =
      ahead s.direction s.entry_price
        (py.mul (py.div trigger_pct (py.lit 100 0)) (py.abs (py.sub s.tp2 s.entry_price)))

  unfoldable pub sized :
      RiskConfig F
      → ExecutionConfig F
      → LossTracker F
      → InboundSignal F
      → SymbolInfo F
      → F
      → LotCalcResult F
  unfolding sizing_stop clamped_multiplier
  sized config cfg t s si risk_multiplier =
      calculate_lot_size
        (py.mul (daily_risk_amount config.max_losing_streak t) (clamped_multiplier risk_multiplier))
        s.entry_price (sizing_stop cfg s si) si config.max_lot_size config.min_lot_size

  unfoldable pub plan :
      RiskConfig F
      → ExecutionConfig F
      → (tf_key : Option String) (planned_at : ℕ) → LossTracker F
      → InboundSignal F
      → AccountInfo F
      → SymbolInfo F
      → F
      → TradePlan F
  unfolding clamped_multiplier tp1_volume static_tp1 sized
  plan config cfg tf_key planned_at t s account si risk_multiplier =
      let trigger_pct = tp1_trigger_pct_for cfg (some s.symbol) tf_key in
      let close_pct = tp1_percentage_for cfg (some s.symbol) tf_key in
      let calc = sized config cfg t s si risk_multiplier in
      record {
        signal_id = s.id;
        symbol = si.symbol;
        side = side_of s.direction;
        entry_price = s.entry_price;
        stop_loss = s.stop_loss;
        tp1 = static_tp1 trigger_pct s;
        tp2 = s.tp2;
        lot_size = calc.lot_size;
        risk_amount = calc.risk_amount;
        risk_percent =
            if py.eqb account.balance zero_f
            then zero_f
            else py.mul (py.div calc.risk_amount account.balance) (py.lit 100 0);
        risk_reward_ratio = s.risk_reward_ratio;
        planned_at = planned_at;
        signal = some s;
        tp1_lots = tp1_volume trigger_pct close_pct si calc.lot_size;
        risk_multiplier = clamped_multiplier risk_multiplier;
      }
