-- ===== src/Risk/Rules/Memory.antt =====
-- src/risk/rules.py: the rules that need no broker tick, from `loss_guard_rule` to
-- `daily_loss_limit_rule`.
pub mod Hedging
use execution_engine_multi.Prelude.{
  ℕ, ◌==◌, Bool, true, false, not, ◌&&◌, none, some, find_first, ltb, leb, if◌then◌else◌,
}
use execution_engine_multi.Prelude.Python.{Python, one_f}
use execution_engine_multi.Config.{RiskConfig}
use execution_engine_multi.Domain.Signal.{InboundSignal, SignalDirection, long, short}
use execution_engine_multi.Domain.Trade.{
  Trade, TradeStatus, planned, opened, partially_closed, OrderSide, buy, sell, side_eq,
}
use execution_engine_multi.Risk.Cluster
use execution_engine_multi.Risk.Throttle
use execution_engine_multi.Risk.Loss
use execution_engine_multi.Risk.Rules.Context.{
  risk_data_unavailable, loss_guard, cluster, no_hedging, max_open_trades, symbol_exposure,
  duplicate, daily_loss_stop, daily_loss_projection, RuleResult, RiskRule, no_data, approve, reject,
}

abbrev pub max_one : ℕ → ℕ
max_one n = if ltb 1 n then n else 1

abbrev pub is_live : TradeStatus → Bool
is_live planned = true
is_live opened = true
is_live partially_closed = true
is_live _ = false

abbrev pub incoming_side : SignalDirection → OrderSide
incoming_side long = buy
incoming_side short = sell

abbrev pub opposing_side : OrderSide → OrderSide
opposing_side buy = sell
opposing_side sell = buy

module _ {F : Type 0} ⦃py : Python F⦄ where
  unfoldable pub loss_guard_rule : RiskRule F
  loss_guard_rule ctx ts = elim ts.loss [
    | none ↦ (ts, approve)
    | some t ↦ (
      ts,
      (if not (Loss.risk_data_fresh ctx.clock.fresh_now t)
          then reject risk_data_unavailable
          else let (paused, why) = Loss.is_paused ctx.clock.pause_now t in
            if paused then reject (loss_guard why) else approve),
    )
  ]

  unfoldable pub cluster_result : Cluster.ClusterPreview F → RuleResult F
  cluster_result p = elim p.reason [
    | some why ↦ reject (cluster why)
    | none ↦ record {
      reason = none;
      entries = record no_data {
        cluster_name = p.cluster_name;
        risk_multiplier = some p.risk_multiplier;
        planned_cluster_risk_r = some p.planned_risk_r;
      };
    }
  ]

  unfoldable pub cluster_risk_rule : RiskRule F
  unfolding cluster_result
  cluster_risk_rule ctx ts = elim ts.cluster_tracker [
    | none ↦ (ts, approve)
    | some t ↦
        let (t', p) = Cluster.preview ctx.clock.today ctx.signal t in
        (record ts { cluster_tracker = some t' }, cluster_result p)
  ]

  unfoldable pub throttle_result : Throttle.ThrottlePreview F → RuleResult F
  throttle_result p =
      if py.ltb p.multiplier one_f
      then record {
        reason = none;
        entries = record no_data {
          equity_throttle_multiplier = some p.multiplier;
          equity_throttle_dd_r = some (py.round p.drawdown_r 4);
        };
      }
      else approve

  unfoldable pub equity_throttle_rule : RiskRule F
  unfolding throttle_result
  equity_throttle_rule ctx ts = elim ts.throttle [
    | none ↦ (ts, approve)
    | some (config, st) ↦
        let (st', p) = Throttle.preview config ctx.clock.throttle_now st in
        (record ts { throttle = some (config, st') }, throttle_result p)
  ]

  -- The test of the scan: the raw symbol of the signal against the symbol of the trade.
  abbrev pub opposes : InboundSignal F → Trade F → Bool
  opposes s t =
      t.symbol == s.symbol
      && side_eq t.side (opposing_side (incoming_side s.direction))
      && is_live t.status

  unfoldable pub no_hedging_rule : RiskRule F
  no_hedging_rule ctx ts = (
    ts,
    (if not ctx.config.no_hedging
        then approve
        else elim (find_first (opposes ctx.signal) ctx.open_trades) [
          | none ↦ approve
          | some t ↦ reject (no_hedging (opposing_side (incoming_side ctx.signal.direction)) t.id)
        ]),
  )

  unfoldable pub max_open_trades_rule : RiskRule F
  max_open_trades_rule ctx ts = (
    ts,
    (let max_open = max_one ctx.config.max_losing_streak in
        if leb max_open ctx.effective_open
        then reject (max_open_trades ctx.effective_open max_open)
        else approve),
  )

  unfoldable pub max_symbol_exposure_rule : RiskRule F
  max_symbol_exposure_rule ctx ts = (
    ts,
    (if leb ctx.config.max_exposure_per_symbol ctx.effective_symbol
        then reject (symbol_exposure ctx.effective_symbol ctx.config.max_exposure_per_symbol)
        else approve),
  )

  abbrev pub duplicates : InboundSignal F → Trade F → Bool
  duplicates s t = t.signal_id == s.id && not (t.signal_id == "unknown")

  unfoldable pub duplicate_signal_rule : RiskRule F
  duplicate_signal_rule ctx ts = (
    ts,
    elim (find_first (duplicates ctx.signal) ctx.open_trades) [
      | none ↦ approve
      | some t ↦ reject (duplicate t.id ctx.signal.id)
    ],
  )

  -- `budget * 0.95`, and the projected loss.
  abbrev pub safety_threshold : RiskConfig F → F
  safety_threshold config = py.mul config.max_daily_loss_percent (py.lit 95 2)

  abbrev pub projected_loss : RiskConfig F → F → F
  projected_loss config pct =
      py.add pct
        (py.div config.max_daily_loss_percent (py.lit (max_one config.max_losing_streak) 0))

  unfoldable pub daily_loss_limit_rule : RiskRule F
  daily_loss_limit_rule ctx ts = (
    ts,
    (if py.leb (safety_threshold ctx.config) ctx.daily_loss_pct
        then reject daily_loss_stop
        else if py.ltb (safety_threshold ctx.config) (projected_loss ctx.config ctx.daily_loss_pct)
        then reject daily_loss_projection
        else approve),
  )
