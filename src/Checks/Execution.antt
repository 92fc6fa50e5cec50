-- ===== src/Checks/Execution.antt =====
-- The theorems of `execute` on a signal whose trade is opened, and of a breach of the daily limit.
use execution_engine_multi.Prelude.{◌≡◌, refl, true, false, List, [], ◌∷◌}
use execution_engine_multi.Prelude.Int.{ℤ}
use execution_engine_multi.Prelude.Int.{◌-ℤ◌, ◌+ℤ◌}
use execution_engine_multi.Prelude.{◌+◌, ◌*◌, ◌≢◌, arith}
use execution_engine_multi.Checks.Samples.{context, clock, tracker}
use execution_engine_multi.Risk.Rules.Context.{RuleContext, no_data}
use execution_engine_multi.Risk.Engine.{RiskDecision, approved, all_rules}
use execution_engine_multi.Execution.Polling.{update_daily_loss}
use mathlib.Core.Option
use execution_engine_multi.Risk.Rules.Context.{Trackers}
use execution_engine_multi.Risk.Loss.Pause.{Update, updates, trade_closed, polled}
use execution_engine_multi.Execution.Polling.Breach.{breach_stops_trading}
use execution_engine_multi.Prelude.{ℕ, some, none, or_default, eqb, if◌then◌else◌}
use execution_engine_multi.Checks.Samples.{account, symbol_info, trade}
use execution_engine_multi.Domain.Trade.{TradePlan, Trade}
use execution_engine_multi.Brokers.{done, refused}
use execution_engine_multi.Execution.State.{Answers}
use execution_engine_multi.Execution.OrderManager.{
  Market, execute_market_order, first_working, attempts, attempt, answer, after_refusal,
  close_slipped, on_refusal, on_no_money, widened, widen_stops, on_fill, slips, is_better_price,
  slippage_pct_of_stop, emergency_close, request, sent, ended,
}
use execution_engine_multi.Execution.Engine.Filling.{IsTraded}
use execution_engine_multi.Execution.Engine.Planned.{with_both, IsSoundFor, execute-IsSound}
use execution_engine_multi.Execution.Planner.{
  plan, sized, sizing_stop, clamped_multiplier, tp1_volume,
}
use execution_engine_multi.Utils.Price.{normalise_lots}
use execution_engine_multi.Checks.Samples.{dec}
use execution_engine_multi.Utils.Symbol.{normalise_symbol}
use execution_engine_multi.Utils.Price.{pip_size}
use execution_engine_multi.Risk.Loss
use execution_engine_multi.Risk.Cluster
use execution_engine_multi.Risk.Throttle
use execution_engine_multi.Risk.Rules.Memory.{
  loss_guard_rule, cluster_risk_rule, equity_throttle_rule, no_hedging_rule, max_open_trades_rule,
  max_symbol_exposure_rule, duplicate_signal_rule, daily_loss_limit_rule,
}
use execution_engine_multi.Risk.Rules.Market.{
  min_rr_rule, spread_quality_rule, read_quote, spread_threshold,
}
use execution_engine_multi.Risk.Engine.{evaluate}
use execution_engine_multi.Checks.Floats.{Python-ℤ, FloatOrder-ℤ}
use execution_engine_multi.Checks.Samples.{signal, risk_config, execution_config, answers, state}
use execution_engine_multi.Domain.Signal.{InboundSignal, long}
use execution_engine_multi.Positions.Store.{get_by_signal_id, get_open_trades}
use execution_engine_multi.Execution.State.{EngineState, pending_total, pending_for}
use execution_engine_multi.Execution.State.Pending.{IsCounted}
use execution_engine_multi.Execution.Engine.{
  execute, started, is_duplicate, is_stale, actionable_signal_at, risk_context,
}
use execution_engine_multi.Execution.Engine.Gates.{execute-orders}
use execution_engine_multi.Execution.Engine.Gates.Sending.{orders}
use execution_engine_multi.Execution.Engine.Reservations.{execute_gives_back}

abbrev one : InboundSignal ℤ
one = signal "s1" long

empty-IsCounted : IsCounted []
empty-IsCounted k e = cc

abbrev after : EngineState ℤ
after = (execute risk_config execution_config answers one state).0

execute_gives_back_example : (after.pending ≡ []) × (after.pending_signal_ids ≡ [])
execute_gives_back_example =
    execute_gives_back risk_config execution_config answers one state empty-IsCounted

execute-orders_example : orders after.trace ≡ 1
unfolding is_duplicate get_by_signal_id get_open_trades evaluate loss_guard_rule cluster_risk_rule
    equity_throttle_rule no_hedging_rule max_open_trades_rule max_symbol_exposure_rule
    duplicate_signal_rule daily_loss_limit_rule min_rr_rule spread_quality_rule read_quote
    spread_threshold Loss.risk_data_fresh Loss.is_paused Cluster.preview Throttle.preview
    normalise_symbol ◌-ℤ◌ ◌+ℤ◌ pip_size pending_total pending_for is_stale actionable_signal_at
    risk_context
execute-orders_example = execute-orders risk_config execution_config answers one state

-- The broker asks for a new price once and then fills.
abbrev market : Market ℤ
market = record {
  tick_at = λ n. some (record { bid = dec 11 1; ask = dec 11001 4 });
  reply_at = λ n r.
      if eqb n 1
      then refused (some 10004)
      else done (record { ticket = 42; executed_price = dec 11002 4; volume = dec 2 1 });
  close_tick = none;
  close_ok = λ c. true;
}

abbrev with_plans : Answers ℤ
with_plans =
    with_both risk_config execution_config (some "240/5") tracker 1000 account symbol_info market
      (λ e. false) answers

abbrev planned_trade : Trade ℤ
planned_trade = or_default (execute risk_config execution_config with_plans one state).1 trade

execute-IsSound_example :
    (p : TradePlan ℤ) × IsSoundFor risk_config execution_config
      (some "240/5")
      tracker
      FloatOrder-ℤ
      (started answers one)
      symbol_info
      p
    × IsTraded execution_config symbol_info market p planned_trade
unfolding is_duplicate get_by_signal_id get_open_trades evaluate loss_guard_rule cluster_risk_rule
    equity_throttle_rule no_hedging_rule max_open_trades_rule max_symbol_exposure_rule
    duplicate_signal_rule daily_loss_limit_rule min_rr_rule spread_quality_rule read_quote
    spread_threshold Loss.risk_data_fresh Loss.is_paused Cluster.preview Throttle.preview
    normalise_symbol ◌-ℤ◌ ◌+ℤ◌ pip_size pending_total pending_for is_stale actionable_signal_at
    risk_context execute_market_order first_working attempts attempt answer after_refusal
    close_slipped on_refusal on_no_money widened widen_stops on_fill slips is_better_price
    slippage_pct_of_stop emergency_close request sent ended normalise_lots execute plan sized
    sizing_stop clamped_multiplier tp1_volume
execute-IsSound_example =
    execute-IsSound risk_config execution_config (some "240/5") tracker FloatOrder-ℤ 1000 account
      symbol_info market (λ e. false) answers one state planned_trade refl

-- Day `d` ends at (d + 1) * 1000. A poll at 7100 of day 7 finds five percent, the limit is four,
-- and the signal comes at 7500.
abbrev day_end : ℕ → ℕ
day_end d = (d + 1) * 1000

abbrev later_context : RuleContext ℤ
later_context = record context { clock = record clock { fresh_now = 7500; pause_now = 7500 } }

abbrev breached : Trackers ℤ
breached =
    (update_daily_loss day_end 7100 7100 7101 7 (dec 5 0) (dec 10000 0) (dec 9500 0) state).trackers

-- Then a trade wins and a second poll finds one percent.
abbrev lifts : List (Update ℤ)
lifts = trade_closed 7200 7 (dec 500 0) ∷ polled 7400 7400 7 (dec 1 0) (dec 10000 0) ∷ []

abbrev at_signal : Trackers ℤ
at_signal = record breached { loss = Option.map (updates day_end lifts) breached.loss }

breach_stops_trading_example :
    ◌≢◌ {A = RiskDecision ℤ} (evaluate all_rules later_context at_signal).1 (approved no_data)
breach_stops_trading_example =
    breach_stops_trading day_end 7100 7100 7101 7 (dec 5 0) (dec 10000 0) (dec 9500 0) state tracker
      lifts at_signal refl refl (omega arith) ((refl, omega arith), ((refl, omega arith), tt)) refl
      later_context no_data (omega arith)
