-- ===== src/Execution/Engine.antt =====
-- src/execution/engine.py: `ExecutionEngine.execute`, step by step. The log lines, the metrics and
-- the latency gauges are not modelled; the payload of an event is its signal's id or its trade.
-- A signal with no resolved symbol has the empty text for it.
pub mod Returned
pub mod Filling
pub mod Gates
pub mod Planned
pub mod Reservations
use execution_engine_multi.Prelude.{
  member, ℕ, ◌+◌, ◌-◌, String, ◌==◌, Bool, true, false, not, ◌&&◌, ◌||◌, Option, none, some, [],
  ◌∷◌, ◌++◌, keep, length, is_some, or_default, or_else, ltb, if◌then◌else◌,
}
use execution_engine_multi.Prelude.Python.{Python}
use execution_engine_multi.Prelude.Python
use execution_engine_multi.Config.{RiskConfig, ExecutionConfig}
use execution_engine_multi.Domain.Signal.{InboundSignal}
use execution_engine_multi.Domain.Position.{AccountInfo, SymbolInfo}
use execution_engine_multi.Domain.Trade.{Trade, TradePlan, opened}
use execution_engine_multi.Positions.Store
use execution_engine_multi.Risk.Cluster
use execution_engine_multi.Risk.Engine.{
  RiskDecision, no_rules, rejected, approved, evaluate, all_rules, risk_multiplier,
}
use execution_engine_multi.Risk.Rules.Context.{Trackers, RuleContext, RuleData}
use execution_engine_multi.Execution.State.{
  EngineState, Answers, filled, failed, Effect, risk_rejected, risk_approved, execution_attempted,
  trade_planned, ◌>>=◌, order_sent, levels_sent, trade_saved, trade_opened, trade_error,
  persistence_unavailable, stale_signal, duplicate_signal, risk, broker_unavailable,
  planning_failed, autotrading_disabled, order_failed, tracking_failed_after_fill,
  persistence_failed_after_fill, Step, go_on, leave, ◌>>◌, emit, reserve, release, pending_total,
  pending_for,
}

module _ {F : Type 0} where
  abbrev pub symbol_of : InboundSignal F → String
  symbol_of s = or_default s.resolved_symbol ""

  abbrev pub stop_with : Effect F → {A : Type 0} → Step F A
  stop_with e = emit e >> leave

  -- `_actionable_signal_at`
  unfoldable pub actionable_signal_at : InboundSignal F → Option ℕ
  actionable_signal_at s =
      or_else s.setup_candle_close_at (or_else s.triggered_at (or_else s.emitted_at s.received_at))

  -- The persistence gate. A failed health check is remembered.
  check_persistence : Answers F → InboundSignal F → Step F (Unit {0})
  check_persistence a s st =
      if not st.persistence_available || not (or_default a.health true)
      then stop_with (risk_rejected s.id persistence_unavailable)
          (record st { persistence_available = false })
      else go_on tt st

  -- The age is compared with a positive limit, so a signal from the future passes.
  unfoldable pub is_stale : ExecutionConfig F → ℕ → Option ℕ → Bool
  is_stale cfg now none = false
  is_stale cfg now (some at) = ltb cfg.max_signal_age_ms (now - at)

  check_age : ExecutionConfig F → Answers F → InboundSignal F → Step F (Unit {0})
  unfolding is_stale actionable_signal_at
  check_age cfg a s st =
      if is_stale cfg a.pipeline_start (actionable_signal_at s)
      then stop_with (risk_rejected s.id stale_signal) st
      else go_on tt st

  fetch_broker : Answers F → InboundSignal F → Step F (AccountInfo F × SymbolInfo F)
  fetch_broker a s = elim a.broker [
    | none ↦ stop_with (trade_error s.id broker_unavailable)
    | some state ↦ go_on state
  ]

  -- `duplicate_signal` in `execute`.
  unfoldable pub is_duplicate : String → EngineState F → Bool
  is_duplicate sid st =
      member sid st.pending_signal_ids || is_some (Store.get_by_signal_id sid st.store)

module _ {F : Type 0} ⦃py : Python F⦄ where
  -- A call on the cluster tracker, if there is one.
  pub on_cluster : (Cluster.ClusterTracker F → Cluster.ClusterTracker F) → Trackers F → Trackers F
  on_cluster change ts = elim ts.cluster_tracker [
    | none ↦ ts
    | some t ↦ record ts { cluster_tracker = some (change t) }
  ]

  abbrev with_cluster :
      (Cluster.ClusterTracker F → Cluster.ClusterTracker F) → EngineState F → EngineState F
  with_cluster change st = record st { trackers = on_cluster change st.trackers }

  -- The context that `execute` and `evaluate` build.
  unfoldable pub risk_context :
      RiskConfig F → Answers F → InboundSignal F → SymbolInfo F → EngineState F → RuleContext F
  risk_context config a s si st =
      let open_trades = Store.get_open_trades st.store in
      record {
        clock = a.clock;
        signal = s;
        open_trades = open_trades;
        config = config;
        daily_loss_pct = st.daily_loss_pct;
        effective_open = length open_trades + pending_total st.pending;
        effective_symbol =
            length (keep (λ t. t.symbol == symbol_of s) open_trades)
            + pending_for (symbol_of s) st.pending;
        symbol_info = some si;
      }

  -- The reservations of an approved signal.
  admit : Answers F → InboundSignal F → RuleData F → Step F F
  admit a s found st =
      let mult = risk_multiplier found in
      let planned_r = or_default found.planned_cluster_risk_r mult in
      let held = with_cluster (Cluster.reserve_signal a.reserve_day s planned_r) st in
      go_on mult (reserve (symbol_of s) s.id held)

  -- `ValueError` cannot happen: there are rules.
  decide : Answers F → InboundSignal F → RiskDecision F → Step F F
  unfolding admit
  decide a s no_rules = leave
  decide a s (rejected why) = stop_with (risk_rejected s.id (risk why))
  decide a s (approved found) = admit a s found

  -- The critical section of the pending lock.
  check_risk : RiskConfig F → Answers F → InboundSignal F → SymbolInfo F → Step F F
  unfolding risk_context decide
  check_risk config a s si st =
      if is_duplicate s.id st
      then stop_with (risk_rejected s.id duplicate_signal) st
      else let (trackers, decision) =
          evaluate all_rules (risk_context config a s si st) st.trackers in
        decide a s decision (record st { trackers = trackers })

  -- Both reservations are dropped.
  back_out : Answers F → InboundSignal F → EngineState F → EngineState F
  back_out a s st =
      with_cluster (Cluster.release_signal a.release_day s) (release (symbol_of s) s.id st)

  fail_with : Answers F → InboundSignal F → Effect F → {A : Type 0} → Step F A
  unfolding back_out
  fail_with a s e st = stop_with e (back_out a s st)

  make_plan : Answers F → InboundSignal F → AccountInfo F → SymbolInfo F → F → Step F (TradePlan F)
  unfolding fail_with
  make_plan a s account si mult = elim (a.plan s account si mult) [
    | none ↦ fail_with a s (trade_error s.id planning_failed)
    | some plan ↦ emit (trade_planned plan) >> go_on plan
  ]

  -- The order is sent, and then it is filled or it fails.
  send_order : Answers F → InboundSignal F → TradePlan F → Step F (ℕ × F × F)
  unfolding fail_with
  send_order a s plan = do
    emit (order_sent plan)
    elim (a.order plan) [
      | filled ticket price volume ↦ go_on (ticket, price, volume)
      | failed disabled ↦
          fail_with a s (trade_error s.id (if disabled then autotrading_disabled else order_failed))
    ]

  -- The levels move with the fill if the configuration says so, and only past 1e-8.
  shifts : ExecutionConfig F → F → Bool
  shifts cfg slippage = py.ltb (py.lit 1 8) (py.abs slippage) && cfg.adjust_levels_on_slippage

  final_plan : ExecutionConfig F → F → F → TradePlan F → TradePlan F
  unfolding shifts
  final_plan cfg price volume plan =
      let slippage = py.sub price plan.entry_price in
      let placed : TradePlan F = record plan { lot_size = volume; entry_price = price } in
      if shifts cfg slippage
      then record placed {
        stop_loss = py.add plan.stop_loss slippage;
        tp1 = py.add plan.tp1 slippage;
        tp2 = py.add plan.tp2 slippage;
      }
      else placed

  -- `modify_position_levels`, whose failure is ignored.
  sync_levels : ExecutionConfig F → ℕ → F → TradePlan F → Step F (Unit {0})
  unfolding shifts
  sync_levels cfg ticket price plan st =
      let slippage = py.sub price plan.entry_price in
      let sent =
        levels_sent ticket (py.add plan.stop_loss slippage) (py.add plan.tp2 slippage) ∷ [] in
      (record st { trace = st.trace ++ (if shifts cfg slippage then sent else []) }, some tt)

  make_trade : Answers F → InboundSignal F → ℕ → F → F → TradePlan F → Trade F
  make_trade a s ticket price volume plan = record {
    id = a.trade_id;
    signal_id = s.id;
    symbol = symbol_of s;
    side = plan.side;
    status = opened;
    plan = plan;
    entry_ticket = some ticket;
    entry_price = some price;
    entry_lots = volume;
    current_lots = volume;
    tp1_lots = plan.tp1_lots;
    stop_loss = plan.stop_loss;
    tp1 = plan.tp1;
    tp2 = plan.tp2;
    was_tp1_hit = false;
    tp1_hit_at = none;
    tp1_close_price = none;
    was_tp2_hit = false;
    tp2_hit_at = none;
    was_sl_hit = false;
    sl_hit_at = none;
    opened_at = some a.opened_at;
    closed_at = none;
    close_reason = none;
    close_price = none;
    realized_pnl = none;
    realized_rr = none;
    created_at = a.opened_at;
    updated_at = a.opened_at;
  }

  mark_opened : Answers F → Trade F → EngineState F → EngineState F
  mark_opened a t = with_cluster (Cluster.mark_trade_opened a.open_day t)

  -- The trade is live at the broker and the store refused it.
  untracked : Answers F → InboundSignal F → Trade F → Step F (Trade F)
  unfolding mark_opened
  untracked a s t st =
      (do
        emit (trade_saved t)
        emit (trade_opened t)
        stop_with (trade_error s.id tracking_failed_after_fill))
        (release (symbol_of s) s.id (mark_opened a t st))

  -- `save`, and what its result does.
  save_trade : Answers F → InboundSignal F → Trade F → Step F (Unit {0})
  save_trade a s t st =
      let lost = trade_error s.id persistence_failed_after_fill ∷ [] in
      (
        record st {
          persistence_available = a.is_saved;
          trace = st.trace ++ trade_saved t ∷ (if a.is_saved then [] else lost);
        },
        some tt,
      )

  track : Answers F → InboundSignal F → Trade F → Step F (Trade F)
  unfolding untracked save_trade mark_opened
  track a s t st =
      if a.is_tracked
      then (do
        save_trade a s t
        (λ st'. (release (symbol_of s) s.id (mark_opened a t st'), some tt))
        emit (trade_opened t)
        go_on t)
          (record st { store = Store.add t st.store })
      else untracked a s t st

  -- From the fill on.
  settle :
      ExecutionConfig F → Answers F → InboundSignal F → TradePlan F → ℕ × F × F → Step F (Trade F)
  unfolding sync_levels make_trade final_plan track
  settle cfg a s plan (ticket, price, volume) = do
    sync_levels cfg ticket price plan
    track a s (make_trade a s ticket price volume (final_plan cfg price volume plan))

  -- From the reservation on.
  pub place :
      ExecutionConfig F
      → Answers F
      → InboundSignal F
      → AccountInfo F
      → SymbolInfo F
      → F
      → Step F (Trade F)
  unfolding make_plan send_order settle
  place cfg a s account si mult = do
    emit (risk_approved s.id)
    emit (execution_attempted s.id)
    plan ← make_plan a s account si mult
    fill ← send_order a s plan
    settle cfg a s plan fill

  abbrev pub started : Answers F → InboundSignal F → InboundSignal F
  started a s = record s { execution_started_at = some a.pipeline_start }

  unfoldable pub execute :
      RiskConfig F → ExecutionConfig F → Answers F → InboundSignal F → Step F (Trade F)
  unfolding check_persistence check_age fetch_broker check_risk place
  execute config cfg a s = do
    check_persistence a (started a s)
    check_age cfg a (started a s)
    (account, si) ← fetch_broker a (started a s)
    mult ← check_risk config a (started a s) si
    place cfg a (started a s) account si mult
