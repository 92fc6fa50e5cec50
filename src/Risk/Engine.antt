-- ===== src/Risk/Engine.antt =====
-- src/risk/engine.py: `RiskEngine` runs the rules in order, stops at the first that rejects, and
-- composes the two sizing multipliers. The log lines and the metrics are not modelled.
pub mod Verdict
pub mod Safety
pub mod Sizing
use execution_engine_multi.Prelude.{Option, none, some, List, [], ◌∷◌, or_default, if◌then◌else◌}
use execution_engine_multi.Prelude.Python.{Python, one_f}
use execution_engine_multi.Risk.Rules.Context.{
  RiskReason, RuleData, RuleContext, Trackers, RiskRule, no_data,
}
use execution_engine_multi.Risk.Rules.Memory.{
  loss_guard_rule, cluster_risk_rule, equity_throttle_rule, no_hedging_rule, max_open_trades_rule,
  max_symbol_exposure_rule, duplicate_signal_rule, daily_loss_limit_rule,
}
use execution_engine_multi.Risk.Rules.Market.{min_rr_rule, spread_quality_rule}

-- `ValueError` is `no_rules`. An approval carries the data of the rules.
pub data RiskDecision (F : Type 0) : Type 0 where
  no_rules : RiskDecision F
  rejected : RiskReason → RiskDecision F
  approved : RuleData F → RiskDecision F

-- A key of the later dict replaces that of the earlier.
abbrev over {ℓ} : {A : Type ℓ} → Option A → Option A → Option A
over none old = old
over (some a) old = some a

module _ {F : Type 0} ⦃py : Python F⦄ where
  -- `decision_data.update(result.data)`
  pub merge : RuleData F → RuleData F → RuleData F
  merge old new = record {
    cluster_name = over new.cluster_name old.cluster_name;
    risk_multiplier = over new.risk_multiplier old.risk_multiplier;
    planned_cluster_risk_r = over new.planned_cluster_risk_r old.planned_cluster_risk_r;
    equity_throttle_multiplier = over new.equity_throttle_multiplier old.equity_throttle_multiplier;
    equity_throttle_dd_r = over new.equity_throttle_dd_r old.equity_throttle_dd_r;
  }

  -- The cluster multiplier times that of the throttle, after the loop.
  pub compose : RuleData F → RuleData F
  compose d =
      let throttle_mult = or_default d.equity_throttle_multiplier one_f in
      record d {
        equity_throttle_multiplier = none;
        risk_multiplier =
            if py.ltb throttle_mult one_f
            then some (py.mul (or_default d.risk_multiplier one_f) throttle_mult)
            else d.risk_multiplier;
      }

  -- The loop of `evaluate`.
  pub run_rules :
      List (RiskRule F) → RuleContext F → Trackers F → RuleData F → Trackers F × RiskDecision F
  unfolding merge compose
  run_rules [] ctx ts found = (ts, approved (compose found))
  run_rules (rule ∷ rules) ctx ts found =
      let (ts', result) = rule ctx ts in
      elim result.reason [
        | some why ↦ (ts', rejected why)
        | none ↦ run_rules rules ctx ts' (merge found result.entries)
      ]

  unfoldable pub evaluate :
      List (RiskRule F) → RuleContext F → Trackers F → Trackers F × RiskDecision F
  unfolding run_rules
  evaluate [] ctx ts = (ts, no_rules)
  evaluate (rule ∷ rules) ctx ts = run_rules (rule ∷ rules) ctx ts no_data

  -- `RiskDecision.risk_multiplier`
  pub risk_multiplier : RuleData F → F
  risk_multiplier d = or_default d.risk_multiplier one_f

  abbrev pub all_rules : List (RiskRule F)
  all_rules =
      loss_guard_rule ∷ cluster_risk_rule ∷ equity_throttle_rule ∷ no_hedging_rule
      ∷ max_open_trades_rule ∷ max_symbol_exposure_rule ∷ duplicate_signal_rule
      ∷ daily_loss_limit_rule ∷ min_rr_rule ∷ spread_quality_rule ∷ []
