-- ===== src/Checks/Rules.antt =====
-- The risk engine's theorems on a signal that it approves.
use execution_engine_multi.Prelude.{◌≡◌, refl, none, some}
use execution_engine_multi.Prelude.{if◌then◌else◌}
use execution_engine_multi.Prelude.Python.{one_f}
use execution_engine_multi.Prelude.Int.{ℤ, ltb_ℤ}
use execution_engine_multi.Prelude.Int.{◌-ℤ◌, ◌+ℤ◌}
use execution_engine_multi.Utils.Symbol.{normalise_symbol}
use execution_engine_multi.Utils.Price.{pip_size}
use execution_engine_multi.Risk.Loss
use execution_engine_multi.Risk.Cluster
use execution_engine_multi.Risk.Throttle
use execution_engine_multi.Checks.Floats.{Python-ℤ, FloatOrder-ℤ}
use execution_engine_multi.Checks.Samples.{dec, context, trackers}
use execution_engine_multi.Risk.Rules.Context.{RuleData}
use execution_engine_multi.Risk.Rules.Memory.{
  loss_guard_rule, cluster_risk_rule, equity_throttle_rule, no_hedging_rule, max_open_trades_rule,
  max_symbol_exposure_rule, duplicate_signal_rule, daily_loss_limit_rule,
}
use execution_engine_multi.Risk.Rules.Market.{
  min_rr_rule, spread_quality_rule, read_quote, spread_threshold,
}
use execution_engine_multi.Risk.Engine.{approved, evaluate, all_rules, risk_multiplier}
use execution_engine_multi.Risk.Engine.Sizing.{
  cluster_multiplier, throttle_multiplier, approved_multiplier,
}

-- What the rules find for the sample signal.
abbrev found : RuleData ℤ
found = record {
  cluster_name = some "majors";
  risk_multiplier = some (dec 1 0);
  planned_cluster_risk_r = some (dec 1 0);
  equity_throttle_multiplier = none;
  equity_throttle_dd_r = none;
}

is_approved : (evaluate all_rules context trackers).1 ≡ approved found
unfolding evaluate loss_guard_rule cluster_risk_rule equity_throttle_rule no_hedging_rule
    max_open_trades_rule max_symbol_exposure_rule duplicate_signal_rule daily_loss_limit_rule
    min_rr_rule spread_quality_rule read_quote spread_threshold Loss.risk_data_fresh Loss.is_paused
    Cluster.preview Throttle.preview normalise_symbol ◌-ℤ◌ ◌+ℤ◌ pip_size
is_approved = refl

-- Neither tracker reduces the size of the sample signal.
approved_multiplier_example : risk_multiplier found ≡ (
    if ltb_ℤ (throttle_multiplier context trackers) one_f
    then Python-ℤ.mul (cluster_multiplier context trackers) (throttle_multiplier context trackers)
    else cluster_multiplier context trackers)
approved_multiplier_example = approved_multiplier FloatOrder-ℤ context trackers found is_approved
