-- ===== src/Risk/Engine/Sizing.antt =====
-- The size that an approval gives: the cluster's multiplier times the throttle's.
use execution_engine_multi.Prelude.{
  ◌≡◌, refl, ◌∙◌, none, some, List, [], ◌∷◌, All, arith, if◌then◌else◌, or_default, Option-cases,
  inl, inr,
}
use execution_engine_multi.Prelude.Python.{Python, FloatOrder, one_f}
use execution_engine_multi.Risk.Cluster
use execution_engine_multi.Risk.Throttle
use execution_engine_multi.Risk.Rules.Context.{RuleData, RuleContext, Trackers, RiskRule, no_data}
use execution_engine_multi.Risk.Rules.Memory.{
  loss_guard_rule, cluster_risk_rule, equity_throttle_rule, no_hedging_rule, max_open_trades_rule,
  max_symbol_exposure_rule, duplicate_signal_rule, daily_loss_limit_rule,
}
use execution_engine_multi.Risk.Rules.Market.{min_rr_rule, spread_quality_rule}
use execution_engine_multi.Risk.Rules.Market.Entry.{min_rr-is_silent, spread-is_silent}
use execution_engine_multi.Risk.Engine.{
  approved, merge, compose, run_rules, evaluate, all_rules, risk_multiplier,
}
use execution_engine_multi.Risk.Engine.Verdict.{
  Passes, evaluate_verdict, run_rules_pass, run_rules_reject-ne,
}

module _ {F : Type 0} ⦃py : Python F⦄ where
  -- A rule that adds no data.
  abbrev IsSilent : RiskRule F → Type 0
  IsSilent rule = (ctx : RuleContext F) (ts : Trackers F) → (rule ctx ts).1.entries ≡ no_data

  loss_guard-IsSilent : IsSilent loss_guard_rule
  unfolding loss_guard_rule
  loss_guard-IsSilent ctx ts = ground arith

  no_hedging-IsSilent : IsSilent no_hedging_rule
  unfolding no_hedging_rule
  no_hedging-IsSilent ctx ts = ground arith

  max_open_trades-IsSilent : IsSilent max_open_trades_rule
  unfolding max_open_trades_rule
  max_open_trades-IsSilent ctx ts = ground arith

  max_symbol_exposure-IsSilent : IsSilent max_symbol_exposure_rule
  unfolding max_symbol_exposure_rule
  max_symbol_exposure-IsSilent ctx ts = ground arith

  duplicate_signal-IsSilent : IsSilent duplicate_signal_rule
  unfolding duplicate_signal_rule
  duplicate_signal-IsSilent ctx ts = ground arith

  daily_loss_limit-IsSilent : IsSilent daily_loss_limit_rule
  unfolding daily_loss_limit_rule
  daily_loss_limit-IsSilent ctx ts = ground arith

  merge-no_data : (d : RuleData F) → merge d no_data ≡ d
  unfolding merge
  merge-no_data d = refl

  -- Silent rules leave the data as they are.
  run_rules_silent :
      (ctx : RuleContext F) (rules : List (RiskRule F)) (ts : Trackers F) (found : RuleData F)
      {d : RuleData F}
      → All IsSilent rules
      → (run_rules rules ctx ts found).1 ≡ approved d
      → d ≡ compose found
  unfolding run_rules
  run_rules_silent ctx [] ts found silent h = cc
  run_rules_silent ctx (rule ∷ rules) ts found silent h =
      elim (Option-cases (rule ctx ts).1.reason) [
        | inl ok ↦ run_rules_silent ctx rules (rule ctx ts).0 found silent.1 (
            rw (run_rules_pass ctx rule rules ts found ok, silent.0 ctx ts, merge-no_data found) at
              h)
        | inr (why, e) ↦ absurd (run_rules_reject-ne ctx rule rules ts found e h)
      ]

  -- The multipliers that the two trackers preview; without a tracker it is one.
  abbrev pub cluster_multiplier : RuleContext F → Trackers F → F
  cluster_multiplier ctx ts = elim ts.cluster_tracker [
    | none ↦ one_f
    | some t ↦ (Cluster.preview ctx.clock.today ctx.signal t).1.risk_multiplier
  ]

  abbrev pub throttle_multiplier : RuleContext F → Trackers F → F
  throttle_multiplier ctx ts = elim ts.throttle [
    | none ↦ one_f
    | some (config, st) ↦ (Throttle.preview config ctx.clock.throttle_now st).1.multiplier
  ]

  -- The rules after the two that size.
  abbrev readers : List (RiskRule F)
  readers =
      no_hedging_rule ∷ max_open_trades_rule ∷ max_symbol_exposure_rule ∷ duplicate_signal_rule
      ∷ daily_loss_limit_rule ∷ min_rr_rule ∷ spread_quality_rule ∷ []

  readers-IsSilent : All IsSilent readers
  readers-IsSilent = (
    no_hedging-IsSilent,
    (
      max_open_trades-IsSilent,
      (
        max_symbol_exposure-IsSilent,
        (
          duplicate_signal-IsSilent,
          (daily_loss_limit-IsSilent, (min_rr-is_silent, (spread-is_silent, tt))),
        ),
      ),
    ),
  )

  loss_guard-trackers : (ctx : RuleContext F) (ts : Trackers F) → (loss_guard_rule ctx ts).0 ≡ ts
  unfolding loss_guard_rule
  loss_guard-trackers ctx ts = ground arith

  cluster_entries :
      (ctx : RuleContext F) (ts : Trackers F)
      → (cluster_risk_rule ctx ts).1.reason ≡ none
      → ((cluster_risk_rule ctx ts).1.entries.equity_throttle_multiplier ≡ none)
        × (or_default (cluster_risk_rule ctx ts).1.entries.risk_multiplier one_f
            ≡ cluster_multiplier ctx ts)
        × ((cluster_risk_rule ctx ts).0.throttle ≡ ts.throttle)
  unfolding cluster_risk_rule
  cluster_entries ctx ts ok = ground arith

module _ {F : Type 0} ⦃py : Python F⦄ (laws : FloatOrder py) (ctx : RuleContext F) where
  throttle_entries :
      (ts : Trackers F)
      → ((equity_throttle_rule ctx ts).1.entries.risk_multiplier ≡ none)
        × ((equity_throttle_rule ctx ts).1.entries.equity_throttle_multiplier ≡ (
            if py.ltb (throttle_multiplier ctx ts) one_f
            then some (throttle_multiplier ctx ts)
            else none))
  unfolding equity_throttle_rule
  throttle_entries ts = ground (arith, laws.lt_irrefl one_f)

  -- The data of the first three rules, the first of which adds none.
  sizing_data : Trackers F → RuleData F
  sizing_data ts =
      merge (merge no_data (cluster_risk_rule ctx ts).1.entries)
        (equity_throttle_rule ctx (cluster_risk_rule ctx ts).0).1.entries

  evaluate-sizing_data :
      (ts : Trackers F) (d : RuleData F)
      → Passes all_rules ctx ts
      → (evaluate all_rules ctx ts).1 ≡ approved d
      → d ≡ compose (sizing_data ts)
  unfolding evaluate sizing_data
  evaluate-sizing_data ts d (ok1, (ok2, (ok3, _))) h =
      let ts1 = (loss_guard_rule ctx ts).0 in
      let ts2 = (cluster_risk_rule ctx ts1).0 in
      let found1 = merge no_data (loss_guard_rule ctx ts).1.entries in
      let found2 = merge found1 (cluster_risk_rule ctx ts1).1.entries in
      let rest1 = cluster_risk_rule ∷ equity_throttle_rule ∷ readers in
      let h3 =
        run_rules_silent ctx readers (equity_throttle_rule ctx ts2).0
          (merge found2 (equity_throttle_rule ctx ts2).1.entries) readers-IsSilent
          (rw
            (
              run_rules_pass ctx loss_guard_rule rest1 ts no_data ok1,
              run_rules_pass ctx cluster_risk_rule (equity_throttle_rule ∷ readers) ts1 found1 ok2,
              run_rules_pass ctx equity_throttle_rule readers ts2 found2 ok3,
            )
            at h) in
      h3 ∙ rw (loss_guard-trackers ctx ts, loss_guard-IsSilent ctx ts)

  sizing_data_multiplier :
      (ts : Trackers F)
      → (cluster_risk_rule ctx ts).1.reason ≡ none
      → risk_multiplier (compose (sizing_data ts)) ≡ (
          if py.ltb (throttle_multiplier ctx ts) one_f
          then py.mul (cluster_multiplier ctx ts) (throttle_multiplier ctx ts)
          else cluster_multiplier ctx ts)
  unfolding sizing_data compose merge risk_multiplier
  sizing_data_multiplier ts ok = ground (
    arith,
    laws.lt_irrefl one_f,
    cluster_entries ctx ts ok,
    throttle_entries (cluster_risk_rule ctx ts).0,
  )

  -- The multiplier of an approval is the one that the cluster previews, times the one that the
  -- throttle previews where that is below one. Without a tracker its multiplier is one.
  pub approved_multiplier :
      (ts : Trackers F) (d : RuleData F)
      → (evaluate all_rules ctx ts).1 ≡ approved d
      → risk_multiplier d ≡ (
          if py.ltb (throttle_multiplier ctx ts) one_f
          then py.mul (cluster_multiplier ctx ts) (throttle_multiplier ctx ts)
          else cluster_multiplier ctx ts)
  approved_multiplier ts d h =
      let passed : Passes all_rules ctx ts = (evaluate_verdict ctx _ _ ts).0.0 (d, h) in
      rw (evaluate-sizing_data ts d passed h)
        (sizing_data_multiplier ts (rw (loss_guard-trackers ctx ts) at passed.1.0))
