-- ===== src/Risk/Engine/Safety.antt =====
-- What an approval by the ten rules means.
use execution_engine_multi.Prelude.{
  ◌<◌, ◌≡◌, true, false, none, some, All, find_first-none, find_first, arith,
}
use execution_engine_multi.Prelude.Python.{Python}
use execution_engine_multi.Risk.Loss
use execution_engine_multi.Risk.Loss.{LossTracker}
use execution_engine_multi.Risk.Rules.Context.{RuleData, RuleContext, Trackers}
use execution_engine_multi.Risk.Rules.Memory.{
  loss_guard_rule, cluster_risk_rule, equity_throttle_rule, no_hedging_rule, max_open_trades_rule,
  max_symbol_exposure_rule, duplicate_signal_rule, daily_loss_limit_rule, max_one, opposes,
  duplicates, safety_threshold, projected_loss,
}
use execution_engine_multi.Risk.Rules.Market.{quoted, read_quote, min_rr_rule}
use execution_engine_multi.Risk.Rules.Market.Entry.{IsTradable, market_rules_lem}
use execution_engine_multi.Risk.Engine.{approved, evaluate, all_rules}
use execution_engine_multi.Risk.Engine.Verdict.{Passes, evaluate_verdict}

module _ {F : Type 0} ⦃py : Python F⦄ (ctx : RuleContext F) where
  -- The account and the book allow one more trade for the signal.
  pub record IsSafe (ts : Trackers F) : Type 0 where
    pub not_paused :
        (t : LossTracker F)
        → ts.loss ≡ some t
        → (Loss.risk_data_fresh ctx.clock.fresh_now t ≡ true)
          × ((Loss.is_paused ctx.clock.pause_now t).0 ≡ false)
    pub no_opposite :
        ctx.config.no_hedging ≡ true → All (λ t. opposes ctx.signal t ≡ false) ctx.open_trades
    pub slots_left : ctx.effective_open < max_one ctx.config.max_losing_streak
    pub symbol_left : ctx.effective_symbol < ctx.config.max_exposure_per_symbol
    pub no_duplicate : All (λ t. duplicates ctx.signal t ≡ false) ctx.open_trades
    pub below_stop : py.leb (safety_threshold ctx.config) ctx.daily_loss_pct ≡ false
    pub budget_left :
        py.ltb (safety_threshold ctx.config) (projected_loss ctx.config ctx.daily_loss_pct) ≡ false

  loss_guard_lem :
      (ts : Trackers F)
      → (loss_guard_rule ctx ts).1.reason ≡ none
      → (t : LossTracker F) → ts.loss ≡ some t
      → (Loss.risk_data_fresh ctx.clock.fresh_now t ≡ true)
        × ((Loss.is_paused ctx.clock.pause_now t).0 ≡ false)
  unfolding loss_guard_rule
  loss_guard_lem ts h t e = ground arith

  no_hedging_lem :
      (ts : Trackers F)
      → (no_hedging_rule ctx ts).1.reason ≡ none
      → ctx.config.no_hedging ≡ true
      → find_first (opposes ctx.signal) ctx.open_trades ≡ none
  unfolding no_hedging_rule
  no_hedging_lem ts h e = ground arith

  duplicate_signal_lem :
      (ts : Trackers F)
      → (duplicate_signal_rule ctx ts).1.reason ≡ none
      → find_first (duplicates ctx.signal) ctx.open_trades ≡ none
  unfolding duplicate_signal_rule
  duplicate_signal_lem ts h = ground arith

  max_open_trades_lem :
      (ts : Trackers F)
      → (max_open_trades_rule ctx ts).1.reason ≡ none
      → ctx.effective_open < max_one ctx.config.max_losing_streak
  unfolding max_open_trades_rule
  max_open_trades_lem ts h = ground arith

  max_symbol_exposure_lem :
      (ts : Trackers F)
      → (max_symbol_exposure_rule ctx ts).1.reason ≡ none
      → ctx.effective_symbol < ctx.config.max_exposure_per_symbol
  unfolding max_symbol_exposure_rule
  max_symbol_exposure_lem ts h = ground arith

  daily_loss_limit_lem :
      (ts : Trackers F)
      → (daily_loss_limit_rule ctx ts).1.reason ≡ none
      → (py.leb (safety_threshold ctx.config) ctx.daily_loss_pct ≡ false)
        × (py.ltb (safety_threshold ctx.config) (projected_loss ctx.config ctx.daily_loss_pct)
            ≡ false)
  unfolding daily_loss_limit_rule
  daily_loss_limit_lem ts h = ground arith

  IsSafe-of_Passes :
      (ts : Trackers F)
      → Passes all_rules ctx ts
      → IsSafe ts
        × ((ask bid pip : F) × (read_quote ctx.symbol_info ≡ quoted ask bid pip)
            × IsTradable ctx ask bid pip)
  IsSafe-of_Passes ts
        (guard, (_, (_, (hedge, (slots, (symbol, (dup, (loss, (rr, (spread, _)))))))))) =
      let ts3 = (equity_throttle_rule ctx (cluster_risk_rule ctx (loss_guard_rule ctx ts).0).0).0 in
      let ts4 = (no_hedging_rule ctx ts3).0 in
      let ts5 = (max_open_trades_rule ctx ts4).0 in
      let ts6 = (max_symbol_exposure_rule ctx ts5).0 in
      let ts7 = (duplicate_signal_rule ctx ts6).0 in
      let ts8 = (daily_loss_limit_rule ctx ts7).0 in
      let budget = daily_loss_limit_lem ts7 loss in
      (
        record {
          not_paused = loss_guard_lem ts guard;
          no_opposite = λ on.
              find_first-none (opposes ctx.signal) ctx.open_trades (no_hedging_lem ts3 hedge on);
          slots_left = max_open_trades_lem ts4 slots;
          symbol_left = max_symbol_exposure_lem ts5 symbol;
          no_duplicate =
              find_first-none (duplicates ctx.signal) ctx.open_trades
                (duplicate_signal_lem ts6 dup);
          below_stop = budget.0;
          budget_left = budget.1;
        },
        market_rules_lem ctx ts8 (min_rr_rule ctx ts8).0 rr spread,
      )

  pub all_rules-IsSafe :
      (ts : Trackers F) (d : RuleData F)
      → (evaluate all_rules ctx ts).1 ≡ approved d
      → IsSafe ts
        × ((ask bid pip : F) × (read_quote ctx.symbol_info ≡ quoted ask bid pip)
            × IsTradable ctx ask bid pip)
  all_rules-IsSafe ts d h = IsSafe-of_Passes ts ((evaluate_verdict ctx _ _ ts).0.0 (d, h))
