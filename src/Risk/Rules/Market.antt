-- ===== src/Risk/Rules/Market.antt =====
-- src/risk/rules.py: the rules on the live quote, `min_rr_rule` and `spread_quality_rule`.
pub mod Entry
use execution_engine_multi.Prelude.{◌||◌, Option, none, some, lookup, or_default, if◌then◌else◌}
use execution_engine_multi.Prelude.Python.{Python, zero_f}
use execution_engine_multi.Utils.Symbol.{normalise_symbol}
use execution_engine_multi.Utils.Price.{pip_size}
use execution_engine_multi.Domain.Signal.{SignalDirection, long, short}
use execution_engine_multi.Domain.Position.{SymbolInfo}
use execution_engine_multi.Risk.Cluster.{resolved_or}
use execution_engine_multi.Risk.Rules.Context.{
  RiskReason, no_market_data, invalid_prices, invalid_pip_size, sl_zero, fill_at_stop, fill_at_tp2,
  low_rr, negative_spread, spread_ratio, RuleResult, RuleContext, RiskRule, approve, reject,
}

-- A quote that passed `_validate_symbol_info`, or its rejection.
pub data Quote (F : Type 0) : Type 0 where
  quoted : (ask bid pip : F) → Quote F
  bad_quote : RiskReason → Quote F

-- What `_actual_reward_risk` returns: the distances to the stop and to TP2, or a rejection.
pub data Levels (F : Type 0) : Type 0 where
  distances : (sl_pips tp_pips : F) → Levels F
  bad_levels : RiskReason → Levels F

-- `_resolve_fill_price`
abbrev pub fill_price {ℓ} : {F : Type ℓ} → SignalDirection → F → F → F
fill_price long ask bid = ask
fill_price short ask bid = bid

module _ {F : Type 0} ⦃py : Python F⦄ where
  -- `_validate_symbol_info`, and the test of the pip size that both rules make after it.
  check_prices : SymbolInfo F → Option F → Option F → Quote F
  check_prices si none _ = bad_quote no_market_data
  check_prices si (some ask) none = bad_quote no_market_data
  check_prices si (some ask) (some bid) =
      if py.leb ask zero_f || py.leb bid zero_f
      then bad_quote invalid_prices
      else let pip = pip_size si.point si.digits in
        if py.leb pip zero_f then bad_quote invalid_pip_size else quoted ask bid pip

  unfoldable pub read_quote : Option (SymbolInfo F) → Quote F
  unfolding check_prices
  read_quote none = bad_quote no_market_data
  read_quote (some si) = check_prices si si.ask si.bid

  -- `_actual_reward_risk`
  unfoldable pub actual_reward_risk : SignalDirection → (fill stop_loss tp2 pip : F) → Levels F
  actual_reward_risk long fill stop_loss tp2 pip =
      if py.leb fill stop_loss
      then bad_levels (fill_at_stop long)
      else if py.leb tp2 fill
      then bad_levels (fill_at_tp2 long)
      else distances (py.div (py.sub fill stop_loss) pip) (py.div (py.sub tp2 fill) pip)
  actual_reward_risk short fill stop_loss tp2 pip =
      if py.leb stop_loss fill
      then bad_levels (fill_at_stop short)
      else if py.leb fill tp2
      then bad_levels (fill_at_tp2 short)
      else distances (py.div (py.sub stop_loss fill) pip) (py.div (py.sub fill tp2) pip)

  rr_of_levels : F → Levels F → RuleResult F
  rr_of_levels min_rr (bad_levels why) = reject why
  rr_of_levels min_rr (distances sl_pips tp_pips) =
      if py.eqb sl_pips zero_f
      then reject sl_zero
      else if py.ltb (py.div tp_pips sl_pips) min_rr
      then reject low_rr
      else approve

  rr_of_quote : RuleContext F → Quote F → RuleResult F
  unfolding actual_reward_risk rr_of_levels
  rr_of_quote ctx (bad_quote why) = reject why
  rr_of_quote ctx (quoted ask bid pip) =
      let fill = fill_price ctx.signal.direction ask bid in
      rr_of_levels ctx.config.min_rr_ratio
        (actual_reward_risk ctx.signal.direction fill ctx.signal.stop_loss ctx.signal.tp2 pip)

  unfoldable pub min_rr_rule : RiskRule F
  unfolding rr_of_quote
  min_rr_rule ctx ts = (ts, rr_of_quote ctx (read_quote ctx.symbol_info))

  -- The threshold of the symbol, or the general one.
  unfoldable pub spread_threshold : RuleContext F → F
  spread_threshold ctx =
      or_default
        (lookup (normalise_symbol py (resolved_or ctx.signal.resolved_symbol ctx.signal.symbol))
          ctx.config.symbol_sl_ratio_threshold)
        ctx.config.sl_ratio_threshold

  spread_of_quote : RuleContext F → Quote F → RuleResult F
  spread_of_quote ctx (bad_quote why) = reject why
  spread_of_quote ctx (quoted ask bid pip) =
      let spread_pips = py.div (py.sub ask bid) pip in
      let sl_pips =
        py.div (py.abs (py.sub (fill_price ctx.signal.direction ask bid) ctx.signal.stop_loss))
          pip in
      if py.ltb spread_pips zero_f
      then reject negative_spread
      else if py.eqb sl_pips zero_f
      then reject sl_zero
      else if py.ltb (spread_threshold ctx) (py.div spread_pips sl_pips)
      then reject spread_ratio
      else approve

  unfoldable pub spread_quality_rule : RiskRule F
  unfolding spread_of_quote
  spread_quality_rule ctx ts = (ts, spread_of_quote ctx (read_quote ctx.symbol_info))
