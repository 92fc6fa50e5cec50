-- ===== src/Config.antt =====
-- src/config/settings.py: the configuration that the risk rules and the execution read.
pub mod Overrides
use execution_engine_multi.Prelude.{ℕ, String, Bool, Option, List, Dict}

pub record ClusterGroupConfig (F : Type 0) : Type 0 where
  pub name : String
  pub symbols : List String
  pub max_same_day_loss_r : F
  pub max_concurrent_positions : ℕ
  pub max_same_day_losses : ℕ
  pub after_first_loss_risk_multiplier : F
  pub min_trade_risk_multiplier : F

pub record ClusterRiskConfig (F : Type 0) : Type 0 where
  pub enabled : Bool
  pub groups : List (ClusterGroupConfig F)

pub record EquityThrottleConfig (F : Type 0) : Type 0 where
  pub enabled : Bool
  pub drawdown_threshold_r : F
  pub release_threshold_r : F
  pub risk_multiplier : F
  pub window_days : ℕ

pub record RiskConfig (F : Type 0) : Type 0 where
  pub max_losing_streak : ℕ
  pub max_daily_loss_percent : F
  pub max_exposure_per_symbol : ℕ
  pub min_rr_ratio : F
  pub max_lot_size : F
  pub min_lot_size : F
  pub sl_ratio_threshold : F
  pub symbol_sl_ratio_threshold : Dict F
  pub no_hedging : Bool
  pub max_profit_drawdown_percent : F
  pub rolling_window_size : ℕ
  pub rolling_drawdown_pct : F

-- One entry of `tf_overrides`: the parser keeps these two keys.
pub record TfOverride (F : Type 0) : Type 0 where
  pub tp1_trigger_pct : Option F
  pub tp1_percentage : Option F

pub record ExecutionConfig (F : Type 0) : Type 0 where
  pub tp1_trigger_pct : F
  pub tp1_percentage : F
  pub move_sl_to_be_on_tp1 : Bool
  pub slippage : ℕ
  pub magic : ℕ
  pub spread_risk_multiplier : F
  pub order_retry_count : ℕ
  pub max_entry_slippage_pct_of_stop : F
  pub close_on_slippage_exceed : Bool
  pub breakeven_spread_multiplier : F
  pub breakeven_max_buffer_pct_of_risk : F
  pub adjust_levels_on_slippage : Bool
  pub max_signal_age_ms : ℕ
  pub tf_overrides : Dict (Dict (TfOverride F))
