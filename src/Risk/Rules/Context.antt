-- ===== src/Risk/Rules/Context.antt =====
-- src/risk/rules.py: what a rule reads and returns, and the decisions on it. The text of a reason is
-- a constructor with the numbers and ids that it names; rounded floats are left out. A rule takes
-- the trackers and returns them, since the previews roll their day or their window forward.
use execution_engine_multi.Prelude.{ℕ, String, Option, none, some, List}
use execution_engine_multi.Config.{RiskConfig, EquityThrottleConfig}
use execution_engine_multi.Domain.Signal.{InboundSignal, SignalDirection}
use execution_engine_multi.Domain.Position.{SymbolInfo}
use execution_engine_multi.Domain.Trade.{Trade, OrderSide}
use execution_engine_multi.Risk.Cluster.{ClusterTracker, ClusterReason}
use execution_engine_multi.Risk.Throttle.{ThrottleState}
use execution_engine_multi.Risk.Loss.{LossTracker, PauseReason}

-- The readings of the clock that the rules make, in their order.
pub record Clock : Type 0 where
  pub fresh_now : ℕ
  pub pause_now : ℕ
  pub today : ℕ
  pub throttle_now : ℕ

pub data RiskReason : Type 0 where
  risk_data_unavailable no_market_data invalid_prices invalid_pip_size sl_zero : RiskReason
  loss_guard : PauseReason → RiskReason
  cluster : ClusterReason → RiskReason
  no_hedging : OrderSide → String → RiskReason
  max_open_trades symbol_exposure : (used limit : ℕ) → RiskReason
  duplicate : (trade_id signal_id : String) → RiskReason
  daily_loss_stop daily_loss_projection : RiskReason
  fill_at_stop fill_at_tp2 : SignalDirection → RiskReason
  low_rr negative_spread spread_ratio : RiskReason

-- The dict of a result; an absent key is `none`.
pub record RuleData (F : Type 0) : Type 0 where
  pub cluster_name : Option String
  pub risk_multiplier : Option F
  pub planned_cluster_risk_r : Option F
  pub equity_throttle_multiplier : Option F
  pub equity_throttle_dd_r : Option F

pub record RuleResult (F : Type 0) : Type 0 where
  pub reason : Option RiskReason
  pub entries : RuleData F

pub record RuleContext (F : Type 0) : Type 0 where
  pub clock : Clock
  pub signal : InboundSignal F
  pub open_trades : List (Trade F)
  pub config : RiskConfig F
  pub daily_loss_pct : F
  pub effective_open : ℕ
  pub effective_symbol : ℕ
  pub symbol_info : Option (SymbolInfo F)

pub record Trackers (F : Type 0) : Type 0 where
  pub loss : Option (LossTracker F)
  pub cluster_tracker : Option (ClusterTracker F)
  pub throttle : Option (EquityThrottleConfig F × ThrottleState F)

abbrev pub RiskRule : Type 0 → Type 0
RiskRule F = RuleContext F → Trackers F → Trackers F × RuleResult F

module _ {F : Type 0} where
  abbrev pub no_data : RuleData F
  no_data = record {
    cluster_name = none;
    risk_multiplier = none;
    planned_cluster_risk_r = none;
    equity_throttle_multiplier = none;
    equity_throttle_dd_r = none;
  }

  abbrev pub approve : RuleResult F
  approve = record { reason = none; entries = no_data }

  abbrev pub reject : RiskReason → RuleResult F
  reject why = record { reason = some why; entries = no_data }
