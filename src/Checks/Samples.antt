-- ===== src/Checks/Samples.antt =====
-- Sample data for the examples.
use execution_engine_multi.Prelude.{ℕ, String, true, false, none, some, [], ◌∷◌}
use execution_engine_multi.Prelude.Int.{ℤ}
use execution_engine_multi.Checks.Floats.{Python-ℤ}
use execution_engine_multi.Config.{
  ClusterGroupConfig, EquityThrottleConfig, RiskConfig, ExecutionConfig, TfOverride,
}
use execution_engine_multi.Domain.Signal.{
  InboundSignal, HtfRange, RejectionCandle, SignalDirection, long, triggered, bullish, hammer,
}
use execution_engine_multi.Domain.Position.{AccountInfo, SymbolInfo}
use execution_engine_multi.Domain.Trade.{TradePlan, Trade, buy, opened}
use execution_engine_multi.Risk.Throttle.{ThrottleState}
use execution_engine_multi.Risk.Loss.{LossTracker, unset}
use execution_engine_multi.Risk.Rules.Context.{Clock, RuleContext, Trackers}
use execution_engine_multi.Execution.State.{EngineState, Answers, filled}

-- The literal m * 10 ** -e.
abbrev pub dec : ℕ → ℕ → ℤ
dec m e = Python-ℤ.lit m e

abbrev pub htf_range : HtfRange ℤ
htf_range = record {
  range_high = dec 112 2;
  range_low = dec 109 2;
  bos_direction = bullish;
  timestamp = 100;
  broken_at = 110;
  tp_level = dec 112 2;
  midpoint = dec 1105 3;
  height = dec 3 2;
  htf_candle_open = 90;
  htf_candle_close = 100;
}

abbrev pub candle : RejectionCandle ℤ
candle = record {
  opening = dec 11 1;
  high = dec 1101 3;
  low = dec 1096 3;
  close = dec 11 1;
  timestamp = 120;
  wick_ratio = dec 8 1;
  pattern_name = hammer;
  wick_tip = dec 1096 3;
}

abbrev pub signal : String → SignalDirection → InboundSignal ℤ
signal sid direction = record {
  id = sid;
  symbol = "EURUSD";
  direction = direction;
  status = triggered;
  entry_price = dec 11 1;
  stop_loss = dec 1095 3;
  tp1 = dec 1105 3;
  tp2 = dec 1115 3;
  risk_reward_ratio = dec 3 0;
  risk_pips = dec 50 0;
  htf_range = htf_range;
  rejection_candle = candle;
  created_at = 130;
  htf_interval = "4h";
  ltf_interval = "5m";
  broker = "demo";
  ltf_range = none;
  pending_at = none;
  triggered_at = some 900;
  tp1_hit_at = none;
  tp2_hit_at = none;
  sl_hit_at = none;
  invalidated_at = none;
  expired_at = none;
  closed_at = none;
  outcome = none;
  realized_rr = none;
  close_price = none;
  resolved_symbol = some "EURUSD";
  setup_candle_open_at = none;
  setup_candle_close_at = some 950;
  detected_at = none;
  emitted_at = none;
  received_at = none;
  queued_at = none;
  execution_started_at = none;
  order_sent_at = none;
  order_filled_at = none;
  trade_opened_at = none;
}

abbrev pub risk_config : RiskConfig ℤ
risk_config = record {
  max_losing_streak = 4;
  max_daily_loss_percent = dec 4 0;
  max_exposure_per_symbol = 1;
  min_rr_ratio = dec 15 1;
  max_lot_size = dec 5 0;
  min_lot_size = dec 1 2;
  sl_ratio_threshold = dec 5 1;
  symbol_sl_ratio_threshold = [];
  no_hedging = true;
  max_profit_drawdown_percent = dec 2 0;
  rolling_window_size = 5;
  rolling_drawdown_pct = dec 3 0;
}

abbrev pub euro_override : TfOverride ℤ
euro_override = record { tp1_trigger_pct = some (dec 45 0); tp1_percentage = none }

abbrev pub execution_config : ExecutionConfig ℤ
execution_config = record {
  tp1_trigger_pct = dec 30 0;
  tp1_percentage = dec 50 0;
  move_sl_to_be_on_tp1 = true;
  slippage = 10;
  magic = 77;
  spread_risk_multiplier = dec 1 0;
  order_retry_count = 2;
  close_on_slippage_exceed = true;
  breakeven_spread_multiplier = dec 15 1;
  breakeven_max_buffer_pct_of_risk = dec 10 0;
  max_entry_slippage_pct_of_stop = dec 20 0;
  adjust_levels_on_slippage = true;
  max_signal_age_ms = 60000;
  tf_overrides = ("EURUSD", ("240/5", euro_override) ∷ []) ∷ [];
}

abbrev pub symbol_info : SymbolInfo ℤ
symbol_info = record {
  symbol = "EURUSD";
  digits = 5;
  point = dec 1 5;
  tick_size = dec 1 5;
  tick_value = dec 1 0;
  contract_size = dec 100000 0;
  lot_min = dec 1 2;
  lot_max = dec 100 0;
  lot_step = dec 1 2;
  ask = some (dec 11001 4);
  bid = some (dec 11 1);
  filling_mode = 1;
  stops_level = 10;
  freeze_level = 0;
  volume_min = dec 1 2;
  volume_max = dec 100 0;
  volume_step = dec 1 2;
}

abbrev pub account : AccountInfo ℤ
account = record {
  login = 1;
  server = "demo";
  currency = "USD";
  balance = dec 10000 0;
  equity = dec 10000 0;
  margin = dec 0 0;
  free_margin = dec 10000 0;
  margin_level = dec 0 0;
  leverage = 100;
}

abbrev pub clock : Clock
clock = record { fresh_now = 1000; pause_now = 1000; today = 7; throttle_now = 1000 }

abbrev pub group : ClusterGroupConfig ℤ
group = record {
  name = "majors";
  symbols = "EURUSD" ∷ "GBPUSD" ∷ [];
  max_same_day_loss_r = dec 2 0;
  max_concurrent_positions = 2;
  max_same_day_losses = 2;
  after_first_loss_risk_multiplier = dec 5 1;
  min_trade_risk_multiplier = dec 25 2;
}

abbrev pub throttle_config : EquityThrottleConfig ℤ
throttle_config = record {
  enabled = true;
  drawdown_threshold_r = dec 3 0;
  release_threshold_r = dec 1 0;
  risk_multiplier = dec 5 1;
  window_days = 30;
}

abbrev pub throttle_state : ThrottleState ℤ
throttle_state = record { window = []; engaged = false; dd_r = dec 0 0 }

abbrev pub tracker : LossTracker ℤ
tracker = record {
  limit = dec 4 0;
  max_profit_drawdown = dec 2 0;
  rolling_window_size = 5;
  rolling_drawdown_pct = dec 3 0;
  current_pct = dec 1 0;
  start_of_day_equity = dec 10000 0;
  tracked_day = some 7;
  paused_until = 0;
  pause_reason = unset;
  session_closed_pnl = dec 0 0;
  session_closed_peak = dec 0 0;
  profit_drawback_pct = dec 0 0;
  equity_window = dec 10000 0 ∷ [];
  equity_peak = dec 10000 0;
  risk_data_updated_at = 900;
  risk_data_error = "";
}

abbrev pub trackers : Trackers ℤ
trackers = record {
  loss = some tracker;
  cluster_tracker =
      some (record { config = record { enabled = true; groups = group ∷ [] }; states = [] });
  throttle = some (throttle_config, throttle_state);
}

abbrev pub context : RuleContext ℤ
context = record {
  clock = clock;
  signal = signal "s1" long;
  open_trades = [];
  config = risk_config;
  daily_loss_pct = dec 1 0;
  effective_open = 0;
  effective_symbol = 0;
  symbol_info = some symbol_info;
}

abbrev pub plan_of : InboundSignal ℤ → ℤ → TradePlan ℤ
plan_of s mult = record {
  signal_id = s.id;
  symbol = "EURUSD";
  side = buy;
  entry_price = dec 11001 4;
  stop_loss = dec 1095 3;
  tp1 = dec 1105 3;
  tp2 = dec 1115 3;
  lot_size = dec 2 1;
  risk_amount = dec 100 0;
  risk_percent = dec 1 0;
  risk_reward_ratio = dec 3 0;
  planned_at = 1000;
  signal = some s;
  tp1_lots = dec 1 1;
  risk_multiplier = mult;
}

-- Every collaborator does what it is asked.
abbrev pub answers : Answers ℤ
answers = record {
  pipeline_start = 1000;
  health = some true;
  broker = some (account, symbol_info);
  clock = clock;
  reserve_day = 7;
  release_day = 7;
  open_day = 7;
  plan = λ s _ _ mult. some (plan_of s mult);
  order = λ plan. filled 42 (dec 11002 4) (dec 2 1);
  opened_at = 1010;
  trade_id = "t1";
  is_tracked = true;
  is_saved = true;
}

abbrev pub state : EngineState ℤ
state = record {
  pending = [];
  pending_signal_ids = [];
  daily_loss_pct = dec 1 0;
  persistence_available = true;
  trackers = trackers;
  store = [];
  trace = [];
}

abbrev pub trade : Trade ℤ
trade = record {
  id = "t1";
  signal_id = "s1";
  symbol = "EURUSD";
  side = buy;
  status = opened;
  plan = plan_of (signal "s1" long) (dec 1 0);
  entry_ticket = some 42;
  entry_price = some (dec 11002 4);
  entry_lots = dec 2 1;
  current_lots = dec 2 1;
  tp1_lots = dec 1 1;
  stop_loss = dec 1095 3;
  tp1 = dec 1105 3;
  tp2 = dec 1115 3;
  was_tp1_hit = false;
  tp1_hit_at = none;
  tp1_close_price = none;
  was_tp2_hit = false;
  tp2_hit_at = none;
  was_sl_hit = false;
  sl_hit_at = none;
  opened_at = some 1010;
  closed_at = none;
  close_reason = none;
  close_price = none;
  realized_pnl = none;
  realized_rr = none;
  created_at = 1010;
  updated_at = 1010;
}
