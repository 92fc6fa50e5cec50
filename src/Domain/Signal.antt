-- ===== src/Domain/Signal.antt =====
-- src/domain/signal_interface.py: the inbound signal and its parts. Timestamps are milliseconds,
-- `F` is the type of floats. `RejectionCandle.open` is called `opening`: the word is reserved.
use execution_engine_multi.Prelude.{ℕ, String, Bool, true, false, Option}

pub data SignalDirection : Type 0 where
  long short : SignalDirection

pub data SignalStatus : Type 0 where
  pending triggered tp1_hit tp2_hit sl_hit invalidated expired : SignalStatus

pub data BosDirection : Type 0 where
  bullish bearish : BosDirection

pub data CandlePattern : Type 0 where
  shooting_star hammer crt_buy crt_sell : CandlePattern

-- `direction == SignalDirection.LONG`
abbrev pub is_long : SignalDirection → Bool
is_long long = true
is_long short = false

pub record HtfRange (F : Type 0) : Type 0 where
  pub range_high : F
  pub range_low : F
  pub bos_direction : BosDirection
  pub timestamp : ℕ
  pub broken_at : ℕ
  pub tp_level : F
  pub midpoint : F
  pub height : F
  pub htf_candle_open : ℕ
  pub htf_candle_close : ℕ

pub record LtfRange (F : Type 0) : Type 0 where
  pub range_high : F
  pub range_low : F
  pub timestamp : ℕ
  pub direction : SignalDirection
  pub sl_level : F

pub record RejectionCandle (F : Type 0) : Type 0 where
  pub opening : F
  pub high : F
  pub low : F
  pub close : F
  pub timestamp : ℕ
  pub wick_ratio : F
  pub pattern_name : CandlePattern
  pub wick_tip : F

pub record InboundSignal (F : Type 0) : Type 0 where
  pub id : String
  pub symbol : String
  pub direction : SignalDirection
  pub status : SignalStatus
  pub entry_price : F
  pub stop_loss : F
  pub tp1 : F
  pub tp2 : F
  pub risk_reward_ratio : F
  pub risk_pips : F
  pub htf_range : HtfRange F
  pub rejection_candle : RejectionCandle F
  pub created_at : ℕ
  pub htf_interval : String
  pub ltf_interval : String
  pub broker : String
  pub ltf_range : Option (LtfRange F)
  pub pending_at : Option ℕ
  pub triggered_at : Option ℕ
  pub tp1_hit_at : Option ℕ
  pub tp2_hit_at : Option ℕ
  pub sl_hit_at : Option ℕ
  pub invalidated_at : Option ℕ
  pub expired_at : Option ℕ
  pub closed_at : Option ℕ
  pub outcome : Option String
  pub realized_rr : Option F
  pub close_price : Option F
  pub resolved_symbol : Option String
  pub setup_candle_open_at : Option ℕ
  pub setup_candle_close_at : Option ℕ
  pub detected_at : Option ℕ
  pub emitted_at : Option ℕ
  pub received_at : Option ℕ
  pub queued_at : Option ℕ
  pub execution_started_at : Option ℕ
  pub order_sent_at : Option ℕ
  pub order_filled_at : Option ℕ
  pub trade_opened_at : Option ℕ
