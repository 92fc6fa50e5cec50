-- ===== src/Domain/Wire/Write.antt =====
-- `to_dict` of src/domain/signal_interface.py.
use execution_engine_multi.Prelude.{Option, none, some, [], ◌∷◌, Dict}
use execution_engine_multi.Domain.Signal.{HtfRange, LtfRange, RejectionCandle, InboundSignal}
use execution_engine_multi.Domain.Wire.{
  Scalar, int, num, text, WireDict, direction_text, status_text, bos_text, pattern_text, int_value,
  num_value, text_value,
}

module _ {F : Type 0} where
  -- The objects and the fields of `to_dict`.
  unfoldable pub htf_dict : HtfRange F → Dict (Scalar F)
  htf_dict r =
      ("rangeHigh", num r.range_high)
      ∷ ("rangeLow", num r.range_low)
      ∷ ("bosDirection", text (bos_text r.bos_direction))
      ∷ ("timestamp", int r.timestamp)
      ∷ ("brokenAt", int r.broken_at)
      ∷ ("tpLevel", num r.tp_level)
      ∷ ("midpoint", num r.midpoint)
      ∷ ("height", num r.height)
      ∷ ("htfCandleOpen", int r.htf_candle_open)
      ∷ ("htfCandleClose", int r.htf_candle_close)
      ∷ []

  unfoldable pub candle_dict : RejectionCandle F → Dict (Scalar F)
  candle_dict c =
      ("open", num c.opening)
      ∷ ("high", num c.high)
      ∷ ("low", num c.low)
      ∷ ("close", num c.close)
      ∷ ("timestamp", int c.timestamp)
      ∷ ("wickRatio", num c.wick_ratio)
      ∷ ("pattern", text (pattern_text c.pattern_name))
      ∷ ("wickTip", num c.wick_tip)
      ∷ []

  unfoldable pub ltf_dict : LtfRange F → Dict (Scalar F)
  ltf_dict r =
      ("rangeHigh", num r.range_high)
      ∷ ("rangeLow", num r.range_low)
      ∷ ("timestamp", int r.timestamp)
      ∷ ("direction", text (direction_text r.direction))
      ∷ ("slLevel", num r.sl_level)
      ∷ []

  unfoldable pub ltf_objects : Option (LtfRange F) → Dict (Dict (Scalar F))
  unfolding ltf_dict
  ltf_objects none = []
  ltf_objects (some r) = ("ltfRange", ltf_dict r) ∷ []

  unfoldable pub scalar_fields : InboundSignal F → Dict (Scalar F)
  scalar_fields s =
      ("id", text s.id)
      ∷ ("symbol", text s.symbol)
      ∷ ("direction", text (direction_text s.direction))
      ∷ ("status", text (status_text s.status))
      ∷ ("entryPrice", num s.entry_price)
      ∷ ("stopLoss", num s.stop_loss)
      ∷ ("tp1", num s.tp1)
      ∷ ("tp2", num s.tp2)
      ∷ ("riskRewardRatio", num s.risk_reward_ratio)
      ∷ ("riskPips", num s.risk_pips)
      ∷ ("htfInterval", text s.htf_interval)
      ∷ ("ltfInterval", text s.ltf_interval)
      ∷ ("broker", text s.broker)
      ∷ ("createdAt", int s.created_at)
      ∷ ("pendingAt", int_value s.pending_at)
      ∷ ("triggeredAt", int_value s.triggered_at)
      ∷ ("tp1HitAt", int_value s.tp1_hit_at)
      ∷ ("tp2HitAt", int_value s.tp2_hit_at)
      ∷ ("slHitAt", int_value s.sl_hit_at)
      ∷ ("invalidatedAt", int_value s.invalidated_at)
      ∷ ("expiredAt", int_value s.expired_at)
      ∷ ("closedAt", int_value s.closed_at)
      ∷ ("outcome", text_value s.outcome)
      ∷ ("realizedRR", num_value s.realized_rr)
      ∷ ("closePrice", num_value s.close_price)
      ∷ ("setupCandleOpenAt", int_value s.setup_candle_open_at)
      ∷ ("setupCandleCloseAt", int_value s.setup_candle_close_at)
      ∷ ("detectedAt", int_value s.detected_at)
      ∷ ("emittedAt", int_value s.emitted_at)
      ∷ ("receivedAt", int_value s.received_at)
      ∷ ("queuedAt", int_value s.queued_at)
      ∷ ("executionStartedAt", int_value s.execution_started_at)
      ∷ ("orderSentAt", int_value s.order_sent_at)
      ∷ ("orderFilledAt", int_value s.order_filled_at)
      ∷ ("tradeOpenedAt", int_value s.trade_opened_at)
      ∷ []

  -- `to_dict`
  unfoldable pub to_dict : InboundSignal F → WireDict F
  unfolding scalar_fields htf_dict candle_dict ltf_objects
  to_dict s = record {
    scalars = scalar_fields s;
    objects =
        ("htfRange", htf_dict s.htf_range)
        ∷ ("rejectionCandle", candle_dict s.rejection_candle)
        ∷ ltf_objects s.ltf_range;
  }
