-- ===== src/Domain/Wire/Read.antt =====
-- `from_dict` of src/domain/signal_interface.py.
use execution_engine_multi.Prelude.{ℕ, Option, none, some, [], ◌∷◌, Dict, lookup, or_else}
use execution_engine_multi.Prelude.Python.{Python}
use execution_engine_multi.Utils.Symbol.{normalise_symbol}
use execution_engine_multi.Domain.Signal.{InboundSignal}
use execution_engine_multi.Domain.Wire.{
  Scalar, WireDict, ◌>>=◌, first_some, int_field, text_field, maybe_int_field, maybe_text_field,
  optional_int, text_or_empty, direction_field, status_field, num_field, maybe_num_field,
}
use execution_engine_multi.Domain.Wire.Pieces.{rejection_of, ltf_of, candle_of, maybe_ltf, htf_of}

module _ {F : Type 0} ⦃py : Python F⦄ where
  -- `from_dict` in three parts: the fields of the setup, those of the outcome, and the stages. The
  -- fields of the later parts have the default `None` in the earlier ones.
  unfoldable pub read_setup : WireDict F → Option (InboundSignal F)
  unfolding num_field int_field text_field direction_field status_field text_or_empty ltf_of
      candle_of htf_of maybe_ltf
  read_setup d = do
    id ← text_field "id" d.scalars
    symbol ← text_field "symbol" d.scalars
    direction ← direction_field "direction" d.scalars
    status ← status_field "status" d.scalars
    entry_price ← num_field "entryPrice" d.scalars
    stop_loss ← num_field "stopLoss" d.scalars
    tp1 ← num_field "tp1" d.scalars
    tp2 ← num_field "tp2" d.scalars
    risk_reward_ratio ← num_field "riskRewardRatio" d.scalars
    risk_pips ← num_field "riskPips" d.scalars
    htf_range ← lookup "htfRange" d.objects >>= htf_of
    rejection_candle ← lookup "rejectionCandle" d.objects >>= candle_of
    created_at ← int_field "createdAt" d.scalars
    htf_interval ← text_or_empty d.scalars "htfInterval" "htf_interval"
    ltf_interval ← text_or_empty d.scalars "ltfInterval" "ltf_interval"
    broker ← text_or_empty d.scalars "broker" "broker"
    ltf_range ← maybe_ltf (lookup "ltfRange" d.objects)
    some (record {
      id = id;
      symbol = normalise_symbol py symbol;
      direction = direction;
      status = status;
      entry_price = entry_price;
      stop_loss = stop_loss;
      tp1 = tp1;
      tp2 = tp2;
      risk_reward_ratio = risk_reward_ratio;
      risk_pips = risk_pips;
      htf_range = htf_range;
      rejection_candle = rejection_candle;
      created_at = created_at;
      htf_interval = htf_interval;
      ltf_interval = ltf_interval;
      broker = broker;
      ltf_range = ltf_range;
      pending_at = none;
      triggered_at = none;
      tp1_hit_at = none;
      tp2_hit_at = none;
      sl_hit_at = none;
      invalidated_at = none;
      expired_at = none;
      closed_at = none;
      outcome = none;
      realized_rr = none;
      close_price = none;
      resolved_symbol = none;
      setup_candle_open_at = none;
      setup_candle_close_at = none;
      detected_at = none;
      emitted_at = none;
      received_at = none;
      queued_at = none;
      execution_started_at = none;
      order_sent_at = none;
      order_filled_at = none;
      trade_opened_at = none;
    })

  unfoldable pub read_outcome : Dict (Scalar F) → InboundSignal F → Option (InboundSignal F)
  unfolding maybe_int_field maybe_num_field maybe_text_field optional_int
  read_outcome d s = do
    pending_at ← maybe_int_field "pendingAt" d
    triggered_at ← optional_int d ("triggeredAt" ∷ "triggered_at" ∷ [])
    tp1_hit_at ← maybe_int_field "tp1HitAt" d
    tp2_hit_at ← maybe_int_field "tp2HitAt" d
    sl_hit_at ← maybe_int_field "slHitAt" d
    invalidated_at ← maybe_int_field "invalidatedAt" d
    expired_at ← maybe_int_field "expiredAt" d
    closed_at ← maybe_int_field "closedAt" d
    outcome ← maybe_text_field "outcome" d
    realized_rr ← maybe_num_field "realizedRR" d
    close_price ← maybe_num_field "closePrice" d
    some (record s {
      pending_at = pending_at;
      triggered_at = triggered_at;
      tp1_hit_at = tp1_hit_at;
      tp2_hit_at = tp2_hit_at;
      sl_hit_at = sl_hit_at;
      invalidated_at = invalidated_at;
      expired_at = expired_at;
      closed_at = closed_at;
      outcome = outcome;
      realized_rr = realized_rr;
      close_price = close_price;
    })

  -- The setup's candle: its own times, else those of the rejection candle, else the trigger.
  unfoldable pub read_candle :
      Dict (Scalar F) → Dict (Scalar F) → InboundSignal F → Option (InboundSignal F)
  unfolding optional_int
  read_candle rejection d s = do
    open_at ← optional_int d ("setupCandleOpenAt" ∷ "setup_candle_open_at" ∷ [])
    wick_at ← optional_int rejection ("timestamp" ∷ [])
    close_at ← optional_int d (
        "setupCandleCloseAt" ∷ "setup_candle_close_at" ∷ "rejectionCandleCloseAt"
        ∷ "rejection_candle_close_at" ∷ [])
    wick_end ← optional_int rejection ("closeAt" ∷ "close_at" ∷ [])
    some (record s {
      setup_candle_open_at = or_else open_at wick_at;
      setup_candle_close_at = first_some (or_else close_at wick_end) s.triggered_at;
    })

  unfoldable pub read_stages : ℕ → Dict (Scalar F) → InboundSignal F → Option (InboundSignal F)
  unfolding optional_int
  read_stages now d s = do
    received_at ← optional_int d ("receivedAt" ∷ "received_at" ∷ [])
    emitted_at ← optional_int d ("emittedAt" ∷ "emitted_at" ∷ [])
    detected_at ←
        optional_int d ("detectedAt" ∷ "detected_at" ∷ "triggeredAt" ∷ "triggered_at" ∷ [])
    queued_at ← optional_int d ("queuedAt" ∷ "queued_at" ∷ [])
    execution_started_at ← optional_int d ("executionStartedAt" ∷ "execution_started_at" ∷ [])
    order_sent_at ← optional_int d ("orderSentAt" ∷ "order_sent_at" ∷ [])
    order_filled_at ← optional_int d ("orderFilledAt" ∷ "order_filled_at" ∷ [])
    trade_opened_at ← optional_int d ("tradeOpenedAt" ∷ "trade_opened_at" ∷ [])
    let received = or_else received_at (some now) in
        let emitted = or_else emitted_at received in
        some (record s {
          received_at = received;
          emitted_at = emitted;
          detected_at = or_else detected_at emitted;
          queued_at = queued_at;
          execution_started_at = execution_started_at;
          order_sent_at = order_sent_at;
          order_filled_at = order_filled_at;
          trade_opened_at = trade_opened_at;
        })

  -- `InboundSignal.from_dict`
  unfoldable pub from_dict : ℕ → WireDict F → Option (InboundSignal F)
  unfolding read_setup read_outcome read_candle read_stages
  from_dict now d =
      read_setup d
      >>= read_outcome d.scalars
      >>= read_candle
          (rejection_of (lookup "rejectionCandle" d.objects) (lookup "rejection_candle" d.objects))
          d.scalars
      >>= read_stages now d.scalars
