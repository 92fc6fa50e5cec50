-- ===== src/Domain/Wire/Steps.antt =====
-- Each part of the parser reads its fields of a written signal.
use execution_engine_multi.Prelude.{ℕ, Option, none, some, [], ◌∷◌, or_else, ◌≡◌, refl}
use execution_engine_multi.Prelude.Python.{Python}
use execution_engine_multi.Domain.Signal.{RejectionCandle, InboundSignal}
use execution_engine_multi.Domain.Wire.{
  first_some, maybe_int_field, maybe_text_field, maybe_num_field,
}
use execution_engine_multi.Domain.Wire.Read.{read_outcome, read_candle, read_stages}
use execution_engine_multi.Domain.Wire.Write.{candle_dict, scalar_fields}
use execution_engine_multi.Domain.Wire.Parts.{
  maybe_int-value, maybe_num-value, maybe_text-value, optional_int-first_some, optional_int-value,
}

module _ {F : Type 0} ⦃py : Python F⦄ where
  -- The signal after each part of the parser.
  abbrev pub with_outcome : InboundSignal F → InboundSignal F → InboundSignal F
  with_outcome s t = record t {
    pending_at = s.pending_at;
    triggered_at = s.triggered_at;
    tp1_hit_at = s.tp1_hit_at;
    tp2_hit_at = s.tp2_hit_at;
    sl_hit_at = s.sl_hit_at;
    invalidated_at = s.invalidated_at;
    expired_at = s.expired_at;
    closed_at = s.closed_at;
    outcome = s.outcome;
    realized_rr = s.realized_rr;
    close_price = s.close_price;
  }

  pub read_outcome-scalar_fields :
      (s t : InboundSignal F) → read_outcome (scalar_fields s) t ≡ some (with_outcome s t)
  unfolding read_outcome scalar_fields maybe_int_field maybe_num_field maybe_text_field
  read_outcome-scalar_fields s t =
      rw
        (
          optional_int-value (scalar_fields s) "triggeredAt" ("triggered_at" ∷ []) s.triggered_at
              refl refl,
          maybe_int-value F s.pending_at,
          maybe_int-value F s.tp1_hit_at,
          maybe_int-value F s.tp2_hit_at,
          maybe_int-value F s.sl_hit_at,
          maybe_int-value F s.invalidated_at,
          maybe_int-value F s.expired_at,
          maybe_int-value F s.closed_at,
          maybe_text-value F s.outcome,
          maybe_num-value s.realized_rr,
          maybe_num-value s.close_price,
        )
        refl

  abbrev pub with_candle : RejectionCandle F → InboundSignal F → InboundSignal F → InboundSignal F
  with_candle c s t = record t {
    setup_candle_open_at = or_else s.setup_candle_open_at (some c.timestamp);
    setup_candle_close_at = first_some (or_else s.setup_candle_close_at none) t.triggered_at;
  }

  pub read_candle-scalar_fields :
      (c : RejectionCandle F) (s t : InboundSignal F)
      → read_candle (candle_dict c) (scalar_fields s) t ≡ some (with_candle c s t)
  unfolding read_candle scalar_fields candle_dict
  read_candle-scalar_fields c s t =
      rw
        (
          optional_int-value (scalar_fields s) "setupCandleOpenAt" ("setup_candle_open_at" ∷ [])
              s.setup_candle_open_at refl refl,
          optional_int-value (scalar_fields s) "setupCandleCloseAt"
              ("setup_candle_close_at" ∷ "rejectionCandleCloseAt" ∷ "rejection_candle_close_at"
                ∷ [])
              s.setup_candle_close_at refl refl,
        )
        refl

  -- The stages that are read back: a time that is missing or zero is filled in.
  abbrev pub received : ℕ → InboundSignal F → Option ℕ
  received now s = or_else s.received_at (some now)

  abbrev pub emitted : ℕ → InboundSignal F → Option ℕ
  emitted now s = or_else s.emitted_at (received now s)

  pub read_stages-scalar_fields :
      (now : ℕ) (s t : InboundSignal F)
      → read_stages now (scalar_fields s) t
        ≡ some (record t {
          received_at = received now s;
          emitted_at = emitted now s;
          detected_at = or_else (first_some s.detected_at s.triggered_at) (emitted now s);
          queued_at = s.queued_at;
          execution_started_at = s.execution_started_at;
          order_sent_at = s.order_sent_at;
          order_filled_at = s.order_filled_at;
          trade_opened_at = s.trade_opened_at;
        })
  unfolding read_stages scalar_fields
  read_stages-scalar_fields now s t =
      rw
        (
          optional_int-first_some (scalar_fields s) "detectedAt"
              ("detected_at" ∷ "triggeredAt" ∷ "triggered_at" ∷ []) s.detected_at s.triggered_at
              refl
              (optional_int-value (scalar_fields s) "triggeredAt" ("triggered_at" ∷ [])
                s.triggered_at refl refl),
          optional_int-value (scalar_fields s) "receivedAt" ("received_at" ∷ []) s.received_at refl
              refl,
          optional_int-value (scalar_fields s) "emittedAt" ("emitted_at" ∷ []) s.emitted_at refl
              refl,
          optional_int-value (scalar_fields s) "queuedAt" ("queued_at" ∷ []) s.queued_at refl refl,
          optional_int-value (scalar_fields s) "executionStartedAt" ("execution_started_at" ∷ [])
              s.execution_started_at refl refl,
          optional_int-value (scalar_fields s) "orderSentAt" ("order_sent_at" ∷ []) s.order_sent_at
              refl refl,
          optional_int-value (scalar_fields s) "orderFilledAt" ("order_filled_at" ∷ [])
              s.order_filled_at refl refl,
          optional_int-value (scalar_fields s) "tradeOpenedAt" ("trade_opened_at" ∷ [])
              s.trade_opened_at refl refl,
        )
        refl
