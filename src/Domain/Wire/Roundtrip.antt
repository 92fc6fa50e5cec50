-- ===== src/Domain/Wire/Roundtrip.antt =====
-- A signal that is written to the wire is read back.
use execution_engine_multi.Prelude.{
  ◌⊎◌, ℕ, Option, none, some, Dict, or_else, ◌≡◌, refl, ap, sym, ◌∙◌,
}
use execution_engine_multi.Prelude.Python.{Python}
use execution_engine_multi.Utils.Symbol.{normalise_symbol}
use execution_engine_multi.Domain.Signal.{InboundSignal}
use execution_engine_multi.Domain.Wire.{
  Scalar, ◌>>=◌, first_some, int_field, text_field, direction_field, status_field, num_field,
}
use execution_engine_multi.Domain.Wire.Read.{
  read_setup, read_outcome, read_candle, read_stages, from_dict,
}
use execution_engine_multi.Domain.Wire.Write.{candle_dict, scalar_fields, to_dict}
use execution_engine_multi.Domain.Wire.Parts.{
  IsPresent, IsWhole, candle_of-candle_dict, direction_of-text, first_some-present, htf_of-htf_dict,
  maybe_ltf-ltf_objects, or_else-closed, or_else-present, status_of-text, text_or_empty-twice,
  text_or_empty-value,
}
use execution_engine_multi.Domain.Wire.Steps.{
  with_outcome, read_outcome-scalar_fields, with_candle, read_candle-scalar_fields, received,
  emitted, read_stages-scalar_fields,
}

module _ {F : Type 0} ⦃py : Python F⦄ where
  -- The signal as the parser makes it: its symbol is in the normal form and not resolved, and the
  -- times that the parser fills in are there.
  pub record IsParsed (s : InboundSignal F) : Type 0 where
    pub symbol : normalise_symbol py s.symbol ≡ s.symbol
    pub resolved : s.resolved_symbol ≡ none
    pub htf : IsWhole s.htf_range
    pub opened : IsPresent s.setup_candle_open_at
    pub closed : IsPresent s.setup_candle_close_at ⊎ (s.setup_candle_close_at ≡ s.triggered_at)
    pub detected : IsPresent s.detected_at
    pub emitted : IsPresent s.emitted_at
    pub received : IsPresent s.received_at

  abbrev setup_of : InboundSignal F → InboundSignal F
  setup_of s = record s {
    symbol = normalise_symbol py s.symbol;
    pending_at = none;
    triggered_at = none;
    tp1_hit_at = none;
    tp2_hit_at = none;
    sl_hit_at = none;
    invalidated_at = none;
    expired_at = none;
    closed_at = none;
    outcome = none;
    realized_rr = none;
    close_price = none;
    resolved_symbol = none;
    setup_candle_open_at = none;
    setup_candle_close_at = none;
    detected_at = none;
    emitted_at = none;
    received_at = none;
    queued_at = none;
    execution_started_at = none;
    order_sent_at = none;
    order_filled_at = none;
    trade_opened_at = none;
  }

  read_setup-to_dict :
      (s : InboundSignal F) → IsWhole s.htf_range → read_setup (to_dict s) ≡ some (setup_of s)
  unfolding read_setup to_dict scalar_fields num_field int_field text_field direction_field
      status_field
  read_setup-to_dict s whole =
      rw
        (
          direction_of-text s.direction,
          status_of-text s.status,
          htf_of-htf_dict s.htf_range whole,
          candle_of-candle_dict s.rejection_candle,
          maybe_ltf-ltf_objects s.ltf_range,
          text_or_empty-value s.htf_interval,
          text_or_empty-value s.ltf_interval,
          text_or_empty-twice s.broker,
        )
        refl

  filled :
      (now : ℕ) (s : InboundSignal F)
      → IsParsed s
      → ◌≡◌ {A = Option (InboundSignal F)}
          (some (record s {
            symbol = normalise_symbol py s.symbol;
            resolved_symbol = none;
            setup_candle_open_at =
                or_else s.setup_candle_open_at (some s.rejection_candle.timestamp);
            setup_candle_close_at =
                first_some (or_else s.setup_candle_close_at none) s.triggered_at;
            received_at = received now s;
            emitted_at = emitted now s;
            detected_at = or_else (first_some s.detected_at s.triggered_at) (emitted now s);
          }))
          (some s)
  filled now s parsed = λ i. some (record s {
    symbol = parsed.symbol i;
    resolved_symbol = sym parsed.resolved i;
    setup_candle_open_at =
        or_else-present s.setup_candle_open_at (some s.rejection_candle.timestamp) parsed.opened i;
    setup_candle_close_at = or_else-closed s.setup_candle_close_at s.triggered_at parsed.closed i;
    received_at = or_else-present s.received_at (some now) parsed.received i;
    emitted_at = or_else-present s.emitted_at (received now s) parsed.emitted i;
    detected_at =
        (ap (λ o. or_else o (emitted now s))
              (first_some-present s.detected_at s.triggered_at parsed.detected)
            ∙ or_else-present s.detected_at (emitted now s) parsed.detected)
          i;
  })

  -- A signal as the parser makes it, written with `to_dict` and read with `from_dict` at any later
  -- time, is the same signal, with every optional field and time.
  pub from_dict-to_dict :
      (now : ℕ) (s : InboundSignal F) → IsParsed s → from_dict now (to_dict s) ≡ some s
  unfolding from_dict to_dict candle_dict
  from_dict-to_dict now s parsed =
      let d : Dict (Scalar F) = scalar_fields s in
      let rejection : Dict (Scalar F) = candle_dict s.rejection_candle in
      let setup = setup_of s in
      let ended = with_outcome s setup in
      ap (λ o. o >>= read_outcome d >>= read_candle rejection d >>= read_stages now d)
        (read_setup-to_dict s parsed.htf)
      ∙ ap (λ o. o >>= read_candle rejection d >>= read_stages now d)
          (read_outcome-scalar_fields s setup)
      ∙ ap (λ o. o >>= read_stages now d) (read_candle-scalar_fields s.rejection_candle s ended)
      ∙ read_stages-scalar_fields now s (with_candle s.rejection_candle s ended)
      ∙ filled now s parsed
