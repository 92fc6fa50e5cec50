-- ===== src/Domain/Wire/Pieces.antt =====
-- `from_dict` of the ranges and of the rejection candle in src/domain/signal_interface.py.
use execution_engine_multi.Prelude.{Option, none, some, [], ◌∷◌, Dict, or_default}
use execution_engine_multi.Prelude.Python.{Python, zero_f, or_f}
use execution_engine_multi.Domain.Signal.{HtfRange, LtfRange, RejectionCandle}
use execution_engine_multi.Domain.Wire.{
  Scalar, ◌>>=◌, bos_of, pattern_of, int_or, int_field, text_field, maybe_int_field,
  direction_field, num_field, maybe_num_field,
}

module _ {F : Type 0} where
  -- `d.get("rejectionCandle") or d.get("rejection_candle") or {}`
  abbrev pub rejection_of : Option (Dict (Scalar F)) → Option (Dict (Scalar F)) → Dict (Scalar F)
  rejection_of none other = or_default other []
  rejection_of (some []) other = or_default other []
  rejection_of (some (field ∷ d)) other = field ∷ d

module _ {F : Type 0} ⦃py : Python F⦄ where
  -- `LtfRange.from_dict`
  unfoldable pub ltf_of : Dict (Scalar F) → Option (LtfRange F)
  unfolding num_field int_field direction_field
  ltf_of d = do
    range_high ← num_field "rangeHigh" d
    range_low ← num_field "rangeLow" d
    timestamp ← int_field "timestamp" d
    direction ← direction_field "direction" d
    sl_level ← num_field "slLevel" d
    some (record {
      range_high = range_high;
      range_low = range_low;
      timestamp = timestamp;
      direction = direction;
      sl_level = sl_level;
    })

  -- `RejectionCandle.from_dict`
  unfoldable pub candle_of : Dict (Scalar F) → Option (RejectionCandle F)
  unfolding num_field int_field text_field pattern_of
  candle_of d = do
    opening ← num_field "open" d
    high ← num_field "high" d
    low ← num_field "low" d
    close ← num_field "close" d
    timestamp ← int_field "timestamp" d
    wick_ratio ← num_field "wickRatio" d
    pattern_name ← text_field "pattern" d >>= pattern_of
    wick_tip ← num_field "wickTip" d
    some (record {
      opening = opening;
      high = high;
      low = low;
      close = close;
      timestamp = timestamp;
      wick_ratio = wick_ratio;
      pattern_name = pattern_name;
      wick_tip = wick_tip;
    })

  -- `LtfRange.from_dict(d["ltfRange"]) if d.get("ltfRange") else None`
  unfoldable pub maybe_ltf : Option (Dict (Scalar F)) → Option (Option (LtfRange F))
  unfolding ltf_of
  maybe_ltf none = some none
  maybe_ltf (some []) = some none
  maybe_ltf (some (field ∷ d)) = ltf_of (field ∷ d) >>= λ range. some (some range)

  -- `d.get(key) or default` of a float and of a time.
  abbrev pub num_or : Option F → F → F
  num_or none default = default
  num_or (some x) default = or_f x default

  -- `HtfRange.from_dict`
  unfoldable pub htf_of : Dict (Scalar F) → Option (HtfRange F)
  unfolding num_field int_field text_field bos_of maybe_num_field maybe_int_field
  htf_of d = do
    range_high ← num_field "rangeHigh" d
    range_low ← num_field "rangeLow" d
    bos_direction ← text_field "bosDirection" d >>= bos_of
    timestamp ← int_field "timestamp" d
    broken_at ← maybe_int_field "brokenAt" d
    tp_level ← maybe_num_field "tpLevel" d
    midpoint ← maybe_num_field "midpoint" d
    height ← maybe_num_field "height" d
    htf_candle_open ← maybe_int_field "htfCandleOpen" d
    htf_candle_close ← maybe_int_field "htfCandleClose" d
    some (record {
      range_high = range_high;
      range_low = range_low;
      bos_direction = bos_direction;
      timestamp = timestamp;
      broken_at = int_or broken_at;
      tp_level = num_or tp_level zero_f;
      midpoint = num_or midpoint (py.div (py.add range_high range_low) (py.lit 2 0));
      height = num_or height (py.sub range_high range_low);
      htf_candle_open = int_or htf_candle_open;
      htf_candle_close = int_or htf_candle_close;
    })
