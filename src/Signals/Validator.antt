-- ===== src/Signals/Validator.antt =====
-- src/signals/signal_validator.py: `SignalValidator.validate`. An error is a constructor in the place
-- of its text. The two tests of enumerations are left out: a direction that is neither LONG nor SHORT
-- does not parse. Prices that are not NaN are compared as in Python.
pub mod WellFormed
use execution_engine_multi.Prelude.{
  ℕ, ◌-◌, Bool, true, false, ◌&&◌, Option, none, some, List, [], ◌∷◌, ◌++◌, or_else, eqb, ltb,
  if◌then◌else◌,
}
use execution_engine_multi.Prelude.Python.{Python, zero_f}
use execution_engine_multi.Domain.Signal.{InboundSignal, SignalDirection, long, short}

pub data PriceField : Type 0 where
  entry_field stop_field tp1_field tp2_field : PriceField

pub data ValidationError : Type 0 where
  not_positive : PriceField → ValidationError
  stop_past_entry tp1_behind_entry tp2_behind_tp1 : ValidationError
  no_reward no_risk_pips range_inverted no_tp_level no_created_at stale : ValidationError

-- The errors of the tests that hold, in order.
pub failed : List (Bool × ValidationError) → List ValidationError
failed [] = []
failed ((test, error) ∷ rest) = let others = failed rest in if test then error ∷ others else others

-- `now_ms() - reference_ms > self._max_age_ms`, where a reference is known. The limit is positive, so
-- a signal from the future passes.
abbrev is_older : ℕ → ℕ → Option ℕ → Bool
is_older max_age now none = false
is_older max_age now (some reference) = ltb max_age (now - reference)

-- `emitted_at or created_at`, where it is not zero.
abbrev pub reference_of : Option ℕ → ℕ → Option ℕ
reference_of emitted_at created_at =
    or_else emitted_at (if eqb created_at 0 then none else some created_at)

-- `ValidationResult.valid`
abbrev pub is_valid : List ValidationError → Bool
is_valid [] = true
is_valid (_ ∷ _) = false

module _ {F : Type 0} where
  unfoldable pub is_stale_signal : ℕ → ℕ → InboundSignal F → Bool
  is_stale_signal max_age now s =
      ltb 0 max_age && is_older max_age now (reference_of s.emitted_at s.created_at)

module _ {F : Type 0} ⦃py : Python F⦄ where
  abbrev level_tests : SignalDirection → InboundSignal F → List (Bool × ValidationError)
  level_tests long s =
      (py.leb s.entry_price s.stop_loss, stop_past_entry)
      ∷ (py.leb s.tp1 s.entry_price, tp1_behind_entry)
      ∷ (py.leb s.tp2 s.tp1, tp2_behind_tp1)
      ∷ []
  level_tests short s =
      (py.leb s.stop_loss s.entry_price, stop_past_entry)
      ∷ (py.leb s.entry_price s.tp1, tp1_behind_entry)
      ∷ (py.leb s.tp1 s.tp2, tp2_behind_tp1)
      ∷ []

  abbrev price_tests : InboundSignal F → List (Bool × ValidationError)
  price_tests s =
      (py.leb s.entry_price zero_f, not_positive entry_field)
      ∷ (py.leb s.stop_loss zero_f, not_positive stop_field)
      ∷ (py.leb s.tp1 zero_f, not_positive tp1_field)
      ∷ (py.leb s.tp2 zero_f, not_positive tp2_field)
      ∷ []

  abbrev other_tests : ℕ → ℕ → InboundSignal F → List (Bool × ValidationError)
  other_tests max_age now s =
      (py.leb s.risk_reward_ratio zero_f, no_reward)
      ∷ (py.leb s.risk_pips zero_f, no_risk_pips)
      ∷ (py.leb s.htf_range.range_high s.htf_range.range_low, range_inverted)
      ∷ (py.eqb s.htf_range.tp_level zero_f, no_tp_level)
      ∷ (eqb s.created_at 0, no_created_at)
      ∷ (is_stale_signal max_age now s, stale)
      ∷ []

  -- `validate`: the errors; the signal is valid if there are none.
  unfoldable pub validate : (max_age now : ℕ) → InboundSignal F → List ValidationError
  unfolding failed
  validate max_age now s =
      failed (price_tests s)
      ++ failed (level_tests s.direction s)
      ++ failed (other_tests max_age now s)
