-- ===== src/Signals/Validator/WellFormed.antt =====
-- What the validator lets through, said without its list of tests.
use execution_engine_multi.Prelude.{
  ℕ, ◌+◌, ◌≤◌, ◌<◌, ◌≡◌, ◌⊎◌, ◌↔◌, inl, inr, refl, sym, ◌∙◌, Bool, true, false, not, Option, none,
  some, List, [], ◌∷◌, ◌++◌, All, arith, Bool-cases, not-false, ltb, eqb, ap, ◌&&◌,
}
use execution_engine_multi.Prelude.Python.{Python, FloatOrder, zero_f}
use execution_engine_multi.Domain.Signal.{InboundSignal, SignalDirection, long, short}
use execution_engine_multi.Signals.Validator.{
  ValidationError, failed, validate, level_tests, price_tests, other_tests, reference_of,
  is_stale_signal, is_older,
}

failed-nil :
    (tests : List (Bool × ValidationError)) → (failed tests ≡ []) ↔ All (λ t. t.0 ≡ false) tests
unfolding failed
failed-nil [] = (λ _. tt, λ _. refl)
failed-nil ((true, e) ∷ rest) = (λ h. cc, λ h. cc)
failed-nil ((false, e) ∷ rest) = (λ h. (refl, (failed-nil rest).0 h), λ h. (failed-nil rest).1 h.1)

append_nil : (xs ys : List ValidationError) → (xs ++ ys ≡ []) ↔ ((xs ≡ []) × (ys ≡ []))
append_nil [] ys = (λ h. (refl, h), λ h. h.1)
append_nil (x ∷ xs) ys = (λ h. cc, λ h. cc)

-- The signal was emitted, or else created, at most `max_age` ago, if the limit is not zero.
abbrev pub IsFresh : ℕ → ℕ → Option ℕ → Type 0
IsFresh max_age now none = Unit
IsFresh max_age now (some reference) = (max_age ≡ 0) ⊎ (now ≤ reference + max_age)

older_lem :
    (max_age now : ℕ) (reference : Option ℕ)
    → ((ltb 0 max_age && is_older max_age now reference) ≡ false) ↔ IsFresh max_age now reference
older_lem max_age now none = (λ h. tt, λ h. ground arith)
older_lem max_age now (some reference) = (
  λ h. elim (Bool-cases (eqb max_age 0)) [
    | inl off ↦ inl (ground arith)
    | inr on ↦ inr (ground arith)
  ],
  λ h. elim h [ inl off ↦ ground arith | inr young ↦ ground arith ],
)

module _ {F : Type 0} ⦃py : Python F⦄ (laws : FloatOrder py) where
  -- The levels of a trade in the order in which the price should meet them, from the stop on.
  abbrev pub InOrder : SignalDirection → (stop entry tp1 tp2 : F) → Type 0
  InOrder long stop entry tp1 tp2 =
      (py.ltb stop entry ≡ true) × (py.ltb entry tp1 ≡ true) × (py.ltb tp1 tp2 ≡ true)
  InOrder short stop entry tp1 tp2 =
      (py.ltb tp2 tp1 ≡ true) × (py.ltb tp1 entry ≡ true) × (py.ltb entry stop ≡ true)

  pub record IsWellFormed (max_age now : ℕ) (s : InboundSignal F) : Type 0 where
    pub entry_positive : py.ltb zero_f s.entry_price ≡ true
    pub stop_positive : py.ltb zero_f s.stop_loss ≡ true
    pub tp1_positive : py.ltb zero_f s.tp1 ≡ true
    pub tp2_positive : py.ltb zero_f s.tp2 ≡ true
    pub levels : InOrder s.direction s.stop_loss s.entry_price s.tp1 s.tp2
    pub reward : py.ltb zero_f s.risk_reward_ratio ≡ true
    pub risk : py.ltb zero_f s.risk_pips ≡ true
    pub range : py.ltb s.htf_range.range_low s.htf_range.range_high ≡ true
    pub tp_level_set : py.eqb s.htf_range.tp_level zero_f ≡ false
    pub created : 0 < s.created_at
    pub fresh : IsFresh max_age now (reference_of s.emitted_at s.created_at)

  above : (a b : F) → (py.leb a b ≡ false) ↔ (py.ltb b a ≡ true)
  above a b = (
    λ h. not-false (py.ltb b a) (sym (laws.le_not_lt a b) ∙ h),
    λ h. laws.le_not_lt a b ∙ ap not h,
  )

  levels_lem :
      (d : SignalDirection) (s : InboundSignal F)
      → All (λ t. t.0 ≡ false) (level_tests d s) ↔ InOrder d s.stop_loss s.entry_price s.tp1 s.tp2
  levels_lem long s = (
    λ h. ((above _ _).0 h.0, (above _ _).0 h.1.0, (above _ _).0 h.1.1.0),
    λ h. ((above _ _).1 h.0, ((above _ _).1 h.1, ((above _ _).1 h.2, tt))),
  )
  levels_lem short s = (
    λ h. ((above _ _).0 h.1.1.0, (above _ _).0 h.1.0, (above _ _).0 h.0),
    λ h. ((above _ _).1 h.2, ((above _ _).1 h.1, ((above _ _).1 h.0, tt))),
  )

  validate_tests :
      (max_age now : ℕ) (s : InboundSignal F)
      → (validate max_age now s ≡ []) ↔ (
          All (λ t. t.0 ≡ false) (price_tests s)
          × All (λ t. t.0 ≡ false) (level_tests s.direction s)
          × All (λ t. t.0 ≡ false) (other_tests max_age now s))
  unfolding validate
  validate_tests max_age now s = (
    λ h.
        let outer =
          (append_nil (failed (price_tests s) ++ failed (level_tests s.direction s)) _).0 h in
        let inner = (append_nil (failed (price_tests s)) _).0 outer.0 in
        (
          (failed-nil (price_tests s)).0 inner.0,
          (failed-nil (level_tests s.direction s)).0 inner.1,
          (failed-nil (other_tests max_age now s)).0 outer.1,
        ),
    λ h. (append_nil (failed (price_tests s) ++ failed (level_tests s.direction s)) _).1 (
      (append_nil (failed (price_tests s)) _).1
          ((failed-nil (price_tests s)).1 h.0, (failed-nil (level_tests s.direction s)).1 h.1),
      (failed-nil (other_tests max_age now s)).1 h.2,
    ),
  )

  accepted :
      (max_age now : ℕ) (s : InboundSignal F)
      → validate max_age now s ≡ []
      → IsWellFormed max_age now s
  unfolding is_stale_signal
  accepted max_age now s h =
      let (prices, levels, others) = (validate_tests max_age now s).0 h in
      record {
        entry_positive = (above _ _).0 prices.0;
        stop_positive = (above _ _).0 prices.1.0;
        tp1_positive = (above _ _).0 prices.1.1.0;
        tp2_positive = (above _ _).0 prices.1.1.1.0;
        levels = (levels_lem s.direction s).0 levels;
        reward = (above _ _).0 others.0;
        risk = (above _ _).0 others.1.0;
        range = (above _ _).0 others.1.1.0;
        tp_level_set = others.1.1.1.0;
        created = let known = others.1.1.1.1.0 in ground arith;
        fresh = (older_lem max_age now _).0 others.1.1.1.1.1.0;
      }

  well_formed :
      (max_age now : ℕ) (s : InboundSignal F)
      → IsWellFormed max_age now s
      → validate max_age now s ≡ []
  unfolding is_stale_signal
  well_formed max_age now s w = (validate_tests max_age now s).1 (
    (
      (above _ _).1 w.entry_positive,
      (
        (above _ _).1 w.stop_positive,
        ((above _ _).1 w.tp1_positive, ((above _ _).1 w.tp2_positive, tt)),
      ),
    ),
    (levels_lem s.direction s).1 w.levels,
    (
      (above _ _).1 w.reward,
      (
        (above _ _).1 w.risk,
        (
          (above _ _).1 w.range,
          (
            w.tp_level_set,
            ((let known = w.created in ground arith), ((older_lem max_age now _).1 w.fresh, tt)),
          ),
        ),
      ),
    ),
  )

  -- The validator finds no error exactly in the signals with positive prices whose levels lie in
  -- the order of the direction, with a reward and a risk, a range that is not inverted, a target, a
  -- time of creation, and an emission or else creation that is not older than the limit, if that is
  -- not zero.
  pub validate-IsWellFormed :
      (max_age now : ℕ) (s : InboundSignal F)
      → (validate max_age now s ≡ []) ↔ IsWellFormed max_age now s
  validate-IsWellFormed max_age now s = (accepted max_age now s, well_formed max_age now s)
