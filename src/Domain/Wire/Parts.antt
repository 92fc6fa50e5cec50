-- ===== src/Domain/Wire/Parts.antt =====
-- The fields and the parts of a signal are read back from the wire.
use execution_engine_multi.Prelude.{
  Bool-cases, eqb, inl, inr, ◌⊎◌, eq_iff, ℕ, String, ◌==◌, false, Option, none, some, List, ◌∷◌,
  Dict, lookup, or_else, or_default, ◌≡◌, refl, sym,
}
use execution_engine_multi.Prelude.Python.{Python, zero_f, or_f}
use execution_engine_multi.Domain.Signal.{
  SignalDirection, long, short, SignalStatus, pending, triggered, tp1_hit, tp2_hit, sl_hit,
  invalidated, expired, BosDirection, bullish, bearish, CandlePattern, shooting_star, hammer,
  crt_buy, crt_sell, HtfRange, LtfRange, RejectionCandle,
}
use execution_engine_multi.Domain.Wire.{
  Scalar, direction_text, direction_of, status_text, status_of, bos_text, bos_of, pattern_text,
  pattern_of, or_text, first_some, maybe_int, maybe_text, int_value, num_value, text_value,
  int_field, text_field, maybe_int_field, optional_int, direction_field, maybe_num, num_field,
  maybe_num_field,
}
use execution_engine_multi.Domain.Wire.Pieces.{ltf_of, candle_of, maybe_ltf, htf_of}
use execution_engine_multi.Domain.Wire.Write.{htf_dict, candle_dict, ltf_dict, ltf_objects}

pub direction_of-text : (x : SignalDirection) → direction_of (direction_text x) ≡ some x
unfolding direction_of
direction_of-text long = refl
direction_of-text short = refl

pub status_of-text : (x : SignalStatus) → status_of (status_text x) ≡ some x
unfolding status_of
status_of-text pending = refl
status_of-text triggered = refl
status_of-text tp1_hit = refl
status_of-text tp2_hit = refl
status_of-text sl_hit = refl
status_of-text invalidated = refl
status_of-text expired = refl

pub bos_of-text : (x : BosDirection) → bos_of (bos_text x) ≡ some x
unfolding bos_of
bos_of-text bullish = refl
bos_of-text bearish = refl

pub pattern_of-text : (x : CandlePattern) → pattern_of (pattern_text x) ≡ some x
unfolding pattern_of
pattern_of-text shooting_star = refl
pattern_of-text hammer = refl
pattern_of-text crt_buy = refl
pattern_of-text crt_sell = refl

pub maybe_int-value : (F : Type 0) (o : Option ℕ) → maybe_int {F = F} (some (int_value o)) ≡ some o
maybe_int-value F none = refl
maybe_int-value F (some n) = refl

pub maybe_text-value :
    (F : Type 0) (o : Option String) → maybe_text {F = F} (some (text_value o)) ≡ some o
maybe_text-value F none = refl
maybe_text-value F (some t) = refl

-- A time that is there and not zero.
abbrev pub IsPresent : Option ℕ → Type 0
IsPresent none = ⊥
IsPresent (some n) = eqb n 0 ≡ false

pub or_else-present : (o p : Option ℕ) → IsPresent o → or_else o p ≡ o
or_else-present none p e = elim e [ ]
or_else-present (some n) p e = rw e refl

pub or_else-closed : (o p : Option ℕ) → IsPresent o ⊎ (o ≡ p) → first_some (or_else o none) p ≡ o
or_else-closed none p (inl e) = elim e [ ]
or_else-closed (some n) p (inl e) = rw e refl
or_else-closed none p (inr e) = sym e
or_else-closed (some n) p (inr e) = elim (Bool-cases (eqb n 0)) [
  | inl zero ↦ rw zero (sym e)
  | inr other ↦ rw other refl
]

pub first_some-present : (o p : Option ℕ) → IsPresent o → first_some o p ≡ o
first_some-present none p e = elim e [ ]
first_some-present (some n) p e = refl

-- The empty text stands for itself.
pub text_or_empty-value : (t : String) → or_default (or_text (some t) none) "" ≡ t
text_or_empty-value t = elim (Bool-cases (t == "")) [
  | inl empty ↦ rw empty (sym ((eq_iff t "").0 empty))
  | inr filled ↦ rw filled refl
]

pub text_or_empty-twice :
    (t : String) → or_default (or_text (some t) (or_text (some t) none)) "" ≡ t
text_or_empty-twice t = elim (Bool-cases (t == "")) [
  | inl empty ↦ rw empty (sym ((eq_iff t "").0 empty))
  | inr filled ↦ rw filled refl
]

module _ {F : Type 0} ⦃py : Python F⦄ where
  pub ltf_of-ltf_dict : (r : LtfRange F) → ltf_of (ltf_dict r) ≡ some r
  unfolding ltf_of ltf_dict num_field int_field text_field direction_field
  ltf_of-ltf_dict r = rw (direction_of-text r.direction) refl

  pub candle_of-candle_dict : (c : RejectionCandle F) → candle_of (candle_dict c) ≡ some c
  unfolding candle_of candle_dict num_field int_field text_field
  candle_of-candle_dict c = rw (pattern_of-text c.pattern_name) refl

  pub maybe_num-value : (o : Option F) → maybe_num (some (num_value o)) ≡ some o
  maybe_num-value none = refl
  maybe_num-value (some x) = refl

  pub optional_int-value :
      (d : Dict (Scalar F)) (key : String) (keys : List String) (o : Option ℕ)
      → lookup key d ≡ some (int_value o)
      → optional_int d keys ≡ some none
      → optional_int d (key ∷ keys) ≡ some o
  unfolding optional_int
  optional_int-value d key keys none found rest = rw (found, rest) refl
  optional_int-value d key keys (some n) found rest = rw found refl

  pub optional_int-first_some :
      (d : Dict (Scalar F)) (key : String) (keys : List String) (o p : Option ℕ)
      → lookup key d ≡ some (int_value o)
      → optional_int d keys ≡ some p
      → optional_int d (key ∷ keys) ≡ some (first_some o p)
  unfolding optional_int
  optional_int-first_some d key keys none p found rest = rw (found, rest) refl
  optional_int-first_some d key keys (some n) p found rest = rw found refl

  pub maybe_ltf-ltf_objects :
      (o : Option (LtfRange F)) → maybe_ltf (lookup "ltfRange" (ltf_objects o)) ≡ some o
  unfolding maybe_ltf ltf_objects ltf_dict
  maybe_ltf-ltf_objects none = refl
  maybe_ltf-ltf_objects (some r) = rw (ltf_of-ltf_dict r) refl

  -- A number that is zero is taken as missing.
  abbrev pub IsNonzero : F → Type 0
  IsNonzero x = py.eqb x zero_f ≡ false

  pub or_f-nonzero : (x d : F) → IsNonzero x → or_f x d ≡ x
  or_f-nonzero x d e = rw e refl

  pub record IsWhole (r : HtfRange F) : Type 0 where
    pub tp_level : IsNonzero r.tp_level ⊎ (r.tp_level ≡ zero_f)
    pub midpoint : IsNonzero r.midpoint
    pub height : IsNonzero r.height

  pub or_f-zero : (x : F) → IsNonzero x ⊎ (x ≡ zero_f) → or_f x zero_f ≡ x
  or_f-zero x (inl e) = or_f-nonzero x zero_f e
  or_f-zero x (inr e) = elim (Bool-cases (py.eqb x zero_f)) [
    | inl zero ↦ rw zero (sym e)
    | inr other ↦ rw other refl
  ]

  pub htf_of-htf_dict : (r : HtfRange F) → IsWhole r → htf_of (htf_dict r) ≡ some r
  unfolding htf_of htf_dict num_field int_field text_field maybe_int_field maybe_num_field
  htf_of-htf_dict r whole =
      rw
        (
          bos_of-text r.bos_direction,
          or_f-zero r.tp_level whole.tp_level,
          or_f-nonzero r.midpoint (py.div (py.add r.range_high r.range_low) (py.lit 2 0))
              whole.midpoint,
          or_f-nonzero r.height (py.sub r.range_high r.range_low) whole.height,
        )
        refl
