-- ===== src/Domain/Wire.antt =====
-- src/domain/signal_interface.py: `from_dict` and `to_dict` of the signal and its parts. A dictionary
-- of the wire has texts, integers, floats and, one level deep, objects; an integer in the place of a
-- float becomes that float. A field with any other type than that of the contract counts as an
-- exception, `none`; the code keeps such a value.
pub mod Pieces
pub mod Read
pub mod Write
pub mod Parts
pub mod Steps
pub mod Roundtrip
pub mod Signed
use execution_engine_multi.Prelude.{
  ℕ, String, ◌==◌, Option, none, some, List, [], ◌∷◌, Dict, lookup, or_default, if◌then◌else◌,
}
use execution_engine_multi.Prelude.Python.{Python}
use execution_engine_multi.Domain.Signal.{
  SignalDirection, long, short, SignalStatus, pending, triggered, tp1_hit, tp2_hit, sl_hit,
  invalidated, expired, BosDirection, bullish, bearish, CandlePattern, shooting_star, hammer,
  crt_buy, crt_sell,
}

pub data Scalar (F : Type 0) : Type 0 where
  null : Scalar F
  int : ℕ → Scalar F
  num : F → Scalar F
  text : String → Scalar F

-- A dictionary by the kinds of its values.
pub record WireDict (F : Type 0) : Type 0 where
  pub scalars : Dict (Scalar F)
  pub objects : Dict (Dict (Scalar F))

infixl 5 ◌>>=◌
abbrev pub ◌>>=◌ : {A B : Type 0} → Option A → (A → Option B) → Option B
none >>= f = none
some a >>= f = f a

-- The texts of the enumerations, and their constructors, which raise on other texts.
abbrev pub direction_text : SignalDirection → String
direction_text long = "LONG"
direction_text short = "SHORT"

pub direction_of : String → Option SignalDirection
direction_of t = if t == "LONG" then some long else if t == "SHORT" then some short else none

abbrev pub status_text : SignalStatus → String
status_text pending = "PENDING"
status_text triggered = "TRIGGERED"
status_text tp1_hit = "TP1_HIT"
status_text tp2_hit = "TP2_HIT"
status_text sl_hit = "SL_HIT"
status_text invalidated = "INVALIDATED"
status_text expired = "EXPIRED"

pub status_of : String → Option SignalStatus
status_of t =
    if t == "PENDING"
    then some pending
    else if t == "TRIGGERED"
    then some triggered
    else if t == "TP1_HIT"
    then some tp1_hit
    else if t == "TP2_HIT"
    then some tp2_hit
    else if t == "SL_HIT"
    then some sl_hit
    else if t == "INVALIDATED"
    then some invalidated
    else if t == "EXPIRED"
    then some expired
    else none

abbrev pub bos_text : BosDirection → String
bos_text bullish = "BULLISH"
bos_text bearish = "BEARISH"

pub bos_of : String → Option BosDirection
bos_of t = if t == "BULLISH" then some bullish else if t == "BEARISH" then some bearish else none

abbrev pub pattern_text : CandlePattern → String
pattern_text shooting_star = "SHOOTING_STAR"
pattern_text hammer = "HAMMER"
pattern_text crt_buy = "CRT_BUY"
pattern_text crt_sell = "CRT_SELL"

pub pattern_of : String → Option CandlePattern
pattern_of t =
    if t == "SHOOTING_STAR"
    then some shooting_star
    else if t == "HAMMER"
    then some hammer
    else if t == "CRT_BUY"
    then some crt_buy
    else if t == "CRT_SELL"
    then some crt_sell
    else none

-- `a or b` on optional texts: the empty text is false.
abbrev pub or_text : Option String → Option String → Option String
or_text none b = b
or_text (some a) b = if a == "" then b else some a

-- `b if a is None else a`
abbrev pub first_some : Option ℕ → Option ℕ → Option ℕ
first_some none b = b
first_some (some a) b = some a

abbrev pub int_or : Option ℕ → ℕ
int_or none = 0
int_or (some n) = n

module _ {F : Type 0} where
  -- `d[key]` of a type.
  abbrev pub as_int : Option (Scalar F) → Option ℕ
  as_int none = none
  as_int (some null) = none
  as_int (some (int n)) = some n
  as_int (some (num x)) = none
  as_int (some (text t)) = none

  abbrev pub as_text : Option (Scalar F) → Option String
  as_text none = none
  as_text (some null) = none
  as_text (some (int n)) = none
  as_text (some (num x)) = none
  as_text (some (text t)) = some t

  -- `d.get(key)` of a type: `None` where it is missing or null.
  abbrev pub maybe_int : Option (Scalar F) → Option (Option ℕ)
  maybe_int none = some none
  maybe_int (some null) = some none
  maybe_int (some (int n)) = some (some n)
  maybe_int (some (num x)) = none
  maybe_int (some (text t)) = none

  abbrev pub maybe_text : Option (Scalar F) → Option (Option String)
  maybe_text none = some none
  maybe_text (some null) = some none
  maybe_text (some (int n)) = none
  maybe_text (some (num x)) = none
  maybe_text (some (text t)) = some (some t)

  -- A value of an optional attribute.
  abbrev pub int_value : Option ℕ → Scalar F
  int_value none = null
  int_value (some n) = int n

  abbrev pub num_value : Option F → Scalar F
  num_value none = null
  num_value (some x) = num x

  abbrev pub text_value : Option String → Scalar F
  text_value none = null
  text_value (some t) = text t

  pub int_field : String → Dict (Scalar F) → Option ℕ
  int_field key d = as_int (lookup key d)

  pub text_field : String → Dict (Scalar F) → Option String
  text_field key d = as_text (lookup key d)

  pub maybe_int_field : String → Dict (Scalar F) → Option (Option ℕ)
  maybe_int_field key d = maybe_int (lookup key d)

  pub maybe_text_field : String → Dict (Scalar F) → Option (Option String)
  maybe_text_field key d = maybe_text (lookup key d)

  -- `_optional_int`: the first key with a value that is not None.
  pub optional_int : Dict (Scalar F) → List String → Option (Option ℕ)
  optional_int d [] = some none
  optional_int d (key ∷ keys) =
      let rest = optional_int d keys in
      maybe_int (lookup key d) >>= λ v. elim v [ none ↦ rest | some n ↦ some (some n) ]

  -- `str(d.get(a) or d.get(b) or "")`
  pub text_or_empty : Dict (Scalar F) → String → String → Option String
  unfolding maybe_text_field
  text_or_empty d a b = do
    x ← maybe_text_field a d
    y ← maybe_text_field b d
    some (or_default (or_text x (or_text y none)) "")

  pub direction_field : String → Dict (Scalar F) → Option SignalDirection
  unfolding text_field direction_of
  direction_field key d = text_field key d >>= direction_of

  pub status_field : String → Dict (Scalar F) → Option SignalStatus
  unfolding text_field status_of
  status_field key d = text_field key d >>= status_of

module _ {F : Type 0} ⦃py : Python F⦄ where
  abbrev pub as_num : Option (Scalar F) → Option F
  as_num none = none
  as_num (some null) = none
  as_num (some (int n)) = some (py.lit n 0)
  as_num (some (num x)) = some x
  as_num (some (text t)) = none

  abbrev pub maybe_num : Option (Scalar F) → Option (Option F)
  maybe_num none = some none
  maybe_num (some null) = some none
  maybe_num (some (int n)) = some (some (py.lit n 0))
  maybe_num (some (num x)) = some (some x)
  maybe_num (some (text t)) = none

  pub num_field : String → Dict (Scalar F) → Option F
  num_field key d = as_num (lookup key d)

  pub maybe_num_field : String → Dict (Scalar F) → Option (Option F)
  maybe_num_field key d = maybe_num (lookup key d)
