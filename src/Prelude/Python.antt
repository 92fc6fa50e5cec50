-- ===== src/Prelude/Python.antt =====
-- What the program takes from the Python runtime and does not implement: the arithmetic of
-- `float`, and the Unicode case and space tables behind `str.upper` and the regular expression
-- class `\s`. `F` is the type of floats.
pub mod Order
use Prim.Native.Nat.{ℕ}
use Prim.Native.String.{String}
use Prim.Native.Char.{Char}
use mathlib.Core.Path.{◌≡◌}
use mathlib.Core.Bool.{Bool, true, false, not}
use mathlib.Core.List.{List}
use execution_engine_multi.Prelude.Tests.{if◌then◌else◌}

pub record Python (F : Type 0) : Type 0 where
  pub add : F → F → F
  pub sub : F → F → F
  pub mul : F → F → F
  pub div : F → F → F
  pub ltb : F → F → Bool
  pub leb : F → F → Bool
  pub eqb : F → F → Bool
  -- `lit m e` is the literal m * 10 ** -e.
  pub lit : ℕ → ℕ → F
  -- `float(math.floor(x))`
  pub floor : F → F
  -- `round(x, n)`
  pub round : F → ℕ → F
  pub abs : F → F
  -- `sum(xs)`
  pub sum : List F → F
  pub upper : String → String
  pub is_space : Char → Bool
  -- `str(n)`
  pub show_int : ℕ → String

module _ {F : Type 0} ⦃py : Python F⦄ where
  abbrev pub zero_f : F
  zero_f = py.lit 0 0

  abbrev pub one_f : F
  one_f = py.lit 1 0

  -- `max(a, b)` and `min(a, b)` keep the first argument on a tie.
  abbrev pub max_f : F → F → F
  max_f a b = if py.ltb a b then b else a

  abbrev pub min_f : F → F → F
  min_f a b = if py.ltb b a then b else a

  -- `x or d`: zero is false.
  abbrev pub or_f : F → F → F
  or_f x d = if py.eqb x zero_f then d else x

-- The order of floats that are not NaN: `<` is a strict total order up to `==`, and `<=` is the
-- negation of the converse of `<`.
pub record FloatOrder {F : Type 0} (py : Python F) : Type 0 where
  pub lt_irrefl : (a : F) → py.ltb a a ≡ false
  pub lt_trans : (a b c : F) → py.ltb a b ≡ true → py.ltb b c ≡ true → py.ltb a c ≡ true
  pub lt_cotrans : (a b c : F) → py.ltb a c ≡ true → py.ltb b c ≡ false → py.ltb a b ≡ true
  pub le_not_lt : (a b : F) → py.leb a b ≡ not (py.ltb b a)
  pub one_pos : py.ltb (py.lit 0 0) (py.lit 1 0) ≡ true
  -- Subtraction keeps the order against zero: a rounded difference has the right sign.
  pub sub_nonneg : (a b : F) → py.ltb a b ≡ false → py.ltb (py.sub a b) (py.lit 0 0) ≡ false
