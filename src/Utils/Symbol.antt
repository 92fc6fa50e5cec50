-- ===== src/Utils/Symbol.antt =====
-- src/utils/symbol.py: symbol normalisation.
use Prim.Native.Char.{Char, code}
use execution_engine_multi.Prelude.{String, Bool, ◌||◌, eqb, if◌then◌else◌}
use execution_engine_multi.Prelude.Python.{Python}

module _ {F : Type 0} (py : Python F) where
  -- The class `[/.\-_\s]`.
  abbrev is_separator : Char → Bool
  is_separator c =
      eqb (code c) b'/'
      || eqb (code c) b'.'
      || eqb (code c) b'-'
      || eqb (code c) b'_'
      || py.is_space c

  -- `re.sub(r"[/.\-_\s]", "", symbol)`
  strip_separators : String → String
  strip_separators String.[] = String.[]
  strip_separators (String.◌∷◌ c s) =
      let rest = strip_separators s in if is_separator c then rest else String.◌∷◌ c rest

  unfoldable pub normalise_symbol : String → String
  unfolding strip_separators
  normalise_symbol symbol = py.upper (strip_separators symbol)
