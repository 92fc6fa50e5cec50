-- ===== src/Config/Overrides.antt =====
-- src/config/settings.py: the TP1 settings of `ExecutionConfig` and their overrides by symbol and
-- time frames. The key of the time frames, which `_tf_pair_key` builds and which is never empty, is
-- an argument.
use Prim.Native.Char.{code}
use execution_engine_multi.Prelude.{
  ◌≡◌, refl, String, ◌==◌, Bool, true, false, not, ◌&&◌, ◌||◌, Option, none, some, List, [], ◌∷◌,
  Dict, lookup, eqb, arith, is_none, or_default, if◌then◌else◌,
}
use execution_engine_multi.Prelude.Python.{Python, zero_f}
use execution_engine_multi.Config.{ExecutionConfig, TfOverride}

module _ {ℓ} {V : Type ℓ} where
  -- A test of a value that may be absent.
  abbrev holds : (V → Bool) → Option V → Bool
  holds p none = true
  holds p (some v) = p v

  -- A loop over `items()` that tests every value.
  abbrev every : (V → Bool) → Dict V → Bool
  every p [] = true
  every p ((_, v) ∷ d) = p v && every p d

  holds-lookup :
      (p : V → Bool) (k : String) (d : Dict V) → every p d ≡ true → holds p (lookup k d) ≡ true
  holds-lookup p k [] ok = refl
  holds-lookup p k ((j, v) ∷ d) ok = ground (arith, holds-lookup p k d)

  or_default-holds :
      (p : V → Bool) (o : Option V) (d : V)
      → holds p o ≡ true
      → p d ≡ true
      → p (or_default o d) ≡ true
  or_default-holds p none d _ ok = ok
  or_default-holds p (some v) d ok _ = ok

and_split : (a b : Bool) → (a && b) ≡ true → (a ≡ true) × (b ≡ true)
and_split true b ok = (refl, ok)
and_split false b ok = (ok, ground arith)

-- `str.replace("/", "")`
without_slashes : String → String
without_slashes String.[] = String.[]
without_slashes (String.◌∷◌ c s) =
    let rest = without_slashes s in if eqb (code c) b'/' then rest else String.◌∷◌ c rest

abbrev non_empty : String → Option String
non_empty s = if s == "" then none else some s

-- The symbol, upper-cased and without slashes, unless nothing is left of it.
normalised : (upper : String → String) → Option String → Option String
unfolding without_slashes
normalised upper none = none
normalised upper (some symbol) =
    if symbol == "" then none else non_empty (without_slashes (upper symbol))

abbrev candidates : Option String → Option String → List (String × String)
candidates none none = ("*", "*") ∷ []
candidates none (some key) = ("*", key) ∷ ("*", "*") ∷ []
candidates (some symbol) none = (symbol, "*") ∷ ("*", "*") ∷ []
candidates (some symbol) (some key) = (symbol, key) ∷ (symbol, "*") ∷ ("*", key) ∷ ("*", "*") ∷ []

module _ {F : Type 0} where
  abbrev no_override : TfOverride F
  no_override = record { tp1_trigger_pct = none; tp1_percentage = none }

  abbrev is_empty : TfOverride F → Bool
  is_empty o = is_none o.tp1_trigger_pct && is_none o.tp1_percentage

  abbrev kept_entry : Option (TfOverride F) → Option (TfOverride F)
  kept_entry none = none
  kept_entry (some o) = if is_empty o then none else some o

  abbrev entry_of : String → Option (Dict (TfOverride F)) → Option (TfOverride F)
  entry_of tf none = none
  entry_of tf (some tf_map) = kept_entry (lookup tf tf_map)

  -- The first candidate with a setting.
  first_entry : Dict (Dict (TfOverride F)) → List (String × String) → TfOverride F
  first_entry overrides [] = no_override
  first_entry overrides ((symbol, tf) ∷ rest) =
      or_default (entry_of tf (lookup symbol overrides)) (first_entry overrides rest)

module _ {F : Type 0} ⦃py : Python F⦄ where
  -- `_validate_pct_range` and `_validate_pct_inclusive`, false where they raise.
  unfoldable pub validate_pct_range : F → Bool
  validate_pct_range value = not (py.leb value zero_f || py.leb (py.lit 100 0) value)

  unfoldable pub validate_pct_inclusive : F → Bool
  validate_pct_inclusive value = not (py.ltb value zero_f || py.ltb (py.lit 100 0) value)

  abbrev is_valid_override : TfOverride F → Bool
  is_valid_override o =
      holds validate_pct_range o.tp1_trigger_pct && holds validate_pct_inclusive o.tp1_percentage

  -- The tests of the TP1 settings in `__post_init__`, false where it raises.
  unfoldable pub validate_tp1 : ExecutionConfig F → Bool
  unfolding validate_pct_range validate_pct_inclusive
  validate_tp1 cfg =
      validate_pct_range cfg.tp1_trigger_pct
      && validate_pct_inclusive cfg.tp1_percentage
      && every (every is_valid_override) cfg.tf_overrides

  resolve_tf_override : ExecutionConfig F → (symbol tf_key : Option String) → TfOverride F
  unfolding first_entry normalised
  resolve_tf_override cfg symbol tf_key =
      first_entry cfg.tf_overrides (candidates (normalised py.upper symbol) tf_key)

  pub tp1_trigger_pct_for : ExecutionConfig F → (symbol tf_key : Option String) → F
  unfolding resolve_tf_override
  tp1_trigger_pct_for cfg symbol tf_key =
      or_default (resolve_tf_override cfg symbol tf_key).tp1_trigger_pct cfg.tp1_trigger_pct

  pub tp1_percentage_for : ExecutionConfig F → (symbol tf_key : Option String) → F
  unfolding resolve_tf_override
  tp1_percentage_for cfg symbol tf_key =
      or_default (resolve_tf_override cfg symbol tf_key).tp1_percentage cfg.tp1_percentage

  kept_entry-holds :
      (p : TfOverride F → Bool) (o : Option (TfOverride F))
      → holds p o ≡ true
      → holds p (kept_entry o) ≡ true
  kept_entry-holds p none ok = refl
  kept_entry-holds p (some o) ok = ground (arith, ok)

  entry_of-holds :
      (p : TfOverride F → Bool) (tf : String) (m : Option (Dict (TfOverride F)))
      → holds (every p) m ≡ true
      → holds p (entry_of tf m) ≡ true
  entry_of-holds p tf none ok = refl
  entry_of-holds p tf (some d) ok = kept_entry-holds p (lookup tf d) (holds-lookup p tf d ok)

  first_entry-valid :
      (overrides : Dict (Dict (TfOverride F))) (places : List (String × String))
      → every (every is_valid_override) overrides ≡ true
      → is_valid_override (first_entry overrides places) ≡ true
  unfolding first_entry
  first_entry-valid overrides [] ok = refl
  first_entry-valid overrides ((symbol, tf) ∷ rest) ok =
      or_default-holds is_valid_override (entry_of tf (lookup symbol overrides))
        (first_entry overrides rest)
        (entry_of-holds is_valid_override tf (lookup symbol overrides)
          (holds-lookup (every is_valid_override) symbol overrides ok))
        (first_entry-valid overrides rest ok)

  -- In a configuration that passed its tests the settings of TP1 that a symbol and a pair of time
  -- frames resolve to pass the tests as well.
  pub tp1_settings_pass :
      (cfg : ExecutionConfig F) (symbol tf_key : Option String)
      → validate_tp1 cfg ≡ true
      → (validate_pct_range (tp1_trigger_pct_for cfg symbol tf_key) ≡ true)
        × (validate_pct_inclusive (tp1_percentage_for cfg symbol tf_key) ≡ true)
  unfolding validate_tp1 tp1_trigger_pct_for tp1_percentage_for resolve_tf_override
  tp1_settings_pass cfg symbol tf_key ok =
      let range_ok = validate_pct_range cfg.tp1_trigger_pct in
      let close_ok = validate_pct_inclusive cfg.tp1_percentage in
      let all =
        and_split (range_ok && close_ok) (every (every is_valid_override) cfg.tf_overrides) ok in
      let global = and_split range_ok close_ok all.0 in
      let found = resolve_tf_override cfg symbol tf_key in
      let override =
        and_split (holds validate_pct_range found.tp1_trigger_pct)
          (holds validate_pct_inclusive found.tp1_percentage)
          (first_entry-valid cfg.tf_overrides (candidates (normalised py.upper symbol) tf_key)
            all.1) in
      (
        or_default-holds validate_pct_range found.tp1_trigger_pct cfg.tp1_trigger_pct override.0
            global.0,
        or_default-holds validate_pct_inclusive found.tp1_percentage cfg.tp1_percentage override.1
            global.1,
      )
