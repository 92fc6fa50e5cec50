-- ===== src/Domain/Wire/Signed.antt =====
-- A signature does not change what is read.
use execution_engine_multi.Prelude.{ℕ, String, Option, none, some, ◌∷◌, ◌≡◌, refl}
use execution_engine_multi.Prelude.Python.{Python}
use execution_engine_multi.Domain.Wire.{
  text, WireDict, int_field, text_field, num_field, maybe_int_field, maybe_text_field,
  maybe_num_field, optional_int, text_or_empty, direction_field, status_field,
}
use execution_engine_multi.Domain.Wire.Read.{
  read_setup, read_outcome, read_candle, read_stages, from_dict,
}

-- The dictionary with its signature, if it has one.
abbrev pub signed : {F : Type 0} → Option String → WireDict F → WireDict F
signed none w = w
signed (some signature) w = record w { scalars = ("signature", text signature) ∷ w.scalars }

module _ {F : Type 0} ⦃py : Python F⦄ where
  pub from_dict-signed :
      (now : ℕ) (signature : Option String) (w : WireDict F)
      → from_dict now (signed signature w) ≡ from_dict now w
  unfolding from_dict read_setup read_outcome read_candle read_stages int_field text_field num_field
      maybe_int_field maybe_text_field maybe_num_field optional_int text_or_empty direction_field
      status_field
  from_dict-signed now none w = refl
  from_dict-signed now (some signature) w = refl
