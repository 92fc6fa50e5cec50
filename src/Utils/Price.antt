-- ===== src/Utils/Price.antt =====
-- src/utils/price.py: pips, price rounding and lot steps.
use execution_engine_multi.Prelude.{ℕ, ◌||◌, eqb, if◌then◌else◌}
use execution_engine_multi.Prelude.Python.{Python, min_f, max_f}

module _ {F : Type 0} ⦃py : Python F⦄ where
  unfoldable pub pip_size : F → ℕ → F
  pip_size point digits = if eqb digits 5 || eqb digits 3 then py.mul point (py.lit 10 0) else point

  pub price_to_pips : F → F → ℕ → F
  unfolding pip_size
  price_to_pips price_diff point digits = py.div (py.abs price_diff) (pip_size point digits)

  pub pips_to_price : F → F → ℕ → F
  unfolding pip_size
  pips_to_price pips point digits = py.mul pips (pip_size point digits)

  unfoldable pub normalise_lots : F → F → F → F → F
  normalise_lots lots lot_step lot_min lot_max =
      let stepped = py.mul (py.floor (py.div lots lot_step)) lot_step in
      let clamped = max_f lot_min (min_f stepped lot_max) in py.round clamped 2
