-- ===== src/Utils/LotCalculator.antt =====
-- src/utils/lot_calculator.py: the size of a position from the amount at risk. A division by a
-- pip size of zero, which Python refuses, is the division of the float interface here.
pub mod Bounds
use execution_engine_multi.Prelude.{if◌then◌else◌}
use execution_engine_multi.Prelude.Python.{Python, zero_f, min_f}
use execution_engine_multi.Domain.Position.{SymbolInfo}
use execution_engine_multi.Utils.Price.{pip_size, normalise_lots}

pub record LotCalcResult (F : Type 0) : Type 0 where
  pub lot_size : F
  pub risk_amount : F
  pub risk_pips : F

module _ {F : Type 0} ⦃py : Python F⦄ where
  -- `(tick_value / tick_size) * pip`
  abbrev pip_value : SymbolInfo F → F
  pip_value si = py.mul (py.div si.tick_value si.tick_size) (pip_size si.point si.digits)

  pub calculate_lot_size :
      (risk_amount entry_price stop_loss : F)
      → SymbolInfo F
      → (max_lot min_lot : F) → LotCalcResult F
  calculate_lot_size risk_amount entry_price stop_loss si max_lot min_lot =
      let risk_pips =
        py.div (py.abs (py.sub entry_price stop_loss)) (pip_size si.point si.digits) in
      if py.eqb risk_pips zero_f
      then record { lot_size = min_lot; risk_amount = risk_amount; risk_pips = zero_f }
      else if py.eqb si.tick_size zero_f
      then record { lot_size = min_lot; risk_amount = risk_amount; risk_pips = risk_pips }
      else if py.eqb (pip_value si) zero_f
      then record { lot_size = min_lot; risk_amount = risk_amount; risk_pips = risk_pips }
      else record {
        lot_size =
            normalise_lots (py.div risk_amount (py.mul risk_pips (pip_value si))) si.lot_step
              min_lot (min_f max_lot si.lot_max);
        risk_amount = risk_amount;
        risk_pips = risk_pips;
      }
