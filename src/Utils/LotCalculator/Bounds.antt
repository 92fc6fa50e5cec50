-- ===== src/Utils/LotCalculator/Bounds.antt =====
-- The bounds of a calculated size.
use execution_engine_multi.Prelude.{◌≡◌, refl, ◌⊎◌, inl, inr, false, Bool-cases, if_ind}
use execution_engine_multi.Prelude.Python.{Python, FloatOrder, zero_f, min_f, max_f}
use execution_engine_multi.Prelude.Python.Order.{not_above, not_back, min_f_le}
use execution_engine_multi.Domain.Position.{SymbolInfo}
use execution_engine_multi.Utils.Price.{pip_size, normalise_lots}
use execution_engine_multi.Utils.LotCalculator.{LotCalcResult, pip_value, calculate_lot_size}

module _ {F : Type 0} ⦃py : Python F⦄ where
  -- The size before the last rounding is not below the lower bound, and it exceeds an upper bound
  -- only by being the lower one.
  pub record IsClamped (min_lot max_lot lot_max lots : F) : Type 0 where
    pub not_small : py.ltb lots min_lot ≡ false
    pub within_config : (py.ltb max_lot lots ≡ false) ⊎ (lots ≡ min_lot)
    pub within_broker : (py.ltb lot_max lots ≡ false) ⊎ (lots ≡ min_lot)

  module _ (laws : FloatOrder py) where
    clamp-IsClamped :
        (stepped min_lot max_lot lot_max : F)
        → IsClamped min_lot max_lot lot_max (max_f min_lot (min_f stepped (min_f max_lot lot_max)))
    clamp-IsClamped stepped lo hi top =
        let cap = min_f hi top in
        let x = min_f stepped cap in
        let under_cap : py.ltb cap x ≡ false = (min_f_le laws stepped cap).1 in
        elim (Bool-cases (py.ltb lo x)) [
          | inl above ↦ rw above (record {
            not_small = not_back laws lo x above;
            within_config = inl (not_above laws hi cap x (min_f_le laws hi top).0 under_cap);
            within_broker = inl (not_above laws top cap x (min_f_le laws hi top).1 under_cap);
          })
          | inr below ↦ rw below (record {
            not_small = laws.lt_irrefl lo;
            within_config = inr refl;
            within_broker = inr refl;
          })
        ]

    -- The size of a position is the configured minimum or the rounding to two decimals of a size
    -- that is not below the minimum and exceeds the configured and the broker's maximum only where
    -- it is the minimum. The amount at risk is handed back unchanged.
    pub calculate_lot_size-IsClamped :
        (risk_amount entry_price stop_loss : F) (si : SymbolInfo F) (max_lot min_lot : F)
        → let result = calculate_lot_size risk_amount entry_price stop_loss si max_lot min_lot in
          ((result.lot_size ≡ min_lot)
            ⊎ ((lots : F) × (result.lot_size ≡ py.round lots 2)
                × IsClamped min_lot max_lot si.lot_max lots))
          × (result.risk_amount ≡ risk_amount)
    unfolding calculate_lot_size normalise_lots
    calculate_lot_size-IsClamped risk_amount entry_price stop_loss si max_lot min_lot =
        let distance =
          py.div (py.abs (py.sub entry_price stop_loss)) (pip_size si.point si.digits) in
        let raw = py.div risk_amount (py.mul distance (pip_value si)) in
        let stepped = py.mul (py.floor (py.div raw si.lot_step)) si.lot_step in
        if_ind Sized (py.eqb distance zero_f) (inl refl, refl)
          (if_ind Sized (py.eqb si.tick_size zero_f) (inl refl, refl)
            (if_ind Sized (py.eqb (pip_value si) zero_f) (inl refl, refl)
              (inr (_, refl, clamp-IsClamped stepped min_lot max_lot si.lot_max), refl)))
      where
        Sized : LotCalcResult F → Type 0
        Sized result =
            ((result.lot_size ≡ min_lot)
              ⊎ ((lots : F) × (result.lot_size ≡ py.round lots 2)
                  × IsClamped min_lot max_lot si.lot_max lots))
            × (result.risk_amount ≡ risk_amount)
