-- ===== src/Execution/Planner/Sound.antt =====
-- The bounds that a plan keeps.
use execution_engine_multi.Prelude.{
  ℕ, String, Option, some, ◌≡◌, refl, ◌⊎◌, false, Bool-cases, inl, inr,
}
use execution_engine_multi.Prelude.Python.{Python, FloatOrder, zero_f, one_f, min_f}
use execution_engine_multi.Config.{RiskConfig, ExecutionConfig}
use execution_engine_multi.Config.Overrides.{tp1_trigger_pct_for, tp1_percentage_for}
use execution_engine_multi.Domain.Signal.{InboundSignal}
use execution_engine_multi.Domain.Position.{AccountInfo, SymbolInfo}
use execution_engine_multi.Domain.Trade.{TradePlan}
use execution_engine_multi.Prelude.Python.Order.{not_back, min_f_le}
use execution_engine_multi.Utils.LotCalculator.Bounds.{IsClamped, calculate_lot_size-IsClamped}
use execution_engine_multi.Risk.Loss.{LossTracker, daily_risk_amount}
use execution_engine_multi.Execution.Planner.{
  plan, sized, sizing_stop, clamped_multiplier, is_tp1_eligible, tp1_volume,
}

module _ {F : Type 0} ⦃py : Python F⦄ (laws : FloatOrder py) (config : RiskConfig F) where
  -- The size and the amount at risk of a plan for a signal.
  pub record IsSound (trigger_pct close_pct : F) (t : LossTracker F) (s : InboundSignal F)
      (si : SymbolInfo F) (p : TradePlan F) : Type 0 where
    pub not_negative : py.ltb p.risk_multiplier zero_f ≡ false
    pub at_most_one : py.ltb one_f p.risk_multiplier ≡ false
    pub risk :
        p.risk_amount ≡ py.mul (daily_risk_amount config.max_losing_streak t) p.risk_multiplier
    pub lots :
        (p.lot_size ≡ config.min_lot_size)
        ⊎ ((raw : F) × (p.lot_size ≡ py.round raw 2)
            × IsClamped config.min_lot_size config.max_lot_size si.lot_max raw)
    pub levels : (p.stop_loss ≡ s.stop_loss) × (p.tp2 ≡ s.tp2)
    pub whole_position : is_tp1_eligible trigger_pct close_pct ≡ false → p.tp1_lots ≡ zero_f

  clamped_multiplier_lem :
      (m : F)
      → (py.ltb (clamped_multiplier m) zero_f ≡ false)
        × (py.ltb one_f (clamped_multiplier m) ≡ false)
  unfolding clamped_multiplier
  clamped_multiplier_lem m = elim (Bool-cases (py.ltb zero_f (min_f one_f m))) [
    | inl up ↦ rw up (not_back laws zero_f (min_f one_f m) up, (min_f_le laws one_f m).0)
    | inr down ↦ rw down (laws.lt_irrefl zero_f, not_back laws zero_f one_f laws.one_pos)
  ]

  tp1_volume-off :
      (trigger_pct close_pct : F) (si : SymbolInfo F) (lots : F)
      → is_tp1_eligible trigger_pct close_pct ≡ false
      → tp1_volume trigger_pct close_pct si lots ≡ zero_f
  unfolding tp1_volume
  tp1_volume-off trigger_pct close_pct si lots off = simp off

  -- A plan scales the risk of one trade by a multiplier between zero and one; its size is the
  -- configured minimum or the rounding of a size within the configured and the broker's bounds; it
  -- keeps the stop and TP2 of the signal, and closes nothing at TP1 where the settings of
  -- TP1 that its symbol and time frames resolve to are not eligible.
  pub plan-IsSound :
      (cfg : ExecutionConfig F) (tf_key : Option String) (planned_at : ℕ) (t : LossTracker F)
      (s : InboundSignal F) (account : AccountInfo F) (si : SymbolInfo F) (m : F)
      → IsSound
          (tp1_trigger_pct_for cfg (some s.symbol) tf_key)
          (tp1_percentage_for cfg (some s.symbol) tf_key)
          t
          s
          si
          (plan config cfg tf_key planned_at t s account si m)
  unfolding plan
  plan-IsSound cfg tf_key planned_at t s account si m =
      let clamped = clamped_multiplier_lem m in
      let size =
        calculate_lot_size-IsClamped laws
          (py.mul (daily_risk_amount config.max_losing_streak t) (clamped_multiplier m))
          s.entry_price (sizing_stop cfg s si) si config.max_lot_size config.min_lot_size in
      record {
        not_negative = clamped.0;
        at_most_one = clamped.1;
        risk = size.1;
        lots = size.0;
        levels = (refl, refl);
        whole_position =
            tp1_volume-off (tp1_trigger_pct_for cfg (some s.symbol) tf_key)
              (tp1_percentage_for cfg (some s.symbol) tf_key) si
              (sized config cfg t s si m).lot_size;
      }
