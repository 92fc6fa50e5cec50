-- ===== src/Risk/Throttle/Hysteresis.antt =====
-- The throttle's state: repeated readings, and the hysteresis.
use execution_engine_multi.Prelude.{
  ℕ, ◌-◌, ◌*◌, ◌≡◌, ◌∙◌, refl, ap, Bool, ◌&&◌, List, [], ◌∷◌, arith, ltb, if◌then◌else◌, Bool-cases,
  inl, inr,
}
use execution_engine_multi.Prelude.Python.{Python, one_f}
use execution_engine_multi.Config.{EquityThrottleConfig}
use execution_engine_multi.Risk.Throttle.{
  day_ms, Window, ThrottleState, ThrottlePreview, TradeRow, drop_before, next_engaged,
  compute_drawdown_r, refresh, hydrate, preview, row_entries, sort_entries,
}

drop_before_idem :
    {F : Type 0} (cutoff : ℕ) (w : Window F)
    → drop_before cutoff (drop_before cutoff w) ≡ drop_before cutoff w
unfolding drop_before
drop_before_idem cutoff [] = refl
drop_before_idem cutoff ((at, c) ∷ w) = elim (Bool-cases (ltb at cutoff)) [
  | inl old ↦ rw (old, drop_before) (drop_before_idem cutoff w)
  | inr new ↦ rw (new, drop_before) (rw new)
]

module _ {F : Type 0} ⦃py : Python F⦄ (config : EquityThrottleConfig F) where
  next_engaged_idem :
      (dd : F) (engaged : Bool)
      → next_engaged config dd (next_engaged config dd engaged) ≡ next_engaged config dd engaged
  unfolding next_engaged
  next_engaged_idem dd engaged = ground arith

  -- At one time a second reading changes nothing.
  refresh_idem :
      (now : ℕ) (st : ThrottleState F)
      → refresh config now (refresh config now st) ≡ refresh config now st
  unfolding refresh
  refresh_idem now st =
      let cutoff = now - config.window_days * day_ms in
      let p : drop_before cutoff (drop_before cutoff st.window) ≡ drop_before cutoff st.window =
        drop_before_idem cutoff st.window in
      let dd = compute_drawdown_r (drop_before cutoff st.window) in
      let q = next_engaged_idem dd st.engaged in
      (λ i. record {
        window = p i;
        engaged =
            next_engaged config (compute_drawdown_r (p i)) (next_engaged config dd st.engaged);
        dd_r = compute_drawdown_r (p i);
      })
      ∙ ap (λ e. record { window = drop_before cutoff st.window; engaged = e; dd_r = dd }) q

  -- Rebuilding the window from the same rows at the same time once more changes nothing.
  hydrate_idem :
      (now : ℕ) (rows : List (TradeRow F)) (st : ThrottleState F)
      → hydrate config now rows (hydrate config now rows st) ≡ hydrate config now rows st
  unfolding hydrate
  hydrate_idem now rows st =
      let w = drop_before (now - config.window_days * day_ms) (sort_entries (row_entries rows)) in
      ap (λ e. record { window = w; engaged = e; dd_r = compute_drawdown_r w })
        (next_engaged_idem (compute_drawdown_r w) st.engaged)

  -- Two previews at one time agree, and leave the same state.
  preview_idem :
      (now : ℕ) (st : ThrottleState F)
      → preview config now (preview config now st).0 ≡ preview config now st
  unfolding preview
  preview_idem now st =
      ap {B = ThrottleState F × ThrottlePreview F}
        (λ s. (
          s,
          record {
            multiplier = if s.engaged && config.enabled then config.risk_multiplier else one_f;
            drawdown_r = s.dd_r;
            engaged = s.engaged && config.enabled;
          },
        ))
        (refresh_idem now st)
