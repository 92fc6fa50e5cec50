-- ===== src/Risk/Loss/Days.antt =====
-- A new day starts afresh.
use execution_engine_multi.Prelude.{ℕ, ◌≡◌, ◌≢◌, false, some, [], arith}
use execution_engine_multi.Prelude.Python.{Python, zero_f}
use execution_engine_multi.Risk.Loss.{
  LossTracker, update_daily_loss_pct, is_paused, roll_day, expire, guard_daily_loss,
}

module _ {F : Type 0} ⦃py : Python F⦄ where
  -- What a new day has to forget.
  pub record IsFresh (t : LossTracker F) : Type 0 where
    pub no_pnl : t.session_closed_pnl ≡ zero_f
    pub no_peak : t.session_closed_peak ≡ zero_f
    pub no_drawback : t.profit_drawback_pct ≡ zero_f
    pub no_window : t.equity_window ≡ []
    pub not_paused : (now : ℕ) → (is_paused now t).0 ≡ false

  roll_day_new :
      (today : ℕ) (start : F) (t : LossTracker F)
      → t.tracked_day ≢ some today
      → let r = roll_day today start t in
        (r.session_closed_pnl ≡ zero_f)
        × (r.session_closed_peak ≡ zero_f)
        × (r.profit_drawback_pct ≡ zero_f)
        × (r.equity_window ≡ [])
        × (r.paused_until ≡ 0)
        × (r.tracked_day ≡ some today)
        × (r.limit ≡ t.limit)
  unfolding roll_day
  roll_day_new today start t other = ground arith

  expire_free : (now : ℕ) (t : LossTracker F) → t.paused_until ≡ 0 → expire now t ≡ t
  unfolding expire
  expire_free now t e = simp e

  guard_below :
      (until : ℕ) (pct : F) (t : LossTracker F)
      → py.leb t.limit pct ≡ false
      → guard_daily_loss until pct t ≡ t
  unfolding guard_daily_loss
  guard_below until pct t below = simp below

  is_paused_free : (now : ℕ) (t : LossTracker F) → t.paused_until ≡ 0 → (is_paused now t).0 ≡ false
  unfolding is_paused
  is_paused_free now t e = simp e

  -- The first poll of a day other than the tracked one, with a loss below the limit, clears every
  -- pause and the session's sums, and tracks the new day.
  new_day_resets :
      (day_end : ℕ → ℕ) (stamp now today : ℕ) (pct start : F) (t : LossTracker F)
      → t.tracked_day ≢ some today
      → py.leb t.limit pct ≡ false
      → let t' = update_daily_loss_pct day_end stamp now today pct start t in
        IsFresh t' × (t'.tracked_day ≡ some today)
  unfolding update_daily_loss_pct
  new_day_resets day_end stamp now today pct start t other below =
      let noted : LossTracker F = record t {
        risk_data_updated_at = stamp;
        risk_data_error = "";
        current_pct = pct;
      } in
      let r = roll_day today start noted in
      let f = roll_day_new today start noted other in
      let below' : py.leb r.limit pct ≡ false = rw f.6 below in
      rw (expire_free now r f.4) (
        rw (guard_below (day_end today) pct r below') (
          record {
            no_pnl = f.0;
            no_peak = f.1;
            no_drawback = f.2;
            no_window = f.3;
            not_paused = λ at. is_paused_free at r f.4;
          },
          f.5,
        ))
