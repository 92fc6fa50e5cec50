-- ===== src/Checks/Guards.antt =====
-- The theorems of the loss tracker, the cluster tracker and the throttle on sample states.
use execution_engine_multi.Prelude.{ℕ, ◌+◌, ◌*◌, ◌≡◌, refl, true, some, [], ◌∷◌, arith}
use execution_engine_multi.Prelude.{◌-◌, none, false, List}
use execution_engine_multi.Prelude.Int.{ℤ, negsuc, ltb_ℤ, ◌-ℤ◌, ◌+ℤ◌}
use execution_engine_multi.Prelude.Python.{zero_f, max_f}
use execution_engine_multi.Risk.Throttle.{
  day_ms, Window, TradeRow, row_entries, hydrate, compute_drawdown_r,
}
use execution_engine_multi.Risk.Throttle.Window.{IsWindowOf, hydrate-IsWindowOf}
use execution_engine_multi.Risk.Throttle.Drawdown.{sum_from, IsPeak, compute_drawdown_r_lem}
use execution_engine_multi.Checks.Samples.{execution_config}
use execution_engine_multi.Config.Overrides.{
  validate_pct_range, validate_pct_inclusive, validate_tp1, tp1_trigger_pct_for, tp1_percentage_for,
  tp1_settings_pass,
}
use execution_engine_multi.Checks.Floats.{Python-ℤ, FloatOrder-ℤ}
use execution_engine_multi.Checks.Samples.{dec, tracker, group, throttle_config, throttle_state}
use execution_engine_multi.Risk.Loss.{update_daily_loss_pct, is_paused}
use execution_engine_multi.Risk.Loss.Pause.{
  updates, trade_closed, equity_read, polled, daily_limit_pauses,
}
use execution_engine_multi.Risk.Cluster.{preview_in, fresh_state}
use execution_engine_multi.Risk.Cluster.Limits.{HasRoom, preview_in-HasRoom}

-- Day `d` ends at (d + 1) * 1000.
abbrev day_end : ℕ → ℕ
day_end d = (d + 1) * 1000

-- A poll at 7100 of day 7 finds five percent, the limit is four; then a trade wins, the equity rises
-- and a second poll finds one percent.
daily_limit_pauses_example :
    (is_paused 7900 (
      updates day_end
        (trade_closed 7200 7 (dec 500 0)
          ∷ equity_read 7300 7 (dec 11000 0)
          ∷ polled 7400 7400 7 (dec 1 0) (dec 10000 0)
          ∷ [])
        (update_daily_loss_pct day_end 7100 7100 7 (dec 5 0) (dec 10000 0) tracker))).0
    ≡ true
daily_limit_pauses_example =
    daily_limit_pauses day_end 7100 7100 7 7900 (dec 5 0) (dec 10000 0)
      (trade_closed 7200 7 (dec 500 0)
        ∷ equity_read 7300 7 (dec 11000 0)
        ∷ polled 7400 7400 7 (dec 1 0) (dec 10000 0)
        ∷ [])
      tracker refl ((refl, omega arith), ((refl, omega arith), ((refl, omega arith), tt)))
      (omega arith)

fresh-is_approved : (preview_in group (fresh_state 7)).approved ≡ true
unfolding preview_in fresh_state ◌-ℤ◌ ◌+ℤ◌
fresh-is_approved = refl

preview_in-HasRoom_example : HasRoom group (fresh_state 7) (preview_in group (fresh_state 7))
preview_in-HasRoom_example = preview_in-HasRoom group FloatOrder-ℤ (fresh_state 7) fresh-is_approved

execution_config-valid : validate_tp1 execution_config ≡ true
unfolding validate_tp1 validate_pct_range validate_pct_inclusive
execution_config-valid = refl

tp1_settings_pass_example :
    (validate_pct_range (tp1_trigger_pct_for execution_config (some "eur/usd") (some "240/5"))
      ≡ true)
    × (validate_pct_inclusive (tp1_percentage_for execution_config (some "eur/usd") (some "240/5"))
        ≡ true)
tp1_settings_pass_example =
    tp1_settings_pass execution_config (some "eur/usd") (some "240/5") execution_config-valid

-- One row of a won trade and an older one of a lost trade.
abbrev row : TradeRow ℤ
row = record {
  realized_rr = some (dec 2 0);
  closed_at = some 900;
  plan_risk_multiplier = some (dec 5 1);
  plan_entry_price = none;
  plan_stop_loss = none;
  entry_lots = none;
  current_lots = none;
  was_tp1_hit = false;
  side = none;
  entry_price = none;
  close_price = none;
  tp1 = none;
}

abbrev rows : List (TradeRow ℤ)
rows = row ∷ record row { realized_rr = some (negsuc 99999999); closed_at = some 800 } ∷ []

hydrate-IsWindowOf_example :
    IsWindowOf throttle_config
      (1000 - throttle_config.window_days * day_ms)
      (row_entries rows)
      (hydrate throttle_config 1000 rows throttle_state).window
hydrate-IsWindowOf_example = hydrate-IsWindowOf throttle_config 1000 rows throttle_state

-- Up by two, then down by three.
abbrev window : Window ℤ
window = (700, dec 2 0) ∷ (800, negsuc 299999999) ∷ []

compute_drawdown_r_lem_example :
    ((p : ℤ) × (compute_drawdown_r window ≡ max_f zero_f (p -ℤ sum_from zero_f window))
      × IsPeak p zero_f zero_f window)
    × (ltb_ℤ (compute_drawdown_r window) zero_f ≡ false)
compute_drawdown_r_lem_example = compute_drawdown_r_lem FloatOrder-ℤ window
