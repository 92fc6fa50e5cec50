-- ===== src/Risk/Loss/Pause.antt =====
-- A pause holds to the end of its day, whatever the other guards see.
use execution_engine_multi.Prelude.{
  ℕ, ◌<◌, ◌≡◌, String, true, some, List, [], ◌∷◌, All, arith, if◌then◌else◌, if_ind,
}
use execution_engine_multi.Prelude.Python.{Python}
use execution_engine_multi.Risk.Loss.{
  LossTracker, PauseReason, profit_drawdown, rolling_drawdown, update_daily_loss_pct,
  record_trade_closed, update_equity, mark_risk_data_unavailable, is_paused, roll_day, expire,
  guard_daily_loss, pause_if_free, bank, rolling_guard, push_bounded,
}

-- The calls that change the tracker while it runs.
pub data Update (F : Type 0) : Type 0 where
  polled : (stamp now today : ℕ) (pct start_equity : F) → Update F
  trade_closed : (now today : ℕ) (pnl : F) → Update F
  equity_read : (now today : ℕ) (equity : F) → Update F
  unavailable : String → Update F

module _ {F : Type 0} where
  -- The call falls on the day, before its end.
  abbrev pub IsWithin : (day_end : ℕ → ℕ) → ℕ → Update F → Type 0
  IsWithin day_end day (polled stamp now today pct start) = (today ≡ day) × (now < day_end day)
  IsWithin day_end day (trade_closed now today pnl) = (today ≡ day) × (now < day_end day)
  IsWithin day_end day (equity_read now today equity) = (today ≡ day) × (now < day_end day)
  IsWithin day_end day (unavailable error) = Unit

module _ {F : Type 0} ⦃py : Python F⦄ (day_end : ℕ → ℕ) where
  abbrev pub update : Update F → LossTracker F → LossTracker F
  update (polled stamp now today pct start) =
      update_daily_loss_pct day_end stamp now today pct start
  update (trade_closed now today pnl) = record_trade_closed day_end now today pnl
  update (equity_read now today equity) = update_equity day_end now today equity
  update (unavailable error) = mark_risk_data_unavailable error

  abbrev pub updates : List (Update F) → LossTracker F → LossTracker F
  updates [] t = t
  updates (u ∷ us) t = updates us (update u t)

  -- Paused to the end of the tracked day.
  record IsHeld (day : ℕ) (t : LossTracker F) : Type 0 where
    until_end : t.paused_until ≡ day_end day
    same_day : t.tracked_day ≡ some day

  module _ (day : ℕ) where
    roll_day-IsHeld :
        (start : F) (t : LossTracker F) → IsHeld day t → IsHeld day (roll_day day start t)
    unfolding roll_day
    roll_day-IsHeld start t h = ground arith

    expire-IsHeld :
        (now : ℕ) (t : LossTracker F) → now < day_end day → IsHeld day t → IsHeld day (expire now t)
    unfolding expire
    expire-IsHeld now t early h = ground arith

    guard-IsHeld :
        (pct : F) (t : LossTracker F)
        → IsHeld day t
        → IsHeld day (guard_daily_loss (day_end day) pct t)
    unfolding guard_daily_loss
    guard-IsHeld pct t h = ground arith

    bank-IsHeld : (pnl : F) (t : LossTracker F) → IsHeld day t → IsHeld day (bank pnl t)
    unfolding bank
    bank-IsHeld pnl t h = record { until_end = h.until_end; same_day = h.same_day }

    pause_if_free-IsHeld :
        (now : ℕ) (why : PauseReason) (t : LossTracker F)
        → IsHeld day t
        → IsHeld day (pause_if_free now (day_end day) why t)
    unfolding pause_if_free
    pause_if_free-IsHeld now why t h = ground arith

    record_trade_closed-IsHeld :
        (now : ℕ) (pnl : F) (t : LossTracker F)
        → IsHeld day t
        → IsHeld day (record_trade_closed day_end now day pnl t)
    unfolding record_trade_closed
    record_trade_closed-IsHeld now pnl t h =
        if_ind (IsHeld day) _
          (pause_if_free-IsHeld now profit_drawdown (bank pnl t) (bank-IsHeld pnl t h))
          (bank-IsHeld pnl t h)

    rolling_guard-IsHeld :
        (now : ℕ) (equity : F) (t : LossTracker F)
        → IsHeld day t
        → IsHeld day (rolling_guard now (day_end day) equity t)
    unfolding rolling_guard
    rolling_guard-IsHeld now equity t h =
        let held : LossTracker F = record t {
          equity_window = push_bounded t.rolling_window_size t.equity_window equity;
        } in
        let h' : IsHeld day held = record { until_end = h.until_end; same_day = h.same_day } in
        if_ind (IsHeld day) _ (pause_if_free-IsHeld now rolling_drawdown held h') h'

    update_equity-IsHeld :
        (now : ℕ) (equity : F) (t : LossTracker F)
        → IsHeld day t
        → IsHeld day (update_equity day_end now day equity t)
    unfolding update_equity
    update_equity-IsHeld now equity t h =
        let peaked : LossTracker F = record t {
          equity_peak = if py.ltb t.equity_peak equity then equity else t.equity_peak;
        } in
        let h' : IsHeld day peaked = record { until_end = h.until_end; same_day = h.same_day } in
        if_ind (IsHeld day) _ h
          (if_ind (IsHeld day) _ (rolling_guard-IsHeld now equity peaked h') h')

    polled-IsHeld :
        (stamp now : ℕ) (pct start : F) (t : LossTracker F)
        → now < day_end day
        → IsHeld day t
        → IsHeld day (update_daily_loss_pct day_end stamp now day pct start t)
    unfolding update_daily_loss_pct
    polled-IsHeld stamp now pct start t early h =
        let noted : LossTracker F = record t {
          risk_data_updated_at = stamp;
          risk_data_error = "";
          current_pct = pct;
        } in
        guard-IsHeld pct (expire now (roll_day day start noted)) (
          expire-IsHeld now (roll_day day start noted) early (
            roll_day-IsHeld start noted
              (record { until_end = h.until_end; same_day = h.same_day })))

    update-IsHeld :
        (u : Update F) (t : LossTracker F)
        → IsWithin day_end day u
        → IsHeld day t
        → IsHeld day (update u t)
    unfolding mark_risk_data_unavailable
    update-IsHeld (polled stamp now today pct start) t (e, early) h =
        rw e (polled-IsHeld stamp now pct start t early h)
    update-IsHeld (trade_closed now today pnl) t (e, early) h =
        rw e (record_trade_closed-IsHeld now pnl t h)
    update-IsHeld (equity_read now today equity) t (e, early) h =
        rw e (update_equity-IsHeld now equity t h)
    update-IsHeld (unavailable error) t w h = record {
      until_end = h.until_end;
      same_day = h.same_day;
    }

    updates-IsHeld :
        (us : List (Update F)) (t : LossTracker F)
        → All (IsWithin day_end day) us
        → IsHeld day t
        → IsHeld day (updates us t)
    updates-IsHeld [] t w h = h
    updates-IsHeld (u ∷ us) t w h = updates-IsHeld us (update u t) w.1 (update-IsHeld u t w.0 h)

  is_paused_of_IsHeld :
      (day later : ℕ) (t : LossTracker F)
      → later < day_end day
      → IsHeld day t
      → (is_paused later t).0 ≡ true
  unfolding is_paused
  is_paused_of_IsHeld day later t early h = ground arith

  limit-IsHeld :
      (stamp now today : ℕ) (pct start : F) (t : LossTracker F)
      → py.leb t.limit pct ≡ true
      → IsHeld today (update_daily_loss_pct day_end stamp now today pct start t)
  unfolding update_daily_loss_pct
  limit-IsHeld stamp now today pct start t over = ground arith

  -- Once a poll finds the daily loss at its limit, the tracker reports a pause at every time before
  -- the end of that day, after any further polls, closed trades, equity readings and failures of
  -- the risk data on that day: no later reading lifts the pause.
  pub daily_limit_pauses :
      (stamp now today later : ℕ) (pct start : F) (us : List (Update F)) (t : LossTracker F)
      → py.leb t.limit pct ≡ true
      → All (IsWithin day_end today) us
      → later < day_end today
      → (is_paused later (updates us (update_daily_loss_pct day_end stamp now today pct start t))).0
        ≡ true
  daily_limit_pauses stamp now today later pct start us t over within early =
      is_paused_of_IsHeld today later _ early
        (updates-IsHeld today us _ within (limit-IsHeld stamp now today pct start t over))
