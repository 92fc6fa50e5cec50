-- ===== src/Risk/Loss.antt =====
-- src/risk/loss_tracker.py: `LossTracker`, three intraday guards that pause trading until the end
-- of the day. Each method is one critical section of the tracker's lock. The clock and the
-- calendar are arguments: `now` in milliseconds, `today` as a day number, and `day_end today`, the
-- time that `_day_end_ms` gives. The log lines and the formatted texts are not modelled.
pub mod Pause
pub mod Days
use execution_engine_multi.Prelude.{
  ℕ, zero, suc, ◌+◌, String, ◌==◌, Bool, true, false, not, ◌&&◌, ◌||◌, Option, none, some, List, [],
  ◌∷◌, ◌++◌, length, leb, ltb, eqb, if◌then◌else◌,
}
use execution_engine_multi.Prelude.Python.{Python, zero_f, min_f, max_f}

pub data PauseReason : Type 0 where
  unset daily_loss profit_drawdown rolling_drawdown : PauseReason

pub record LossTracker (F : Type 0) : Type 0 where
  pub limit : F
  pub max_profit_drawdown : F
  pub rolling_window_size : ℕ
  pub rolling_drawdown_pct : F
  pub current_pct : F
  pub start_of_day_equity : F
  pub tracked_day : Option ℕ
  pub paused_until : ℕ
  pub pause_reason : PauseReason
  pub session_closed_pnl : F
  pub session_closed_peak : F
  pub profit_drawback_pct : F
  pub equity_window : List F
  pub equity_peak : F
  pub risk_data_updated_at : ℕ
  pub risk_data_error : String

-- `x != y` on an optional day.
abbrev is_day : Option ℕ → ℕ → Bool
is_day none d = false
is_day (some e) d = eqb e d

-- `not self._paused_until or now >= self._paused_until`
abbrev pub is_free : ℕ → ℕ → Bool
is_free paused_until now = eqb paused_until 0 || leb paused_until now

abbrev drop_one {ℓ} : {A : Type ℓ} → List A → List A
drop_one [] = []
drop_one (_ ∷ xs) = xs

-- `append` on a deque of at most `n` entries.
push_bounded {ℓ} : {A : Type ℓ} → ℕ → List A → A → List A
push_bounded zero w x = []
push_bounded (suc n) w x = if ltb (length w) (suc n) then w ++ x ∷ [] else drop_one w ++ x ∷ []

-- `extend` on such a deque.
extend_bounded {ℓ} : {A : Type ℓ} → ℕ → List A → List A → List A
unfolding push_bounded
extend_bounded n w [] = w
extend_bounded n w (x ∷ xs) = extend_bounded n (push_bounded n w x) xs

module _ {F : Type 0} ⦃py : Python F⦄ where
  unfoldable pub fresh : F → F → ℕ → F → LossTracker F
  fresh max_daily_loss_pct max_equity_drawdown_pct window_size drawdown_pct = record {
    limit = max_daily_loss_pct;
    max_profit_drawdown = max_equity_drawdown_pct;
    rolling_window_size = window_size;
    rolling_drawdown_pct = drawdown_pct;
    current_pct = zero_f;
    start_of_day_equity = zero_f;
    tracked_day = none;
    paused_until = 0;
    pause_reason = unset;
    session_closed_pnl = zero_f;
    session_closed_peak = zero_f;
    profit_drawback_pct = zero_f;
    equity_window = [];
    equity_peak = zero_f;
    risk_data_updated_at = 0;
    risk_data_error = "";
  }

  -- The change of day in `update_daily_loss_pct`, and the deferred latch of the equity.
  roll_day : ℕ → F → LossTracker F → LossTracker F
  roll_day today start_equity t =
      let equity : F = if py.ltb zero_f start_equity then start_equity else zero_f in
      if not (is_day t.tracked_day today)
      then record t {
        tracked_day = some today;
        profit_drawback_pct = zero_f;
        session_closed_pnl = zero_f;
        session_closed_peak = zero_f;
        equity_window = [];
        paused_until = 0;
        pause_reason = unset;
        start_of_day_equity = equity;
        equity_peak = equity;
      }
      else if py.leb t.start_of_day_equity zero_f && py.ltb zero_f start_equity
      then record t { start_of_day_equity = start_equity; equity_peak = start_equity }
      else t

  -- A pause that has run out is cleared.
  expire : ℕ → LossTracker F → LossTracker F
  expire now t =
      if not (eqb t.paused_until 0) && leb t.paused_until now
      then record t { paused_until = 0; pause_reason = unset }
      else t

  guard_daily_loss : ℕ → F → LossTracker F → LossTracker F
  guard_daily_loss day_end pct t =
      if py.leb t.limit pct
      then record t { paused_until = day_end; pause_reason = daily_loss }
      else t

  -- Guard 1. The clock is read twice, as `stamp` and as `now`.
  unfoldable pub update_daily_loss_pct :
      (day_end : ℕ → ℕ) (stamp now today : ℕ) → F → F → LossTracker F → LossTracker F
  unfolding roll_day expire guard_daily_loss
  update_daily_loss_pct day_end stamp now today pct start_equity t =
      let noted : LossTracker F = record t {
        risk_data_updated_at = stamp;
        risk_data_error = "";
        current_pct = pct;
      } in
      guard_daily_loss (day_end today) pct (expire now (roll_day today start_equity noted))

  -- A guard that pauses only where no pause runs.
  pause_if_free : ℕ → ℕ → PauseReason → LossTracker F → LossTracker F
  pause_if_free now until reason t =
      if is_free t.paused_until now
      then record t { paused_until = until; pause_reason = reason }
      else t

  bank : F → LossTracker F → LossTracker F
  bank realized_pnl t =
      let pnl = py.add t.session_closed_pnl realized_pnl in
      let peak : F = if py.ltb t.session_closed_peak pnl then pnl else t.session_closed_peak in
      record t {
        session_closed_pnl = pnl;
        session_closed_peak = peak;
        profit_drawback_pct =
            if py.ltb zero_f peak && py.ltb zero_f t.start_of_day_equity
            then py.mul (py.div (py.sub peak pnl) t.start_of_day_equity) (py.lit 100 0)
            else zero_f;
      }

  -- Guard 2
  unfoldable pub record_trade_closed :
      (day_end : ℕ → ℕ) (now today : ℕ) → F → LossTracker F → LossTracker F
  unfolding bank pause_if_free
  record_trade_closed day_end now today realized_pnl t =
      let t' = bank realized_pnl t in
      if py.ltb zero_f t'.max_profit_drawdown
        && py.leb t'.max_profit_drawdown t'.profit_drawback_pct
      then pause_if_free now (day_end today) profit_drawdown t'
      else t'

  -- `max(window)` and `min(window)` of a window that starts with `x`.
  largest : F → List F → F
  largest x [] = x
  largest x (y ∷ ys) = largest (max_f x y) ys

  smallest : F → List F → F
  smallest x [] = x
  smallest x (y ∷ ys) = smallest (min_f x y) ys

  -- The test of guard 3 on the window.
  rolled_over : F → List F → Bool
  unfolding largest smallest
  rolled_over pct [] = false
  rolled_over pct (x ∷ xs) =
      let peak = largest x xs in
      leb 3 (length (x ∷ xs))
      && py.ltb zero_f peak
      && py.leb pct (py.mul (py.div (py.sub peak (smallest x xs)) peak) (py.lit 100 0))

  rolling_guard : ℕ → ℕ → F → LossTracker F → LossTracker F
  unfolding rolled_over push_bounded pause_if_free
  rolling_guard now day_end equity t =
      let t' : LossTracker F = record t {
        equity_window = push_bounded t.rolling_window_size t.equity_window equity;
      } in
      if rolled_over t'.rolling_drawdown_pct t'.equity_window
      then pause_if_free now day_end rolling_drawdown t'
      else t'

  -- Guard 3, and the peak for display.
  unfoldable pub update_equity :
      (day_end : ℕ → ℕ) (now today : ℕ) → F → LossTracker F → LossTracker F
  unfolding rolling_guard
  update_equity day_end now today equity t =
      let peaked : LossTracker F = record t {
        equity_peak = if py.ltb t.equity_peak equity then equity else t.equity_peak;
      } in
      if py.leb equity zero_f
      then t
      else if ltb 0 t.rolling_window_size && py.ltb zero_f t.rolling_drawdown_pct
      then rolling_guard now (day_end today) equity peaked
      else peaked

  pub daily_risk_amount : ℕ → LossTracker F → F
  daily_risk_amount max_losing_streak t =
      let slots : ℕ = if ltb 1 max_losing_streak then max_losing_streak else 1 in
      if py.leb t.start_of_day_equity zero_f
      then zero_f
      else py.div (py.mul t.start_of_day_equity (py.div t.limit (py.lit 100 0))) (py.lit slots 0)

module _ {F : Type 0} where
  -- The second component of `is_paused` without the minutes left.
  unfoldable pub is_paused : ℕ → LossTracker F → Bool × PauseReason
  is_paused now t = if is_free t.paused_until now then (false, unset) else (true, t.pause_reason)

  unfoldable pub mark_risk_data_unavailable : String → LossTracker F → LossTracker F
  mark_risk_data_unavailable error t = record t { risk_data_error = error }

  -- `risk_data_status` with its default age limit of ten seconds. A reading that lies in the
  -- future has a negative age, which is fresh.
  unfoldable pub risk_data_fresh : ℕ → LossTracker F → Bool
  risk_data_fresh now t =
      t.risk_data_error == ""
      && not (eqb t.risk_data_updated_at 0)
      && leb now (t.risk_data_updated_at + 10000)
