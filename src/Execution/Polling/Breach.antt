-- ===== src/Execution/Polling/Breach.antt =====
-- A breach of the daily limit, from the poll to the verdict of the risk engine.
use execution_engine_multi.Prelude.{
  ℕ, ap, List, All, ◌<◌, ◌≡◌, ◌≢◌, refl, sym, ◌∙◌, Bool, true, false, some, ◌∷◌, Bool-cases, inl,
  inr,
}
use mathlib.Core.Option
use execution_engine_multi.Prelude.Python.{Python, zero_f}
use execution_engine_multi.Risk.Loss
use execution_engine_multi.Risk.Loss.Pause.{
  Update, IsWithin, updates, equity_read, daily_limit_pauses,
}
use execution_engine_multi.Risk.Rules.Context.{RuleContext, RuleData, Trackers}
use execution_engine_multi.Risk.Engine.{evaluate, all_rules, approved}
use execution_engine_multi.Risk.Engine.Safety.{all_rules-IsSafe}
use execution_engine_multi.Execution.State.{EngineState}
use execution_engine_multi.Execution.Polling.{on_loss, poll_tracker, update_daily_loss}

true≢false : ◌≢◌ {A = Bool} true false
true≢false e = cc

module _ {F : Type 0} ⦃py : Python F⦄ (day_end : ℕ → ℕ) where
  poll_tracker-pauses :
      (stamp now read_at today later : ℕ) (pct start current : F) (us : List (Update F))
      (t : Loss.LossTracker F)
      → py.leb t.limit pct ≡ true
      → read_at < day_end today
      → All (IsWithin day_end today) us
      → later < day_end today
      → (Loss.is_paused later
          (updates day_end us (poll_tracker day_end stamp now read_at today pct start current t))).0
        ≡ true
  unfolding poll_tracker
  poll_tracker-pauses stamp now read_at today later pct start current us t over read_early within
        early =
      elim (Bool-cases (py.ltb zero_f current)) [
        | inl read ↦ rw read (
            daily_limit_pauses day_end stamp now today later pct start
              (equity_read read_at today current ∷ us) t over ((refl, read_early), within) early)
        | inr none_read ↦
            rw none_read
              (daily_limit_pauses day_end stamp now today later pct start us t over within early)
      ]

  on_loss-loss :
      (change : Loss.LossTracker F → Loss.LossTracker F) (ts : Trackers F) (t : Loss.LossTracker F)
      → ts.loss ≡ some t
      → (on_loss change ts).loss ≡ some (change t)
  unfolding on_loss
  on_loss-loss change ts t e = cc

  -- After a poll with a daily loss at the loss tracker's limit, and after any further polls, closed
  -- trades, equity readings and failures of the risk data on that day, the ten rules approve no signal
  -- that they meet before the end of the day, whatever the other trackers and the context.
  pub breach_stops_trading :
      (stamp now read_at today : ℕ) (pct start current : F) (st : EngineState F)
      (t : Loss.LossTracker F) (us : List (Update F)) (later : Trackers F)
      → st.trackers.loss ≡ some t
      → py.leb t.limit pct ≡ true
      → read_at < day_end today
      → All (IsWithin day_end today) us
      → later.loss
        ≡ Option.map
            (updates day_end us)
            (update_daily_loss day_end stamp now read_at today pct start current st).trackers.loss
      → (ctx : RuleContext F) (d : RuleData F) → ctx.clock.pause_now < day_end today
      → (evaluate all_rules ctx later).1 ≢ approved d
  unfolding update_daily_loss
  breach_stops_trading stamp now read_at today pct start current st t us later known over read_early
        within after ctx d early ok =
      let polled = poll_tracker day_end stamp now read_at today pct start current in
      let safe = (all_rules-IsSafe ctx _ d ok).0 in
      let held : later.loss ≡ some (updates day_end us (polled t)) =
        after ∙ ap (Option.map (updates day_end us)) (on_loss-loss polled st.trackers t known) in
      let free = (safe.not_paused (updates day_end us (polled t)) held).1 in
      true≢false (
        sym (
          poll_tracker-pauses stamp now read_at today ctx.clock.pause_now pct start current us t
            over read_early within early)
        ∙ free)
