-- ===== src/Execution/Polling.antt =====
-- src/execution/engine.py: what the position manager's poll tells `ExecutionEngine`:
-- `update_daily_loss` and `mark_risk_data_unavailable`. The loss tracker reads its clock once or
-- twice in each call: `stamp` and `now` in the first, `read_at` in the second.
pub mod Breach
use execution_engine_multi.Prelude.{ℕ, String, none, some, if◌then◌else◌}
use execution_engine_multi.Prelude.Python.{Python, zero_f}
use execution_engine_multi.Risk.Loss
use execution_engine_multi.Risk.Rules.Context.{Trackers}
use execution_engine_multi.Execution.State.{EngineState}

module _ {F : Type 0} where
  -- A call on the loss tracker, if there is one.
  on_loss : (Loss.LossTracker F → Loss.LossTracker F) → Trackers F → Trackers F
  on_loss change ts = elim ts.loss [ none ↦ ts | some t ↦ record ts { loss = some (change t) } ]

  pub mark_engine_risk_data : String → EngineState F → EngineState F
  unfolding on_loss
  mark_engine_risk_data error st = record st {
    trackers = on_loss (Loss.mark_risk_data_unavailable error) st.trackers;
  }

module _ {F : Type 0} ⦃py : Python F⦄ where
  -- The two updates of the tracker in one poll.
  poll_tracker :
      (day_end : ℕ → ℕ) (stamp now read_at today : ℕ) (pct start_equity current_equity : F)
      → Loss.LossTracker F
      → Loss.LossTracker F
  poll_tracker day_end stamp now read_at today pct start_equity current_equity t =
      let polled = Loss.update_daily_loss_pct day_end stamp now today pct start_equity t in
      if py.ltb zero_f current_equity
      then Loss.update_equity day_end read_at today current_equity polled
      else polled

  pub update_daily_loss :
      (day_end : ℕ → ℕ) (stamp now read_at today : ℕ) (pct start_equity current_equity : F)
      → EngineState F
      → EngineState F
  unfolding on_loss poll_tracker
  update_daily_loss day_end stamp now read_at today pct start_equity current_equity st = record st {
    daily_loss_pct = pct;
    trackers =
        on_loss (poll_tracker day_end stamp now read_at today pct start_equity current_equity)
          st.trackers;
  }
