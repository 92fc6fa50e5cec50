-- ===== src/Checks/Fleet.antt =====
-- The theorems of the agents' supervision on a short history.
use execution_engine_multi.Prelude.{
  ℕ, ◌+◌, ◌<◌, ◌≡◌, refl, true, none, some, List, [], ◌∷◌, All, arith,
}
use execution_engine_multi.Manager.Supervision.{
  running, wanted, Agent, Fleet, System, notify_crashed, backoff_delay,
}
use execution_engine_multi.Manager.Supervision.Window.{
  Crash, record_all, recent_crashes, IsHandled, notify_crashed-IsHandled,
}
use execution_engine_multi.Manager.Supervision.Backoff.{starts, ticks, crash-StillWaits}

abbrev agent : Agent
agent = record {
  status = running;
  desired = wanted;
  pid = some 7;
  crash_count = 0;
  last_crash_at = none;
}

-- An old crash of the agent, and one of another agent.
abbrev history : List Crash
history = ("a1", 1000) ∷ ("a2", 400000) ∷ []

abbrev fleet : Fleet
fleet = record {
  agents = ("a1", agent) ∷ [];
  crashes = record_all [] history;
  restart_at = [];
  children = [];
  spawned = [];
  killed = [];
}

notify_crashed-IsHandled_example :
    IsHandled 500000
      (recent_crashes 500000 "a1" history)
      "a1"
      agent
      fleet
      (notify_crashed 500000 "a1" fleet)
notify_crashed-IsHandled_example =
    notify_crashed-IsHandled history 500000 "a1" agent fleet refl (omega arith) (omega arith) refl
      refl

abbrev system : System
system = record { popen = λ id. some 8; is_identity = λ id pid. true }

abbrev rounds : List (ℕ × System)
rounds = (501000, system) ∷ (504999, system) ∷ []

is_early :
    All (λ round. round.0 < 500000 + backoff_delay (recent_crashes 500000 "a1" history)) rounds
unfolding backoff_delay
is_early = omega arith

crash-StillWaits_example :
    let f = notify_crashed 500000 "a1" fleet in
    starts "a1" (ticks rounds f).spawned ≡ starts "a1" f.spawned
crash-StillWaits_example =
    crash-StillWaits history 500000 "a1" agent fleet rounds refl (omega arith) (omega arith) refl
      refl (omega arith) is_early
