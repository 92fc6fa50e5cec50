-- ===== src/Manager/Supervision/Backoff.antt =====
-- An agent is not spawned before its delay is over.
use execution_engine_multi.Prelude.{
  ℕ, suc, ◌+◌, ◌≤◌, ◌<◌, ◌≡◌, refl, ap, ◌∙◌, String, ◌==◌, eq_iff, Bool, false, not, Option, none,
  some, is_some, List, [], ◌∷◌, ◌++◌, All, keep, length, arith, Dict, lookup, erase, lookup-erase,
  leb, if◌then◌else◌, if_ind, Bool-cases, Option-cases, inl, inr,
}
use execution_engine_multi.Manager.Supervision.{
  AgentStatus, provisioned, starting, running, degraded, stopping, stopped, crash_loop, error,
  DesiredStatus, wanted, unwanted, Agent, Fleet, System, set_status, start_child, spawn,
  terminate_pid, terminate, pid_of, may_restart, restart, reconcile_as, reconcile_rows, loop_round,
  backoff_delay, notify_crashed,
}
use execution_engine_multi.Manager.Supervision.Window.{
  Crash, record_all, Chronological, last_time, recent_crashes, notify_crashed-IsHandled,
}

-- How often an agent was started.
abbrev pub starts : String → List String → ℕ
starts id spawned = length (keep (λ j. j == id) spawned)

-- The agent waits for the same time, and was not started in between.
pub record StillWaits (id : String) (due : ℕ) (f f' : Fleet) : Type 0 where
  pub waits : lookup id f'.restart_at ≡ some due
  pub not_started : starts id f'.spawned ≡ starts id f.spawned

StillWaits-refl :
    (id : String) (due : ℕ) (f : Fleet) → lookup id f.restart_at ≡ some due → StillWaits id due f f
StillWaits-refl id due f e = record { waits = e; not_started = refl }

StillWaits-trans :
    {id : String} {due : ℕ} {f g h : Fleet}
    → StillWaits id due f g
    → StillWaits id due g h
    → StillWaits id due f h
StillWaits-trans s t = record { waits = t.waits; not_started = t.not_started ∙ s.not_started }

starts-other :
    (id j : String)
    → (j == id) ≡ false
    → (xs : List String) → starts id (xs ++ j ∷ []) ≡ starts id xs
starts-other id j other [] = rw other refl
starts-other id j other (x ∷ xs) = elim (Bool-cases (x == id)) [
  | inl same ↦ rw same (ap suc (starts-other id j other xs))
  | inr differs ↦ rw differs (starts-other id j other xs)
]

module _ (sys : System) (id : String) (due : ℕ) where
  StillWaits-start :
      (j : String) (pid : Option ℕ) (f : Fleet)
      → (j == id) ≡ false
      → lookup id f.restart_at ≡ some due
      → StillWaits id due f (start_child sys j pid f).0
  unfolding start_child
  StillWaits-start j none f other e = StillWaits-refl id due f e
  StillWaits-start j (some pid) f other e = record {
    waits = e;
    not_started = starts-other id j other f.spawned;
  }

  StillWaits-spawn :
      (j : String) (f : Fleet)
      → (j == id) ≡ false
      → lookup id f.restart_at ≡ some due
      → StillWaits id due f (spawn sys j f).0
  unfolding spawn
  StillWaits-spawn j f other e =
      if_ind (λ (p : Fleet × Bool). StillWaits id due f p.0) (not (is_some (lookup j f.agents)))
        (StillWaits-refl id due f e)
        (if_ind (λ (p : Fleet × Bool). StillWaits id due f p.0) (is_some (lookup j f.children))
          (StillWaits-refl id due f e) (StillWaits-start j (sys.popen j) f other e))

  StillWaits-terminate_pid :
      (j : String) (pid : Option ℕ) (f : Fleet)
      → lookup id f.restart_at ≡ some due
      → StillWaits id due f (terminate_pid sys j pid f)
  unfolding terminate_pid
  StillWaits-terminate_pid j none f e = record { waits = e; not_started = refl }
  StillWaits-terminate_pid j (some pid) f e =
      if_ind (StillWaits id due f) (sys.is_identity j pid)
        (record { waits = e; not_started = refl }) (StillWaits-refl id due f e)

  StillWaits-terminate :
      (j : String) (f : Fleet)
      → lookup id f.restart_at ≡ some due
      → StillWaits id due f (terminate sys j f)
  unfolding terminate
  StillWaits-terminate j f e = elim (Option-cases (lookup j f.children)) [
    | inl no_child ↦
        rw (no_child, terminate) (StillWaits-terminate_pid j (pid_of (lookup j f.agents)) f e)
    | inr (pid, child) ↦ rw (child, terminate) (record { waits = e; not_started = refl })
  ]

  attempted :
      (j : String) (f : Fleet)
      → (j == id) ≡ false
      → lookup id f.restart_at ≡ some due
      → let p = spawn sys j (record f { restart_at = erase j f.restart_at }) in
        StillWaits id due f (if p.1 then p.0 else set_status j error p.0)
  attempted j f other e =
      let f' = record f { restart_at = erase j f.restart_at } in
      let e' : lookup id f'.restart_at ≡ some due = lookup-erase j id f.restart_at ∙ rw other e in
      let s = StillWaits-spawn j f' other e' in
      let p = spawn sys j f' in
      if_ind (StillWaits id due f) p.1 (record { waits = s.waits; not_started = s.not_started })
        (record { waits = s.waits; not_started = s.not_started })

  StillWaits-restart :
      (now : ℕ) (j : String) (f : Fleet)
      → now < due
      → lookup id f.restart_at ≡ some due
      → StillWaits id due f (restart now sys j f)
  unfolding restart
  StillWaits-restart now j f early e = elim (Bool-cases (j == id)) [
    | inl same ↦
        let is_id : j ≡ id = (eq_iff j id).0 same in
        let not_due : may_restart now (lookup j f.restart_at) ≡ false =
          ap (λ k. may_restart now (lookup k f.restart_at)) is_id
          ∙ ap (may_restart now) e
          ∙ ground arith in
        rw (not_due, restart) (StillWaits-refl id due f e)
    | inr other ↦
        if_ind (StillWaits id due f) (may_restart now (lookup j f.restart_at))
          (attempted j f other e) (StillWaits-refl id due f e)
  ]

  StillWaits-reconcile :
      (now : ℕ) (j : String) (d : DesiredStatus) (status : AgentStatus) (f : Fleet)
      → now < due
      → lookup id f.restart_at ≡ some due
      → StillWaits id due f (reconcile_as now sys j d status f)
  unfolding reconcile_as
  StillWaits-reconcile now j wanted stopped f early e = StillWaits-restart now j f early e
  StillWaits-reconcile now j wanted provisioned f early e = StillWaits-restart now j f early e
  StillWaits-reconcile now j wanted starting f early e = StillWaits-refl id due f e
  StillWaits-reconcile now j wanted running f early e = StillWaits-refl id due f e
  StillWaits-reconcile now j wanted degraded f early e = StillWaits-refl id due f e
  StillWaits-reconcile now j wanted stopping f early e = StillWaits-refl id due f e
  StillWaits-reconcile now j wanted crash_loop f early e = StillWaits-refl id due f e
  StillWaits-reconcile now j wanted error f early e = StillWaits-refl id due f e
  StillWaits-reconcile now j unwanted running f early e = StillWaits-terminate j f e
  StillWaits-reconcile now j unwanted starting f early e = StillWaits-terminate j f e
  StillWaits-reconcile now j unwanted stopped f early e = StillWaits-refl id due f e
  StillWaits-reconcile now j unwanted provisioned f early e = StillWaits-refl id due f e
  StillWaits-reconcile now j unwanted degraded f early e = StillWaits-refl id due f e
  StillWaits-reconcile now j unwanted stopping f early e = StillWaits-refl id due f e
  StillWaits-reconcile now j unwanted crash_loop f early e = StillWaits-refl id due f e
  StillWaits-reconcile now j unwanted error f early e = StillWaits-refl id due f e

  StillWaits-rows :
      (now : ℕ) (rows : Dict Agent) (f : Fleet)
      → now < due
      → lookup id f.restart_at ≡ some due
      → StillWaits id due f (reconcile_rows now sys rows f)
  unfolding reconcile_rows
  StillWaits-rows now [] f early e = StillWaits-refl id due f e
  StillWaits-rows now ((j, agent) ∷ rows) f early e =
      let s = StillWaits-reconcile now j agent.desired agent.status f early e in
      StillWaits-trans s (
        StillWaits-rows now rows (reconcile_as now sys j agent.desired agent.status f) early
          s.waits)

-- The rounds of the loop at some times.
abbrev pub ticks : List (ℕ × System) → Fleet → Fleet
ticks [] f = f
ticks ((now, sys) ∷ rounds) f = ticks rounds (loop_round now sys f)

StillWaits-ticks :
    (id : String) (due : ℕ) (rounds : List (ℕ × System)) (f : Fleet)
    → All (λ round. round.0 < due) rounds
    → lookup id f.restart_at ≡ some due
    → StillWaits id due f (ticks rounds f)
unfolding loop_round
StillWaits-ticks id due [] f early e = StillWaits-refl id due f e
StillWaits-ticks id due ((now, sys) ∷ rounds) f early e =
    let s = StillWaits-rows sys id due now f.agents f early.0 e in
    StillWaits-trans s (StillWaits-ticks id due rounds (loop_round now sys f) early.1 s.waits)

-- After the crash of an agent that should run, other than the fifth in five minutes, no round of the
-- supervisor before the end of the delay starts the agent, whatever it does to other agents.
pub crash-StillWaits :
    (h : List Crash) (now : ℕ) (id : String) (agent : Agent) (f : Fleet)
    (rounds : List (ℕ × System))
    → f.crashes ≡ record_all [] h
    → Chronological 0 h
    → last_time 0 h ≤ now
    → lookup id f.agents ≡ some agent
    → agent.desired ≡ wanted
    → recent_crashes now id h < 5
    → All (λ round. round.0 < now + backoff_delay (recent_crashes now id h)) rounds
    → starts id (ticks rounds (notify_crashed now id f)).spawned
      ≡ starts id (notify_crashed now id f).spawned
crash-StillWaits h now id agent f rounds crashes order le row desired few early =
    let handled = notify_crashed-IsHandled h now id agent f crashes order le row desired in
    let below : leb 5 (recent_crashes now id h) ≡ false = ground arith in
    let waits : lookup id (notify_crashed now id f).restart_at
        ≡ some (now + backoff_delay (recent_crashes now id h)) =
      handled.waits ∙ rw below refl in
    (StillWaits-ticks id (now + backoff_delay (recent_crashes now id h)) rounds
      (notify_crashed now id f) early waits).not_started
