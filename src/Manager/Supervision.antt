-- ===== src/Manager/Supervision.antt =====
-- manager/app/desired_state.py: `DesiredStateSupervisor`, on the tables `agents` and `agent_crashes` of
-- manager/app/registry.py and on `spawn`, `terminate` and `_watch_process` of
-- manager/app/process_supervisor.py. Times are milliseconds. The rows of the agents are a dict from
-- their ids, in the order of `list_agents`. A child that has exited is no longer in `children`. What
-- the operating system and the file system answer are arguments.
pub mod Backoff
pub mod Window
use execution_engine_multi.Prelude.{
  ℕ, ◌+◌, ◌-◌, String, ◌==◌, Bool, true, false, not, ◌&&◌, Option, none, some, is_some, List, [],
  ◌∷◌, ◌++◌, keep, length, Dict, lookup, insert, erase, leb, ltb, if◌then◌else◌,
}

pub data AgentStatus : Type 0 where
  provisioned starting running degraded stopping stopped crash_loop error : AgentStatus

-- `desired_status`, which is "running" or "stopped".
pub data DesiredStatus : Type 0 where
  wanted unwanted : DesiredStatus

-- The columns of `AgentRegistration` that are used here.
pub record Agent : Type 0 where
  pub status : AgentStatus
  pub desired : DesiredStatus
  pub pid : Option ℕ
  pub crash_count : ℕ
  pub last_crash_at : Option ℕ

pub record Fleet : Type 0 where
  pub agents : Dict Agent
  pub crashes : List (String × ℕ)
  pub restart_at : Dict ℕ
  pub children : Dict ℕ
  -- The processes that were started and the ids that were sent a signal.
  pub spawned : List String
  pub killed : List ℕ

-- What the system answers: the pid of a new process, `none` where `spawn` raises on its way to it,
-- and whether a pid belongs to the agent.
pub record System : Type 0 where
  pub popen : String → Option ℕ
  pub is_identity : String → ℕ → Bool

-- `UPDATE agents SET ... WHERE agent_id=?`
pub change_agent : String → (Agent → Agent) → Dict Agent → Dict Agent
change_agent id change [] = []
change_agent id change ((j, agent) ∷ rest) =
    (j, if j == id then change agent else agent) ∷ change_agent id change rest

abbrev pub set_status : String → AgentStatus → Fleet → Fleet
set_status id status f = record f {
  agents = change_agent id (λ agent. record agent { status = status }) f.agents;
}

abbrev set_status_pid : String → AgentStatus → Option ℕ → Fleet → Fleet
set_status_pid id status pid f = record f {
  agents = change_agent id (λ agent. record agent { status = status; pid = pid }) f.agents;
}

abbrev pub crash_window : ℕ
crash_window = 300000

abbrev pub is_recent : ℕ → String × ℕ → Bool
is_recent now crash = leb (now - crash_window) crash.1

-- The crashes of an agent among the rows.
abbrev pub count_of : String → List (String × ℕ) → ℕ
count_of id rows = length (keep (λ crash. crash.0 == id) rows)

-- The INSERT and the DELETE of `increment_crash_count`.
unfoldable pub record_crash : ℕ → String → List (String × ℕ) → List (String × ℕ)
record_crash now id rows = keep (is_recent now) (rows ++ (id, now) ∷ [])

-- `increment_crash_count`
increment_crash_count : ℕ → String → Fleet → Fleet
unfolding record_crash change_agent
increment_crash_count now id f =
    let rows = record_crash now id f.crashes in
    record f {
      crashes = rows;
      agents =
          change_agent id
            (λ agent. record agent { crash_count = count_of id rows; last_crash_at = some now })
            f.agents;
    }

-- `reset_crash_count`
reset_crash_count : String → Fleet → Fleet
unfolding change_agent
reset_crash_count id f = record f {
  crashes = keep (λ crash. not (crash.0 == id)) f.crashes;
  agents =
      change_agent id (λ agent. record agent { crash_count = 0; last_crash_at = none }) f.agents;
}

abbrev pub crash_threshold : ℕ
crash_threshold = 5

-- `_BACKOFF_DELAYS[min(crash_count - 1, len(_BACKOFF_DELAYS) - 1)]`, for a positive count.
unfoldable pub backoff_delay : ℕ → ℕ
backoff_delay count =
    if leb count 1
    then 5000
    else if leb count 2
    then 10000
    else if leb count 3
    then 20000
    else if leb count 4
    then 60000
    else 120000

-- The end of `notify_crashed`: `last_crash > window_start` is tested for the crash of just now.
abbrev pub after_crash : ℕ → String → ℕ → Fleet → Fleet
after_crash now id count f =
    if leb crash_threshold count && ltb now (now + crash_window)
    then set_status id crash_loop f
    else record f { restart_at = insert id (now + backoff_delay count) f.restart_at }

crashed_as : ℕ → String → DesiredStatus → Fleet → Fleet
unfolding increment_crash_count backoff_delay
crashed_as now id unwanted f = f
crashed_as now id wanted f =
    after_crash now id (count_of id (record_crash now id f.crashes))
      (increment_crash_count now id f)

-- `notify_crashed`
unfoldable pub notify_crashed : ℕ → String → Fleet → Fleet
unfolding crashed_as
notify_crashed now id f = elim (lookup id f.agents) [
  | none ↦ f
  | some agent ↦ crashed_as now id agent.desired f
]

-- `reset_crash_loop`
pub reset_crash_loop : String → Fleet → Fleet
unfolding reset_crash_count change_agent
reset_crash_loop id f =
    let f' = reset_crash_count id f in
    record f' {
      agents =
          change_agent id (λ agent. record agent { status = stopped; desired = unwanted })
            f'.agents;
      restart_at = erase id f'.restart_at;
    }

-- `spawn` of an agent with a row and no live child; `false` where it raises.
start_child : System → String → Option ℕ → Fleet → Fleet × Bool
start_child sys id none f = (f, false)
start_child sys id (some pid) f = (
  set_status_pid id starting (some pid)
      (record f { children = insert id pid f.children; spawned = f.spawned ++ id ∷ [] }),
  true,
)

-- `spawn`
pub spawn : System → String → Fleet → Fleet × Bool
unfolding start_child change_agent
spawn sys id f =
    if not (is_some (lookup id f.agents))
    then (f, false)
    else if is_some (lookup id f.children)
    then (f, true)
    else start_child sys id (sys.popen id) f

-- `terminate` of an agent without a child.
terminate_pid : System → String → Option ℕ → Fleet → Fleet
terminate_pid sys id none f = set_status_pid id stopped none f
terminate_pid sys id (some pid) f =
    if sys.is_identity id pid
    then set_status_pid id stopped none (record f { killed = f.killed ++ pid ∷ [] })
    else f

abbrev pid_of : Option Agent → Option ℕ
pid_of none = none
pid_of (some agent) = agent.pid

-- `terminate`; a failure is logged by its caller and changes nothing.
pub terminate : System → String → Fleet → Fleet
unfolding terminate_pid change_agent
terminate sys id f = elim (lookup id f.children) [
  | some pid ↦ set_status id stopping (record f { killed = f.killed ++ pid ∷ [] })
  | none ↦ terminate_pid sys id (pid_of (lookup id f.agents)) f
]

-- `_should_restart`, as the time that is waited for.
abbrev pub may_restart : ℕ → Option ℕ → Bool
may_restart now none = true
may_restart now (some earliest) = leb earliest now

-- The call of `spawn` in `_reconcile`, and its handler.
restart : ℕ → System → String → Fleet → Fleet
unfolding spawn
restart now sys id f =
    if may_restart now (lookup id f.restart_at)
    then (let (f', is_started) = spawn sys id (record f { restart_at = erase id f.restart_at }) in
        if is_started then f' else set_status id error f')
    else f

-- `_reconcile` on the two columns of a row.
reconcile_as : ℕ → System → String → DesiredStatus → AgentStatus → Fleet → Fleet
unfolding restart terminate
reconcile_as now sys id wanted stopped f = restart now sys id f
reconcile_as now sys id wanted provisioned f = restart now sys id f
reconcile_as now sys id wanted _ f = f
reconcile_as now sys id unwanted running f = terminate sys id f
reconcile_as now sys id unwanted starting f = terminate sys id f
reconcile_as now sys id unwanted _ f = f

-- One round of `_loop` over the rows that it listed.
unfoldable pub reconcile_rows : ℕ → System → Dict Agent → Fleet → Fleet
unfolding reconcile_as
reconcile_rows now sys [] f = f
reconcile_rows now sys ((id, agent) ∷ rows) f =
    reconcile_rows now sys rows (reconcile_as now sys id agent.desired agent.status f)

unfoldable pub loop_round : ℕ → System → Fleet → Fleet
unfolding reconcile_rows
loop_round now sys f = reconcile_rows now sys f.agents f

has_stopped : AgentStatus → Bool
has_stopped stopped = true
has_stopped _ = false

-- The row of an agent whose process has exited; one that is stopped already stays as it is.
abbrev exited : Agent → Agent
exited agent =
    if has_stopped agent.status then agent else record agent { status = stopped; pid = none }

-- `_watch_process` after the exit of a child, with `_on_agent_stopped`.
pub watch_exit : ℕ → String → Fleet → Fleet
unfolding notify_crashed change_agent has_stopped
watch_exit now id f =
    notify_crashed now id
      (record f { children = erase id f.children; agents = change_agent id exited f.agents })
