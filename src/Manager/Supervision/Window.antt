-- ===== src/Manager/Supervision/Window.antt =====
-- When an agent counts as crashing in a loop.
use execution_engine_multi.Prelude.{
  ℕ, ◌+◌, ◌≤◌, ◌≡◌, refl, sym, ap, subst, ◌∙◌, String, ◌==◌, eq_iff, Bool, true, false, ◌&&◌,
  Option, none, some, List, [], ◌∷◌, ◌++◌, append-nil, append_assoc, keep, arith, Dict, lookup,
  insert, lookup-insert, leb, ltb, if◌then◌else◌, Bool-cases, inl, inr,
}
use execution_engine_multi.Manager.Supervision.{
  crash_loop, DesiredStatus, wanted, unwanted, Agent, Fleet, change_agent, is_recent, count_of,
  record_crash, increment_crash_count, backoff_delay, after_crash, crashed_as, notify_crashed,
}

abbrev pub Crash : Type 0
Crash = String × ℕ

-- The rows after crashes that were recorded in this order.
abbrev pub record_all : List Crash → List Crash → List Crash
record_all rows [] = rows
record_all rows ((id, now) ∷ later) = record_all (record_crash now id rows) later

-- The times do not go back.
abbrev pub Chronological : ℕ → List Crash → Type 0
Chronological start [] = Unit
Chronological start ((id, now) ∷ later) = (start ≤ now) × Chronological now later

abbrev pub last_time : ℕ → List Crash → ℕ
last_time start [] = start
last_time start ((id, now) ∷ later) = last_time now later

keep-append : (p : Crash → Bool) (xs ys : List Crash) → keep p (xs ++ ys) ≡ keep p xs ++ keep p ys
keep-append p [] ys = refl
keep-append p (x ∷ xs) ys = elim (Bool-cases (p x)) [
  | inl stays ↦ rw (stays, keep-append p xs ys) refl
  | inr goes ↦ rw (goes, keep-append p xs ys) refl
]

-- A later window drops what an earlier one dropped.
keep-keep :
    (t now : ℕ)
    → t ≤ now
    → (rows : List Crash)
    → keep (is_recent now) (keep (is_recent t) rows) ≡ keep (is_recent now) rows
keep-keep t now le [] = refl
keep-keep t now le ((id, at) ∷ rows) = ground (arith, keep-keep t now le rows)

record_crash-window :
    (t now : ℕ) (id : String) (before rows : List Crash)
    → t ≤ now
    → rows ≡ keep (is_recent t) before
    → record_crash now id rows ≡ keep (is_recent now) (before ++ (id, now) ∷ [])
unfolding record_crash
record_crash-window t now id before rows le e =
    ap (λ xs. keep (is_recent now) (xs ++ (id, now) ∷ [])) e
    ∙ keep-append (is_recent now) (keep (is_recent t) before) ((id, now) ∷ [])
    ∙ ap (λ xs. xs ++ keep (is_recent now) ((id, now) ∷ [])) (keep-keep t now le before)
    ∙ sym (keep-append (is_recent now) before ((id, now) ∷ []))

record_all-window :
    (t : ℕ) (before : List Crash) (rows : List Crash) (later : List Crash)
    → rows ≡ keep (is_recent t) before
    → Chronological t later
    → record_all rows later ≡ keep (is_recent (last_time t later)) (before ++ later)
record_all-window t before rows [] e order = e ∙ ap (keep (is_recent t)) (sym (append-nil before))
record_all-window t before rows ((id, now) ∷ later) e (le, order) =
    record_all-window now (before ++ (id, now) ∷ []) (record_crash now id rows) later
      (record_crash-window t now id before rows le e) order
    ∙ ap (keep (is_recent (last_time now later))) (append_assoc before ((id, now) ∷ []) later)

record_all-append :
    (rows h : List Crash) (id : String) (now : ℕ)
    → record_all rows (h ++ (id, now) ∷ []) ≡ record_crash now id (record_all rows h)
record_all-append rows [] id now = refl
record_all-append rows ((j, t) ∷ h) id now = record_all-append (record_crash t j rows) h id now

Chronological-append :
    (start : ℕ) (h : List Crash) (id : String) (now : ℕ)
    → Chronological start h
    → last_time start h ≤ now
    → Chronological start (h ++ (id, now) ∷ [])
Chronological-append start [] id now order le = (le, tt)
Chronological-append start ((j, t) ∷ h) id now (first, order) le =
    (first, Chronological-append t h id now order le)

last_time-append :
    (start : ℕ) (h : List Crash) (id : String) (now : ℕ)
    → last_time start (h ++ (id, now) ∷ []) ≡ now
last_time-append start [] id now = refl
last_time-append start ((j, t) ∷ h) id now = last_time-append t h id now

-- The crashes of an agent in the last five minutes, with the one of now.
abbrev pub recent_crashes : ℕ → String → List Crash → ℕ
recent_crashes now id h = count_of id (keep (is_recent now) (h ++ (id, now) ∷ []))

count-recent :
    (h : List Crash) (id : String) (now : ℕ)
    → Chronological 0 h
    → last_time 0 h ≤ now
    → count_of id (record_crash now id (record_all [] h)) ≡ recent_crashes now id h
count-recent h id now order le = ap (count_of id) (
    sym (record_all-append [] h id now)
    ∙ record_all-window 0 [] [] (h ++ (id, now) ∷ []) refl
        (Chronological-append 0 h id now order le)
    ∙ ap (λ t. keep (is_recent t) (h ++ (id, now) ∷ [])) (last_time-append 0 h id now))

abbrev pub change_found : (Agent → Agent) → Option Agent → Option Agent
change_found change none = none
change_found change (some agent) = some (change agent)

pub lookup-change_agent :
    (id : String) (change : Agent → Agent) (d : Dict Agent)
    → lookup id (change_agent id change d) ≡ change_found change (lookup id d)
unfolding change_agent
lookup-change_agent id change [] = refl
lookup-change_agent id change ((j, agent) ∷ d) = elim (Bool-cases (j == id)) [
  | inl hit ↦ rw hit refl
  | inr miss ↦ rw (miss, lookup) (lookup-change_agent id change d)
]

insert_self : (id : String) (at : ℕ) (d : Dict ℕ) → lookup id (insert id at d) ≡ some at
insert_self id at d = lookup-insert id id at d ∙ rw ((eq_iff id id).1 refl) refl

-- What a crash leads to: the loop is noted, or the next start is put off.
pub record IsHandled (now n : ℕ) (id : String) (agent : Agent) (f f' : Fleet) : Type 0 where
  pub row :
      lookup id f'.agents
      ≡ some (record agent {
        status = if leb 5 n then crash_loop else agent.status;
        crash_count = n;
        last_crash_at = some now;
      })
  pub waits :
      lookup id f'.restart_at
      ≡ (if leb 5 n then lookup id f.restart_at else some (now + backoff_delay n))

after_crash-IsHandled :
    (now n : ℕ) (id : String) (agent : Agent) (f f' : Fleet)
    → lookup id f'.agents ≡ some (record agent { crash_count = n; last_crash_at = some now })
    → f'.restart_at ≡ f.restart_at
    → IsHandled now n id agent f (after_crash now id n f')
after_crash-IsHandled now n id agent f f' row waits = elim (Bool-cases (leb 5 n)) [
  | inl many ↦
      let loops : (leb 5 n && ltb now (now + 300000)) ≡ true = ground (arith, many) in
      rw (loops, after_crash)
        (record {
          row = rw many (
              lookup-change_agent id (λ a. record a { status = crash_loop }) f'.agents
              ∙ ap (change_found (λ a. record a { status = crash_loop })) row);
          waits = rw many (ap (lookup id) waits);
        })
  | inr few ↦
      let goes_on : (leb 5 n && ltb now (now + 300000)) ≡ false = ground (arith, few) in
      rw (goes_on, after_crash)
        (record {
          row = rw few row;
          waits = rw few (insert_self id (now + backoff_delay n) f'.restart_at);
        })
]

increment-row :
    (now : ℕ) (id : String) (agent : Agent) (f : Fleet)
    → lookup id f.agents ≡ some agent
    → lookup id (increment_crash_count now id f).agents
      ≡ some (record agent {
        crash_count = count_of id (record_crash now id f.crashes);
        last_crash_at = some now;
      })
unfolding increment_crash_count
increment-row now id agent f e = lookup-change_agent id _ f.agents ∙ ap (change_found _) e

crashed_as-IsHandled :
    (now : ℕ) (id : String) (agent : Agent) (d : DesiredStatus) (f : Fleet)
    → d ≡ wanted
    → lookup id f.agents ≡ some agent
    → IsHandled now (count_of id (record_crash now id f.crashes)) id agent f (crashed_as now id d f)
unfolding crashed_as increment_crash_count
crashed_as-IsHandled now id agent unwanted f e row = cc
crashed_as-IsHandled now id agent wanted f e row =
    after_crash-IsHandled now (count_of id (record_crash now id f.crashes)) id agent f
      (increment_crash_count now id f) (increment-row now id agent f row) refl

-- An agent that should run and whose process ends: its row goes into the crash loop exactly if the
-- crashes of this agent in the last five minutes, with this one, are at least five, whatever the
-- crashes before and those of other agents were. Otherwise its status stays, and it may be spawned
-- again only after the delay for this number.
pub notify_crashed-IsHandled :
    (h : List Crash) (now : ℕ) (id : String) (agent : Agent) (f : Fleet)
    → f.crashes ≡ record_all [] h
    → Chronological 0 h
    → last_time 0 h ≤ now
    → lookup id f.agents ≡ some agent
    → agent.desired ≡ wanted
    → IsHandled now (recent_crashes now id h) id agent f (notify_crashed now id f)
unfolding notify_crashed
notify_crashed-IsHandled h now id agent f crashes order le row desired =
    let n =
      ap (λ rows. count_of id (record_crash now id rows)) crashes
      ∙ count-recent h id now order le in
    rw (row, notify_crashed)
      (subst (λ n. IsHandled now n id agent f (crashed_as now id agent.desired f)) n
        (crashed_as-IsHandled now id agent agent.desired f desired row))
