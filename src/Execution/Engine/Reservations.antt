-- ===== src/Execution/Engine/Reservations.antt =====
-- A call of `execute` gives back what it reserved, on every path.
mod Returned
use execution_engine_multi.Prelude.{
  ◌≡◌, refl, sym, ap, ◌∙◌, Bool, true, false, Option, none, some, member, set_add, discard,
  if◌then◌else◌, ◌||◌, if_ind, not, or_default, subst,
}
use execution_engine_multi.Prelude.Python.{Python}
use execution_engine_multi.Config.{RiskConfig, ExecutionConfig}
use execution_engine_multi.Domain.Signal.{InboundSignal}
use execution_engine_multi.Domain.Position.{AccountInfo, SymbolInfo}
use execution_engine_multi.Domain.Trade.{Trade}
use execution_engine_multi.Risk.Engine.{
  RiskDecision, no_rules, rejected, approved, evaluate, all_rules, risk_multiplier,
}
use execution_engine_multi.Risk.Rules.Context.{Trackers}
use execution_engine_multi.Execution.State.{
  EngineState, Answers, Step, ◌>>=◌, broker_unavailable, duplicate_signal, risk_rejected,
  trade_error, count_up, reserve, go_on,
}
use execution_engine_multi.Execution.State.Pending.{IsCounted, count_down-count_up, discard-set_add}
use execution_engine_multi.Execution.Engine.{
  symbol_of, check_persistence, check_age, fetch_broker, is_duplicate, risk_context, admit, decide,
  is_stale, actionable_signal_at, stop_with, check_risk, place, execute,
}
use execution_engine_multi.Execution.Engine.Reservations.Returned.{held, let_go, place-held}

or_false_left : (a b : Bool) → (a || b) ≡ false → a ≡ false
or_false_left true b e = e
or_false_left false b e = refl

module _ {F : Type 0} ⦃py : Python F⦄ where
  kept :
      (s : InboundSignal F) (st : EngineState F)
      → IsCounted st.pending
      → is_duplicate s.id st ≡ false
      → let_go s (count_up (symbol_of s) st.pending, set_add s.id st.pending_signal_ids) ≡ held st
  unfolding is_duplicate
  kept s st ok new =
      let ids =
        discard-set_add s.id st.pending_signal_ids
          (or_false_left (member s.id st.pending_signal_ids) _ new) in
      ap (λ p. (p, discard s.id (set_add s.id st.pending_signal_ids)))
        (count_down-count_up (symbol_of s) st.pending ok)
      ∙ ap (λ xs. (st.pending, xs)) ids

  -- What comes after `evaluate`.
  decided-held :
      (cfg : ExecutionConfig F) (a : Answers F) (s : InboundSignal F) (account : AccountInfo F)
      (si : SymbolInfo F) (st : EngineState F)
      → IsCounted st.pending
      → is_duplicate s.id st ≡ false
      → (d : RiskDecision F) → held ((decide a s d >>= place cfg a s account si) st).0 ≡ held st
  unfolding decide admit reserve
  decided-held cfg a s account si st ok new no_rules = refl
  decided-held cfg a s account si st ok new (rejected why) = refl
  decided-held cfg a s account si st ok new (approved found) =
      place-held cfg a s account si (risk_multiplier found) (admit a s found st).0
      ∙ kept s st ok new

  Restores : {A : Type 0} → Step F A → Type 0
  Restores m = (st : EngineState F) → IsCounted st.pending → held (m st).0 ≡ held st

  Restores-bind :
      {A B : Type 0} (m : Step F A) (k : A → Step F B)
      → Restores m
      → ((x : A) → Restores (k x))
      → Restores (m >>= k)
  unfolding Restores
  Restores-bind {A} m k one two st ok = by_result (m st) (one st ok)
    where
      by_result :
          (p : EngineState F × Option A)
          → held p.0 ≡ held st
          → held (((λ _. p) >>= k) st).0 ≡ held st
      by_result (st', none) e = e
      by_result (st', some x) e = two x st' (subst (λ h. IsCounted h.0) (sym e) ok) ∙ e

  Restores-check_persistence :
      (a : Answers F) (s : InboundSignal F) → Restores (check_persistence a s)
  unfolding Restores check_persistence
  Restores-check_persistence a s st ok =
      if_ind (λ (p : EngineState F × Option (Unit {0})). held p.0 ≡ held st)
        (not st.persistence_available || not (or_default a.health true)) refl refl

  Restores-check_age :
      (cfg : ExecutionConfig F) (a : Answers F) (s : InboundSignal F) → Restores (check_age cfg a s)
  unfolding Restores check_age
  Restores-check_age cfg a s st ok =
      if_ind (λ (p : EngineState F × Option (Unit {0})). held p.0 ≡ held st)
        (is_stale cfg a.pipeline_start (actionable_signal_at s)) refl refl

  Restores-fetch_broker : (a : Answers F) (s : InboundSignal F) → Restores (fetch_broker a s)
  unfolding Restores fetch_broker
  Restores-fetch_broker a s st ok = by_answer a.broker
    where
      by_answer :
          (b : Option (AccountInfo F × SymbolInfo F))
          → held
              ((elim b as (λ _. Step F (AccountInfo F × SymbolInfo F)) [
                | none ↦ stop_with (trade_error s.id broker_unavailable)
                | some state ↦ go_on state
              ])
                st).0
            ≡ held st
      by_answer none = refl
      by_answer (some state) = refl

  Restores-from_risk :
      (config : RiskConfig F) (cfg : ExecutionConfig F) (a : Answers F) (s : InboundSignal F)
      (account : AccountInfo F) (si : SymbolInfo F)
      → Restores (check_risk config a s si >>= place cfg a s account si)
  unfolding Restores check_risk is_duplicate
  Restores-from_risk config cfg a s account si st ok = by_test (is_duplicate s.id st) refl
    where
      verdict : Trackers F × RiskDecision F
      verdict = evaluate all_rules (risk_context config a s si st) st.trackers

      st' : EngineState F
      st' = record st { trackers = verdict.0 }

      by_test :
          (b : Bool)
          → is_duplicate s.id st ≡ b
          → held
              (((λ (_ : EngineState F).
                    if b
                    then stop_with (risk_rejected s.id duplicate_signal) st
                    else decide a s verdict.1 st')
                  >>= place cfg a s account si)
                st).0
            ≡ held st
      by_test true dup = refl
      by_test false new = decided-held cfg a s account si st' ok new verdict.1

  execute-held :
      (config : RiskConfig F) (cfg : ExecutionConfig F) (a : Answers F) (s : InboundSignal F)
      (st : EngineState F)
      → IsCounted st.pending
      → held (execute config cfg a s st).0 ≡ held st
  unfolding execute Restores
  execute-held config cfg a s = whole
    where
      s' : InboundSignal F
      s' = record s { execution_started_at = some a.pipeline_start }

      from_broker : AccountInfo F × SymbolInfo F → Step F (Trade F)
      from_broker state = check_risk config a s' state.1 >>= place cfg a s' state.0 state.1

      from_age : Unit {0} → Step F (Trade F)
      from_age _ = fetch_broker a s' >>= from_broker

      from_start : Unit {0} → Step F (Trade F)
      from_start _ = check_age cfg a s' >>= from_age

      whole : Restores (check_persistence a s' >>= from_start)
      whole =
          Restores-bind (check_persistence a s') from_start (Restores-check_persistence a s') (λ _.
            Restores-bind (check_age cfg a s') from_age (Restores-check_age cfg a s') (λ _.
              Restores-bind (fetch_broker a s') from_broker (Restores-fetch_broker a s')
                (λ state. Restores-from_risk config cfg a s' state.0 state.1)))

  -- A call of `execute` on counts without a zero leaves the counts of pending trades and the set of
  -- pending signal ids as it found them, whatever the collaborators answer and wherever it ends.
  pub execute_gives_back :
      (config : RiskConfig F) (cfg : ExecutionConfig F) (a : Answers F) (s : InboundSignal F)
      (st : EngineState F)
      → IsCounted st.pending
      → let st' = (execute config cfg a s st).0 in
        (st'.pending ≡ st.pending) × (st'.pending_signal_ids ≡ st.pending_signal_ids)
  execute_gives_back config cfg a s st ok =
      let e = execute-held config cfg a s st ok in (ap (λ h. h.0) e, ap (λ h. h.1) e)
