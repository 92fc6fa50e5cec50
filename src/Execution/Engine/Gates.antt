-- ===== src/Execution/Engine/Gates.antt =====
-- What a call of `execute` must pass before it sends an order.
pub mod Sending
use execution_engine_multi.Prelude.{
  ◌+◌, ◌≡◌, refl, Bool, true, false, Option, none, some, [], ◌∷◌, arith, if◌then◌else◌, is_some,
  ◌||◌, ◌&&◌, not, or_default,
}
use execution_engine_multi.Prelude.Python.{Python}
use execution_engine_multi.Config.{RiskConfig, ExecutionConfig}
use execution_engine_multi.Domain.Signal.{InboundSignal}
use execution_engine_multi.Domain.Position.{AccountInfo, SymbolInfo}
use execution_engine_multi.Domain.Trade.{Trade}
use execution_engine_multi.Risk.Engine.{
  RiskDecision, no_rules, rejected, approved, evaluate, all_rules, risk_multiplier,
}
use execution_engine_multi.Risk.Rules.Context.{Trackers}
use execution_engine_multi.Execution.State.{
  EngineState, Answers, Step, ◌>>=◌, trade_error, go_on, risk, risk_rejected,
  persistence_unavailable, duplicate_signal, stale_signal, broker_unavailable, reserve,
}
use execution_engine_multi.Execution.Engine.{
  check_persistence, check_age, fetch_broker, is_duplicate, risk_context, admit, decide, check_risk,
  place, execute, is_stale, actionable_signal_at, started, stop_with,
}
use execution_engine_multi.Execution.Engine.Gates.Sending.{one_if, orders, quiet, place-orders}

module _ {F : Type 0} ⦃py : Python F⦄ where
  -- The risk engine approves, and there is a plan for the approved multiplier.
  abbrev is_planned :
      Answers F → InboundSignal F → AccountInfo F → SymbolInfo F → RiskDecision F → Bool
  is_planned a s account si no_rules = false
  is_planned a s account si (rejected why) = false
  is_planned a s account si (approved found) = is_some (a.plan s account si (risk_multiplier found))

  abbrev is_admitted :
      RiskConfig F
      → Answers F
      → InboundSignal F
      → EngineState F
      → AccountInfo F × SymbolInfo F
      → Bool
  is_admitted config a s st (account, si) =
      not (is_duplicate s.id st)
      && is_planned a s account si
          (evaluate all_rules (risk_context config a s si st) st.trackers).1

  -- The gates before an order.
  abbrev pub is_clear :
      RiskConfig F → ExecutionConfig F → Answers F → InboundSignal F → EngineState F → Bool
  is_clear config cfg a s st =
      st.persistence_available
      && or_default a.health true
      && not (is_stale cfg a.pipeline_start (actionable_signal_at s))
      && elim a.broker [ none ↦ false | some state ↦ is_admitted config a s st state ]

  decided-orders :
      (cfg : ExecutionConfig F) (a : Answers F) (s : InboundSignal F) (account : AccountInfo F)
      (si : SymbolInfo F) (st : EngineState F) (d : RiskDecision F)
      → orders ((decide a s d >>= place cfg a s account si) st).0.trace
        ≡ orders st.trace + one_if (is_planned a s account si d)
  unfolding decide admit reserve
  decided-orders cfg a s account si st no_rules = ground arith
  decided-orders cfg a s account si st (rejected why) =
      let e = quiet st.trace (risk_rejected s.id (risk why) ∷ []) refl in ground (arith, e)
  decided-orders cfg a s account si st (approved found) =
      place-orders cfg a s account si (risk_multiplier found) (admit a s found st).0

  from_risk-orders :
      (config : RiskConfig F) (cfg : ExecutionConfig F) (a : Answers F) (s : InboundSignal F)
      (state : AccountInfo F × SymbolInfo F) (st : EngineState F)
      → orders ((check_risk config a s state.1 >>= place cfg a s state.0 state.1) st).0.trace
        ≡ orders st.trace + one_if (is_admitted config a s st state)
  unfolding check_risk
  from_risk-orders config cfg a s (account, si) st = by_test (is_duplicate s.id st)
    where
      verdict : Trackers F × RiskDecision F
      verdict = evaluate all_rules (risk_context config a s si st) st.trackers

      by_test :
          (b : Bool)
          → orders
              (((λ (_ : EngineState F).
                    if b
                    then stop_with (risk_rejected s.id duplicate_signal) st
                    else decide a s verdict.1 (record st { trackers = verdict.0 }))
                  >>= place cfg a s account si)
                st).0.trace
            ≡ orders st.trace + one_if (not b && is_planned a s account si verdict.1)
      by_test true =
          let e = quiet st.trace (risk_rejected s.id duplicate_signal ∷ []) refl in
          ground (arith, e)
      by_test false =
          decided-orders cfg a s account si (record st { trackers = verdict.0 }) verdict.1

  from_broker-orders :
      (config : RiskConfig F) (cfg : ExecutionConfig F) (a : Answers F) (s : InboundSignal F)
      (st : EngineState F)
      → orders
          ((fetch_broker a s >>= λ state.
              check_risk config a s state.1 >>= place cfg a s state.0 state.1)
            st).0.trace
        ≡ orders st.trace
          + one_if (elim a.broker [ none ↦ false | some state ↦ is_admitted config a s st state ])
  unfolding fetch_broker
  from_broker-orders config cfg a s st = by_answer a.broker
    where
      by_answer :
          (b : Option (AccountInfo F × SymbolInfo F))
          → orders
              ((elim b as (λ _. Step F (AccountInfo F × SymbolInfo F)) [
                | none ↦ stop_with (trade_error s.id broker_unavailable)
                | some state ↦ go_on state
              ]
                  >>= λ state. check_risk config a s state.1 >>= place cfg a s state.0 state.1)
                st).0.trace
            ≡ orders st.trace
              + one_if (elim b as (λ _. Bool) [
                | none ↦ false
                | some state ↦ is_admitted config a s st state
              ])
      by_answer none =
          let e = quiet st.trace (trade_error s.id broker_unavailable ∷ []) refl in
          ground (arith, e)
      by_answer (some state) = from_risk-orders config cfg a s state st

  -- A call of `execute` sends exactly one order if the signal passes every gate (the persistence
  -- flag and its health check, the age, the broker's answer, the check for duplicates, the verdict
  -- of the risk engine, the plan), and no order if it fails one of them.
  pub execute-orders :
      (config : RiskConfig F) (cfg : ExecutionConfig F) (a : Answers F) (s : InboundSignal F)
      (st : EngineState F)
      → orders (execute config cfg a s st).0.trace
        ≡ orders st.trace + (if is_clear config cfg a (started a s) st then 1 else 0)
  unfolding execute check_persistence check_age
  execute-orders config cfg a s st = by_health st.persistence_available (or_default a.health true)
    where
      s' : InboundSignal F
      s' = started a s

      late : Bool
      late = is_stale cfg a.pipeline_start (actionable_signal_at s')

      from_broker : Unit {0} → Step F (Trade F)
      from_broker _ = fetch_broker a s' >>= λ state.
          check_risk config a s' state.1 >>= place cfg a s' state.0 state.1

      admitted : Bool
      admitted = elim a.broker [ none ↦ false | some state ↦ is_admitted config a s' st state ]

      by_age :
          (b : Bool)
          → orders
              (((λ st'.
                    if b then stop_with (risk_rejected s'.id stale_signal) st' else go_on tt st')
                  >>= from_broker)
                st).0.trace
            ≡ orders st.trace + one_if (not b && admitted)
      by_age true =
          let e = quiet st.trace (risk_rejected s'.id stale_signal ∷ []) refl in ground (arith, e)
      by_age false = from_broker-orders config cfg a s' st

      by_health :
          (p h : Bool)
          → orders
              (((λ st'.
                    if not p || not h
                    then stop_with
                        (risk_rejected s'.id persistence_unavailable)
                        (record st' { persistence_available = false })
                    else go_on tt st')
                  >>= λ _. check_age cfg a s' >>= from_broker)
                st).0.trace
            ≡ orders st.trace + one_if (p && h && not late && admitted)
      by_health true true = by_age late
      by_health true false =
          let e = quiet st.trace (risk_rejected s'.id persistence_unavailable ∷ []) refl in
          ground (arith, e)
      by_health false h =
          let e = quiet st.trace (risk_rejected s'.id persistence_unavailable ∷ []) refl in
          ground (arith, e)
