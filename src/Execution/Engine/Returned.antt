-- ===== src/Execution/Engine/Returned.antt =====
-- Which trade a call of `execute` returns.
use execution_engine_multi.Prelude.{
  ℕ, ◌≡◌, refl, Option, none, some, if_ind, some-injective, none-ne-some, if◌then◌else◌, subst, ap,
}
use execution_engine_multi.Prelude.Python.{Python}
use execution_engine_multi.Config.{RiskConfig, ExecutionConfig}
use execution_engine_multi.Domain.Signal.{InboundSignal}
use execution_engine_multi.Domain.Position.{AccountInfo, SymbolInfo}
use execution_engine_multi.Domain.Trade.{Trade, TradePlan}
use execution_engine_multi.Execution.State.{
  EngineState, Answers, OrderOutcome, filled, failed, Step, ◌>>=◌, ◌>>◌, emit, go_on,
  execution_attempted, risk_approved, order_sent, trade_planned, planning_failed,
  broker_unavailable, trade_error, autotrading_disabled, order_failed,
}
use execution_engine_multi.Execution.Engine.{
  check_persistence, check_age, fetch_broker, check_risk, make_plan, send_order, sync_levels, track,
  untracked, save_trade, settle, place, execute, make_trade, final_plan, started, fail_with,
  stop_with,
}

module _ {F : Type 0} where
  -- Whatever a step hands on has the property.
  unfoldable pub Yields : {A : Type 0} → (A → Type 0) → Step F A → Type 0
  Yields P m = (st : EngineState F) (x : _) → (m st).1 ≡ some x → P x

  Yields-bind :
      {A B : Type 0} (Q : A → Type 0) (P : B → Type 0) (m : Step F A) (k : A → Step F B)
      → Yields Q m
      → ((y : A) → Q y → Yields P (k y))
      → Yields P (m >>= k)
  unfolding Yields
  Yields-bind {A} {B} Q P m k first later st x = by_result (m st) (first st)
    where
      by_result :
          (p : EngineState F × Option A)
          → ((y : A) → p.1 ≡ some y → Q y)
          → (((λ (_ : EngineState F). p) >>= k) st).1 ≡ some x
          → P x
      by_result (st', none) q e = elim (none-ne-some x e) [ ]
      by_result (st', some y) q e = later y (q y refl) st' x e

  -- A step of which nothing is known before another one.
  Yields-after :
      {A B : Type 0} (P : B → Type 0) (m : Step F A) (k : A → Step F B)
      → ((y : A) → Yields P (k y))
      → Yields P (m >>= k)
  unfolding Yields
  Yields-after P m k later = Yields-bind (λ _. Unit {0}) P m k (λ st x e. tt) (λ y _. later y)

  -- The trade is of the fill.
  abbrev pub IsOfFill : ℕ × F × F → Trade F → Type 0
  IsOfFill fill t =
      (t.entry_ticket ≡ some fill.0) × (t.entry_price ≡ some fill.1) × (t.entry_lots ≡ fill.2)

module _ {F : Type 0} ⦃py : Python F⦄ where
  Yields-track :
      (a : Answers F) (s : InboundSignal F) (t : Trade F) (P : Trade F → Type 0)
      → P t
      → Yields P (track a s t)
  unfolding track untracked save_trade Yields
  Yields-track a s t P h st x =
      if_ind (λ (p : EngineState F × Option (Trade F)). p.1 ≡ some x → P x) a.is_tracked
        (λ e. subst P (some-injective _ _ e) h) (λ e. elim (none-ne-some x e) [ ])

  Yields-settle :
      (cfg : ExecutionConfig F) (a : Answers F) (s : InboundSignal F) (plan : TradePlan F)
      (fill : ℕ × F × F)
      → Yields (IsOfFill fill) (settle cfg a s plan fill)
  unfolding settle make_trade Yields
  Yields-settle cfg a s plan (ticket, price, volume) st x e =
      Yields-track a s (make_trade a s ticket price volume (final_plan cfg price volume plan))
        (IsOfFill (ticket, price, volume)) (refl, refl, refl)
        (sync_levels cfg ticket price plan st).0 x e

  -- The fill is the answer to the order for the plan.
  abbrev IsAnswer : Answers F → TradePlan F → ℕ × F × F → Type 0
  IsAnswer a plan fill = a.order plan ≡ filled fill.0 fill.1 fill.2

  Yields-send_order :
      (a : Answers F) (s : InboundSignal F) (plan : TradePlan F)
      → Yields (IsAnswer a plan) (send_order a s plan)
  unfolding send_order fail_with Yields
  Yields-send_order a s plan st x e = by_outcome (a.order plan) e
    where
      by_outcome :
          (o : OrderOutcome F)
          → ((emit (order_sent plan) >> elim o [
            | filled ticket price volume ↦ go_on (ticket, price, volume)
            | failed disabled ↦
                fail_with a s
                  (trade_error s.id (if disabled then autotrading_disabled else order_failed))
          ])
              st).1
            ≡ some x
          → o ≡ filled x.0 x.1 x.2
      by_outcome (filled ticket price volume) h =
          ap (λ (f : ℕ × F × F). filled f.0 f.1 f.2) (some-injective (ticket, price, volume) x h)
      by_outcome (failed disabled) h = elim (none-ne-some x h) [ ]

  -- The plan was made for the signal with what the broker reported.
  abbrev pub IsPlanned : Answers F → InboundSignal F → TradePlan F → Type 0
  IsPlanned a s plan =
      (state : AccountInfo F × SymbolInfo F) × (mult : F) × (a.broker ≡ some state)
      × (a.plan s state.0 state.1 mult ≡ some plan)

  Yields-make_plan :
      (a : Answers F) (s : InboundSignal F) (account : AccountInfo F) (si : SymbolInfo F) (mult : F)
      → Yields (λ plan. a.plan s account si mult ≡ some plan) (make_plan a s account si mult)
  unfolding make_plan fail_with Yields
  Yields-make_plan a s account si mult st plan e = by_plan (a.plan s account si mult) e
    where
      by_plan :
          (p : Option (TradePlan F))
          → ((elim p as (λ _. Step F (TradePlan F)) [
            | none ↦ fail_with a s (trade_error s.id planning_failed)
            | some found ↦ emit (trade_planned found) >> go_on found
          ])
              st).1
            ≡ some plan
          → p ≡ some plan
      by_plan none h = elim (none-ne-some plan h) [ ]
      by_plan (some found) h = h

  Yields-fetch_broker :
      (a : Answers F) (s : InboundSignal F)
      → Yields (λ state. a.broker ≡ some state) (fetch_broker a s)
  unfolding fetch_broker Yields
  Yields-fetch_broker a s st state e = by_answer a.broker e
    where
      by_answer :
          (b : Option (AccountInfo F × SymbolInfo F))
          → ((elim b as (λ _. Step F (AccountInfo F × SymbolInfo F)) [
            | none ↦ stop_with (trade_error s.id broker_unavailable)
            | some found ↦ go_on found
          ])
              st).1
            ≡ some state
          → b ≡ some state
      by_answer none h = elim (none-ne-some state h) [ ]
      by_answer (some found) h = h

  -- The trade comes from an order for a plan of the signal, and the order was filled.
  abbrev pub IsFilled : Answers F → InboundSignal F → Trade F → Type 0
  IsFilled a s t =
      (plan : TradePlan F) × (fill : ℕ × F × F) × IsPlanned a s plan
      × IsAnswer a plan fill
      × IsOfFill fill t

  Yields-place :
      (cfg : ExecutionConfig F) (a : Answers F) (s : InboundSignal F) (account : AccountInfo F)
      (si : SymbolInfo F) (mult : F)
      → a.broker ≡ some (account, si)
      → Yields (IsFilled a s) (place cfg a s account si mult)
  unfolding place Yields
  Yields-place cfg a s account si mult known st =
      Yields-bind (λ plan. a.plan s account si mult ≡ some plan) (IsFilled a s)
        (make_plan a s account si mult) (λ plan. send_order a s plan >>= settle cfg a s plan)
        (Yields-make_plan a s account si mult)
        (λ plan planned.
          Yields-bind (IsAnswer a plan) (IsFilled a s) (send_order a s plan) (settle cfg a s plan)
            (Yields-send_order a s plan)
            (λ fill answer st' t e. (
              plan,
              fill,
              ((account, si), mult, known, planned),
              answer,
              Yields-settle cfg a s plan fill st' t e,
            )))
        (emit (execution_attempted s.id) (emit (risk_approved s.id) st).0).0

  pub execute-IsFilled :
      (config : RiskConfig F) (cfg : ExecutionConfig F) (a : Answers F) (s : InboundSignal F)
      → Yields (IsFilled a (started a s)) (execute config cfg a s)
  unfolding execute Yields
  execute-IsFilled config cfg a s =
      Yields-after (IsFilled a s') (check_persistence a s')
        (λ _. check_age cfg a s' >>= λ _. fetch_broker a s' >>= from_broker)
        (λ _.
          Yields-after (IsFilled a s') (check_age cfg a s') (λ _. fetch_broker a s' >>= from_broker)
            (λ _.
              Yields-bind (λ state. a.broker ≡ some state) (IsFilled a s') (fetch_broker a s')
                from_broker (Yields-fetch_broker a s')
                (λ state known.
                  Yields-after (IsFilled a s') (check_risk config a s' state.1)
                    (place cfg a s' state.0 state.1)
                    (λ mult. Yields-place cfg a s' state.0 state.1 mult known))))
    where
      s' : InboundSignal F
      s' = started a s

      from_broker : AccountInfo F × SymbolInfo F → Step F (Trade F)
      from_broker state = check_risk config a s' state.1 >>= place cfg a s' state.0 state.1
