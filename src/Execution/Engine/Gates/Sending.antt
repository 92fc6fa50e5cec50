-- ===== src/Execution/Engine/Gates/Sending.antt =====
-- The orders that the part of `execute` after the risk engine sends.
use execution_engine_multi.Prelude.{
  ℕ, ◌+◌, ◌≡◌, refl, ap, ◌∙◌, Bool, Option, none, some, List, [], ◌∷◌, ◌++◌, arith, if◌then◌else◌,
  if_ind, is_some,
}
use execution_engine_multi.Prelude.Python.{Python}
use execution_engine_multi.Config.{ExecutionConfig}
use execution_engine_multi.Domain.Signal.{InboundSignal}
use execution_engine_multi.Domain.Position.{AccountInfo, SymbolInfo}
use execution_engine_multi.Domain.Trade.{Trade, TradePlan}
use execution_engine_multi.Execution.State.{
  EngineState, Answers, OrderOutcome, filled, failed, Effect, ◌>>=◌, ◌>>◌, order_sent, trade_error,
  trade_planned, autotrading_disabled, order_failed, planning_failed, go_on, emit, trade_saved,
  trade_opened, risk_approved, execution_attempted, persistence_failed_after_fill, release,
}
use execution_engine_multi.Execution.Engine.{
  back_out, make_plan, send_order, sync_levels, track, untracked, save_trade, mark_opened, settle,
  place, make_trade, final_plan, shifts, fail_with,
}

abbrev pub one_if : Bool → ℕ
one_if b = if b then 1 else 0

module _ {F : Type 0} where
  abbrev sends : Effect F → ℕ
  sends (order_sent plan) = 1
  sends _ = 0

  -- The orders in a trace.
  abbrev pub orders : List (Effect F) → ℕ
  orders [] = 0
  orders (e ∷ es) = sends e + orders es

  orders-append : (xs ys : List (Effect F)) → orders (xs ++ ys) ≡ orders xs + orders ys
  orders-append [] ys = ground arith
  orders-append (x ∷ xs) ys = ground (arith, orders-append xs ys)

  pub quiet : (xs ys : List (Effect F)) → orders ys ≡ 0 → orders (xs ++ ys) ≡ orders xs
  quiet xs ys e = ground (arith, orders-append xs ys)

module _ {F : Type 0} ⦃py : Python F⦄ where
  track-orders :
      (a : Answers F) (s : InboundSignal F) (t : Trade F) (st : EngineState F)
      → orders (track a s t st).0.trace ≡ orders st.trace
  unfolding track untracked save_trade mark_opened release
  track-orders a s t st =
      if_ind (λ (p : EngineState F × Option (Trade F)). orders p.0.trace ≡ orders st.trace)
        a.is_tracked
        (quiet (st.trace ++ trade_saved t ∷ lost) (trade_opened t ∷ []) refl
          ∙ quiet st.trace (trade_saved t ∷ lost)
              (if_ind (λ (es : List (Effect F)). 0 + orders es ≡ 0) a.is_saved refl refl))
        (quiet (st.trace ++ trade_saved t ∷ [] ++ trade_opened t ∷ []) (_ ∷ []) refl
          ∙ quiet (st.trace ++ trade_saved t ∷ []) (trade_opened t ∷ []) refl
          ∙ quiet st.trace (trade_saved t ∷ []) refl)
    where
      lost : List (Effect F)
      lost = if a.is_saved then [] else trade_error s.id persistence_failed_after_fill ∷ []

  settle-orders :
      (cfg : ExecutionConfig F) (a : Answers F) (s : InboundSignal F) (plan : TradePlan F)
      (fill : ℕ × F × F) (st : EngineState F)
      → orders (settle cfg a s plan fill st).0.trace ≡ orders st.trace
  unfolding settle sync_levels
  settle-orders cfg a s plan (ticket, price, volume) st =
      track-orders a s (make_trade a s ticket price volume (final_plan cfg price volume plan))
        (sync_levels cfg ticket price plan st).0
      ∙ quiet st.trace _ (
          if_ind (λ (es : List (Effect F)). orders es ≡ 0)
            (shifts cfg (py.sub price plan.entry_price)) refl refl)

  send_order-orders :
      (cfg : ExecutionConfig F) (a : Answers F) (s : InboundSignal F) (plan : TradePlan F)
      (st : EngineState F)
      → orders ((send_order a s plan >>= settle cfg a s plan) st).0.trace ≡ orders st.trace + 1
  unfolding send_order fail_with back_out release
  send_order-orders cfg a s plan st = by_outcome (a.order plan)
    where
      by_outcome :
          (o : OrderOutcome F)
          → orders
              (((emit (order_sent plan) >> elim o [
                | filled ticket price volume ↦ go_on (ticket, price, volume)
                | failed disabled ↦
                    fail_with a s
                      (trade_error s.id (if disabled then autotrading_disabled else order_failed))
              ])
                  >>= settle cfg a s plan)
                st).0.trace
            ≡ orders st.trace + 1
      by_outcome (filled ticket price volume) =
          settle-orders cfg a s plan (ticket, price, volume) (emit (order_sent plan) st).0
          ∙ orders-append st.trace (order_sent plan ∷ [])
      by_outcome (failed disabled) =
          quiet (st.trace ++ order_sent plan ∷ []) _ refl
          ∙ orders-append st.trace (order_sent plan ∷ [])

  pub place-orders :
      (cfg : ExecutionConfig F) (a : Answers F) (s : InboundSignal F) (account : AccountInfo F)
      (si : SymbolInfo F) (mult : F) (st : EngineState F)
      → orders (place cfg a s account si mult st).0.trace
        ≡ orders st.trace + one_if (is_some (a.plan s account si mult))
  unfolding place make_plan fail_with back_out release
  place-orders cfg a s account si mult st = by_plan (a.plan s account si mult)
    where
      es : List (Effect F)
      es = st.trace ++ risk_approved s.id ∷ []

      st₂ : EngineState F
      st₂ = (emit (execution_attempted s.id) (emit (risk_approved s.id) st).0).0

      same : orders st₂.trace ≡ orders st.trace
      same =
          quiet es (execution_attempted s.id ∷ []) refl
          ∙ quiet st.trace (risk_approved s.id ∷ []) refl

      by_plan :
          (p : Option (TradePlan F))
          → orders
              (((elim p [
                | none ↦ fail_with a s (trade_error s.id planning_failed)
                | some plan ↦ emit (trade_planned plan) >> go_on plan
              ])
                  >>= λ plan. send_order a s plan >>= settle cfg a s plan)
                st₂).0.trace
            ≡ orders st.trace + one_if (is_some p)
      by_plan none =
          let last = quiet st₂.trace (trade_error s.id planning_failed ∷ []) refl in
          ground (arith, last, same)
      by_plan (some plan) =
          let sent = send_order-orders cfg a s plan (emit (trade_planned plan) st₂).0 in
          let before = quiet st₂.trace (trade_planned plan ∷ []) refl in
          sent ∙ ap (λ n. n + 1) (before ∙ same)
