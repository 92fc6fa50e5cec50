-- ===== src/Execution/Engine/Reservations/Returned.antt =====
-- Every path of `execute` after a reservation gives it back.
use execution_engine_multi.Prelude.{
  ℕ, ◌≡◌, refl, String, Option, none, some, List, Dict, discard, if◌then◌else◌, Bool-cases, inl,
  inr,
}
use execution_engine_multi.Prelude.Python.{Python}
use execution_engine_multi.Config.{ExecutionConfig}
use execution_engine_multi.Domain.Signal.{InboundSignal}
use execution_engine_multi.Domain.Position.{AccountInfo, SymbolInfo}
use execution_engine_multi.Domain.Trade.{Trade, TradePlan}
use execution_engine_multi.Execution.State.{
  EngineState, Answers, OrderOutcome, filled, failed, ◌>>=◌, ◌>>◌, order_sent, risk_approved,
  execution_attempted, trade_error, trade_planned, autotrading_disabled, order_failed,
  planning_failed, count_down, release, go_on, emit,
}
use execution_engine_multi.Execution.Engine.{
  symbol_of, back_out, make_plan, send_order, sync_levels, track, untracked, save_trade,
  mark_opened, settle, place, make_trade, final_plan, fail_with,
}

-- The two stores of reservations.
abbrev Held : Type 0
Held = Dict ℕ × List String

module _ {F : Type 0} ⦃py : Python F⦄ where
  abbrev pub held : EngineState F → Held
  held st = (st.pending, st.pending_signal_ids)

  abbrev pub let_go : InboundSignal F → Held → Held
  let_go s (p, ids) = (count_down (symbol_of s) p, discard s.id ids)

  back_out-held :
      (a : Answers F) (s : InboundSignal F) (st : EngineState F)
      → held (back_out a s st) ≡ let_go s (held st)
  unfolding back_out release
  back_out-held a s st = refl

  track-held :
      (a : Answers F) (s : InboundSignal F) (t : Trade F) (st : EngineState F)
      → held (track a s t st).0 ≡ let_go s (held st)
  unfolding track untracked save_trade release mark_opened
  track-held a s t st = elim (Bool-cases a.is_tracked) [
    | inl kept ↦ simp kept
    | inr dropped ↦ simp dropped
  ]

  settle-held :
      (cfg : ExecutionConfig F) (a : Answers F) (s : InboundSignal F) (plan : TradePlan F)
      (fill : ℕ × F × F) (st : EngineState F)
      → held (settle cfg a s plan fill st).0 ≡ let_go s (held st)
  unfolding settle sync_levels
  settle-held cfg a s plan (ticket, price, volume) st =
      track-held a s (make_trade a s ticket price volume (final_plan cfg price volume plan))
        (sync_levels cfg ticket price plan st).0

  send_order-held :
      (cfg : ExecutionConfig F) (a : Answers F) (s : InboundSignal F) (plan : TradePlan F)
      (st : EngineState F)
      → held ((send_order a s plan >>= settle cfg a s plan) st).0 ≡ let_go s (held st)
  unfolding send_order fail_with
  send_order-held cfg a s plan st = by_outcome (a.order plan)
    where
      by_outcome :
          (o : OrderOutcome F)
          → held
              (((emit (order_sent plan) >> elim o [
                | filled ticket price volume ↦ go_on (ticket, price, volume)
                | failed disabled ↦
                    fail_with a s
                      (trade_error s.id (if disabled then autotrading_disabled else order_failed))
              ])
                  >>= settle cfg a s plan)
                st).0
            ≡ let_go s (held st)
      by_outcome (filled ticket price volume) =
          settle-held cfg a s plan (ticket, price, volume) (emit (order_sent plan) st).0
      by_outcome (failed disabled) = back_out-held a s (emit (order_sent plan) st).0

  pub place-held :
      (cfg : ExecutionConfig F) (a : Answers F) (s : InboundSignal F) (account : AccountInfo F)
      (si : SymbolInfo F) (mult : F) (st : EngineState F)
      → held (place cfg a s account si mult st).0 ≡ let_go s (held st)
  unfolding place make_plan fail_with
  place-held cfg a s account si mult st = by_plan (a.plan s account si mult)
    where
      st₂ : EngineState F
      st₂ = (emit (execution_attempted s.id) (emit (risk_approved s.id) st).0).0

      by_plan :
          (p : Option (TradePlan F))
          → held
              (((elim p [
                | none ↦ fail_with a s (trade_error s.id planning_failed)
                | some plan ↦ emit (trade_planned plan) >> go_on plan
              ])
                  >>= λ plan. send_order a s plan >>= settle cfg a s plan)
                st₂).0
            ≡ let_go s (held st)
      by_plan none = back_out-held a s st₂
      by_plan (some plan) = send_order-held cfg a s plan (emit (trade_planned plan) st₂).0
