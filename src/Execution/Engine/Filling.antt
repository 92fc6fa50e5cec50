-- ===== src/Execution/Engine/Filling.antt =====
-- src/execution/engine.py with src/execution/order_manager.py: the order that `execute` sends is a
-- call of `execute_market_order`, with the symbol that the broker reported for the signal.
use execution_engine_multi.Prelude.{ℕ, ◌≡◌, refl, sym, ◌∙◌, ◌⊎◌, Bool, false, some, [], ap}
use execution_engine_multi.Prelude.Python.{Python}
use execution_engine_multi.Config.{RiskConfig, ExecutionConfig}
use execution_engine_multi.Domain.Signal.{InboundSignal}
use execution_engine_multi.Domain.Position.{AccountInfo, SymbolInfo}
use execution_engine_multi.Domain.Trade.{Trade, TradePlan}
use execution_engine_multi.Brokers.{OrderResult}
use execution_engine_multi.Execution.State.{EngineState, Answers, OrderOutcome, filled, failed}
use execution_engine_multi.Execution.Engine.{execute, started}
use execution_engine_multi.Execution.OrderManager.{
  Market, Outcome, opened, raised, OrderError, execute_market_order,
}
use execution_engine_multi.Execution.OrderManager.Slippage.{
  IsAcceptable, execute_market_order-IsAcceptable,
}
use execution_engine_multi.Execution.Engine.Returned.{IsPlanned, Yields, IsOfFill, execute-IsFilled}

module _ {F : Type 0} where
  -- What `execute` makes of the order manager's result; `says` tells for an exception whether its
  -- text names disabled trading.
  abbrev pub outcome_of : (OrderError → Bool) → Outcome F → OrderOutcome F
  outcome_of says (opened r) = filled r.ticket r.executed_price r.volume
  outcome_of says (raised e) = failed (says e)

  pub outcome_of-filled :
      (says : OrderError → Bool) (o : Outcome F) (ticket : ℕ) (price volume : F)
      → outcome_of says o ≡ filled ticket price volume
      → (r : OrderResult F) × (o ≡ opened r)
        × (r.ticket ≡ ticket)
        × (r.executed_price ≡ price)
        × (r.volume ≡ volume)
  outcome_of-filled says (opened r) ticket price volume e = (r, refl, cc, cc, cc)
  outcome_of-filled says (raised x) ticket price volume e = cc

module _ {F : Type 0} ⦃py : Python F⦄ where
  -- The trade is one fill that the order manager returned for the plan: the trade has the ticket, the
  -- price and the volume of that fill, the order manager closed nothing, and the fill is acceptable for
  -- the plan unless bad fills may stay.
  pub record IsTraded (cfg : ExecutionConfig F) (si : SymbolInfo F) (market : Market F)
      (plan : TradePlan F) (t : Trade F) : Type 0 where
    pub result : OrderResult F
    pub returned : (execute_market_order cfg plan si market (some plan.tp2)).outcome ≡ opened result
    pub nothing_closed : (execute_market_order cfg plan si market (some plan.tp2)).closes ≡ []
    pub of_fill : IsOfFill (result.ticket, result.executed_price, result.volume) t
    pub acceptable :
        (cfg.close_on_slippage_exceed ≡ false)
        ⊎ IsAcceptable cfg plan si market result.executed_price

  module _ (cfg : ExecutionConfig F) (account : AccountInfo F) (si : SymbolInfo F)
      (market : Market F) (says : OrderError → Bool) where
    -- The collaborators of the engine with the order manager among them: its target is TP2.
    abbrev pub with_order_manager : Answers F → Answers F
    with_order_manager a = record a {
      broker = some (account, si);
      order =
          λ plan. outcome_of says (execute_market_order cfg plan si market (some plan.tp2)).outcome;
    }

    -- With the order manager behind the engine, a trade that `execute` returns is one fill of it, of an
    -- order for a plan that the planner made for the signal with what the broker reported.
    pub execute_fill :
        (config : RiskConfig F) (a : Answers F) (s : InboundSignal F) (st : EngineState F)
        (t : Trade F)
        → (execute config cfg (with_order_manager a) s st).1 ≡ some t
        → (plan : TradePlan F) × IsPlanned (with_order_manager a) (started a s) plan
          × IsTraded cfg si market plan t
    unfolding Yields
    execute_fill config a s st t e =
        let (plan, fill, planned, answer, of_fill) =
          execute-IsFilled config cfg (with_order_manager a) s st t e in
        let (r, same, ticket, price, volume) =
          outcome_of-filled says (execute_market_order cfg plan si market (some plan.tp2)).outcome
            fill.0 fill.1 fill.2 answer in
        let kept = execute_market_order-IsAcceptable cfg plan si market (some plan.tp2) r same in
        (
          plan,
          planned,
          record {
            result = r;
            returned = same;
            nothing_closed = kept.0;
            of_fill = (
              of_fill.0 ∙ ap some (sym ticket),
              of_fill.1 ∙ ap some (sym price),
              of_fill.2 ∙ sym volume,
            );
            acceptable = kept.1;
          },
        )
