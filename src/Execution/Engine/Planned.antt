-- ===== src/Execution/Engine/Planned.antt =====
-- src/execution/engine.py with src/execution/planner.py and src/execution/order_manager.py in the place
-- of its arguments.
use execution_engine_multi.Prelude.{
  ℕ, Bool, String, ◌≡◌, sym, ap, Option, some, some-injective, subst,
}
use execution_engine_multi.Prelude.Python.{Python, FloatOrder}
use execution_engine_multi.Config.{RiskConfig, ExecutionConfig}
use execution_engine_multi.Config.Overrides.{tp1_trigger_pct_for, tp1_percentage_for}
use execution_engine_multi.Domain.Signal.{InboundSignal}
use execution_engine_multi.Domain.Position.{AccountInfo, SymbolInfo}
use execution_engine_multi.Domain.Trade.{Trade, TradePlan}
use execution_engine_multi.Risk.Loss.{LossTracker}
use execution_engine_multi.Execution.State.{EngineState, Answers}
use execution_engine_multi.Execution.Engine.{execute, started}
use execution_engine_multi.Execution.Engine.Returned.{IsPlanned}
use execution_engine_multi.Execution.Engine.Filling.{IsTraded, with_order_manager, execute_fill}
use execution_engine_multi.Execution.Planner.{plan}
use execution_engine_multi.Execution.Planner.Sound.{IsSound, plan-IsSound}
use execution_engine_multi.Execution.OrderManager.{Market, OrderError}

module _ {F : Type 0} ⦃py : Python F⦄ (config : RiskConfig F) (cfg : ExecutionConfig F)
    (tf_key : Option String) (tracker : LossTracker F) where
  -- The collaborators of the engine with the planner among them, reading a loss tracker.
  abbrev pub with_planner : ℕ → Answers F → Answers F
  with_planner planned_at a = record a {
    plan = λ s account si mult. some (plan config cfg tf_key planned_at tracker s account si mult);
  }

  abbrev pub with_both :
      ℕ → AccountInfo F → SymbolInfo F → Market F → (OrderError → Bool) → Answers F → Answers F
  with_both planned_at account si market says a =
      with_order_manager cfg account si market says (with_planner planned_at a)

  module _ (laws : FloatOrder py) where
    -- The bounds of a plan for a signal, with the settings of TP1 that its symbol and time frames
    -- resolve to.
    abbrev pub IsSoundFor : InboundSignal F → SymbolInfo F → TradePlan F → Type 0
    IsSoundFor s si p =
        IsSound laws config (tp1_trigger_pct_for cfg (some s.symbol) tf_key)
          (tp1_percentage_for cfg (some s.symbol) tf_key) tracker s si p

    module _ (planned_at : ℕ) (account : AccountInfo F) (si : SymbolInfo F) (market : Market F)
        (says : OrderError → Bool) where
      planned-IsSound :
          (a : Answers F) (s : InboundSignal F) (p : TradePlan F)
          → IsPlanned (with_both planned_at account si market says a) s p
          → IsSoundFor s si p
      planned-IsSound a s p ((account', si'), mult, known, made) =
          subst (λ si₂. IsSoundFor s si₂ p) (ap (λ state. state.1) (sym (some-injective _ _ known)))
            (subst (IsSoundFor s si') (some-injective _ _ made)
              (plan-IsSound laws config cfg tf_key planned_at tracker s account' si' mult))

      -- With the planner and the order manager behind the engine, a trade that `execute` returns is
      -- one fill of an order for a plan of the signal. The plan scales the risk of one trade by a
      -- multiplier between zero and one; its size is the configured minimum or the rounding of a size
      -- within the configured and the broker's bounds; it keeps the stop and TP2 of the signal, and
      -- closes nothing at TP1 where the settings of TP1 are not eligible. The trade has the ticket,
      -- the price and the volume of the fill, the order manager closed nothing, and the fill is
      -- acceptable for the plan unless bad fills may stay.
      pub execute-IsSound :
          (a : Answers F) (s : InboundSignal F) (st : EngineState F) (t : Trade F)
          → (execute config cfg (with_both planned_at account si market says a) s st).1 ≡ some t
          → (p : TradePlan F) × IsSoundFor (started a s) si p × IsTraded cfg si market p t
      execute-IsSound a s st t e =
          let (p, planned, traded) =
            execute_fill cfg account si market says config (with_planner planned_at a) s st t e in
          (p, planned-IsSound a (started a s) p planned, traded)
