-- ===== src/Execution/OrderManager/Fills.antt =====
-- How many orders one call of `execute_market_order` sends, and what becomes of their fills.
use execution_engine_multi.Prelude.{
  ℕ, suc, ◌+◌, ◌≤◌, ◌≡◌, ap, none, ◌&&◌, Option, List, [], ◌∷◌, arith, length, if_ind,
}
use execution_engine_multi.Prelude.Python.{Python}
use execution_engine_multi.Config.{ExecutionConfig}
use execution_engine_multi.Domain.Position.{SymbolInfo}
use execution_engine_multi.Domain.Trade.{TradePlan}
use execution_engine_multi.Brokers.{
  Tick, OrderResult, CloseRequest, OrderRequest, Reply, done, unconfirmed, refused, broken,
}
use execution_engine_multi.Execution.OrderManager.{
  Run, Market, Outcome, opened, raised, rejected_with, close_failed, ended, sent, on_fill, slips,
  max_attempts, execute_market_order, first_working,
}
use execution_engine_multi.Execution.OrderManager.Attempts.{close_slipped-no_orders, attempts_ind}

module _ {F : Type 0} where
  -- The tickets of the orders that the broker reported as done.
  abbrev pub fills : List (OrderRequest F × Reply F) → List ℕ
  fills [] = []
  fills ((_, done result) ∷ xs) = result.ticket ∷ fills xs
  fills ((_, unconfirmed result) ∷ xs) = result.ticket ∷ fills xs
  fills ((_, refused _) ∷ xs) = fills xs
  fills ((_, broken) ∷ xs) = fills xs

  -- The ticket that the caller gets.
  abbrev pub returned : Outcome F → List ℕ
  returned (opened result) = result.ticket ∷ []
  returned (raised _) = []

  -- What becomes of the orders that were done: there is at most one. It is returned; or it slipped too
  -- far and a close order for it is sent, or cannot be sent for want of a tick; or it was not
  -- confirmed, and the call raises while the position stays.
  pub data IsAccounted (close_tick : Option (Tick F)) (r : Run F) : Type 0 where
    unfilled :
        fills r.exchanges ≡ [] → returned r.outcome ≡ [] → r.closes ≡ [] → IsAccounted close_tick r
    kept :
        (result : OrderResult F)
        → fills r.exchanges ≡ result.ticket ∷ []
        → r.outcome ≡ opened result
        → r.closes ≡ []
        → IsAccounted close_tick r
    closed_again :
        (ticket : ℕ) (close : CloseRequest F)
        → fills r.exchanges ≡ ticket ∷ []
        → returned r.outcome ≡ []
        → r.closes ≡ close ∷ []
        → close.ticket ≡ ticket
        → IsAccounted close_tick r
    no_quote :
        (ticket : ℕ)
        → close_tick ≡ none
        → fills r.exchanges ≡ ticket ∷ []
        → r.outcome ≡ raised close_failed
        → r.closes ≡ []
        → IsAccounted close_tick r
    not_confirmed :
        (ticket : ℕ)
        → fills r.exchanges ≡ ticket ∷ []
        → r.outcome ≡ raised (rejected_with none)
        → r.closes ≡ []
        → IsAccounted close_tick r

module _ {F : Type 0} ⦃py : Python F⦄ (cfg : ExecutionConfig F) (plan : TradePlan F)
    (si : SymbolInfo F) (market : Market F) where
  -- One call sends at most one order more than the configured number of retries.
  pub execute_market_order-bounded :
      (tp_override : Option F)
      → length (execute_market_order cfg plan si market tp_override).exchanges
        ≤ 1 + cfg.order_retry_count
  unfolding execute_market_order sent ended on_fill
  execute_market_order-bounded tp_override =
      attempts_ind cfg plan si market (λ left n w r. length r.exchanges ≤ left)
        (record {
          at_end = λ n w. omega arith;
          at_no_tick = λ left n w. omega arith;
          at_fill = λ left n w price result.
              if_ind (λ (r : Run F). suc (length r.exchanges) ≤ suc left)
                (slips cfg plan si result.executed_price && cfg.close_on_slippage_exceed)
                (omega (
                  arith,
                  ap length (close_slipped-no_orders cfg plan si market market.close_tick result),
                ))
                (omega arith);
          at_error = λ left n w price reply e no _. omega arith;
          at_again = λ left n w w' price code r more h. omega (arith, h);
        })
        (max_attempts cfg plan si) 1 (first_working cfg plan si market tp_override)
