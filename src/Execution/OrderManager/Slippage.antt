-- ===== src/Execution/OrderManager/Slippage.antt =====
-- The fills that `execute_market_order` accepts.
use execution_engine_multi.Prelude.{
  ◌≡◌, ◌≢◌, refl, ◌⊎◌, inl, inr, true, false, Option, [], and_false, ◌&&◌, Bool-cases, not-false,
  subst,
}
use execution_engine_multi.Prelude.Python.{Python, zero_f}
use execution_engine_multi.Config.{ExecutionConfig}
use execution_engine_multi.Domain.Position.{SymbolInfo}
use execution_engine_multi.Domain.Trade.{TradePlan}
use execution_engine_multi.Brokers.{OrderResult}
use execution_engine_multi.Execution.OrderManager.{
  OrderError, Run, Market, Outcome, opened, raised, exhausted, no_tick, ended, sent, close_slipped,
  on_fill, slips, is_better_price, slippage_pct_of_stop, max_attempts, execute_market_order,
  first_working, request,
}
use execution_engine_multi.Execution.OrderManager.Attempts.{attempts_ind, close_slipped-raises}

module _ {F : Type 0} ⦃py : Python F⦄ (cfg : ExecutionConfig F) (plan : TradePlan F)
    (si : SymbolInfo F) (market : Market F) where
  -- The price is the planned one, a better one, or within the limit.
  pub data IsAcceptable (price : F) : Type 0 where
    exact : py.ltb zero_f (py.abs (py.sub price plan.entry_price)) ≡ false → IsAcceptable price
    better : is_better_price plan.side price plan.entry_price ≡ true → IsAcceptable price
    within :
        py.ltb cfg.max_entry_slippage_pct_of_stop (slippage_pct_of_stop cfg plan si price) ≡ false
        → IsAcceptable price

  slips-IsAcceptable : (price : F) → slips cfg plan si price ≡ false → IsAcceptable price
  unfolding slips
  slips-IsAcceptable price e = elim (and_false _ _ e) [
    | inl start ↦ elim (and_false _ _ start) [
      | inl same ↦ exact same
      | inr good ↦ better (not-false _ good)
    ]
    | inr small ↦ within small
  ]

  raised-not_opened :
      (e : OrderError) (result : OrderResult F) → ◌≢◌ {A = Outcome F} (raised e) (opened result)
  raised-not_opened e result same = cc

  -- What holds of a run that ends with a position.
  abbrev IsKept : Run F → Type 0
  IsKept r =
      (result : OrderResult F)
      → r.outcome ≡ opened result
      → (r.closes ≡ [])
        × ((cfg.close_on_slippage_exceed ≡ false) ⊎ IsAcceptable result.executed_price)

  IsKept-raised : (r : Run F) (e : OrderError) → r.outcome ≡ raised e → IsKept r
  IsKept-raised r e up result same = elim (raised-not_opened e result (cc (up, same))) [ ]

  -- A fill is kept where the test of its slippage fails.
  IsKept-fill :
      (result : OrderResult F)
      → (cfg.close_on_slippage_exceed ≡ false) ⊎ IsAcceptable result.executed_price
      → IsKept (record { exchanges = []; closes = []; outcome = opened result })
  IsKept-fill result fine kept same =
      let one : result ≡ kept = cc in
      (
        refl,
        subst
            (λ (x : OrderResult F).
              (cfg.close_on_slippage_exceed ≡ false) ⊎ IsAcceptable x.executed_price)
            one fine,
      )

  IsKept-on_fill : (result : OrderResult F) → IsKept (on_fill cfg plan si market result)
  unfolding on_fill
  IsKept-on_fill result =
      let (e, up, _) = close_slipped-raises cfg plan si market market.close_tick result in
      elim (Bool-cases (slips cfg plan si result.executed_price && cfg.close_on_slippage_exceed)) [
        | inl bad ↦
            rw bad (IsKept-raised (close_slipped cfg plan si market market.close_tick result) e up)
        | inr fine ↦ rw fine (
            IsKept-fill result (elim (and_false (slips cfg plan si result.executed_price) _ fine) [
              | inl good ↦ inr (slips-IsAcceptable result.executed_price good)
              | inr off ↦ inl off
            ]))
      ]

  -- A call that returns a position has closed nothing, and the fill is at the planned price, better,
  -- or worse by no more than the limit, unless the configuration lets bad fills stay.
  pub execute_market_order-IsAcceptable :
      (tp_override : Option F) (result : OrderResult F)
      → (execute_market_order cfg plan si market tp_override).outcome ≡ opened result
      → ((execute_market_order cfg plan si market tp_override).closes ≡ [])
        × ((cfg.close_on_slippage_exceed ≡ false) ⊎ IsAcceptable result.executed_price)
  unfolding execute_market_order sent ended
  execute_market_order-IsAcceptable tp_override =
      attempts_ind cfg plan si market (λ left n w r. IsKept r)
        (record {
          at_end = λ n w. IsKept-raised (ended exhausted) exhausted refl;
          at_no_tick = λ left n w. IsKept-raised (ended no_tick) no_tick refl;
          at_fill = λ left n w price result. IsKept-on_fill result;
          at_error = λ left n w price reply e no _.
              IsKept-raised (sent (request cfg plan si price w, reply) (ended e)) e refl;
          at_again = λ left n w w' price code r more h. h;
        })
        (max_attempts cfg plan si) 1 (first_working cfg plan si market tp_override)
