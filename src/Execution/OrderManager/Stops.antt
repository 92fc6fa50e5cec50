-- ===== src/Execution/OrderManager/Stops.antt =====
-- The levels of the orders of one call: widening moves them outward only.
use execution_engine_multi.Prelude.{
  sym, ℕ, ◌≡◌, inl, inr, false, not, ◌||◌, ◌&&◌, Option, some, Bool-cases, if_ind, leb, All, subst,
  some-injective, none-ne-some, or_default,
}
use execution_engine_multi.Prelude.Python.{Python, FloatOrder}
use execution_engine_multi.Config.{ExecutionConfig}
use execution_engine_multi.Domain.Position.{SymbolInfo}
use execution_engine_multi.Domain.Trade.{OrderSide, buy, sell, TradePlan}
use execution_engine_multi.Prelude.Python.Order.{not_above, min_f_le, max_f_ge}
use execution_engine_multi.Execution.OrderManager.{
  Run, Working, Market, has_code, ended, sent, on_refusal, is_retryable, on_no_money, widened,
  widen_stops, on_fill, slips, max_attempts, execute_market_order, first_working, request, halved,
}
use execution_engine_multi.Execution.OrderManager.Attempts.{attempts_ind, close_slipped-no_orders}

module _ {F : Type 0} ⦃py : Python F⦄ where
  -- The levels `sl` and `tp` are not nearer to the entry than `sl0` and `tp0`.
  pub IsOutward : OrderSide → (sl0 tp0 sl tp : F) → Type 0
  IsOutward buy sl0 tp0 sl tp = (py.ltb sl0 sl ≡ false) × (py.ltb tp tp0 ≡ false)
  IsOutward sell sl0 tp0 sl tp = (py.ltb sl sl0 ≡ false) × (py.ltb tp0 tp ≡ false)

  module _ (laws : FloatOrder py) where
    -- Widened levels are not nearer than the old ones, and at least the distance from the price.
    widen_stops-IsOutward :
        (side : OrderSide) (entry sl tp min_dist : F)
        → let (sl', tp') = widen_stops side entry sl tp min_dist in
          IsOutward side sl tp sl' tp'
          × IsOutward side
              (elim side [ buy ↦ py.sub entry min_dist | sell ↦ py.add entry min_dist ])
              (elim side [ buy ↦ py.add entry min_dist | sell ↦ py.sub entry min_dist ])
              sl'
              tp'
    unfolding widen_stops IsOutward
    widen_stops-IsOutward buy entry sl tp d =
        let down = min_f_le laws sl (py.sub entry d) in
        let up = max_f_ge laws tp (py.add entry d) in ((down.0, up.0), (down.1, up.1))
    widen_stops-IsOutward sell entry sl tp d =
        let down = min_f_le laws tp (py.sub entry d) in
        let up = max_f_ge laws sl (py.add entry d) in ((up.0, down.0), (up.1, down.1))

    IsOutward-trans :
        (side : OrderSide) (sl0 tp0 sl tp sl' tp' : F)
        → IsOutward side sl0 tp0 sl tp
        → IsOutward side sl tp sl' tp'
        → IsOutward side sl0 tp0 sl' tp'
    unfolding IsOutward
    IsOutward-trans buy sl0 tp0 sl tp sl' tp' h k =
        (not_above laws sl0 sl sl' h.0 k.0, not_above laws tp' tp tp0 k.1 h.1)
    IsOutward-trans sell sl0 tp0 sl tp sl' tp' h k =
        (not_above laws sl' sl sl0 k.0 h.0, not_above laws tp0 tp tp' h.1 k.1)

    IsOutward-refl : (side : OrderSide) (sl tp : F) → IsOutward side sl tp sl tp
    unfolding IsOutward
    IsOutward-refl buy sl tp = (laws.lt_irrefl sl, laws.lt_irrefl tp)
    IsOutward-refl sell sl tp = (laws.lt_irrefl sl, laws.lt_irrefl tp)

    module _ (cfg : ExecutionConfig F) (plan : TradePlan F) (si : SymbolInfo F)
        (market : Market F) where
      abbrev IsWide : Working F → Working F → Type 0
      IsWide w w' = IsOutward plan.side w.sl w.tp w'.sl w'.tp

      on_no_money-IsWide : (w w' : Working F) → on_no_money cfg plan si w ≡ some w' → IsWide w w'
      unfolding on_no_money
      on_no_money-IsWide w w' e =
          elim (Bool-cases (w.is_halved || py.ltb (halved cfg plan si w.volume) si.lot_min)) [
            | inl over ↦ elim (none-ne-some w' (rw over at e)) [ ]
            | inr fits ↦
                subst (IsWide w) (some-injective _ _ (rw fits at e))
                  (IsOutward-refl plan.side w.sl w.tp)
          ]

      on_refusal-IsWide :
          (n : ℕ) (price : F) (code : Option ℕ) (w w' : Working F)
          → on_refusal cfg plan si n price code w ≡ some w'
          → IsWide w w'
      unfolding on_refusal widened
      on_refusal-IsWide n price code w w' e = elim (Bool-cases (has_code 10019 code)) [
        | inl poor ↦ on_no_money-IsWide w w' (rw poor at e)
        | inr other ↦
            elim (Bool-cases (not (is_retryable code) || leb (max_attempts cfg plan si) n)) [
              | inl last ↦ elim (none-ne-some w' (rw (other, last) at e)) [ ]
              | inr early ↦ subst (IsWide w) (some-injective _ _ (rw (other, early) at e)) (
                  if_ind (IsWide w) (has_code 10016 code)
                    (widen_stops-IsOutward plan.side price w.sl w.tp _).0
                    (IsOutward-refl plan.side w.sl w.tp))
            ]
      ]

      -- No order of a call has its levels nearer to the entry than the plan's stop and the target
      -- of the call.
      pub execute_market_order-IsOutward :
          (tp_override : Option F)
          → All
              (λ x.
                IsOutward plan.side plan.stop_loss (or_default tp_override plan.tp2) x.0.sl x.0.tp)
              (execute_market_order cfg plan si market tp_override).exchanges
      unfolding execute_market_order sent ended on_fill request first_working
      execute_market_order-IsOutward tp_override =
          attempts_ind cfg plan si market
            (λ left n w r.
              IsFrom w → All (λ x. IsOutward plan.side sl0 tp0 x.0.sl x.0.tp) r.exchanges)
            (record {
              at_end = λ n w ok. tt;
              at_no_tick = λ left n w ok. tt;
              at_fill = λ left n w price result ok.
                  if_ind
                    (λ (r : Run F).
                      IsFrom w × All (λ x. IsOutward plan.side sl0 tp0 x.0.sl x.0.tp) r.exchanges)
                    (slips cfg plan si result.executed_price && cfg.close_on_slippage_exceed)
                    (
                      ok,
                      subst (λ xs. All (λ x. IsOutward plan.side sl0 tp0 x.0.sl x.0.tp) xs)
                          (sym
                            (close_slipped-no_orders cfg plan si market market.close_tick result))
                          tt,
                    )
                    (ok, tt);
              at_error = λ left n w price reply e no _ ok. (ok, tt);
              at_again = λ left n w w' price code r more h ok. (
                ok,
                h (
                    IsOutward-trans plan.side sl0 tp0 w.sl w.tp w'.sl w'.tp ok
                      (on_refusal-IsWide n price code w w' more)),
              );
            })
            (max_attempts cfg plan si) 1 (first_working cfg plan si market tp_override)
            (IsOutward-refl plan.side sl0 tp0)
        where
          sl0 : F
          sl0 = plan.stop_loss

          tp0 : F
          tp0 = or_default tp_override plan.tp2

          IsFrom : Working F → Type 0
          IsFrom w = IsOutward plan.side sl0 tp0 w.sl w.tp
