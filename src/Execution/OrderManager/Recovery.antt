-- ===== src/Execution/OrderManager/Recovery.antt =====
-- An order that the broker refuses for a passing reason gets through on a later attempt.
use execution_engine_multi.Prelude.{
  ℕ, zero, suc, ◌+◌, ◌-◌, ◌<◌, ◌≤◌, ◌≡◌, refl, inl, inr, true, false, ◌&&◌, Option, none, some,
  arith, length, Bool-cases, leb, ltb, subst, if◌then◌else◌,
}
use execution_engine_multi.Prelude.Python.{Python}
use execution_engine_multi.Config.{ExecutionConfig}
use execution_engine_multi.Domain.Position.{SymbolInfo}
use execution_engine_multi.Domain.Trade.{TradePlan}
use execution_engine_multi.Brokers.{Tick, OrderRequest, OrderResult, Reply, done, refused}
use execution_engine_multi.Execution.OrderManager.{
  Run, Working, Market, opened, has_code, sent, on_refusal, is_retryable, on_fill, slips, widened,
  after_refusal, answer, attempt, attempts, max_attempts, execute_market_order, first_working,
  request, entry_quote,
}

-- A refusal that the order manager tries again on any but the last attempt.
pub data IsTransient {F : Type 0} : Reply F → Type 0 where
  transient : (code : Option ℕ) → is_retryable code ≡ true → IsTransient (refused code)

retryable-has_margin : (code : Option ℕ) → is_retryable code ≡ true → has_code 10019 code ≡ false
retryable-has_margin none e = cc
retryable-has_margin (some c) e = ground (arith, e)

past_the_end : (n last : ℕ) → n ≤ last → ¬ (last < n + 0)
past_the_end n last low high = omega (arith, low, high)

module _ {F : Type 0} ⦃py : Python F⦄ (cfg : ExecutionConfig F) (plan : TradePlan F)
    (si : SymbolInfo F) (market : Market F) where
  transient-retried :
      (n : ℕ) (price : F) (code : Option ℕ) (w : Working F)
      → is_retryable code ≡ true
      → n < max_attempts cfg plan si
      → on_refusal cfg plan si n price code w
        ≡ some (if has_code 10016 code then widened cfg plan si price w else w)
  unfolding on_refusal
  transient-retried n price code w ok early =
      let more : leb (max_attempts cfg plan si) n ≡ false = ground arith in
      rw (retryable-has_margin code ok, ok, more) refl

  -- The fill comes on attempt `last`.
  module _ (last : ℕ) (tick : ℕ → Tick F) (result : OrderResult F)
      (ticks : (i : ℕ) → i ≤ last → market.tick_at i ≡ some (tick i))
      (refusals : (i : ℕ) (r : OrderRequest F) → i < last → IsTransient (market.reply_at i r))
      (fill : (r : OrderRequest F) → market.reply_at last r ≡ done result)
      (kept : (slips cfg plan si result.executed_price && cfg.close_on_slippage_exceed) ≡ false)
      (in_time : last ≤ max_attempts cfg plan si) where
    abbrev GetsThrough : ℕ → Run F → Type 0
    GetsThrough n r = (r.outcome ≡ opened result) × (length r.exchanges ≡ suc last - n)

    through-last :
        (w : Working F) (rest : Working F → Run F)
        → GetsThrough last
            (attempt cfg plan si market last w rest (some (tick last)) (market.reply_at last))
    unfolding attempt answer on_fill sent
    through-last w rest =
        let r = request cfg plan si (entry_quote plan.side (tick last)) w in
        rw (fill r, kept) (refl, omega arith)

    through-refusal :
        (n : ℕ) (w : Working F) (price : F) (req : OrderRequest F) (rest : Working F → Run F)
        → n < last
        → ((w' : Working F) → GetsThrough (suc n) (rest w'))
        → (reply : Reply F) → IsTransient reply
        → GetsThrough n (sent (req, reply) (answer cfg plan si market n price w rest reply))
    unfolding answer after_refusal sent
    through-refusal n w price req rest early later _ (transient code ok) =
        let next = if has_code 10016 code then widened cfg plan si price w else w in
        let again = transient-retried n price code w ok (omega (arith, early, in_time)) in
        rw (again, answer, after_refusal) ((later next).0, omega (arith, (later next).1, early))

    through :
        (left n : ℕ) (w : Working F)
        → n ≤ last
        → last < n + left
        → GetsThrough n (attempts cfg plan si market left n w)
    unfolding attempts attempt
    through zero n w low high = elim (past_the_end n last low high) [ ]
    through (suc left) n w low high = elim (Bool-cases (ltb n last)) [
      | inl early ↦
          let price = entry_quote plan.side (tick n) in
          rw (ticks n low) (
            through-refusal n w price (request cfg plan si price w)
              (attempts cfg plan si market left (suc n)) (ground (arith, early))
              (λ w'. through left (suc n) w' (ground (arith, early)) (omega (arith, high)))
              (market.reply_at n (request cfg plan si price w))
              (refusals n (request cfg plan si price w) (ground (arith, early))))
      | inr late ↦
          let here : last ≡ n = ground (arith, late, low) in
          rw (ticks n low) (
            subst
              (λ i. GetsThrough i (
                attempt cfg plan si market i w (attempts cfg plan si market left (suc i))
                  (some (tick i)) (market.reply_at i)))
              here (through-last w (attempts cfg plan si market left (suc last))))
    ]

  -- If the broker quotes the symbol, refuses the attempts before `last` for a passing reason, fills
  -- attempt `last`, and the fill does not break the slippage rule, then the call returns that fill,
  -- after `last` orders: `last` is at most the number of attempts.
  pub execute_market_order-recovers :
      (last : ℕ) (tick : ℕ → Tick F) (result : OrderResult F)
      → ((i : ℕ) → i ≤ last → market.tick_at i ≡ some (tick i))
      → ((i : ℕ) (r : OrderRequest F) → i < last → IsTransient (market.reply_at i r))
      → ((r : OrderRequest F) → market.reply_at last r ≡ done result)
      → (slips cfg plan si result.executed_price && cfg.close_on_slippage_exceed) ≡ false
      → 1 ≤ last
      → last ≤ max_attempts cfg plan si
      → (tp_override : Option F)
      → let r = execute_market_order cfg plan si market tp_override in
        (r.outcome ≡ opened result) × (length r.exchanges ≡ last)
  unfolding execute_market_order
  execute_market_order-recovers last tick result ticks refusals fill kept first in_time
        tp_override =
      let h =
        through last tick result ticks refusals fill kept in_time (max_attempts cfg plan si) 1
          (first_working cfg plan si market tp_override) first (omega (arith, in_time)) in
      (h.0, omega (arith, h.1))
