-- ===== src/Execution/OrderManager/Attempts.antt =====
-- The retry loop of src/execution/order_manager.py: its induction, the number of its orders, and
-- what becomes of the fills.
use execution_engine_multi.Prelude.{
  ℕ, zero, suc, ◌≡◌, ◌≢◌, refl, inl, inr, Bool, true, false, [], if◌then◌else◌, Option, none, some,
  Option-cases,
}
use execution_engine_multi.Prelude.Python.{Python}
use execution_engine_multi.Config.{ExecutionConfig}
use execution_engine_multi.Domain.Position.{SymbolInfo}
use execution_engine_multi.Domain.Trade.{TradePlan}
use execution_engine_multi.Brokers.{
  Tick, OrderRequest, OrderResult, Reply, done, unconfirmed, refused, broken,
}
use execution_engine_multi.Execution.OrderManager.{
  Run, Working, Market, Outcome, raised, OrderError, exhausted, slippage_closed, close_failed,
  close_slipped, emergency_close, no_tick, not_sent, rejected_with, ended, sent, request,
  on_refusal, on_fill, after_refusal, answer, attempt, attempts, entry_quote,
}

-- An answer that is not a confirmed fill, and the exception that it may end the call with.
pub data IsRefusal {F : Type 0} : Reply F → OrderError → Type 0 where
  refusal : (code : Option ℕ) → IsRefusal (refused code) (rejected_with code)
  breakdown : IsRefusal broken not_sent
  no_confirmation : (result : OrderResult F) → IsRefusal (unconfirmed result) (rejected_with none)

module _ {F : Type 0} ⦃py : Python F⦄ (cfg : ExecutionConfig F) (plan : TradePlan F)
    (si : SymbolInfo F) (market : Market F) where
  -- A fill that slipped sends no further order, and the call raises.
  pub close_slipped-no_orders :
      (tick : Option (Tick F)) (result : OrderResult F)
      → (close_slipped cfg plan si market tick result).exchanges ≡ []
  unfolding close_slipped ended
  close_slipped-no_orders none result = refl
  close_slipped-no_orders (some tick) result = refl

  pub close_slipped-raises :
      (tick : Option (Tick F)) (result : OrderResult F)
      → (e : OrderError) × ((close_slipped cfg plan si market tick result).outcome ≡ raised e)
        × (e ≢ exhausted)
  unfolding close_slipped ended
  close_slipped-raises none result = (close_failed, refl, λ e. cc)
  close_slipped-raises (some tick) result =
      by_answer (market.close_ok (emergency_close cfg plan si tick result))
    where
      by_answer :
          (ok : Bool)
          → (e : OrderError) × (◌≡◌ {A = Outcome F}
              (raised (if ok then slippage_closed else close_failed))
              (raised e))
            × (e ≢ exhausted)
      by_answer true = (slippage_closed, refl, λ e. cc)
      by_answer false = (close_failed, refl, λ e. cc)

  not_retried : (n : ℕ) (price : F) (w : Working F) → on_refusal cfg plan si n price none w ≡ none
  unfolding on_refusal
  not_retried n price w = refl

  -- A property of the loop, from one of its ends and through one refusal.
  pub record Steps (P : ℕ → ℕ → Working F → Run F → Type 0) : Type 0 where
    pub at_end : (n : ℕ) (w : Working F) → P zero n w (ended exhausted)
    pub at_no_tick : (left n : ℕ) (w : Working F) → P (suc left) n w (ended no_tick)
    pub at_fill :
        (left n : ℕ) (w : Working F) (price : F) (result : OrderResult F)
        → P
            (suc left)
            n
            w
            (sent (request cfg plan si price w, done result) (on_fill cfg plan si market result))
    pub at_error :
        (left n : ℕ) (w : Working F) (price : F) (reply : Reply F) (e : OrderError)
        → IsRefusal reply e
        → ◌≢◌ {A = Outcome F} (raised e) (raised exhausted)
        → P (suc left) n w (sent (request cfg plan si price w, reply) (ended e))
    pub at_again :
        (left n : ℕ) (w w' : Working F) (price : F) (code : Option ℕ) (r : Run F)
        → on_refusal cfg plan si n price code w ≡ some w'
        → P left (suc n) w' r
        → P (suc left) n w (sent (request cfg plan si price w, refused code) r)

  module _ (P : ℕ → ℕ → Working F → Run F → Type 0) (s : Steps P) where
    -- One round, if the rounds after it have the property.
    module _ (left n : ℕ) (w : Working F) (rest : Working F → Run F)
        (later : (w' : Working F) → P left (suc n) w' (rest w')) where
      by_reply :
          (price : F) (reply : Reply F)
          → P (suc left) n w (
              sent
                (request cfg plan si price w, reply)
                (answer cfg plan si market n price w rest reply))
      unfolding answer after_refusal
      by_reply price (done result) = s.at_fill left n w price result
      by_reply price broken = s.at_error left n w price broken not_sent breakdown (λ e. cc)
      by_reply price (unconfirmed result) =
          rw (not_retried n price w, answer, after_refusal)
            (s.at_error left n w price (unconfirmed result) (rejected_with none)
              (no_confirmation result) (λ e. cc))
      by_reply price (refused code) = elim (Option-cases (on_refusal cfg plan si n price code w)) [
        | inl gone ↦
            rw (gone, answer, after_refusal)
              (s.at_error left n w price (refused code) (rejected_with code) (refusal code)
                (λ e. cc))
        | inr (w', more) ↦
            rw (more, answer, after_refusal) (s.at_again left n w w' price code _ more (later w'))
      ]

      by_tick :
          (tick : Option (Tick F)) (reply : OrderRequest F → Reply F)
          → P (suc left) n w (attempt cfg plan si market n w rest tick reply)
      unfolding attempt
      by_tick none reply = s.at_no_tick left n w
      by_tick (some tick) reply = by_reply (entry_quote plan.side tick) _

    pub attempts_ind :
        (left n : ℕ) (w : Working F) → P left n w (attempts cfg plan si market left n w)
    unfolding attempts
    attempts_ind zero n w = s.at_end n w
    attempts_ind (suc left) n w =
        by_tick left n w (attempts cfg plan si market left (suc n)) (attempts_ind left (suc n))
          (market.tick_at n) (market.reply_at n)
