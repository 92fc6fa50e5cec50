-- ===== src/Risk/Rules/Memory/Hedging.antt =====
-- What the hedging rule compares.
use execution_engine_multi.Prelude.{
  ◌≡◌, refl, String, ◌==◌, false, none, List, [], ◌∷◌, All, find_first, Bool-cases, inl, inr,
}
use execution_engine_multi.Prelude.Python.{Python}
use execution_engine_multi.Domain.Signal.{InboundSignal}
use execution_engine_multi.Domain.Trade.{Trade}
use execution_engine_multi.Risk.Rules.Context.{RuleContext, Trackers, approve}
use execution_engine_multi.Risk.Rules.Memory.{opposes, no_hedging_rule}

module _ {F : Type 0} ⦃py : Python F⦄ where
  opposes-none :
      (s : InboundSignal F) (broker_name : String) (ts : List (Trade F))
      → (broker_name == s.symbol) ≡ false
      → All (λ t. t.symbol ≡ broker_name) ts
      → find_first (opposes s) ts ≡ none
  opposes-none s broker_name [] other same = refl
  opposes-none s broker_name (t ∷ ts) other same =
      simp (same.0, other, opposes-none s broker_name ts other same.1)

  -- If all open trades have one symbol and the raw symbol of the signal is another, the hedging rule
  -- approves, whatever their sides are.
  no_hedging-other_name :
      (ctx : RuleContext F) (ts : Trackers F) (broker_name : String)
      → (broker_name == ctx.signal.symbol) ≡ false
      → All (λ t. t.symbol ≡ broker_name) ctx.open_trades
      → (no_hedging_rule ctx ts).1 ≡ approve
  unfolding no_hedging_rule
  no_hedging-other_name ctx ts broker_name other same = elim (Bool-cases ctx.config.no_hedging) [
    | inl on ↦ simp (on, opposes-none ctx.signal broker_name ctx.open_trades other same)
    | inr off ↦ simp off
  ]
