-- ===== src/Execution/State.antt =====
-- src/execution/engine.py: the state of `ExecutionEngine`, what its collaborators answer in one
-- call of `execute`, what the call does to the outside, and the monad of its steps.
pub mod Pending
use execution_engine_multi.Prelude.{
  set_add, discard, ℕ, ◌+◌, ◌-◌, String, Bool, Option, none, some, List, [], ◌∷◌, ◌++◌, Dict,
  lookup, insert, erase, values, or_default, eqb, if◌then◌else◌,
}
use execution_engine_multi.Domain.Signal.{InboundSignal}
use execution_engine_multi.Domain.Position.{AccountInfo, SymbolInfo}
use execution_engine_multi.Domain.Trade.{Trade, TradePlan}
use execution_engine_multi.Risk.Rules.Context.{Clock, RiskReason, Trackers}

pub data RejectReason : Type 0 where
  persistence_unavailable stale_signal duplicate_signal : RejectReason
  risk : RiskReason → RejectReason

pub data ErrorReason : Type 0 where
  broker_unavailable planning_failed autotrading_disabled order_failed : ErrorReason
  tracking_failed_after_fill persistence_failed_after_fill : ErrorReason

-- What a call does outside the engine: the events that it emits, with the id of the signal, the
-- orders that it sends, the changes of levels, and the rows that it saves.
pub data Effect (F : Type 0) : Type 0 where
  risk_rejected : String → RejectReason → Effect F
  risk_approved execution_attempted : String → Effect F
  trade_planned : TradePlan F → Effect F
  order_sent : TradePlan F → Effect F
  levels_sent : (ticket : ℕ) (sl tp : F) → Effect F
  trade_saved trade_opened : Trade F → Effect F
  trade_error : String → ErrorReason → Effect F

-- The fields of the engine, with the store and the trackers that it shares.
pub record EngineState (F : Type 0) : Type 0 where
  pub pending : Dict ℕ
  pub pending_signal_ids : List String
  pub daily_loss_pct : F
  pub persistence_available : Bool
  pub trackers : Trackers F
  pub store : Dict (Trade F)
  pub trace : List (Effect F)

-- `execute_market_order`: the ticket, the price and the volume, or an exception, which says or not
-- that automated trading is disabled.
pub data OrderOutcome (F : Type 0) : Type 0 where
  filled : (ticket : ℕ) (price volume : F) → OrderOutcome F
  failed : (is_autotrading_disabled : Bool) → OrderOutcome F

-- The answers of the clock and of the collaborators in one call. `health` is `none` where the
-- repository has no health check; `broker` and `plan` are `none` where they raise.
pub record Answers (F : Type 0) : Type 0 where
  pub pipeline_start : ℕ
  pub health : Option Bool
  pub broker : Option (AccountInfo F × SymbolInfo F)
  pub clock : Clock
  pub reserve_day : ℕ
  pub release_day : ℕ
  pub open_day : ℕ
  pub plan : InboundSignal F → AccountInfo F → SymbolInfo F → F → Option (TradePlan F)
  pub order : TradePlan F → OrderOutcome F
  pub opened_at : ℕ
  pub trade_id : String
  pub is_tracked : Bool
  pub is_saved : Bool

-- A step reads and writes the state, and ends the call with `None` or hands a value on.
abbrev pub Step : Type 0 → Type 0 → Type 0
Step F A = EngineState F → EngineState F × Option A

module _ {F : Type 0} {A : Type 0} where
  abbrev pub go_on : A → Step F A
  go_on a st = (st, some a)

  abbrev pub leave : Step F A
  leave st = (st, none)

infixl 5 ◌>>=◌ ◌>>◌
abbrev pub ◌>>=◌ : {F A B : Type 0} → Step F A → (A → Step F B) → Step F B
◌>>=◌ m f st = let (st', r) = m st in elim r [ none ↦ (st', none) | some a ↦ f a st' ]

abbrev pub ◌>>◌ : {F B : Type 0} → Step F (Unit {0}) → Step F B → Step F B
m >> k = m >>= λ _. k

module _ {F : Type 0} where
  abbrev pub emit : Effect F → Step F (Unit {0})
  emit e st = (record st { trace = st.trace ++ e ∷ [] }, some tt)

abbrev pub total : List ℕ → ℕ
total [] = 0
total (n ∷ ns) = n + total ns

-- `_pending_total` and `_pending_for`
unfoldable pub pending_total : Dict ℕ → ℕ
pending_total pending = total (values pending)

unfoldable pub pending_for : String → Dict ℕ → ℕ
pending_for symbol pending = or_default (lookup symbol pending) 0

-- `_reserve` and `_release` on the counts.
unfoldable pub count_up : String → Dict ℕ → Dict ℕ
unfolding pending_for
count_up symbol pending = insert symbol (pending_for symbol pending + 1) pending

-- `max(0, n - 1)` is the subtraction of natural numbers.
unfoldable pub count_down : String → Dict ℕ → Dict ℕ
unfolding pending_for
count_down symbol pending =
    let left = pending_for symbol pending - 1 in
    if eqb left 0 then erase symbol (insert symbol left pending) else insert symbol left pending

module _ {F : Type 0} where
  unfoldable pub reserve : String → String → EngineState F → EngineState F
  unfolding count_up
  reserve symbol sid st = record st {
    pending = count_up symbol st.pending;
    pending_signal_ids = set_add sid st.pending_signal_ids;
  }

  unfoldable pub release : String → String → EngineState F → EngineState F
  unfolding count_down
  release symbol sid st = record st {
    pending = count_down symbol st.pending;
    pending_signal_ids = discard sid st.pending_signal_ids;
  }
