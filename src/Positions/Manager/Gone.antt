-- ===== src/Positions/Manager/Gone.antt =====
-- src/positions/manager.py: `_handle_position_gone`, for a trade whose position the broker no longer
-- reports. The counters of won and lost trades are not modelled.
use execution_engine_multi.Prelude.{Bool, true, false, Option, none, some, Dict, if◌then◌else◌}
use execution_engine_multi.Prelude.Python.{Python, zero_f}
use execution_engine_multi.Domain.Trade.{
  buy, sell, Trade, closed, CloseReason, tp2_hit, sl_hit, manual, closed_while_down,
}
use execution_engine_multi.Positions.Store
use execution_engine_multi.Positions.Manager.{is_stub, calculate_realized_rr}
use execution_engine_multi.Positions.Manager.State.{
  ManagerState, Broker, save_called, trade_tp2_hit, trade_sl_hit, trade_closed, emit, with_store,
}

-- How a trade ended, where its price is known: its prices are none for a stub.
pub record Ending (F : Type 0) : Type 0 where
  pub reached_tp2 : Bool
  pub reached_sl : Bool
  pub reason : CloseReason
  pub price : Option F
  pub rr : Option F

module _ {F : Type 0} ⦃py : Python F⦄ where
  pub stub_ending : Ending F
  stub_ending = record {
    reached_tp2 = false;
    reached_sl = false;
    reason = closed_while_down;
    price = none;
    rr = none;
  }

  -- `a or b` on prices.
  abbrev or_price : Option F → F → F
  or_price none d = d
  or_price (some x) d = if py.eqb x zero_f then d else x

  -- The last price against the levels; without one the stop is taken to be hit.
  at_tp2 : Trade F → F → Bool
  at_tp2 t last = elim t.side [ buy ↦ py.leb t.tp2 last | sell ↦ py.leb last t.tp2 ]

  at_sl : Trade F → F → Bool
  at_sl t last = elim t.side [ buy ↦ py.leb last t.stop_loss | sell ↦ py.leb t.stop_loss last ]

  ending_with : Trade F → Option F → (tp2 sl : Bool) → Ending F
  ending_with t last tp2 sl =
      let price = or_price last (or_price (some t.tp2) (or_price t.entry_price zero_f)) in
      record {
        reached_tp2 = tp2;
        reached_sl = sl;
        reason = if tp2 then tp2_hit else if sl then sl_hit else manual;
        price = some price;
        rr = some (calculate_realized_rr t price);
      }

  pub ending : Trade F → Option F → Ending F
  ending t none = ending_with t none false true
  ending t (some last) =
      if py.eqb t.tp2 zero_f
      then ending_with t (some last) false true
      else ending_with t (some last) (at_tp2 t last) (at_sl t last)

  module _ (b : Broker F) where
    -- The price that the polls saw last, or that of the closing deal: `none` where
    -- `get_deal_price_for_ticket` raises.
    seen_price : Trade F → ManagerState F → Option F
    seen_price t st = elim t.entry_ticket [ none ↦ none | some ticket ↦ st.last_price ticket ]

    pub known_price : Trade F → ManagerState F → Option (Option F)
    known_price t st = elim (seen_price t st) [
      | none ↦ b.deal_price t.entry_ticket
      | some last ↦ some (some last)
    ]

    -- `_last_price.pop(trade.entry_ticket, None)`
    unfoldable pub forget_price : Trade F → ManagerState F → ManagerState F
    forget_price t st = record st {
      last_price = λ k. if Store.has_ticket k t.entry_ticket then none else st.last_price k;
    }

    unfoldable pub mark_closed : Ending F → Trade F → Trade F
    mark_closed e old = record old {
      was_tp2_hit = e.reached_tp2;
      tp2_hit_at = if e.reached_tp2 then some b.now else none;
      was_sl_hit = e.reached_sl;
      sl_hit_at = if e.reached_sl then some b.now else none;
      status = closed;
      close_reason = some e.reason;
      close_price = e.price;
      closed_at = some b.now;
      realized_rr = e.rr;
    }

    -- The event of the level, and the one of the close.
    unfoldable pub level_event : Ending F → Trade F → ManagerState F → ManagerState F
    level_event e t st =
        if e.reached_tp2
        then emit (trade_tp2_hit t) st
        else if e.reached_sl
        then emit (trade_sl_hit t) st
        else st

    unfoldable pub settle :
        Ending F → Dict (Trade F) × Option (Trade F) → ManagerState F → ManagerState F
    settle e (trades, none) st = with_store trades st
    settle e (trades, some t) st =
        let saved = emit (save_called t) (with_store (Store.remove t.id trades) st) in
        emit (trade_closed t) (level_event e t saved)

    unfoldable pub end_trade : Trade F → Ending F → ManagerState F → ManagerState F
    end_trade t e st = settle e (Store.update t.id (mark_closed e) b.now st.store) st

    -- Without an answer about the deal the exception ends the poll, and the trade stays.
    unfoldable pub end_priced : Trade F → Option (Option F) → ManagerState F → ManagerState F
    end_priced t none st = record (forget_price t st) { is_aborted = true }
    end_priced t (some price) st = end_trade t (ending t price) (forget_price t st)

    unfoldable pub handle_position_gone : Trade F → ManagerState F → ManagerState F
    handle_position_gone t st =
        if t.was_tp2_hit
        then st
        else if is_stub t
        then end_trade t stub_ending st
        else end_priced t (known_price t st) st
