-- ===== src/Positions/Manager/Lifecycle.antt =====
-- src/positions/manager.py: `_handle_tp1_price_reached` and `_handle_position_gone`. The trade is the
-- copy that the poll took from the store.
use execution_engine_multi.Prelude.{
  ℕ, true, false, ◌&&◌, ◌||◌, Option, none, some, is_some, is_none, or_default, Dict, if◌then◌else◌,
}
use execution_engine_multi.Prelude.Python.{Python, zero_f, min_f}
use execution_engine_multi.Config.{ExecutionConfig}
use execution_engine_multi.Domain.Position.{SymbolInfo, order_filling_mode}
use execution_engine_multi.Domain.Trade.{OrderSide, buy, sell, Trade, partially_closed}
use execution_engine_multi.Brokers.{
  Tick, CloseRequest, CloseReply, executed, executed_unconfirmed, failed, ModifyRequest,
}
use execution_engine_multi.Utils.Price.{normalise_lots}
use execution_engine_multi.Positions.Store
use execution_engine_multi.Positions.Manager.{truthy_ticket, valid_breakeven_sl}
use execution_engine_multi.Positions.Manager.State.{
  ManagerState, Broker, close_sent, levels_sent, save_called, trade_tp1_hit, emit, with_store,
}

-- What the first step hands to the second: the price of the partial close, and the quotes.
pub record Partial (F : Type 0) : Type 0 where
  pub close_price : Option F
  pub info : Option (SymbolInfo F)
  pub quote : Option (Tick F)

-- How the second step ends: without a break-even stop to set, with the stop set, with a failure, or
-- with the return that defers the move.
pub data Move (F : Type 0) : Type 0 where
  moved : F → Move F
  unmoved deferred : Move F

module _ {F : Type 0} ⦃py : Python F⦄ (cfg : ExecutionConfig F) (b : Broker F) where
  abbrev exit_price : OrderSide → Tick F → F
  exit_price buy t = t.bid
  exit_price sell t = t.ask

  pub tp1_close : Trade F → ℕ → SymbolInfo F → Tick F → CloseRequest F
  tp1_close t ticket si tick = record {
    ticket = ticket;
    symbol = t.symbol;
    side = t.side;
    volume =
        normalise_lots t.tp1_lots si.volume_step si.volume_min (min_f si.volume_max t.current_lots);
    price = exit_price t.side tick;
    slippage = cfg.slippage;
    magic = cfg.magic;
    filling_mode = order_filling_mode si;
  }

  -- The `setattr` calls after the partial close.
  unfoldable pub mark_partial : Trade F → F → Trade F → Trade F
  mark_partial t price old = record old {
    tp1_close_price = some price;
    current_lots = py.round (py.sub t.current_lots t.tp1_lots) 2;
    status = partially_closed;
  }

  -- The row is saved where the store knows the trade. A failed save is logged.
  unfoldable pub save_known : Dict (Trade F) × Option (Trade F) → ManagerState F → ManagerState F
  save_known (trades, none) st = with_store trades st
  save_known (trades, some t) st = emit (save_called t) (with_store trades st)

  -- The close order, and what the return of `close_position` changes. An exception is caught, also the
  -- one that a close that is done, but not confirmed, raises.
  unfoldable pub after_close :
      Trade F
      → SymbolInfo F
      → Tick F
      → CloseRequest F
      → CloseReply
      → ManagerState F
      → ManagerState F × Partial F
  after_close t si tick order executed st = (
    save_known (Store.update t.id (mark_partial t order.price) b.now st.store)
        (emit (close_sent order executed) st),
    record { close_price = some order.price; info = some si; quote = some tick },
  )
  after_close t si tick order executed_unconfirmed st = (
    emit (close_sent order executed_unconfirmed) st,
    record { close_price = none; info = some si; quote = some tick },
  )
  after_close t si tick order failed st = (
    emit (close_sent order failed) st,
    record { close_price = none; info = some si; quote = some tick },
  )

  unfoldable pub send_partial :
      Trade F → ℕ → SymbolInfo F → Tick F → ManagerState F → ManagerState F × Partial F
  send_partial t ticket si tick st =
      let order = tp1_close t ticket si tick in after_close t si tick order (b.close order) st

  -- The quotes first: without one of them nothing is sent, and the exception is caught.
  unfoldable pub try_partial :
      Trade F
      → Option (SymbolInfo F)
      → Option (Tick F)
      → ManagerState F
      → ManagerState F × Partial F
  try_partial t none quote st = (st, record { close_price = none; info = none; quote = none })
  try_partial t (some si) none st =
      (st, record { close_price = none; info = some si; quote = none })
  try_partial t (some si) (some tick) st = send_partial t (or_default t.entry_ticket 0) si tick st

  -- Step 1. Nothing is closed without lots, without a ticket, or a second time.
  unfoldable pub partial_close : Trade F → ManagerState F → ManagerState F × Partial F
  partial_close t st =
      if is_none t.tp1_close_price && py.ltb zero_f t.tp1_lots && truthy_ticket t.entry_ticket
      then try_partial t (b.symbol_info t.symbol) (b.tick t.symbol) st
      else (st, record { close_price = t.tp1_close_price; info = none; quote = none })

  -- The stop is sent to the broker; a refusal is caught.
  unfoldable pub send_stop : Trade F → F → ManagerState F → ManagerState F × Move F
  send_stop t sl st =
      let order : ModifyRequest F = record {
        ticket = or_default t.entry_ticket 0;
        sl = sl;
        tp = t.tp2;
      } in
      if b.modify_ok order
      then (emit (levels_sent order true) st, moved sl)
      else (emit (levels_sent order false) st, unmoved)

  -- `x if x is not None else again`
  abbrev first_of : {A : Type 0} → Option A → Option A → Option A
  first_of none again = again
  first_of (some x) again = some x

  -- A stop that the broker's distance does not allow is deferred, or fails after a partial close.
  unfoldable pub propose_stop :
      Trade F → Partial F → Option F → ManagerState F → ManagerState F × Move F
  propose_stop t p none st = (st, if is_none p.close_price then deferred else unmoved)
  propose_stop t p (some sl) st = send_stop t sl st

  unfoldable pub try_stop :
      Trade F
      → Partial F
      → Option (SymbolInfo F)
      → Option (Tick F)
      → ManagerState F
      → ManagerState F × Move F
  try_stop t p none quote st = (st, unmoved)
  try_stop t p (some si) none st = (st, unmoved)
  try_stop t p (some si) (some tick) st =
      propose_stop t p
        (valid_breakeven_sl t si tick cfg.breakeven_spread_multiplier
          cfg.breakeven_max_buffer_pct_of_risk)
        st

  -- Step 2.
  unfoldable pub move_stop : Trade F → Partial F → ManagerState F → ManagerState F × Move F
  move_stop t p st =
      if cfg.move_sl_to_be_on_tp1 && truthy_ticket t.entry_ticket
      then try_stop t p (first_of p.info (b.be_symbol_info t.symbol))
          (first_of p.quote (b.be_tick t.symbol)) st
      else (st, unmoved)

  -- The `setattr` calls of step 3. The lots are those of the store, or of the copy.
  unfoldable pub mark_tp1 : Trade F → Partial F → (new_sl current_lots : F) → Trade F → Trade F
  mark_tp1 t p new_sl current_lots old = record old {
    was_tp1_hit = true;
    tp1_hit_at = some b.now;
    tp1_close_price = p.close_price;
    current_lots = current_lots;
    status = if is_some p.close_price then partially_closed else t.status;
    stop_loss = new_sl;
  }

  -- The event waits for the row to be saved.
  unfoldable pub announce_tp1 : Dict (Trade F) × Option (Trade F) → ManagerState F → ManagerState F
  announce_tp1 (trades, none) st = with_store trades st
  announce_tp1 (trades, some t) st =
      let saved = emit (save_called t) (with_store trades st) in
      if b.save_ok t then emit (trade_tp1_hit t) saved else saved

  unfoldable pub finish_tp1 : Trade F → Partial F → F → ManagerState F → ManagerState F
  finish_tp1 t p new_sl st =
      let latest = or_default (Store.get t.id st.store) t in
      announce_tp1 (Store.update t.id (mark_tp1 t p new_sl latest.current_lots) b.now st.store) st

  -- Step 3: both returns before the update.
  unfoldable pub complete_tp1 : Trade F → Partial F → Move F → ManagerState F → ManagerState F
  complete_tp1 t p deferred st = st
  complete_tp1 t p unmoved st =
      if py.ltb zero_f t.tp1_lots && is_none p.close_price || cfg.move_sl_to_be_on_tp1
      then st
      else finish_tp1 t p t.stop_loss st
  complete_tp1 t p (moved sl) st =
      if py.ltb zero_f t.tp1_lots && is_none p.close_price then st else finish_tp1 t p sl st

  unfoldable pub handle_tp1_price_reached : Trade F → ManagerState F → ManagerState F
  handle_tp1_price_reached t st =
      let first = partial_close t st in
      let second = move_stop t first.1 first.0 in complete_tp1 t first.1 second.1 second.0
