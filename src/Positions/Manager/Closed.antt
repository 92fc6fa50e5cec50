-- ===== src/Positions/Manager/Closed.antt =====
-- What is left of a trade whose position is gone.
use execution_engine_multi.Prelude.{
  ◌≡◌, refl, sym, ap, ◌∙◌, subst, Bool, true, false, Option, none, some, List, [], ◌∷◌, ◌++◌, Dict,
  append-nil, if_false, if_true, inl, inr, Bool-cases, Option-cases, if◌then◌else◌, some-injective,
  none-ne-some,
}
use execution_engine_multi.Prelude.Python.{Python}
use execution_engine_multi.Domain.Trade.{Trade, closed}
use execution_engine_multi.Positions.Store.{update, remove, get}
use execution_engine_multi.Positions.Store.Stored.{get-update-some, get-remove}
use execution_engine_multi.Positions.Manager.{is_stub}
use execution_engine_multi.Positions.Manager.State.{
  ManagerState, Broker, Effect, save_called, trade_tp2_hit, trade_sl_hit, trade_closed, emit,
  with_store,
}
use execution_engine_multi.Positions.Manager.Gone.{
  Ending, mark_closed, level_event, settle, end_trade, forget_price, end_priced,
  handle_position_gone, stub_ending, ending, known_price,
}
use execution_engine_multi.Positions.Manager.Quiet.{IsQuiet, again}

module _ {F : Type 0} where
  abbrev pub events_of : (tp2 sl : Bool) → Trade F → List (Effect F)
  events_of true sl c = trade_tp2_hit c ∷ []
  events_of false true c = trade_sl_hit c ∷ []
  events_of false false c = []

  -- The event of the level at which a trade closed: none for any other close.
  abbrev pub level_events : Trade F → List (Effect F)
  level_events c = events_of c.was_tp2_hit c.was_sl_hit c

  -- The trade is out of the store, `save` is called with its closed row, and the events are sent in this
  -- order.
  pub record IsClosedAs (t : Trade F) (before after : ManagerState F) : Type 0 where
    pub last : Trade F
    pub is_closed : last.status ≡ closed
    pub same_id : last.id ≡ t.id
    pub gone : get t.id after.store ≡ none
    pub events :
        after.trace
        ≡ before.trace ++ save_called last ∷ (level_events last ++ trade_closed last ∷ [])

regroup :
    {A : Type 0} (xs : List A) (x : A) (ys zs : List A)
    → ((xs ++ x ∷ []) ++ ys) ++ zs ≡ xs ++ x ∷ (ys ++ zs)
regroup [] x ys zs = refl
regroup (w ∷ xs) x ys zs = ap (λ (rest : List _). w ∷ rest) (regroup xs x ys zs)

module _ {F : Type 0} where
  -- Only the trace of the state before counts.
  pub IsClosedAs-from :
      (t : Trade F) (before before' after : ManagerState F)
      → before.trace ≡ before'.trace
      → IsClosedAs t before after
      → IsClosedAs t before' after
  IsClosedAs-from t before before' after e h = record {
    last = h.last;
    is_closed = h.is_closed;
    same_id = h.same_id;
    gone = h.gone;
    events =
        h.events
        ∙ ap (λ tr. tr ++ save_called h.last ∷ (level_events h.last ++ trade_closed h.last ∷ [])) e;
  }

module _ {F : Type 0} ⦃py : Python F⦄ (b : Broker F) where
  settle-some :
      (e : Ending F) (r : Dict (Trade F) × Option (Trade F)) (c : Trade F) (st : ManagerState F)
      → r.1 ≡ some c
      → settle b e r st ≡ settle b e (r.0, some c) st
  settle-some e (trades, none) c st h = elim (none-ne-some c h) [ ]
  settle-some e (trades, some d) c st h =
      ap (λ (x : Trade F). settle b e (trades, some x) st) (some-injective _ _ h)

  level_event-trace :
      (e : Ending F) (c : Trade F) (st : ManagerState F)
      → ((level_event b e c st).trace ≡ st.trace ++ events_of e.reached_tp2 e.reached_sl c)
        × ((level_event b e c st).store ≡ st.store)
  unfolding level_event
  level_event-trace e c st = by_level e.reached_tp2 e.reached_sl
    where
      by_level :
          (tp2 sl : Bool)
          → let st' =
              if tp2
              then emit (trade_tp2_hit c) st
              else if sl
              then emit (trade_sl_hit c) st
              else st in
            (st'.trace ≡ st.trace ++ events_of tp2 sl c) × (st'.store ≡ st.store)
      by_level true sl = (refl, refl)
      by_level false true = (refl, refl)
      by_level false false = (sym (append-nil st.trace), refl)

  settle-IsClosedAs :
      (t : Trade F) (e : Ending F) (trades : Dict (Trade F)) (c : Trade F) (st : ManagerState F)
      → c.status ≡ closed
      → c.id ≡ t.id
      → c.was_tp2_hit ≡ e.reached_tp2
      → c.was_sl_hit ≡ e.reached_sl
      → IsClosedAs t st (settle b e (trades, some c) st)
  unfolding settle
  settle-IsClosedAs t e trades c st done same tp2 sl =
      let saved = emit (save_called c) (with_store (remove c.id trades) st) in
      let level = level_event-trace e c saved in
      let as_level : (level_event b e c saved).trace ≡ saved.trace ++ level_events c =
        level.0
        ∙ ap (λ x. saved.trace ++ events_of x e.reached_sl c) (sym tp2)
        ∙ ap (λ y. saved.trace ++ events_of c.was_tp2_hit y c) (sym sl) in
      record {
        last = c;
        is_closed = done;
        same_id = same;
        gone =
            ap (get t.id) level.1
            ∙ ap (λ i. get t.id (remove i trades)) same
            ∙ get-remove t.id trades;
        events =
            ap (λ tr. tr ++ trade_closed c ∷ []) as_level
            ∙ regroup st.trace (save_called c) (level_events c) (trade_closed c ∷ []);
      }

  module _ (t u : Trade F) (same : u.id ≡ t.id) where
    end_trade-IsClosedAs :
        (e : Ending F) (st : ManagerState F)
        → get t.id st.store ≡ some u
        → IsClosedAs t st (end_trade b t e st)
    unfolding end_trade mark_closed
    end_trade-IsClosedAs e st stored =
        let c : Trade F = record (mark_closed b e u) { updated_at = b.now } in
        subst (IsClosedAs t st)
          (sym (
            settle-some e (update t.id (mark_closed b e) b.now st.store) c st
              (get-update-some t.id (mark_closed b e) b.now st.store u stored)))
          (settle-IsClosedAs t e _ c st refl same refl refl)

    held :
        (st : ManagerState F)
        → get t.id st.store ≡ some u
        → get t.id (forget_price b t st).store ≡ some u
    unfolding forget_price
    held st h = h

    forget-trace : (st : ManagerState F) → (forget_price b t st).trace ≡ st.trace
    unfolding forget_price
    forget-trace st = refl

    pub once_stub :
        (st : ManagerState F)
        → t.was_tp2_hit ≡ false
        → is_stub t ≡ true
        → get t.id st.store ≡ some u
        → IsClosedAs t st (handle_position_gone b t st)
    unfolding handle_position_gone
    once_stub st early stub stored =
        if_false (IsClosedAs t st) t.was_tp2_hit st early (
          if_true (IsClosedAs t st) (is_stub t) _ stub (end_trade-IsClosedAs stub_ending st stored))

    -- How a report ends: the trade is closed, and the same report once more changes neither the store
    -- nor the trace; or nobody knows its price because the question for the deal raises, and the
    -- exception leaves the poll with the store and the trace as they were.
    pub data IsEnded (b' : Broker F) (st : ManagerState F) : Type 0 where
      ended_once :
          IsClosedAs t st (handle_position_gone b t st)
          → (handle_position_gone b' t (handle_position_gone b t st)).trace
            ≡ (handle_position_gone b t st).trace
          → (handle_position_gone b' t (handle_position_gone b t st)).store
            ≡ (handle_position_gone b t st).store
          → IsEnded b' st
      given_up :
          is_stub t ≡ false
          → known_price b t st ≡ none
          → (handle_position_gone b t st).trace ≡ st.trace
          → (handle_position_gone b t st).store ≡ st.store
          → (handle_position_gone b t st).is_aborted ≡ true
          → IsEnded b' st

    gone-priced :
        (price : Option (Option F)) (st : ManagerState F)
        → t.was_tp2_hit ≡ false
        → is_stub t ≡ false
        → known_price b t st ≡ price
        → handle_position_gone b t st ≡ end_priced b t price st
    unfolding handle_position_gone
    gone-priced price st early real known =
        if_false (λ (x : ManagerState F). x ≡ end_priced b t price st) t.was_tp2_hit st early
          (if_false (λ (x : ManagerState F). x ≡ end_priced b t price st) (is_stub t) _ real
            (ap (λ p. end_priced b t p st) known))

    priced_once :
        (price : Option F) (st : ManagerState F)
        → get t.id st.store ≡ some u
        → IsClosedAs t st (end_priced b t (some price) st)
    unfolding end_priced
    priced_once price st stored =
        let forgotten = forget_price b t st in
        IsClosedAs-from t forgotten st (end_trade b t (ending t price) forgotten) (forget-trace st)
          (end_trade-IsClosedAs (ending t price) forgotten (held st stored))

    -- What is left where the exception leaves the poll.
    abbrev IsLeft : (before after : ManagerState F) → Type 0
    IsLeft before after =
        (after.trace ≡ before.trace) × (after.store ≡ before.store) × (after.is_aborted ≡ true)

    unpriced : (st : ManagerState F) → IsLeft st (end_priced b t none st)
    unfolding end_priced forget_price
    unpriced st = (refl, refl, refl)

    -- A report on a trade that the store holds: the trade is taken out of the store, `save` is called
    -- with its closed row, at most one event for a level is sent and then exactly one for the close,
    -- and the same report once more, whatever the broker then answers, changes neither the store nor
    -- the trace. Only where the broker cannot be asked for the price of the closing deal, and no poll
    -- saw one, store and trace stay as they are and the exception leaves the poll. The trade had not
    -- reached TP2, and the stored one has its id.
    pub handle_position_gone-IsEnded :
        (b' : Broker F) (st : ManagerState F)
        → t.was_tp2_hit ≡ false
        → get t.id st.store ≡ some u
        → IsEnded b' st
    unfolding IsQuiet
    handle_position_gone-IsEnded b' st early stored = elim (Bool-cases (is_stub t)) [
      | inl stub ↦ closed (once_stub st early stub stored)
      | inr real ↦ elim (Option-cases (known_price b t st)) [
        | inl unknown ↦
            let left =
              subst (IsLeft st) (sym (gone-priced none st early real unknown)) (unpriced st) in
            given_up real unknown left.0 left.1 left.2
        | inr (price, known) ↦ closed (
            subst (IsClosedAs t st) (sym (gone-priced (some price) st early real known))
              (priced_once price st stored))
      ]
    ]
      where
        closed : IsClosedAs t st (handle_position_gone b t st) → IsEnded b' st
        closed first =
            let second = again b' t (handle_position_gone b t st) early first.gone in
            ended_once first second.0 second.1
