-- ===== src/Positions/Manager/Partials.antt =====
-- The partial close at TP1 over any number of polls.
pub mod Polls
use execution_engine_multi.Prelude.{
  ℕ, suc, ◌+◌, ◌≡◌, refl, ◌⊎◌, inl, inr, String, true, false, Option, none, some, is_some, [], ◌∷◌,
  Dict, ◌&&◌, arith, Option-cases, if_ind,
}
use execution_engine_multi.Prelude.Python.{Python}
use execution_engine_multi.Config.{ExecutionConfig}
use execution_engine_multi.Domain.Position.{SymbolInfo}
use execution_engine_multi.Domain.Trade.{Trade}
use execution_engine_multi.Brokers.{
  Tick, CloseRequest, CloseReply, executed, executed_unconfirmed, failed,
}
use execution_engine_multi.Positions.Store.{update, get}
use execution_engine_multi.Positions.Store.Stored.{Stored, Stored-update_at}
use execution_engine_multi.Positions.Manager.{truthy_ticket}
use execution_engine_multi.Positions.Manager.State.{
  ManagerState, Broker, Effect, close_sent, levels_sent, save_called, trade_tp1_hit, emit,
  with_store,
}
use execution_engine_multi.Positions.Manager.Lifecycle.{
  Partial, Move, moved, unmoved, deferred, mark_partial, save_known, after_close, send_partial,
  try_partial, partial_close, propose_stop, try_stop, send_stop, move_stop, mark_tp1, announce_tp1,
  finish_tp1, complete_tp1, handle_tp1_price_reached,
}
use execution_engine_multi.Positions.Manager.Counts.{weight, closes_done, closes_done-append}

module _ {F : Type 0} where
  abbrev pub HasPrice : Trade F → Type 0
  HasPrice t = is_some t.tp1_close_price ≡ true

  abbrev pub AnyTrade : Trade F → Type 0
  AnyTrade t = Unit

  module _ (k : String) where
    -- So many closes were executed, and the trade under the key is as the store holds it.
    abbrev Inv : (Trade F → Type 0) → ℕ → ManagerState F → Type 0
    Inv Q m st = (closes_done st.trace ≡ m) × Stored k Q st.store

    module _ (Q : Trade F → Type 0) (m : ℕ) (st : ManagerState F) where
      Inv-emit : (e : Effect F) → Inv Q m st → Inv Q (m + weight e) (emit e st)
      Inv-emit e h = (omega (arith, closes_done-append st.trace (e ∷ []), h.0), h.1)

      pub Inv-quiet : (e : Effect F) → weight e ≡ 0 → Inv Q m st → Inv Q m (emit e st)
      Inv-quiet e w h = (omega (arith, closes_done-append st.trace (e ∷ []), h.0, w), h.1)

      pub Inv-update :
          (Q' : Trade F → Type 0) (j : String) (patch : Trade F → Trade F) (now : ℕ)
          → j ≡ k
          → ((t : Trade F)
              → t.id ≡ k
              → Q t
              → ((patch t).id ≡ k) × Q' (record (patch t) { updated_at = now }))
          → Inv Q m st
          → Inv Q' m (with_store (update j patch now st.store).0 st)
      Inv-update Q' j patch now e keep h =
          (h.0, Stored-update_at k j patch now st.store Q Q' e keep h.1)

module _ {F : Type 0} ⦃py : Python F⦄ (cfg : ExecutionConfig F) (b : Broker F) (k : String) where
  module _ (Q : Trade F → Type 0) (m : ℕ) where
    Inv-save_known :
        (r : Dict (Trade F) × Option (Trade F)) (st : ManagerState F)
        → Inv k Q m (with_store r.0 st)
        → Inv k Q m (save_known cfg b r st)
    unfolding save_known
    Inv-save_known (trades, none) st h = h
    Inv-save_known (trades, some t) st h =
        Inv-quiet k Q m (with_store trades st) (save_called t) refl h

    Inv-announce :
        (r : Dict (Trade F) × Option (Trade F)) (st : ManagerState F)
        → Inv k Q m (with_store r.0 st)
        → Inv k Q m (announce_tp1 cfg b r st)
    unfolding announce_tp1
    Inv-announce (trades, none) st h = h
    Inv-announce (trades, some t) st h =
        let saved = Inv-quiet k Q m (with_store trades st) (save_called t) refl h in
        if_ind (Inv k Q m) (b.save_ok t)
          (Inv-quiet k Q m (emit (save_called t) (with_store trades st)) (trade_tp1_hit t) refl
            saved)
          saved

    -- Step 2 sends levels at most.
    Inv-propose_stop :
        (t : Trade F) (p : Partial F) (sl : Option F) (st : ManagerState F)
        → Inv k Q m st
        → Inv k Q m (propose_stop cfg b t p sl st).0
    unfolding propose_stop send_stop
    Inv-propose_stop t p none st h = h
    Inv-propose_stop t p (some sl) st h =
        if_ind (λ (x : ManagerState F × Move F). Inv k Q m x.0) (b.modify_ok _)
          (Inv-quiet k Q m st (levels_sent _ true) refl h)
          (Inv-quiet k Q m st (levels_sent _ false) refl h)

    Inv-try_stop :
        (t : Trade F) (p : Partial F) (si : Option (SymbolInfo F)) (quote : Option (Tick F))
        (st : ManagerState F)
        → Inv k Q m st
        → Inv k Q m (try_stop cfg b t p si quote st).0
    unfolding try_stop
    Inv-try_stop t p none quote st h = h
    Inv-try_stop t p (some si) none st h = h
    Inv-try_stop t p (some si) (some tick) st h = Inv-propose_stop t p _ st h

    Inv-move_stop :
        (t : Trade F) (p : Partial F) (st : ManagerState F)
        → Inv k Q m st
        → Inv k Q m (move_stop cfg b t p st).0
    unfolding move_stop
    Inv-move_stop t p st h =
        if_ind (λ (x : ManagerState F × Move F). Inv k Q m x.0)
          (cfg.move_sl_to_be_on_tp1 && truthy_ticket t.entry_ticket) (Inv-try_stop t p _ _ st h) h

    -- Step 3 writes the price of the partial close.
    module _ (t : Trade F) (p : Partial F) (here : t.id ≡ k)
        (written : (u : Trade F) → u.tp1_close_price ≡ p.close_price → Q u) where
      Inv-finish :
          (sl : F) (st : ManagerState F) → Inv k Q m st → Inv k Q m (finish_tp1 cfg b t p sl st)
      unfolding finish_tp1 mark_tp1
      Inv-finish sl st h =
          Inv-announce _ st
            (Inv-update k Q m st Q t.id _ b.now here (λ u e _. (e, written _ refl)) h)

      Inv-complete :
          (v : Move F) (st : ManagerState F)
          → Inv k Q m st
          → Inv k Q m (complete_tp1 cfg b t p v st)
      unfolding complete_tp1
      Inv-complete deferred st h = h
      Inv-complete unmoved st h = if_ind (Inv k Q m) _ h (Inv-finish t.stop_loss st h)
      Inv-complete (moved sl) st h = if_ind (Inv k Q m) _ h (Inv-finish sl st h)

  -- At most one close more than before, and none more where the price of one is stored.
  abbrev pub IsOnce : ℕ → ManagerState F → Type 0
  IsOnce n st = Inv k AnyTrade n st ⊎ Inv k HasPrice (suc n) st

  -- After step 1.
  data IsOnceWith (n : ℕ) (st : ManagerState F) (p : Partial F) : Type 0 where
    fresh : Inv k AnyTrade n st → IsOnceWith n st p
    spent : Inv k HasPrice (suc n) st → is_some p.close_price ≡ true → IsOnceWith n st p

  module _ (n : ℕ) (t : Trade F) (here : t.id ≡ k) where
    after_reply :
        (si : SymbolInfo F) (tick : Tick F) (order : CloseRequest F) (reply : CloseReply)
        (st : ManagerState F)
        → Inv k AnyTrade n st
        → let x = after_close cfg b t si tick order reply st in IsOnceWith n x.0 x.1
    unfolding after_close mark_partial
    after_reply si tick order executed st h =
        spent
          (Inv-save_known HasPrice (suc n) _ _ (
            Inv-update k AnyTrade (suc n) (emit (close_sent order executed) st) HasPrice t.id _
              b.now here (λ u e _. (e, refl))
              (
                omega (arith, closes_done-append st.trace (close_sent order executed ∷ []), h.0),
                h.1,
              )))
          refl
    after_reply si tick order executed_unconfirmed st h =
        fresh (Inv-quiet k AnyTrade n st (close_sent order executed_unconfirmed) refl h)
    after_reply si tick order failed st h =
        fresh (Inv-quiet k AnyTrade n st (close_sent order failed) refl h)

    after_send :
        (ticket : ℕ) (si : SymbolInfo F) (tick : Tick F) (st : ManagerState F)
        → Inv k AnyTrade n st
        → let x = send_partial cfg b t ticket si tick st in IsOnceWith n x.0 x.1
    unfolding send_partial
    after_send ticket si tick st h = after_reply si tick _ (b.close _) st h

    after_try :
        (si : Option (SymbolInfo F)) (quote : Option (Tick F)) (st : ManagerState F)
        → Inv k AnyTrade n st
        → let x = try_partial cfg b t si quote st in IsOnceWith n x.0 x.1
    unfolding try_partial
    after_try none quote st h = fresh h
    after_try (some si) none st h = fresh h
    after_try (some si) (some tick) st h = after_send _ si tick st h

    after_partial :
        (st : ManagerState F)
        → get k st.store ≡ some t
        → IsOnce n st
        → let x = partial_close cfg b t st in IsOnceWith n x.0 x.1
    unfolding partial_close
    after_partial st stored (inl h) =
        if_ind (λ (x : ManagerState F × Partial F). IsOnceWith n x.0 x.1) _ (after_try _ _ st h)
          (fresh h)
    after_partial st stored (inr h) = elim (Option-cases t.tp1_close_price) [
      | inl free ↦ cc ((h.1 t stored).1, free)
      | inr (price, closed) ↦ rw closed (spent h refl)
    ]

    pub IsOnce-handle_tp1 :
        (st : ManagerState F)
        → get k st.store ≡ some t
        → IsOnce n st
        → IsOnce n (handle_tp1_price_reached cfg b t st)
    unfolding handle_tp1_price_reached
    IsOnce-handle_tp1 st stored h = rest (partial_close cfg b t st) (after_partial st stored h)
      where
        rest :
            (x : ManagerState F × Partial F)
            → IsOnceWith n x.0 x.1
            → IsOnce n (
                complete_tp1 cfg b t x.1
                  (move_stop cfg b t x.1 x.0).1
                  (move_stop cfg b t x.1 x.0).0)
        rest (st', p) (fresh i) =
            inl (
              Inv-complete AnyTrade n t p here (λ u _. tt) _ _ (Inv-move_stop AnyTrade n t p st' i))
        rest (st', p) (spent i priced) = inr (
            Inv-complete HasPrice (suc n) t p here (λ u e. rw e priced) _ _
              (Inv-move_stop HasPrice (suc n) t p st' i))
