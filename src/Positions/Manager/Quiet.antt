-- ===== src/Positions/Manager/Quiet.antt =====
-- A second report on a trade whose position is gone.
use execution_engine_multi.Prelude.{
  ◌≡◌, refl, sym, subst, false, Option, none, some, if_ind, if_false,
}
use execution_engine_multi.Prelude.Python.{Python}
use execution_engine_multi.Domain.Trade.{Trade}
use execution_engine_multi.Positions.Store.{get}
use execution_engine_multi.Positions.Store.Stored.{get-update-none}
use execution_engine_multi.Positions.Manager.{is_stub}
use execution_engine_multi.Positions.Manager.State.{ManagerState, Broker}
use execution_engine_multi.Positions.Manager.Gone.{
  Ending, mark_closed, settle, end_trade, forget_price, end_priced, handle_position_gone,
  stub_ending, ending, known_price,
}

module _ {F : Type 0} ⦃py : Python F⦄ (b : Broker F) where
  -- A report on a trade that the store does not hold changes neither the store nor the trace.
  unfoldable pub IsQuiet : (before after : ManagerState F) → Type 0
  IsQuiet before after = (after.trace ≡ before.trace) × (after.store ≡ before.store)

  end_trade-IsQuiet :
      (t : Trade F) (e : Ending F) (st : ManagerState F)
      → get t.id st.store ≡ none
      → IsQuiet st (end_trade b t e st)
  unfolding end_trade settle IsQuiet
  end_trade-IsQuiet t e st absent =
      subst (λ r. IsQuiet st (settle b e r st))
        (sym (get-update-none t.id (mark_closed b e) b.now st.store absent)) (refl, refl)

  priced-IsQuiet :
      (t : Trade F) (price : Option (Option F)) (st : ManagerState F)
      → get t.id st.store ≡ none
      → IsQuiet st (end_priced b t price st)
  unfolding end_priced forget_price IsQuiet
  priced-IsQuiet t none st absent = (refl, refl)
  priced-IsQuiet t (some price) st absent =
      end_trade-IsQuiet t (ending t price) (forget_price b t st) absent

  pub again :
      (t : Trade F) (st : ManagerState F)
      → t.was_tp2_hit ≡ false
      → get t.id st.store ≡ none
      → IsQuiet st (handle_position_gone b t st)
  unfolding handle_position_gone
  again t st early absent = if_false (IsQuiet st) t.was_tp2_hit st early (
      if_ind (IsQuiet st) (is_stub t) (end_trade-IsQuiet t stub_ending st absent)
        (priced-IsQuiet t (known_price b t st) st absent))
