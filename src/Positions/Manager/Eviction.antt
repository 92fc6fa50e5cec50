-- ===== src/Positions/Manager/Eviction.antt =====
-- A stub that the broker no longer reports is given up on the third poll.
use execution_engine_multi.Prelude.{
  ℕ, ◌+◌, ◌<◌, ◌≡◌, refl, sym, ap, ◌∙◌, subst, eq_iff, true, false, some, arith, ltb, if_true,
  if_false,
}
use execution_engine_multi.Prelude.Python.{Python}
use execution_engine_multi.Config.{ExecutionConfig}
use execution_engine_multi.Domain.Trade.{Trade}
use execution_engine_multi.Positions.Store.{get}
use execution_engine_multi.Positions.Manager.{is_stub}
use execution_engine_multi.Positions.Manager.State.{ManagerState, Broker, set_misses}
use execution_engine_multi.Positions.Manager.Gone.{handle_position_gone}
use execution_engine_multi.Positions.Manager.Poll.{miss_stub, handle_missing, stub_miss_limit}
use execution_engine_multi.Positions.Manager.Closed.{IsClosedAs, IsClosedAs-from, once_stub}

module _ {F : Type 0} ⦃py : Python F⦄ (cfg : ExecutionConfig F) (t : Trade F) where
  misses-set_misses : (n : ℕ) (st : ManagerState F) → (set_misses t.id n st).misses t.id ≡ n
  misses-set_misses n st = ground (arith, eq_iff t.id t.id)

  module _ (b : Broker F) (st : ManagerState F) (m : ℕ) (stub : is_stub t ≡ true)
      (so_far : st.misses t.id ≡ m) where
    miss-waits : m + 1 < 3 → handle_missing cfg b t st ≡ set_misses t.id (m + 1) st
    unfolding handle_missing miss_stub
    miss-waits early =
        if_true (λ (x : ManagerState F). x ≡ set_misses t.id (m + 1) st) (is_stub t) _ stub
          (if_true (λ (x : ManagerState F). x ≡ set_misses t.id (m + 1) st)
            (ltb (st.misses t.id + 1) stub_miss_limit) _ (ground (arith, so_far, early))
            (ap (λ n. set_misses t.id (n + 1) st) so_far))

    miss-gives_up :
        m ≡ 2 → handle_missing cfg b t st ≡ handle_position_gone b t (set_misses t.id 0 st)
    unfolding handle_missing miss_stub
    miss-gives_up late =
        if_true (λ (x : ManagerState F). x ≡ handle_position_gone b t (set_misses t.id 0 st))
          (is_stub t) _ stub
          (if_false (λ (x : ManagerState F). x ≡ handle_position_gone b t (set_misses t.id 0 st))
            (ltb (st.misses t.id + 1) stub_miss_limit) _ (ground (arith, so_far, late)) refl)

  -- A stub whose position is missing in three polls in a row, with no miss before, stays as it is
  -- for two of them, and is closed by the third: it leaves the store with its events. The store holds
  -- it under its id.
  pub handle_missing-thrice :
      (b1 b2 b3 : Broker F) (u : Trade F) (st : ManagerState F)
      → is_stub t ≡ true
      → t.was_tp2_hit ≡ false
      → st.misses t.id ≡ 0
      → u.id ≡ t.id
      → get t.id st.store ≡ some u
      → let second = handle_missing cfg b2 t (handle_missing cfg b1 t st) in
        (second.store ≡ st.store)
        × (second.trace ≡ st.trace)
        × IsClosedAs t st (handle_missing cfg b3 t second)
  handle_missing-thrice b1 b2 b3 u st stub early fresh same stored =
      let st1 = set_misses t.id 1 st in
      let st2 = set_misses t.id 2 st1 in
      let first : handle_missing cfg b1 t st ≡ st1 = miss-waits b1 st 0 stub fresh (omega arith) in
      let second : handle_missing cfg b2 t st1 ≡ st2 =
        miss-waits b2 st1 1 stub (misses-set_misses 1 st) (omega arith) in
      let both : handle_missing cfg b2 t (handle_missing cfg b1 t st) ≡ st2 =
        ap (handle_missing cfg b2 t) first ∙ second in
      let third = miss-gives_up b3 st2 2 stub (misses-set_misses 2 st1) refl in
      (
        ap (λ (x : ManagerState F). x.store) both,
        ap (λ (x : ManagerState F). x.trace) both,
        subst (λ (x : ManagerState F). IsClosedAs t st (handle_missing cfg b3 t x)) (sym both)
            (subst (IsClosedAs t st) (sym third) (
              IsClosedAs-from t (set_misses t.id 0 st2) st _ refl
                (once_stub b3 t u same (set_misses t.id 0 st2) early stub stored))),
      )
