-- ===== src/Positions/Manager/Partials/Polls.antt =====
-- Any number of rounds of the poll over one trade, and the partial closes that they send.
use execution_engine_multi.Prelude.{String, none, some, List, [], ◌∷◌}
use execution_engine_multi.Prelude.Python.{Python}
use execution_engine_multi.Config.{ExecutionConfig}
use execution_engine_multi.Domain.Position.{Position}
use execution_engine_multi.Domain.Trade.{Trade}
use execution_engine_multi.Positions.Store.{get}
use execution_engine_multi.Positions.Manager.State.{ManagerState, Broker}
use execution_engine_multi.Positions.Manager.Poll.{manage}

module _ {F : Type 0} ⦃py : Python F⦄ (cfg : ExecutionConfig F) (k : String) where
  -- One round on the trade that the store holds under the key, as the broker then answers.
  manage_stored : Broker F × List (Position F) → ManagerState F → ManagerState F
  manage_stored (b, positions) st = elim (get k st.store) [
    | none ↦ st
    | some t ↦ manage cfg b positions t st
  ]

  pub watch : List (Broker F × List (Position F)) → ManagerState F → ManagerState F
  watch [] st = st
  watch (x ∷ xs) st = watch xs (manage_stored x st)
