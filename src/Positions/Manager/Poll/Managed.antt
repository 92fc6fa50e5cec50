-- ===== src/Positions/Manager/Poll/Managed.antt =====
-- After the poll has reconciled, its loop goes over a trade for every open position of the broker.
use execution_engine_multi.Prelude.{ℕ, ◌≡◌, true, is_some, Dict, values, find_first, All}
use execution_engine_multi.Prelude.Python.{Python}
use execution_engine_multi.Domain.Position.{Position}
use execution_engine_multi.Domain.Trade.{Trade, is_open}
use execution_engine_multi.Positions.Store.{get_open_trades}
use execution_engine_multi.Positions.Store.Held.{has}
use execution_engine_multi.Positions.Manager.State.{ManagerState}

module _ {F : Type 0} where
  abbrev pub IsOpen : Trade F → Type 0
  IsOpen t = is_open t.status ≡ true

  abbrev pub AreOpen : Dict (Trade F) → Type 0
  AreOpen trades = All IsOpen (values trades)

  -- The poll's loop over the open trades comes to one with this ticket.
  abbrev pub IsManaged : ℕ → ManagerState F → Type 0
  IsManaged ticket st = is_some (find_first (has ticket) (get_open_trades st.store)) ≡ true
