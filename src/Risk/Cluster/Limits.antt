-- ===== src/Risk/Cluster/Limits.antt =====
-- What an approving preview leaves room for.
use execution_engine_multi.Prelude.{◌<◌, ◌≡◌, true, false, arith, leb, if◌then◌else◌}
use execution_engine_multi.Prelude.Python.{Python, FloatOrder, one_f}
use execution_engine_multi.Config.{ClusterGroupConfig}
use execution_engine_multi.Risk.Cluster.{
  ClusterState, ClusterPreview, preview_in, planned_risk, used_r, concurrent,
}

module _ {F : Type 0} ⦃py : Python F⦄ (g : ClusterGroupConfig F) where
  -- The budget of the day, what is left of it, and the size after losses.
  abbrev pub remaining : ClusterState F → F
  remaining st = py.sub g.max_same_day_loss_r (used_r st)

  abbrev pub base : ClusterState F → F
  base st = if leb 1 st.loss_count then g.after_first_loss_risk_multiplier else one_f

  pub record HasRoom (st : ClusterState F) (p : ClusterPreview F) : Type 0 where
    pub losses_left : st.loss_count < g.max_same_day_losses
    pub place_left : concurrent st < g.max_concurrent_positions
    pub large_enough : py.ltb p.planned_risk_r g.min_trade_risk_multiplier ≡ false
    pub within_budget : py.ltb (remaining st) p.planned_risk_r ≡ false
    pub within_base : py.ltb (base st) p.planned_risk_r ≡ false
    pub same_size : p.risk_multiplier ≡ p.planned_risk_r

  -- A group that approves a signal has had fewer losses than allowed today and has a free
  -- place; the risk that it gives is not too small, and exceeds neither what is left of the budget nor
  -- the base size.
  pub preview_in-HasRoom :
      (laws : FloatOrder py) (st : ClusterState F)
      → (preview_in g st).approved ≡ true
      → HasRoom st (preview_in g st)
  unfolding preview_in planned_risk
  preview_in-HasRoom laws st ok =
      let b = base st in
      let r = remaining st in
      ground (arith, laws.lt_irrefl r, laws.lt_irrefl b, laws.lt_trans b r b)
