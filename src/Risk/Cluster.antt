-- ===== src/Risk/Cluster.antt =====
-- src/risk/cluster_tracker.py: `ClusterRiskTracker`, the shared daily risk budget of correlated
-- symbols. Each method is one critical section of the tracker's lock. `today` is the date in the
-- engine's time zone. The texts of the reasons and the log lines are not modelled.
pub mod Limits
use execution_engine_multi.Prelude.{
  member, ℕ, ◌+◌, String, ◌==◌, Bool, true, false, not, Option, none, some, List, [], ◌∷◌, Dict,
  lookup, insert, erase, values, length, or_default, leb, eqb, if◌then◌else◌,
}
use execution_engine_multi.Prelude.Python.{Python, zero_f, one_f, min_f}
use execution_engine_multi.Utils.Symbol.{normalise_symbol}
use execution_engine_multi.Config.{ClusterGroupConfig, ClusterRiskConfig}
use execution_engine_multi.Domain.Signal.{InboundSignal}
use execution_engine_multi.Domain.Trade.{Trade}

pub data ClusterReason : Type 0 where
  losses_blocked concurrent_limit budget_exhausted : ClusterReason

pub record ClusterPreview (F : Type 0) : Type 0 where
  pub approved : Bool
  pub reason : Option ClusterReason
  pub cluster_name : Option String
  pub risk_multiplier : F
  pub planned_risk_r : F

-- The fields `pending` and `open` of the source; `open` is reserved here.
pub record ClusterState (F : Type 0) : Type 0 where
  pub day : ℕ
  pub pending : Dict F
  pub opened : Dict F
  pub open_signal_map : Dict String
  pub realized_loss_r : F
  pub loss_count : ℕ

pub record ClusterTracker (F : Type 0) : Type 0 where
  pub config : ClusterRiskConfig F
  pub states : Dict (ClusterState F)

-- `a or b or ""` on an optional and a plain text.
abbrev pub resolved_or : Option String → String → String
resolved_or none raw = raw
resolved_or (some s) raw = if s == "" then raw else s

module _ {F : Type 0} where
  -- The loop of `_match` and `_match_trade`.
  first_group : String → List (ClusterGroupConfig F) → Option (ClusterGroupConfig F)
  first_group symbol [] = none
  first_group symbol (g ∷ gs) = if member symbol g.symbols then some g else first_group symbol gs

  -- The same, when the tracker is enabled.
  active_group : ClusterRiskConfig F → Option (ClusterGroupConfig F) → Option (ClusterGroupConfig F)
  active_group config group = if not config.enabled then none else group

module _ {F : Type 0} ⦃py : Python F⦄ where
  match_signal : ClusterRiskConfig F → InboundSignal F → Option (ClusterGroupConfig F)
  unfolding first_group
  match_signal config s =
      first_group (normalise_symbol py (resolved_or s.resolved_symbol s.symbol)) config.groups

  match_trade : ClusterRiskConfig F → Trade F → Option (ClusterGroupConfig F)
  unfolding first_group
  match_trade config t = first_group (normalise_symbol py t.symbol) config.groups

  unfoldable pub fresh_state : ℕ → ClusterState F
  fresh_state today = record {
    day = today;
    pending = [];
    opened = [];
    open_signal_map = [];
    realized_loss_r = zero_f;
    loss_count = 0;
  }

  -- The state that `_state_for` returns.
  pub state_of : ℕ → String → ClusterTracker F → ClusterState F
  unfolding fresh_state
  state_of today name t = elim (lookup name t.states) [
    | none ↦ fresh_state today
    | some st ↦ if eqb st.day today then st else fresh_state today
  ]

  abbrev put_state : String → ClusterState F → ClusterTracker F → ClusterTracker F
  put_state name st t = record t { states = insert name st t.states }

  -- `_state_for` stores what it returns: a new state on a new day, and otherwise the old one.
  pub state_for : ℕ → String → ClusterTracker F → ClusterTracker F × ClusterState F
  unfolding state_of
  state_for today name t = let st = state_of today name t in (put_state name st t, st)

  pub used_r : ClusterState F → F
  used_r st =
      py.add (py.add st.realized_loss_r (py.sum (values st.pending))) (py.sum (values st.opened))

  abbrev pub concurrent : ClusterState F → ℕ
  concurrent st = length st.pending + length st.opened

  abbrev reject_cluster : String → ClusterReason → ClusterPreview F
  reject_cluster name why = record {
    approved = false;
    reason = some why;
    cluster_name = some name;
    risk_multiplier = one_f;
    planned_risk_r = one_f;
  }

  abbrev pub unlimited : ClusterPreview F
  unlimited = record {
    approved = true;
    reason = none;
    cluster_name = none;
    risk_multiplier = one_f;
    planned_risk_r = one_f;
  }

  planned_risk : ClusterGroupConfig F → ClusterState F → F
  unfolding used_r
  planned_risk g st =
      let base : F = if leb 1 st.loss_count then g.after_first_loss_risk_multiplier else one_f in
      min_f base (py.sub g.max_same_day_loss_r (used_r st))

  -- The decision of `preview` in a group's state.
  unfoldable pub preview_in : ClusterGroupConfig F → ClusterState F → ClusterPreview F
  unfolding planned_risk
  preview_in g st =
      if leb g.max_same_day_losses st.loss_count
      then reject_cluster g.name losses_blocked
      else if leb g.max_concurrent_positions (concurrent st)
      then reject_cluster g.name concurrent_limit
      else if py.ltb (planned_risk g st) g.min_trade_risk_multiplier
      then reject_cluster g.name budget_exhausted
      else record {
        approved = true;
        reason = none;
        cluster_name = some g.name;
        risk_multiplier = planned_risk g st;
        planned_risk_r = planned_risk g st;
      }

  unfoldable pub preview :
      ℕ → InboundSignal F → ClusterTracker F → ClusterTracker F × ClusterPreview F
  unfolding match_signal active_group state_for preview_in
  preview today s t = elim (active_group t.config (match_signal t.config s)) [
    | none ↦ (t, unlimited)
    | some g ↦ let (t', st) = state_for today g.name t in (t', preview_in g st)
  ]

  -- A change of the state of the group, if there is one.
  in_group :
      ℕ
      → Option (ClusterGroupConfig F)
      → (ClusterState F → ClusterState F)
      → ClusterTracker F
      → ClusterTracker F
  unfolding state_of
  in_group today none change t = t
  in_group today (some g) change t = put_state g.name (change (state_of today g.name t)) t

  unfoldable pub reserve_in : String → F → ClusterState F → ClusterState F
  reserve_in sid risk_r st = record st { pending = insert sid risk_r st.pending }

  unfoldable pub reserve_signal : ℕ → InboundSignal F → F → ClusterTracker F → ClusterTracker F
  unfolding match_signal active_group in_group reserve_in
  reserve_signal today s risk_r t =
      in_group today (active_group t.config (match_signal t.config s)) (reserve_in s.id risk_r) t

  pub release_in : String → ClusterState F → ClusterState F
  release_in sid st = record st { pending = erase sid st.pending }

  unfoldable pub release_signal : ℕ → InboundSignal F → ClusterTracker F → ClusterTracker F
  unfolding match_signal active_group in_group release_in
  release_signal today s t =
      in_group today (active_group t.config (match_signal t.config s)) (release_in s.id) t

  pub open_in : String → String → ClusterState F → ClusterState F
  open_in sid tid st = record st {
    pending = erase sid st.pending;
    opened = insert tid (or_default (lookup sid st.pending) one_f) st.opened;
    open_signal_map = if sid == "" then st.open_signal_map else insert sid tid st.open_signal_map;
  }

  unfoldable pub mark_trade_opened : ℕ → Trade F → ClusterTracker F → ClusterTracker F
  unfolding match_trade active_group in_group open_in
  mark_trade_opened today tr t =
      in_group today (active_group t.config (match_trade t.config tr)) (open_in tr.signal_id tr.id)
        t

  pub close_in : String → String → F → ClusterState F → ClusterState F
  close_in sid tid rr st =
      let risk_r = or_default (lookup tid st.opened) one_f in
      let removed : ClusterState F = record st {
        opened = erase tid st.opened;
        open_signal_map = erase sid st.open_signal_map;
      } in
      if py.ltb rr zero_f
      then record removed {
        realized_loss_r = py.add st.realized_loss_r (py.mul (py.abs rr) risk_r);
        loss_count = st.loss_count + 1;
      }
      else removed

  unfoldable pub mark_trade_closed : ℕ → Trade F → ClusterTracker F → ClusterTracker F
  unfolding match_trade active_group in_group close_in
  mark_trade_closed today tr t =
      in_group today (active_group t.config (match_trade t.config tr))
        (close_in tr.signal_id tr.id (or_default tr.realized_rr zero_f)) t

  -- `state.open.setdefault(trade_id, 1.0)`
  hydrate_in : String → ClusterState F → ClusterState F
  hydrate_in tid st = elim (lookup tid st.opened) [
    | none ↦ record st { opened = insert tid one_f st.opened }
    | some _ ↦ st
  ]

  unfoldable pub hydrate_open_trades : ℕ → List (Trade F) → ClusterTracker F → ClusterTracker F
  unfolding match_trade active_group in_group hydrate_in
  hydrate_open_trades today [] t = t
  hydrate_open_trades today (tr ∷ trs) t =
      hydrate_open_trades today trs
        (in_group today (active_group t.config (match_trade t.config tr)) (hydrate_in tr.id) t)
