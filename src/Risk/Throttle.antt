-- ===== src/Risk/Throttle.antt =====
-- src/risk/equity_throttle.py: `EquityThrottleTracker`, a rolling window of the closed trades'
-- R contributions and a sizing multiplier with hysteresis. `now` is the clock in milliseconds.
-- The metrics and the log lines are not modelled.
pub mod Drawdown
pub mod Hysteresis
pub mod Window
use execution_engine_multi.Prelude.{
  ℕ, ◌-◌, ◌*◌, String, ◌==◌, Bool, true, false, not, ◌&&◌, ◌||◌, Option, none, some, List, [], ◌∷◌,
  ◌++◌, or_default, leb, eqb, if◌then◌else◌,
}
use execution_engine_multi.Prelude as P
use execution_engine_multi.Prelude.Python.{Python, zero_f, one_f, min_f, max_f, or_f}
use execution_engine_multi.Config.{EquityThrottleConfig}
use execution_engine_multi.Domain.Trade.{Trade, OrderSide, buy, sell}

abbrev pub day_ms : ℕ
day_ms = 86400000

pub record ThrottlePreview (F : Type 0) : Type 0 where
  pub multiplier : F
  pub drawdown_r : F
  pub engaged : Bool

-- A deque of closing times and contributions, the oldest first.
abbrev pub Window : Type 0 → Type 0
Window F = List (ℕ × F)

pub record ThrottleState (F : Type 0) : Type 0 where
  pub window : Window F
  pub engaged : Bool
  pub dd_r : F

-- The columns of a row of the trades table that `_contribution_from_row` reads, and the fields of
-- its `plan_json`, which are absent where the text is missing or is no JSON.
pub record TradeRow (F : Type 0) : Type 0 where
  pub realized_rr : Option F
  pub closed_at : Option ℕ
  pub plan_risk_multiplier : Option F
  pub plan_entry_price : Option F
  pub plan_stop_loss : Option F
  pub entry_lots : Option F
  pub current_lots : Option F
  pub was_tp1_hit : Bool
  pub side : Option String
  pub entry_price : Option F
  pub close_price : Option F
  pub tp1 : Option F

abbrev side_text : OrderSide → String
side_text buy = "BUY"
side_text sell = "SELL"

module _ {F : Type 0} where
  -- The loop that drops the entries before `cutoff` from the left.
  pub drop_before : ℕ → Window F → Window F
  drop_before cutoff [] = []
  drop_before cutoff ((ts, c) ∷ w) = if P.ltb ts cutoff then drop_before cutoff w else (ts, c) ∷ w

  -- `entries.sort(key=lambda e: e[0])`, a stable sort.
  insert_entry : ℕ × F → Window F → Window F
  insert_entry e [] = e ∷ []
  insert_entry e (x ∷ w) = if leb e.0 x.0 then e ∷ x ∷ w else x ∷ insert_entry e w

  sort_entries : Window F → Window F
  unfolding insert_entry
  sort_entries [] = []
  sort_entries (e ∷ w) = insert_entry e (sort_entries w)

module _ {F : Type 0} ⦃py : Python F⦄ where
  -- An optional float that is neither None nor zero.
  abbrev truthy : Option F → Option F
  truthy none = none
  truthy (some x) = if py.eqb x zero_f then none else some x

  abbrev or_opt : Option F → Option F → Option F
  or_opt a b = elim (truthy a) [ none ↦ b | some x ↦ some x ]

  -- The blend of the two legs of `money_r`, with the risk and the signed rewards.
  abbrev blend : F → F → F → F → F
  blend fraction risk reward_tp1 reward_final =
      py.add (py.mul fraction (py.div reward_tp1 risk))
        (py.mul (py.sub one_f fraction) (py.div reward_final risk))

  -- From the side on, where all prices are known.
  money_legs : String → F → F → F → F → F → F → F
  money_legs side entry sl close rr tp1_fraction tp1_exit =
      let fraction = min_f one_f (max_f zero_f tp1_fraction) in
      if side == "BUY"
      then (if py.leb (py.sub entry sl) zero_f
          then rr
          else blend fraction (py.sub entry sl) (py.sub tp1_exit entry) (py.sub close entry))
      else if side == "SELL"
      then (if py.leb (py.sub sl entry) zero_f
          then rr
          else blend fraction (py.sub sl entry) (py.sub entry tp1_exit) (py.sub entry close))
      else rr

  money_prices : String → Option F → Option F → Option F → F → F → Option F → F
  unfolding money_legs
  money_prices side none _ _ rr _ _ = rr
  money_prices side (some _) none _ rr _ _ = rr
  money_prices side (some _) (some _) none rr _ _ = rr
  money_prices side (some _) (some _) (some _) rr _ none = rr
  money_prices side (some entry) (some sl) (some close) rr tp1_fraction (some tp1_exit) =
      money_legs side entry sl close rr tp1_fraction tp1_exit

  -- `money_r` of a trade with an outcome.
  pub money_r : String → Option F → Option F → Option F → F → Bool → F → Option F → F
  unfolding money_prices
  money_r side entry_price original_sl close_price rr tp1_hit tp1_fraction tp1_exit_price =
      if not tp1_hit || py.leb tp1_fraction zero_f
      then rr
      else money_prices side (truthy entry_price) (truthy original_sl) (truthy close_price) rr
          tp1_fraction (truthy tp1_exit_price)

  -- The loop of `compute_drawdown_r`.
  pub drawdown_from : F → F → Window F → F
  drawdown_from total peak [] = max_f zero_f (py.sub peak total)
  drawdown_from total peak ((_, c) ∷ w) =
      drawdown_from (py.add total c) (if py.ltb peak (py.add total c) then py.add total c else peak)
        w

  unfoldable pub compute_drawdown_r : Window F → F
  unfolding drawdown_from
  compute_drawdown_r = drawdown_from zero_f zero_f

  -- `_contribution_from_trade`
  pub contribution_from_trade : ℕ → Trade F → Option (ℕ × F)
  unfolding money_r
  contribution_from_trade now t = elim t.realized_rr [
    | none ↦ none
    | some rr ↦
        let fraction : F =
          if py.ltb zero_f t.entry_lots then py.div t.tp1_lots t.entry_lots else zero_f in
        let r : F =
          money_r (side_text t.side) (or_opt t.entry_price (some t.plan.entry_price))
            (some t.plan.stop_loss) t.close_price rr t.was_tp1_hit fraction
            (or_opt t.tp1_close_price (some t.tp1)) in
        let closed_at : ℕ = or_default (P.or_else t.closed_at none) now in
        some (closed_at, py.mul r (or_f t.plan.risk_multiplier one_f))
  ]

  row_fraction : TradeRow F → F
  row_fraction row =
      let entry_lots : F = or_default row.entry_lots zero_f in
      let current_lots : F = or_default row.current_lots zero_f in
      if row.was_tp1_hit
        && py.ltb zero_f entry_lots
        && py.leb zero_f current_lots
        && py.ltb current_lots entry_lots
      then py.sub one_f (py.div current_lots entry_lots)
      else zero_f

  -- `_contribution_from_row`
  pub contribution_from_row : TradeRow F → Option (ℕ × F)
  unfolding money_r row_fraction
  contribution_from_row row = elim row.realized_rr [
    | none ↦ none
    | some rr ↦ elim row.closed_at [
      | none ↦ none
      | some closed_at ↦
          let side : String = elim row.side [
            | none ↦ "BUY"
            | some s ↦ if s == "" then "BUY" else s
          ] in
          let r : F =
            money_r side (or_opt row.plan_entry_price row.entry_price) row.plan_stop_loss
              row.close_price rr row.was_tp1_hit (row_fraction row) row.tp1 in
          some (closed_at, py.mul r (or_f (or_default row.plan_risk_multiplier one_f) one_f))
    ]
  ]

  -- The hysteresis: between the two thresholds the state holds.
  pub next_engaged : EquityThrottleConfig F → F → Bool → Bool
  next_engaged config dd engaged =
      if py.ltb config.drawdown_threshold_r dd
      then true
      else if py.ltb dd config.release_threshold_r
      then false
      else engaged

  -- `_refresh_locked`. A cutoff before the epoch drops nothing, and neither does 0.
  unfoldable pub refresh : EquityThrottleConfig F → ℕ → ThrottleState F → ThrottleState F
  unfolding drop_before compute_drawdown_r next_engaged
  refresh config now st =
      let window = drop_before (now - config.window_days * day_ms) st.window in
      let dd = compute_drawdown_r window in
      record { window = window; engaged = next_engaged config dd st.engaged; dd_r = dd }

  unfoldable pub record_trade_closed :
      EquityThrottleConfig F → ℕ → Trade F → ThrottleState F → ThrottleState F
  unfolding contribution_from_trade refresh
  record_trade_closed config now t st = elim (contribution_from_trade now t) [
    | none ↦ st
    | some entry ↦ refresh config now (record st { window = st.window ++ entry ∷ [] })
  ]

  pub row_entries : List (TradeRow F) → Window F
  unfolding contribution_from_row
  row_entries [] = []
  row_entries (row ∷ rows) = elim (contribution_from_row row) [
    | none ↦ row_entries rows
    | some entry ↦ entry ∷ row_entries rows
  ]

  unfoldable pub hydrate :
      EquityThrottleConfig F → ℕ → List (TradeRow F) → ThrottleState F → ThrottleState F
  unfolding row_entries sort_entries refresh
  hydrate config now rows st =
      refresh config now (record st { window = sort_entries (row_entries rows) })

  unfoldable pub preview :
      EquityThrottleConfig F → ℕ → ThrottleState F → ThrottleState F × ThrottlePreview F
  unfolding refresh
  preview config now st =
      let st' = refresh config now st in
      let engaged = st'.engaged && config.enabled in
      (
        st',
        record {
          multiplier = if engaged then config.risk_multiplier else one_f;
          drawdown_r = st'.dd_r;
          engaged = engaged;
        },
      )
