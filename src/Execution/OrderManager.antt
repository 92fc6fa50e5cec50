-- ===== src/Execution/OrderManager.antt =====
-- src/execution/order_manager.py: `OrderManager.execute_market_order`. The broker answers each
-- attempt by its number; the waiting time, the log lines and the metrics are left out, and the
-- return code that `_extract_retcode` reads in the text of an exception is part of the answer.
pub mod Attempts
pub mod Fills
pub mod Slippage
pub mod Stops
pub mod Recovery
use execution_engine_multi.Prelude.{
  ℕ, zero, suc, ◌+◌, Bool, true, false, not, ◌&&◌, ◌||◌, Option, none, some, List, [], ◌∷◌,
  or_default, eqb, leb, if◌then◌else◌,
}
use execution_engine_multi.Prelude.Python.{Python, zero_f, min_f, max_f}
use execution_engine_multi.Config.{ExecutionConfig}
use execution_engine_multi.Domain.Position.{SymbolInfo, order_filling_mode}
use execution_engine_multi.Domain.Trade.{OrderSide, buy, sell, TradePlan}
use execution_engine_multi.Brokers.{
  Tick, OrderRequest, OrderResult, Reply, done, unconfirmed, refused, broken, CloseRequest,
}
use execution_engine_multi.Utils.Price.{normalise_lots}

-- `_RETRYABLE_RETCODES` and `_RETCODE_NO_MONEY`.
abbrev pub is_retryable : Option ℕ → Bool
is_retryable none = false
is_retryable (some c) = eqb c 10004 || eqb c 10006 || eqb c 10007 || eqb c 10016 || eqb c 10018

abbrev pub has_code : ℕ → Option ℕ → Bool
has_code code none = false
has_code code (some c) = eqb c code

-- What `execute_market_order` raises. `exhausted` is the last exception, which is raised after the
-- loop.
pub data OrderError : Type 0 where
  no_tick not_sent slippage_closed close_failed exhausted : OrderError
  rejected_with : Option ℕ → OrderError

pub data Outcome (F : Type 0) : Type 0 where
  opened : OrderResult F → Outcome F
  raised : OrderError → Outcome F

-- The broker, attempt by attempt.
pub record Market (F : Type 0) : Type 0 where
  pub tick_at : ℕ → Option (Tick F)
  pub reply_at : ℕ → OrderRequest F → Reply F
  pub close_tick : Option (Tick F)
  -- `close_position` returns.
  pub close_ok : CloseRequest F → Bool

-- The variables that change from attempt to attempt.
pub record Working (F : Type 0) : Type 0 where
  pub sl : F
  pub tp : F
  pub volume : F
  pub is_halved : Bool

-- What a call did: the requests with their answers, the close orders, and how it ended.
pub record Run (F : Type 0) : Type 0 where
  pub exchanges : List (OrderRequest F × Reply F)
  pub closes : List (CloseRequest F)
  pub outcome : Outcome F

module _ {F : Type 0} where
  -- The side of a quote at which the plan's side buys or sells.
  abbrev pub entry_quote : OrderSide → Tick F → F
  entry_quote buy t = t.ask
  entry_quote sell t = t.bid

  abbrev exit_quote : OrderSide → Tick F → F
  exit_quote buy t = t.bid
  exit_quote sell t = t.ask

  unfoldable pub ended : OrderError → Run F
  ended e = record { exchanges = []; closes = []; outcome = raised e }

  unfoldable pub sent : OrderRequest F × Reply F → Run F → Run F
  sent x r = record r { exchanges = x ∷ r.exchanges }

module _ {F : Type 0} ⦃py : Python F⦄ where
  unfoldable pub is_better_price : OrderSide → F → F → Bool
  is_better_price buy executed planned = py.ltb executed planned
  is_better_price sell executed planned = py.ltb planned executed

  unfoldable pub widen_stops : OrderSide → (entry sl tp min_dist : F) → F × F
  widen_stops buy entry sl tp min_dist =
      (min_f sl (py.sub entry min_dist), max_f tp (py.add entry min_dist))
  widen_stops sell entry sl tp min_dist =
      (max_f sl (py.add entry min_dist), min_f tp (py.sub entry min_dist))

  module _ (cfg : ExecutionConfig F) (plan : TradePlan F) (si : SymbolInfo F) where
    abbrev pub max_attempts : ℕ
    max_attempts = 1 + cfg.order_retry_count

    unfoldable pub request : F → Working F → OrderRequest F
    request price w = record {
      symbol = plan.symbol;
      side = plan.side;
      volume = w.volume;
      price = price;
      sl = w.sl;
      tp = w.tp;
      slippage = cfg.slippage;
      magic = cfg.magic;
      filling_mode = order_filling_mode si;
    }

    abbrev pub halved : F → F
    halved volume = normalise_lots (py.div volume (py.lit 2 0)) si.lot_step si.lot_min si.lot_max

    -- The working values of the next attempt, or `none` where the exception is raised again. The
    -- volume is halved once, whatever the number of the attempt.
    unfoldable pub on_no_money : Working F → Option (Working F)
    on_no_money w =
        if w.is_halved || py.ltb (halved w.volume) si.lot_min
        then none
        else some (record w { volume = halved w.volume; is_halved = true })

    unfoldable pub widened : F → Working F → Working F
    widened price w =
        let levels =
          widen_stops plan.side price w.sl w.tp (py.mul (py.lit si.stops_level 0) si.point) in
        record w { sl = levels.0; tp = levels.1 }

    unfoldable pub on_refusal : ℕ → F → Option ℕ → Working F → Option (Working F)
    on_refusal number price code w =
        if has_code 10019 code
        then on_no_money w
        else if not (is_retryable code) || leb max_attempts number
        then none
        else some (if has_code 10016 code then widened price w else w)

    -- The slippage of a fill against the distance of the stop.
    unfoldable pub slippage_pct_of_stop : F → F
    slippage_pct_of_stop executed =
        let stop_distance = py.abs (py.sub plan.entry_price plan.stop_loss) in
        if py.ltb zero_f stop_distance
        then py.div (py.abs (py.sub executed plan.entry_price)) stop_distance
        else zero_f

    unfoldable pub slips : F → Bool
    slips executed =
        py.ltb zero_f (py.abs (py.sub executed plan.entry_price))
        && not (is_better_price plan.side executed plan.entry_price)
        && py.ltb cfg.max_entry_slippage_pct_of_stop (slippage_pct_of_stop executed)

    -- The order of `_emergency_close`. `get_current_tick` raises where there is no valid tick, so its
    -- price is always that of a tick.
    unfoldable pub emergency_close : Tick F → OrderResult F → CloseRequest F
    emergency_close tick result = record {
      ticket = result.ticket;
      symbol = plan.symbol;
      side = plan.side;
      volume = normalise_lots result.volume si.volume_step si.volume_min si.volume_max;
      price = exit_quote plan.side tick;
      slippage = cfg.slippage;
      magic = cfg.magic;
      filling_mode = order_filling_mode si;
    }

    module _ (market : Market F) where
      -- `_emergency_close` with the tick that it reads, and the exception that ends the call.
      unfoldable pub close_slipped : Option (Tick F) → OrderResult F → Run F
      close_slipped none result = ended close_failed
      close_slipped (some tick) result =
          let close = emergency_close tick result in
          record {
            exchanges = [];
            closes = close ∷ [];
            outcome = raised (if market.close_ok close then slippage_closed else close_failed);
          }

      unfoldable pub on_fill : OrderResult F → Run F
      on_fill result =
          if slips result.executed_price && cfg.close_on_slippage_exceed
          then close_slipped market.close_tick result
          else record { exchanges = []; closes = []; outcome = opened result }

      -- What a `RuntimeError` leads to; `rest` is the remaining loop.
      unfoldable pub after_refusal : ℕ → F → Working F → (Working F → Run F) → Option ℕ → Run F
      after_refusal number price w rest code = elim (on_refusal number price code w) [
        | none ↦ ended (rejected_with code)
        | some w' ↦ rest w'
      ]

      -- What an answer leads to. A fill that is not confirmed is handled as a refusal without a code.
      unfoldable pub answer : ℕ → F → Working F → (Working F → Run F) → Reply F → Run F
      answer number price w rest (done result) = on_fill result
      answer number price w rest broken = ended not_sent
      answer number price w rest (unconfirmed result) = after_refusal number price w rest none
      answer number price w rest (refused code) = after_refusal number price w rest code

      unfoldable pub attempt :
          ℕ → Working F → (Working F → Run F) → Option (Tick F) → (OrderRequest F → Reply F) → Run F
      attempt number w rest none reply = ended no_tick
      attempt number w rest (some tick) reply =
          let price = entry_quote plan.side tick in
          let r = request price w in sent (r, reply r) (answer number price w rest (reply r))

      -- The loop over the attempts that are left, the first of them with the given number.
      unfoldable pub attempts : (left number : ℕ) → Working F → Run F
      attempts zero number w = ended exhausted
      attempts (suc left) number w =
          attempt number w (attempts left (suc number)) (market.tick_at number)
            (market.reply_at number)

      unfoldable pub first_working : Option F → Working F
      first_working tp_override = record {
        sl = plan.stop_loss;
        tp = or_default tp_override plan.tp2;
        volume = plan.lot_size;
        is_halved = false;
      }

      unfoldable pub execute_market_order : Option F → Run F
      execute_market_order tp_override = attempts max_attempts 1 (first_working tp_override)
