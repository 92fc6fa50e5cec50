-- ===== src/Checks/Orders.antt =====
-- The theorems of the order manager on a broker that refuses, lacks margin and fills.
use execution_engine_multi.Prelude.{
  ℕ, ◌≤◌, ◌≡◌, refl, true, false, some, none, arith, length, All, eqb, if◌then◌else◌,
}
use execution_engine_multi.Prelude.Int.{ℤ}
use execution_engine_multi.Checks.Floats.{Python-ℤ, FloatOrder-ℤ}
use execution_engine_multi.Checks.Samples.{dec, signal, execution_config, symbol_info, plan_of}
use execution_engine_multi.Domain.Signal.{long}
use execution_engine_multi.Domain.Trade.{TradePlan}
use execution_engine_multi.Brokers.{Tick, OrderRequest, OrderResult, Reply, done, refused}
use execution_engine_multi.Execution.OrderManager.{Run, Market, opened, execute_market_order}
use execution_engine_multi.Execution.OrderManager.Fills.{execute_market_order-bounded}
use execution_engine_multi.Execution.OrderManager.Stops.{IsOutward, execute_market_order-IsOutward}
use execution_engine_multi.Execution.OrderManager.Recovery.{
  IsTransient, transient, execute_market_order-recovers,
}
use execution_engine_multi.Execution.OrderManager.{
  first_working, attempts, attempt, answer, on_refusal, on_no_money, widened, widen_stops,
  after_refusal, close_slipped, on_fill, slips, is_better_price, slippage_pct_of_stop,
  emergency_close, request, sent, ended,
}
use execution_engine_multi.Utils.Price.{normalise_lots}
use execution_engine_multi.Prelude.Int.{◌+ℤ◌, ◌-ℤ◌}
use execution_engine_multi.Prelude.{◌<◌}

abbrev order_plan : TradePlan ℤ
order_plan = plan_of (signal "s1" long) (dec 1 0)

abbrev tick : Tick ℤ
tick = record { bid = dec 11 1; ask = dec 11001 4 }

abbrev fill : OrderResult ℤ
fill = record { ticket = 42; executed_price = dec 11002 4; volume = dec 1 1 }

-- A requote, a lack of margin, and a fill.
abbrev replies : ℕ → OrderRequest ℤ → Reply ℤ
replies n r =
    if eqb n 1 then refused (some 10016) else if eqb n 2 then refused (some 10019) else done fill

abbrev market : Market ℤ
market = record {
  tick_at = λ n. some tick;
  reply_at = replies;
  close_tick = none;
  close_ok = λ c. true;
}

abbrev late_market : Market ℤ
late_market = record market {
  reply_at = λ n r. if eqb n 2 then done fill else refused (some 10004);
}

abbrev first_run : Run ℤ
first_run = execute_market_order execution_config order_plan symbol_info market none

first_run-opened : first_run.outcome ≡ opened fill
unfolding execute_market_order first_working attempts attempt answer on_refusal on_no_money widened
    widen_stops after_refusal close_slipped on_fill slips is_better_price slippage_pct_of_stop
    emergency_close request sent ended normalise_lots ◌+ℤ◌ ◌-ℤ◌
first_run-opened = refl

execute_market_order-bounded_example : length first_run.exchanges ≤ 3
execute_market_order-bounded_example =
    execute_market_order-bounded execution_config order_plan symbol_info market none

execute_market_order-IsOutward_example :
    All
      (λ x. IsOutward order_plan.side order_plan.stop_loss order_plan.tp2 x.0.sl x.0.tp)
      first_run.exchanges
execute_market_order-IsOutward_example =
    execute_market_order-IsOutward FloatOrder-ℤ execution_config order_plan symbol_info market none

ticks : (i : ℕ) → i ≤ 2 → late_market.tick_at i ≡ some tick
ticks i early = refl

not_two : (i : ℕ) → i < 2 → eqb i 2 ≡ false
not_two i early = ground (arith, early)

refusals : (i : ℕ) (r : OrderRequest ℤ) → i < 2 → IsTransient (late_market.reply_at i r)
refusals i r early = rw (not_two i early) (transient (some 10004) refl)

execute_market_order-recovers_example :
    let r = execute_market_order execution_config order_plan symbol_info late_market none in
    (r.outcome ≡ opened fill) × (length r.exchanges ≡ 2)
unfolding execute_market_order first_working attempts attempt answer on_refusal on_no_money widened
    widen_stops after_refusal close_slipped on_fill slips is_better_price slippage_pct_of_stop
    emergency_close request sent ended normalise_lots ◌+ℤ◌ ◌-ℤ◌
execute_market_order-recovers_example =
    execute_market_order-recovers execution_config order_plan symbol_info late_market 2 (λ _. tick)
      fill ticks refusals (λ r. refl) refl (omega arith) (omega arith) none
