-- ===== src/Lib.antt =====
-- The core of the execution engine: the way of a trading signal from the queue through the risk
-- rules to an order, and the trackers that decide whether and how large it may trade.
--
-- Parts. A gateway thread puts a signal into the queue; one worker takes it out and calls
-- `ExecutionEngine.execute`. That call asks the repository for its health, tests the age, fetches
-- the account and the symbol from the broker, and under the pending lock tests for duplicates and
-- lets the risk engine run its ten rules. The rules read the configuration, the open trades and
-- three trackers: the loss tracker pauses trading for the day, the cluster tracker keeps the daily
-- risk budget of correlated symbols, the equity throttle makes trades smaller in a drawdown. An
-- approved signal is reserved, planned, sent as an order, recorded as a trade in the position
-- store, saved, and its reservation is released. The order manager sends the order, with retries,
-- and closes a fill that slipped too far. From then on the position manager owns the trade: its poll
-- compares the store with the broker's positions, closes a part at TP1, moves the stop to break-even,
-- and takes a trade whose position is gone out of the store. The signals come from the gateway: the
-- consumer shakes hands with it, checks the signature of a message, drops what it has seen, validates
-- the signal and announces it on the event bus, and it reports back what became of a signal, over a
-- queue and a table of reports that are not sent yet. In another process the manager routes signals
-- to the agents, sends a delivery again until it is answered or expires, and starts the agents that
-- should run, later and later the more often they crash.
--
-- Files and the code that they model (paths from the root of the repository).
--   Prelude: shared names and lemmas; Prelude/Mapping is Python's dict, Prelude/Sets its set,
--     Prelude/Python the interface of Python's floats and character tables.
--   Utils/Symbol, Utils/Price, Utils/LotCalculator: src/utils/symbol.py, src/utils/price.py,
--     src/utils/lot_calculator.py.
--   Config: the records of src/config/settings.py that are read here.
--   Domain/Signal, Domain/Position, Domain/Trade: src/domain/.
--   Domain/Wire: `from_dict` and `to_dict` of src/domain/signal_interface.py; Wire/Read reads in parts
--     what the method reads at once.
--   Brokers: what the callers of src/brokers/mt5/orders.py and positions.py send and get.
--   Positions/Store: `PositionStore` of src/positions/store.py.
--   Positions/Manager: the functions below the class in src/positions/manager.py; Manager/State its
--     fields, Manager/Lifecycle `_handle_tp1_price_reached` in its three steps, Manager/Gone
--     `_handle_position_gone`, Manager/Poll `_poll` and `hydrate_from_broker`, Manager/Closing
--     `emergency_close_all` and `close_trade`. The other modules below Manager hold the proofs.
--   Risk/Cluster: `ClusterRiskTracker` of src/risk/cluster_tracker.py; `preview_in`, `reserve_in`,
--     `release_in`, `open_in` and `close_in` are its methods on the state of one group.
--   Risk/Throttle: `EquityThrottleTracker` and `money_r` of src/risk/equity_throttle.py.
--   Risk/Loss: `LossTracker` of src/risk/loss_tracker.py.
--   Risk/Rules: the rules of src/risk/rules.py; Rules/Memory has those that read memory only,
--     Rules/Market those that read the live quote.
--   Risk/Engine: `RiskEngine.evaluate` of src/risk/engine.py.
--   Execution/State, Execution/Engine: `ExecutionEngine.execute` of src/execution/engine.py, as
--     steps that read and write a state and may end the call; the steps carry the names of what
--     they do, and `execute` composes them in the order of the method.
--   Execution/Polling: `update_daily_loss` and `mark_risk_data_unavailable` of the same class; the
--     latter is `mark_engine_risk_data`.
--   Config/Overrides: the TP1 settings of `ExecutionConfig` in src/config/settings.py, their
--     validation and `_resolve_tf_override`; the key of the time frames is an argument.
--   Execution/Planner: `TradePlanner.plan` of src/execution/planner.py.
--   Execution/OrderManager: `OrderManager.execute_market_order` of src/execution/order_manager.py;
--     `attempts` is its loop, `answer` what one answer of the broker leads to, and `on_refusal` the
--     handler of `RuntimeError`.
--   Execution/Engine/Filling, Execution/Engine/Planned: `execute` takes the order manager and the
--     planner as arguments; these put the two modules above in their place.
--   Manager/SignalRouter: `_process_due_deliveries` of manager/app/signal_router.py, and the table
--     of deliveries of manager/app/registry.py as a list of rows; SignalRouter/Routing is
--     `_on_signal` and `handle_gateway_signal`.
--   Signals/Queue: `SignalQueue` of src/signals/queue.py, as moves that interleave.
--   Signals/Validator: `SignalValidator.validate` of src/signals/signal_validator.py.
--   Signals/Consumer: `SignalConsumer` of src/signals/consumer.py; Consumer/Seen its dict of seen
--     messages, Consumer/Outbox the reports with the table `event_outbox` of src/infra/db.py,
--     Consumer/Handshake the control messages and Consumer/Admission the way of a message to the bus.
--   Manager/Supervision: `DesiredStateSupervisor` of manager/app/desired_state.py, with what it uses
--     of manager/app/registry.py and manager/app/process_supervisor.py.
--   Checks: the theorems at concrete inputs, with fixed-point numbers in the place of floats.
--
-- Assumptions. `F` is the type of floats, with the operations of `Python F`; the theorems about
-- sizes take `FloatOrder`, which states the order of floats that are not NaN. Nothing is assumed of
-- multiplication, division and rounding. The clock, the calendar, the broker, the planner, the
-- repository and the order manager are arguments: `Answers` holds what they say in one call. So are
-- the socket and the credential store (`Gateway`), the HMAC (`Arrival`), the operating system
-- (`System`), and in the signal router the case mapping of texts (`Text`). A message comes with what
-- the JSON decoder made of it.
-- Integers are Python's, without a bound; timestamps are natural numbers, and differences of
-- timestamps that the code compares with positive limits are subtractions that stop at zero.
-- The loop of the order manager counts the attempts that are left, one more than the configured
-- retries, as the code does. No other function needs fuel: every other loop is over a list. The
-- broker's answers are functions of the number of the attempt, or of the request and the poll. The
-- consumer remembers 10,000 messages and queues 1,000 reports, as the code does.
--
-- Not modelled: log lines, metrics and latency gauges, the texts of reasons (a reason is a
-- constructor), the saved state of the loss tracker, the payloads of events beyond
-- the signal's id or the trade, timestamps of the signal that only the log reads, threads other
-- than the queue's (a call of `execute` is not interrupted), the parsing of the intervals that the
-- TP1 settings are looked up by, the text of an exception, from which the order manager reads the
-- return code, the polling thread of the position manager, the sockets, fields of a signal with a
-- type that the contract does not give them, `report_event` and the client of the minimal feed, the
-- database, the broker's client, the operations, leases and reconciliation of the manager, the rest
-- of its application and its user interface.
pub mod Prelude
pub mod Utils
pub mod Config
pub mod Brokers
pub mod Domain
pub mod Positions
pub mod Risk
pub mod Execution
pub mod Signals
pub mod Manager
pub mod Checks
