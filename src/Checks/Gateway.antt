-- ===== src/Checks/Gateway.antt =====
-- The theorems of the gateway's consumer on short runs.
use execution_engine_multi.Prelude.{
  inl, inr, ◌+◌, ◌≤◌, ◌≡◌, ◌↔◌, refl, true, false, Option, none, some, List, [], ◌∷◌, All, map,
  length, arith,
}
use execution_engine_multi.Prelude.Int.{ℤ}
use execution_engine_multi.Checks.Floats.{Python-ℤ, FloatOrder-ℤ}
use execution_engine_multi.Checks.Samples.{signal}
use execution_engine_multi.Domain.Signal.{InboundSignal, long}
use execution_engine_multi.Domain.Wire.Read.{from_dict}
use execution_engine_multi.Domain.Wire.Write.{to_dict}
use execution_engine_multi.Domain.Wire.Roundtrip.{IsParsed, from_dict-to_dict}
use execution_engine_multi.Utils.Symbol.{normalise_symbol}
use execution_engine_multi.Signals.Consumer.Admission.Delivery.{sent_as, handle_raw-announced}
use execution_engine_multi.Signals.Validator.{validate, is_stale_signal}
use execution_engine_multi.Signals.Validator.WellFormed.{IsWellFormed, validate-IsWellFormed}
use execution_engine_multi.Signals.Consumer.Outbox.{
  attempted, Report, Row, Outbox, Reporter, outbox_load_pending, replay_outbox, Move, reported,
  replayed, taken, delivered, evicted, restarted, moves,
}
use execution_engine_multi.Signals.Consumer.Outbox.Kept.{SentOn, message}
use execution_engine_multi.Signals.Consumer.Outbox.Sent.{rows_of, first_start, moves-SentOn}
use execution_engine_multi.Signals.Consumer.Outbox.Waiting.{item_of, message_of, serve_all}
use execution_engine_multi.Signals.Consumer.Outbox.Reconnect.{pending_in, reconnect_delivers}
use execution_engine_multi.Signals.Consumer.Handshake.{
  activation_accepted, Control, Gateway, Session, connected, control, beat, Event, run_session,
  handle_control, on_connected, send_heartbeat, step,
}
use execution_engine_multi.Signals.Consumer.Handshake.Activation.{
  WasAccepted, run_session-WasAccepted,
}
use execution_engine_multi.Signals.Consumer.Admission.{
  Consumer, Payload, Incoming, not_json, object, Arrival, is_authentic, process, handle_all,
  handle_raw, signal_received, signal_triggered,
}
use execution_engine_multi.Signals.Consumer.Admission.Replay.{process-replayed}
use execution_engine_multi.Signals.Consumer.Admission.Source.{HasSource, handle_all-HasSource}

abbrev one : InboundSignal ℤ
one = signal "s1" long

validate-IsWellFormed_example :
    (validate 90000 5000 one ≡ []) ↔ IsWellFormed FloatOrder-ℤ 90000 5000 one
validate-IsWellFormed_example = validate-IsWellFormed FloatOrder-ℤ 90000 5000 one

abbrev report : Report
report = record {
  signal_id = "s1";
  stage = attempted;
  observed_at = "2026-01-01T00:00:00Z";
  reason = none;
  trade_id = none;
  broker_ticket = none;
}

-- The second of the three attempts to write succeeds, the first delivery fails, the process starts
-- again, and the replayed row is delivered.
abbrev life : List Move
life =
    reported false (λ attempt. true) 1000 report
    ∷ taken
    ∷ delivered false true (λ attempt. true) 1001
    ∷ restarted
    ∷ replayed true 1002
    ∷ taken
    ∷ delivered true true (λ attempt. true) 1003
    ∷ evicted 1004
    ∷ []

moves-SentOn_example :
    All
      (λ row. SentOn row.sent (message row) (moves life (first_start 1)).wire)
      (rows_of (moves life (first_start 1)).db)
moves-SentOn_example = moves-SentOn life 1

abbrev unsent : Row
unsent = record {
  id = 1;
  event = "execution.lifecycle";
  report = report;
  sent = false;
  created_at = 1000;
  sent_at = none;
}

abbrev stored : Option Outbox
stored = some (record { next_id = 2; rows = unsent ∷ [] })

few_pending : 0 + length (pending_in 2000 stored) ≤ 1000
unfolding outbox_load_pending
few_pending = omega arith

reconnect_delivers_example :
    let r : Reporter = record { db = stored; queue = []; in_hand = none; wire = []; sunk = [] } in
    let all = map item_of (pending_in 2000 stored) in
    let r' = serve_all (length all) (λ attempt. true) 2001 (replay_outbox true 2000 r) in
    (r'.queue ≡ []) × (r'.wire ≡ map message_of all) × (pending_in 2000 r'.db ≡ [])
reconnect_delivers_example =
    reconnect_delivers (λ attempt. true) 2000 2001 stored [] [] [] few_pending

abbrev gateway : Gateway
gateway = record {
  engine_id = "engine-1";
  uuid = λ n. "hello-1";
  is_up = λ n. true;
  has_snapshots = true;
  is_stored = true;
  is_loaded = true;
  now = 2000;
  callback = λ which. some none;
}

abbrev fresh_session : Session
fresh_session = record {
  is_activated = false;
  metrics_subscribed = false;
  is_stopped = false;
  hello_message_id = none;
  activation_message_id = none;
  device_credential = some "old";
  stored_credential = some "old";
  heartbeat_sequence = 0;
  sends = 0;
  frames = [];
  reporter = record { db = stored; queue = []; in_hand = none; wire = []; sunk = [] };
}

abbrev acceptance : Control
acceptance = record {
  event = activation_accepted;
  message_id = some "hello-1";
  engine_id = some "engine-1";
  device_credential = some "new";
  status = "";
  command_id = none;
}

abbrev events : List Event
events = connected ∷ control acceptance ∷ beat ∷ []

is_active : (run_session gateway events fresh_session).is_activated ≡ true
unfolding run_session step handle_control on_connected send_heartbeat
is_active = refl

run_session-WasAccepted_example : WasAccepted gateway events
run_session-WasAccepted_example =
    run_session-WasAccepted gateway events fresh_session refl refl refl is_active

-- The signal as the parser makes it.
abbrev sent_signal : InboundSignal ℤ
sent_signal = record one {
  symbol = "EURUSD";
  resolved_symbol = none;
  setup_candle_open_at = some 800;
  detected_at = some 960;
  emitted_at = some 970;
  received_at = some 980;
}

sent_signal-IsParsed : IsParsed sent_signal
unfolding normalise_symbol
sent_signal-IsParsed = record {
  symbol = refl;
  resolved = refl;
  htf = record { tp_level = inl refl; midpoint = refl; height = refl };
  opened = refl;
  closed = inl refl;
  detected = refl;
  emitted = refl;
  received = refl;
}

from_dict-to_dict_example : from_dict 5000 (to_dict sent_signal) ≡ some sent_signal
from_dict-to_dict_example = from_dict-to_dict 5000 sent_signal sent_signal-IsParsed

abbrev payload : Payload ℤ
payload = sent_as (some "code") "{}" sent_signal

abbrev arrival : Arrival
arrival = record {
  gateway = gateway;
  secret = some "secret";
  hmac = λ secret body. "code";
  max_age_ms = 90000;
  now = 5000;
  observed_at = "2026-01-01T00:00:05Z";
  has_sink = false;
  write = λ attempt. true;
}

abbrev consumer : Consumer ℤ
consumer = record { session = fresh_session; seen = []; bus = [] }

abbrev messages : List (Arrival × Incoming ℤ)
messages = (arrival, object "signal.triggered" none (some payload)) ∷ (arrival, not_json) ∷ []

is_signed : is_authentic arrival payload ≡ true
unfolding is_authentic
is_signed = refl

process-replayed_example :
    let later = handle_all messages (process arrival "signal.triggered" payload consumer) in
    process arrival "signal.triggered" payload later ≡ later
unfolding to_dict
process-replayed_example =
    process-replayed arrival "signal.triggered" "s1" payload consumer messages arrival payload refl
      is_signed refl (omega arith) refl

handle_all-HasSource_example :
    All (HasSource FloatOrder-ℤ messages) (handle_all messages consumer).bus
handle_all-HasSource_example = handle_all-HasSource FloatOrder-ℤ messages consumer refl

no_errors : validate 90000 5000 sent_signal ≡ []
unfolding validate is_stale_signal
no_errors = refl

handle_raw-announced_example :
    (handle_raw arrival
      (object "signal.triggered" none (some (sent_as (some "code") "{}" sent_signal)))
      consumer).bus
    ≡ signal_received "signal.triggered" sent_signal ∷ signal_triggered sent_signal ∷ []
handle_raw-announced_example =
    handle_raw-announced FloatOrder-ℤ arrival none (some "code") "{}" sent_signal consumer
      (inr ("secret", refl, refl)) refl refl sent_signal-IsParsed
      ((validate-IsWellFormed FloatOrder-ℤ 90000 5000 sent_signal).0 no_errors)
