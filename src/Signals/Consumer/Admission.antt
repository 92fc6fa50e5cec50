-- ===== src/Signals/Consumer/Admission.antt =====
-- src/signals/consumer.py: `SignalConsumer._handle_raw` and `_process`, the way of one message of the
-- gateway to the bus. What the JSON library makes of the text is an argument, and so is the HMAC of
-- hashlib and hmac. An id and a signature are texts. The bus is the list of what was emitted on it.
pub mod Replay
pub mod Source
pub mod Delivery
use execution_engine_multi.Prelude.{
  lookup, map, member, ℕ, String, ◌==◌, Bool, true, false, not, ◌&&◌, Option, none, some, List, [],
  ◌∷◌, ◌++◌, if◌then◌else◌,
}
use execution_engine_multi.Prelude.Python.{Python}
use execution_engine_multi.Domain.Signal.{InboundSignal}
use execution_engine_multi.Domain.Wire.{Scalar, null, int, num, text, WireDict}
use execution_engine_multi.Domain.Wire.Read.{from_dict}
use execution_engine_multi.Signals.Validator.{ValidationError, validate}
use execution_engine_multi.Signals.Consumer.Seen.{Key, seen_ids_max, admit_key}
use execution_engine_multi.Signals.Consumer.Outbox.{received, make_report, queue_report}
use execution_engine_multi.Signals.Consumer.Handshake.{
  ControlEvent, protocol_accepted, activation_accepted, protocol_rejected, metrics_subscribe,
  metrics_unsubscribe, license_updated, command, other_event, pause, resume, emergency_stop,
  Control, Session, Gateway, handle_control,
}

pub data BusEvent (F : Type 0) : Type 0 where
  signal_rejected : InboundSignal F → List ValidationError → BusEvent F
  signal_received : (event : String) → InboundSignal F → BusEvent F
  signal_triggered : InboundSignal F → BusEvent F

pub record Consumer (F : Type 0) : Type 0 where
  pub session : Session
  pub seen : List Key
  pub bus : List (BusEvent F)

-- A payload, and its canonical text without the signature.
pub record Payload (F : Type 0) : Type 0 where
  pub wire : WireDict F
  pub body : String

-- What `json.loads` makes of a message; `data` and `payload` are `none` where they are no objects.
pub data Incoming (F : Type 0) : Type 0 where
  not_json not_object : Incoming F
  object : (event : String) (fields : Option Control) (payload : Option (Payload F)) → Incoming F

-- The configuration, and the answers of the clock and of what is outside for one message.
pub record Arrival : Type 0 where
  pub gateway : Gateway
  pub secret : Option String
  pub hmac : String → String → String
  pub max_age_ms : ℕ
  pub now : ℕ
  pub observed_at : String
  pub has_sink : Bool
  pub write : ℕ → Bool

abbrev required : List String
required =
    "id" ∷ "symbol" ∷ "direction" ∷ "status" ∷ "entryPrice" ∷ "stopLoss" ∷ "tp1" ∷ "tp2"
    ∷ "riskRewardRatio" ∷ "htfRange" ∷ "rejectionCandle" ∷ []

has_all : List String → List String → Bool
has_all [] fields = true
has_all (name ∷ names) fields = member name fields && has_all names fields

abbrev pub is_trigger : String → Bool
is_trigger event = event == "signal.triggered"

abbrev pub dedupe_by : String → List Key → Option String → Option (List Key)
dedupe_by event seen none = some seen
dedupe_by event seen (some id) = admit_key seen_ids_max (event, id) seen

abbrev pub signature_holds : Arrival → String → (secret signature : Option String) → Bool
signature_holds a body none signature = true
signature_holds a body (some secret) none = false
signature_holds a body (some secret) (some given) = given == a.hmac secret body

module _ {F : Type 0} where
  -- The text of a field, or `none` where it is missing or false.
  abbrev pub truthy_text : Option (Scalar F) → Option String
  truthy_text none = none
  truthy_text (some null) = none
  truthy_text (some (int n)) = none
  truthy_text (some (num x)) = none
  truthy_text (some (text t)) = if t == "" then none else some t

  abbrev pub text_of : String → Payload F → Option String
  text_of key p = truthy_text (lookup key p.wire.scalars)

  -- The names of the fields.
  abbrev pub field_names : Payload F → List String
  field_names p = map (λ field. field.0) p.wire.scalars ++ map (λ field. field.0) p.wire.objects

  -- `is_valid_signal_dict`
  is_valid_signal_dict : Payload F → Bool
  unfolding has_all
  is_valid_signal_dict p = has_all required (field_names p)

  -- The signature test, where a secret is configured.
  unfoldable pub is_authentic : Arrival → Payload F → Bool
  is_authentic a p = signature_holds a p.body a.secret (text_of "signature" p)

  -- `payload.get("id") or payload.get("signal_id")`
  abbrev pub id_of : Payload F → Option String
  id_of p = elim (text_of "id" p) [ none ↦ text_of "signal_id" p | some id ↦ some id ]

  -- The deduplication: the table after it, or `none` for a duplicate.
  pub dedupe : String → Payload F → List Key → Option (List Key)
  dedupe event p seen = dedupe_by event seen (id_of p)

  -- The report "received" of a trigger.
  note_received : Arrival → String → InboundSignal F → Consumer F → Consumer F
  note_received a event s c =
      if is_trigger event
      then record c {
        session = record c.session {
          reporter =
              queue_report a.has_sink a.write a.now
                (make_report received s.id a.observed_at none none none) c.session.reporter;
        };
      }
      else c

  abbrev pub announced : String → InboundSignal F → List (BusEvent F)
  announced event s =
      signal_received event s ∷ (if is_trigger event then signal_triggered s ∷ [] else [])

  abbrev pub verdict : String → InboundSignal F → List ValidationError → List (BusEvent F)
  verdict event s [] = announced event s
  verdict event s (error ∷ errors) = signal_rejected s (error ∷ errors) ∷ []

module _ {F : Type 0} ⦃py : Python F⦄ where
  -- After the deserialisation.
  read_signal : Arrival → String → Option (InboundSignal F) → Consumer F → Consumer F
  unfolding note_received
  read_signal a event none c = c
  read_signal a event (some s) c =
      let c' = note_received a event s c in
      record c' { bus = c'.bus ++ verdict event s (validate a.max_age_ms a.now s) }

  abbrev after_dedupe : Arrival → String → Payload F → Consumer F → Option (List Key) → Consumer F
  after_dedupe a event p c none = c
  after_dedupe a event p c (some seen) =
      read_signal a event (from_dict a.now p.wire) (record c { seen = seen })

  -- `_process`
  unfoldable pub process : Arrival → String → Payload F → Consumer F → Consumer F
  unfolding is_authentic read_signal
  process a event p c =
      if is_authentic a p then after_dedupe a event p c (dedupe event p c.seen) else c

-- The events that `_handle_control` tests for.
control_event : String → ControlEvent
control_event name =
    if name == "protocol.accepted"
    then protocol_accepted
    else if name == "activation.accepted"
    then activation_accepted
    else if name == "protocol.rejected"
    then protocol_rejected
    else if name == "execution.metrics.subscribe"
    then metrics_subscribe
    else if name == "execution.metrics.unsubscribe"
    then metrics_unsubscribe
    else if name == "command.pause"
    then command pause
    else if name == "command.resume"
    then command resume
    else if name == "command.emergency_stop"
    then command emergency_stop
    else if name == "license.updated"
    then license_updated
    else other_event

-- The call of `_handle_control` for an object with a name and data.
pub control_stage : Gateway → String → Option Control → Session → Session × Bool
unfolding control_event
control_stage g event none s = (s, false)
control_stage g event (some fields) s =
    if event == ""
    then (s, false)
    else handle_control g (record fields { event = control_event event }) s

module _ {F : Type 0} ⦃py : Python F⦄ where
  abbrev payload_stage : Arrival → String → Option (Payload F) → Consumer F → Consumer F
  payload_stage a event none c = c
  payload_stage a event (some p) c =
      if not (event == "") && is_valid_signal_dict p then process a event p c else c

  -- `_handle_raw`
  unfoldable pub handle_raw : Arrival → Incoming F → Consumer F → Consumer F
  unfolding is_valid_signal_dict control_stage process
  handle_raw a not_json c = c
  handle_raw a not_object c = c
  handle_raw a (object event fields payload) c =
      let (session, is_handled) = control_stage a.gateway event fields c.session in
      let c' = record c { session = session } in
      if is_handled then c' else payload_stage a event payload c'

  unfoldable pub handle_all : List (Arrival × Incoming F) → Consumer F → Consumer F
  handle_all [] c = c
  handle_all ((a, m) ∷ ms) c = handle_all ms (handle_raw a m c)
