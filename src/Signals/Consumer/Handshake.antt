-- ===== src/Signals/Consumer/Handshake.antt =====
-- src/signals/consumer.py: the connection of `SignalConsumer` to the gateway, from `_on_connected` to
-- `_handle_license_updated`. A control message is its event and the fields that are read; a field that
-- is missing is `none`, and so is an empty credential or command id. The thread of a command runs to
-- its end at once. The answers of the socket and of `uuid4` are functions of the number of the frame.
pub mod Owned
pub mod Activation
use execution_engine_multi.Prelude.{
  ℕ, ◌+◌, String, ◌==◌, Bool, true, false, not, ◌&&◌, ◌||◌, Option, none, some, is_some, List, [],
  ◌∷◌, ◌++◌, if◌then◌else◌,
}
use execution_engine_multi.Signals.Consumer.Outbox.{Reporter, replay_outbox}

pub data Command : Type 0 where
  pause resume emergency_stop : Command

pub data ControlEvent : Type 0 where
  protocol_accepted activation_accepted protocol_rejected : ControlEvent
  metrics_subscribe metrics_unsubscribe license_updated : ControlEvent
  command : Command → ControlEvent
  other_event : ControlEvent

-- The fields of `data`; `status` is in lower case.
pub record Control : Type 0 where
  pub event : ControlEvent
  pub message_id : Option String
  pub engine_id : Option String
  pub device_credential : Option String
  pub status : String
  pub command_id : Option String

-- What goes to the gateway.
pub data Frame : Type 0 where
  hello : (credential : Option String) → Frame
  activation_request room_subscribe metrics_snapshot : Frame
  heartbeat : (sequence : ℕ) → Frame
  command_completed : (command_id : String) → Frame
  command_failed : (command_id reason : String) → Frame

-- The fields of the consumer that the connection uses, and the frames that went out.
pub record Session : Type 0 where
  pub is_activated : Bool
  pub metrics_subscribed : Bool
  pub is_stopped : Bool
  pub hello_message_id : Option String
  pub activation_message_id : Option String
  pub device_credential : Option String
  pub stored_credential : Option String
  pub heartbeat_sequence : ℕ
  pub sends : ℕ
  pub frames : List Frame
  pub reporter : Reporter

-- The engine, and the answers of what is outside: the socket, `uuid4`, the storing of a credential,
-- the loading of the outbox, and the callbacks: `none` where no callback is registered, else the
-- text of its exception if it raises.
pub record Gateway : Type 0 where
  pub engine_id : String
  pub uuid : ℕ → String
  pub is_up : ℕ → Bool
  pub has_snapshots : Bool
  pub is_stored : Bool
  pub is_loaded : Bool
  pub now : ℕ
  pub callback : Command → Option (Option String)

-- `_send`: the message id, or `None` if the socket refuses.
pub send : Gateway → Frame → Session → Session × Option String
send g frame s =
    let s' = record s { sends = s.sends + 1 } in
    if g.is_up s.sends
    then (record s' { frames = s.frames ++ frame ∷ [] }, some (g.uuid s.sends))
    else (s', none)

-- `_on_connected`
unfoldable pub on_connected : Gateway → Session → Session
unfolding send
on_connected g s =
    let (s', sent) = send g (hello s.device_credential) (record s { is_activated = false }) in
    record s' { hello_message_id = sent }

-- `_on_disconnected`
pub on_disconnected : Session → Session
on_disconnected s = record s { is_activated = false; metrics_subscribed = false }

-- `_activate`
activate : Gateway → Session → Session
unfolding send
activate g s =
    let (s', sent) = send g activation_request s in record s' { activation_message_id = sent }

-- `_subscribe`
subscribe : Gateway → Session → Session
unfolding send
subscribe g s = (send g room_subscribe s).0

abbrev pub same_id : Option String → Option String → Bool
same_id none none = true
same_id none (some _) = false
same_id (some _) none = false
same_id (some a) (some b) = a == b

-- The fresh credential of an accepted activation.
store_credential : Gateway → Option String → Session → Session
store_credential g none s = s
store_credential g (some credential) s =
    let s' = record s { device_credential = some credential } in
    if g.is_stored && is_some s.reporter.db
    then record s' { stored_credential = some credential }
    else s'

-- `message_id in valid_ids`
abbrev pub is_expected : Control → Session → Bool
is_expected c s =
    same_id c.message_id s.activation_message_id || same_id c.message_id s.hello_message_id

replay : Gateway → Session → Session
replay g s = record s { reporter = replay_outbox g.is_loaded g.now s.reporter }

-- The branch of `activation.accepted`.
unfoldable pub accept_activation : Gateway → Control → Session → Session
unfolding store_credential subscribe replay
accept_activation g c s =
    if not (is_expected c s)
    then s
    else if not (same_id c.engine_id (some g.engine_id))
    then s
    else replay g
        (subscribe g (record (store_credential g c.device_credential s) { is_activated = true }))

-- `_handle_license_updated`: `stop` sets the event and stops the socket.
pub handle_license : String → Session → Session
handle_license status s =
    if status == "suspended" || (status == "revoked" || status == "expired")
    then record s { is_stopped = true }
    else s

reply : Gateway → String → Option (Option String) → Session → Session
unfolding send
reply g id none s = (send g (command_failed id "No handler registered") s).0
reply g id (some none) s = (send g (command_completed id) s).0
reply g id (some (some reason)) s = (send g (command_failed id reason) s).0

-- `_handle_command`
pub handle_command : Gateway → Command → Option String → Session → Session
unfolding reply
handle_command g which none s = s
handle_command g which (some id) s = reply g id (g.callback which) s

snapshot : Gateway → Session → Session
unfolding send
snapshot g s = if g.has_snapshots then (send g metrics_snapshot s).0 else s

-- `_handle_control` on the event: the state, and whether the message was handled.
pub handle_event : Gateway → Control → ControlEvent → Session → Session × Bool
unfolding activate accept_activation handle_license handle_command snapshot
handle_event g c protocol_accepted s =
    if same_id c.message_id s.hello_message_id then (activate g s, true) else (s, false)
handle_event g c activation_accepted s = (accept_activation g c s, true)
handle_event g c protocol_rejected s =
    (if is_expected c s then record s { is_activated = false } else s, true)
handle_event g c metrics_subscribe s = (snapshot g (record s { metrics_subscribed = true }), true)
handle_event g c metrics_unsubscribe s = (record s { metrics_subscribed = false }, true)
handle_event g c (command which) s = (handle_command g which c.command_id s, true)
handle_event g c license_updated s = (handle_license c.status s, true)
handle_event g c other_event s = (s, false)

unfoldable pub handle_control : Gateway → Control → Session → Session × Bool
unfolding handle_event
handle_control g c s = handle_event g c c.event s

-- One round of `_refresh_rooms`, `_send_heartbeats` and `_send_metrics_snapshots`, after its wait,
-- which ends the loop of a stopped consumer.
pub refresh_rooms : Gateway → Session → Session
unfolding subscribe
refresh_rooms g s = if not s.is_stopped && s.is_activated then subscribe g s else s

unfoldable pub send_heartbeat : Gateway → Session → Session
unfolding send
send_heartbeat g s =
    let s' = record s { heartbeat_sequence = s.heartbeat_sequence + 1 } in
    if not s.is_stopped && s.is_activated
    then (send g (heartbeat s'.heartbeat_sequence) s').0
    else s

pub send_metrics : Gateway → Session → Session
unfolding send
send_metrics g s =
    if not s.is_stopped && s.is_activated && (s.metrics_subscribed && g.has_snapshots)
    then (send g metrics_snapshot s).0
    else s

pub data Event : Type 0 where
  connected disconnected : Event
  control : Control → Event
  refreshed beat measured : Event

unfoldable pub step : Gateway → Event → Session → Session
step g connected s = on_connected g s
step g disconnected s = on_disconnected s
step g (control c) s = (handle_control g c s).0
step g refreshed s = refresh_rooms g s
step g beat s = send_heartbeat g s
step g measured s = send_metrics g s

unfoldable pub run_session : Gateway → List Event → Session → Session
run_session g [] s = s
run_session g (e ∷ es) s = run_session g es (step g e s)
