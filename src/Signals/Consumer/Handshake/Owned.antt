-- ===== src/Signals/Consumer/Handshake/Owned.antt =====
-- What the handlers do to the flag of activation and to the ids of the frames.
use execution_engine_multi.Prelude.{
  ℕ, ◌≡◌, ◌⊎◌, inl, inr, refl, sym, ap, subst, String, ◌==◌, eq_iff, Bool, true, false, not, ◌&&◌,
  ◌||◌, Option, none, some, is_some, if_ind, Bool-cases,
}
use execution_engine_multi.Signals.Consumer.Handshake.{
  Command, ControlEvent, protocol_accepted, activation_accepted, protocol_rejected,
  metrics_subscribe, metrics_unsubscribe, license_updated, command, other_event, Control, Frame,
  hello, activation_request, room_subscribe, Session, Gateway, send, on_connected, activate,
  subscribe, same_id, store_credential, is_expected, replay, accept_activation, handle_license,
  reply, handle_command, snapshot, handle_event,
}

same_id_eq : (a b : Option String) → same_id a b ≡ true → a ≡ b
same_id_eq none none e = refl
same_id_eq none (some b) e = cc
same_id_eq (some a) none e = cc
same_id_eq (some a) (some b) e = ap some ((eq_iff a b).0 e)

-- A message id that a frame of this engine carried, or none at all.
abbrev pub IsOwn : Gateway → Option String → Type 0
IsOwn g none = Unit
IsOwn g (some id) = (n : ℕ) × (id ≡ g.uuid n)

-- What a handler may do to the flag and the two ids.
pub record Calm (g : Gateway) (s s' : Session) : Type 0 where
  pub active : s'.is_activated ≡ true → s.is_activated ≡ true
  pub own_hello : IsOwn g s.hello_message_id → IsOwn g s'.hello_message_id
  pub own_activation : IsOwn g s.activation_message_id → IsOwn g s'.activation_message_id

pub Calm-refl : (g : Gateway) (s : Session) → Calm g s s
Calm-refl g s = record { active = λ h. h; own_hello = λ h. h; own_activation = λ h. h }

pub Calm-send : (g : Gateway) (frame : Frame) (s : Session) → Calm g s (send g frame s).0
unfolding send
Calm-send g frame s =
    if_ind (λ (p : Session × Option String). Calm g s p.0) (g.is_up s.sends)
      (record { active = λ h. h; own_hello = λ h. h; own_activation = λ h. h })
      (record { active = λ h. h; own_hello = λ h. h; own_activation = λ h. h })

send-IsOwn : (g : Gateway) (frame : Frame) (s : Session) → IsOwn g (send g frame s).1
unfolding send
send-IsOwn g frame s =
    if_ind (λ (p : Session × Option String). IsOwn g p.1) (g.is_up s.sends) (s.sends, refl) tt

abbrev pub Owns : Gateway → Session → Type 0
Owns g s = IsOwn g s.hello_message_id × IsOwn g s.activation_message_id

pub Owns-Calm : (g : Gateway) (s s' : Session) → Calm g s s' → Owns g s → Owns g s'
Owns-Calm g s s' calm (own_hello, own_activation) =
    (calm.own_hello own_hello, calm.own_activation own_activation)

expected-IsOwn :
    (g : Gateway) (c : Control) (s : Session)
    → Owns g s
    → is_expected c s ≡ true
    → IsOwn g c.message_id
expected-IsOwn g c s (own_hello, own_activation) e =
    elim (Bool-cases (same_id c.message_id s.activation_message_id)) [
      | inl same ↦ subst (IsOwn g) (sym (same_id_eq _ s.activation_message_id same)) own_activation
      | inr other ↦
          subst (IsOwn g) (sym (same_id_eq c.message_id s.hello_message_id (rw other at e)))
            own_hello
    ]

pub Calm-connected : (g : Gateway) (s : Session) → Owns g s → Owns g (on_connected g s)
unfolding on_connected
Calm-connected g s (own_hello, own_activation) =
    let calm = Calm-send g (hello s.device_credential) (record s { is_activated = false }) in
    (send-IsOwn g _ _, calm.own_activation own_activation)

pub connected-inactive :
    (g : Gateway) (s : Session) → (on_connected g s).is_activated ≡ true → false ≡ true
unfolding on_connected
connected-inactive g s =
    (Calm-send g (hello s.device_credential) (record s { is_activated = false })).active

Owns-activate : (g : Gateway) (s : Session) → Owns g s → Owns g (activate g s)
unfolding activate
Owns-activate g s (own_hello, own_activation) =
    ((Calm-send g activation_request s).own_hello own_hello, send-IsOwn g _ _)

active-activate :
    (g : Gateway) (s : Session) → (activate g s).is_activated ≡ true → s.is_activated ≡ true
unfolding activate
active-activate g s = (Calm-send g activation_request s).active

Owns-store :
    (g : Gateway) (credential : Option String) (s : Session)
    → Owns g s
    → Owns g (store_credential g credential s)
unfolding store_credential
Owns-store g none s own = own
Owns-store g (some credential) s own =
    if_ind (λ (s' : Session). IsOwn g s'.hello_message_id × IsOwn g s'.activation_message_id)
      (g.is_stored && is_some s.reporter.db) own own

Owns-opened :
    (g : Gateway) (s : Session)
    → Owns g s
    → Owns g (replay g (subscribe g (record s { is_activated = true })))
unfolding replay subscribe
Owns-opened g s (own_hello, own_activation) =
    let calm = Calm-send g room_subscribe (record s { is_activated = true }) in
    (calm.own_hello own_hello, calm.own_activation own_activation)

Owns-accept :
    (g : Gateway) (c : Control) (s : Session) → Owns g s → Owns g (accept_activation g c s)
unfolding accept_activation
Owns-accept g c s own = if_ind (Owns g) (not (is_expected c s)) own (
    if_ind (Owns g) (not (same_id c.engine_id (some g.engine_id))) own (
      Owns-opened g (store_credential g c.device_credential s)
        (Owns-store g c.device_credential s own)))

-- The message accepts this engine in answer to one of its frames.
abbrev pub Accepts : Gateway → Control → Type 0
Accepts g c =
    (c.event ≡ activation_accepted) × (c.engine_id ≡ some g.engine_id) × IsOwn g c.message_id

active-accept :
    (g : Gateway) (c : Control) (s : Session)
    → Owns g s
    → c.event ≡ activation_accepted
    → (accept_activation g c s).is_activated ≡ true
    → (s.is_activated ≡ true) ⊎ Accepts g c
unfolding accept_activation
active-accept g c s own e h = elim (Bool-cases (is_expected c s)) [
  | inr other ↦ inl (rw other at h)
  | inl expected ↦ elim (Bool-cases (same_id c.engine_id (some g.engine_id))) [
    | inr other ↦ inl (rw (expected, other) at h)
    | inl same ↦
        inr (e, same_id_eq c.engine_id (some g.engine_id) same, expected-IsOwn g c s own expected)
  ]
]

Calm-snapshot : (g : Gateway) (s : Session) → Calm g s (snapshot g s)
unfolding snapshot
Calm-snapshot g s = if_ind (Calm g s) g.has_snapshots (Calm-send g _ s) (Calm-refl g s)

Calm-reply :
    (g : Gateway) (id : String) (outcome : Option (Option String)) (s : Session)
    → Calm g s (reply g id outcome s)
unfolding reply
Calm-reply g id none s = Calm-send g _ s
Calm-reply g id (some none) s = Calm-send g _ s
Calm-reply g id (some (some reason)) s = Calm-send g _ s

Calm-command :
    (g : Gateway) (which : Command) (id : Option String) (s : Session)
    → Calm g s (handle_command g which id s)
unfolding handle_command
Calm-command g which none s = Calm-refl g s
Calm-command g which (some id) s = Calm-reply g id (g.callback which) s

Calm-license : (g : Gateway) (status : String) (s : Session) → Calm g s (handle_license status s)
unfolding handle_license
Calm-license g status s =
    if_ind (Calm g s) (status == "suspended" || (status == "revoked" || status == "expired"))
      (record { active = λ h. h; own_hello = λ h. h; own_activation = λ h. h }) (Calm-refl g s)

-- What a step may have done: it only kept the flag, or it was an acceptance.
abbrev pub Kept : Gateway → Control → (before after : Session) → Type 0
Kept g c s s' = Owns g s' × (s'.is_activated ≡ true → (s.is_activated ≡ true) ⊎ Accepts g c)

Kept-Calm : (g : Gateway) (c : Control) (s s' : Session) → Owns g s → Calm g s s' → Kept g c s s'
Kept-Calm g c s s' own calm = (Owns-Calm g s s' calm own, λ h. inl (calm.active h))

pub Kept-event :
    (g : Gateway) (c : Control) (e : ControlEvent) (s : Session)
    → c.event ≡ e
    → Owns g s
    → Kept g c s (handle_event g c e s).0
unfolding handle_event
Kept-event g c protocol_accepted s e own =
    if_ind (λ (p : Session × Bool). Kept g c s p.0) (same_id c.message_id s.hello_message_id)
      (Owns-activate g s own, λ h. inl (active-activate g s h)) (own, λ h. inl h)
Kept-event g c activation_accepted s e own = (Owns-accept g c s own, active-accept g c s own e)
Kept-event g c protocol_rejected s e own =
    if_ind (Kept g c s) (is_expected c s) (own, λ h. cc) (own, λ h. inl h)
Kept-event g c metrics_subscribe s e own =
    let s' = record s { metrics_subscribed = true } in
    let calm = Calm-snapshot g s' in
    (Owns-Calm g s' (snapshot g s') calm own, λ h. inl (calm.active h))
Kept-event g c metrics_unsubscribe s e own = (own, λ h. inl h)
Kept-event g c license_updated s e own = Kept-Calm g c s _ own (Calm-license g c.status s)
Kept-event g c (command which) s e own = Kept-Calm g c s _ own (Calm-command g which c.command_id s)
Kept-event g c other_event s e own = (own, λ h. inl h)
