-- ===== src/Signals/Consumer/Handshake/Activation.antt =====
-- When the consumer is activated.
use execution_engine_multi.Prelude.{
  ℕ, ◌+◌, ◌≡◌, ◌⊎◌, inl, inr, refl, sym, ap, subst, true, false, not, ◌&&◌, none, List, [], ◌∷◌,
  ◌++◌, All, if_ind,
}
use execution_engine_multi.Signals.Consumer.Handshake.{
  Control, heartbeat, Session, Gateway, send, on_disconnected, subscribe, handle_control,
  refresh_rooms, send_heartbeat, send_metrics, Event, connected, disconnected, control, refreshed,
  beat, measured, step, run_session,
}
use execution_engine_multi.Signals.Consumer.Handshake.Owned.{
  IsOwn, Calm, Calm-refl, Calm-send, Owns, Owns-Calm, Calm-connected, connected-inactive, Accepts,
  Kept-event,
}

-- Neither a new connection nor the end of one.
abbrev pub IsQuiet : Event → Type 0
IsQuiet connected = ⊥
IsQuiet disconnected = ⊥
IsQuiet (control c) = Unit
IsQuiet refreshed = Unit
IsQuiet beat = Unit
IsQuiet measured = Unit

-- Among the events is the acceptance of this engine, and the connection lasted since.
pub record WasAccepted (g : Gateway) (es : List Event) : Type 0 where
  pub before : List Event
  pub message : Control
  pub after : List Event
  pub split : es ≡ before ++ control message ∷ after
  pub accepts : Accepts g message
  pub lasts : All IsQuiet after

WasAccepted-later :
    {g : Gateway} {es : List Event} (e : Event) → WasAccepted g es → WasAccepted g (e ∷ es)
WasAccepted-later e w = record {
  before = e ∷ w.before;
  message = w.message;
  after = w.after;
  split = ap (λ (es : List Event). e ∷ es) w.split;
  accepts = w.accepts;
  lasts = w.lasts;
}

-- A step that leaves the flag set, with the events that follow.
abbrev Steps : (g : Gateway) (e : Event) (s : Session) → Type 0
Steps g e s =
    Owns g (step g e s)
    × ((es : List Event)
        → All IsQuiet es
        → (step g e s).is_activated ≡ true
        → ((s.is_activated ≡ true) × All IsQuiet (e ∷ es)) ⊎ WasAccepted g (e ∷ es))

Steps-Calm :
    (g : Gateway) (e : Event) (s : Session)
    → IsQuiet e
    → Owns g s
    → Calm g s (step g e s)
    → Steps g e s
Steps-Calm g e s quiet own calm =
    (Owns-Calm g s (step g e s) calm own, λ es all h. inl (calm.active h, (quiet, all)))

Calm-beat :
    (g : Gateway) (n : ℕ) (s : Session)
    → Calm g s (send g (heartbeat n) (record s { heartbeat_sequence = n })).0
Calm-beat g n s =
    let calm = Calm-send g (heartbeat n) (record s { heartbeat_sequence = n }) in
    record {
      active = calm.active;
      own_hello = calm.own_hello;
      own_activation = calm.own_activation;
    }

Steps-lem : (g : Gateway) (e : Event) (s : Session) → Owns g s → Steps g e s
unfolding step handle_control on_disconnected refresh_rooms subscribe send_heartbeat send_metrics
Steps-lem g connected s own = (Calm-connected g s own, λ es all h. cc (connected-inactive g s h))
Steps-lem g disconnected s own = (own, λ es all h. cc)
Steps-lem g (control c) s own =
    let (owns, flag) = Kept-event g c c.event s refl own in
    (
      owns,
      λ es all h. elim (flag h) [
        | inl old ↦ inl (old, (tt, all))
        | inr accepted ↦ inr (record {
          before = [];
          message = c;
          after = es;
          split = refl;
          accepts = accepted;
          lasts = all;
        })
      ],
    )
Steps-lem g refreshed s own =
    Steps-Calm g refreshed s tt own
      (if_ind (Calm g s) (not s.is_stopped && s.is_activated) (Calm-send g _ s) (Calm-refl g s))
Steps-lem g beat s own = Steps-Calm g beat s tt own (
    if_ind (Calm g s) (not s.is_stopped && s.is_activated)
      (Calm-beat g (s.heartbeat_sequence + 1) s) (Calm-refl g s))
Steps-lem g measured s own = Steps-Calm g measured s tt own (
    if_ind (Calm g s)
      (not s.is_stopped && s.is_activated && (s.metrics_subscribed && g.has_snapshots))
      (Calm-send g _ s) (Calm-refl g s))

activation_lem :
    (g : Gateway) (es : List Event) (s : Session)
    → Owns g s
    → (run_session g es s).is_activated ≡ true
    → ((s.is_activated ≡ true) × All IsQuiet es) ⊎ WasAccepted g es
unfolding run_session
activation_lem g [] s own h = inl (h, tt)
activation_lem g (e ∷ es) s own h =
    let (owns, flag) = Steps-lem g e s own in
    elim (activation_lem g es (step g e s) owns h) [
      | inl (active, all) ↦ flag es all active
      | inr earlier ↦ inr (WasAccepted-later e earlier)
    ]

-- A consumer that started without a connection is activated only if a message of the gateway accepted
-- this engine, under a message id of one of its frames or under none, and the connection has neither
-- ended nor been made anew since then.
pub run_session-WasAccepted :
    (g : Gateway) (es : List Event) (s : Session)
    → s.is_activated ≡ false
    → s.hello_message_id ≡ none
    → s.activation_message_id ≡ none
    → (run_session g es s).is_activated ≡ true
    → WasAccepted g es
run_session-WasAccepted g es s off no_hello no_activation h =
    let own : Owns g s =
      (subst (IsOwn g) (sym no_hello) tt, subst (IsOwn g) (sym no_activation) tt) in
    elim (activation_lem g es s own h) [ inl (active, all) ↦ cc | inr accepted ↦ accepted ]
