-- ===== src/Signals/Consumer/Admission/Source.antt =====
-- Where the signals on the bus come from.
use execution_engine_multi.Prelude.{
  ◌≡◌, ◌⊎◌, ◌∙◌, ap, subst, sym, refl, String, ◌==◌, eq_iff, true, not, ◌&&◌, Option, none, some,
  List, [], ◌∷◌, All, All-append, if_ind, Bool-cases, inl, inr,
}
use execution_engine_multi.Prelude.Python.{Python, FloatOrder}
use execution_engine_multi.Domain.Signal.{InboundSignal}
use execution_engine_multi.Domain.Wire.Read.{from_dict}
use execution_engine_multi.Signals.Validator.{ValidationError, validate}
use execution_engine_multi.Signals.Validator.WellFormed.{IsWellFormed, validate-IsWellFormed}
use execution_engine_multi.Signals.Consumer.Seen.{Key}
use execution_engine_multi.Signals.Consumer.Outbox.Kept.{All-weaken}
use execution_engine_multi.Signals.Consumer.Handshake.{Control}
use execution_engine_multi.Signals.Consumer.Admission.{
  BusEvent, signal_rejected, signal_received, signal_triggered, Consumer, Payload, Incoming,
  not_json, not_object, object, Arrival, is_valid_signal_dict, signature_holds, is_authentic,
  text_of, dedupe, note_received, is_trigger, verdict, read_signal, after_dedupe, process,
  control_stage, payload_stage, handle_raw, handle_all,
}

-- No secret is configured, or the signature is the code of the payload under it.
abbrev pub IsSigned : {F : Type 0} → Arrival → Payload F → Type 0
IsSigned a p =
    (a.secret ≡ none)
    ⊎ ((secret : String) × (a.secret ≡ some secret)
        × (text_of "signature" p ≡ some (a.hmac secret p.body)))

pub data Arrived {F : Type 0} (x : Arrival × Incoming F)
    : List (Arrival × Incoming F) → Type 0 where
  here : {ms : List (Arrival × Incoming F)} → Arrived x (x ∷ ms)
  there :
      {y : Arrival × Incoming F} {ms : List (Arrival × Incoming F)}
      → Arrived x ms
      → Arrived x (y ∷ ms)

Arrived-self : {F : Type 0} (ms : List (Arrival × Incoming F)) → All (λ x. Arrived x ms) ms
Arrived-self [] = tt
Arrived-self (x ∷ ms) = (
  here,
  All-weaken (λ y. Arrived y ms) (λ y. Arrived y (x ∷ ms)) (λ y h. there h) ms (Arrived-self ms),
)

module _ {F : Type 0} ⦃py : Python F⦄ (laws : FloatOrder py) where
  -- A message with this event and a signed payload that parses to the signal, which was well formed
  -- and fresh when it arrived.
  pub record IsFrom (ms : List (Arrival × Incoming F)) (event : String) (s : InboundSignal F)
      : Type 0 where
    pub arrival : Arrival
    pub fields : Option Control
    pub payload : Payload F
    pub arrived : Arrived (arrival, object event fields (some payload)) ms
    pub signed : IsSigned arrival payload
    pub parses : from_dict arrival.now payload.wire ≡ some s
    pub well_formed : IsWellFormed laws arrival.max_age_ms arrival.now s

  abbrev pub HasSource : List (Arrival × Incoming F) → BusEvent F → Type 0
  HasSource ms (signal_rejected s errors) = Unit
  HasSource ms (signal_received event s) = IsFrom ms event s
  HasSource ms (signal_triggered s) = IsFrom ms "signal.triggered" s

  signed_by :
      (a : Arrival) (p : Payload F) (secret signature : Option String)
      → a.secret ≡ secret
      → text_of "signature" p ≡ signature
      → signature_holds a p.body secret signature ≡ true
      → IsSigned a p
  signed_by a p none signature e e' h = inl e
  signed_by a p (some secret) none e e' h = cc
  signed_by a p (some secret) (some given) e e' h =
      inr (secret, e, e' ∙ ap some ((eq_iff given (a.hmac secret p.body)).0 h))

  signed_lem : (a : Arrival) (p : Payload F) → is_authentic a p ≡ true → IsSigned a p
  unfolding is_authentic
  signed_lem a p h = signed_by a p a.secret (text_of "signature" p) refl refl h

  module _ (ms : List (Arrival × Incoming F)) (a : Arrival) (event : String)
      (fields : Option Control) (p : Payload F)
      (arrival_in : Arrived (a, object event fields (some p)) ms) (sign : IsSigned a p) where
    verdict-HasSource :
        (s : InboundSignal F) (errors : List ValidationError)
        → from_dict a.now p.wire ≡ some s
        → validate a.max_age_ms a.now s ≡ errors
        → All (HasSource ms) (verdict event s errors)
    verdict-HasSource s (error ∷ errors) parses e = (tt, tt)
    verdict-HasSource s [] parses e =
        let source : IsFrom ms event s = record {
          arrival = a;
          fields = fields;
          payload = p;
          arrived = arrival_in;
          signed = sign;
          parses = parses;
          well_formed = (validate-IsWellFormed laws a.max_age_ms a.now s).0 e;
        } in
        (
          source,
          elim (Bool-cases (is_trigger event)) [
            | inl trigger ↦ rw trigger (
              subst (λ name. IsFrom ms name s) ((eq_iff event "signal.triggered").0 trigger) source,
              tt,
            )
            | inr other ↦ rw other tt
          ],
        )

    read_signal-HasSource :
        (decoded : Option (InboundSignal F)) (c : Consumer F)
        → from_dict a.now p.wire ≡ decoded
        → All (HasSource ms) c.bus
        → All (HasSource ms) (read_signal a event decoded c).bus
    unfolding read_signal note_received
    read_signal-HasSource none c parses h = h
    read_signal-HasSource (some s) c parses h =
        All-append (HasSource ms) (note_received a event s c).bus _
          (if_ind (λ (c' : Consumer F). All (HasSource ms) c'.bus) (is_trigger event) h h)
          (verdict-HasSource s (validate a.max_age_ms a.now s) parses refl)

    after_dedupe-HasSource :
        (o : Option (List Key)) (c : Consumer F)
        → All (HasSource ms) c.bus
        → All (HasSource ms) (after_dedupe a event p c o).bus
    after_dedupe-HasSource none c h = h
    after_dedupe-HasSource (some seen) c h =
        read_signal-HasSource (from_dict a.now p.wire) (record c { seen = seen }) refl h

  process-HasSource :
      (ms : List (Arrival × Incoming F)) (a : Arrival) (event : String) (fields : Option Control)
      (p : Payload F) (c : Consumer F)
      → Arrived (a, object event fields (some p)) ms
      → All (HasSource ms) c.bus
      → All (HasSource ms) (process a event p c).bus
  unfolding process
  process-HasSource ms a event fields p c arrival_in h = elim (Bool-cases (is_authentic a p)) [
    | inl authentic ↦ rw authentic (
        after_dedupe-HasSource ms a event fields p arrival_in (signed_lem a p authentic)
          (dedupe event p c.seen) c h)
    | inr forged ↦ rw forged h
  ]

  payload-HasSource :
      (ms : List (Arrival × Incoming F)) (a : Arrival) (event : String) (fields : Option Control)
      (payload : Option (Payload F)) (c : Consumer F)
      → Arrived (a, object event fields payload) ms
      → All (HasSource ms) c.bus
      → All (HasSource ms) (payload_stage a event payload c).bus
  payload-HasSource ms a event fields none c arrival_in h = h
  payload-HasSource ms a event fields (some p) c arrival_in h =
      if_ind (λ (c' : Consumer F). All (HasSource ms) c'.bus)
        (not (event == "") && is_valid_signal_dict p)
        (process-HasSource ms a event fields p c arrival_in h) h

  raw-HasSource :
      (ms : List (Arrival × Incoming F)) (a : Arrival) (m : Incoming F) (c : Consumer F)
      → Arrived (a, m) ms
      → All (HasSource ms) c.bus
      → All (HasSource ms) (handle_raw a m c).bus
  unfolding handle_raw
  raw-HasSource ms a not_json c arrival_in h = h
  raw-HasSource ms a not_object c arrival_in h = h
  raw-HasSource ms a (object event fields payload) c arrival_in h =
      let p = control_stage a.gateway event fields c.session in
      if_ind (λ (c' : Consumer F). All (HasSource ms) c'.bus) p.1 h
        (payload-HasSource ms a event fields payload (record c { session = p.0 }) arrival_in h)

  rest-HasSource :
      (ms rest : List (Arrival × Incoming F)) (c : Consumer F)
      → All (λ x. Arrived x ms) rest
      → All (HasSource ms) c.bus
      → All (HasSource ms) (handle_all rest c).bus
  unfolding handle_all
  rest-HasSource ms [] c among h = h
  rest-HasSource ms ((a, m) ∷ rest) c among h =
      rest-HasSource ms rest (handle_raw a m c) among.1 (raw-HasSource ms a m c among.0 h)

  -- Whatever arrives, a signal that was announced as received or as triggered came in a message with
  -- that event and a payload that was signed, where a secret is configured, and that parsed to this
  -- signal, and the signal was well formed and fresh at that time.
  pub handle_all-HasSource :
      (ms : List (Arrival × Incoming F)) (c : Consumer F)
      → c.bus ≡ []
      → All (HasSource ms) (handle_all ms c).bus
  handle_all-HasSource ms c empty =
      rest-HasSource ms ms c (Arrived-self ms) (subst (All (HasSource ms)) (sym empty) tt)
