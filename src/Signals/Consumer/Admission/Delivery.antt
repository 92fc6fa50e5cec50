-- ===== src/Signals/Consumer/Admission/Delivery.antt =====
-- A good signal reaches the bus.
use execution_engine_multi.Prelude.{
  inl, inr, eq_iff, ◌≡◌, ◌∙◌, ap, refl, String, ◌==◌, true, false, Option, none, some, [], ◌∷◌,
  ◌++◌, if_true, Bool, if◌then◌else◌,
}
use execution_engine_multi.Prelude.Python.{Python, FloatOrder}
use execution_engine_multi.Domain.Signal.{InboundSignal}
use execution_engine_multi.Domain.Wire.Write.{to_dict}
use execution_engine_multi.Domain.Wire.Signed.{signed, from_dict-signed}
use execution_engine_multi.Signals.Consumer.Admission.Source.{IsSigned}
use execution_engine_multi.Domain.Wire.Roundtrip.{IsParsed, from_dict-to_dict}
use execution_engine_multi.Signals.Validator.WellFormed.{IsWellFormed, validate-IsWellFormed}
use execution_engine_multi.Signals.Consumer.Seen.{is_seen, enter, seen_ids_max}
use execution_engine_multi.Signals.Consumer.Seen.Window.{admit_key-new}
use execution_engine_multi.Signals.Consumer.Handshake.{Control, Session, handle_control}
use execution_engine_multi.Signals.Consumer.Admission.{
  signature_holds, text_of, signal_received, signal_triggered, Consumer, Payload, object, Arrival,
  is_valid_signal_dict, is_authentic, id_of, dedupe, dedupe_by, note_received, verdict, read_signal,
  after_dedupe, process, control_stage, payload_stage, handle_raw,
}

-- The event of a trigger.
abbrev pub trigger : String
trigger = "signal.triggered"

-- No control message has the event of a trigger.
control_stage-trigger :
    (a : Arrival) (fields : Option Control) (session : Session)
    → control_stage a.gateway trigger fields session ≡ (session, false)
unfolding control_stage handle_control
control_stage-trigger a none session = refl
control_stage-trigger a (some control) session = refl

module _ {F : Type 0} where
  -- The payload that `to_dict` makes of a signal, with a signature or without one.
  abbrev pub sent_as : Option String → String → InboundSignal F → Payload F
  sent_as signature body s = record { wire = signed signature (to_dict s); body = body }

  is_valid_signal_dict-to_dict :
      (signature : Option String) (body : String) (s : InboundSignal F)
      → is_valid_signal_dict (sent_as signature body s) ≡ true
  unfolding is_valid_signal_dict to_dict
  is_valid_signal_dict-to_dict none body s = refl
  is_valid_signal_dict-to_dict (some signature) body s = refl

  id_of-to_dict :
      (signature : Option String) (body : String) (s : InboundSignal F)
      → (s.id == "") ≡ false
      → id_of (sent_as signature body s) ≡ some s.id
  unfolding to_dict
  id_of-to_dict none body s named = rw (named, id_of) refl
  id_of-to_dict (some signature) body s named = rw (named, id_of) refl

  is_authentic-signed : (a : Arrival) (p : Payload F) → IsSigned a p → is_authentic a p ≡ true
  unfolding is_authentic
  is_authentic-signed a p (inl open_to_all) = rw open_to_all refl
  is_authentic-signed a p (inr (secret, e, e')) =
      ap (λ o. signature_holds a p.body o (text_of "signature" p)) e
      ∙ ap (signature_holds a p.body (some secret)) e'
      ∙ (eq_iff (a.hmac secret p.body) (a.hmac secret p.body)).1 refl

module _ {F : Type 0} ⦃py : Python F⦄ (laws : FloatOrder py) where
  read_signal-announced :
      (a : Arrival) (s : InboundSignal F) (c : Consumer F)
      → IsWellFormed laws a.max_age_ms a.now s
      → (read_signal a trigger (some s) c).bus
        ≡ c.bus ++ signal_received trigger s ∷ signal_triggered s ∷ []
  unfolding read_signal note_received
  read_signal-announced a s c well_formed =
      ap (λ errors. c.bus ++ verdict trigger s errors)
        ((validate-IsWellFormed laws a.max_age_ms a.now s).1 well_formed)

  -- The payload of a good signal that is new to the consumer.
  module _ (a : Arrival) (signature : Option String) (body : String) (s : InboundSignal F)
      (c : Consumer F) (sign : IsSigned a (sent_as signature body s)) (named : (s.id == "") ≡ false)
      (new : is_seen (trigger, s.id) c.seen ≡ false) (parsed : IsParsed s)
      (well_formed : IsWellFormed laws a.max_age_ms a.now s) where
    abbrev Announces : Consumer F → Type 0
    Announces c' = c'.bus ≡ c.bus ++ signal_received trigger s ∷ signal_triggered s ∷ []

    process-announced : Announces (process a trigger (sent_as signature body s) c)
    unfolding process dedupe
    process-announced =
        let p = sent_as signature body s in
        let seen = enter seen_ids_max (trigger, s.id) c.seen in
        if_true Announces (is_authentic a p) c (is_authentic-signed a p sign) (
          ap (λ o. (after_dedupe a trigger p c (dedupe_by trigger c.seen o)).bus)
            (id_of-to_dict signature body s named)
          ∙ ap (λ o. (after_dedupe a trigger p c o).bus)
              (admit_key-new seen_ids_max (trigger, s.id) c.seen new)
          ∙ ap (λ o. (read_signal a trigger o (record c { seen = seen })).bus)
              (from_dict-signed a.now signature (to_dict s) ∙ from_dict-to_dict a.now s parsed)
          ∙ read_signal-announced a s (record c { seen = seen }) well_formed)

    payload_stage-announced :
        Announces (payload_stage a trigger (some (sent_as signature body s)) c)
    payload_stage-announced =
        if_true Announces (is_valid_signal_dict (sent_as signature body s)) c
          (is_valid_signal_dict-to_dict signature body s) process-announced

  -- A message with the event of a trigger and the dictionary that `to_dict` makes of a parsed signal,
  -- signed where a secret is configured, announces this signal as received and then as triggered,
  -- whatever data comes with it, if the signal is well formed and fresh and its id is not empty and
  -- was not seen under this event.
  pub handle_raw-announced :
      (a : Arrival) (fields : Option Control) (signature : Option String) (body : String)
      (s : InboundSignal F) (c : Consumer F)
      → IsSigned a (sent_as signature body s)
      → (s.id == "") ≡ false
      → is_seen (trigger, s.id) c.seen ≡ false
      → IsParsed s
      → IsWellFormed laws a.max_age_ms a.now s
      → (handle_raw a (object trigger fields (some (sent_as signature body s))) c).bus
        ≡ c.bus ++ signal_received trigger s ∷ signal_triggered s ∷ []
  unfolding handle_raw control_stage
  handle_raw-announced a fields signature body s c sign named new parsed well_formed =
      let p = sent_as signature body s in
      ap
        (λ (r : Session × Bool).
          (if r.1
            then record c { session = r.0 }
            else payload_stage a trigger (some p) (record c { session = r.0 })).bus)
        (control_stage-trigger a fields c.session)
      ∙ payload_stage-announced a signature body s c sign named new parsed well_formed
