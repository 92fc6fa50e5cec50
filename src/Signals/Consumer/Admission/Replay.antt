-- ===== src/Signals/Consumer/Admission/Replay.antt =====
-- A message that is sent again is dropped.
use execution_engine_multi.Prelude.{
  ◌≤◌, ◌<◌, ◌≡◌, refl, sym, ap, subst, ◌∙◌, String, ◌==◌, true, false, not, ◌&&◌, Option, none,
  some, List, [], ◌∷◌, ◌++◌, length, length-append, arith, if_ind, if_true,
}
use execution_engine_multi.Prelude.Python.{Python}
use execution_engine_multi.Domain.Signal.{InboundSignal}
use execution_engine_multi.Domain.Wire.Read.{from_dict}
use execution_engine_multi.Signals.Consumer.Seen.{Key, seen_ids_max, is_seen, enter, admit_key}
use execution_engine_multi.Signals.Consumer.Seen.Window.{
  after_key, after_keys, remembered, admit_key-new,
}
use execution_engine_multi.Signals.Consumer.Admission.{
  Consumer, Payload, Incoming, not_json, not_object, object, Arrival, is_valid_signal_dict,
  is_authentic, id_of, dedupe_by, dedupe, note_received, is_trigger, read_signal, after_dedupe,
  process, control_stage, payload_stage, handle_raw, handle_all,
}

-- The keys that a message offers to the table: at most one.
abbrev Offers : (seen seen' : List Key) → Type 0
Offers seen seen' = (ks : List Key) × (length ks ≤ 1) × (seen' ≡ after_keys seen_ids_max seen ks)

after_keys-append :
    (ks js seen : List Key)
    → after_keys seen_ids_max seen (ks ++ js)
      ≡ after_keys seen_ids_max (after_keys seen_ids_max seen ks) js
after_keys-append [] js seen = refl
after_keys-append (k ∷ ks) js seen = after_keys-append ks js (after_key seen_ids_max seen k)

module _ {F : Type 0} ⦃py : Python F⦄ where
  read_signal-seen :
      (a : Arrival) (event : String) (decoded : Option (InboundSignal F)) (c : Consumer F)
      → (read_signal a event decoded c).seen ≡ c.seen
  unfolding read_signal note_received
  read_signal-seen a event none c = refl
  read_signal-seen a event (some s) c =
      if_ind (λ (c' : Consumer F). c'.seen ≡ c.seen) (is_trigger event) refl refl

  Offers-dedupe :
      (a : Arrival) (event : String) (p : Payload F) (c : Consumer F) (id : Option String)
      → Offers c.seen (after_dedupe a event p c (dedupe_by event c.seen id)).seen
  Offers-dedupe a event p c none =
      ([], omega arith, read_signal-seen a event (from_dict a.now p.wire) c)
  Offers-dedupe a event p c (some id) =
      ((event, id) ∷ [], omega arith, by_answer (admit_key seen_ids_max (event, id) c.seen))
    where
      by_answer :
          (o : Option (List Key))
          → (after_dedupe a event p c o).seen
            ≡ (elim o as (λ _. List Key) [ none ↦ c.seen | some seen' ↦ seen' ])
      by_answer none = refl
      by_answer (some seen') =
          read_signal-seen a event (from_dict a.now p.wire) (record c { seen = seen' })

  Offers-process :
      (a : Arrival) (event : String) (p : Payload F) (c : Consumer F)
      → Offers c.seen (process a event p c).seen
  unfolding process dedupe
  Offers-process a event p c =
      if_ind (λ (c' : Consumer F). Offers c.seen c'.seen) (is_authentic a p)
        (Offers-dedupe a event p c (id_of p)) ([], omega arith, refl)

  Offers-payload :
      (a : Arrival) (event : String) (payload : Option (Payload F)) (c : Consumer F)
      → Offers c.seen (payload_stage a event payload c).seen
  Offers-payload a event none c = ([], omega arith, refl)
  Offers-payload a event (some p) c =
      if_ind (λ (c' : Consumer F). Offers c.seen c'.seen)
        (not (event == "") && is_valid_signal_dict p) (Offers-process a event p c)
        ([], omega arith, refl)

  Offers-raw :
      (a : Arrival) (m : Incoming F) (c : Consumer F) → Offers c.seen (handle_raw a m c).seen
  unfolding handle_raw
  Offers-raw a not_json c = ([], omega arith, refl)
  Offers-raw a not_object c = ([], omega arith, refl)
  Offers-raw a (object event fields payload) c =
      let p = control_stage a.gateway event fields c.session in
      if_ind (λ (c' : Consumer F). Offers c.seen c'.seen) p.1 ([], omega arith, refl)
        (Offers-payload a event payload (record c { session = p.0 }))

  -- The keys that a run of messages offers.
  Offers-all :
      (ms : List (Arrival × Incoming F)) (c : Consumer F)
      → (ks : List Key) × (length ks ≤ length ms)
        × ((handle_all ms c).seen ≡ after_keys seen_ids_max c.seen ks)
  unfolding handle_all
  Offers-all [] c = ([], omega arith, refl)
  Offers-all ((a, m) ∷ ms) c =
      let (ks, few, e) = Offers-raw a m c in
      let (js, fewer, e') = Offers-all ms (handle_raw a m c) in
      (
        ks ++ js,
        omega (arith, length-append {0} ks js, few, fewer),
        e' ∙ ap (λ seen. after_keys seen_ids_max seen js) e ∙ sym (after_keys-append ks js c.seen),
      )

  process-known :
      (a : Arrival) (event id : String) (p : Payload F) (c : Consumer F)
      → id_of p ≡ some id
      → admit_key seen_ids_max (event, id) c.seen ≡ none
      → process a event p c ≡ c
  unfolding process dedupe
  process-known a event id p c e known =
      if_ind (λ (c' : Consumer F). c' ≡ c) (is_authentic a p)
        (ap (λ o. after_dedupe a event p c (dedupe_by event c.seen o)) e
          ∙ ap (after_dedupe a event p c) known)
        refl

  process-seen :
      (a : Arrival) (event id : String) (p : Payload F) (c : Consumer F) (seen' : List Key)
      → id_of p ≡ some id
      → is_authentic a p ≡ true
      → admit_key seen_ids_max (event, id) c.seen ≡ some seen'
      → (process a event p c).seen ≡ seen'
  unfolding process dedupe
  process-seen a event id p c seen' e authentic passed =
      if_true (λ (c' : Consumer F). c'.seen ≡ seen') (is_authentic a p) c authentic
        (ap (λ o. (after_dedupe a event p c (dedupe_by event c.seen o)).seen) e
          ∙ ap (λ o. (after_dedupe a event p c o).seen) passed
          ∙ read_signal-seen a event (from_dict a.now p.wire) (record c { seen = seen' }))

  -- An authentic payload with an id that was not seen under its event is taken, whether it parses and
  -- is valid or not; a payload with this event and id that comes after fewer than 10,000 messages
  -- changes nothing.
  pub process-replayed :
      (a : Arrival) (event id : String) (p : Payload F) (c : Consumer F)
      (ms : List (Arrival × Incoming F)) (a' : Arrival) (p' : Payload F)
      → id_of p ≡ some id
      → is_authentic a p ≡ true
      → is_seen (event, id) c.seen ≡ false
      → length ms < 10000
      → id_of p' ≡ some id
      → let later = handle_all ms (process a event p c) in process a' event p' later ≡ later
  process-replayed a event id p c ms a' p' e authentic new few e' =
      let entered = admit_key-new seen_ids_max (event, id) c.seen new in
      let seen' = enter seen_ids_max (event, id) c.seen in
      let (ks, no_more, run) = Offers-all ms (process a event p c) in
      let kept =
        remembered seen_ids_max (event, id) c.seen ks entered (omega (arith, no_more, few)) in
      let all =
        run
        ∙ ap (λ seen. after_keys seen_ids_max seen ks)
            (process-seen a event id p c seen' e authentic entered) in
      process-known a' event id p' (handle_all ms (process a event p c)) e'
        (subst (λ seen. admit_key seen_ids_max (event, id) seen ≡ none) (sym all) kept)
