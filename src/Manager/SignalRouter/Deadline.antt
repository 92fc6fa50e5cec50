-- ===== src/Manager/SignalRouter/Deadline.antt =====
-- A delivery ends soon after its expiry.
use execution_engine_multi.Prelude.{
  ℕ, ◌+◌, ◌≤◌, ◌≡◌, refl, ap, ◌∙◌, true, false, ◌&&◌, Option, none, some, List, [], ◌∷◌, arith, leb,
  if◌then◌else◌, Bool-cases, inl, inr, if_ind, if_true, if_false,
}
use execution_engine_multi.Manager.SignalRouter.{
  Delivery, Outside, CommandOutcome, completed, other, refused, Change, apply_change, is_waiting,
  is_due, backoff_ms, resend, after_outcome, change_of,
}

-- What one pass does to one row.
unfoldable pub pass : Outside → Delivery → Delivery
pass out r = if is_due out.now r then apply_change out.now (change_of out r) r else r

pub passes : List Outside → Delivery → Delivery
passes [] r = r
passes (out ∷ outs) r = passes outs (pass out r)

backoff_ms-bounded : (attempts : ℕ) → backoff_ms attempts ≤ 30000
unfolding backoff_ms
backoff_ms-bounded attempts = ground arith

-- The next attempt comes at most half a minute after the expiry.
abbrev IsTimely : Delivery → Type 0
IsTimely r = r.next_attempt_at ≤ r.expires_at + 30000

IsTimely-resend :
    (out : Outside) (r : Delivery)
    → leb r.expires_at out.now ≡ false
    → IsTimely (apply_change out.now (resend out r) r)
unfolding apply_change resend
IsTimely-resend out r early = ground (arith, early, backoff_ms-bounded (r.attempts + 1))

IsTimely-after_outcome :
    (out : Outside) (r : Delivery) (o : Option CommandOutcome)
    → leb r.expires_at out.now ≡ false
    → IsTimely r
    → IsTimely (apply_change out.now (after_outcome out r o) r)
unfolding after_outcome apply_change
IsTimely-after_outcome out r none early h = IsTimely-resend out r early
IsTimely-after_outcome out r (some other) early h = IsTimely-resend out r early
IsTimely-after_outcome out r (some completed) early h = h
IsTimely-after_outcome out r (some (refused e)) early h = h

IsTimely-pass : (out : Outside) (r : Delivery) → IsTimely r → IsTimely (pass out r)
unfolding pass change_of apply_change
IsTimely-pass out r h = if_ind IsTimely (is_due out.now r) change h
  where
    change : IsTimely (apply_change out.now (change_of out r) r)
    change = elim (Bool-cases (leb r.expires_at out.now)) [
      | inl late ↦ rw (late, change_of) h
      | inr early ↦ rw (early, change_of) (IsTimely-after_outcome out r _ early h)
    ]

passes-IsTimely : (outs : List Outside) (r : Delivery) → IsTimely r → IsTimely (passes outs r)
unfolding passes
passes-IsTimely [] r h = h
passes-IsTimely (out ∷ outs) r h = passes-IsTimely outs (pass out r) (IsTimely-pass out r h)

pass-expires_at : (out : Outside) (r : Delivery) → (pass out r).expires_at ≡ r.expires_at
unfolding pass apply_change
pass-expires_at out r =
    if_ind (λ (x : Delivery). x.expires_at ≡ r.expires_at) (is_due out.now r) refl refl

passes-expires_at : (outs : List Outside) (r : Delivery) → (passes outs r).expires_at ≡ r.expires_at
unfolding passes
passes-expires_at [] r = refl
passes-expires_at (out ∷ outs) r = passes-expires_at outs (pass out r) ∙ pass-expires_at out r

-- A delivery that is not waiting is left alone.
not_waiting-stays :
    (outs : List Outside) (r : Delivery) → is_waiting r.status ≡ false → passes outs r ≡ r
unfolding passes pass is_due
not_waiting-stays [] r over = refl
not_waiting-stays (out ∷ outs) r over =
    ap (passes outs) (if_false (λ (x : Delivery). x ≡ r) (is_due out.now r) _ (not_due out) refl)
    ∙ not_waiting-stays outs r over
  where
    not_due : (out : Outside) → is_due out.now r ≡ false
    not_due out = ap (λ w. w && leb r.next_attempt_at out.now) over

IsOver : Delivery → Type 0
IsOver r = is_waiting r.status ≡ false

pass-ends :
    (out : Outside) (r : Delivery)
    → IsTimely r
    → r.expires_at + 30000 ≤ out.now
    → IsOver (pass out r)
unfolding pass change_of apply_change is_due IsOver
pass-ends out r h late = elim (Bool-cases (is_waiting r.status)) [
  | inl waiting ↦
      if_true IsOver (is_waiting r.status && leb r.next_attempt_at out.now) r
        (ap (λ w. w && leb r.next_attempt_at out.now) waiting ∙ ground (arith, h, late)) expires
  | inr over ↦ if_ind IsOver (is_waiting r.status && leb r.next_attempt_at out.now) expires over
]
  where
    is_late : leb r.expires_at out.now ≡ true
    is_late = ground (arith, late)

    expires : IsOver (apply_change out.now (change_of out r) r)
    expires =
        if_true (λ (c : Change). is_waiting c.status ≡ false) (leb r.expires_at out.now) _ is_late
          refl

-- Whatever the passes find before, a pass at half a minute after the expiry or later leaves the
-- delivery neither pending nor sent, and no later pass changes it. Its next attempt is due at
-- most half a minute after its expiry.
pub passes-ends :
    (outs : List Outside) (last : Outside) (more : List Outside) (r : Delivery)
    → r.next_attempt_at ≤ r.expires_at + 30000
    → r.expires_at + 30000 ≤ last.now
    → let end = pass last (passes outs r) in
      (is_waiting end.status ≡ false) × (passes more end ≡ end)
unfolding IsOver
passes-ends outs last more r timely late =
    let over =
      pass-ends last (passes outs r) (passes-IsTimely outs r timely)
        (omega (arith, late, passes-expires_at outs r)) in
    (over, not_waiting-stays more (pass last (passes outs r)) over)
