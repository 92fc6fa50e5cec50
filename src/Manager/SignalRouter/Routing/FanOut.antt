-- ===== src/Manager/SignalRouter/Routing/FanOut.antt =====
-- What the loop over the agents, and the pass after it, do to the row under a key.
use mathlib.Core.Option
use execution_engine_multi.Prelude.{
  ℕ, ◌≡◌, refl, sym, ap, ◌∙◌, String, ◌==◌, Bool, true, false, ◌&&◌, ◌||◌, Option, some, or_default,
  subst, List, [], ◌∷◌, arith, eqb, if◌then◌else◌, if_ind, Bool-cases, inl, inr,
}
use execution_engine_multi.Manager.SignalRouter.{
  Delivery, pending, Outside, is_due, apply_change, inserted, queue_signal_delivery,
  get_signal_delivery, process_due_deliveries,
}
use execution_engine_multi.Manager.SignalRouter.Table.{AreUnique, process_due_deliveries_lem}
use execution_engine_multi.Manager.SignalRouter.Keys.{is_key, is_key-same, get-queue, get-map}
use execution_engine_multi.Manager.SignalRouter.Keys.Unique.{
  KeepsKey, AreUnique-map, AreUnique-queue,
}
use execution_engine_multi.Manager.SignalRouter.Deadline.{pass}
use execution_engine_multi.Manager.SignalRouter.Routing.{
  Registration, Text, RoutedSignal, is_eligible, fan_out, eligible,
}

-- A value that is used under an equal key only.
pub rekey :
    (s a s' a' : String) (g : String → String → Option Delivery) (o : Option Delivery)
    → (if is_key s a s' a' then g s' a' else o) ≡ (if is_key s a s' a' then g s a else o)
rekey s a s' a' g o = elim (Bool-cases (is_key s a s' a')) [
  | inl same ↦
      let (same_s, same_a) = is_key-same s a s' a' same in
      rw same (ap (λ x. g x a') same_s ∙ ap (g s) same_a)
  | inr apart ↦ rw apart refl
]

module _ {F : Type 0} (t : Text F) where
  -- One of the agents has this id and may have the signal.
  unfoldable pub is_addressed : RoutedSignal → List Registration → String → Bool
  is_addressed s [] agent = false
  is_addressed s (reg ∷ regs) agent =
      (is_eligible t s reg && (reg.agent_id == agent)) || is_addressed s regs agent

  pub none-eligible :
      (s : RoutedSignal) (regs : List Registration) (agent : String)
      → eqb (eligible t s regs) 0 ≡ true
      → is_addressed s regs agent ≡ false
  unfolding is_addressed
  none-eligible s [] agent e = refl
  none-eligible s (reg ∷ regs) agent e = elim (Bool-cases (is_eligible t s reg)) [
    | inl hit ↦ ground (arith, e, hit)
    | inr miss ↦ rw miss (none-eligible s regs agent (ground (arith, e, miss)))
  ]

  fan_step :
      (e k m d : Bool) (old : Option Delivery) (new : Delivery)
      → (let mid = if e then (if k && m then some (or_default old new) else old) else old in
          if k && d then some (or_default mid new) else mid)
        ≡ (if k && ((e && m) || d) then some (or_default old new) else old)
  fan_step false k m d old new = refl
  fan_step true false m d old new = refl
  fan_step true true true d old new = if_ind (λ o. o ≡ some (or_default old new)) d refl refl
  fan_step true true false d old new = refl

  fan_end : (k : Bool) (x y : Option Delivery) → y ≡ (if k && false then x else y)
  fan_end true x y = refl
  fan_end false x y = refl

  -- The row under a key after the loop: a row that is there stays as it is.
  abbrev pub delivered :
      RoutedSignal → ℕ → List Registration → (id agent : String) → Option Delivery → Option Delivery
  delivered s now regs id agent old =
      if (s.signal_id == id) && is_addressed s regs agent
      then some (or_default old (inserted id agent s.payload pending s.expires_at now))
      else old

  pub get-fan_out :
      (s : RoutedSignal) (now : ℕ) (regs : List Registration) (rows : List Delivery)
      (id agent : String)
      → get_signal_delivery id agent (fan_out t s now regs rows)
        ≡ delivered s now regs id agent (get_signal_delivery id agent rows)
  unfolding fan_out is_addressed
  get-fan_out s now [] rows id agent =
      fan_end (s.signal_id == id) _ (get_signal_delivery id agent rows)
  get-fan_out s now (reg ∷ regs) rows id agent =
      get-fan_out s now regs _ id agent
      ∙ ap (λ mid. if k && is_addressed s regs agent then some (or_default mid new) else mid) first
      ∙ fan_step (is_eligible t s reg) k m (is_addressed s regs agent) old new
    where
      k : Bool
      k = s.signal_id == id

      m : Bool
      m = reg.agent_id == agent

      old : Option Delivery
      old = get_signal_delivery id agent rows

      new : Delivery
      new = inserted id agent s.payload pending s.expires_at now

      first :
          get_signal_delivery id agent (
            if is_eligible t s reg
            then queue_signal_delivery s.signal_id reg.agent_id s.payload s.expires_at now rows
            else rows)
          ≡ (if is_eligible t s reg
              then (if k && m then some (or_default old new) else old)
              else old)
      first = elim (Bool-cases (is_eligible t s reg)) [
        | inl hit ↦ rw hit (
            get-queue id agent s.signal_id reg.agent_id s.payload s.expires_at now rows
            ∙ rekey id agent s.signal_id reg.agent_id
                (λ x y. some (or_default old (inserted x y s.payload pending s.expires_at now)))
                old)
        | inr miss ↦ rw miss refl
      ]

  pub AreUnique-fan_out :
      (s : RoutedSignal) (now : ℕ) (regs : List Registration) (rows : List Delivery)
      → AreUnique rows
      → AreUnique (fan_out t s now regs rows)
  unfolding fan_out
  AreUnique-fan_out s now [] rows u = u
  AreUnique-fan_out s now (reg ∷ regs) rows u = AreUnique-fan_out s now regs _ (
      if_ind AreUnique (is_eligible t s reg)
        (AreUnique-queue s.signal_id reg.agent_id s.payload s.expires_at now rows u) u)

-- A pass acts on the row under a key.
KeepsKey-pass : (out : Outside) → KeepsKey (pass out)
unfolding pass apply_change
KeepsKey-pass out r =
    if_ind (λ (x : Delivery). (x.signal_id ≡ r.signal_id) × (x.agent_id ≡ r.agent_id))
      (is_due out.now r) (refl, refl) (refl, refl)

pub get-process :
    (out : Outside) (rows : List Delivery)
    → AreUnique rows
    → AreUnique (process_due_deliveries out rows)
      × ((id agent : String)
          → get_signal_delivery id agent (process_due_deliveries out rows)
            ≡ Option.map (pass out) (get_signal_delivery id agent rows))
get-process out rows u =
    let same = process_due_deliveries_lem out rows u in
    let keeps = KeepsKey-pass out in
    (
      subst AreUnique (sym same) (AreUnique-map (pass out) rows keeps u),
      λ id agent.
          ap (get_signal_delivery id agent) same
          ∙ get-map id agent (pass out) rows (λ r. rw ((keeps r).0) (rw ((keeps r).1) refl)),
    )
