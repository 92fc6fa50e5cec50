-- ===== src/Manager/SignalRouter/Routing/Addressed.antt =====
-- Which agents `_on_signal` and `handle_gateway_signal` deliver a signal to.
use mathlib.Core.Option
use execution_engine_multi.Prelude.{
  ℕ, ◌≡◌, refl, ap, ◌∙◌, String, ◌==◌, Bool, true, false, ◌&&◌, Option, some, or_default, List, eqb,
  if◌then◌else◌, if_ind, Bool-cases, inl, inr,
}
use execution_engine_multi.Manager.SignalRouter.{
  Delivery, DeliveryStatus, pending, recorded, Outside, inserted, record_signal_outcome,
  get_signal_delivery,
}
use execution_engine_multi.Manager.SignalRouter.Table.{AreUnique}
use execution_engine_multi.Manager.SignalRouter.Keys.{get-record, mark}
use execution_engine_multi.Manager.SignalRouter.Keys.Unique.{AreUnique-record}
use execution_engine_multi.Manager.SignalRouter.Deadline.{pass}
use execution_engine_multi.Domain.Signal.{InboundSignal}
use execution_engine_multi.Manager.SignalRouter.Routing.{
  Registration, Text, RoutedSignal, fan_out, eligible, routed_signal, on_signal, GatewayPayload,
  routed_payload, handle_gateway_signal,
}
use execution_engine_multi.Manager.SignalRouter.Routing.FanOut.{
  rekey, is_addressed, none-eligible, delivered, get-fan_out, AreUnique-fan_out, get-process,
}
use execution_engine_multi.Manager.SignalRouter.Routing.Eligible.{AreChosen, fan_out-AreChosen}

module _ {F : Type 0} (t : Text F) where
  abbrev no_agent : DeliveryStatus
  no_agent = recorded "no_eligible_agent"

  -- The row under a key of the signal after the signal was routed, before the pass over the due rows.
  abbrev pub routed :
      RoutedSignal → ℕ → List Registration → (id agent : String) → Option Delivery → Option Delivery
  routed s now regs id agent old =
      if s.signal_id == id
      then (if is_addressed t s regs agent
          then some (or_default old (inserted id agent s.payload pending s.expires_at now))
          else (if eqb (eligible t s regs) 0 && ("__routing__" == agent)
              then some (
                  or_default (Option.map (mark no_agent now) old)
                    (inserted id agent s.payload no_agent now now))
              else old))
      else old

  route_step :
      (n k m d : Bool) (old : Option Delivery) (f : Delivery → Delivery) (new missing : Delivery)
      → (n ≡ true → d ≡ false)
      → (let got = if k && d then some (or_default old new) else old in
          if n then (if k && m then some (or_default (Option.map f got) missing) else got) else got)
        ≡ (if k
            then (if d
                then some (or_default old new)
                else (if n && m then some (or_default (Option.map f old) missing) else old))
            else old)
  route_step false true m d old f new missing h = refl
  route_step false false m d old f new missing h = refl
  route_step true true m false old f new missing h = refl
  route_step true true m true old f new missing h = let e = h refl in cc
  route_step true false m d old f new missing h = refl

  -- The table before the pass over the due rows.
  table : RoutedSignal → ℕ → List Registration → List Delivery → List Delivery
  table s now regs rows =
      let queued = fan_out t s now regs rows in
      if eqb (eligible t s regs) 0
      then record_signal_outcome s.signal_id "__routing__" s.payload no_agent now queued
      else queued

  get-table :
      (s : RoutedSignal) (now : ℕ) (regs : List Registration) (rows : List Delivery)
      (id agent : String)
      → get_signal_delivery id agent (table s now regs rows)
        ≡ routed s now regs id agent (get_signal_delivery id agent rows)
  unfolding table
  get-table s now regs rows id agent =
      by_count
      ∙ route_step (eqb (eligible t s regs) 0) k m (is_addressed t s regs agent) old
          (mark no_agent now) new missing (none-eligible t s regs agent)
    where
      k : Bool
      k = s.signal_id == id

      m : Bool
      m = "__routing__" == agent

      old : Option Delivery
      old = get_signal_delivery id agent rows

      new : Delivery
      new = inserted id agent s.payload pending s.expires_at now

      missing : Delivery
      missing = inserted id agent s.payload no_agent now now

      with_outcome : Option Delivery → Option Delivery
      with_outcome got =
          if k && m then some (or_default (Option.map (mark no_agent now) got) missing) else got

      got : Option Delivery
      got = if k && is_addressed t s regs agent then some (or_default old new) else old

      by_count :
          get_signal_delivery id agent (table s now regs rows)
          ≡ (if eqb (eligible t s regs) 0 then with_outcome got else got)
      by_count = elim (Bool-cases (eqb (eligible t s regs) 0)) [
        | inl no_one ↦ rw no_one (
            get-record id agent s.signal_id "__routing__" s.payload no_agent now
              (fan_out t s now regs rows)
            ∙ ap
                (λ found.
                  if k && m
                  then some (
                      or_default (Option.map (mark no_agent now) found)
                        (inserted s.signal_id "__routing__" s.payload no_agent now now))
                  else found)
                (get-fan_out t s now regs rows id agent)
            ∙ rekey id agent s.signal_id "__routing__"
                (λ x y. some (
                  or_default (Option.map (mark no_agent now) got)
                    (inserted x y s.payload no_agent now now)))
                got)
        | inr some_one ↦ rw some_one (get-fan_out t s now regs rows id agent)
      ]

  AreUnique-table :
      (s : RoutedSignal) (now : ℕ) (regs : List Registration) (rows : List Delivery)
      → AreUnique rows
      → AreUnique (table s now regs rows)
  unfolding table
  AreUnique-table s now regs rows u =
      let queued = AreUnique-fan_out t s now regs rows u in
      if_ind AreUnique (eqb (eligible t s regs) 0)
        (AreUnique-record s.signal_id "__routing__" s.payload no_agent now _ queued) queued

  -- A signal that arrives on a table with unique keys leaves the keys unique, and under each key this
  -- row, after the pass over the due rows: under the key of the signal and an agent that it is for, the
  -- row that was there, or else a new pending one; if it is for no agent, a row with that outcome under
  -- "__routing__"; and every other row as it was. It is for the agents that run, have its symbol,
  -- and, if it names a broker, have a server whose label contains that name. Label and name are
  -- compared in lower case and by their letters and digits, and a name without any matches no label.
  pub on_signal-routed :
      (out : Outside) (signal : InboundSignal F) (regs : List Registration) (rows : List Delivery)
      → AreUnique rows
      → AreChosen t (routed_signal t out.now signal) regs
        × AreUnique (on_signal t out signal regs rows)
        × ((id agent : String)
            → get_signal_delivery id agent (on_signal t out signal regs rows)
              ≡ Option.map (pass out) (
                  routed
                    (routed_signal t out.now signal)
                    out.now
                    regs
                    id
                    agent
                    (get_signal_delivery id agent rows)))
  unfolding on_signal table
  on_signal-routed out signal regs rows u =
      let s = routed_signal t out.now signal in
      let (unique, found) =
        get-process out (table s out.now regs rows) (AreUnique-table s out.now regs rows u) in
      (
        fan_out-AreChosen t s regs,
        unique,
        λ id agent.
            found id agent ∙ ap (Option.map (pass out)) (get-table s out.now regs rows id agent),
      )

  -- A payload of the gateway without a symbol changes nothing. Otherwise, on a table with unique keys,
  -- the keys stay unique, and under each key there is this row, after the pass over the due rows: under
  -- the key of the signal and an agent that it is for (one that runs, has its symbol, and has a server
  -- whose label contains the name of its broker, if it names one), the row that was there, or else a
  -- new pending one; and every other row as it was.
  pub handle_gateway_signal-delivered :
      (out : Outside) (p : GatewayPayload) (regs : List Registration) (rows : List Delivery)
      → AreUnique rows
      → AreChosen t (routed_payload t out.now p) regs
        × AreUnique (handle_gateway_signal t out p regs rows)
        × ((id agent : String)
            → get_signal_delivery id agent (handle_gateway_signal t out p regs rows) ≡ (
                let s = routed_payload t out.now p in
                let old = get_signal_delivery id agent rows in
                if s.symbol == ""
                then old
                else Option.map (pass out) (delivered t s out.now regs id agent old)))
  unfolding handle_gateway_signal
  handle_gateway_signal-delivered out p regs rows u =
      let s = routed_payload t out.now p in
      let (unique, found) =
        get-process out (fan_out t s out.now regs rows)
          (AreUnique-fan_out t s out.now regs rows u) in
      elim (Bool-cases (s.symbol == "")) [
        | inl no_symbol ↦ rw no_symbol (fan_out-AreChosen t s regs, u, λ id agent. refl)
        | inr symbol ↦ rw symbol (
          fan_out-AreChosen t s regs,
          unique,
          λ id agent.
              found id agent
              ∙ ap (Option.map (pass out)) (get-fan_out t s out.now regs rows id agent),
        )
      ]
