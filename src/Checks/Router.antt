-- ===== src/Checks/Router.antt =====
-- The theorems of the signal router on one delivery to an agent that never answers, on a table, and on
-- a signal for three agents.
use execution_engine_multi.Prelude.{
  ℕ, ◌≡◌, refl, String, false, none, some, List, [], ◌∷◌, map, arith,
}
use mathlib.Core.Option
use execution_engine_multi.Prelude.{◌==◌, true, if◌then◌else◌}
use execution_engine_multi.Prelude.Int.{ℤ}
use execution_engine_multi.Domain.Signal.{InboundSignal, long}
use execution_engine_multi.Checks.Samples.{signal}
use execution_engine_multi.Manager.Supervision.{AgentStatus, running, stopped}
use execution_engine_multi.Manager.SignalRouter.Routing.{
  Registration, Text, GatewayPayload, is_eligible, mentions, broker_matches, plain, occurs_in,
  routed_signal, routed_payload, on_signal, handle_gateway_signal,
}
use execution_engine_multi.Manager.SignalRouter.Routing.Eligible.{AreChosen}
use execution_engine_multi.Manager.SignalRouter.Routing.FanOut.{is_addressed, delivered}
use execution_engine_multi.Manager.SignalRouter.Routing.Addressed.{
  routed, on_signal-routed, handle_gateway_signal-delivered,
}
use execution_engine_multi.Manager.SignalRouter.{
  get_signal_delivery, Delivery, pending, accepted, Outside, is_waiting, process_due_deliveries,
}
use execution_engine_multi.Manager.SignalRouter.Deadline.{pass, passes, passes-ends}
use execution_engine_multi.Manager.SignalRouter.Table.{AreUnique, process_due_deliveries_lem}

abbrev delivery : String → Delivery
delivery agent = record {
  signal_id = "s1";
  agent_id = agent;
  payload = "{}";
  status = pending;
  command_id = none;
  attempts = 0;
  next_attempt_at = 1000;
  expires_at = 121000;
  error = "";
  updated_at = 1000;
}

abbrev silent : ℕ → Outside
silent now = record { now = now; outcome = λ c. none; submit_command = λ d. some "c1" }

abbrev early : List Outside
early = silent 1000 ∷ silent 2000 ∷ silent 4000 ∷ []

passes-ends_example :
    let end = pass (silent 151000) (passes early (delivery "a1")) in
    (is_waiting end.status ≡ false) × (passes early end ≡ end)
passes-ends_example =
    passes-ends early (silent 151000) early (delivery "a1") (omega arith) (omega arith)

abbrev rows : List Delivery
rows = delivery "a1" ∷ record (delivery "a2") { status = accepted } ∷ delivery "a3" ∷ []

rows-AreUnique : AreUnique rows
unfolding AreUnique
rows-AreUnique = ((refl, (refl, tt)), ((refl, tt), (tt, tt)))

process_due_deliveries_lem_example :
    process_due_deliveries (silent 2000) rows ≡ map (pass (silent 2000)) rows
process_due_deliveries_lem_example = process_due_deliveries_lem (silent 2000) rows rows-AreUnique

-- Texts without case: the samples are in the case that they are compared in.
abbrev text : Text ℤ
text = record { upper = λ x. x; lower = λ x. x; dump = λ s. "{}" }

abbrev agent : String → AgentStatus → Registration
agent id status = record {
  agent_id = id;
  status = status;
  mt5_server = some "exness-mt5-real4";
  symbols = "EURUSD" ∷ [];
}

-- "a1" has a delivery of "s1" already, "a2" does not run, and "a4" has no delivery.
abbrev agents : List Registration
agents = agent "a1" running ∷ agent "a2" stopped ∷ agent "a4" running ∷ []

abbrev routed_s1 : InboundSignal ℤ
routed_s1 = record (signal "s1" long) { symbol = "EURUSD"; broker = "exness" }

on_signal-routed_example :
    AreChosen text (routed_signal text 2000 routed_s1) agents
    × AreUnique (on_signal text (silent 2000) routed_s1 agents rows)
    × ((id agent : String)
        → get_signal_delivery id agent (on_signal text (silent 2000) routed_s1 agents rows)
          ≡ Option.map (pass (silent 2000)) (
              routed text
                (routed_signal text 2000 routed_s1)
                2000
                agents
                id
                agent
                (get_signal_delivery id agent rows)))
on_signal-routed_example = on_signal-routed text (silent 2000) routed_s1 agents rows rows-AreUnique

-- "a1" and "a4" may have the signal and "a2" may not.
addressees :
    (is_addressed text (routed_signal text 2000 routed_s1) agents "a1" ≡ true)
    × (is_addressed text (routed_signal text 2000 routed_s1) agents "a2" ≡ false)
    × (is_addressed text (routed_signal text 2000 routed_s1) agents "a4" ≡ true)
unfolding is_addressed is_eligible mentions broker_matches plain occurs_in routed_signal
addressees = (refl, refl, refl)

abbrev payload : GatewayPayload
payload = record {
  symbol = some "EURUSD";
  broker = some "exness";
  id = some "s1";
  signal_id = none;
  emitted_at = none;
  created_at = none;
  text = "{}";
}

handle_gateway_signal-delivered_example :
    AreChosen text (routed_payload text 2000 payload) agents
    × AreUnique (handle_gateway_signal text (silent 2000) payload agents rows)
    × ((id agent : String)
        → get_signal_delivery id agent
            (handle_gateway_signal text (silent 2000) payload agents rows)
          ≡ (let s = routed_payload text 2000 payload in
              let old = get_signal_delivery id agent rows in
              if s.symbol == ""
              then old
              else Option.map (pass (silent 2000)) (delivered text s 2000 agents id agent old)))
handle_gateway_signal-delivered_example =
    handle_gateway_signal-delivered text (silent 2000) payload agents rows rows-AreUnique
