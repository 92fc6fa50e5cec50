-- ===== src/Manager/SignalRouter/Routing.antt =====
-- manager/app/signal_router.py: `_on_signal`, `handle_gateway_signal` and `_broker_matches`. Case
-- mapping and the JSON text of a payload are arguments.
pub mod FanOut
pub mod Matching
pub mod Eligible
pub mod Addressed
use Prim.Native.Char.{Char, code}
use text.Mathlib.Text.{starts_with}
use execution_engine_multi.Prelude.{
  ℕ, ◌+◌, String, ◌==◌, Bool, true, false, not, ◌&&◌, ◌||◌, Option, none, some, List, [], ◌∷◌, keep,
  length, or_default, or_else, leb, eqb, if◌then◌else◌,
}
use execution_engine_multi.Domain.Signal.{InboundSignal}
use execution_engine_multi.Manager.Supervision.{AgentStatus, running}
use execution_engine_multi.Manager.SignalRouter.{
  Delivery, recorded, Outside, queue_signal_delivery, record_signal_outcome, process_due_deliveries,
}

-- The columns of `AgentRegistration` that the routing reads.
pub record Registration : Type 0 where
  pub agent_id : String
  pub status : AgentStatus
  pub mt5_server : Option String
  pub symbols : List String

pub record Text (F : Type 0) : Type 0 where
  pub upper : String → String
  pub lower : String → String
  -- `json.dumps(signal.to_dict())`
  pub dump : InboundSignal F → String

-- What `handle_gateway_signal` reads of its payload, and the text of the payload.
pub record GatewayPayload : Type 0 where
  pub symbol : Option String
  pub broker : Option String
  pub id : Option String
  pub signal_id : Option String
  pub emitted_at : Option ℕ
  pub created_at : Option ℕ
  pub text : String

-- What both handlers hand to the loop over the agents; the symbol is in upper case.
pub record RoutedSignal : Type 0 where
  pub signal_id : String
  pub symbol : String
  pub broker : String
  pub payload : String
  pub expires_at : ℕ

abbrev pub is_running : AgentStatus → Bool
is_running running = true
is_running _ = false

-- The class `[a-z0-9]`.
abbrev is_plain : Char → Bool
is_plain c = (leb b'a' (code c) && leb (code c) b'z') || (leb b'0' (code c) && leb (code c) b'9')

-- `re.sub(r"[^a-z0-9]", "", text)`
unfoldable pub plain : String → String
plain String.[] = String.[]
plain (String.◌∷◌ c s) = let rest = plain s in if is_plain c then String.◌∷◌ c rest else rest

-- `part in text`
unfoldable pub occurs_in : (part text : String) → Bool
occurs_in part String.[] = starts_with String.[] part
occurs_in part (String.◌∷◌ c text) = starts_with (String.◌∷◌ c text) part || occurs_in part text

-- `a or b or ""` on two optional texts.
abbrev first_text : Option String → Option String → String
first_text none b = or_default b ""
first_text (some a) b = if a == "" then or_default b "" else a

-- Two minutes after the time of the signal.
abbrev expiry : Option ℕ → Option ℕ → ℕ → ℕ
expiry emitted_at created_at now =
    or_default (or_else emitted_at (or_else created_at (some now))) now + 120000

module _ {F : Type 0} (t : Text F) where
  unfoldable pub broker_matches : String → Option String → Bool
  broker_matches broker mt5_server =
      let norm_broker = plain (t.lower broker) in
      not (norm_broker == "") && occurs_in norm_broker (plain (t.lower (or_default mt5_server "")))

  unfoldable pub mentions : String → List String → Bool
  mentions symbol [] = false
  mentions symbol (x ∷ xs) = (t.upper x == symbol) || mentions symbol xs

  unfoldable pub is_eligible : RoutedSignal → Registration → Bool
  is_eligible s reg =
      is_running reg.status
      && mentions s.symbol reg.symbols
      && ((s.broker == "") || broker_matches s.broker reg.mt5_server)

  -- The loop over the agents.
  unfoldable pub fan_out : RoutedSignal → ℕ → List Registration → List Delivery → List Delivery
  fan_out s now [] rows = rows
  fan_out s now (reg ∷ regs) rows = fan_out s now regs (
      if is_eligible s reg
      then queue_signal_delivery s.signal_id reg.agent_id s.payload s.expires_at now rows
      else rows)

  abbrev pub eligible : RoutedSignal → List Registration → ℕ
  eligible s regs = length (keep (is_eligible s) regs)

  unfoldable pub routed_signal : ℕ → InboundSignal F → RoutedSignal
  routed_signal now signal = record {
    signal_id = signal.id;
    symbol = t.upper signal.symbol;
    broker = signal.broker;
    payload = t.dump signal;
    expires_at = expiry signal.emitted_at (some signal.created_at) now;
  }

  unfoldable pub on_signal :
      Outside → InboundSignal F → List Registration → List Delivery → List Delivery
  on_signal out signal regs rows =
      let s = routed_signal out.now signal in
      let queued = fan_out s out.now regs rows in
      process_due_deliveries out (
        if eqb (eligible s regs) 0
        then record_signal_outcome s.signal_id "__routing__" s.payload
            (recorded "no_eligible_agent") out.now queued
        else queued)

  unfoldable pub routed_payload : ℕ → GatewayPayload → RoutedSignal
  routed_payload now p = record {
    signal_id = first_text p.id p.signal_id;
    symbol = t.upper (or_default p.symbol "");
    broker = t.lower (or_default p.broker "");
    payload = p.text;
    expires_at = expiry p.emitted_at p.created_at now;
  }

  unfoldable pub handle_gateway_signal :
      Outside → GatewayPayload → List Registration → List Delivery → List Delivery
  handle_gateway_signal out p regs rows =
      let s = routed_payload out.now p in
      if s.symbol == "" then rows else process_due_deliveries out (fan_out s out.now regs rows)
