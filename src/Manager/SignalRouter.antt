-- ===== src/Manager/SignalRouter.antt =====
-- manager/app/signal_router.py: `_process_due_deliveries`, on the table `signal_deliveries` of
-- manager/app/registry.py, whose statements are functions on its rows. The event hub and the outcomes
-- of the commands are answers; the time is read once in a pass, and so is `updated_at` here.
pub mod Deadline
pub mod Table
pub mod Keys
pub mod Routing
use execution_engine_multi.Prelude.{
  ℕ, ◌+◌, ◌-◌, ◌*◌, ◌^◌, String, ◌==◌, Bool, true, false, ◌&&◌, ◌||◌, Option, none, some, is_some,
  List, [], ◌∷◌, ◌++◌, keep, find_first, map, or_default, leb, ltb, if◌then◌else◌,
}

pub data DeliveryStatus : Type 0 where
  pending sent accepted rejected expired : DeliveryStatus
  -- A status that `record_signal_outcome` writes.
  recorded : String → DeliveryStatus

pub record Delivery : Type 0 where
  pub signal_id : String
  pub agent_id : String
  pub payload : String
  pub status : DeliveryStatus
  pub command_id : Option String
  pub attempts : ℕ
  pub next_attempt_at : ℕ
  pub expires_at : ℕ
  pub error : String
  pub updated_at : ℕ

-- `get_command_outcome`: completed, rejected with an error, or any other status.
pub data CommandOutcome : Type 0 where
  completed other : CommandOutcome
  refused : String → CommandOutcome

-- The clock, the outcomes that the registry holds, and the event hub: `none` for an agent that is
-- not connected.
pub record Outside : Type 0 where
  pub now : ℕ
  pub outcome : String → Option CommandOutcome
  pub submit_command : Delivery → Option String

-- The keyword arguments of `update_signal_delivery`: `None` leaves the column.
pub record Change : Type 0 where
  pub status : DeliveryStatus
  pub command_id : Option String
  pub attempts : Option ℕ
  pub next_attempt_at : Option ℕ
  pub error : Option String

abbrev new_or_old {ℓ} : {A : Type ℓ} → Option A → Option A → Option A
new_or_old none old = old
new_or_old (some new) old = some new

pub apply_change : ℕ → Change → Delivery → Delivery
apply_change now c r = record r {
  status = c.status;
  command_id = new_or_old c.command_id r.command_id;
  attempts = or_default c.attempts r.attempts;
  next_attempt_at = or_default c.next_attempt_at r.next_attempt_at;
  error = or_default c.error r.error;
  updated_at = now;
}

abbrev pub has_key : (signal_id agent_id : String) → Delivery → Bool
has_key signal_id agent_id r = (r.signal_id == signal_id) && (r.agent_id == agent_id)

-- `update_signal_delivery`
pub update_signal_delivery :
    (signal_id agent_id : String) → ℕ → Change → List Delivery → List Delivery
update_signal_delivery signal_id agent_id now c rows =
    map (λ r. if has_key signal_id agent_id r then apply_change now c r else r) rows

abbrev pub contains_key : (signal_id agent_id : String) → List Delivery → Bool
contains_key signal_id agent_id [] = false
contains_key signal_id agent_id (r ∷ rows) =
    has_key signal_id agent_id r || contains_key signal_id agent_id rows

-- A row as it is inserted: what the statement does not name has its default.
abbrev pub inserted :
    (signal_id agent_id payload : String) → DeliveryStatus → (expires_at now : ℕ) → Delivery
inserted signal_id agent_id payload status expires_at now = record {
  signal_id = signal_id;
  agent_id = agent_id;
  payload = payload;
  status = status;
  command_id = none;
  attempts = 0;
  next_attempt_at = now;
  expires_at = expires_at;
  error = "";
  updated_at = now;
}

-- `queue_signal_delivery`: a delivery that is there already stays as it is.
unfoldable pub queue_signal_delivery :
    (signal_id agent_id payload : String) (expires_at now : ℕ) → List Delivery → List Delivery
queue_signal_delivery signal_id agent_id payload expires_at now rows =
    if contains_key signal_id agent_id rows
    then rows
    else rows ++ inserted signal_id agent_id payload pending expires_at now ∷ []

-- `record_signal_outcome` without an error: the status of a row that is there is replaced.
unfoldable pub record_signal_outcome :
    (signal_id agent_id payload : String) → DeliveryStatus → ℕ → List Delivery → List Delivery
record_signal_outcome signal_id agent_id payload status now rows =
    if contains_key signal_id agent_id rows
    then map
        (λ r.
          if has_key signal_id agent_id r
          then record r { status = status; error = ""; updated_at = now }
          else r)
        rows
    else rows ++ inserted signal_id agent_id payload status now now ∷ []

-- `get_signal_delivery`
abbrev pub get_signal_delivery : (signal_id agent_id : String) → List Delivery → Option Delivery
get_signal_delivery signal_id agent_id rows = find_first (has_key signal_id agent_id) rows

abbrev pub is_waiting : DeliveryStatus → Bool
is_waiting pending = true
is_waiting sent = true
is_waiting _ = false

pub is_due : ℕ → Delivery → Bool
is_due now r = is_waiting r.status && leb r.next_attempt_at now

-- `ORDER BY next_attempt_at`
pub insert_due : Delivery → List Delivery → List Delivery
insert_due d [] = d ∷ []
insert_due d (e ∷ es) =
    let rest = insert_due d es in
    if leb d.next_attempt_at e.next_attempt_at then d ∷ e ∷ es else e ∷ rest

pub sort_due : List Delivery → List Delivery
sort_due [] = []
sort_due (d ∷ ds) = insert_due d (sort_due ds)

pub list_due_signal_deliveries : ℕ → List Delivery → List Delivery
list_due_signal_deliveries now rows = sort_due (keep (is_due now) rows)

-- 1, 2, 4, 8, 16 and then 30 seconds.
pub backoff_ms : ℕ → ℕ
backoff_ms attempts =
    let power = if ltb 5 (attempts - 1) then 5 else attempts - 1 in
    if ltb (1000 * 2 ^ power) 30000 then 1000 * 2 ^ power else 30000

abbrev ended : DeliveryStatus → Option String → Change
ended status error = record {
  status = status;
  command_id = none;
  attempts = none;
  next_attempt_at = none;
  error = error;
}

-- The delivery is sent, for the first time or again.
pub resend : Outside → Delivery → Change
resend out d =
    let attempts = d.attempts + 1 in
    let command = out.submit_command d in
    record {
      status = if is_some command then sent else pending;
      command_id = command;
      attempts = some attempts;
      next_attempt_at = some (out.now + backoff_ms attempts);
      error = some (if is_some command then "" else "agent not connected");
    }

pub after_outcome : Outside → Delivery → Option CommandOutcome → Change
after_outcome out d none = resend out d
after_outcome out d (some other) = resend out d
after_outcome out d (some completed) = ended accepted none
after_outcome out d (some (refused error)) = ended rejected (some error)

abbrev known_outcome : Outside → Option String → Option CommandOutcome
known_outcome out none = none
known_outcome out (some command) = out.outcome command

-- The body of the loop.
pub change_of : Outside → Delivery → Change
change_of out d =
    if leb d.expires_at out.now
    then ended expired (some "signal expired")
    else after_outcome out d (known_outcome out d.command_id)

pub process_all : Outside → List Delivery → List Delivery → List Delivery
process_all out [] rows = rows
process_all out (d ∷ ds) rows =
    process_all out ds
      (update_signal_delivery d.signal_id d.agent_id out.now (change_of out d) rows)

pub process_due_deliveries : Outside → List Delivery → List Delivery
process_due_deliveries out rows = process_all out (list_due_signal_deliveries out.now rows) rows
