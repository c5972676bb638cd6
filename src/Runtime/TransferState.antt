-- ===== src/Runtime/TransferState.antt =====
-- runtime/transfer-state.ts: the list of transfers in a chat's snapshot, and the events that change it.
pub mod Progress
use fuck_chat_control.Base.{
  ℕ, Bool, true, false, ◌||◌, Option, none, some, List, [], ◌∷◌, ◌++◌, if◌then◌else◌, ltb, ◌==◌,
  Str,
}

pub data Direction : Type 0 where
  sent received : Direction

pub data Status : Type 0 where
  queued sending receiving complete cancelled error : Status

pub record TransferState : Type 0 where
  pub id : ℕ
  pub name : Str
  pub mime_type : Str
  pub size : ℕ
  pub direction : Direction
  pub bytes_transferred : ℕ
  pub status : Status
  pub error_text : Option Str

pub data TransferEvent : Type 0 where
  started : ℕ → Str → Str → ℕ → Direction → Bool → TransferEvent
  progressed : ℕ → ℕ → TransferEvent
  completed : ℕ → TransferEvent
  aborted : ℕ → TransferEvent
  failed : ℕ → Str → TransferEvent

abbrev pub is_terminal : Status → Bool
is_terminal complete = true
is_terminal cancelled = true
is_terminal error = true
is_terminal _ = false

abbrev pub active_status : Direction → Status
active_status sent = sending
active_status received = receiving

-- A count of bytes is a natural number, so the branch for negative values does not arise.
abbrev pub clamp : ℕ → ℕ → ℕ
clamp size value = if ltb size value then size else value

-- `state.find((t) => t.id === id)`.
abbrev pub find : ℕ → List TransferState → Option TransferState
find id [] = none
find id (t ∷ state) = if t.id == id then some t else find id state

-- The state of a transfer that is new.
abbrev pub started_transfer : ℕ → Str → Str → ℕ → Direction → Bool → TransferState
started_transfer id name mime_type size direction is_queued = record {
  id = id;
  name = name;
  mime_type = mime_type;
  size = size;
  direction = direction;
  bytes_transferred = 0;
  status = if is_queued then queued else active_status direction;
  error_text = none;
}

abbrev pub is_queued : Status → Bool
is_queued queued = true
is_queued _ = false

abbrev pub event_id : TransferEvent → ℕ
event_id (started id _ _ _ _ _) = id
event_id (progressed id _) = id
event_id (completed id) = id
event_id (aborted id) = id
event_id (failed id _) = id

-- The `switch` on the event's type, for a transfer that is there.
abbrev pub updated : TransferState → TransferEvent → TransferState
updated t (started _ _ _ _ _ _) = t
updated t (progressed _ bytes) = record t {
  bytes_transferred = clamp t.size bytes;
  status = if is_queued t.status then active_status t.direction else t.status;
}
updated t (completed _) = record t { status = complete; bytes_transferred = t.size }
updated t (aborted _) = record t { status = cancelled }
updated t (failed _ text) = record t { status = error; error_text = some text }

-- An event for the first transfer that has the id; one in a terminal status keeps it.
abbrev pub update_first : List TransferState → TransferEvent → List TransferState
update_first [] event = []
update_first (t ∷ state) event =
    if t.id == event_id event
    then (if is_terminal t.status then t else updated t event) ∷ state
    else t ∷ update_first state event

unfoldable pub apply_transfer_event : List TransferState → TransferEvent → List TransferState
apply_transfer_event state (started id name mime_type size direction queue) = elim (find id state) [
  | some t ↦ state
  | none ↦ state ++ started_transfer id name mime_type size direction queue ∷ []
]
apply_transfer_event state event = update_first state event
