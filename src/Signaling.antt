-- ===== src/Signaling.antt =====
-- signaling/state-machine.ts: the states of a connection, and which side gives way when both offer.
pub mod Paths
pub mod Glare
mod Tests
use fuck_chat_control.Base.{
  ℕ, ◌+◌, ◌%◌, Bool, true, false, not, Option, none, some, List, [], ◌∷◌, if◌then◌else◌, ◌==◌,
  get_or,
}
use fuck_chat_control.Base.Result.{Result, ok, err}
use fuck_chat_control.Protocol.Types.{Role, initiator, responder}
use fuck_chat_control.Protocol.Codec.{
  Checked, Comparison, equal, below, above, compare_bytes, derive_role,
}

pub data ConnectionState : Type 0 where
  idle waiting signaling handshaking verifying connected disconnected : ConnectionState

-- `TRANSITIONS[from].has(to)`.
abbrev pub allowed : ConnectionState → ConnectionState → Bool
allowed idle waiting = true
allowed idle signaling = true
allowed idle idle = true
allowed waiting signaling = true
allowed waiting handshaking = true
allowed waiting disconnected = true
allowed waiting idle = true
allowed signaling handshaking = true
allowed signaling waiting = true
allowed signaling disconnected = true
allowed signaling idle = true
allowed handshaking verifying = true
allowed handshaking disconnected = true
allowed handshaking idle = true
allowed verifying connected = true
allowed verifying disconnected = true
allowed verifying idle = true
allowed connected disconnected = true
allowed connected idle = true
allowed disconnected signaling = true
allowed disconnected idle = true
allowed _ _ = false

pub record InvalidTransition : Type 0 where
  pub from : ConnectionState
  pub to : ConnectionState

abbrev pub is_idle : ConnectionState → Bool
is_idle idle = true
is_idle _ = false

-- `transition(next)` of a machine in `state`. A `next` that is no state is not expressible.
unfoldable pub transition :
    ConnectionState → ConnectionState → Result InvalidTransition ConnectionState
transition state next =
    if is_idle next
    then ok idle
    else if not (allowed state next)
    then err (record { from = state; to = next })
    else ok next

pub data GlareOutcome : Type 0 where
  keep rollback : GlareOutcome

abbrev pub is_polite : Role → Bool
is_polite responder = true
is_polite initiator = false

abbrev pub resolve_glare : Role → GlareOutcome
resolve_glare initiator = keep
resolve_glare responder = rollback

pub data RemoteOfferOutcome : Type 0 where
  answer ignore : RemoteOfferOutcome

pub record GlareResolver : Type 0 where
  pub role : Role
  pub offer_in_flight : Bool

abbrev pub new_resolver : Role → GlareResolver
new_resolver role = record { role = role; offer_in_flight = false }

abbrev pub begin_offer : GlareResolver → GlareResolver
begin_offer g = record g { offer_in_flight = true }

abbrev pub end_offer : GlareResolver → GlareResolver
end_offer g = record g { offer_in_flight = false }

unfoldable pub on_remote_offer : GlareResolver → RemoteOfferOutcome
on_remote_offer g =
    if not g.offer_in_flight then answer else if is_polite g.role then answer else ignore

-- The parity of the first byte after the prefix; a key that has none counts as even.
abbrev pub is_even_parity_key : List ℕ → Bool
is_even_parity_key key = get_or key 1 0 % 2 == 0

abbrev pub derive_glare_role : List ℕ → Role
derive_glare_role key = if is_even_parity_key key then initiator else responder

-- `compareUint8Arrays` is `compareBytes` again.
unfoldable pub derive_resume_glare_role : List ℕ → List ℕ → Checked Role
unfolding compare_bytes derive_role
derive_resume_glare_role local_key peer_key = elim (compare_bytes local_key peer_key) [
  | equal ↦ ok responder
  | _ ↦ derive_role local_key peer_key
]
