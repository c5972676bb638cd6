-- ===== src/Framing/Receiver.antt =====
-- framing/receiver.ts: the transfers that a receiver is assembling, and what it has promised to buffer.
pub mod Steps
pub mod Accounting
pub mod Admission
pub mod Storage
pub mod Endings
pub mod Loops
pub mod Runs
pub mod Delivery
pub mod Handover
pub mod Whole
use fuck_chat_control.Base.{
  ℕ, zero, suc, ◌+◌, ◌-◌, ◌≡◌, Bool, true, false, ◌&&◌, ◌||◌, not, Option, none, some, List, [],
  ◌∷◌, ◌++◌, if◌then◌else◌, ltb, leb, ◌==◌, length, get_or, set, drop, replicate, Str, str_beq,
  nat_eq,
}
use fuck_chat_control.Base.Map as Map
use fuck_chat_control.Base.Map.{Map}
use fuck_chat_control.Base.Result.{Result, ok, err}
use fuck_chat_control.Protocol.Limits.{max_concurrent_transfers, max_incomplete_transfer_bytes}
use fuck_chat_control.Framing.Errors.{
  FramingErrorCode, malformed, unknown_transfer, transfer_inactive, duplicate_chunk,
  chunk_out_of_range, size_exceeded, concurrent_transfers_exceeded, hash_mismatch,
}
use fuck_chat_control.Framing.Chunks.{chunk_length}

pub record FileManifest : Type 0 where
  pub transfer_id : ℕ
  pub name : Str
  pub mime_type : Str
  pub size : ℕ
  pub chunk_count : ℕ
  pub content_hash : List ℕ

pub record ActiveTransfer : Type 0 where
  pub manifest : FileManifest
  pub chunks : List (Option (List ℕ))
  pub received_count : ℕ
  pub received_bytes : ℕ
  pub last_activity : ℕ
  pub dropped : Bool

-- A call of `completeTransfer` that waits for the digest of `reassembled`. Its reference to the transfer is the
-- one alias of an entry of the map: `ingest` handles one frame after the other.
pub record Completion : Type 0 where
  pub transfer_id : ℕ
  pub transfer : ActiveTransfer
  pub reassembled : List ℕ

-- The counters are subtracted on ℕ, which stops at 0 where the code's numbers would turn negative.
pub record Receiver : Type 0 where
  pub transfers : Map ℕ ActiveTransfer
  pub total_buffered_bytes : ℕ
  pub outstanding_declared_bytes : ℕ
  pub torn_down : Bool
  pub completing : Option Completion

abbrev pub new_receiver : Receiver
new_receiver = record {
  transfers = [];
  total_buffered_bytes = 0;
  outstanding_declared_bytes = 0;
  torn_down = false;
  completing = none;
}

pub data Event : Type 0 where
  file_complete : FileManifest → List ℕ → Event
  transfer_timeout : ℕ → Event

-- What a handler leaves: the receiver, the callbacks that it made, and what it threw.
pub record Outcome : Type 0 where
  pub receiver : Receiver
  pub events : List Event
  pub thrown : Option FramingErrorCode

abbrev pub quietly : Receiver → Outcome
quietly r = record { receiver = r; events = []; thrown = none }

abbrev pub failing : Receiver → FramingErrorCode → Outcome
failing r e = record { receiver = r; events = []; thrown = some e }

-- `transfer.dropped = true`, seen through the other reference.
abbrev pub mark_dropped : ℕ → Option Completion → Option Completion
mark_dropped id none = none
mark_dropped id (some c) =
    if c.transfer_id == id
    then some (record c { transfer = record c.transfer { dropped = true } })
    else some c

unfoldable pub drop_transfer : Receiver → ℕ → ActiveTransfer → Receiver
unfolding Map.delete
drop_transfer r id t = if t.dropped then r else record r {
  total_buffered_bytes = r.total_buffered_bytes - t.received_bytes;
  outstanding_declared_bytes = r.outstanding_declared_bytes - (t.manifest.size - t.received_bytes);
  transfers = Map.delete id r.transfers;
  completing = mark_dropped id r.completing;
}

-- The loop over the chunks: `none` at the first that is missing.
abbrev pub reassemble : List (Option (List ℕ)) → Option (List ℕ)
reassemble [] = some []
reassemble (none ∷ chunks) = none
reassemble (some chunk ∷ chunks) = elim (reassemble chunks) [
  | none ↦ none
  | some rest ↦ some (chunk ++ rest)
]

-- `completeTransfer` up to the `await`.
unfoldable pub complete_transfer : Receiver → ℕ → ActiveTransfer → Outcome
unfolding drop_transfer
complete_transfer r id t = elim (reassemble t.chunks) [
  | none ↦ failing (drop_transfer r id t) malformed
  | some reassembled ↦
      if length reassembled == t.manifest.size
      then quietly (record r {
        completing = some (record { transfer_id = id; transfer = t; reassembled = reassembled });
      })
      else failing (drop_transfer r id t) size_exceeded
]

module _ (sha256 : List ℕ → List ℕ) where
  -- `completeTransfer` from the `await` on.
  unfoldable pub resume : Receiver → Completion → Outcome
  unfolding drop_transfer Map.has str_beq
  resume waiting c =
      let r = record waiting { completing = none } in
      let dropped = drop_transfer r c.transfer_id c.transfer in
      if not (str_beq (sha256 c.reassembled) c.transfer.manifest.content_hash)
      then failing dropped hash_mismatch
      else if r.torn_down || not (Map.has c.transfer_id r.transfers)
      then quietly dropped
      else record {
        receiver = dropped;
        events = file_complete c.transfer.manifest c.reassembled ∷ [];
        thrown = none;
      }

abbrev pub admitted : FileManifest → ℕ → ActiveTransfer
admitted manifest now = record {
  manifest = manifest;
  chunks = replicate manifest.chunk_count none;
  received_count = 0;
  received_bytes = 0;
  last_activity = now;
  dropped = false;
}

-- `handleManifest` of a manifest that was decoded. The second look for the id finds what the first did.
unfoldable pub handle_manifest : Receiver → ℕ → FileManifest → ℕ → Outcome
unfolding Map.has Map.set complete_transfer
handle_manifest r id manifest now =
    if Map.has id r.transfers
    then failing r transfer_inactive
    else if leb max_concurrent_transfers (Map.size r.transfers)
    then failing r concurrent_transfers_exceeded
    else if ltb max_incomplete_transfer_bytes
        (r.total_buffered_bytes + r.outstanding_declared_bytes + manifest.size)
    then failing r size_exceeded
    else let t = admitted manifest now in
      let r' = record r {
        transfers = Map.set id t r.transfers;
        outstanding_declared_bytes = r.outstanding_declared_bytes + manifest.size;
      } in
      if manifest.chunk_count == 0 then complete_transfer r' id t else quietly r'

abbrev pub is_received : Option (List ℕ) → Bool
is_received none = false
is_received (some chunk) = true

abbrev pub with_chunk : ActiveTransfer → ℕ → List ℕ → ℕ → ActiveTransfer
with_chunk t chunk_id plaintext now = record t {
  chunks = set t.chunks chunk_id (some plaintext);
  received_count = t.received_count + 1;
  received_bytes = t.received_bytes + length plaintext;
  last_activity = now;
}

-- A chunk of a transfer that is active.
abbrev pub store_chunk : Receiver → ℕ → ActiveTransfer → ℕ → List ℕ → ℕ → Outcome
store_chunk r id t chunk_id plaintext now =
    if leb t.manifest.chunk_count chunk_id
    then failing r chunk_out_of_range
    else if not (length plaintext == chunk_length t.manifest.size chunk_id)
    then failing r malformed
    else if is_received (get_or t.chunks chunk_id none)
    then failing r duplicate_chunk
    else if ltb t.manifest.size (t.received_bytes + length plaintext)
    then failing r size_exceeded
    else if ltb max_incomplete_transfer_bytes (r.total_buffered_bytes + length plaintext)
    then failing r size_exceeded
    else let t' = with_chunk t chunk_id plaintext now in
      let r' = record r {
        transfers = Map.set id t' r.transfers;
        total_buffered_bytes = r.total_buffered_bytes + length plaintext;
        outstanding_declared_bytes = r.outstanding_declared_bytes - length plaintext;
      } in
      if t'.received_count == t.manifest.chunk_count then complete_transfer r' id t' else quietly r'

unfoldable pub handle_chunk : Receiver → ℕ → ℕ → List ℕ → ℕ → Outcome
unfolding Map.get Map.set complete_transfer
handle_chunk r id chunk_id plaintext now = elim (Map.get id r.transfers) [
  | none ↦ failing r unknown_transfer
  | some t ↦ store_chunk r id t chunk_id plaintext now
]

unfoldable pub cancel_transfer : Receiver → ℕ → Receiver × Bool
unfolding Map.get drop_transfer
cancel_transfer r id =
    if r.torn_down
    then (r, false)
    else elim (Map.get id r.transfers) [ none ↦ (r, false) | some t ↦ (drop_transfer r id t, true) ]

abbrev pub drop_each : Receiver → Map ℕ ActiveTransfer → Receiver
drop_each r [] = r
drop_each r ((id, t) ∷ entries) = drop_each (drop_transfer r id t) entries

unfoldable pub teardown : Receiver → Receiver
unfolding drop_transfer
teardown r =
    let dropped = drop_each (record r { torn_down = true }) r.transfers in
    record dropped { transfers = [] }

abbrev pub is_idle : ℕ → ℕ → ActiveTransfer → Bool
is_idle timeout now t = ltb timeout (now - t.last_activity)

-- The sweep over `entries`, the transfers when it starts.
abbrev pub sweep_each : ℕ → ℕ → Receiver → Map ℕ ActiveTransfer → Receiver
sweep_each timeout now r [] = r
sweep_each timeout now r ((id, t) ∷ entries) =
    sweep_each timeout now (if is_idle timeout now t then drop_transfer r id t else r) entries

abbrev pub timeouts : ℕ → ℕ → Map ℕ ActiveTransfer → List Event
timeouts timeout now [] = []
timeouts timeout now ((id, t) ∷ entries) =
    let rest = timeouts timeout now entries in
    if is_idle timeout now t then transfer_timeout id ∷ rest else rest

unfoldable pub sweep_inactive_transfers : ℕ → ℕ → Receiver → Outcome
unfolding drop_transfer
sweep_inactive_transfers timeout now r = if r.torn_down then quietly r else record {
  receiver = sweep_each timeout now r r.transfers;
  events = timeouts timeout now r.transfers;
  thrown = none;
}
