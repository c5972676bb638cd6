-- ===== src/Framing/Sender.antt =====
-- framing/sender.ts: sequence numbers, transfer ids, and the calls that wait for a digest, for the cipher or for
-- the transport to drain. A call that waits is a `Task` of the sender; its piece from one `await` to the next is
-- a function. The key is read when a frame's encryption starts, so a task carries the result.
pub mod Calls
pub mod Steps
pub mod Sequence
pub mod Moves
pub mod Reservations
mod Tests
pub mod Nonces
use fuck_chat_control.Base.{
  ℕ, ◌+◌, Bool, true, false, not, Option, none, some, List, [], ◌∷◌, ◌++◌, if◌then◌else◌, ltb, leb,
  ◌==◌, length, replicate, Str, nat_eq,
}
use fuck_chat_control.Base.Map as Map
use fuck_chat_control.Base.Map.{Map}
use fuck_chat_control.Base.Result.{Result, ok, err, ◌>>=◌, ◌>>◌, require}
use fuck_chat_control.Protocol.Limits.{
  protocol_version, uint32_max, max_concurrent_transfers, max_incomplete_transfer_bytes,
}
use fuck_chat_control.Protocol.Types.{FrameType, text, file_manifest, file_chunk, control, FrameAad}
use fuck_chat_control.Protocol.Bytes.{subarray}
use fuck_chat_control.Protocol.Control.{
  is_allowed_subtype, transfer_cancel, encode_transfer_cancel_payload,
}
use fuck_chat_control.Crypto.Aead.{Cipher, AeadFailure, EncryptedFrame, encrypt_frame}
use fuck_chat_control.Framing.Errors.{
  FramingErrorCode, sequence_exhausted, unknown_transfer, size_exceeded,
  concurrent_transfers_exceeded, transfer_cancelled, tearing_down, unknown_control_subtype, Failure,
  framing, Framed, passed_on,
}
use fuck_chat_control.Framing.Wire.{encode_wire_frame}
use fuck_chat_control.Framing.Chunks.{compute_chunk_count, chunk_start, chunk_end}
use fuck_chat_control.Framing.Receiver.{FileManifest}
use fuck_chat_control.Framing.Manifest.{encode_manifest}

abbrev pub first_transfer_id : ℕ
first_transfer_id = 1000000

abbrev pub max_sequence : ℕ
max_sequence = 0xffffffff

abbrev pub max_buffered_data_bytes : ℕ
max_buffered_data_bytes = 1048576

-- The arguments of a call of `sendFile`.
pub record FileJob : Type 0 where
  pub transfer_id : ℕ
  pub file : List ℕ
  pub name : Str
  pub mime_type : Str

-- What the sender throws: an error of the framing or the codec, or one of the encryption.
pub data Thrown : Type 0 where
  of_framing : Failure → Thrown
  of_aead : AeadFailure → Thrown

abbrev pub thrown_code : FramingErrorCode → Thrown
thrown_code code = of_framing (framing code)

-- What a call does once its frame is encrypted and handed to the transport: `sendText` and `sendControl` return,
-- `cancelTransfer` has swallowed the outcome, `sendFile` goes on after its manifest or a chunk, or rethrows after
-- the cancel that it sent for its peer.
pub data After : Type 0 where
  returning swallowed : After
  manifest_of : FileJob → After
  chunk_of : FileJob → ℕ → After
  rethrowing : FileJob → Thrown → After

pub data Task : Type 0 where
  hashing : FileJob → Task
  sealing : FrameAad → Result AeadFailure EncryptedFrame → After → Task
  -- A drain waiter that was resolved (`none`) or rejected, before its call goes on.
  drained : FileJob → ℕ → Option FramingErrorCode → Task

-- A waiter of `drainWaiters`, with the chunk that its call is about to send.
pub record DrainWaiter : Type 0 where
  pub job : FileJob
  pub chunk : ℕ

pub record Sender : Type 0 where
  pub sequence : ℕ
  pub next_transfer_id : ℕ
  pub active_transfers : Map ℕ (Unit {0})
  pub cancelled_transfers : Map ℕ (Unit {0})
  pub manifest_sent_transfers : Map ℕ (Unit {0})
  pub drain_waiters : List DrainWaiter
  pub tearing_down : Bool
  pub send_key : List ℕ
  pub tasks : List Task

-- What becomes visible: the key and the additional data that a frame is encrypted with, what is handed to the
-- transport, the callbacks, and how a call ends.
pub data Event : Type 0 where
  encrypting : List ℕ → FrameAad → Event
  sent : List ℕ → Event
  transfer_start : ℕ → Event
  progress : ℕ → ℕ → Event
  returned : Event
  file_sent : ℕ → Event
  threw : Thrown → Event

-- The sender after a piece of a call, and the events of the piece.
pub record Run : Type 0 where
  pub sender : Sender
  pub events : List Event

abbrev pub run : Sender → List Event → Run
run s es = record { sender = s; events = es }

abbrev pub then_run : List Event → Run → Run
then_run es r = record { sender = r.sender; events = es ++ r.events }

abbrev pub suspend : Sender → Task → Sender
suspend s task = record s { tasks = s.tasks ++ task ∷ [] }

abbrev pub new_sender : List ℕ → Sender
new_sender key = record {
  sequence = 0;
  next_transfer_id = first_transfer_id;
  active_transfers = [];
  cancelled_transfers = [];
  manifest_sent_transfers = [];
  drain_waiters = [];
  tearing_down = false;
  send_key = key;
  tasks = [];
}

abbrev pub Called {ℓ} : Type ℓ → Type ℓ
Called A = Result Thrown A

-- `assertNotTearingDown` with a transfer id.
unfoldable pub assert_not_cancelled : Sender → ℕ → Called (Unit {0})
assert_not_cancelled s id =
    require (not s.tearing_down) (thrown_code tearing_down)
    >> require (not (Map.has id s.cancelled_transfers)) (thrown_code transfer_cancelled)

abbrev pub assert_not_tearing_down : Sender → Called (Unit {0})
assert_not_tearing_down s = require (not s.tearing_down) (thrown_code tearing_down)

-- Both leave the counter as it was when they throw.
unfoldable pub allocate_transfer_id : Sender → Called (ℕ × Sender)
allocate_transfer_id s =
    require (leb s.next_transfer_id uint32_max) (thrown_code sequence_exhausted)
    >> ok (s.next_transfer_id, record s { next_transfer_id = s.next_transfer_id + 1 })

unfoldable pub next_sequence : Sender → Called (ℕ × Sender)
next_sequence s =
    require (leb s.sequence max_sequence) (thrown_code sequence_exhausted)
    >> ok (s.sequence, record s { sequence = s.sequence + 1 })

unfoldable pub begin_file_transfer : Sender → Called (ℕ × Sender)
begin_file_transfer s = do
  assert_not_tearing_down s
  require (not (leb max_concurrent_transfers (Map.size s.active_transfers)))
      (thrown_code concurrent_transfers_exceeded)
  (id, moved) ← allocate_transfer_id s
  ok (id, record moved { active_transfers = Map.set id tt moved.active_transfers })

abbrev pub is_sequence_exhausted : Thrown → Bool
is_sequence_exhausted (of_framing (framing sequence_exhausted)) = true
is_sequence_exhausted thrown = false

abbrev pub of_codec {ℓ} : {A : Type ℓ} → Framed A → Called A
of_codec (ok a) = ok a
of_codec (err e) = err (of_framing e)

-- The `finally` of `sendFile`.
unfoldable pub release : Sender → ℕ → Sender
release s id = record s {
  active_transfers = Map.delete id s.active_transfers;
  cancelled_transfers = Map.delete id s.cancelled_transfers;
  manifest_sent_transfers = Map.delete id s.manifest_sent_transfers;
}

abbrev pub release_and_throw : Sender → FileJob → Thrown → Run
release_and_throw s job thrown = run (release s job.transfer_id) (threw thrown ∷ [])
