-- ===== src/Framing/Sender/Calls.antt =====
-- framing/sender.ts: the calls of a sender, each piece up to the next `await`.
use fuck_chat_control.Base.{
  ℕ, Bool, not, List, [], ◌∷◌, ◌++◌, if◌then◌else◌, ltb, leb, length, Str, nat_eq,
}
use fuck_chat_control.Base.Map as Map
use fuck_chat_control.Base.Result.{Result, ok, err, ◌>>=◌, ◌>>◌, require}
use fuck_chat_control.Protocol.Limits.{protocol_version, max_incomplete_transfer_bytes}
use fuck_chat_control.Protocol.Types.{FrameType, text, file_manifest, file_chunk, control, FrameAad}
use fuck_chat_control.Protocol.Bytes.{subarray}
use fuck_chat_control.Protocol.Control.{
  is_allowed_subtype, transfer_cancel, encode_transfer_cancel_payload,
}
use fuck_chat_control.Crypto.Aead.{Cipher, encrypt_frame}
use fuck_chat_control.Framing.Errors.{
  FramingErrorCode, unknown_transfer, size_exceeded, tearing_down, unknown_control_subtype,
  passed_on,
}
use fuck_chat_control.Framing.Chunks.{compute_chunk_count, chunk_start, chunk_end}
use fuck_chat_control.Framing.Receiver.{FileManifest}
use fuck_chat_control.Framing.Manifest.{encode_manifest}
use fuck_chat_control.Framing.Sender.{
  max_buffered_data_bytes, FileJob, Thrown, thrown_code, After, returning, manifest_of, chunk_of,
  rethrowing, hashing, sealing, Sender, encrypting, file_sent, threw, Run, run, suspend, Called,
  assert_not_cancelled, assert_not_tearing_down, next_sequence, is_sequence_exhausted, of_codec,
  release, release_and_throw,
}

-- What a sender is configured with, and what it calls: WebCrypto and `TextEncoder`.
pub record Config : Type 0 where
  pub cipher : Cipher
  pub sha256 : List ℕ → List ℕ
  pub encode_text : Str → List ℕ
  pub local_session_id : List ℕ
  pub group_link : Bool

module _ (config : Config) where
  abbrev pub frame_aad : ℕ → FrameType → ℕ → ℕ → FrameAad
  frame_aad sequence frame_type transfer_id chunk_id = record {
    protocol_version = protocol_version;
    sender_session_id = config.local_session_id;
    sender_sequence = sequence;
    frame_type = frame_type;
    transfer_id = transfer_id;
    chunk_id = chunk_id;
  }

  -- `sendEncryptedFrame` up to its `await`.
  unfoldable pub send_encrypted_frame : Sender → FrameType → List ℕ → ℕ → ℕ → After → Called Run
  send_encrypted_frame s frame_type plaintext transfer_id chunk_id after = do
    assert_not_cancelled s transfer_id
    (sequence, moved) ← next_sequence s
    let aad = frame_aad sequence frame_type transfer_id chunk_id
    ok (
        run
          (suspend moved (sealing aad (encrypt_frame config.cipher s.send_key aad plaintext) after))
          (encrypting s.send_key aad ∷ []))

  unfoldable pub send_control_frame : Sender → ℕ → List ℕ → After → Called Run
  send_control_frame s subtype payload after = do
    assert_not_tearing_down s
    require (is_allowed_subtype config.group_link subtype) (thrown_code unknown_control_subtype)
    send_encrypted_frame s control (subtype ∷ payload) 0 0 after

  -- `sendControl(TransferCancel, encodeTransferCancelPayload(transferId))`.
  unfoldable pub send_cancel : Sender → ℕ → After → Called Run
  send_cancel s id after = do
    payload ← of_codec (passed_on (encode_transfer_cancel_payload id))
    send_control_frame s transfer_cancel payload after

  -- How a call that awaits nothing else ends when this piece throws.
  abbrev pub or_throw : Sender → Called Run → Run
  or_throw s (ok r) = r
  or_throw s (err thrown) = run s (threw thrown ∷ [])

  unfoldable pub send_text : Sender → List ℕ → Run
  send_text s plaintext =
      or_throw s (assert_not_tearing_down s >> send_encrypted_frame s text plaintext 0 0 returning)

  unfoldable pub send_control : Sender → ℕ → List ℕ → Run
  send_control s subtype payload = or_throw s (send_control_frame s subtype payload returning)

  abbrev pub or_rethrow : Sender → FileJob → Thrown → Called Run → Run
  or_rethrow s job thrown (ok r) = r
  or_rethrow s job thrown (err secondary) = release_and_throw s job thrown

  -- The `catch` of `sendFile` and, unless it sends a cancel and waits, its `finally`.
  unfoldable pub fail_file : Sender → FileJob → Thrown → Run
  fail_file s job thrown =
      if is_sequence_exhausted thrown
      then or_rethrow s job thrown (send_cancel s job.transfer_id (rethrowing job thrown))
      else release_and_throw s job thrown

  abbrev pub or_fail : Sender → FileJob → Called Run → Run
  or_fail s job (ok r) = r
  or_fail s job (err thrown) = fail_file s job thrown

  abbrev pub send_chunk : Sender → FileJob → ℕ → Called Run
  send_chunk s job i =
      send_encrypted_frame s file_chunk
        (subarray job.file (chunk_start i) (chunk_end (length job.file) i)) job.transfer_id i
        (chunk_of job i)

  abbrev pub wait : Sender → FileJob → ℕ → Sender
  wait s job i = record s {
    drain_waiters = s.drain_waiters ++ record { job = job; chunk = i } ∷ [];
  }

  -- A turn of the loop over the chunks, and of the loop of `waitForDrain`: with `buffered` bytes in the transport.
  unfoldable pub next_chunk : ℕ → Sender → FileJob → ℕ → Run
  next_chunk buffered s job i = or_fail s job do
    assert_not_cancelled s job.transfer_id
    if leb max_buffered_data_bytes buffered then ok (run (wait s job i) []) else send_chunk s job i

  unfoldable pub chunks_or_return : ℕ → Sender → FileJob → ℕ → Run
  chunks_or_return buffered s job i =
      if ltb i (compute_chunk_count (length job.file))
      then next_chunk buffered s job i
      else run (release s job.transfer_id) (file_sent job.transfer_id ∷ [])

  -- `sendFile` up to the digest. A transfer that was not reserved throws before the `try`.
  unfoldable pub send_file : Sender → FileJob → Run
  send_file s job =
      if not (Map.has job.transfer_id s.active_transfers)
      then run s (threw (thrown_code unknown_transfer) ∷ [])
      else if s.tearing_down
      then release_and_throw s job (thrown_code tearing_down)
      else if ltb max_incomplete_transfer_bytes (length job.file)
      then release_and_throw s job (thrown_code size_exceeded)
      else run (suspend s (hashing job)) []

  abbrev pub of_manifest : Result FramingErrorCode (List ℕ) → Called (List ℕ)
  of_manifest (ok plaintext) = ok plaintext
  of_manifest (err code) = err (thrown_code code)

  abbrev pub manifest_for : FileJob → FileManifest
  manifest_for job = record {
    transfer_id = job.transfer_id;
    name = job.name;
    mime_type = job.mime_type;
    size = length job.file;
    chunk_count = compute_chunk_count (length job.file);
    content_hash = config.sha256 job.file;
  }

  -- From the digest to the encryption of the manifest. The id is marked before the manifest is encoded.
  unfoldable pub send_manifest : Sender → FileJob → Run
  send_manifest s job =
      let marked = record s {
        manifest_sent_transfers = Map.set job.transfer_id tt s.manifest_sent_transfers;
      } in
      elim (assert_not_cancelled s job.transfer_id) [
        | err thrown ↦ fail_file s job thrown
        | ok _ ↦ or_fail marked job do
          plaintext ← of_manifest (encode_manifest config.encode_text (manifest_for job))
          send_encrypted_frame marked file_manifest plaintext job.transfer_id 0 (manifest_of job)
      ]
