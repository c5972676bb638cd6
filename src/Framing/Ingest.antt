-- ===== src/Framing/Ingest.antt =====
-- framing/receiver.ts: what `ingest` does with the bytes of a frame before and around the handlers of transfers.
-- `ingest` chains its calls, so one frame is decrypted at a time; the decryption starts with the key that the
-- receiver has then, and its result is held until the call goes on.
pub mod Runs
pub mod Sealed
pub mod Stream
pub mod Silence
mod Tests
use fuck_chat_control.Base.{
  ℕ, Bool, true, false, not, Option, none, some, List, [], ◌∷◌, ◌++◌, if◌then◌else◌, ◌==◌, length,
  replicate, map, Str, str_beq,
}
use fuck_chat_control.Base.Result.{Result, ok, err, ◌>>=◌, ◌>>◌, require}
use fuck_chat_control.Protocol.Types.{
  FrameType, text, file_manifest, file_chunk, control, media_manifest, media_chunk, FrameAad,
}
use fuck_chat_control.Protocol.Control.{
  is_allowed_subtype, transfer_cancel, decode_transfer_cancel_payload,
}
use fuck_chat_control.Crypto.ReplayWindow.{ReplayWindow}
use fuck_chat_control.Crypto.Aead.{Cipher, AeadFailure, decrypt_frame}
use fuck_chat_control.Crypto.Aead as Aead
use fuck_chat_control.Framing.Errors.{
  FramingErrorCode, malformed, wrong_session, unknown_control_subtype, Failure, framing, protocol,
  Framed, passed_on,
}
use fuck_chat_control.Framing.Wire.{WireFrame, decode_wire_frame}
use fuck_chat_control.Framing.Receiver.{
  Receiver, Outcome, new_receiver, handle_manifest, handle_chunk, cancel_transfer, teardown,
}
use fuck_chat_control.Framing.Receiver as Receiver
use fuck_chat_control.Framing.Manifest.{decode_manifest}

-- What a receiver is configured with, and what it calls: WebCrypto and `TextDecoder`.
pub record Config : Type 0 where
  pub cipher : Cipher
  pub decode_text : List ℕ → Str
  pub peer_session_id : List ℕ
  pub group_link : Bool

-- A frame whose decryption is awaited.
pub record Decryption : Type 0 where
  pub aad : FrameAad
  pub result : Result AeadFailure (ReplayWindow × List ℕ)

pub record Link : Type 0 where
  pub receiver : Receiver
  pub window : ReplayWindow
  pub recv_key : List ℕ
  pub decrypting : Option Decryption

abbrev pub new_link : List ℕ → ReplayWindow → Link
new_link key window = record {
  receiver = new_receiver;
  window = window;
  recv_key = key;
  decrypting = none;
}

-- The callbacks. A callback that throws is reported by `onError` and stops nothing.
pub data Delivery : Type 0 where
  on_text : List ℕ → Delivery
  on_control : ℕ → List ℕ → Delivery
  of_transfer : Receiver.Event → Delivery

-- What a piece of a call leaves: the link, the callbacks, and the error that the call rejects with.
pub record Ingested : Type 0 where
  pub link : Link
  pub deliveries : List Delivery
  pub thrown : Option Failure

abbrev pub quiet : Link → Ingested
quiet l = record { link = l; deliveries = []; thrown = none }

abbrev pub rejecting : Link → Failure → Ingested
rejecting l e = record { link = l; deliveries = []; thrown = some e }

abbrev pub delivering : Link → Delivery → Ingested
delivering l d = record { link = l; deliveries = d ∷ []; thrown = none }

abbrev pub thrown_code : Option FramingErrorCode → Option Failure
thrown_code none = none
thrown_code (some code) = some (framing code)

abbrev pub of_outcome : Link → Outcome → Ingested
of_outcome l o = record {
  link = record l { receiver = o.receiver };
  deliveries = map of_transfer o.events;
  thrown = thrown_code o.thrown;
}

-- A `CryptoError` becomes `Malformed`; a `ProtocolError` is passed on.
abbrev pub decrypt_failure : AeadFailure → Failure
decrypt_failure (Aead.crypto e) = framing malformed
decrypt_failure (Aead.protocol e) = protocol e

module _ (config : Config) where
  -- `_ingestSerialized` up to the `await`.
  abbrev pub open_frame : Link → List ℕ → Framed Decryption
  open_frame l bytes = do
    frame ← decode_wire_frame bytes
    require (str_beq frame.aad.sender_session_id config.peer_session_id) (framing wrong_session)
    ok (record {
      aad = frame.aad;
      result =
          decrypt_frame config.cipher l.recv_key l.window frame.aad frame.nonce frame.ciphertext;
    })

  abbrev pub awaiting : Link → Framed Decryption → Ingested
  awaiting l (ok d) = quiet (record l { decrypting = some d })
  awaiting l (err e) = rejecting l e

  unfoldable pub begin_ingest : Link → List ℕ → Ingested
  begin_ingest l bytes = if l.receiver.torn_down then quiet l else awaiting l (open_frame l bytes)

  abbrev pub cancel_named : Link → Framed ℕ → Ingested
  cancel_named l (ok id) = quiet (record l { receiver = (cancel_transfer l.receiver id).0 })
  cancel_named l (err e) = rejecting l e

  unfoldable pub handle_control : Link → List ℕ → Ingested
  handle_control l [] = rejecting l (framing malformed)
  handle_control l (subtype ∷ payload) =
      if not (is_allowed_subtype config.group_link subtype)
      then rejecting l (framing unknown_control_subtype)
      else if subtype == transfer_cancel
      then cancel_named l (passed_on (decode_transfer_cancel_payload payload))
      else delivering l (on_control subtype payload)

  abbrev pub admit : Link → ℕ → ℕ → Result FramingErrorCode Receiver.FileManifest → Ingested
  admit l now id (ok m) = of_outcome l (handle_manifest l.receiver id m now)
  admit l now id (err code) = rejecting l (framing code)

  -- The `switch` over the type of a frame.
  abbrev pub dispatch : Link → ℕ → FrameAad → FrameType → List ℕ → Ingested
  dispatch l now aad text plaintext = delivering l (on_text plaintext)
  dispatch l now aad control plaintext = handle_control l plaintext
  dispatch l now aad file_manifest plaintext =
      admit l now aad.transfer_id (decode_manifest config.decode_text plaintext aad.transfer_id)
  dispatch l now aad file_chunk plaintext =
      of_outcome l (handle_chunk l.receiver aad.transfer_id aad.chunk_id plaintext now)
  dispatch l now aad media_manifest plaintext = rejecting l (framing malformed)
  dispatch l now aad media_chunk plaintext = rejecting l (framing malformed)

  -- `_ingestSerialized` from the `await` on, at the time `now`; `l` awaits nothing any more.
  unfoldable pub end_ingest : Link → ℕ → Decryption → Ingested
  end_ingest l now d = elim d.result [
    | err e ↦ rejecting l (decrypt_failure e)
    | ok (window, plaintext) ↦
        let moved = record l { window = window } in
        if l.receiver.torn_down
        then quiet moved
        else dispatch moved now d.aad d.aad.frame_type plaintext
  ]

-- `teardown` also overwrites the key with zeros.
unfoldable pub teardown_link : Link → Link
teardown_link l = record l {
  receiver = teardown l.receiver;
  recv_key = replicate (length l.recv_key) 0;
}
