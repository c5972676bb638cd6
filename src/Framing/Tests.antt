-- ===== src/Framing/Tests.antt =====
-- Frames, chunks and a receiver on concrete inputs.
use fuck_chat_control.Base.{
  ℕ, ◌≡◌, refl, true, false, none, some, List, [], ◌∷◌, ◌++◌, length, replicate, str,
}
use fuck_chat_control.Base.Result.{ok}
use fuck_chat_control.Protocol.Types.{FrameHeader, file_chunk}
use fuck_chat_control.Protocol.Bytes.{are_bytes-Bytes}
use fuck_chat_control.Protocol.Codec.{encode_frame_header, decode_frame_header}
use fuck_chat_control.Protocol.Codec.Header.{header_layout}
use fuck_chat_control.Framing.Wire.{WireFrame, encode_wire_frame, decode_wire_frame}
use fuck_chat_control.Framing.Wire.RoundTrip.{
  decode_wire_frame-encode_wire_frame, encode_wire_frame-decode_wire_frame,
}
use fuck_chat_control.Framing.Receiver.{
  FileManifest, Receiver, Completion, Event, admitted, with_chunk, file_complete, new_receiver,
  handle_manifest, handle_chunk, resume, teardown,
}
use fuck_chat_control.Framing.Manifest.{encode_manifest, decode_manifest}
use fuck_chat_control.Framing.Manifest.RoundTrip.{decode_manifest-encode_manifest}
use fuck_chat_control.Framing.Receiver.Steps.{Reaches, done, after, manifest, chunk, digest}
use fuck_chat_control.Framing.Receiver.Accounting.{IsAccounted}
use fuck_chat_control.Framing.Receiver.Runs.{reaches-IsAccounted}

abbrev header : FrameHeader
header = record {
  aad = record {
    protocol_version = 1;
    sender_session_id = replicate 32 5;
    sender_sequence = 9;
    frame_type = file_chunk;
    transfer_id = 1000000;
    chunk_id = 2;
  };
  ciphertext_length = 3;
}

abbrev nonce : List ℕ
nonce = replicate 12 77

abbrev ciphertext : List ℕ
ciphertext = 1 ∷ 2 ∷ 3 ∷ []

abbrev frame : WireFrame
frame = record { aad = header.aad; ciphertext_length = 3; nonce = nonce; ciphertext = ciphertext }

abbrev frame_bytes : List ℕ
frame_bytes = (header_layout header ++ nonce) ++ ciphertext

frame-is_encoded : encode_wire_frame header nonce ciphertext ≡ ok frame_bytes
unfolding encode_wire_frame encode_frame_header
frame-is_encoded = refl

frame-is_decoded : decode_wire_frame frame_bytes ≡ ok frame
unfolding decode_wire_frame decode_frame_header
frame-is_decoded = refl

decode_wire_frame-encode_wire_frame_example : decode_wire_frame frame_bytes ≡ ok frame
decode_wire_frame-encode_wire_frame_example =
    decode_wire_frame-encode_wire_frame header nonce ciphertext frame_bytes refl frame-is_encoded

encode_wire_frame-decode_wire_frame_example :
    (encode_wire_frame header nonce ciphertext ≡ ok frame_bytes) × (3 ≡ length ciphertext)
encode_wire_frame-decode_wire_frame_example =
    encode_wire_frame-decode_wire_frame frame_bytes frame (are_bytes-Bytes frame_bytes refl)
      frame-is_decoded

-- A stand-in for the digest.
abbrev digest_of : List ℕ → List ℕ
digest_of xs = length xs ∷ []

abbrev two_bytes : FileManifest
two_bytes = record {
  transfer_id = 7;
  name = str "a";
  mime_type = str "b";
  size = 2;
  chunk_count = 1;
  content_hash = 2 ∷ [];
}

abbrev promised : Receiver
promised = (handle_manifest new_receiver 7 two_bytes 0).receiver

abbrev stored : Receiver
stored = (handle_chunk promised 7 0 (8 ∷ 9 ∷ []) 1).receiver

abbrev waiting : Completion
waiting = record {
  transfer_id = 7;
  transfer = with_chunk (admitted two_bytes 0) 0 (8 ∷ 9 ∷ []) 1;
  reassembled = 8 ∷ 9 ∷ [];
}

abbrev finished : Receiver
finished = (resume digest_of stored waiting).receiver

-- The file is handed over when its only chunk and its digest are there.
abbrev events_of_run : List Event
events_of_run =
    (handle_manifest new_receiver 7 two_bytes 0).events
    ++ ((handle_chunk promised 7 0 (8 ∷ 9 ∷ []) 1).events
        ++ ((resume digest_of stored waiting).events ++ []))

events-of_run : events_of_run ≡ file_complete two_bytes (8 ∷ 9 ∷ []) ∷ []
unfolding handle_manifest handle_chunk resume
events-of_run = refl

promised-quiet : (promised.completing ≡ none) × (promised.torn_down ≡ false)
unfolding handle_manifest
promised-quiet = (refl, refl)

stored-waits : stored.completing ≡ some waiting
unfolding handle_manifest handle_chunk
stored-waits = refl

run_of_file : Reaches digest_of 120000 new_receiver events_of_run finished
run_of_file = after (manifest new_receiver 7 two_bytes 0 refl refl) (
    after (chunk promised 7 0 (8 ∷ 9 ∷ []) 1 promised-quiet.0 promised-quiet.1)
      (after (digest stored waiting stored-waits) (done finished)))

reaches-IsAccounted_example : IsAccounted finished
reaches-IsAccounted_example = reaches-IsAccounted digest_of 120000 run_of_file

promised-reached :
    Reaches digest_of 120000 new_receiver
      ((handle_manifest new_receiver 7 two_bytes 0).events ++ [])
      promised
promised-reached = after (manifest new_receiver 7 two_bytes 0 refl refl) (done promised)

-- A digest that comes in after the teardown.
abbrev torn : Receiver
torn = teardown stored

abbrev late : Completion
late = record waiting { transfer = record waiting.transfer { dropped = true } }

torn-waits : (torn.torn_down ≡ true) × (torn.completing ≡ some late)
unfolding handle_manifest handle_chunk teardown
torn-waits = (refl, refl)

-- Two chunks, with text that is its own encoding.
abbrev two_chunks : FileManifest
two_chunks = record {
  transfer_id = 1000000;
  name = str "cat.png";
  mime_type = str "image/png";
  size = 20000;
  chunk_count = 2;
  content_hash = replicate 32 171;
}

abbrev two_chunks_bytes : List ℕ
two_chunks_bytes =
    0 ∷ 15 ∷ 66 ∷ 64 ∷ 7 ∷ (str "cat.png" ++ 9 ∷ [])
    ++ str "image/png"
    ++ (0 ∷ 0 ∷ 78 ∷ 32 ∷ 0 ∷ 0 ∷ 0 ∷ 2 ∷ replicate 32 171)

two_chunks-is_encoded : encode_manifest (λ s. s) two_chunks ≡ ok two_chunks_bytes
unfolding encode_manifest
two_chunks-is_encoded = refl

decode_manifest-encode_manifest_example :
    decode_manifest (λ b. b) two_chunks_bytes 1000000 ≡ ok two_chunks
decode_manifest-encode_manifest_example =
    decode_manifest-encode_manifest (λ s. s) (λ b. b) two_chunks two_chunks_bytes refl refl
      two_chunks-is_encoded
