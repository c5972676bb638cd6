-- ===== src/Framing/Ingest/Tests.antt =====
-- `ingest` on concrete inputs.
use fuck_chat_control.Base.{
  str_beq, nat_eq, ℕ, ◌-◌, ◌≡◌, refl, arith, false, none, some, List, [], ◌∷◌, ◌++◌, length,
  replicate, str,
}
use fuck_chat_control.Base.Map as Map
use fuck_chat_control.Base.Result.{ok}
use fuck_chat_control.Protocol.Types.{text, file_manifest, file_chunk}
use fuck_chat_control.Protocol.Bytes.{uint32_be}
use fuck_chat_control.Protocol.Codec.{
  encode_frame_header, decode_frame_header, decode_aad, encode_aad,
}
use fuck_chat_control.Protocol.Control.{encode_transfer_cancel_payload}
use fuck_chat_control.Crypto.ReplayWindow.{ReplayWindow, observe, shift, clear, advance_by}
use fuck_chat_control.Crypto.Aead.{Cipher, EncryptedFrame, encrypt_frame, decrypt_frame}
use fuck_chat_control.Framing.Wire.{encode_wire_frame, decode_wire_frame}
use fuck_chat_control.Framing.Manifest.{decode_manifest}
use fuck_chat_control.Framing.Chunks.{chunks_from, compute_chunk_count}
use fuck_chat_control.Framing.Receiver.{
  Completion, file_complete, resume, handle_chunk, complete_transfer, drop_transfer, FileManifest,
  new_receiver, handle_manifest, teardown,
}
use fuck_chat_control.Framing.Receiver.Accounting.{IsAccounted}
use fuck_chat_control.Framing.Receiver.Runs.{AllGenuine}
use fuck_chat_control.Framing.Receiver.Delivery.{after_chunks}
use fuck_chat_control.Framing.Receiver.Whole.{Delivers, file-Delivers}
use fuck_chat_control.Framing.Sender.Calls as Sender
use fuck_chat_control.Framing.Sender.Calls.{frame_aad}
use fuck_chat_control.Framing.Sender.Steps.{seal_wire}
use fuck_chat_control.Framing.Ingest.{
  Delivery, of_transfer, of_outcome, Config, Link, Decryption, Ingested, new_link, on_text,
  begin_ingest, end_ingest, teardown_link,
}
use fuck_chat_control.Framing.Ingest.Silence.{teardown_link-silent}
use fuck_chat_control.Framing.Ingest.Runs.{
  digested, LinkReaches, start, then_step, frame, decrypted, transfer_events, ingest-AllGenuine,
}
use fuck_chat_control.Framing.Ingest.Stream.{Texts, no_text, one_text, ingest_all, ingest_all-Texts}

-- A stand-in for the cipher, which seals with nothing.
abbrev cipher : Cipher
cipher = record {
  seal = λ key nonce aad plaintext. plaintext;
  unseal = λ key nonce aad sealed. some sealed;
}

abbrev config : Config
config = record {
  cipher = cipher;
  decode_text = λ s. s;
  peer_session_id = replicate 32 7;
  group_link = false;
}

abbrev sending : Sender.Config
sending = record {
  cipher = cipher;
  sha256 = λ xs. xs;
  encode_text = λ s. s;
  local_session_id = replicate 32 7;
  group_link = false;
}

abbrev key : List ℕ
key = replicate 32 1

abbrev window : ReplayWindow
window = record { size = 4; highest = none; slots = replicate 4 0 }

abbrev hello : List ℕ
hello = 104 ∷ 105 ∷ []

abbrev sealed_hello : EncryptedFrame
sealed_hello = record { ciphertext = hello; nonce = replicate 12 7 }

hello-is_sealed : encrypt_frame cipher key (frame_aad sending 0 text 0 0) hello ≡ ok sealed_hello
unfolding encrypt_frame
hello-is_sealed = refl

abbrev wire_bytes : List ℕ
wire_bytes =
    (1 ∷ replicate 32 7)
    ++ (replicate 4 0 ++ (1 ∷ (replicate 8 0 ++ (0 ∷ 0 ∷ 0 ∷ 2 ∷ (replicate 12 7 ++ hello)))))

hello-is_written :
    seal_wire sending (frame_aad sending 0 text 0 0) (ok sealed_hello) ≡ ok wire_bytes
unfolding encode_wire_frame encode_frame_header
hello-is_written = refl

hello_alone : Texts sending config key 0 (hello ∷ []) (wire_bytes ∷ [])
hello_alone = one_text hello wire_bytes sealed_hello hello-is_sealed hello-is_written no_text

ingest_all-Texts_example :
    ingest_all sending config key 5 (new_link key window) (wire_bytes ∷ []) ≡ on_text hello ∷ []
ingest_all-Texts_example =
    ingest_all-Texts sending config key (λ k n a p. refl) refl 5 0 (hello ∷ []) (wire_bytes ∷ [])
      (new_link key window) hello_alone refl refl tt

abbrev digest_of : List ℕ → List ℕ
digest_of xs = length xs ∷ []

-- A file of two bytes: its manifest, its one chunk and its digest.
-- The nonce ends in 7 and the sequence number, added by `xor`: 7 for 0 and 6 for 1.
abbrev wire_of : ℕ → ℕ → ℕ → List ℕ → List ℕ
wire_of code sequence transfer plaintext =
    (1 ∷ replicate 32 7)
    ++ (uint32_be sequence
        ++ (code
            ∷ (uint32_be transfer
                ++ (replicate 4 0
                    ++ (uint32_be (length plaintext)
                        ++ (replicate 11 7 ++ ((7 - sequence) ∷ plaintext)))))))

abbrev long_digest : List ℕ → List ℕ
long_digest xs = replicate 32 (length xs)

abbrev manifest_bytes : List ℕ
manifest_bytes =
    uint32_be 7 ++ (1 ∷ 97 ∷ 1 ∷ 98 ∷ (uint32_be 2 ++ (uint32_be 1 ++ long_digest hello)))

abbrev fresh_link : Link
fresh_link = new_link key window

abbrev manifest_in : Ingested
manifest_in = begin_ingest config fresh_link (wire_of 2 0 7 manifest_bytes)

abbrev manifest_waits : Decryption
manifest_waits = record {
  aad = frame_aad sending 0 file_manifest 7 0;
  result = ok (record { size = 4; highest = some 0; slots = 1 ∷ 0 ∷ 0 ∷ 0 ∷ [] }, manifest_bytes);
}

abbrev manifest_done : Ingested
manifest_done = end_ingest config (record manifest_in.link { decrypting = none }) 5 manifest_waits

abbrev chunk_in : Ingested
chunk_in = begin_ingest config manifest_done.link (wire_of 3 1 7 hello)

abbrev chunk_waits : Decryption
chunk_waits = record {
  aad = frame_aad sending 1 file_chunk 7 0;
  result = ok (record { size = 4; highest = some 1; slots = 1 ∷ 1 ∷ 0 ∷ 0 ∷ [] }, hello);
}

abbrev chunk_done : Ingested
chunk_done = end_ingest config (record chunk_in.link { decrypting = none }) 6 chunk_waits

abbrev file_waits : Completion
file_waits = record {
  transfer_id = 7;
  transfer = record {
    manifest = record {
      transfer_id = 7;
      name = str "a";
      mime_type = str "b";
      size = 2;
      chunk_count = 1;
      content_hash = long_digest hello;
    };
    chunks = some hello ∷ [];
    received_count = 1;
    received_bytes = 2;
    last_activity = 6;
    dropped = false;
  };
  reassembled = hello;
}

abbrev file_done : Ingested
file_done = of_outcome chunk_done.link (resume long_digest chunk_done.link.receiver file_waits)

abbrev file_deliveries : List Delivery
file_deliveries =
    manifest_in.deliveries
    ++ (manifest_done.deliveries
        ++ (chunk_in.deliveries ++ (chunk_done.deliveries ++ (file_done.deliveries ++ []))))

file-is_delivered :
    file_deliveries ≡ of_transfer (file_complete file_waits.transfer.manifest hello) ∷ []
unfolding begin_ingest end_ingest decode_wire_frame decode_frame_header decode_aad decrypt_frame
    observe shift clear advance_by decode_manifest handle_manifest handle_chunk complete_transfer
    resume drop_transfer encode_aad str_beq Map.get Map.set Map.has Map.delete
file-is_delivered = refl

one_file : LinkReaches config long_digest 100 fresh_link file_deliveries file_done.link
unfolding begin_ingest end_ingest decode_wire_frame decode_frame_header decode_aad decrypt_frame
    observe shift clear advance_by decode_manifest handle_manifest handle_chunk complete_transfer
    encode_aad str_beq Map.get Map.set Map.has Map.delete
one_file = then_step (frame fresh_link (wire_of 2 0 7 manifest_bytes) refl refl) (
    then_step (decrypted manifest_in.link manifest_waits 5 refl refl) (
      then_step (frame manifest_done.link (wire_of 3 1 7 hello) refl refl) (
        then_step (decrypted chunk_in.link chunk_waits 6 refl refl)
          (then_step (digested chunk_done.link file_waits refl) (start file_done.link)))))

ingest-AllGenuine_example :
    AllGenuine long_digest 100 (transfer_events config long_digest 100 file_deliveries)
    × IsAccounted file_done.link.receiver
ingest-AllGenuine_example = ingest-AllGenuine config long_digest 100 key window one_file

-- A text whose decryption has begun, with a window that accepts it.
abbrev hello_waits : Decryption
hello_waits = record { aad = frame_aad sending 0 text 0 0; result = ok (window, hello) }

abbrev waiting_link : Link
waiting_link = record (new_link key window) { decrypting = some hello_waits }

-- Torn down, the link goes on with the decryption.
abbrev after_teardown : Ingested
after_teardown =
    end_ingest config (record (teardown_link waiting_link) { decrypting = none }) 5 hello_waits

late_decryption :
    LinkReaches config digest_of 100
      (teardown_link waiting_link)
      (after_teardown.deliveries ++ [])
      after_teardown.link
unfolding teardown_link teardown
late_decryption =
    then_step (decrypted (teardown_link waiting_link) hello_waits 5 refl refl)
      (start after_teardown.link)

teardown_link-silent_example : after_teardown.deliveries ++ [] ≡ []
teardown_link-silent_example =
    teardown_link-silent config digest_of 100 waiting_link late_decryption

abbrev two_bytes : FileManifest
two_bytes = record {
  transfer_id = 7;
  name = str "a";
  mime_type = str "b";
  size = 2;
  chunk_count = 1;
  content_hash = 2 ∷ [];
}

nothing_there : Map.get 7 new_receiver.transfers ≡ none
unfolding Map.get
nothing_there = refl

file-Delivers_example : Delivers two_bytes new_receiver digest_of hello (
    after_chunks
      (λ i. i)
      (handle_manifest new_receiver 7 two_bytes 0).receiver
      7
      0
      (chunks_from hello (length hello) 0 (compute_chunk_count (length hello))))
file-Delivers_example =
    file-Delivers two_bytes new_receiver digest_of (λ i. i) hello 0
      (record { absent = nothing_there; up = refl; room = omega arith; budget = omega arith })
      (record { size = refl; count = refl; digest = refl })

cancel_payload-is_encoded : encode_transfer_cancel_payload 1000000 ≡ ok (0 ∷ 15 ∷ 66 ∷ 64 ∷ [])
unfolding encode_transfer_cancel_payload
cancel_payload-is_encoded = refl
