-- ===== src/Protocol/Tests.antt =====
-- The codec on concrete headers and keys.
use fuck_chat_control.Base.{true, ℕ, ◌≡◌, refl, ◌⊎◌, List, [], ◌∷◌, replicate}
use fuck_chat_control.Base.Result.{ok, err}
use fuck_chat_control.Protocol.Keys.{encode_public_key}
use fuck_chat_control.Protocol.Transcript.{
  pake, Transcript, transcript_layout, encode_transcript, decode_transcript,
}
use fuck_chat_control.Protocol.Transcript.RoundTrip.{
  encode_transcript_injective, decode_transcript-encode_transcript,
}
use fuck_chat_control.Protocol.Types.{FrameHeader, file_chunk, Role, role_indeterminable}
use fuck_chat_control.Protocol.Codec.{encode_frame_header, decode_frame_header, derive_role}
use fuck_chat_control.Protocol.Codec.Header.{header_layout}
use fuck_chat_control.Protocol.Nonce.{derive_nonce}
use fuck_chat_control.Protocol.Codec.Roles.{other_role, derive_role-IsOpposite}

-- A chunk's header, with numbers in every byte of a field.
abbrev pub chunk_header : FrameHeader
chunk_header = record {
  aad = record {
    protocol_version = 1;
    sender_session_id = replicate 32 200;
    sender_sequence = 4294967295;
    frame_type = file_chunk;
    transfer_id = 1000000;
    chunk_id = 66051;
  };
  ciphertext_length = 3;
}

chunk_header-is_encoded : encode_frame_header chunk_header ≡ ok (header_layout chunk_header)
unfolding encode_frame_header
chunk_header-is_encoded = refl

chunk_header-is_decoded : decode_frame_header (header_layout chunk_header) ≡ ok chunk_header
unfolding decode_frame_header
chunk_header-is_decoded = refl

abbrev pub key_a : List ℕ
key_a = 4 ∷ 17 ∷ replicate 63 1

abbrev pub key_b : List ℕ
key_b = 4 ∷ 18 ∷ replicate 63 0

derive_role-IsOpposite_example :
    ((key_a ≡ key_b)
      × (derive_role key_a key_b ≡ err role_indeterminable)
      × (derive_role key_b key_a ≡ err role_indeterminable))
    ⊎ ((r : Role) × (derive_role key_a key_b ≡ ok r)
        × (derive_role key_b key_a ≡ ok (other_role r)))
derive_role-IsOpposite_example = derive_role-IsOpposite key_a key_b refl refl

abbrev session : List ℕ
session = replicate 32 200

-- The last four of the twelve bytes carry the sequence number.
abbrev nonce_of_session : List ℕ
nonce_of_session = 200 ∷ 200 ∷ 200 ∷ 200 ∷ 200 ∷ 200 ∷ 200 ∷ 200 ∷ 200 ∷ 201 ∷ 202 ∷ 203 ∷ []

session-derives : derive_nonce session 66051 ≡ ok nonce_of_session
unfolding derive_nonce
session-derives = refl

abbrev transcript : Transcript
transcript = record {
  transcript_version = 1;
  protocol_version = 1;
  conversation_id = replicate 16 171;
  auth_mode = pake;
  initiator_identity_key = key_a;
  responder_identity_key = key_b;
  initiator_ephemeral_key = 4 ∷ replicate 64 3;
  responder_ephemeral_key = 4 ∷ replicate 64 4;
  initiator_session_id = replicate 32 200;
  responder_session_id = replicate 32 201;
}

transcript-is_encoded : encode_transcript transcript ≡ ok (transcript_layout transcript)
unfolding encode_transcript
transcript-is_encoded = refl

decode_transcript-encode_transcript_example :
    decode_transcript (λ key. true) (transcript_layout transcript) ≡ ok transcript
unfolding encode_public_key
decode_transcript-encode_transcript_example =
    decode_transcript-encode_transcript (λ key. true) transcript
      (record {
        initiator_key = refl;
        responder_key = refl;
        initiator_ephemeral = refl;
        responder_ephemeral = refl;
      })
      transcript-is_encoded

encode_transcript_injective_example : transcript ≡ transcript
encode_transcript_injective_example =
    encode_transcript_injective transcript transcript transcript-is_encoded transcript-is_encoded
