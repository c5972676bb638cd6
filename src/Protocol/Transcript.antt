-- ===== src/Protocol/Transcript.antt =====
-- protocol/codec.ts: the transcript of a handshake, which both sides sign. The array that the code fills from its
-- front to its end is the concatenation of the parts.
pub mod Layout
pub mod RoundTrip
use fuck_chat_control.Base.{
  ℕ, Bool, Option, none, some, List, [], ◌∷◌, ◌++◌, if◌then◌else◌, ◌==◌, get_or,
}
use fuck_chat_control.Base.Result.{Result, ok, err, ◌>>=◌, ◌>>◌, require}
use fuck_chat_control.Protocol.Limits.{
  transcript_version, conversation_id_bytes, session_id_bytes, public_key_bytes,
}
use fuck_chat_control.Protocol.Types.{invalid_version, invalid_enum}
use fuck_chat_control.Protocol.Bytes.{subarray}
use fuck_chat_control.Protocol.Codec.{
  Checked, assert_exact_length, assert_protocol_version, encode_session_id,
}
use fuck_chat_control.Protocol.Keys.{encode_public_key}

abbrev pub transcript_bytes : ℕ
transcript_bytes = 343

pub data AuthMode : Type 0 where
  safety_number_only pake : AuthMode

abbrev pub auth_mode_code : AuthMode → ℕ
auth_mode_code safety_number_only = 0x01
auth_mode_code pake = 0x02

-- `assertAuthMode`, with the member that the number stands for.
abbrev pub assert_auth_mode : ℕ → Checked AuthMode
assert_auth_mode value =
    if value == 1 then ok safety_number_only else if value == 2 then ok pake else err invalid_enum

pub record Transcript : Type 0 where
  pub transcript_version : ℕ
  pub protocol_version : ℕ
  pub conversation_id : List ℕ
  pub auth_mode : AuthMode
  pub initiator_identity_key : List ℕ
  pub responder_identity_key : List ℕ
  pub initiator_ephemeral_key : List ℕ
  pub responder_ephemeral_key : List ℕ
  pub initiator_session_id : List ℕ
  pub responder_session_id : List ℕ

abbrev pub transcript_layout : Transcript → List ℕ
transcript_layout t =
    t.transcript_version
    ∷ t.protocol_version
    ∷ (t.conversation_id
        ++ (auth_mode_code t.auth_mode
            ∷ (t.initiator_identity_key
                ++ (t.responder_identity_key
                    ++ (t.initiator_ephemeral_key
                        ++ (t.responder_ephemeral_key
                            ++ (t.initiator_session_id ++ t.responder_session_id)))))))

-- The mode needs no check: it is an enum's member.
unfoldable pub encode_transcript : Transcript → Checked (List ℕ)
encode_transcript t = do
  require (t.transcript_version == transcript_version) invalid_version
  assert_protocol_version t.protocol_version
  assert_exact_length t.conversation_id conversation_id_bytes
  assert_exact_length t.initiator_identity_key public_key_bytes
  assert_exact_length t.responder_identity_key public_key_bytes
  assert_exact_length t.initiator_ephemeral_key public_key_bytes
  assert_exact_length t.responder_ephemeral_key public_key_bytes
  assert_exact_length t.initiator_session_id session_id_bytes
  assert_exact_length t.responder_session_id session_id_bytes
  ok (transcript_layout t)

abbrev pub encode_conversation_id : List ℕ → Checked (List ℕ)
encode_conversation_id input = assert_exact_length input conversation_id_bytes >> ok input

unfoldable pub decode_transcript : (List ℕ → Bool) → List ℕ → Checked Transcript
decode_transcript is_point bytes = do
  assert_exact_length bytes transcript_bytes
  let version = get_or bytes 0 0
  require (version == transcript_version) invalid_version
  let protocol = get_or bytes 1 0
  assert_protocol_version protocol
  conversation ← encode_conversation_id (subarray bytes 2 18)
  mode ← assert_auth_mode (get_or bytes 18 0)
  initiator_key ← encode_public_key is_point (subarray bytes 19 84)
  responder_key ← encode_public_key is_point (subarray bytes 84 149)
  initiator_ephemeral ← encode_public_key is_point (subarray bytes 149 214)
  responder_ephemeral ← encode_public_key is_point (subarray bytes 214 279)
  initiator_session ← encode_session_id (subarray bytes 279 311)
  responder_session ← encode_session_id (subarray bytes 311 343)
  ok (record {
    transcript_version = version;
    protocol_version = protocol;
    conversation_id = conversation;
    auth_mode = mode;
    initiator_identity_key = initiator_key;
    responder_identity_key = responder_key;
    initiator_ephemeral_key = initiator_ephemeral;
    responder_ephemeral_key = responder_ephemeral;
    initiator_session_id = initiator_session;
    responder_session_id = responder_session;
  })
