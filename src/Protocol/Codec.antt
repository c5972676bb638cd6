-- ===== src/Protocol/Codec.antt =====
-- protocol/codec.ts: the additional data and the header of a frame, nonces and roles.
pub mod Aad
pub mod Header
pub mod Roles
use fuck_chat_control.Base.{
  ℕ, zero, suc, ◌+◌, ◌-◌, Bool, true, false, ◌&&◌, not, Option, none, some, List, [], ◌∷◌,
  if◌then◌else◌, ltb, leb, ◌==◌, length, get_or, set, take, replicate,
}
use fuck_chat_control.Base.Result.{Result, ok, err, ◌>>=◌, ◌>>◌, require}
use fuck_chat_control.Protocol.Limits.{
  protocol_version, session_id_bytes, public_key_bytes, uint32_max, max_chunk_bytes,
  max_text_frame_bytes, frame_aad_bytes, frame_header_bytes,
}
use fuck_chat_control.Protocol.Types.{
  FrameType, text, file_manifest, file_chunk, control, media_manifest, media_chunk, frame_type_code,
  frame_type_of, FrameAad, FrameHeader, Role, initiator, responder, ProtocolErrorCode,
  invalid_length, invalid_range, invalid_version, invalid_enum, invalid_field_relation,
  limit_exceeded, role_indeterminable,
}
use fuck_chat_control.Protocol.Bytes.{put, subarray, write_uint32_be, read_uint32_be}

abbrev pub Checked : Type 0 → Type 0
Checked A = Result ProtocolErrorCode A

abbrev pub assert_exact_length : List ℕ → ℕ → Checked (Unit {0})
assert_exact_length bytes expected = require (length bytes == expected) invalid_length

abbrev pub assert_uint32 : ℕ → Checked (Unit {0})
assert_uint32 value = require (leb value uint32_max) invalid_range

abbrev pub ciphertext_cap_for_frame_type : FrameType → ℕ
ciphertext_cap_for_frame_type file_chunk = max_chunk_bytes
ciphertext_cap_for_frame_type media_chunk = max_chunk_bytes
ciphertext_cap_for_frame_type text = max_text_frame_bytes
ciphertext_cap_for_frame_type file_manifest = max_text_frame_bytes
ciphertext_cap_for_frame_type media_manifest = max_text_frame_bytes
ciphertext_cap_for_frame_type control = max_text_frame_bytes

abbrev pub assert_frame_field_relations : FrameType → ℕ → ℕ → Checked (Unit {0})
assert_frame_field_relations text transfer chunk =
    require (transfer == 0 && chunk == 0) invalid_field_relation
assert_frame_field_relations control transfer chunk =
    require (transfer == 0 && chunk == 0) invalid_field_relation
assert_frame_field_relations file_manifest transfer chunk =
    require (chunk == 0) invalid_field_relation
    >> require (not (transfer == 0)) invalid_field_relation
assert_frame_field_relations media_manifest transfer chunk =
    require (chunk == 0) invalid_field_relation
    >> require (not (transfer == 0)) invalid_field_relation
assert_frame_field_relations file_chunk transfer chunk =
    require (not (transfer == 0)) invalid_field_relation
assert_frame_field_relations media_chunk transfer chunk =
    require (not (transfer == 0)) invalid_field_relation

abbrev pub assert_protocol_version : ℕ → Checked (Unit {0})
assert_protocol_version value = require (value == protocol_version) invalid_version

abbrev pub known_type : Option FrameType → Checked FrameType
known_type none = err invalid_enum
known_type (some t) = ok t

-- `assertFrameType`, with the member that the number stands for.
abbrev pub assert_frame_type : ℕ → Checked FrameType
assert_frame_type value = known_type (frame_type_of value)

abbrev pub encode_session_id : List ℕ → Checked (List ℕ)
encode_session_id input = assert_exact_length input session_id_bytes >> ok input

-- The frame type needs no check: it is an enum's member.
abbrev pub assert_aad_fields : FrameAad → Checked (Unit {0})
assert_aad_fields aad = do
  assert_protocol_version aad.protocol_version
  assert_exact_length aad.sender_session_id session_id_bytes
  assert_uint32 aad.sender_sequence
  assert_uint32 aad.transfer_id
  assert_uint32 aad.chunk_id
  assert_frame_field_relations aad.frame_type aad.transfer_id aad.chunk_id

abbrev pub fill_aad : FrameAad → List ℕ
fill_aad aad =
    let version = put (replicate frame_aad_bytes 0) 0 (aad.protocol_version ∷ []) in
    let session = put version 1 aad.sender_session_id in
    let sequence = write_uint32_be session 33 aad.sender_sequence in
    let frame_type = put sequence 37 (frame_type_code aad.frame_type ∷ []) in
    let transfer = write_uint32_be frame_type 38 aad.transfer_id in
    write_uint32_be transfer 42 aad.chunk_id

unfoldable pub encode_aad : FrameAad → Checked (List ℕ)
encode_aad aad = assert_aad_fields aad >> ok (fill_aad aad)

unfoldable pub decode_aad : List ℕ → Checked FrameAad
decode_aad bytes = do
  assert_exact_length bytes frame_aad_bytes
  let version = get_or bytes 0 0
  assert_protocol_version version
  session ← encode_session_id (subarray bytes 1 33)
  let sequence = read_uint32_be bytes 33
  frame_type ← assert_frame_type (get_or bytes 37 0)
  let transfer = read_uint32_be bytes 38
  let chunk = read_uint32_be bytes 42
  assert_uint32 sequence
  assert_uint32 transfer
  assert_uint32 chunk
  assert_frame_field_relations frame_type transfer chunk
  ok (record {
    protocol_version = version;
    sender_session_id = session;
    sender_sequence = sequence;
    frame_type = frame_type;
    transfer_id = transfer;
    chunk_id = chunk;
  })

unfoldable pub encode_frame_header : FrameHeader → Checked (List ℕ)
unfolding encode_aad
encode_frame_header header = do
  assert_aad_fields header.aad
  assert_uint32 header.ciphertext_length
  require (leb header.ciphertext_length (ciphertext_cap_for_frame_type header.aad.frame_type))
      limit_exceeded
  aad ← encode_aad header.aad
  ok (
      write_uint32_be (put (replicate frame_header_bytes 0) 0 aad) frame_aad_bytes
        header.ciphertext_length)

unfoldable pub decode_frame_header : List ℕ → Checked FrameHeader
unfolding decode_aad
decode_frame_header bytes = do
  assert_exact_length bytes frame_header_bytes
  aad ← decode_aad (subarray bytes 0 frame_aad_bytes)
  let ciphertext_length = read_uint32_be bytes frame_aad_bytes
  assert_uint32 ciphertext_length
  require (leb ciphertext_length (ciphertext_cap_for_frame_type aad.frame_type)) limit_exceeded
  ok (record { aad = aad; ciphertext_length = ciphertext_length })

-- A negative, zero or positive difference.
pub data Comparison : Type 0 where
  below equal above : Comparison

abbrev pub compare_numbers : ℕ → ℕ → Comparison
compare_numbers a b = if ltb a b then below else if ltb b a then above else equal

unfoldable pub compare_bytes : List ℕ → List ℕ → Comparison
compare_bytes [] [] = equal
compare_bytes [] (b ∷ t) = below
compare_bytes (a ∷ s) [] = above
compare_bytes (a ∷ s) (b ∷ t) =
    let rest = compare_bytes s t in if a == b then rest else compare_numbers a b

abbrev pub role_of : Comparison → Checked Role
role_of equal = err role_indeterminable
role_of below = ok initiator
role_of above = ok responder

unfoldable pub derive_role : List ℕ → List ℕ → Checked Role
unfolding compare_bytes
derive_role local_key remote_key = do
  assert_exact_length local_key public_key_bytes
  assert_exact_length remote_key public_key_bytes
  role_of (compare_bytes local_key remote_key)
