-- ===== src/Protocol/Types.antt =====
-- protocol/types.ts and protocol/errors.ts.
use fuck_chat_control.Base.{◌==◌, if◌then◌else◌, arith, ℕ, ◌≡◌, refl, Option, none, some, List}

-- A frame type is an enum's member: its number is `frame_type_code`.
pub data FrameType : Type 0 where
  text file_manifest file_chunk control media_manifest media_chunk : FrameType

abbrev pub frame_type_code : FrameType → ℕ
frame_type_code text = 0x01
frame_type_code file_manifest = 0x02
frame_type_code file_chunk = 0x03
frame_type_code control = 0x04
frame_type_code media_manifest = 0x05
frame_type_code media_chunk = 0x06

-- `FRAME_TYPE_VALUES.includes(value)`, with the member found.
abbrev pub frame_type_of : ℕ → Option FrameType
frame_type_of value =
    if value == 1
    then some text
    else if value == 2
    then some file_manifest
    else if value == 3
    then some file_chunk
    else if value == 4
    then some control
    else if value == 5
    then some media_manifest
    else if value == 6
    then some media_chunk
    else none

pub data Role : Type 0 where
  initiator responder : Role

pub record FrameAad : Type 0 where
  pub protocol_version : ℕ
  pub sender_session_id : List ℕ
  pub sender_sequence : ℕ
  pub frame_type : FrameType
  pub transfer_id : ℕ
  pub chunk_id : ℕ

pub record FrameHeader : Type 0 where
  pub aad : FrameAad
  pub ciphertext_length : ℕ

pub data ProtocolErrorCode : Type 0 where
  invalid_length invalid_range invalid_enum invalid_version invalid_encoding : ProtocolErrorCode
  invalid_field_relation point_not_on_curve limit_exceeded role_indeterminable malformed :
      ProtocolErrorCode

pub frame_type_of-frame_type_code : (t : FrameType) → frame_type_of (frame_type_code t) ≡ some t
frame_type_of-frame_type_code text = refl
frame_type_of-frame_type_code file_manifest = refl
frame_type_of-frame_type_code file_chunk = refl
frame_type_of-frame_type_code control = refl
frame_type_of-frame_type_code media_manifest = refl
frame_type_of-frame_type_code media_chunk = refl

pub frame_type_code-frame_type_of :
    (n : ℕ) (t : FrameType) → frame_type_of n ≡ some t → frame_type_code t ≡ n
frame_type_code-frame_type_of n t h = ground arith
