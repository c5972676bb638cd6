-- ===== src/Protocol/Control.antt =====
-- protocol/types.ts: the subtypes of control frames, and protocol/codec.ts: the payload of a TransferCancel.
use fuck_chat_control.Base.{
  ℕ, ◌≡◌, refl, subst, Bool, ◌&&◌, ◌||◌, List, [], arith, leb, ◌==◌, leb→le, replicate,
}
use fuck_chat_control.Base.Result.{ok, ◌>>◌, of_ok, >>=-eq-ok, require-eq-ok}
use fuck_chat_control.Protocol.Bytes.{write_uint32_be, read_uint32_be, read-uint32_be}
use fuck_chat_control.Protocol.Codec.{Checked, assert_exact_length, assert_uint32}

-- A control subtype is its byte.
abbrev pub transfer_cancel : ℕ
transfer_cancel = 0x06

-- `CONTROL_SUBTYPE_VALUES.includes(subtype)`.
abbrev pub is_control_subtype : ℕ → Bool
is_control_subtype subtype = leb 0x01 subtype && leb subtype 0x06

-- `GROUP_CONTROL_SUBTYPE_VALUES.includes(subtype)`.
abbrev pub is_group_control_subtype : ℕ → Bool
is_group_control_subtype subtype = subtype == 0x07 || subtype == 0x08

-- The test of the sender and of the receiver, with `allowGroupControlSubtypes`.
abbrev pub is_allowed_subtype : (group_link : Bool) (subtype : ℕ) → Bool
is_allowed_subtype group_link subtype =
    is_control_subtype subtype || group_link && is_group_control_subtype subtype

abbrev pub transfer_cancel_payload_bytes : ℕ
transfer_cancel_payload_bytes = 4

unfoldable pub encode_transfer_cancel_payload : ℕ → Checked (List ℕ)
encode_transfer_cancel_payload transfer_id = do
  assert_uint32 transfer_id
  ok (write_uint32_be (replicate transfer_cancel_payload_bytes 0) 0 transfer_id)

unfoldable pub decode_transfer_cancel_payload : List ℕ → Checked ℕ
decode_transfer_cancel_payload payload = do
  assert_exact_length payload transfer_cancel_payload_bytes
  let transfer_id = read_uint32_be payload 0
  assert_uint32 transfer_id
  ok transfer_id

pub decode_transfer_cancel_payload-encode_transfer_cancel_payload :
    (id : ℕ) (payload : List ℕ)
    → encode_transfer_cancel_payload id ≡ ok payload
    → decode_transfer_cancel_payload payload ≡ ok id
unfolding encode_transfer_cancel_payload decode_transfer_cancel_payload
decode_transfer_cancel_payload-encode_transfer_cancel_payload id payload h =
    let (_, bound, h1) = >>=-eq-ok (assert_uint32 id) _ h in
    subst (λ payload. decode_transfer_cancel_payload payload ≡ ok id) (of_ok h1)
      (rw (read-uint32_be id [] (omega (arith, leb→le id _ (require-eq-ok _ _ bound))), bound) refl)
