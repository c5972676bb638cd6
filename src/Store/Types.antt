-- ===== src/Store/Types.antt =====
-- store/types.ts and store/message-record-aad.ts.
use fuck_chat_control.Base.{ℕ, List, ◌∷◌, ◌++◌, Str, str}
use fuck_chat_control.Base.Result.{Result}
use fuck_chat_control.Crypto.ReplayWindow.{CryptoErrorCode}
use fuck_chat_control.Protocol.Types.{ProtocolErrorCode}

pub data StoreErrorCode : Type 0 where
  conversation_not_found wrong_passphrase malformed_bundle unsupported_bundle_version :
      StoreErrorCode
  not_initialized not_implemented peer_identity_already_pinned size_limit_exceeded : StoreErrorCode
  invalid_kdf_params group_not_found : StoreErrorCode

-- What a call of the store throws: a `StoreError`, an error of the layers below that it passes on, or a `TypeError` of
-- the language.
pub data StoreFailure : Type 0 where
  store : StoreErrorCode → StoreFailure
  crypto : CryptoErrorCode → StoreFailure
  protocol : ProtocolErrorCode → StoreFailure
  type_error : StoreFailure

abbrev pub Stored {ℓ} : Type ℓ → Type ℓ
Stored A = Result StoreFailure A

pub data MessageDirection : Type 0 where
  sent received : MessageDirection

abbrev pub direction_text : MessageDirection → Str
direction_text sent = str "sent"
direction_text received = str "received"

abbrev pub message_record_aad_prefix : ℕ
message_record_aad_prefix = 0x01

-- The direction is ASCII, so its UTF-8 bytes are its code units. The id is as long as the space for it.
unfoldable pub message_record_aad : List ℕ → MessageDirection → List ℕ
message_record_aad conversation_id direction =
    message_record_aad_prefix ∷ (conversation_id ++ direction_text direction)
