-- ===== src/Crypto/Aead.antt =====
-- crypto/aead.ts: `encryptFrame` and `decryptFrame`, over AES-GCM as WebCrypto provides it.
pub mod Frames
use fuck_chat_control.Base.{
  ℕ, Bool, not, Option, none, some, List, if◌then◌else◌, leb, ◌==◌, length, str_beq,
}
use fuck_chat_control.Base.Result.{Result, ok, err, ◌>>=◌, ◌>>◌, require}
use fuck_chat_control.Protocol.Limits.{gcm_nonce_bytes, uint32_max}
use fuck_chat_control.Protocol.Types.{FrameAad, ProtocolErrorCode}
use fuck_chat_control.Protocol.Codec.{encode_aad}
use fuck_chat_control.Protocol.Nonce.{derive_nonce}
use fuck_chat_control.Crypto.ReplayWindow.{
  ReplayWindow, CryptoErrorCode, invalid_argument, authentication_failed, observe,
}

-- `aesGcmEncrypt` and `aesGcmDecrypt`: key, nonce, additional data, and the text. `none` is a tag that does not
-- verify.
pub record Cipher : Type 0 where
  pub seal : List ℕ → List ℕ → List ℕ → List ℕ → List ℕ
  pub unseal : List ℕ → List ℕ → List ℕ → List ℕ → Option (List ℕ)

-- What the two functions throw: a `CryptoError`, or a `ProtocolError` of the codec.
pub data AeadFailure : Type 0 where
  crypto : CryptoErrorCode → AeadFailure
  protocol : ProtocolErrorCode → AeadFailure

abbrev pub of_codec {ℓ} : {A : Type ℓ} → Result ProtocolErrorCode A → Result AeadFailure A
of_codec (ok a) = ok a
of_codec (err e) = err (protocol e)

abbrev pub of_crypto {ℓ} : {A : Type ℓ} → Result CryptoErrorCode A → Result AeadFailure A
of_crypto (ok a) = ok a
of_crypto (err e) = err (crypto e)

abbrev pub verified : Option (List ℕ) → Result AeadFailure (List ℕ)
verified none = err (crypto authentication_failed)
verified (some plaintext) = ok plaintext

abbrev pub assert_uint32_sequence : ℕ → Result AeadFailure (Unit {0})
assert_uint32_sequence sequence = require (leb sequence uint32_max) (crypto invalid_argument)

pub record EncryptedFrame : Type 0 where
  pub ciphertext : List ℕ
  pub nonce : List ℕ

module _ (cipher : Cipher) where
  unfoldable pub encrypt_frame : List ℕ → FrameAad → List ℕ → Result AeadFailure EncryptedFrame
  unfolding derive_nonce encode_aad
  encrypt_frame key aad plaintext = do
    assert_uint32_sequence aad.sender_sequence
    aad_bytes ← of_codec (encode_aad aad)
    nonce ← of_codec (derive_nonce aad.sender_session_id aad.sender_sequence)
    ok (record { ciphertext = cipher.seal key nonce aad_bytes plaintext; nonce = nonce })

  -- The window comes back with the plaintext: a throw leaves it as it was.
  unfoldable pub decrypt_frame :
      List ℕ
      → ReplayWindow
      → FrameAad
      → List ℕ
      → List ℕ
      → Result AeadFailure (ReplayWindow × List ℕ)
  unfolding derive_nonce encode_aad observe str_beq
  decrypt_frame key window aad nonce ciphertext = do
    require (length nonce == gcm_nonce_bytes) (crypto invalid_argument)
    assert_uint32_sequence aad.sender_sequence
    expected ← of_codec (derive_nonce aad.sender_session_id aad.sender_sequence)
    require (str_beq nonce expected) (crypto authentication_failed)
    aad_bytes ← of_codec (encode_aad aad)
    plaintext ← verified (cipher.unseal key nonce aad_bytes ciphertext)
    moved ← of_crypto (observe window aad.sender_sequence)
    ok (moved, plaintext)
