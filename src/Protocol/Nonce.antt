-- ===== src/Protocol/Nonce.antt =====
-- protocol/codec.ts: `deriveNonce`.
pub mod Distinct
use Prim.Native.Nat.{bit_xor}
use fuck_chat_control.Base.{ℕ, ◌/◌, ◌%◌, Bool, List, [], ◌∷◌, get_or, set}
use fuck_chat_control.Base.Result.{ok, ◌>>=◌, ◌>>◌}
use fuck_chat_control.Protocol.Limits.{session_id_bytes, gcm_nonce_bytes}
use fuck_chat_control.Protocol.Bytes.{subarray}
use fuck_chat_control.Protocol.Codec.{Checked, assert_exact_length, assert_uint32}

-- `nonce[i] ^= byte`.
abbrev pub xor_at : List ℕ → ℕ → ℕ → List ℕ
xor_at nonce i byte = set nonce i (bit_xor (get_or nonce i 0) byte)

abbrev pub fill_nonce : List ℕ → ℕ → List ℕ
fill_nonce session sequence =
    let nonce = subarray session 0 gcm_nonce_bytes in
    let first = xor_at nonce 8 (sequence / 16777216 % 256) in
    let second = xor_at first 9 (sequence / 65536 % 256) in
    let third = xor_at second 10 (sequence / 256 % 256) in xor_at third 11 (sequence % 256)

unfoldable pub derive_nonce : List ℕ → ℕ → Checked (List ℕ)
derive_nonce session sequence = do
  assert_exact_length session session_id_bytes
  assert_uint32 sequence
  ok (fill_nonce session sequence)
