-- ===== src/Protocol/Keys.antt =====
-- protocol/codec.ts: public keys. Whether a point is on the curve is asked of @noble/curves.
pub mod Valid
use fuck_chat_control.Base.{ℕ, Bool, List, ◌==◌, get_or}
use fuck_chat_control.Base.Result.{ok, ◌>>◌, require}
use fuck_chat_control.Protocol.Limits.{public_key_bytes, sec1_uncompressed_prefix}
use fuck_chat_control.Protocol.Types.{invalid_encoding, point_not_on_curve}
use fuck_chat_control.Protocol.Codec.{Checked, assert_exact_length}

unfoldable pub encode_public_key : (List ℕ → Bool) → List ℕ → Checked (List ℕ)
encode_public_key is_valid_public_key input = do
  assert_exact_length input public_key_bytes
  require (get_or input 0 0 == sec1_uncompressed_prefix) invalid_encoding
  require (is_valid_public_key input) point_not_on_curve
  ok input
