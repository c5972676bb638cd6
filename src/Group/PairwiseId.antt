-- ===== src/Group/PairwiseId.antt =====
-- group/pairwise-id.ts: the conversation of two members of a group. SHA-256 is a parameter.
pub mod Pairs
use fuck_chat_control.Base.{
  ℕ, Bool, ◌≡◌, refl, sym, ap, ◌∙◌, List, ◌++◌, ◌∷◌, [], arith, str, length, ◌==◌, ==_iff, take,
}
use fuck_chat_control.Base.Result.{ok, err, ◌>>=◌, ◌>>◌, require}
use fuck_chat_control.Protocol.Bytes.{subarray}
use fuck_chat_control.Protocol.Limits.{conversation_id_bytes}
use fuck_chat_control.Protocol.Codec.{
  Comparison, below, equal, above, compare_bytes, assert_exact_length,
}
use fuck_chat_control.Protocol.Codec.Roles.{opposite, compare_bytes-swap, compare_bytes-equal}
use fuck_chat_control.Protocol.Keys.{encode_public_key}
use fuck_chat_control.Group.Errors.{GroupFailure, Grouped, passed_on, encode_group_id}

abbrev pub pairwise_domain : List ℕ
pairwise_domain = str "fck-group-v1/pair"

-- The smaller key before the other. `compareBytes` is the same function as that of protocol/codec.ts.
abbrev pub ordered_by : Comparison → List ℕ → List ℕ → List ℕ
ordered_by below a b = a ++ b
ordered_by equal a b = a ++ b
ordered_by above a b = b ++ a

unfoldable pub pairwise_material : List ℕ → List ℕ → List ℕ → List ℕ
pairwise_material gid a b = pairwise_domain ++ (gid ++ ordered_by (compare_bytes a b) a b)

unfoldable pub derive_pairwise_conv_id :
    (List ℕ → Bool) → (List ℕ → List ℕ) → List ℕ → List ℕ → List ℕ → Grouped (List ℕ)
derive_pairwise_conv_id is_point sha256 group_id id_pub_a id_pub_b = do
  gid ← encode_group_id group_id
  a ← passed_on (encode_public_key is_point id_pub_a)
  b ← passed_on (encode_public_key is_point id_pub_b)
  let id = subarray (sha256 (pairwise_material gid a b)) 0 16
  passed_on (assert_exact_length id conversation_id_bytes >> ok id)
