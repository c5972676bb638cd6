-- ===== src/Group/Tests.antt =====
-- A membership and a pairwise id on concrete inputs.
use fuck_chat_control.Base.{
  ℕ, Option, Str, ◌∙◌, if◌then◌else◌, false, ◌≡◌, refl, sym, ap, ◌↔◌, true, false, some, List, [],
  ◌∷◌, ◌++◌, replicate, drop, str, str_beq, of_some,
}
use fuck_chat_control.Base.Result.{ok, err}
use fuck_chat_control.Protocol.Bytes.{are_bytes-Bytes}
use fuck_chat_control.Protocol.Codec.{compare_bytes}
use fuck_chat_control.Protocol.Keys.{encode_public_key}
use fuck_chat_control.Store.Repo.{GroupMember}
use fuck_chat_control.Group.Errors.{group, membership_invalid}
use fuck_chat_control.Group.Membership.{
  GroupMembership, encode_entry, encode_entries, encode_membership_body, encode_membership,
  verify_membership, authors_of, decode_entry, decode_entries, decode_membership, added_members,
  removed_members,
}
use fuck_chat_control.Group.Membership.Entries.{has_bom}
use fuck_chat_control.Group.Membership.Signature.{decode_membership-IsSigned}
use fuck_chat_control.Group.PairwiseId.{pairwise_material, derive_pairwise_conv_id}
use fuck_chat_control.Group.PairwiseId.Pairs.{SamePair, derive_pairwise_conv_id-SamePair}

abbrev gid : List ℕ
gid = replicate 16 171

abbrev ann_key : List ℕ
ann_key = 4 ∷ replicate 64 7

abbrev bob_key : List ℕ
bob_key = 4 ∷ replicate 64 5

abbrev ann : GroupMember
ann = record { identity_pub = ann_key; is_author = true; display_name = str "Ann" }

abbrev bob : GroupMember
bob = record { identity_pub = bob_key; is_author = false; display_name = [] }

abbrev membership : GroupMembership
membership = record {
  group_id = gid;
  epoch = 258;
  members = bob ∷ ann ∷ [];
  signature = replicate 64 9;
}

abbrev body : List ℕ
body = gid ++ (0 ∷ 0 ∷ 1 ∷ 2 ∷ 2 ∷ bob_key) ++ (0 ∷ 0 ∷ ann_key) ++ (1 ∷ 3 ∷ str "Ann")

abbrev payload : List ℕ
payload = body ++ replicate 64 9

-- Stand-ins for the text codec, which agree with it on ASCII and on the byte order mark.
abbrev decode_text : List ℕ → Option Str
decode_text b = if has_bom b then some (drop 3 b) else some b

faithful : (b : List ℕ) (s : Str) → has_bom b ≡ false → decode_text b ≡ some s → s ≡ b
faithful b s plain h =
    sym (of_some (sym (ap (λ t. if t then some (drop 3 b) else some b) plain) ∙ h))

payload-is_decoded : decode_membership (λ k. true) decode_text payload 8 ≡ ok membership
unfolding decode_membership decode_entries decode_entry encode_public_key str_beq
payload-is_decoded = refl

abbrev marked_payload : List ℕ
marked_payload =
    (gid ++ (0 ∷ 0 ∷ 0 ∷ 1 ∷ 1 ∷ ann_key) ++ (1 ∷ 6 ∷ 239 ∷ 187 ∷ 191 ∷ str "Ann"))
    ++ replicate 64 9

abbrev marked_membership : GroupMembership
marked_membership = record {
  group_id = gid;
  epoch = 1;
  members = ann ∷ [];
  signature = replicate 64 9;
}

-- A name with the mark is accepted, and what is read is encoded without it: the bytes that a signature is checked
-- over are not those of the payload.
marked-is_decoded :
    decode_membership (λ k. true) decode_text marked_payload 8 ≡ ok marked_membership
unfolding decode_membership decode_entries decode_entry encode_public_key str_beq
marked-is_decoded = refl

marked-is_encoded_shorter :
    encode_membership (λ k. true) (λ t. t) marked_membership
    ≡ ok ((gid ++ (0 ∷ 0 ∷ 0 ∷ 1 ∷ 1 ∷ ann_key) ++ (1 ∷ 3 ∷ str "Ann")) ++ replicate 64 9)
unfolding encode_membership encode_membership_body encode_entries encode_entry encode_public_key
    str_beq
marked-is_encoded_shorter = refl

two_authors :
    encode_membership_body
      (λ k. true)
      (λ t. t)
      gid
      1
      (ann ∷ record bob { is_author = true } ∷ [])
      16
    ≡ err (group membership_invalid)
unfolding encode_membership_body
two_authors = refl

decode_membership-IsSigned_example :
    (encode_membership (λ k. true) (λ t. t) membership ≡ ok payload)
    × ((author : GroupMember) × ((authors_of membership.members ≡ author ∷ [])
          × ((body : List ℕ) × ((payload ≡ body ++ membership.signature)
                × (verify_membership
                      (λ k. true)
                      (λ t. t)
                      (λ key sig body. str_beq sig (replicate 64 9))
                      membership
                    ≡ ok (str_beq membership.signature (replicate 64 9)))))))
decode_membership-IsSigned_example =
    decode_membership-IsSigned (λ k. true) (λ t. t) decode_text
      (λ key sig body. str_beq sig (replicate 64 9)) payload 8 membership faithful
      (refl, (refl, tt)) (are_bytes-Bytes payload refl) payload-is_decoded

bob_leaves : removed_members (bob ∷ ann ∷ []) (ann ∷ []) ≡ bob ∷ []
unfolding removed_members str_beq
bob_leaves = refl

bob_joins : added_members (ann ∷ []) (bob ∷ ann ∷ []) ≡ bob ∷ []
unfolding added_members str_beq
bob_joins = refl

-- A stand-in for SHA-256 that hashes two inputs apart: the material from its last 17 bytes.
abbrev hash : List ℕ → List ℕ
hash material = drop 100 material

abbrev shared : List ℕ
shared = replicate 16 7

derived :
    (derive_pairwise_conv_id (λ k. true) hash gid ann_key bob_key ≡ ok shared)
    × (derive_pairwise_conv_id (λ k. true) hash gid bob_key ann_key ≡ ok shared)
unfolding derive_pairwise_conv_id pairwise_material compare_bytes encode_public_key
derived = (refl, refl)

derive_pairwise_conv_id-SamePair_example :
    (shared ≡ shared) ↔ ((gid ≡ gid) × SamePair ann_key bob_key bob_key ann_key)
unfolding pairwise_material compare_bytes
derive_pairwise_conv_id-SamePair_example =
    derive_pairwise_conv_id-SamePair (λ k. true) hash gid gid ann_key bob_key bob_key ann_key
      (λ h. refl) (derived.0) (derived.1)
