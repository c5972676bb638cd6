-- ===== src/Group/Membership.antt =====
-- group/membership.ts: the payload that lists a group's members. The test of a curve's point, `TextEncoder`, the
-- fatal `TextDecoder` (`none` is its throw) and the check of a signature are parameters. An array that the code
-- fills from its front to its end is the concatenation of what it is filled with.
pub mod Entries
pub mod Canonical
pub mod Signature
use fuck_chat_control.Base.{
  ℕ, zero, suc, ◌+◌, ◌-◌, ◌*◌, ◌/◌, ◌%◌, min, Bool, true, false, not, Option, none, some, List, [],
  ◌∷◌, ◌++◌, map, if◌then◌else◌, ltb, leb, ◌==◌, length, get_or, Str, str_beq,
}
use fuck_chat_control.Base.Result.{ok, err, ◌>>=◌, ◌>>◌, require}
use fuck_chat_control.Protocol.Limits.{
  uint32_max, public_key_bytes, signature_bytes, max_group_members_hard, max_member_display_name,
}
use fuck_chat_control.Protocol.Bytes.{subarray, uint32_be, read_uint32_be}
use fuck_chat_control.Protocol.Codec.{Checked, assert_exact_length}
use fuck_chat_control.Protocol.Keys.{encode_public_key}
use fuck_chat_control.Store.Repo.{GroupMember}
use fuck_chat_control.Group.Errors.{
  malformed, member_limit_reached, membership_invalid, group, Grouped, passed_on,
  as_malformed_entry, encode_group_id,
}

pub record GroupMembership : Type 0 where
  pub group_id : List ℕ
  pub epoch : ℕ
  pub members : List GroupMember
  pub signature : List ℕ

abbrev pub encode_signature : List ℕ → Checked (List ℕ)
encode_signature input = assert_exact_length input signature_bytes >> ok input

-- The bytes, each as a code unit.
abbrev pub pub_key_id : List ℕ → Str
pub_key_id key = key

-- `seen.has(key)`.
abbrev pub contains : Str → List Str → Bool
contains key [] = false
contains key (other ∷ seen) =
    let rest = contains key seen in if str_beq key other then true else rest

abbrev pub count_authors : List GroupMember → ℕ
count_authors [] = 0
count_authors (m ∷ members) =
    let rest = count_authors members in if m.is_author then suc rest else rest

-- `membership.members.filter((m) => m.isAuthor)`.
abbrev pub authors_of : List GroupMember → List GroupMember
authors_of [] = []
authors_of (m ∷ members) = let rest = authors_of members in if m.is_author then m ∷ rest else rest

abbrev pub author_flag : Bool → ℕ
author_flag true = 1
author_flag false = 0

-- `flags & 0xfe` and `(flags & 0x01) !== 0`, of a byte.
abbrev pub reserved_bits : ℕ → ℕ
reserved_bits flags = flags / 2 * 2

abbrev pub sets_author : ℕ → Bool
sets_author flags = not (flags % 2 == 0)

module _ (is_point : List ℕ → Bool) (encode_text : Str → List ℕ) where
  abbrev pub member_display_name_bytes : Str → Grouped (List ℕ)
  member_display_name_bytes display_name = do
    let bytes = encode_text display_name
    require (not (ltb max_member_display_name (length bytes))) (group malformed)
    ok bytes

  -- One pass of the loop over the members, and the loop.
  unfoldable pub encode_entry : List Str → GroupMember → Grouped (List ℕ)
  encode_entry seen m = do
    key ← passed_on (encode_public_key is_point m.identity_pub)
    require (not (contains (pub_key_id key) seen)) (group membership_invalid)
    name ← member_display_name_bytes m.display_name
    ok (key ++ (author_flag m.is_author ∷ length name ∷ name))

  unfoldable pub encode_entries : List Str → List GroupMember → Grouped (List ℕ)
  encode_entries seen [] = ok []
  encode_entries seen (m ∷ members) = do
    entry ← encode_entry seen m
    entries ← encode_entries (pub_key_id m.identity_pub ∷ seen) members
    ok (entry ++ entries)

  unfoldable pub encode_membership_body : List ℕ → ℕ → List GroupMember → ℕ → Grouped (List ℕ)
  encode_membership_body group_id epoch members max_members = do
    gid ← encode_group_id group_id
    require (leb epoch uint32_max) (group malformed)
    require (not (length members == 0)) (group membership_invalid)
    require (leb (length members) 255) (group membership_invalid)
    require (leb (length members) max_members) (group member_limit_reached)
    require (count_authors members == 1) (group membership_invalid)
    entries ← encode_entries [] members
    ok (gid ++ (uint32_be epoch ++ (length members ∷ entries)))

  unfoldable pub encode_membership : GroupMembership → Grouped (List ℕ)
  encode_membership m = do
    signature ← passed_on (encode_signature m.signature)
    body ← encode_membership_body m.group_id m.epoch m.members max_group_members_hard
    ok (body ++ signature)

  -- `verify` is the check of a signature with a key.
  abbrev pub verify_with :
      (List ℕ → List ℕ → List ℕ → Bool) → GroupMembership → List GroupMember → Grouped Bool
  verify_with verify m (author ∷ []) = do
    body ← encode_membership_body m.group_id m.epoch m.members max_group_members_hard
    ok (verify author.identity_pub m.signature body)
  verify_with verify m _ = ok false

  unfoldable pub verify_membership :
      (List ℕ → List ℕ → List ℕ → Bool) → GroupMembership → Grouped Bool
  verify_membership verify m = verify_with verify m (authors_of m.members)

-- The members read, and the offset behind them.
pub record Scan : Type 0 where
  pub members : List GroupMember
  pub offset : ℕ

-- What the decoder of a name throws is thrown as `Malformed`.
abbrev pub name_or_malformed : Option Str → Grouped Str
name_or_malformed none = err (group malformed)
name_or_malformed (some text) = ok text

-- `offset` after an entry.
abbrev pub entry_end : List ℕ → ℕ → ℕ
entry_end payload offset = offset + 67 + get_or payload (offset + 66) 0

module _ (is_point : List ℕ → Bool) (decode_text : List ℕ → Option Str) (payload : List ℕ) where
  -- One pass of the loop over the entries: the member at an offset.
  unfoldable pub decode_entry : List Str → ℕ → Grouped GroupMember
  decode_entry seen offset = do
    require (not (ltb (length payload - offset) 67)) (group malformed)
    key ← as_malformed_entry (encode_public_key is_point (subarray payload offset (offset + 65)))
    let flags = get_or payload (offset + 65) 0
    require (reserved_bits flags == 0) (group malformed)
    let size = get_or payload (offset + 66) 0
    require (not (ltb max_member_display_name size)) (group malformed)
    require (not (ltb (length payload - (offset + 67)) (size + signature_bytes))) (group malformed)
    name ← name_or_malformed (decode_text (subarray payload (offset + 67) (offset + 67 + size)))
    require (not (contains (pub_key_id key) seen)) (group membership_invalid)
    ok (record { identity_pub = key; is_author = sets_author flags; display_name = name })

  unfoldable pub decode_entries : ℕ → List Str → ℕ → Grouped Scan
  decode_entries zero seen offset = ok (record { members = []; offset = offset })
  decode_entries (suc count) seen offset = do
    m ← decode_entry seen offset
    scan ← decode_entries count (pub_key_id m.identity_pub ∷ seen) (entry_end payload offset)
    ok (record { members = m ∷ scan.members; offset = scan.offset })

  -- `authorCount` counts what `countAuthors` counts.
  unfoldable pub decode_membership : ℕ → Grouped GroupMembership
  decode_membership max_members = do
    let cap = min max_members max_group_members_hard
    require (not (ltb (length payload) 85)) (group malformed)
    group_id ← encode_group_id (subarray payload 0 16)
    let epoch = read_uint32_be payload 16
    let count = get_or payload 20 0
    require (leb count cap) (group member_limit_reached)
    require (not (ltb (length payload - 21 - 64) (count * 67))) (group malformed)
    scan ← decode_entries count [] 21
    require (length payload - scan.offset == 64) (group malformed)
    require (count_authors scan.members == 1) (group membership_invalid)
    signature ← passed_on (encode_signature (subarray payload scan.offset (scan.offset + 64)))
    ok (record {
      group_id = group_id;
      epoch = epoch;
      members = scan.members;
      signature = signature;
    })

-- The members whose key is not among the given.
abbrev pub members_without : List Str → List GroupMember → List GroupMember
members_without keys [] = []
members_without keys (m ∷ members) =
    let rest = members_without keys members in
    if not (contains (pub_key_id m.identity_pub) keys) then m ∷ rest else rest

abbrev pub keys_of : List GroupMember → List Str
keys_of members = map (λ m. pub_key_id m.identity_pub) members

unfoldable pub added_members : List GroupMember → List GroupMember → List GroupMember
added_members prev next = members_without (keys_of prev) next

unfoldable pub removed_members : List GroupMember → List GroupMember → List GroupMember
removed_members prev next = members_without (keys_of next) prev
