-- ===== src/Group/Membership/Signature.antt =====
-- The signature of a payload that is decoded is checked over all of it but the signature.
use fuck_chat_control.Base.{
  ℕ, get_or, suc, ◌≡◌, refl, sym, ap, ◌∙◌, Bool, true, false, Option, some, List, [], ◌∷◌, ◌++◌,
  if◌then◌else◌, ==_iff, arith, length, Str,
}
use fuck_chat_control.Base.Result.{ok}
use fuck_chat_control.Protocol.Bytes.{Bytes}
use fuck_chat_control.Store.Repo.{GroupMember}
use fuck_chat_control.Group.Errors.{passed_on}
use fuck_chat_control.Group.Membership.{
  GroupMembership, count_authors, encode_membership_body, encode_membership, authors_of,
  verify_with, verify_membership, decode_membership, encode_signature,
}
use fuck_chat_control.Group.Membership.Entries.{has_bom, NamesPlain}
use fuck_chat_control.Group.Membership.Canonical.{checked, decoded-IsCanonical}

length-authors_of :
    (members : List GroupMember) → length (authors_of members) ≡ count_authors members
length-authors_of [] = refl
length-authors_of (m ∷ members) = by_flag m.is_author (length-authors_of members)
  where
    by_flag :
        (flag : Bool)
        → length (authors_of members) ≡ count_authors members
        → length (if flag then m ∷ authors_of members else authors_of members)
          ≡ (if flag then suc (count_authors members) else count_authors members)
    by_flag true h = ap suc h
    by_flag false h = h

only_one : {A : Type 0} (xs : List A) → length xs ≡ 1 → (x : A) × (xs ≡ x ∷ [])
only_one [] h = absurd (omega (arith, h))
only_one (x ∷ []) h = (x, refl)
only_one (x ∷ y ∷ xs) h = absurd (omega (arith, h))

passed_signature : (sig : List ℕ) → length sig ≡ 64 → passed_on (encode_signature sig) ≡ ok sig
passed_signature sig h = checked sig ((==_iff _ _).1 h)

verified :
    (is_point : List ℕ → Bool) (encode_text : Str → List ℕ)
    (verify : List ℕ → List ℕ → List ℕ → Bool) (m : GroupMembership) (author : GroupMember)
    (body : List ℕ)
    → encode_membership_body is_point encode_text m.group_id m.epoch m.members 16 ≡ ok body
    → verify_with is_point encode_text verify m (author ∷ [])
      ≡ ok (verify author.identity_pub m.signature body)
verified is_point encode_text verify m author body h = rw h refl

-- What is decoded, whatever the cap, of a payload in which no name starts with a byte order mark, is encoded to that
-- payload again; and it has one author, whose key the signature at the end is checked with, over all bytes before
-- it. The decoder of text takes nothing that the encoder would not write, but for the mark.
pub decode_membership-IsSigned :
    (is_point : List ℕ → Bool) (encode_text : Str → List ℕ) (decode_text : List ℕ → Option Str)
    (verify : List ℕ → List ℕ → List ℕ → Bool) (payload : List ℕ) (max_members : ℕ)
    (m : GroupMembership)
    → ((b : List ℕ) (s : Str) → has_bom b ≡ false → decode_text b ≡ some s → encode_text s ≡ b)
    → NamesPlain payload (get_or payload 20 0) 21
    → Bytes payload
    → decode_membership is_point decode_text payload max_members ≡ ok m
    → (encode_membership is_point encode_text m ≡ ok payload)
      × ((author : GroupMember) × ((authors_of m.members ≡ author ∷ [])
            × ((body : List ℕ) × ((payload ≡ body ++ m.signature)
                  × (verify_membership is_point encode_text verify m
                      ≡ ok (verify author.identity_pub m.signature body))))))
unfolding encode_membership verify_membership
decode_membership-IsSigned is_point encode_text decode_text verify payload max_members m faithful
      plain bytes h =
    let c =
      decoded-IsCanonical is_point encode_text decode_text payload faithful max_members m plain
        bytes h in
    let (author, one) =
      only_one (authors_of m.members) (length-authors_of m.members ∙ c.one_author) in
    (
      rw (passed_signature m.signature c.signed, c.encoded, sym c.whole) refl,
      (
        author,
        (
          one,
          (
            c.body,
            (
              c.whole,
              ap (verify_with is_point encode_text verify m) one
                  ∙ verified is_point encode_text verify m author c.body c.encoded,
            ),
          ),
        ),
      ),
    )
