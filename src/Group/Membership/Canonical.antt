-- ===== src/Group/Membership/Canonical.antt =====
-- A payload that is decoded is the one encoding of what it decodes to, if no name starts with a byte order mark.
use fuck_chat_control.Base.{
  ℕ, ◌+◌, ◌-◌, ◌*◌, ◌^◌, ◌≤◌, ◌<◌, min, ◌≡◌, refl, sym, ap, ap2, ◌∙◌, subst, Bool, true, false, not,
  Option, some, List, [], ◌∷◌, ◌++◌, ltb, leb, ◌==◌, ==_iff, arith, length, get_or, take, drop, Str,
}
use fuck_chat_control.Base.Result.{ok, require, >>=-eq-ok, require-eq-ok, of_ok}
use fuck_chat_control.Protocol.Bytes.{
  Bytes, subarray, uint32_be, read_uint32_be, append_assoc, append_nil,
}
use fuck_chat_control.Protocol.Bytes.Slices.{drop-take, drop-get_or, drop-read_uint32_be, drop_all}
use fuck_chat_control.Store.Repo.{GroupMember}
use fuck_chat_control.Group.Errors.{passed_on, encode_group_id}
use fuck_chat_control.Group.Membership.{
  GroupMembership, Scan, count_authors, encode_entries, encode_membership_body, decode_entries,
  decode_membership, encode_signature,
}
use fuck_chat_control.Group.Membership.Entries.{
  has_bom, NamesPlain, length-subarray, subarray_front, entries-StandAt,
}

read_below : (xs : List ℕ) (i : ℕ) → read_uint32_be xs i < 2 ^ 32
read_below xs i = omega arith

module _ (is_point : List ℕ → Bool) (encode_text : Str → List ℕ) where
  abbrev body_of : List ℕ → ℕ → ℕ → List ℕ → List ℕ
  body_of gid epoch count entries = gid ++ (uint32_be epoch ++ (count ∷ entries))

  body-ok :
      (gid : List ℕ) (epoch : ℕ) (members : List GroupMember) (entries : List ℕ)
      → (length gid == 16) ≡ true
      → leb epoch 4294967295 ≡ true
      → leb (length members) 16 ≡ true
      → (count_authors members == 1) ≡ true
      → encode_entries is_point encode_text [] members ≡ ok entries
      → encode_membership_body is_point encode_text gid epoch members 16
        ≡ ok (body_of gid epoch (length members) entries)
  unfolding encode_membership_body
  body-ok gid epoch members entries g e c a h = rw (g, e, some_member members a, byte, c, a, h) refl
    where
      some_member :
          (members : List GroupMember)
          → (count_authors members == 1) ≡ true
          → not (length members == 0) ≡ true
      some_member [] a = absurd (cc)
      some_member (m ∷ members) a = ground arith

      byte : leb (length members) 255 ≡ true
      byte = ground arith

-- The parts of a payload.
payload_layout :
    (p : List ℕ)
    → Bytes p
    → 85 ≤ length p
    → p ≡ subarray p 0 16 ++ (uint32_be (read_uint32_be p 16) ++ (get_or p 20 0 ∷ drop 21 p))
payload_layout p b l =
    drop-take p 0 16
    ∙ ap (λ rest. take 16 p ++ rest)
        (drop-read_uint32_be p 16 b (omega arith)
          ∙ ap (λ rest. uint32_be (read_uint32_be p 16) ++ rest) (drop-get_or p 20 (omega arith)))

abbrev made : List ℕ → ℕ → List GroupMember → List ℕ → GroupMembership
made gid epoch members signature = record {
  group_id = gid;
  epoch = epoch;
  members = members;
  signature = signature;
}

pub checked : (sig : List ℕ) → (length sig == 64) ≡ true → passed_on (encode_signature sig) ≡ ok sig
checked sig h = rw h refl

at_most : (p : List ℕ) → leb (read_uint32_be p 16) 4294967295 ≡ true
at_most p = ground (arith, read_below p 16)

regroup : (a b c d : List ℕ) → a ++ (b ++ (c ++ d)) ≡ (a ++ (b ++ c)) ++ d
regroup a b c d = rw (append_assoc a (b ++ c) d, append_assoc b c d) refl

trailer :
    (p : List ℕ) (offset : ℕ)
    → length p - offset ≡ 64
    → drop offset p ≡ subarray p offset (offset + 64)
trailer p offset h =
    drop-take p offset 64
    ∙ ap2 (λ sig rest. sig ++ rest) (sym (subarray_front p offset 64))
        (drop_all p (offset + 64) (omega (arith, h)))
    ∙ append_nil (subarray p offset (offset + 64))

module _ (is_point : List ℕ → Bool) (encode_text : Str → List ℕ) (decode_text : List ℕ → Option Str)
    (payload : List ℕ)
    (faithful : (b : List ℕ) (s : Str)
      → has_bom b ≡ false
      → decode_text b ≡ some s
      → encode_text s ≡ b) where
  pub record IsCanonical (m : GroupMembership) : Type 0 where
    pub body : List ℕ
    pub encoded :
        encode_membership_body is_point encode_text m.group_id m.epoch m.members 16 ≡ ok body
    pub signed : length m.signature ≡ 64
    pub whole : payload ≡ body ++ m.signature
    pub one_author : count_authors m.members ≡ 1

  assembled :
      (max_members : ℕ) (scan : Scan)
      → NamesPlain payload (get_or payload 20 0) 21
      → Bytes payload
      → not (ltb (length payload) 85) ≡ true
      → (length (subarray payload 0 16) == 16) ≡ true
      → leb (get_or payload 20 0) (min max_members 16) ≡ true
      → decode_entries is_point decode_text payload (get_or payload 20 0) [] 21 ≡ ok scan
      → length payload - scan.offset ≡ 64
      → (count_authors scan.members == 1) ≡ true
      → length (subarray payload scan.offset (scan.offset + 64)) ≡ 64
      → IsCanonical (
          made
            (subarray payload 0 16)
            (read_uint32_be payload 16)
            scan.members
            (subarray payload scan.offset (scan.offset + 64)))
  assembled max_members scan plain bytes long gid few e last one signed =
      let (entries, (encoded, (stands, counted))) =
        entries-StandAt is_point encode_text decode_text payload faithful (get_or payload 20 0) []
          21 scan plain e in
      record {
        body =
            body_of is_point encode_text (subarray payload 0 16) (read_uint32_be payload 16)
              (length scan.members) entries;
        encoded =
            body-ok is_point encode_text (subarray payload 0 16) (read_uint32_be payload 16)
              scan.members entries gid (at_most payload) (ground (arith, counted)) one encoded;
        signed = signed;
        whole =
            payload_layout payload bytes (ground arith)
            ∙ ap2
                (λ count rest.
                  subarray payload 0 16
                  ++ (uint32_be (read_uint32_be payload 16) ++ (count ∷ rest)))
                (sym counted)
                (stands ∙ ap (λ rest. entries ++ rest) (trailer payload scan.offset last))
            ∙ regroup (subarray payload 0 16) (uint32_be (read_uint32_be payload 16))
                (length scan.members ∷ entries) (subarray payload scan.offset (scan.offset + 64));
        one_author = (==_iff _ _).0 one;
      }

  pub decoded-IsCanonical :
      (max_members : ℕ) (m : GroupMembership)
      → NamesPlain payload (get_or payload 20 0) 21
      → Bytes payload
      → decode_membership is_point decode_text payload max_members ≡ ok m
      → IsCanonical m
  unfolding decode_membership
  decoded-IsCanonical max_members m plain bytes h =
      let count = get_or payload 20 0 in
      let epoch = read_uint32_be payload 16 in
      let gid = subarray payload 0 16 in
      let (_, a, h1) = >>=-eq-ok (require (not (ltb (length payload) 85)) _) _ h in
      let (gid', b, h2) = >>=-eq-ok (encode_group_id gid) _ h1 in
      let (_, b1, b2) = >>=-eq-ok (require (length gid == 16) _) _ b in
      let (_, c, h3) = >>=-eq-ok (require (leb count (min max_members 16)) _) _ h2 in
      let (_, d, h4) =
        >>=-eq-ok (require (not (ltb (length payload - 21 - 64) (count * 67))) _) _ h3 in
      let (scan, e, h5) =
        >>=-eq-ok (decode_entries is_point decode_text payload count [] 21) _ h4 in
      let (_, f, h6) = >>=-eq-ok (require (length payload - scan.offset == 64) _) _ h5 in
      let (_, g, h7) = >>=-eq-ok (require (count_authors scan.members == 1) _) _ h6 in
      let sig = subarray payload scan.offset (scan.offset + 64) in
      let (sig', i, h8) = >>=-eq-ok (passed_on (encode_signature sig)) _ h7 in
      let signed : length sig ≡ 64 =
        length-subarray payload scan.offset 64
          (omega (arith, (==_iff _ _).0 (require-eq-ok _ _ f))) in
      let accepted = (==_iff (length sig) 64).1 signed in
      let same_sig : sig ≡ sig' = of_ok (sym (checked sig accepted) ∙ i) in
      subst IsCanonical (of_ok h8) (
        subst (λ s. IsCanonical (made gid' epoch scan.members s)) same_sig
          (subst (λ g. IsCanonical (made g epoch scan.members sig)) (of_ok b2)
            (assembled max_members scan plain bytes (require-eq-ok _ _ a) (require-eq-ok _ _ b1)
              (require-eq-ok _ _ c) e ((==_iff _ _).0 (require-eq-ok _ _ f)) (require-eq-ok _ _ g)
              signed)))
