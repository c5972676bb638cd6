-- ===== src/Group/Membership/Entries.antt =====
-- The entries that a payload is decoded to are encoded to the bytes that they were read from.
use fuck_chat_control.Base.{
  ℕ, zero, suc, ◌+◌, ◌-◌, ◌≤◌, ◌≡◌, refl, sym, ap, ap2, ◌∙◌, subst, Bool, true, false, ◌&&◌, not,
  Option, none, some, List, [], ◌∷◌, ◌++◌, ltb, ◌==◌, ==_iff, arith, length, get_or, take, drop,
  length-take, length-drop, Str,
}
use fuck_chat_control.Base.Result.{ok, err, require, >>=-eq-ok, require-eq-ok, of_ok}
use fuck_chat_control.Protocol.Bytes.{subarray, append_assoc}
use fuck_chat_control.Protocol.Bytes.Slices.{drop-take, drop-get_or}
use fuck_chat_control.Protocol.Keys.{encode_public_key}
use fuck_chat_control.Protocol.Keys.Valid.{encode_public_key-eq-ok}
use fuck_chat_control.Protocol.Codec.{Checked}
use fuck_chat_control.Store.Repo.{GroupMember}
use fuck_chat_control.Group.Errors.{as_malformed_entry}
use fuck_chat_control.Group.Membership.{
  Scan, contains, author_flag, sets_author, reserved_bits, encode_entry, encode_entries,
  decode_entry, decode_entries, entry_end, name_or_malformed, pub_key_id,
}

-- A byte without reserved bits is the flag that is read from it.
flag_of_flags :
    (flags : ℕ) → (reserved_bits flags == 0) ≡ true → author_flag (sets_author flags) ≡ flags
flag_of_flags zero h = refl
flag_of_flags (suc zero) h = refl
flag_of_flags (suc (suc n)) h = absurd (omega (arith, (==_iff _ _).0 h))

pub length-subarray :
    (xs : List ℕ) (i n : ℕ) → n ≤ length xs - i → length (subarray xs i (i + n)) ≡ n
length-subarray xs i n h = omega (arith, length-take (i + n - i) (drop i xs), length-drop i xs)

pub subarray_front : (xs : List ℕ) (i n : ℕ) → subarray xs i (i + n) ≡ take n (drop i xs)
subarray_front xs i n = ap (λ k. take k (drop i xs)) (omega arith)

-- The parts of an entry.
entry_layout :
    (payload : List ℕ) (offset : ℕ)
    → 67 ≤ length payload - offset
    → drop offset payload
      ≡ subarray payload offset (offset + 65)
        ++ (get_or payload (offset + 65) 0
            ∷ get_or payload (offset + 66) 0
            ∷ (subarray payload (offset + 67) (entry_end payload offset)
                ++ drop (entry_end payload offset) payload))
entry_layout payload offset l =
    drop-take payload offset 65
    ∙ ap2 (λ key rest. key ++ rest) (sym (subarray_front payload offset 65))
        (drop-get_or payload (offset + 65) (omega arith)
          ∙ ap (λ rest. get_or payload (offset + 65) 0 ∷ rest)
              (ap (λ i. drop i payload) {y = offset + 66} (omega arith)
                ∙ drop-get_or payload (offset + 66) (omega arith)
                ∙ ap (λ rest. get_or payload (offset + 66) 0 ∷ rest)
                    (ap (λ i. drop i payload) {y = offset + 67} (omega arith)
                      ∙ drop-take payload (offset + 67) size
                      ∙ ap (λ name. name ++ drop (offset + 67 + size) payload)
                          (sym (subarray_front payload (offset + 67) size)))))
  where
    size : ℕ
    size = get_or payload (offset + 66) 0

as_malformed_entry-eq-ok :
    {A : Type 0} {a : A} (r : Checked A) → as_malformed_entry r ≡ ok a → r ≡ ok a
as_malformed_entry-eq-ok (ok x) h = ap (λ y. ok y) (of_ok h)
as_malformed_entry-eq-ok (err e) h = absurd (cc)

name_or_malformed-eq-ok : (r : Option Str) {s : Str} → name_or_malformed r ≡ ok s → r ≡ some s
name_or_malformed-eq-ok none h = absurd (cc)
name_or_malformed-eq-ok (some t) h = ap (λ y. some y) (of_ok h)

parts :
    (key raw_key : List ℕ) (flags size : ℕ) (text raw behind : List ℕ)
    → key ≡ raw_key
    → author_flag (sets_author flags) ≡ flags
    → text ≡ raw
    → length raw ≡ size
    → raw_key ++ (flags ∷ size ∷ (raw ++ behind))
      ≡ (key ++ (author_flag (sets_author flags) ∷ length text ∷ text)) ++ behind
parts key raw_key flags size text raw behind k f t l =
    rw (append_assoc key (author_flag (sets_author flags) ∷ length text ∷ text) behind, k, f, t, l)
      refl

module _ (is_point : List ℕ → Bool) (encode_text : Str → List ℕ) where
  entry_of : GroupMember → List ℕ
  entry_of m =
      m.identity_pub
      ++ (author_flag m.is_author
          ∷ length (encode_text m.display_name)
          ∷ encode_text m.display_name)

  encode_entry-ok :
      (seen : List Str) (m : GroupMember)
      → encode_public_key is_point m.identity_pub ≡ ok m.identity_pub
      → not (contains m.identity_pub seen) ≡ true
      → not (ltb 32 (length (encode_text m.display_name))) ≡ true
      → encode_entry is_point encode_text seen m ≡ ok (entry_of m)
  unfolding encode_entry entry_of
  encode_entry-ok seen m k s n = rw (k, s, n) refl

-- The bytes start with the byte order mark, which `TextDecoder` takes away.
abbrev pub has_bom : List ℕ → Bool
has_bom (a ∷ b ∷ c ∷ bytes) = a == 239 && (b == 187 && c == 191)
has_bom _ = false

-- The name of an entry, as it stands in the payload.
abbrev pub raw_name : List ℕ → ℕ → List ℕ
raw_name payload offset = subarray payload (offset + 67) (entry_end payload offset)

-- No name of the entries from an offset on starts with the mark.
abbrev pub NamesPlain : List ℕ → ℕ → ℕ → Type 0
NamesPlain payload zero offset = Unit {0}
NamesPlain payload (suc count) offset =
    (has_bom (raw_name payload offset) ≡ false)
    × NamesPlain payload count (entry_end payload offset)

module _ (is_point : List ℕ → Bool) (encode_text : Str → List ℕ) (decode_text : List ℕ → Option Str)
    (payload : List ℕ)
    (faithful : (b : List ℕ) (s : Str)
      → has_bom b ≡ false
      → decode_text b ≡ some s
      → encode_text s ≡ b) where
  abbrev StandsAt : List Str → ℕ → GroupMember → Type 0
  StandsAt seen offset m =
      (encode_entry is_point encode_text seen m ≡ ok (entry_of is_point encode_text m))
      × (drop offset payload
          ≡ entry_of is_point encode_text m ++ drop (entry_end payload offset) payload)

  written :
      (seen : List Str) (offset : ℕ) (key : List ℕ) (name : Str)
      → encode_public_key is_point key ≡ ok key
      → key ≡ subarray payload offset (offset + 65)
      → not (ltb (length payload - offset) 67) ≡ true
      → (reserved_bits (get_or payload (offset + 65) 0) == 0) ≡ true
      → not (ltb 32 (get_or payload (offset + 66) 0)) ≡ true
      → not (ltb (length payload - (offset + 67)) (get_or payload (offset + 66) 0 + 64)) ≡ true
      → not (contains key seen) ≡ true
      → encode_text name
        ≡ subarray payload (offset + 67) (offset + 67 + get_or payload (offset + 66) 0)
      → StandsAt seen offset (record {
        identity_pub = key;
        is_author = sets_author (get_or payload (offset + 65) 0);
        display_name = name;
      })
  unfolding entry_of
  written seen offset key name valid same long clear short room fresh text =
      let size = get_or payload (offset + 66) 0 in
      let sized : length (subarray payload (offset + 67) (offset + 67 + size)) ≡ size =
        length-subarray payload (offset + 67) size (ground arith) in
      (
        encode_entry-ok is_point encode_text seen _ valid fresh
            (ap (λ n. not (ltb 32 n)) (ap (λ b. length b) text ∙ sized) ∙ short),
        entry_layout payload offset (ground arith)
            ∙ parts key _ _ size (encode_text name) _ _ same (flag_of_flags _ clear) text sized,
      )

  entry-StandsAt :
      (seen : List Str) (offset : ℕ) (m : GroupMember)
      → has_bom (raw_name payload offset) ≡ false
      → decode_entry is_point decode_text payload seen offset ≡ ok m
      → StandsAt seen offset m
  unfolding decode_entry
  entry-StandsAt seen offset m plain h =
      let raw_key = subarray payload offset (offset + 65) in
      let flags = get_or payload (offset + 65) 0 in
      let size = get_or payload (offset + 66) 0 in
      let raw = subarray payload (offset + 67) (offset + 67 + size) in
      let (_, a, h1) = >>=-eq-ok (require (not (ltb (length payload - offset) 67)) _) _ h in
      let (key, b, h2) = >>=-eq-ok (as_malformed_entry (encode_public_key is_point raw_key)) _ h1 in
      let (_, c, h3) = >>=-eq-ok (require (reserved_bits flags == 0) _) _ h2 in
      let (_, d, h4) = >>=-eq-ok (require (not (ltb 32 size)) _) _ h3 in
      let (_, e, h5) =
        >>=-eq-ok (require (not (ltb (length payload - (offset + 67)) (size + 64))) _) _ h4 in
      let (name, f, h6) = >>=-eq-ok (name_or_malformed (decode_text raw)) _ h5 in
      let (_, g, h7) = >>=-eq-ok (require (not (contains key seen)) _) _ h6 in
      let valid = as_malformed_entry-eq-ok _ b in
      let same = (encode_public_key-eq-ok is_point raw_key valid).1 in
      subst (StandsAt seen offset) (of_ok h7) (
        written seen offset key name (ap (encode_public_key is_point) same ∙ valid) same
          (require-eq-ok _ _ a) (require-eq-ok _ _ c) (require-eq-ok _ _ d) (require-eq-ok _ _ e)
          (require-eq-ok _ _ g) (faithful _ _ plain (name_or_malformed-eq-ok _ f)))

  -- The entries from an offset on, and what is behind them.
  pub entries-StandAt :
      (count : ℕ) (seen : List Str) (offset : ℕ) (scan : Scan)
      → NamesPlain payload count offset
      → decode_entries is_point decode_text payload count seen offset ≡ ok scan
      → (entries : List ℕ) × ((encode_entries is_point encode_text seen scan.members ≡ ok entries)
          × ((drop offset payload ≡ entries ++ drop scan.offset payload)
              × (length scan.members ≡ count)))
  unfolding decode_entries encode_entries
  entries-StandAt zero seen offset scan plain h = rw (sym (of_ok h)) ([], (refl, (refl, refl)))
  entries-StandAt (suc count) seen offset scan (plain, plains) h =
      let (m, a, h1) = >>=-eq-ok (decode_entry is_point decode_text payload seen offset) _ h in
      let (rest, b, h2) =
        >>=-eq-ok
          (decode_entries is_point decode_text payload count (pub_key_id m.identity_pub ∷ seen)
            (entry_end payload offset))
          _ h1 in
      let (entries, (c, (d, n))) = entries-StandAt count _ _ rest plains b in
      let (e, f) = entry-StandsAt seen offset m plain a in
      let entry = entry_of is_point encode_text m in
      rw (sym (of_ok h2)) (
        entry ++ entries,
        (
          rw (e, c) refl,
          (
            f
                ∙ ap (λ l. entry ++ l) d
                ∙ sym (append_assoc entry entries (drop rest.offset payload)),
            ap suc n,
          ),
        ),
      )
