-- ===== src/Orchestrator/Invitation/RoundTrip.antt =====
-- An invitation that was formatted is parsed back.
use fuck_chat_control.Base.{
  ℕ, ◌+◌, ◌/◌, ◌%◌, ◌<◌, ◌≡◌, ◌⊎◌, inl, inr, refl, sym, ap, ap2, ◌∙◌, Bool, true, false, ◌&&◌,
  Option, none, some, List, [], ◌∷◌, ◌++◌, ◌==◌, arith, length, length-append, get_or, drop, Str,
}
use fuck_chat_control.Base.Result.{ok}
use fuck_chat_control.Protocol.Bytes.{Bytes, take-append, drop-append, append_assoc}
use fuck_chat_control.Store.Encoding.{
  hex_digits, bytes_to_hex, hex_to_bytes-bytes_to_hex, all_below-holds,
}
use fuck_chat_control.Orchestrator.Invitation.{
  every, is_digit, is_hex_digit, is_hex_id, is_code, is_hex_with_code, hex_to_conversation_id,
  trim_hash, format_invitation, format_coded_invitation, lower, to_lower_case, tilde_of,
  parse_stripped, parse_invitation,
}

written : (i : ℕ) → i < 16 → is_hex_digit (get_or hex_digits i 0) ≡ true
written i h = all_below-holds (λ i. is_hex_digit (get_or hex_digits i 0)) 16 i refl h

every-bytes_to_hex : (bytes : List ℕ) → Bytes bytes → every is_hex_digit (bytes_to_hex bytes) ≡ true
unfolding bytes_to_hex
every-bytes_to_hex [] h = refl
every-bytes_to_hex (b ∷ bytes) (small, h) =
    rw (written (b / 16) (omega arith), written (b % 16) (omega arith), every-bytes_to_hex bytes h)
      refl

length-bytes_to_hex : (bytes : List ℕ) → length (bytes_to_hex bytes) ≡ length bytes + length bytes
unfolding bytes_to_hex
length-bytes_to_hex [] = refl
length-bytes_to_hex (b ∷ bytes) = omega (arith, length-bytes_to_hex bytes)

lower-hex_digit : (c : ℕ) → is_hex_digit c ≡ true → lower c ≡ c
lower-hex_digit c h = ground arith

lower-digit : (c : ℕ) → is_digit c ≡ true → lower c ≡ c
lower-digit c h = ground arith

to_lower_case-every :
    (test : ℕ → Bool) (s : Str)
    → ((c : ℕ) → test c ≡ true → lower c ≡ c)
    → every test s ≡ true
    → to_lower_case s ≡ s
to_lower_case-every test [] f h = refl
to_lower_case-every test (c ∷ s) f h =
    ap2 (λ c s. c ∷ s) (f c (ground arith)) (to_lower_case-every test s f (ground arith))

to_lower_case-append : (s t : Str) → to_lower_case (s ++ t) ≡ to_lower_case s ++ to_lower_case t
to_lower_case-append [] t = refl
to_lower_case-append (c ∷ s) t = ap (λ r. lower c ∷ r) (to_lower_case-append s t)

-- No hexadecimal digit is a tilde.
pub tilde_of-append :
    (hex tail : Str)
    → every is_hex_digit hex ≡ true
    → tilde_of (hex ++ (126 ∷ tail)) ≡ some (length hex)
tilde_of-append [] tail h = refl
tilde_of-append (c ∷ hex) tail h = rw (other, tilde_of-append hex tail (ground arith)) refl
  where
    other : (c == 126) ≡ false
    other = ground arith

module _ (id : List ℕ) (bytes : Bytes id) (long : length id ≡ 16) where
  bytes_to_hex-is_hex_id : is_hex_id (bytes_to_hex id) ≡ true
  unfolding is_hex_id
  bytes_to_hex-is_hex_id = rw (every-bytes_to_hex id bytes) (sized (length-bytes_to_hex id))
    where
      sized :
          length (bytes_to_hex id) ≡ length id + length id
          → ((length (bytes_to_hex id) == 32) && true) ≡ true
      sized e = ground arith

  read_id : hex_to_conversation_id (bytes_to_hex id) ≡ ok id
  unfolding hex_to_conversation_id
  read_id = rw (bytes_to_hex-is_hex_id, hex_to_bytes-bytes_to_hex id bytes) refl

  read_bare : parse_stripped (bytes_to_hex id) ≡ ok (record { conversation_id = id; code = none })
  read_bare = rw (bytes_to_hex-is_hex_id, read_id) refl

  module _ (code : Str) (six : is_code code ≡ true) where
    sized : length (bytes_to_hex id) ≡ 32
    sized = omega (arith, length-bytes_to_hex id, long)

    not_bare : is_hex_id (bytes_to_hex id ++ (126 ∷ code)) ≡ false
    unfolding is_hex_id is_code
    not_bare = ground (arith, length-append (bytes_to_hex id) (126 ∷ code), sized, six)

    with_code : is_hex_with_code (bytes_to_hex id ++ (126 ∷ code)) ≡ true
    unfolding is_hex_with_code
    with_code =
        rw
          (
            take-append (bytes_to_hex id) (126 ∷ code) 32 sized,
            drop-append (bytes_to_hex id) (126 ∷ code) 32 sized,
            bytes_to_hex-is_hex_id,
            six,
          )
          refl

    behind_tilde : drop 33 (bytes_to_hex id ++ (126 ∷ code)) ≡ code
    behind_tilde =
        ap (drop 33) (sym (append_assoc (bytes_to_hex id) (126 ∷ []) code))
        ∙ drop-append (bytes_to_hex id ++ (126 ∷ [])) code 33
            (omega (arith, length-append (bytes_to_hex id) (126 ∷ []), sized))

    read_coded :
        parse_stripped (bytes_to_hex id ++ (126 ∷ code))
        ≡ ok (record { conversation_id = id; code = some code })
    read_coded =
        rw
          (
            not_bare,
            with_code,
            tilde_of-append (bytes_to_hex id) code (every-bytes_to_hex id bytes),
            sized,
            take-append (bytes_to_hex id) (126 ∷ code) 32 sized,
            read_id,
            behind_tilde,
          )
          refl

    digits : every is_digit code ≡ true
    unfolding is_code
    digits = ground (arith, six)

    lower_coded : to_lower_case (bytes_to_hex id ++ (126 ∷ code)) ≡ bytes_to_hex id ++ (126 ∷ code)
    lower_coded =
        to_lower_case-append (bytes_to_hex id) (126 ∷ code)
        ∙ ap2 (λ hex code. hex ++ (126 ∷ code))
            (to_lower_case-every is_hex_digit (bytes_to_hex id) lower-hex_digit
              (every-bytes_to_hex id bytes))
            (to_lower_case-every is_digit code lower-digit digits)

-- What a parse makes of the code of a link, where none is the empty one.
abbrev pub code_of : Str → Option Str
code_of [] = none
code_of (c ∷ code) = some (c ∷ code)

-- A link with the id of a conversation and no code or one of six digits is the address that it was made for and a
-- fragment that is parsed to that id and that code.
pub parse_invitation-format_coded_invitation :
    (id : List ℕ) (base_url code : Str)
    → Bytes id
    → length id ≡ 16
    → (code ≡ []) ⊎ (is_code code ≡ true)
    → (fragment : Str) × ((format_coded_invitation id base_url code
          ≡ trim_hash base_url ++ fragment)
        × (parse_invitation fragment ≡ ok (record { conversation_id = id; code = code_of code })))
unfolding format_coded_invitation format_invitation parse_invitation
parse_invitation-format_coded_invitation id base_url [] bytes long h = (
  35 ∷ bytes_to_hex id,
  (
    refl,
    ap parse_stripped (
          to_lower_case-every is_hex_digit (bytes_to_hex id) lower-hex_digit
            (every-bytes_to_hex id bytes))
        ∙ read_bare id bytes long,
  ),
)
parse_invitation-format_coded_invitation id base_url (c ∷ code) bytes long (inl e) = absurd (cc)
parse_invitation-format_coded_invitation id base_url (c ∷ code) bytes long (inr six) = (
  35 ∷ (bytes_to_hex id ++ (126 ∷ c ∷ code)),
  (
    refl,
    ap parse_stripped (lower_coded id bytes long (c ∷ code) six)
        ∙ read_coded id bytes long (c ∷ code) six,
  ),
)
