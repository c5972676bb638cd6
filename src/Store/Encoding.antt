-- ===== src/Store/Encoding.antt =====
-- store/encoding.ts: bytes in hexadecimal.
use fuck_chat_control.Base.{
  ℕ, zero, suc, ◌+◌, ◌-◌, ◌*◌, ◌/◌, ◌%◌, ◌<◌, ◌≡◌, refl, sym, ap, ◌∙◌, Bool, true, false, ◌&&◌,
  Option, none, some, List, [], ◌∷◌, if◌then◌else◌, leb, ◌==◌, ==_iff, get_or, arith, Str, str,
  of_some,
}
use fuck_chat_control.Protocol.Bytes.{Bytes}

abbrev pub hex_digits : Str
hex_digits = str "0123456789abcdef"

unfoldable pub bytes_to_hex : List ℕ → Str
bytes_to_hex [] = []
bytes_to_hex (b ∷ bytes) =
    get_or hex_digits (b / 16) 0 ∷ get_or hex_digits (b % 16) 0 ∷ bytes_to_hex bytes

-- `none` is the throw.
abbrev pub parse_hex_digit : ℕ → Option ℕ
parse_hex_digit code =
    if leb 48 code && leb code 57
    then some (code - 48)
    else if leb 97 code && leb code 102
    then some (code - 87)
    else if leb 65 code && leb code 70
    then some (code - 55)
    else none

abbrev pub hex_byte : Option ℕ → Option ℕ → Option (List ℕ) → Option (List ℕ)
hex_byte (some high) (some low) (some rest) = some ((high * 16 + low) ∷ rest)
hex_byte _ _ _ = none

-- The loop over the pairs. A string of odd length throws before it.
unfoldable pub hex_to_bytes : Str → Option (List ℕ)
hex_to_bytes [] = some []
hex_to_bytes (c ∷ []) = none
hex_to_bytes (c ∷ d ∷ hex) = hex_byte (parse_hex_digit c) (parse_hex_digit d) (hex_to_bytes hex)

-- A test that holds of every number below `n`.
abbrev pub all_below : (ℕ → Bool) → ℕ → Bool
all_below test zero = true
all_below test (suc n) = test n && all_below test n

pub all_below-holds : (test : ℕ → Bool) (n i : ℕ) → all_below test n ≡ true → i < n → test i ≡ true
all_below-holds test zero i h l = absurd (omega arith)
all_below-holds test (suc n) i h l = ground (arith, all_below-holds test n i)

abbrev is_digit_of : ℕ → Bool
is_digit_of i = elim (parse_hex_digit (get_or hex_digits i 0)) [ none ↦ false | some v ↦ v == i ]

parse-digit : (i : ℕ) → i < 16 → parse_hex_digit (get_or hex_digits i 0) ≡ some i
parse-digit i h =
    read (parse_hex_digit (get_or hex_digits i 0)) (all_below-holds is_digit_of 16 i refl h)
  where
    read :
        (o : Option ℕ)
        → (elim o as (λ _. Bool) [ none ↦ false | some v ↦ v == i ]) ≡ true
        → o ≡ some i
    read none e = absurd (cc)
    read (some v) e = ap some ((==_iff v i).0 e)

-- Bytes that are written in hexadecimal are read back.
pub hex_to_bytes-bytes_to_hex :
    (bytes : List ℕ) → Bytes bytes → hex_to_bytes (bytes_to_hex bytes) ≡ some bytes
unfolding hex_to_bytes bytes_to_hex
hex_to_bytes-bytes_to_hex [] h = refl
hex_to_bytes-bytes_to_hex (b ∷ bytes) (small, h) =
    rw
      (
        parse-digit (b / 16) (omega arith),
        parse-digit (b % 16) (omega arith),
        hex_to_bytes-bytes_to_hex bytes h,
      )
      (ap (λ n. some (n ∷ bytes)) {x = b / 16 * 16 + b % 16} {y = b} (omega arith))

pub bytes_to_hex_injective :
    (xs ys : List ℕ) → Bytes xs → Bytes ys → bytes_to_hex xs ≡ bytes_to_hex ys → xs ≡ ys
bytes_to_hex_injective xs ys hx hy e =
    let p : some xs ≡ some ys =
      sym (hex_to_bytes-bytes_to_hex xs hx) ∙ ap hex_to_bytes e ∙ hex_to_bytes-bytes_to_hex ys hy in
    of_some p
