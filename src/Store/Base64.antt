-- ===== src/Store/Base64.antt =====
-- store/encoding.ts: bytes in base64.
use fuck_chat_control.Base.{
  ℕ, ◌+◌, ◌-◌, ◌*◌, ◌/◌, ◌%◌, Bool, true, false, ◌&&◌, Option, none, some, List, [], ◌∷◌,
  if◌then◌else◌, leb, ◌==◌, get_or, Str, str, ◌||◌, not, ◌++◌, set, take, replicate, length,
}

abbrev pub base64_chars : Str
base64_chars = str "ABCDEFGHIJKLMNOPQRSTUVWXYZabcdefghijklmnopqrstuvwxyz0123456789+/"

abbrev is_base64_char : ℕ → Bool
is_base64_char code =
    leb 65 code && leb code 90
    || leb 97 code && leb code 122
    || leb 48 code && leb code 57
    || code == 43
    || code == 47

-- `={0,2}$`.
abbrev is_padding : Str → Bool
is_padding [] = true
is_padding (c ∷ []) = c == 61
is_padding (c ∷ d ∷ []) = c == 61 && d == 61
is_padding (c ∷ d ∷ e ∷ input) = false

-- `/^[A-Za-z0-9+/]*={0,2}$/`.
abbrev pub is_base64 : Str → Bool
is_base64 [] = true
is_base64 (c ∷ input) = is_padding (c ∷ input) || is_base64_char c && is_base64 input

-- `\s`.
abbrev is_space : ℕ → Bool
is_space code =
    leb 9 code && leb code 13
    || code == 32
    || code == 160
    || code == 5760
    || leb 8192 code && leb code 8202
    || code == 8232
    || code == 8233
    || code == 8239
    || code == 8287
    || code == 12288
    || code == 65279

abbrev pub without_spaces : Str → Str
without_spaces [] = []
without_spaces (c ∷ input) =
    let rest = without_spaces input in if is_space c then rest else c ∷ rest

-- `lookup[chars.charCodeAt(i)] = i`, from `i` on.
abbrev fill_lookup : ℕ → Str → List ℕ → List ℕ
fill_lookup i [] lookup = lookup
fill_lookup i (c ∷ chars) lookup = fill_lookup (i + 1) chars (set lookup c i)

abbrev base64_lookup : List ℕ
base64_lookup = fill_lookup 0 base64_chars (replicate 128 0)

abbrev pub padding : Str → ℕ
padding [] = 0
padding (c ∷ []) = if c == 61 then 1 else 0
padding (c ∷ d ∷ []) = if not (d == 61) then 0 else if c == 61 then 2 else 1
padding (c ∷ d ∷ e ∷ input) = padding (d ∷ e ∷ input)

-- The bytes of four characters, `left` of them still to be written: the first is cut off by the array itself.
abbrev pub quad_bytes : ℕ → ℕ → ℕ → ℕ → ℕ → List ℕ
quad_bytes left c0 c1 c2 c3 =
    take left
      ((c0 * 4 + c1 / 16) % 256 ∷ (c1 % 16 * 16 + c2 / 4) % 256 ∷ (c2 % 4 * 64 + c3) % 256 ∷ [])

abbrev pub decode_quads : ℕ → Str → List ℕ
decode_quads left (a ∷ b ∷ c ∷ d ∷ input) =
    quad_bytes left (get_or base64_lookup a 0) (get_or base64_lookup b 0) (get_or base64_lookup c 0)
      (get_or base64_lookup d 0)
    ++ decode_quads (left - 3) input
decode_quads left input = []

abbrev pub decoded_length : Str → ℕ
decoded_length input = length input / 4 * 3 - padding input

abbrev pub fits : Option ℕ → ℕ → Bool
fits none n = true
fits (some limit) n = leb n limit

unfoldable pub base64_to_bytes : Str → Option ℕ → Option (List ℕ)
base64_to_bytes base64 max_bytes =
    let input = without_spaces base64 in
    if not (is_base64 input && length input % 4 == 0)
    then none
    else if not (fits max_bytes (decoded_length input))
    then none
    else some (decode_quads (decoded_length input) input)

unfoldable pub bytes_to_base64 : List ℕ → Str
bytes_to_base64 [] = []
bytes_to_base64 (a ∷ []) =
    get_or base64_chars (a / 4) 0 ∷ get_or base64_chars (a % 4 * 16) 0 ∷ 61 ∷ 61 ∷ []
bytes_to_base64 (a ∷ b ∷ []) =
    get_or base64_chars (a / 4) 0
    ∷ get_or base64_chars (a % 4 * 16 + b / 16) 0
    ∷ get_or base64_chars (b % 16 * 4) 0
    ∷ 61
    ∷ []
bytes_to_base64 (a ∷ b ∷ c ∷ bytes) =
    get_or base64_chars (a / 4) 0
    ∷ get_or base64_chars (a % 4 * 16 + b / 16) 0
    ∷ get_or base64_chars (b % 16 * 4 + c / 64) 0
    ∷ get_or base64_chars (c % 64) 0
    ∷ bytes_to_base64 bytes
