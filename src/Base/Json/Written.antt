-- ===== src/Base/Json/Written.antt =====
-- The text that `JSON.stringify` writes of a value, in UTF-16 code units.
use fuck_chat_control.Base.{
  ℕ, ◌/◌, ◌%◌, Bool, true, false, ◌&&◌, Option, none, some, [], ◌∷◌, ◌++◌, if◌then◌else◌, ltb, leb,
  ◌==◌, get_or, Str, str,
}
use fuck_chat_control.Base.Json.{
  Json, Items, Fields, null, bool, num, text, arr, obj, nil, cons, end, field,
}

-- `\uXXXX`.
abbrev pub unicode_escape : ℕ → Str
unicode_escape c =
    let digits = str "0123456789abcdef" in
    92
    ∷ 117
    ∷ get_or digits (c / 4096 % 16) 0
    ∷ get_or digits (c / 256 % 16) 0
    ∷ get_or digits (c / 16 % 16) 0
    ∷ get_or digits (c % 16) 0
    ∷ []

-- A code unit that is no half of a pair.
abbrev pub escape : ℕ → Str
escape c =
    if c == 34
    then 92 ∷ 34 ∷ []
    else if c == 92
    then 92 ∷ 92 ∷ []
    else if c == 8
    then 92 ∷ 98 ∷ []
    else if c == 12
    then 92 ∷ 102 ∷ []
    else if c == 10
    then 92 ∷ 110 ∷ []
    else if c == 13
    then 92 ∷ 114 ∷ []
    else if c == 9
    then 92 ∷ 116 ∷ []
    else if ltb c 32
    then unicode_escape c
    else c ∷ []

abbrev pub is_leading : ℕ → Bool
is_leading c = leb 55296 c && ltb c 56320

abbrev pub is_trailing : ℕ → Bool
is_trailing c = leb 56320 c && ltb c 57344

-- What is written of the rest of a string, and its first code unit if that is a trailing half, which is not
-- written yet: together with a leading half it is kept, alone it is escaped.
pub record Tail : Type 0 where
  pub trailing : Option ℕ
  pub output : Str

abbrev pub flushed : Tail → Str
flushed t = elim t.trailing [ none ↦ t.output | some d ↦ unicode_escape d ++ t.output ]

abbrev pub paired : ℕ → Tail → Str
paired c t = elim t.trailing [ none ↦ unicode_escape c ++ t.output | some d ↦ c ∷ d ∷ t.output ]

unfoldable pub tail_of : Str → Tail
tail_of [] = record { trailing = none; output = [] }
tail_of (c ∷ s) =
    let t = tail_of s in
    if is_trailing c
    then record { trailing = some c; output = flushed t }
    else if is_leading c
    then record { trailing = none; output = paired c t }
    else record { trailing = none; output = escape c ++ flushed t }

unfoldable pub quoted : Str → Str
quoted s = 34 ∷ (flushed (tail_of s) ++ (34 ∷ []))

-- The literal of a number is what is written of it. A list goes on with a comma.
unfoldable mutual
  pub stringify : Json → Str
  stringify null = str "null"
  stringify (bool true) = str "true"
  stringify (bool false) = str "false"
  stringify (num literal) = literal
  stringify (text s) = quoted s
  stringify (arr nil) = str "[]"
  stringify (arr (cons v items)) = 91 ∷ (stringify v ++ stringify_items items)
  stringify (obj end) = str "{}"
  stringify (obj (field k v fields)) =
      123 ∷ (quoted k ++ (58 ∷ (stringify v ++ stringify_fields fields)))

  pub stringify_items : Items → Str
  stringify_items nil = 93 ∷ []
  stringify_items (cons v items) = 44 ∷ (stringify v ++ stringify_items items)

  pub stringify_fields : Fields → Str
  stringify_fields end = 125 ∷ []
  stringify_fields (field k v fields) =
      44 ∷ (quoted k ++ (58 ∷ (stringify v ++ stringify_fields fields)))
