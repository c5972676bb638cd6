-- ===== src/Store/Repo/Malformed.antt =====
-- What a reload throws.
use fuck_chat_control.Base.{
  ◌≡◌, ◌⊎◌, refl, true, Option, none, some, List, [], ◌∷◌, arith, Str, str, str_eq,
}
use fuck_chat_control.Base.Map as Map
use fuck_chat_control.Base.Map.{Map}
use fuck_chat_control.Base.Result.{ok, err, ◌>>=◌}
use fuck_chat_control.Base.Json.{Json, arr, Items, nil, cons, property}
use fuck_chat_control.Store.Types.{store, malformed_bundle, type_error, Stored}
use fuck_chat_control.Store.Repo.Reload.{
  Reading, SerializedState, or_malformed, prints_value, array_of,
}

-- The call returns, or throws `MalformedBundle`.
abbrev pub OnlyMalformed : {A : Type 0} → Stored A → Type 0
OnlyMalformed (ok a) = Unit {0}
OnlyMalformed (err e) = e ≡ store malformed_bundle

bind-OnlyMalformed :
    {A B : Type 0} (m : Stored A) (f : A → Stored B)
    → OnlyMalformed m
    → ((a : A) → OnlyMalformed (f a))
    → OnlyMalformed (m >>= f)
bind-OnlyMalformed (ok a) f h k = k a
bind-OnlyMalformed (err e) f h k = h

or_malformed-OnlyMalformed : {A : Type 0} (o : Option A) → OnlyMalformed (or_malformed o)
or_malformed-OnlyMalformed none = refl
or_malformed-OnlyMalformed (some a) = tt

array_of-OnlyMalformed : (reading : Reading) (v : Option Json) → OnlyMalformed (array_of reading v)
array_of-OnlyMalformed reading v = ground arith

-- The call returns, or throws `MalformedBundle`, or a `TypeError` where `Printable` fails.
abbrev pub OnlyStated : Type 0 → {A : Type 0} → Stored A → Type 0
OnlyStated Printable (ok a) = Unit {0}
OnlyStated Printable (err e) = (e ≡ store malformed_bundle) ⊎ ((e ≡ type_error) × (Printable → ⊥))

-- What the templates of the code are given: the ids and the directions of a state.
abbrev pub Prints : Str → Json → Type 0
Prints name v = prints_value (property name v) ≡ true

abbrev pub MessagesPrint : Items → Type 0
MessagesPrint nil = Unit {0}
MessagesPrint (cons m items) = Prints (str "direction") m × MessagesPrint items

abbrev pub messages_of : Option Json → Items
messages_of (some (arr items)) = items
messages_of _ = nil

abbrev pub GroupPrints : Json → Type 0
GroupPrints group =
    Prints (str "conversationId") group
    × MessagesPrint (messages_of (property (str "messages") group))

abbrev pub EachPrints : (Json → Type 0) → List Json → Type 0
EachPrints P [] = Unit {0}
EachPrints P (v ∷ values) = P v × EachPrints P values

abbrev pub IsPrintable : SerializedState → Type 0
IsPrintable state =
    EachPrints (Prints (str "id")) state.conversations × EachPrints GroupPrints state.messages
