-- ===== src/Store/Repo/Reload.antt =====
-- store/in-memory-repo.ts: `reload`. The whole state is read before a map is touched; then the maps are cleared,
-- which is awaited, and filled. A serialized state is what a bundle's JSON holds: its fields may be anything.
use fuck_chat_control.Base.{
  ℕ, Bool, true, false, ◌&&◌, not, Option, none, some, List, [], ◌∷◌, if◌then◌else◌, ◌==◌, length,
  Str, str, str_beq, str_eq,
}
use fuck_chat_control.Base.Map as Map
use fuck_chat_control.Base.Map.{Map}
use fuck_chat_control.Base.Result.{ok, err, ◌>>=◌, ◌>>◌, require}
use fuck_chat_control.Base.Json.{
  Json, null, bool, num, text, arr, obj, Items, nil, cons, find, property,
}
use fuck_chat_control.Protocol.Limits.{conversation_id_bytes}
use fuck_chat_control.Protocol.Codec.{Checked}
use fuck_chat_control.Protocol.Keys.{encode_public_key}
use fuck_chat_control.Store.Types.{
  malformed_bundle, store, type_error, Stored, MessageDirection, sent, received, direction_text,
}
use fuck_chat_control.Store.Encoding.{hex_to_bytes}
use fuck_chat_control.Store.Base64.{base64_to_bytes}
use fuck_chat_control.Store.Repo.{
  PeerIdentityRecord, InternalConversation, InternalMessage, Repository, id_key, clear_all,
}

pub record SerializedState : Type 0 where
  pub conversations : List Json
  pub messages : List Json

-- `nextConversations`, `nextKeyById` and `nextMessages`.
pub record Loaded : Type 0 where
  pub conversations : Map Str InternalConversation
  pub key_by_id : Map Str (List ℕ)
  pub messages : Map Str (List InternalMessage)

abbrev pub nothing_loaded : Loaded
nothing_loaded = record { conversations = []; key_by_id = []; messages = [] }

abbrev pub malformed {ℓ} : {A : Type ℓ} → Stored A
malformed = err (store malformed_bundle)

abbrev pub or_malformed {ℓ} : {A : Type ℓ} → Option A → Stored A
or_malformed none = malformed
or_malformed (some a) = ok a

abbrev pub require_or_malformed : Bool → Stored (Unit {0})
require_or_malformed holds = require holds (store malformed_bundle)

-- `value !== null && typeof value === "object"`.
abbrev pub is_object : Json → Bool
is_object (obj fields) = true
is_object (arr items) = true
is_object _ = false

-- A string is required; `undefined` is `none`.
abbrev pub string_of : Option Json → Stored Str
string_of (some (text s)) = ok s
string_of _ = malformed

abbrev pub string_or_null : Option Json → Stored (Option Str)
string_or_null (some null) = ok none
string_or_null (some (text s)) = ok (some s)
string_or_null _ = malformed

abbrev pub has_no_text : Option Json → Bool
has_no_text none = true
has_no_text (some v) = false

-- Whether a template that holds the value gives a text. It throws a `TypeError` where it comes to an object with a
-- `toString` of its own, which is no function; an array's items are written one after the other.
unfoldable mutual
  pub prints : Json → Bool
  prints (obj fields) = has_no_text (find (str "toString") fields)
  prints (arr items) = prints_items items
  prints _ = true

  pub prints_items : Items → Bool
  prints_items nil = true
  prints_items (cons v items) = prints v && prints_items items

abbrev pub prints_value : Option Json → Bool
prints_value none = true
prints_value (some v) = prints v

-- `throw new StoreError(MalformedBundle, ...)` with the value in the message.
abbrev pub malformed_value {ℓ} : {A : Type ℓ} → Option Json → Stored A
malformed_value value = if prints_value value then malformed else err type_error

-- `item.charCodeAt(0)` of the items of an array, `none` where one has none.
abbrev pub first_units : Items → Option Str
first_units nil = some []
first_units (cons (text (c ∷ s)) items) =
    let rest = first_units items in elim rest [ none ↦ none | some units ↦ some (c ∷ units) ]
first_units (cons v items) = none

-- `hexToBytes(value)`, which takes an array of characters for a string. An object with a `length` of its own is
-- refused here.
abbrev pub hex_of : Option Json → Option (List ℕ)
hex_of (some (text s)) = hex_to_bytes s
hex_of (some (arr items)) = elim (first_units items) [ none ↦ none | some hex ↦ hex_to_bytes hex ]
hex_of _ = none

abbrev pub or_malformed_value : Option Json → Option (List ℕ) → Stored (List ℕ)
or_malformed_value value none = malformed_value value
or_malformed_value value (some bytes) = ok bytes

unfoldable pub decode_conversation_id_hex : Option Json → Stored (List ℕ)
decode_conversation_id_hex value = do
  bytes ← or_malformed_value value (hex_of value)
  require_or_malformed (length bytes == conversation_id_bytes)
  ok bytes

abbrev pub decode_stored_base64 : Option Json → Stored (List ℕ)
decode_stored_base64 value = string_of value >>= λ input. or_malformed (base64_to_bytes input none)

-- `decodeOrMalformed`.
abbrev pub decode_or_malformed : {A : Type 0} → Checked A → Stored A
decode_or_malformed (ok a) = ok a
decode_or_malformed (err e) = malformed

abbrev pub is_true : Option Json → Bool
is_true (some (bool true)) = true
is_true _ = false

-- `value ?? null`.
abbrev pub or_null : Option Json → Option Json
or_null (some null) = none
or_null value = value

unfoldable pub assert_direction : Option Json → Stored MessageDirection
assert_direction (some (text direction)) =
    if str_beq direction (direction_text sent)
    then ok sent
    else if str_beq direction (direction_text received)
    then ok received
    else malformed
assert_direction value = malformed_value value

-- What the state is read with: the curve's check of a key, and the value of a number's literal, `none` where it is
-- not finite.
pub record Reading : Type 0 where
  pub is_valid_public_key : List ℕ → Bool
  pub number : Str → Option ℕ

module _ (reading : Reading) where
  abbrev pub finite_number : Option Json → Stored ℕ
  finite_number (some (num literal)) = or_malformed (reading.number literal)
  finite_number _ = malformed

  unfoldable pub deserialize_peer : Json → Stored PeerIdentityRecord
  deserialize_peer peer = do
    require_or_malformed (is_object peer)
    fingerprint ← string_of (property (str "fingerprint") peer)
    key_bytes ← decode_stored_base64 (property (str "publicKey") peer)
    public_key ← decode_or_malformed (encode_public_key reading.is_valid_public_key key_bytes)
    ok (record { fingerprint = fingerprint; public_key = public_key })

  abbrev pub peer_or_null : Option Json → Stored (Option PeerIdentityRecord)
  peer_or_null (some null) = ok none
  peer_or_null (some peer) = deserialize_peer peer >>= λ record_of_peer. ok (some record_of_peer)
  peer_or_null none = malformed

  unfoldable pub deserialize_message : Json → Stored InternalMessage
  deserialize_message m = do
    require_or_malformed (is_object m)
    id ← string_of (property (str "id") m)
    require_or_malformed (not (length id == 0))
    timestamp ← finite_number (property (str "timestamp") m)
    direction ← assert_direction (property (str "direction") m)
    nonce ← decode_stored_base64 (property (str "nonce") m)
    ciphertext ← decode_stored_base64 (property (str "ciphertext") m)
    ok (record {
      id = id;
      direction = direction;
      timestamp = timestamp;
      nonce = nonce;
      ciphertext = ciphertext;
    })

  abbrev pub deserialize_messages : Items → Stored (List InternalMessage)
  deserialize_messages nil = ok []
  deserialize_messages (cons m items) = do
    message ← deserialize_message m
    rest ← deserialize_messages items
    ok (message ∷ rest)

  -- A turn of the loop over the conversations.
  unfoldable pub load_conversation : Loaded → Json → Stored Loaded
  load_conversation next convo = do
    require_or_malformed (is_object convo)
    id ← decode_conversation_id_hex (property (str "id") convo)
    require_or_malformed (not (Map.has (id_key id) next.conversations))
    created_at ← finite_number (property (str "createdAt") convo)
    display_name ← string_or_null (property (str "displayName") convo)
    peer ← peer_or_null (property (str "peer") convo)
    ok (record {
      conversations =
          Map.set (id_key id)
            (record {
              created_at = created_at;
              display_name = display_name;
              peer = peer;
              auth_failed = is_true (property (str "authFailed") convo);
              auth_failed_at = or_null (property (str "authFailedAt") convo);
            })
            next.conversations;
      key_by_id = Map.set (id_key id) id next.key_by_id;
      messages = Map.set (id_key id) [] next.messages;
    })

  abbrev pub load_conversations : Loaded → List Json → Stored Loaded
  load_conversations next [] = ok next
  load_conversations next (convo ∷ convos) =
      load_conversation next convo >>= λ more. load_conversations more convos

  abbrev pub array_of : Option Json → Stored Items
  array_of (some (arr items)) = ok items
  array_of _ = malformed

  -- A turn of the loop over the message groups, with `seenMessageGroups`.
  unfoldable pub load_group :
      Loaded × Map Str (Unit {0}) → Json → Stored (Loaded × Map Str (Unit {0}))
  load_group (next, seen) group = do
    items ← array_of (property (str "messages") group)
    id ← decode_conversation_id_hex (property (str "conversationId") group)
    require_or_malformed (Map.has (id_key id) next.conversations)
    require_or_malformed (not (Map.has (id_key id) seen))
    list ← deserialize_messages items
    ok (
      record next { messages = Map.set (id_key id) list next.messages },
      Map.set (id_key id) tt seen,
    )

  abbrev pub load_groups : Loaded × Map Str (Unit {0}) → List Json → Stored Loaded
  load_groups next [] = ok next.0
  load_groups next (group ∷ groups) = load_group next group >>= λ more. load_groups more groups

  unfoldable pub load_state : SerializedState → Stored Loaded
  load_state state = do
    next ← load_conversations nothing_loaded state.conversations
    load_groups (next, []) state.messages

  -- `reload` up to the `await` of `clearAll`.
  unfoldable pub begin_reload : Repository → SerializedState → Stored (Repository × Loaded)
  begin_reload r state = load_state state >>= λ next. ok (clear_all r, next)

-- `for (const [key, value] of next) map.set(key, value)`.
abbrev pub set_each {ℓ} : {V : Type ℓ} → Map Str V → Map Str V → Map Str V
set_each [] m = m
set_each ((key, value) ∷ next) m = set_each next (Map.set key value m)

-- `reload` from the `await` on.
unfoldable pub end_reload : Repository → List ℕ → Loaded → Repository
end_reload r at_rest_key next = record r {
  at_rest_key = some at_rest_key;
  conversations = set_each next.conversations r.conversations;
  key_by_id = set_each next.key_by_id r.key_by_id;
  messages = set_each next.messages r.messages;
}
