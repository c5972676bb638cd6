-- ===== src/Broker/Message.antt =====
-- broker/protocol.ts: the messages between a client and the broker, read from and written to JSON.
-- `formatMessage` is `JSON.stringify` of the value that `format_message` gives.
pub mod RoundTrip
use Prim.Native.String.{String}
use fuck_chat_control.Base.{
  ℕ, Bool, true, false, not, ◌||◌, Option, none, some, Str, str, str_beq, if◌then◌else◌, ltb, ◌==◌,
  length,
}
use fuck_chat_control.Base.Json.{
  Json, null, bool, num, text, arr, obj, Fields, end, field, property,
}
use fuck_chat_control.Broker.Room.{RoomMode, pair, group, is_valid_room_id, is_valid_peer_id}

-- Fields as in the source: roomId, mode and peerId; roomId and peerId; sdp (candidate), to and from.
pub data BrokerMessage : Type 0 where
  join : Str → Option RoomMode → Option Str → BrokerMessage
  leave : Str → Option Str → BrokerMessage
  offer answer ice : Json → Option Str → Option Str → BrokerMessage

abbrev pub broker_message_max_bytes : ℕ
broker_message_max_bytes = 16384

infixl 5 ◌>>=◌
abbrev pub ◌>>=◌ {ℓ κ} : {A : Type ℓ} {B : Type κ} → Option A → (A → Option B) → Option B
none >>= f = none
some a >>= f = f a

abbrev pub keep_if {ℓ} : {A : Type ℓ} → Bool → A → Option A
keep_if b a = if b then some a else none

-- `undefined` is `some none`, and a field that is malformed is `none`.
unfoldable pub read_peer_id_field : Option Json → Option (Option Str)
read_peer_id_field none = some none
read_peer_id_field (some (text s)) = keep_if (is_valid_peer_id s) (some s)
read_peer_id_field (some _) = none

unfoldable pub read_room_id : Option Json → Option Str
read_room_id (some (text s)) = keep_if (is_valid_room_id s) s
read_room_id _ = none

unfoldable pub read_mode : Option Json → Option (Option RoomMode)
read_mode none = some none
read_mode (some (text s)) =
    if str_beq s (str "pair")
    then some (some pair)
    else if str_beq s (str "group")
    then some (some group)
    else none
read_mode (some _) = none

-- The peerId must stand in a group join, and must not in an explicit pair join.
unfoldable pub mode_allows : Option RoomMode → Option Str → Bool
mode_allows (some group) none = false
mode_allows (some pair) (some p) = false
mode_allows _ _ = true

unfoldable pub read_join : Json → Option BrokerMessage
unfolding read_room_id read_mode read_peer_id_field mode_allows
read_join v = do
  room_id ← read_room_id (property (str "roomId") v)
  mode ← read_mode (property (str "mode") v)
  peer_id ← read_peer_id_field (property (str "peerId") v)
  keep_if (mode_allows mode peer_id) (join room_id mode peer_id)

unfoldable pub read_leave : Json → Option BrokerMessage
unfolding read_room_id read_peer_id_field
read_leave v = do
  room_id ← read_room_id (property (str "roomId") v)
  peer_id ← read_peer_id_field (property (str "peerId") v)
  some (leave room_id peer_id)

-- The relayed kinds differ in the name of their payload.
unfoldable pub read_relayed :
    (Json → Option Str → Option Str → BrokerMessage) → Option Json → Json → Option BrokerMessage
unfolding read_peer_id_field
read_relayed kind payload v = do
  body ← payload
  to ← read_peer_id_field (property (str "to") v)
  from ← read_peer_id_field (property (str "from") v)
  some (kind body to from)

unfoldable pub read_tagged : Str → Json → Option BrokerMessage
unfolding read_join read_leave read_relayed
read_tagged tag v =
    if str_beq tag (str "join")
    then read_join v
    else if str_beq tag (str "leave")
    then read_leave v
    else if str_beq tag (str "offer")
    then read_relayed offer (property (str "sdp") v) v
    else if str_beq tag (str "answer")
    then read_relayed answer (property (str "sdp") v) v
    else if str_beq tag (str "ice")
    then read_relayed ice (property (str "candidate") v) v
    else none

unfoldable pub read_text : Option Json → Option Str
read_text (some (text s)) = some s
read_text _ = none

unfoldable pub read_message : Json → Option BrokerMessage
unfolding read_tagged read_text
read_message v = do tag ← read_text (property (str "t") v); read_tagged tag v

-- A text, and what `JSON.parse` makes of it, `none` where that throws.
pub record RawText : Type 0 where
  pub text : Str
  pub parsed : Option Json

-- The limit counts code units.
unfoldable pub parse_message : RawText → Option BrokerMessage
unfolding read_message
parse_message raw =
    if length raw.text == 0 || ltb broker_message_max_bytes (length raw.text)
    then none
    else raw.parsed >>= read_message

abbrev optional_field : Str → Option Str → Fields → Fields
optional_field k none fs = fs
optional_field k (some s) fs = field k (text s) fs

abbrev mode_field : Option RoomMode → Fields → Fields
mode_field none fs = fs
mode_field (some pair) fs = field (str "mode") (text (str "pair")) fs
mode_field (some group) fs = field (str "mode") (text (str "group")) fs

abbrev relayed : Str → Str → Json → Option Str → Option Str → Json
relayed kind name body to from = obj (
    field (str "t") (text kind)
      (field name body (optional_field (str "to") to (optional_field (str "from") from end))))

unfoldable pub format_message : BrokerMessage → Json
format_message (join room_id mode peer_id) = obj (
    field (str "t") (text (str "join")) (
      field (str "roomId") (text room_id)
        (mode_field mode (optional_field (str "peerId") peer_id end))))
format_message (leave room_id peer_id) = obj (
    field (str "t") (text (str "leave"))
      (field (str "roomId") (text room_id) (optional_field (str "peerId") peer_id end)))
format_message (offer sdp to from) = relayed (str "offer") (str "sdp") sdp to from
format_message (answer sdp to from) = relayed (str "answer") (str "sdp") sdp to from
format_message (ice candidate to from) = relayed (str "ice") (str "candidate") candidate to from
