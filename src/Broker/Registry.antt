-- ===== src/Broker/Registry.antt =====
-- broker/room-registry.ts: the registry of rooms. A `socket.close` is an entry of the list of close
-- frames that an operation returns.
pub mod Join
pub mod Invariant
pub mod Seating
pub mod Moves
pub mod Orderly
use Prim.Native.String.{String}
use fuck_chat_control.Base.{
  ℕ, zero, suc, Bool, true, false, ◌&&◌, ◌||◌, not, Option, none, some, List, [], ◌∷◌, Str, str_eq,
  if◌then◌else◌, leb, ◌==◌, length, or_default,
}
use fuck_chat_control.Base.Map
use fuck_chat_control.Base.Map.{Map}
use fuck_chat_control.Protocol.Limits.{default_max_group_members}
use fuck_chat_control.Broker.Errors.{
  BrokerErrorCode, duplicate_peer_id, room_mode_mismatch, broker_close_codes, broker_close_reasons,
}
use fuck_chat_control.Broker.Room.{
  Socket, RoomMode, room_id_hex_length, peer_id_hex_length, is_valid_room_id, is_valid_peer_id,
  seated_in, add_seat, remove_seat, remove_member, max_peers_per_room, empty_room, room_size,
  without, emptied_by, other_seat, SeatedPeer, is_excluded, list_seats, list_members, Room,
  pair_room, group_room, pair, group,
}

-- A close frame sent to a socket.
pub record Close : Type 0 where
  pub target : Socket
  pub code : ℕ
  pub reason : String

abbrev pub close_with : Socket → BrokerErrorCode → Close
close_with s e = record { target = s; code = broker_close_codes e; reason = broker_close_reasons e }

pub data JoinRejectionReason : Type 0 where
  malformed full too_many_rooms mode_mismatch duplicate_peer : JoinRejectionReason

pub record JoinResult : Type 0 where
  pub joined : Bool
  pub is_second_peer : Bool
  pub mode : Option RoomMode
  pub reason : Option JoinRejectionReason

pub record JoinOptions : Type 0 where
  pub mode : Option RoomMode
  pub peer_id : Option Str

pub record Registry : Type 0 where
  pub rooms : Map Str Room
  pub max_rooms : ℕ
  pub max_group_peers : ℕ

abbrev pub max_rooms_default : ℕ
max_rooms_default = 1024

-- The constructor, with the two optional caps.
unfoldable pub new_registry : Option ℕ → Option ℕ → Registry
new_registry rooms peers = record {
  rooms = [];
  max_rooms = or_default rooms max_rooms_default;
  max_group_peers = or_default peers default_max_group_members;
}

abbrev pub rejected : JoinRejectionReason → JoinResult
rejected why = record { joined = false; is_second_peer = false; mode = none; reason = some why }

abbrev pub seated : RoomMode → Bool → JoinResult
seated m second = record { joined = true; is_second_peer = second; mode = some m; reason = none }

-- What an operation leaves: the registry, its answer and the close frames that it sent.
pub record Joined : Type 0 where
  pub registry : Registry
  pub result : JoinResult
  pub closed : List Close

abbrev pub refuse : Registry → JoinRejectionReason → List Close → Joined
refuse r why closes = record { registry = r; result = rejected why; closed = closes }

abbrev pub overload : Socket → String → Close
overload s why = record { target = s; code = 1013; reason = why }

abbrev pub requested_mode : Option RoomMode → RoomMode
requested_mode (some group) = group
requested_mode _ = pair

-- A peerId is required in a group join, and must not stand in a pair join.
unfoldable pub peer_id_malformed : RoomMode → Option Str → Bool
peer_id_malformed group none = true
peer_id_malformed group (some p) = not (is_valid_peer_id p)
peer_id_malformed pair none = false
peer_id_malformed pair (some p) = true

abbrev pub put_room : Registry → Str → Room → Registry
put_room r id room = record r { rooms = Map.set id room r.rooms }

-- The second half of `join`: the room is there.
unfoldable pub enter : Registry → Str → Room → RoomMode → Option Str → Socket → Joined
enter r id (pair_room seats) pair p s =
    if leb max_peers_per_room (length seats)
    then refuse r full (overload s "room full" ∷ [])
    else record {
      registry = put_room r id (pair_room (add_seat s seats));
      result = seated pair (length (add_seat s seats) == max_peers_per_room);
      closed = [];
    }
enter r id (group_room m) group none s = refuse r malformed []
enter r id (group_room m) group (some p) s =
    if Map.has p m
    then refuse r duplicate_peer (close_with s duplicate_peer_id ∷ [])
    else if leb r.max_group_peers (Map.size m)
    then refuse r full (overload s "room full" ∷ [])
    else record {
      registry = put_room r id (group_room (Map.set p s m));
      result = seated group false;
      closed = [];
    }
enter r id (pair_room seats) group p s =
    refuse r mode_mismatch (close_with s room_mode_mismatch ∷ [])
enter r id (group_room m) pair p s = refuse r mode_mismatch (close_with s room_mode_mismatch ∷ [])

-- Only a join that would create a room is held to the cap on rooms.
unfoldable pub enter_or_create :
    Registry → Str → Option Room → RoomMode → Option Str → Socket → Joined
unfolding enter
enter_or_create r id (some room) mode p s = enter r id room mode p s
enter_or_create r id none mode p s =
    if leb r.max_rooms (Map.size r.rooms)
    then refuse r too_many_rooms (overload s "too many rooms" ∷ [])
    else enter (put_room r id (empty_room mode)) id (empty_room mode) mode p s

unfoldable pub join : Registry → Str → Socket → JoinOptions → Joined
unfolding enter_or_create peer_id_malformed
join r id s o =
    let mode = requested_mode o.mode in
    if not (is_valid_room_id id)
    then refuse r malformed []
    else if peer_id_malformed mode o.peer_id
    then refuse r malformed []
    else enter_or_create r id (Map.get id r.rooms) mode o.peer_id s

-- A room is dropped with its last seat.
unfoldable pub store_or_drop : Registry → Str → Room → Registry
store_or_drop r id room =
    if room_size room == 0 then record r { rooms = Map.delete id r.rooms } else put_room r id room

unfoldable pub leave : Registry → Str → Socket → Registry
unfolding store_or_drop
leave r id s = elim (Map.get id r.rooms) [
  | none ↦ r
  | some room ↦ store_or_drop r id (without s room)
]

unfoldable pub remove_from_all : Socket → Map Str Room → Map Str Room
unfolding emptied_by
remove_from_all s [] = []
remove_from_all s ((id, room) ∷ m) =
    let rest = remove_from_all s m in
    if emptied_by s room then rest else (id, without s room) ∷ rest

unfoldable pub remove_socket : Registry → Socket → Registry
unfolding remove_from_all
remove_socket r s = record r { rooms = remove_from_all s r.rooms }

unfoldable pub get_peer : Registry → Str → Socket → Option Socket
unfolding other_seat
get_peer r id s = elim (Map.get id r.rooms) [
  | none ↦ none
  | some room ↦ elim room [ pair_room seats ↦ other_seat s seats | group_room m ↦ none ]
]

unfoldable pub get_peer_by_id : Registry → Str → Str → Option Socket
get_peer_by_id r id p = elim (Map.get id r.rooms) [
  | none ↦ none
  | some room ↦ elim room [ pair_room seats ↦ none | group_room m ↦ Map.get p m ]
]

unfoldable pub list_peers : Registry → Str → Option Socket → List SeatedPeer
unfolding list_seats list_members
list_peers r id out = elim (Map.get id r.rooms) [
  | none ↦ []
  | some room ↦ elim room [
    | pair_room seats ↦ list_seats out seats
    | group_room m ↦ list_members out m
  ]
]

unfoldable pub peer_count : Registry → Str → ℕ
peer_count r id = elim (Map.get id r.rooms) [ none ↦ 0 | some room ↦ room_size room ]
