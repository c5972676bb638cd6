-- ===== src/Broker/Room.antt =====
-- broker/room-registry.ts: one room and its seats. A socket is an object compared by identity, here
-- a number; a pair room is a `Set` of sockets, a group room a `Map` from peerId to socket.
pub mod Seats
use fuck_chat_control.Base.{
  ℕ, zero, suc, Bool, true, false, ◌&&◌, ◌||◌, not, Option, none, some, List, [], ◌∷◌, Str, str_eq,
  if◌then◌else◌, leb, ◌==◌, length, or_default,
}
use fuck_chat_control.Base.Map
use fuck_chat_control.Base.Map.{Map}

abbrev pub Socket : Type 0
Socket = ℕ

pub data RoomMode : Type 0 where
  pair group : RoomMode

abbrev pub room_id_hex_length : ℕ
room_id_hex_length = 32

abbrev pub peer_id_hex_length : ℕ
peer_id_hex_length = 16

abbrev pub is_hex : ℕ → Bool
is_hex c = (leb b'0' c && leb c b'9') || (leb b'a' c && leb c b'f')

-- The regular expression `^[0-9a-f]{n}$`.
matches_hex : ℕ → Str → Bool
matches_hex zero [] = true
matches_hex zero (c ∷ s) = false
matches_hex (suc n) [] = false
matches_hex (suc n) (c ∷ s) = is_hex c && matches_hex n s

unfoldable pub is_valid_room_id : Str → Bool
unfolding matches_hex
is_valid_room_id = matches_hex room_id_hex_length

unfoldable pub is_valid_peer_id : Str → Bool
unfolding matches_hex
is_valid_peer_id = matches_hex peer_id_hex_length

pub data Room : Type 0 where
  pair_room : List Socket → Room
  group_room : Map Str Socket → Room

-- A list entered by value: the library's `Set` over sockets.
abbrev pub seated_in : Socket → List Socket → Bool
seated_in s [] = false
seated_in s (t ∷ ts) = (t == s) || seated_in s ts

-- `Set.add` puts a value that is new last.
unfoldable pub add_seat : Socket → List Socket → List Socket
add_seat s [] = s ∷ []
add_seat s (t ∷ ts) = if t == s then t ∷ ts else t ∷ add_seat s ts

unfoldable pub remove_seat : Socket → List Socket → List Socket
remove_seat s [] = []
remove_seat s (t ∷ ts) = if t == s then ts else t ∷ remove_seat s ts

-- The first entry whose socket matches goes: the loop breaks there.
unfoldable pub remove_member : Socket → Map Str Socket → Map Str Socket
remove_member s [] = []
remove_member s ((k, t) ∷ m) = if t == s then m else (k, t) ∷ remove_member s m

abbrev pub max_peers_per_room : ℕ
max_peers_per_room = 2

abbrev pub empty_room : RoomMode → Room
empty_room pair = pair_room []
empty_room group = group_room []

abbrev pub room_size : Room → ℕ
room_size (pair_room seats) = length seats
room_size (group_room m) = Map.size m

abbrev pub without : Socket → Room → Room
without s (pair_room seats) = pair_room (remove_seat s seats)
without s (group_room m) = group_room (remove_member s m)

-- `removeSocket` drops a group room that is empty, and a pair room that the socket has just left
-- empty.
unfoldable pub emptied_by : Socket → Room → Bool
emptied_by s (pair_room seats) = seated_in s seats && (length (remove_seat s seats) == 0)
emptied_by s (group_room m) = Map.size (remove_member s m) == 0

unfoldable pub other_seat : Socket → List Socket → Option Socket
other_seat s [] = none
other_seat s (t ∷ ts) = if t == s then other_seat s ts else some t

pub record SeatedPeer : Type 0 where
  pub peer_id : Option Str
  pub socket : Socket

abbrev pub is_excluded : Option Socket → Socket → Bool
is_excluded none s = false
is_excluded (some t) s = s == t

unfoldable pub list_seats : Option Socket → List Socket → List SeatedPeer
list_seats out [] = []
list_seats out (s ∷ ss) =
    let rest = list_seats out ss in
    if is_excluded out s then rest else record { peer_id = none; socket = s } ∷ rest

unfoldable pub list_members : Option Socket → Map Str Socket → List SeatedPeer
list_members out [] = []
list_members out ((p, s) ∷ m) =
    let rest = list_members out m in
    if is_excluded out s then rest else record { peer_id = some p; socket = s } ∷ rest
