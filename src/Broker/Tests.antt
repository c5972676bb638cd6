-- ===== src/Broker/Tests.antt =====
-- The broker's theorems at concrete inputs, and runs of its code.
use fuck_chat_control.Base.{
  ℕ, ◌≤◌, ◌≡◌, refl, false, none, some, List, [], ◌∷◌, Str, str, str_eq, str_beq, arith, subst,
  ◌++◌, length, if◌then◌else◌, leb, of_some,
}
use fuck_chat_control.Base.Json.{text, property}
use fuck_chat_control.Base.Json.Written.{stringify, quoted, tail_of}
use fuck_chat_control.Base.Map
use fuck_chat_control.Broker.Message.{RawText, BrokerMessage, offer, parse_message, format_message}
use fuck_chat_control.Broker.Message.RoundTrip.{
  IsWire, parse_message_sound, parse_message-format_message,
}
use fuck_chat_control.Broker.Room.{
  Socket, Room, group, pair_room, group_room, is_valid_room_id, is_valid_peer_id,
}
use fuck_chat_control.Broker.Registry.{Registry, JoinOptions, new_registry, join, leave}
use fuck_chat_control.Broker.Registry.Join.{Decides, join-Decides, leave-join}
use fuck_chat_control.Broker.Registry.Invariant.{
  IsValid, Call, joins, leaves, removes, run, run-new_registry-IsValid,
}
use fuck_chat_control.Broker.Registry.Seating.{seat_at, AllOf}
use fuck_chat_control.Broker.Registry.Moves.{HasOwnSeats}
use fuck_chat_control.Broker.Registry.Orderly.{IsOrderly, new_registry-IsOrderly}
use fuck_chat_control.Broker.Connection.{BrokerConnection, relay, on_message, on_close}
use fuck_chat_control.Broker.Connection.Turns.{IsTurn, on_message-IsTurn}
use fuck_chat_control.Broker.Connection.Confinement.{
  StaysIn, IsStamped, seated_confined, relay-IsStamped,
}
use fuck_chat_control.Broker.Server.{Server, Event, opened, received, swept, new_server, run_sweep}
use fuck_chat_control.Broker.Server
use fuck_chat_control.Broker.Server.Invariant.{IsConsistent}
use fuck_chat_control.Broker.Server.Runs.{run-new_server-IsConsistent}

abbrev room_a : Str
room_a = str "00112233445566778899aabbccddeeff"

abbrev peer_x : Str
peer_x = str "0011223344556677"

abbrev peer_y : Str
peer_y = str "8899aabbccddeeff"

abbrev as_pair : JoinOptions
as_pair = record { mode = none; peer_id = none }

abbrev as_x : JoinOptions
as_x = record { mode = some group; peer_id = some peer_x }

abbrev as_y : JoinOptions
as_y = record { mode = some group; peer_id = some peer_y }

abbrev fresh : Registry
fresh = record { rooms = []; max_rooms = 1024; max_group_peers = 8 }

abbrev with_pair : Registry
with_pair = record fresh { rooms = (room_a, pair_room (1 ∷ 2 ∷ [])) ∷ [] }

abbrev with_group : Registry
with_group = record fresh { rooms = (room_a, group_room ((peer_x, 1) ∷ (peer_y, 2) ∷ [])) ∷ [] }

-- A second group member is seated under its own peerId.
second_member : (join (join fresh room_a 1 as_x).registry room_a 2 as_y).registry ≡ with_group
unfolding join Map.get Map.set Map.has is_valid_room_id is_valid_peer_id str_beq
second_member = refl

-- The third socket of a pair room is turned away with a close frame.
third_of_pair : (join with_pair room_a 3 as_pair).result.joined ≡ false
unfolding join Map.get is_valid_room_id str_beq
third_of_pair = refl

join-Decides_example : Decides with_pair room_a 3 as_pair (join with_pair room_a 3 as_pair)
join-Decides_example = join-Decides with_pair room_a 3 as_pair (omega arith)

leave-join_example :
    leave
      (join
        (record with_pair { rooms = (room_a, pair_room (1 ∷ [])) ∷ [] })
        room_a
        2
        as_pair).registry
      room_a
      2
    ≡ record with_pair { rooms = (room_a, pair_room (1 ∷ [])) ∷ [] }
unfolding join Map.get is_valid_room_id str_beq
leave-join_example =
    leave-join (record with_pair { rooms = (room_a, pair_room (1 ∷ [])) ∷ [] }) room_a 2 as_pair
      (omega arith) (omega arith) refl refl

abbrev calls : List Call
calls = joins room_a 1 as_x ∷ joins room_a 2 as_y ∷ leaves room_a 1 ∷ removes 2 ∷ []

run-new_registry-IsValid_example : IsValid (run (new_registry none (some 2)) calls)
unfolding new_registry
run-new_registry-IsValid_example = run-new_registry-IsValid none (some 2) calls (omega arith)

with_pair-IsValid : IsValid with_pair
unfolding Map.get
with_pair-IsValid = record {
  distinct_rooms = (refl, tt);
  rooms_capped = omega arith;
  rooms_valid = (((refl, (refl, tt)), omega arith, omega arith), tt);
  group_cap = omega arith;
}

abbrev empty_registry : Registry
empty_registry = new_registry none none

with_pair-own : (room : Room) → Map.get room_a with_pair.rooms ≡ some room → HasOwnSeats room
unfolding Map.get str_beq
with_pair-own room e = subst HasOwnSeats (of_some e) (refl, (refl, tt))

empty-IsOrderly : IsOrderly empty_registry
unfolding new_registry
empty-IsOrderly = new_registry-IsOrderly none none (omega arith)

abbrev client : BrokerConnection
client = record { socket = 1; room_id = none; peer_id = none }

abbrev member : BrokerConnection
member = record { socket = 1; room_id = some room_a; peer_id = some peer_x }

-- Nothing is queued on any socket.
abbrev drained : Socket → ℕ
drained s = 0

abbrev offer_to_y : BrokerMessage
offer_to_y = offer (text (str "sdp")) (some peer_y) (some peer_y)

on_message-IsTurn_example :
    IsTurn empty_registry client
      (on_message drained empty_registry client (some (BrokerMessage.join room_a none none)))
unfolding new_registry seat_at Map.get
on_message-IsTurn_example =
    on_message-IsTurn drained empty_registry client (some (BrokerMessage.join room_a none none))
      empty-IsOrderly (λ i. refl)

seated_confined_example :
    AllOf
      (StaysIn with_group room_a 1)
      (on_message drained with_group member (some offer_to_y)).effects
    × AllOf (StaysIn with_group room_a 1) (on_close with_group member).effects
seated_confined_example = seated_confined drained with_group member room_a (some offer_to_y) refl

relay-IsStamped_example :
    AllOf (IsStamped (some peer_x)) (relay drained with_group member offer_to_y)
relay-IsStamped_example = relay-IsStamped drained with_group member offer_to_y

-- The text of a message, read by a parser that knows it.
abbrev written : BrokerMessage → RawText
written m = record { text = stringify (format_message m); parsed = some (format_message m) }

abbrev offer_text : Str
offer_text =
    str
      "{\"t\":\"offer\",\"sdp\":\"sdp\",\"to\":\"8899aabbccddeeff\",\"from\":\"8899aabbccddeeff\"}"

offer_to_y-is_written : stringify (format_message offer_to_y) ≡ offer_text
unfolding stringify format_message quoted tail_of
offer_to_y-is_written = refl

newline-is_escaped : stringify (text (34 ∷ 10 ∷ 1 ∷ [])) ≡ str "\"\\\"\\n\\u0001\""
unfolding stringify quoted tail_of
newline-is_escaped = refl

lone_half-is_escaped :
    stringify (text (55296 ∷ 55357 ∷ 56832 ∷ []))
    ≡ 34 ∷ (str "\\ud800" ++ (55357 ∷ 56832 ∷ 34 ∷ []))
unfolding stringify quoted tail_of
lone_half-is_escaped = refl

parse_message_sound_example :
    (1 ≤ length (written offer_to_y).text)
    × (length (written offer_to_y).text ≤ 16384)
    × IsWire offer_to_y
unfolding parse_message format_message property str_beq is_valid_peer_id stringify quoted tail_of
parse_message_sound_example = parse_message_sound (written offer_to_y) refl

parse_message-format_message_example :
    parse_message (written offer_to_y)
    ≡ (if leb (length (stringify (format_message offer_to_y))) 16384 then some offer_to_y else none)
unfolding is_valid_peer_id
parse_message-format_message_example =
    parse_message-format_message (λ s. some (format_message offer_to_y)) offer_to_y refl
      (refl, refl)

abbrev traffic : List Event
traffic =
    opened (str "a") none
    ∷ opened (str "b") none
    ∷ received drained (str "a") (written (BrokerMessage.join room_a none none))
    ∷ received drained (str "b") (written (BrokerMessage.join room_a none none))
    ∷ received drained (str "a") (written offer_to_y)
    ∷ []

run-new_server-IsConsistent_example : IsConsistent (Server.run none (new_server (some 4)) traffic)
unfolding new_registry
run-new_server-IsConsistent_example =
    run-new_server-IsConsistent none (some 4) traffic (omega arith)
