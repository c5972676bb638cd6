-- ===== src/Broker/Connection.antt =====
-- broker/connection.ts, and `forward` of broker/protocol.ts: one client's connection. What reaches a
-- socket is an effect; `buffered` stands for the sockets' `bufferedAmount` while the handler runs.
pub mod Turns
pub mod Confinement
use Prim.Native.String.{String}
use fuck_chat_control.Base.{
  ℕ, ◌*◌, Bool, true, false, ◌&&◌, not, Option, none, some, List, [], ◌∷◌, ◌++◌, map, Str,
  if◌then◌else◌, ltb, ◌==◌,
}
use fuck_chat_control.Base.Json.{Json}
use fuck_chat_control.Broker.Errors.{already_seated}
use fuck_chat_control.Broker.Message.{
  BrokerMessage, offer, answer, ice, parse_message, format_message,
}
use fuck_chat_control.Broker.Room.{RoomMode, pair, group, Socket, SeatedPeer}
use fuck_chat_control.Broker.Registry.{
  Registry, JoinResult, JoinOptions, Joined, Close, close_with, overload, join, leave,
  remove_socket, get_peer, get_peer_by_id, list_peers,
}

pub data Effect : Type 0 where
  sends : Socket → Json → Effect
  closes : Close → Effect

pub record BrokerConnection : Type 0 where
  pub socket : Socket
  pub room_id : Option Str
  pub peer_id : Option Str

unfoldable pub new_connection : Socket → BrokerConnection
new_connection s = record { socket = s; room_id = none; peer_id = none }

-- A handler leaves the shared registry, its own connection and what it has sent, in order.
pub record Turn : Type 0 where
  pub registry : Registry
  pub connection : BrokerConnection
  pub effects : List Effect

abbrev pub idle : Registry → BrokerConnection → Turn
idle r c = record { registry = r; connection = c; effects = [] }

abbrev pub broker_max_buffered_bytes : ℕ
broker_max_buffered_bytes = 1024 * 1024

abbrev pub is_relayable : BrokerMessage → Bool
is_relayable (offer _ _ _) = true
is_relayable (answer _ _ _) = true
is_relayable (ice _ _ _) = true
is_relayable _ = false

unfoldable pub forward : (Socket → ℕ) → Socket → BrokerMessage → List Effect
forward buffered peer m =
    if not (is_relayable m)
    then []
    else if ltb broker_max_buffered_bytes (buffered peer)
    then closes (overload peer "send buffer overflow") ∷ []
    else sends peer (format_message m) ∷ []

-- `to` is dropped and `from` is the broker's own.
unfoldable pub relay_payload : BrokerMessage → Option Str → BrokerMessage
relay_payload (offer sdp to from) seat = offer sdp none seat
relay_payload (answer sdp to from) seat = answer sdp none seat
relay_payload (ice candidate to from) seat = ice candidate none seat
relay_payload m seat = m

unfoldable pub broadcast : List SeatedPeer → BrokerMessage → List Effect
broadcast peers m = map (λ p. sends p.socket (format_message m)) peers

abbrev pub send_to : Option Socket → BrokerMessage → List Effect
send_to none m = []
send_to (some peer) m = sends peer (format_message m) ∷ []

unfoldable pub notify_peer_left : Registry → BrokerConnection → List Effect
unfolding broadcast
notify_peer_left r c = elim c.room_id [
  | none ↦ []
  | some id ↦ elim c.peer_id [
    | some p ↦ broadcast (list_peers r id (some c.socket)) (BrokerMessage.leave id (some p))
    | none ↦ send_to (get_peer r id c.socket) (BrokerMessage.leave id none)
  ]
]

-- Who is told of a join that was seated.
unfoldable pub notices_in :
    Option RoomMode → Registry → Bool → Str → Option Str → Socket → List Effect
unfolding broadcast
notices_in (some group) r second id (some q) s =
    broadcast (list_peers r id (some s)) (BrokerMessage.join id none (some q))
notices_in _ r second id _ s =
    if second then send_to (get_peer r id s) (BrokerMessage.join id none none) else []

unfoldable pub join_notices : Registry → JoinResult → Str → Option Str → Socket → List Effect
unfolding notices_in
join_notices r result id p s = notices_in result.mode r result.is_second_peer id p s

unfoldable pub handle_join : Registry → BrokerConnection → Str → Option RoomMode → Option Str → Turn
unfolding join_notices
handle_join r c id mode p = elim c.room_id [
  | some _ ↦ record {
    registry = r;
    connection = c;
    effects = closes (close_with c.socket already_seated) ∷ [];
  }
  | none ↦
      let j = join r id c.socket (record { mode = mode; peer_id = p }) in
      if not j.result.joined
      then record { registry = j.registry; connection = c; effects = map closes j.closed }
      else record {
        registry = j.registry;
        connection = record c { room_id = some id; peer_id = p };
        effects = map closes j.closed ++ join_notices j.registry j.result id p c.socket;
      }
]

abbrev pub unseated : BrokerConnection → BrokerConnection
unseated c = record c { room_id = none; peer_id = none }

-- Only a group room hears of an explicit `leave`.
unfoldable pub handle_leave : Registry → BrokerConnection → Turn
unfolding notify_peer_left
handle_leave r c = elim c.room_id [
  | none ↦ idle r c
  | some id ↦ record {
    registry = leave r id c.socket;
    connection = unseated c;
    effects = elim c.peer_id [ none ↦ [] | some _ ↦ notify_peer_left r c ];
  }
]

unfoldable pub on_close : Registry → BrokerConnection → Turn
unfolding notify_peer_left
on_close r c = record {
  registry = elim c.room_id [ some id ↦ leave r id c.socket | none ↦ remove_socket r c.socket ];
  connection = unseated c;
  effects = notify_peer_left r c;
}

-- Addressed relay: the member under `to`, unless that is the sender.
unfoldable pub member_target : Registry → Str → Option Str → Socket → Option Socket
member_target r id none s = none
member_target r id (some to) s = elim (get_peer_by_id r id to) [
  | none ↦ none
  | some t ↦ if t == s then none else some t
]

unfoldable pub forward_to : (Socket → ℕ) → Option Socket → BrokerMessage → List Effect
unfolding forward
forward_to buffered none m = []
forward_to buffered (some peer) m = forward buffered peer m

abbrev pub target_of : BrokerMessage → Option Str
target_of (offer _ to _) = to
target_of (answer _ to _) = to
target_of (ice _ to _) = to
target_of _ = none

unfoldable pub relay : (Socket → ℕ) → Registry → BrokerConnection → BrokerMessage → List Effect
unfolding forward_to relay_payload member_target
relay buffered r c m = elim c.room_id [
  | none ↦ []
  | some id ↦ elim c.peer_id [
    | some p ↦
        forward_to buffered (member_target r id (target_of m) c.socket) (relay_payload m (some p))
    | none ↦ forward_to buffered (get_peer r id c.socket) (relay_payload m none)
  ]
]

unfoldable pub on_message : (Socket → ℕ) → Registry → BrokerConnection → Option BrokerMessage → Turn
unfolding handle_join handle_leave relay
on_message buffered r c none = idle r c
on_message buffered r c (some (BrokerMessage.join id mode p)) = handle_join r c id mode p
on_message buffered r c (some (BrokerMessage.leave id p)) = handle_leave r c
on_message buffered r c (some m) = record {
  registry = r;
  connection = c;
  effects = relay buffered r c m;
}
