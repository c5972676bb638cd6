-- ===== src/Broker/Server.antt =====
-- apps/web/src/server/broker.ts, origin-guard.ts and broker/sweep.ts: the process that owns the one
-- registry. A socket wrapper is a fresh object for each `open`, numbered here in order.
pub mod Invariant
pub mod Runs
use Prim.Native.String.{String}
use fuck_chat_control.Base.{
  ℕ, ◌+◌, Bool, true, false, ◌&&◌, ◌||◌, not, Option, none, some, List, [], ◌∷◌, ◌++◌, map, Str,
  str, str_eq, str_beq, if◌then◌else◌, ltb, leb,
}
use fuck_chat_control.Base.Map
use fuck_chat_control.Base.Map.{Map}
use fuck_chat_control.Broker.Message.{RawText, parse_message}
use fuck_chat_control.Broker.Room.{Socket}
use fuck_chat_control.Broker.Registry.{Registry, new_registry}
use fuck_chat_control.Broker.Connection.{
  Effect, BrokerConnection, Turn, new_connection, on_message, on_close,
}

abbrev pub max_connections : ℕ
max_connections = 2048

unfoldable pub should_reject_connection : ℕ → ℕ → Bool
should_reject_connection current max = leb max current

-- An absent header and an empty one are both admitted, and so is anyone where nothing is configured.
unfoldable pub is_origin_allowed : Option Str → Option Str → Bool
is_origin_allowed none request = true
is_origin_allowed (some allowed) none = true
is_origin_allowed (some allowed) (some request) =
    str_beq allowed [] || (str_beq request [] || str_beq request allowed)

pub record Server : Type 0 where
  pub registry : Registry
  pub connections : Map Str BrokerConnection
  pub sockets : Map Str Socket
  pub next_socket : Socket

-- What the process does to the outside: a connection's effect, or the close of a peer by its id.
pub data Output : Type 0 where
  acts : Effect → Output
  close_peer : Str → ℕ → String → Output

unfoldable pub new_server : Option ℕ → Server
new_server group_max_members = record {
  registry = new_registry none group_max_members;
  connections = [];
  sockets = [];
  next_socket = 0;
}

-- The connection object has changed in place.
abbrev pub store : Server → Str → Turn → Server
store v id t = record v {
  registry = t.registry;
  connections = Map.set id t.connection v.connections;
}

unfoldable pub open_peer : Option Str → Server → Str → Option Str → Server × List Output
unfolding is_origin_allowed should_reject_connection
open_peer cors_origin v id origin =
    if not (is_origin_allowed cors_origin origin)
    then (v, close_peer id 1008 "origin not allowed" ∷ [])
    else if should_reject_connection (Map.size v.sockets) max_connections
    then (v, close_peer id 1013 "too many connections" ∷ [])
    else (
      record v {
        connections = Map.set id (new_connection v.next_socket) v.connections;
        sockets = Map.set id v.next_socket v.sockets;
        next_socket = v.next_socket + 1;
      },
      [],
    )

unfoldable pub message : (Socket → ℕ) → Server → Str → RawText → Server × List Output
message buffered v id raw = elim (Map.get id v.connections) [
  | none ↦ (v, [])
  | some c ↦
      let t = on_message buffered v.registry c (parse_message raw) in
      (store v id t, map acts t.effects)
]

unfoldable pub cleanup : Server → Str → Server × List Output
cleanup v id = elim (Map.get id v.connections) [
  | none ↦ (v, [])
  | some c ↦
      let t = on_close v.registry c in
      (
        record v {
          registry = t.registry;
          connections = Map.delete id v.connections;
          sockets = Map.delete id v.sockets;
        },
        map acts t.effects,
      )
]

unfoldable pub handle_peer_error : Server → Str → Server × List Output
handle_peer_error v id =
    let (w, out) = cleanup v id in (w, out ++ close_peer id 1011 "websocket error" ∷ [])

-- One pass over the sockets; `ready_state` is what they report while it runs. The eviction deletes
-- no entry but the one that the loop stands at.
unfoldable pub sweep_over : (Socket → ℕ) → List (Str × Socket) → Server → Server × List Output
sweep_over ready_state [] v = (v, [])
sweep_over ready_state ((id, s) ∷ rest) v =
    let (w, out) = if ltb 1 (ready_state s) then cleanup v id else (v, []) in
    let (x, more) = sweep_over ready_state rest w in (x, out ++ more)

unfoldable pub run_sweep : (Socket → ℕ) → Server → Server × List Output
unfolding sweep_over
run_sweep ready_state v = sweep_over ready_state v.sockets v

-- What crossws and the timer call, each with what the sockets report at that time.
pub data Event : Type 0 where
  opened : Str → Option Str → Event
  received : (Socket → ℕ) → Str → RawText → Event
  closed failed : Str → Event
  swept : (Socket → ℕ) → Event

unfoldable pub handle : Option Str → Server → Event → Server × List Output
handle cors_origin v (opened id origin) = open_peer cors_origin v id origin
handle cors_origin v (received buffered id raw) = message buffered v id raw
handle cors_origin v (closed id) = cleanup v id
handle cors_origin v (failed id) = handle_peer_error v id
handle cors_origin v (swept ready_state) = run_sweep ready_state v

unfoldable pub run : Option Str → Server → List Event → Server
run cors_origin v [] = v
run cors_origin v (e ∷ es) = run cors_origin (handle cors_origin v e).0 es
