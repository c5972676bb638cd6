-- ===== src/Broker/Server/Runs.antt =====
-- The broker process over any sequence of events.
use fuck_chat_control.Base.{
  ℕ, ◌+◌, ◌≤◌, ◌<◌, ◌≡◌, refl, ◌⊎◌, inl, inr, Bool, true, false, ◌&&◌, ◌||◌, Option, none, some,
  List, [], ◌∷◌, Str, str_eq, str_beq, str_beq_iff, arith, ◌==◌, if◌then◌else◌, Bool-cases,
  Option-cases, subst, ap, ◌∙◌, leb, ltb,
}
use fuck_chat_control.Base.Map
use fuck_chat_control.Base.Map.{Map}
use fuck_chat_control.Broker.Room.{Socket}
use fuck_chat_control.Broker.Registry.{new_registry}
use fuck_chat_control.Broker.Registry.Seating.{seat_at}
use fuck_chat_control.Broker.Registry.Orderly.{new_registry-IsOrderly}
use fuck_chat_control.Broker.Connection.{BrokerConnection, new_connection}
use fuck_chat_control.Broker.Connection.Turns.{Coherent}
use fuck_chat_control.Broker.Server.{
  Server, new_server, open_peer, cleanup, handle_peer_error, sweep_over, run_sweep, Event, opened,
  received, closed, failed, swept, handle, run, max_connections, is_origin_allowed,
  should_reject_connection,
}
use fuck_chat_control.Broker.Server.Invariant.{
  IsConsistent, socket_of, cleanup-IsConsistent, message-IsConsistent,
}

module _ (v : Server) (k : Str) (w : IsConsistent v) where
  abbrev fresh_connection : BrokerConnection
  fresh_connection = record { socket = v.next_socket; room_id = none; peer_id = none }

  abbrev admitted : Server
  admitted = record v {
    connections = Map.set k fresh_connection v.connections;
    sockets = Map.set k v.next_socket v.sockets;
    next_socket = v.next_socket + 1;
  }

  seen :
      (l : Str) (d : BrokerConnection)
      → Map.get l (Map.set k fresh_connection v.connections) ≡ some d
      → ((str_beq k l ≡ true) × (fresh_connection ≡ d))
        ⊎ ((str_beq k l ≡ false) × (Map.get l v.connections ≡ some d))
  seen l d g = elim (Bool-cases (str_beq k l)) [
    | inl same ↦ inl (same, ground (arith, Map.get-set k l fresh_connection v.connections))
    | inr other ↦ inr (other, ground (arith, Map.get-set k l fresh_connection v.connections))
  ]

  admitted_apart :
      (l m : Str) (d f : BrokerConnection)
      → Map.get l (Map.set k fresh_connection v.connections) ≡ some d
      → Map.get m (Map.set k fresh_connection v.connections) ≡ some f
      → str_beq l m ≡ false
      → (d.socket == f.socket) ≡ false
  admitted_apart l m d f g h n = elim (seen l d g) [
    | inl (lk, ld) ↦ elim (seen m f h) [
      | inl (mk, _) ↦ ground (arith, str_beq_iff k l, str_beq_iff k m, str_beq_iff l m)
      | inr (mk, mf) ↦ ground (arith, ap (λ x. x.socket) ld, w.issued m f mf)
    ]
    | inr (lk, ld) ↦ elim (seen m f h) [
      | inl (mk, mf) ↦ ground (arith, ap (λ x. x.socket) mf, w.issued l d ld)
      | inr (mk, mf) ↦ w.apart l m d f ld mf n
    ]
  ]

  admitted-IsConsistent : Map.size v.sockets < max_connections → IsConsistent admitted
  admitted-IsConsistent room = record {
    orderly = w.orderly;
    coherent = λ l d g. elim (seen l d g) [
      | inl (_, f) ↦ subst (Coherent v.registry) f (λ i. w.unused i v.next_socket (omega arith))
      | inr (_, f) ↦ w.coherent l d f
    ];
    apart = admitted_apart;
    issued = λ l d g. elim (seen l d g) [
      | inl (_, f) ↦ ground (arith, ap (λ x. x.socket) f)
      | inr (_, f) ↦ omega (arith, w.issued l d f)
    ];
    unused = λ i s h. w.unused i s (omega arith);
    distinct_ids = Map.set-Distinct k fresh_connection v.connections w.distinct_ids;
    distinct_sockets = Map.set-Distinct k v.next_socket v.sockets w.distinct_sockets;
    in_sync = λ l. ground (
      arith,
      Map.get-set k l v.next_socket v.sockets,
      Map.get-set k l fresh_connection v.connections,
      w.in_sync l,
    );
    capped = ground (arith, Map.size-set k v.next_socket v.sockets);
  }

open_peer-IsConsistent :
    (cors : Option Str) (v : Server) (k : Str) (origin : Option Str)
    → IsConsistent v
    → IsConsistent (open_peer cors v k origin).0
unfolding open_peer new_connection should_reject_connection
open_peer-IsConsistent cors v k origin w = elim (Bool-cases (is_origin_allowed cors origin)) [
  | inr no_entry ↦ rw no_entry w
  | inl good ↦ elim (Bool-cases (leb max_connections (Map.size v.sockets))) [
    | inl busy ↦ rw (good, busy) w
    | inr free ↦ rw (good, free) (admitted-IsConsistent v k w (ground arith))
  ]
]

sweep_over-IsConsistent :
    (ready_state : Socket → ℕ) (entries : List (Str × Socket)) (v : Server)
    → IsConsistent v
    → IsConsistent (sweep_over ready_state entries v).0
unfolding sweep_over
sweep_over-IsConsistent ready_state [] v w = w
sweep_over-IsConsistent ready_state ((id, s) ∷ rest) v w =
    elim (Bool-cases (ltb 1 (ready_state s))) [
      | inl dead ↦
          rw dead (
            sweep_over-IsConsistent ready_state rest (cleanup v id).0 (cleanup-IsConsistent v id w))
      | inr live ↦ rw live (sweep_over-IsConsistent ready_state rest v w)
    ]

pub handle-IsConsistent :
    (cors : Option Str) (v : Server) (e : Event) → IsConsistent v → IsConsistent (handle cors v e).0
unfolding handle handle_peer_error run_sweep
handle-IsConsistent cors v (opened id origin) w = open_peer-IsConsistent cors v id origin w
handle-IsConsistent cors v (received buffered id raw) w = message-IsConsistent buffered v id raw w
handle-IsConsistent cors v (closed id) w = cleanup-IsConsistent v id w
handle-IsConsistent cors v (failed id) w = cleanup-IsConsistent v id w
handle-IsConsistent cors v (swept ready_state) w = sweep_over-IsConsistent ready_state v.sockets v w

run-IsConsistent :
    (cors : Option Str) (v : Server) (es : List Event)
    → IsConsistent v
    → IsConsistent (run cors v es)
unfolding run
run-IsConsistent cors v [] w = w
run-IsConsistent cors v (e ∷ es) w =
    run-IsConsistent cors (handle cors v e).0 es (handle-IsConsistent cors v e w)

new_server-IsConsistent :
    (peers : Option ℕ)
    → 1 ≤ (new_registry none peers).max_group_peers
    → IsConsistent (new_server peers)
unfolding new_server Map.get seat_at new_registry
new_server-IsConsistent peers h = record {
  orderly = new_registry-IsOrderly none peers h;
  coherent = λ k c e. absurd (cc);
  apart = λ k l c d e f n. absurd (cc);
  issued = λ k c e. absurd (cc);
  unused = λ i s _. empty i s;
  distinct_ids = tt;
  distinct_sockets = tt;
  in_sync = λ k. refl;
  capped = omega arith;
}
  where
    empty : (i : Str) (s : Socket) → seat_at (new_registry none peers) i s ≡ false
    empty i s = refl

-- Whatever peers open, send, drop or let die, and whenever the sweep runs: the registry stays in
-- order, each connection's socket sits exactly in the room that its connection names and nowhere
-- else, connections never share a socket, and no more than 2048 sockets are tracked. The configured
-- seat cap of a group room must be at least 1.
pub run-new_server-IsConsistent :
    (cors : Option Str) (peers : Option ℕ) (es : List Event)
    → 1 ≤ (new_registry none peers).max_group_peers
    → IsConsistent (run cors (new_server peers) es)
run-new_server-IsConsistent cors peers es h =
    run-IsConsistent cors _ es (new_server-IsConsistent peers h)

sockets-cleanup :
    (v : Server) (id k : Str)
    → IsConsistent v
    → Map.get k (cleanup v id).0.sockets ≡ (if str_beq id k then none else Map.get k v.sockets)
unfolding cleanup
sockets-cleanup v id k w = elim (Option-cases (Map.get id v.connections)) [
  | inr (c, e) ↦ rw (e, cleanup) (Map.get-delete id k v.sockets w.distinct_sockets)
  | inl e ↦
      rw (e, cleanup) (ground (arith, str_beq_iff id k, ap socket_of e, w.in_sync id, w.in_sync k))
]

-- Whether the entry is dead, and which entries have been passed.
abbrev dead_at : (Socket → ℕ) → List (Str × Socket) → Str → Bool
dead_at ready_state [] k = false
dead_at ready_state ((id, s) ∷ rest) k =
    (str_beq id k && ltb 1 (ready_state s)) || dead_at ready_state rest k

sockets-sweep_over :
    (ready_state : Socket → ℕ) (entries : List (Str × Socket)) (v : Server) (k : Str)
    → IsConsistent v
    → Map.get k (sweep_over ready_state entries v).0.sockets
      ≡ (if dead_at ready_state entries k then none else Map.get k v.sockets)
unfolding sweep_over
sockets-sweep_over ready_state [] v k w = refl
sockets-sweep_over ready_state ((id, s) ∷ rest) v k w = elim (Bool-cases (ltb 1 (ready_state s))) [
  | inl dead ↦
      rw
        (
          dead,
          sockets-sweep_over ready_state rest (cleanup v id).0 k (cleanup-IsConsistent v id w),
          sockets-cleanup v id k w,
        )
        (ground arith)
  | inr live ↦ rw (live, sockets-sweep_over ready_state rest v k w) (ground arith)
]

dead_at_absent :
    (ready_state : Socket → ℕ) (m : Map Str Socket) (k : Str)
    → Map.get k m ≡ none
    → dead_at ready_state m k ≡ false
unfolding Map.get
dead_at_absent ready_state [] k e = refl
dead_at_absent ready_state ((id, s) ∷ m) k e = ground (arith, dead_at_absent ready_state m k)

dead_at-get :
    (ready_state : Socket → ℕ) (m : Map Str Socket) (k : Str)
    → Map.Distinct m
    → (if dead_at ready_state m k then none else Map.get k m) ≡ (elim (Map.get k m) [
      | none ↦ none
      | some s ↦ if ltb 1 (ready_state s) then none else some s
    ])
unfolding Map.get
dead_at-get ready_state [] k d = refl
dead_at-get ready_state ((id, s) ∷ m) k d = elim (Bool-cases (str_beq id k)) [
  | inr other ↦ rw other (dead_at-get ready_state m k d.1)
  | inl same ↦
      let absent : Map.get k m ≡ none =
        subst (λ j. Map.get j m ≡ none) ((str_beq_iff id k).0 same) d.0 in
      rw (same, dead_at_absent ready_state m k absent) (ground arith)
]

-- A pass of the sweep takes out exactly the sockets that report CLOSING or CLOSED, and keeps every
-- other one, at any consistent state of the process.
pub sockets-run_sweep :
    (ready_state : Socket → ℕ) (v : Server) (k : Str)
    → IsConsistent v
    → Map.get k (run_sweep ready_state v).0.sockets ≡ (elim (Map.get k v.sockets) [
      | none ↦ none
      | some s ↦ if ltb 1 (ready_state s) then none else some s
    ])
unfolding run_sweep
sockets-run_sweep ready_state v k w =
    sockets-sweep_over ready_state v.sockets v k w
    ∙ dead_at-get ready_state v.sockets k w.distinct_sockets
