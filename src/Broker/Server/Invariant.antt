-- ===== src/Broker/Server/Invariant.antt =====
-- What holds of the broker process after any events.
use fuck_chat_control.Base.{
  ℕ, ◌≤◌, ◌<◌, ◌≡◌, ◌⊎◌, inl, inr, true, false, Option, none, some, Str, str_eq, str_beq,
  str_beq_iff, arith, ◌==◌, ==_iff, Bool-cases, Option-cases, subst, sym, ap, ◌∙◌,
}
use fuck_chat_control.Base.Map
use fuck_chat_control.Base.Map.{Map}
use fuck_chat_control.Broker.Room.{Socket}
use fuck_chat_control.Broker.Message.{RawText, parse_message}
use fuck_chat_control.Broker.Registry.Seating.{seat_at}
use fuck_chat_control.Broker.Registry.Orderly.{IsOrderly}
use fuck_chat_control.Broker.Connection.{BrokerConnection, Turn}
use fuck_chat_control.Broker.Connection.Turns.{Coherent, IsTurn, on_message-IsTurn, on_close-IsTurn}
use fuck_chat_control.Broker.Server.{Server, message, cleanup, store, max_connections}

abbrev pub socket_of : Option BrokerConnection → Option Socket
socket_of none = none
socket_of (some c) = some c.socket

-- The registry is in order, every connection's socket sits exactly in the room that the connection
-- names, no two connections share a socket, sockets not yet handed out sit nowhere, the two
-- maps track the same peers, and the cap on connections holds.
pub record IsConsistent (v : Server) : Type 0 where
  pub orderly : IsOrderly v.registry
  pub coherent :
      (k : Str) (c : BrokerConnection) → Map.get k v.connections ≡ some c → Coherent v.registry c
  pub apart :
      (k l : Str) (c d : BrokerConnection)
      → Map.get k v.connections ≡ some c
      → Map.get l v.connections ≡ some d
      → str_beq k l ≡ false
      → (c.socket == d.socket) ≡ false
  pub issued :
      (k : Str) (c : BrokerConnection) → Map.get k v.connections ≡ some c → c.socket < v.next_socket
  pub unused : (i : Str) (s : Socket) → v.next_socket ≤ s → seat_at v.registry i s ≡ false
  pub distinct_ids : Map.Distinct v.connections
  pub distinct_sockets : Map.Distinct v.sockets
  pub in_sync : (k : Str) → Map.get k v.sockets ≡ socket_of (Map.get k v.connections)
  pub capped : Map.size v.sockets ≤ max_connections

module _ (v : Server) (k : Str) (c : BrokerConnection) (w : IsConsistent v) where
  module _ (e : Map.get k v.connections ≡ some c) (t : Turn) (turn : IsTurn v.registry c t) where
    other-Coherent :
        (l : Str) (d : BrokerConnection)
        → str_beq k l ≡ false
        → Map.get l v.connections ≡ some d
        → Coherent t.registry d
    other-Coherent l d n g i = turn.others i d.socket (w.apart k l c d e g n) ∙ w.coherent l d g i

    still_unused : (i : Str) (s : Socket) → v.next_socket ≤ s → seat_at t.registry i s ≡ false
    still_unused i s h =
        turn.others i s (ground (arith, w.issued k c e, ==_iff c.socket s)) ∙ w.unused i s h

    stored :
        (l : Str) (d : BrokerConnection)
        → Map.get l (Map.set k t.connection v.connections) ≡ some d
        → ((str_beq k l ≡ true) × (t.connection ≡ d))
          ⊎ ((str_beq k l ≡ false) × (Map.get l v.connections ≡ some d))
    stored l d g = elim (Bool-cases (str_beq k l)) [
      | inl same ↦ inl (same, ground (arith, Map.get-set k l t.connection v.connections))
      | inr other ↦ inr (other, ground (arith, Map.get-set k l t.connection v.connections))
    ]

    stored_apart :
        (l m : Str) (d f : BrokerConnection)
        → Map.get l (Map.set k t.connection v.connections) ≡ some d
        → Map.get m (Map.set k t.connection v.connections) ≡ some f
        → str_beq l m ≡ false
        → (d.socket == f.socket) ≡ false
    stored_apart l m d f g h n = elim (stored l d g) [
      | inl (lk, ld) ↦ elim (stored m f h) [
        | inl (mk, _) ↦ ground (arith, str_beq_iff k l, str_beq_iff k m, str_beq_iff l m)
        | inr (mk, mf) ↦
            subst (λ s. (s == f.socket) ≡ false) (sym turn.same_socket ∙ ap (λ x. x.socket) ld)
              (w.apart k m c f e mf mk)
      ]
      | inr (lk, ld) ↦ elim (stored m f h) [
        | inl (mk, mf) ↦
            subst (λ s. (d.socket == s) ≡ false) (sym turn.same_socket ∙ ap (λ x. x.socket) mf)
              (w.apart l k d c ld e (ground (arith, str_beq_iff k l, str_beq_iff l k)))
        | inr (mk, mf) ↦ w.apart l m d f ld mf n
      ]
    ]

    written :
        (l : Str)
        → str_beq k l ≡ true
        → Map.get l (Map.set k t.connection v.connections) ≡ some t.connection
    written l same = ground (arith, Map.get-set k l t.connection v.connections)

    store-IsConsistent : IsConsistent (store v k t)
    store-IsConsistent = record {
      orderly = turn.orderly;
      coherent = λ l d g. elim (stored l d g) [
        | inl (_, f) ↦ subst (Coherent t.registry) f turn.coherent
        | inr (n, f) ↦ other-Coherent l d n f
      ];
      apart = stored_apart;
      issued = λ l d g. elim (stored l d g) [
        | inl (_, f) ↦
            subst (λ s. s < v.next_socket) (sym turn.same_socket ∙ ap (λ x. x.socket) f)
              (w.issued k c e)
        | inr (_, f) ↦ w.issued l d f
      ];
      unused = still_unused;
      distinct_ids = Map.set-Distinct k t.connection v.connections w.distinct_ids;
      distinct_sockets = w.distinct_sockets;
      in_sync = λ l. elim (Bool-cases (str_beq k l)) [
        | inl same ↦
            w.in_sync l
            ∙ ap (λ i. socket_of (Map.get i v.connections)) (sym ((str_beq_iff k l).0 same))
            ∙ ap socket_of e
            ∙ ap some (sym turn.same_socket)
            ∙ sym (ap socket_of (written l same))
        | inr other ↦
            w.in_sync l ∙ ap socket_of (sym (Map.get-set_ne k l t.connection v.connections other))
      ];
      capped = w.capped;
    }

    kept :
        (l : Str) (d : BrokerConnection)
        → Map.get l (Map.delete k v.connections) ≡ some d
        → (str_beq k l ≡ false) × (Map.get l v.connections ≡ some d)
    kept l d g = elim (Bool-cases (str_beq k l)) [
      | inl same ↦ absurd (ground (arith, Map.get-delete k l v.connections w.distinct_ids))
      | inr other ↦ (other, ground (arith, Map.get-delete k l v.connections w.distinct_ids))
    ]

    dropped-IsConsistent : IsConsistent (record v {
      registry = t.registry;
      connections = Map.delete k v.connections;
      sockets = Map.delete k v.sockets;
    })
    dropped-IsConsistent = record {
      orderly = turn.orderly;
      coherent = λ l d g. other-Coherent l d (kept l d g).0 (kept l d g).1;
      apart = λ l m d f g h n. w.apart l m d f (kept l d g).1 (kept m f h).1 n;
      issued = λ l d g. w.issued l d (kept l d g).1;
      unused = still_unused;
      distinct_ids = Map.delete-Distinct k v.connections w.distinct_ids;
      distinct_sockets = Map.delete-Distinct k v.sockets w.distinct_sockets;
      in_sync = λ l. ground (
        arith,
        Map.get-delete k l v.sockets w.distinct_sockets,
        Map.get-delete k l v.connections w.distinct_ids,
        w.in_sync l,
      );
      capped = omega (arith, Map.size-delete-le k v.sockets, w.capped);
    }

pub cleanup-IsConsistent : (v : Server) (k : Str) → IsConsistent v → IsConsistent (cleanup v k).0
unfolding cleanup
cleanup-IsConsistent v k w = elim (Option-cases (Map.get k v.connections)) [
  | inl e ↦ rw (e, cleanup) w
  | inr (c, e) ↦
      rw (e, cleanup)
        (dropped-IsConsistent v k c w e _
          (on_close-IsTurn v.registry c w.orderly (w.coherent k c e)))
]

pub message-IsConsistent :
    (buffered : Socket → ℕ) (v : Server) (k : Str) (raw : RawText)
    → IsConsistent v
    → IsConsistent (message buffered v k raw).0
unfolding message
message-IsConsistent buffered v k raw w = elim (Option-cases (Map.get k v.connections)) [
  | inl e ↦ rw (e, message) w
  | inr (c, e) ↦
      rw (e, message)
        (store-IsConsistent v k c w e _ (
          on_message-IsTurn buffered v.registry c (parse_message raw) w.orderly (w.coherent k c e)))
]
