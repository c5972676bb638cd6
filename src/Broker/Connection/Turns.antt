-- ===== src/Broker/Connection/Turns.antt =====
-- What a handler of one connection keeps: a socket sits exactly in the room of its connection.
use fuck_chat_control.Base.{
  ℕ, ◌≤◌, ◌≡◌, refl, inl, inr, Bool, true, false, Option, none, some, Str, str_eq, str_beq, arith,
  ◌==◌, ==_iff, Bool-cases, Option-cases, subst, sym, ap, ◌∙◌,
}
use fuck_chat_control.Broker.Message.{BrokerMessage}
use fuck_chat_control.Broker.Room.{Socket, RoomMode}
use fuck_chat_control.Broker.Registry.{Registry, JoinOptions, join, leave, remove_socket}
use fuck_chat_control.Broker.Registry.Join.{join-Decides}
use fuck_chat_control.Broker.Registry.Seating.{seat_at}
use fuck_chat_control.Broker.Registry.Moves.{seat_at-join, seat_at-leave}
use fuck_chat_control.Broker.Registry.Orderly.{
  IsOrderly, join-IsOrderly, leave-IsOrderly, remove_socket_unseated,
}
use fuck_chat_control.Broker.Connection.{
  BrokerConnection, Turn, handle_join, handle_leave, on_close, on_message,
}

abbrev pub is_room : Option Str → Str → Bool
is_room none i = false
is_room (some id) i = str_beq id i

-- The connection's socket has a seat in the room that the connection names, and in no other.
abbrev pub Coherent : Registry → BrokerConnection → Type 0
Coherent r c = (i : Str) → seat_at r i c.socket ≡ is_room c.room_id i

pub record IsTurn (r : Registry) (c : BrokerConnection) (t : Turn) : Type 0 where
  pub same_socket : t.connection.socket ≡ c.socket
  pub orderly : IsOrderly t.registry
  pub coherent : Coherent t.registry t.connection
  pub others :
      (i : Str) (s : Socket) → (c.socket == s) ≡ false → seat_at t.registry i s ≡ seat_at r i s

unchanged :
    (r : Registry) (c : BrokerConnection) (t : Turn)
    → IsOrderly r
    → Coherent r c
    → t.registry ≡ r
    → t.connection ≡ c
    → IsTurn r c t
unchanged r c t v h e f = record {
  same_socket = ap (λ d. d.socket) f;
  orderly = subst IsOrderly (sym e) v;
  coherent = λ i.
      ap (λ q. seat_at q i t.connection.socket) e
      ∙ ap (λ d. seat_at r i d.socket) f
      ∙ h i
      ∙ ap (λ d. is_room d.room_id i) (sym f);
  others = λ i s n. ap (λ q. seat_at q i s) e;
}

leave-others :
    (r : Registry) (c : BrokerConnection) (id i : Str) (s : Socket)
    → IsOrderly r
    → (c.socket == s) ≡ false
    → seat_at (leave r id c.socket) i s ≡ seat_at r i s
leave-others r c id i s v n =
    ground (arith, seat_at-leave r id i c.socket s v.valid.distinct_rooms (v.own id))

leave-Coherent :
    (r : Registry) (c : BrokerConnection) (id i : Str)
    → IsOrderly r
    → Coherent r c
    → c.room_id ≡ some id
    → seat_at (leave r id c.socket) i c.socket ≡ false
leave-Coherent r c id i v h e = ground (
  arith,
  seat_at-leave r id i c.socket c.socket v.valid.distinct_rooms (v.own id),
  h i,
  ==_iff c.socket c.socket,
)

left :
    (r : Registry) (c : BrokerConnection) (t : Turn) (id : Str)
    → IsOrderly r
    → Coherent r c
    → c.room_id ≡ some id
    → t.registry ≡ leave r id c.socket
    → t.connection ≡ record c { room_id = none; peer_id = none }
    → IsTurn r c t
left r c t id v h room e f = record {
  same_socket = ap (λ d. d.socket) f;
  orderly = subst IsOrderly (sym e) (leave-IsOrderly r id c.socket v);
  coherent = λ i.
      ap (λ q. seat_at q i t.connection.socket) e
      ∙ ap (λ d. seat_at (leave r id c.socket) i d.socket) f
      ∙ leave-Coherent r c id i v h room
      ∙ ap (λ d. is_room d.room_id i) (sym f);
  others = λ i s n. ap (λ q. seat_at q i s) e ∙ leave-others r c id i s v n;
}

pub handle_leave-IsTurn :
    (r : Registry) (c : BrokerConnection)
    → IsOrderly r
    → Coherent r c
    → IsTurn r c (handle_leave r c)
unfolding handle_leave
handle_leave-IsTurn r c v h = elim (Option-cases c.room_id) [
  | inl e ↦ unchanged r c _ v h (rw e) (rw e)
  | inr (id, e) ↦ left r c _ id v h e (rw e) (rw e)
]

unseated_close :
    (r : Registry) (c : BrokerConnection) (t : Turn)
    → IsOrderly r
    → Coherent r c
    → c.room_id ≡ none
    → t.registry ≡ remove_socket r c.socket
    → t.connection ≡ record c { room_id = none; peer_id = none }
    → IsTurn r c t
unseated_close r c t v h room e f =
    let gone : remove_socket r c.socket ≡ r =
      remove_socket_unseated r c.socket v (λ i. h i ∙ ap (λ o. is_room o i) room) in
    record {
      same_socket = ap (λ d. d.socket) f;
      orderly = subst IsOrderly (sym (e ∙ gone)) v;
      coherent = λ i.
          ap (λ q. seat_at q i t.connection.socket) (e ∙ gone)
          ∙ ap (λ d. seat_at r i d.socket) f
          ∙ h i
          ∙ ap (λ o. is_room o i) room
          ∙ ap (λ d. is_room d.room_id i) (sym f);
      others = λ i s n. ap (λ q. seat_at q i s) (e ∙ gone);
    }

pub on_close-IsTurn :
    (r : Registry) (c : BrokerConnection) → IsOrderly r → Coherent r c → IsTurn r c (on_close r c)
unfolding on_close
on_close-IsTurn r c v h = elim (Option-cases c.room_id) [
  | inl e ↦ unseated_close r c _ v h e (rw e) refl
  | inr (id, e) ↦ left r c _ id v h e (rw e) refl
]

joined :
    (r : Registry) (c : BrokerConnection) (t : Turn) (id : Str) (o : JoinOptions)
    → IsOrderly r
    → Coherent r c
    → c.room_id ≡ none
    → (join r id c.socket o).result.joined ≡ true
    → t.registry ≡ (join r id c.socket o).registry
    → t.connection ≡ record c { room_id = some id; peer_id = o.peer_id }
    → IsTurn r c t
joined r c t id o v h room j e f = record {
  same_socket = ap (λ d. d.socket) f;
  orderly = subst IsOrderly (sym e) (join-IsOrderly r id c.socket o v (empty id));
  coherent = λ i.
      ap (λ q. seat_at q i t.connection.socket) e
      ∙ ap (λ d. seat_at (join r id c.socket o).registry i d.socket) f
      ∙ here i
      ∙ ap (λ d. is_room d.room_id i) (sym f);
  others = λ i s n. ap (λ q. seat_at q i s) e ∙ there i s n;
}
  where
    empty : (i : Str) → seat_at r i c.socket ≡ false
    empty i = h i ∙ ap (λ o. is_room o i) room

    here : (i : Str) → seat_at (join r id c.socket o).registry i c.socket ≡ str_beq id i
    here i = ground (
      arith,
      seat_at-join r id i c.socket c.socket o v.valid.group_cap,
      empty i,
      ==_iff c.socket c.socket,
    )

    there :
        (i : Str) (s : Socket)
        → (c.socket == s) ≡ false
        → seat_at (join r id c.socket o).registry i s ≡ seat_at r i s
    there i s n = ground (arith, seat_at-join r id i c.socket s o v.valid.group_cap)

refused_registry :
    (r : Registry) (id : Str) (s : Socket) (o : JoinOptions)
    → 1 ≤ r.max_group_peers
    → (join r id s o).result.joined ≡ false
    → (join r id s o).registry ≡ r
refused_registry r id s o c n = elim (join-Decides r id s o c) [
  | inl (j, _, _, _) ↦ cc
  | inr (_, e, _) ↦ e
]

pub handle_join-IsTurn :
    (r : Registry) (c : BrokerConnection) (id : Str) (mode : Option RoomMode) (p : Option Str)
    → IsOrderly r
    → Coherent r c
    → IsTurn r c (handle_join r c id mode p)
unfolding handle_join
handle_join-IsTurn r c id mode p v h = elim (Option-cases c.room_id) [
  | inr (old, e) ↦ unchanged r c _ v h (rw e) (rw e)
  | inl e ↦
      let o : JoinOptions = record { mode = mode; peer_id = p } in
      elim (Bool-cases (join r id c.socket o).result.joined) [
        | inl j ↦ joined r c _ id o v h e j (rw (e, j)) (rw (e, j))
        | inr n ↦
            unchanged r c _ v h (rw (e, n) (refused_registry r id c.socket o v.valid.group_cap n))
              (rw (e, n))
      ]
]

-- Every message keeps the registry in order and the connection's socket exactly in the room that the
-- connection names; no other socket gains or loses a seat anywhere.
pub on_message-IsTurn :
    (buffered : Socket → ℕ) (r : Registry) (c : BrokerConnection) (m : Option BrokerMessage)
    → IsOrderly r
    → Coherent r c
    → IsTurn r c (on_message buffered r c m)
unfolding on_message
on_message-IsTurn buffered r c none v h = unchanged r c _ v h refl refl
on_message-IsTurn buffered r c (some (BrokerMessage.join id mode p)) v h =
    handle_join-IsTurn r c id mode p v h
on_message-IsTurn buffered r c (some (BrokerMessage.leave id p)) v h = handle_leave-IsTurn r c v h
on_message-IsTurn buffered r c (some m) v h = unchanged r c _ v h refl refl
