-- ===== src/Broker/Registry/Moves.antt =====
-- How `join`, `leave` and `removeSocket` change who sits where.
use fuck_chat_control.Base.{
  ◌≤◌, ◌≡◌, refl, inl, inr, true, false, ◌&&◌, ◌||◌, Option, none, some, List, [], ◌∷◌, Str, str_eq,
  str_beq, str_beq_iff, arith, ◌==◌, ==_iff, if◌then◌else◌, Bool-cases, Option-cases,
}
use fuck_chat_control.Base.Map
use fuck_chat_control.Base.Map.{Map}
use fuck_chat_control.Broker.Room.{
  Socket, Room, RoomMode, pair, group, pair_room, group_room, seated_in, add_seat, remove_seat,
  remove_member, without, room_size,
}
use fuck_chat_control.Broker.Room.Seats.{
  Unique, member_in, seated_in-add_seat, seated_in-add_seat_ne,
}
use fuck_chat_control.Broker.Registry.{
  Registry, JoinOptions, requested_mode, join, leave, store_or_drop,
}
use fuck_chat_control.Broker.Registry.Join.{
  with_seat, join-Decides, leave_present, leave_absent, PeerIdFits, HasSeat,
}
use fuck_chat_control.Broker.Registry.Seating.{in_room, seat_at}

pub member_in-set :
    (s t : Socket) (p : Str) (m : Map Str Socket)
    → Map.get p m ≡ none
    → member_in t (Map.set p s m) ≡ ((s == t) || member_in t m)
unfolding Map.set Map.get
member_in-set s t p [] h = refl
member_in-set s t p ((q, u) ∷ m) h = ground (arith, member_in-set s t p m)

seated_in-add_seat_or :
    (s t : Socket) (ss : List Socket) → seated_in t (add_seat s ss) ≡ ((s == t) || seated_in t ss)
seated_in-add_seat_or s t ss =
    ground (arith, seated_in-add_seat s ss, seated_in-add_seat_ne s t ss, ==_iff s t, ==_iff t s)

in_room-with_seat :
    (r : Registry) (room : Option Room) (mode : RoomMode) (p : Option Str) (s t : Socket)
    → PeerIdFits mode p
    → HasSeat r room mode p
    → in_room t (some (with_seat room mode p s)) ≡ ((s == t) || in_room t room)
in_room-with_seat r none pair p s t f h = refl
in_room-with_seat r none group none s t f h = absurd f
in_room-with_seat r none group (some q) s t f h = refl
in_room-with_seat r (some (pair_room seats)) pair p s t f h = seated_in-add_seat_or s t seats
in_room-with_seat r (some (pair_room seats)) group p s t f h = absurd h
in_room-with_seat r (some (group_room m)) pair p s t f h = absurd h
in_room-with_seat r (some (group_room m)) group none s t f h = absurd f
in_room-with_seat r (some (group_room m)) group (some q) s t f h = member_in-set s t q m h.0

-- A join adds the one seat, or none.
pub seat_at-join :
    (r : Registry) (id i : Str) (s t : Socket) (o : JoinOptions)
    → 1 ≤ r.max_group_peers
    → seat_at (join r id s o).registry i t
      ≡ (((join r id s o).result.joined && (str_beq id i && (s == t))) || seat_at r i t)
unfolding seat_at
seat_at-join r id i s t o c = elim (join-Decides r id s o c) [
  | inr (n, e, _) ↦ rw (n, e) refl
  | inl (j, e, w, h) ↦
      rw (j, e)
        (elim (Bool-cases (str_beq id i)) [
          | inl same ↦
              rw
                (
                  same,
                  ← (str_beq_iff id i).0 same,
                  Map.get-set_self id
                      (with_seat (Map.get id r.rooms) (requested_mode o.mode) o.peer_id s) r.rooms,
                )
                (in_room-with_seat r (Map.get id r.rooms) _ o.peer_id s t w.1 h)
          | inr other ↦
              rw
                (
                  other,
                  Map.get-set_ne id i
                      (with_seat (Map.get id r.rooms) (requested_mode o.mode) o.peer_id s) r.rooms
                      other,
                )
                refl
        ])
]

seated_in-remove_seat_ne :
    (s t : Socket) (ss : List Socket)
    → (s == t) ≡ false
    → seated_in t (remove_seat s ss) ≡ seated_in t ss
unfolding remove_seat
seated_in-remove_seat_ne s t [] h = refl
seated_in-remove_seat_ne s t (u ∷ ss) h =
    ground (arith, ==_iff u s, ==_iff u t, ==_iff s t, seated_in-remove_seat_ne s t ss h)

member_in-remove_member_ne :
    (s t : Socket) (m : Map Str Socket)
    → (s == t) ≡ false
    → member_in t (remove_member s m) ≡ member_in t m
unfolding remove_member
member_in-remove_member_ne s t [] h = refl
member_in-remove_member_ne s t ((q, u) ∷ m) h =
    ground (arith, ==_iff u s, ==_iff u t, ==_iff s t, member_in-remove_member_ne s t m h)

seated_in-remove_seat_self :
    (s : Socket) (ss : List Socket) → Unique ss → seated_in s (remove_seat s ss) ≡ false
unfolding remove_seat
seated_in-remove_seat_self s [] u = refl
seated_in-remove_seat_self s (t ∷ ss) u =
    ground (arith, ==_iff t s, seated_in-remove_seat_self s ss u.1)

member_in-remove_member_self :
    (s : Socket) (m : Map Str Socket)
    → Unique (Map.values m)
    → member_in s (remove_member s m) ≡ false
unfolding remove_member
member_in-remove_member_self s [] u = refl
member_in-remove_member_self s ((q, t) ∷ m) u =
    ground (arith, ==_iff t s, member_in-remove_member_self s m u.1)

in_room-without_ne :
    (s t : Socket) (room : Room)
    → (s == t) ≡ false
    → in_room t (some (without s room)) ≡ in_room t (some room)
in_room-without_ne s t (pair_room seats) h = seated_in-remove_seat_ne s t seats h
in_room-without_ne s t (group_room m) h = member_in-remove_member_ne s t m h

-- No socket has two seats in the room.
abbrev pub HasOwnSeats : Room → Type 0
HasOwnSeats (pair_room seats) = Unique seats
HasOwnSeats (group_room m) = Unique (Map.values m)

in_room-without_self :
    (s : Socket) (room : Room) → HasOwnSeats room → in_room s (some (without s room)) ≡ false
in_room-without_self s (pair_room seats) u = seated_in-remove_seat_self s seats u
in_room-without_self s (group_room m) u = member_in-remove_member_self s m u

in_room_empty :
    (t : Socket) (room : Room) → (room_size room == 0) ≡ true → in_room t (some room) ≡ false
in_room_empty t (pair_room []) h = refl
in_room_empty t (pair_room (s ∷ ss)) h = absurd (ground arith)
in_room_empty t (group_room []) h = refl
in_room_empty t (group_room (p ∷ m)) h = absurd (ground arith)

-- Storing a room, or dropping it where it is empty, is the same for who sits where.
seat_at-store_or_drop :
    (r : Registry) (id i : Str) (t : Socket) (room : Room)
    → Map.Distinct r.rooms
    → seat_at (store_or_drop r id room) i t
      ≡ (if str_beq id i then in_room t (some room) else seat_at r i t)
unfolding seat_at store_or_drop
seat_at-store_or_drop r id i t room d = elim (Bool-cases (room_size room == 0)) [
  | inl gone ↦ rw (gone, Map.get-delete id i r.rooms d) (ground (arith, in_room_empty t room gone))
  | inr left ↦ rw (left, Map.get-set id i room r.rooms) (ground arith)
]

seat_at-get :
    (r : Registry) (id i : Str) (t : Socket) (room : Option Room)
    → Map.get id r.rooms ≡ room
    → str_beq id i ≡ true
    → seat_at r i t ≡ in_room t room
unfolding seat_at
seat_at-get r id i t room e h = rw (← (str_beq_iff id i).0 h, e) refl

leave_seat :
    (r : Registry) (id i : Str) (s t : Socket) (room : Room)
    → Map.Distinct r.rooms
    → Map.get id r.rooms ≡ some room
    → HasOwnSeats room
    → (if str_beq id i then in_room t (some (without s room)) else seat_at r i t)
      ≡ (if str_beq id i && (s == t) then false else seat_at r i t)
leave_seat r id i s t room d e own = elim (Bool-cases (str_beq id i)) [
  | inr other ↦ rw other refl
  | inl same ↦
      rw (same, seat_at-get r id i t (some room) e same)
        (elim (Bool-cases (s == t)) [
          | inr ne ↦ rw ne (in_room-without_ne s t room ne)
          | inl eq ↦ rw (eq, ← (==_iff s t).0 eq) (in_room-without_self s room own)
        ])
]

-- A socket that leaves a room loses its seat there, and nobody else's seat changes anywhere.
pub seat_at-leave :
    (r : Registry) (id i : Str) (s t : Socket)
    → Map.Distinct r.rooms
    → ((room : Room) → Map.get id r.rooms ≡ some room → HasOwnSeats room)
    → seat_at (leave r id s) i t ≡ (if str_beq id i && (s == t) then false else seat_at r i t)
seat_at-leave r id i s t d own = elim (Option-cases (Map.get id r.rooms)) [
  | inl e ↦ rw (leave_absent r id s e) (ground (arith, seat_at-get r id i t none e))
  | inr (room, e) ↦
      rw (leave_present r id s room e, seat_at-store_or_drop r id i t (without s room) d)
        (leave_seat r id i s t room d e (own room e))
]
