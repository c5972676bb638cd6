-- ===== src/Broker/Registry/Join.antt =====
-- What `join` and `leave` do to the room that they name.
use fuck_chat_control.Base.{
  ◌≤◌, ◌<◌, ◌≡◌, refl, ap, ◌∙◌, ◌↔◌, ◌⊎◌, inl, inr, true, false, Option, none, some, List, [], ◌∷◌,
  Str, str_eq, arith, length, leb, Bool-cases,
}
use fuck_chat_control.Base.Map
use fuck_chat_control.Base.Map.{Map}
use fuck_chat_control.Broker.Registry.{
  Registry, JoinOptions, Joined, requested_mode, peer_id_malformed, put_room, enter,
  enter_or_create, join, leave, store_or_drop,
}
use fuck_chat_control.Broker.Room.{
  Socket, Room, pair_room, group_room, RoomMode, pair, group, is_valid_room_id, is_valid_peer_id,
  empty_room, room_size, without, seated_in, add_seat, remove_seat, remove_member,
}
use fuck_chat_control.Broker.Room.Seats.{member_in, remove_seat-add_seat, remove_member-set}

-- The peerId that a join in this mode has to carry.
abbrev pub PeerIdFits : RoomMode → Option Str → Type 0
PeerIdFits pair none = Unit
PeerIdFits pair (some p) = ⊥
PeerIdFits group none = ⊥
PeerIdFits group (some p) = is_valid_peer_id p ≡ true

pub peer_id_malformed_iff :
    (mode : RoomMode) (p : Option Str) → (peer_id_malformed mode p ≡ false) ↔ PeerIdFits mode p
unfolding peer_id_malformed
peer_id_malformed_iff pair none = (λ h. tt, λ h. refl)
peer_id_malformed_iff pair (some p) = (λ h. cc, λ h. absurd h)
peer_id_malformed_iff group none = (λ h. cc, λ h. absurd h)
peer_id_malformed_iff group (some p) = (λ h. ground arith, λ h. ground arith)

-- There is a free seat for this join.
abbrev pub HasSeat : Registry → Option Room → RoomMode → Option Str → Type 0
HasSeat r none mode p = Map.size r.rooms < r.max_rooms
HasSeat r (some (pair_room seats)) pair p = length seats < 2
HasSeat r (some (group_room m)) group (some p) =
    (Map.get p m ≡ none) × (Map.size m < r.max_group_peers)
HasSeat r _ _ _ = ⊥

-- The room with the new seat in it.
abbrev pub with_seat : Option Room → RoomMode → Option Str → Socket → Room
with_seat none pair p s = pair_room (s ∷ [])
with_seat none group none s = group_room []
with_seat none group (some p) s = group_room ((p, s) ∷ [])
with_seat (some (pair_room seats)) mode p s = pair_room (add_seat s seats)
with_seat (some (group_room m)) mode none s = group_room m
with_seat (some (group_room m)) mode (some p) s = group_room (Map.set p s m)

-- A join is either seated as the specification says, or changes nothing.
abbrev pub Decided : Registry → Str → Socket → RoomMode → Option Str → Joined → Type 0
Decided r id s mode p j =
    ((j.result.joined ≡ true)
      × (j.registry ≡ put_room r id (with_seat (Map.get id r.rooms) mode p s))
      × HasSeat r (Map.get id r.rooms) mode p)
    ⊎ ((j.result.joined ≡ false) × (j.registry ≡ r) × (¬ HasSeat r (Map.get id r.rooms) mode p))

enter-pair :
    (r : Registry) (id : Str) (seats : List Socket) (mode : RoomMode) (p : Option Str) (s : Socket)
    → PeerIdFits mode p
    → Map.get id r.rooms ≡ some (pair_room seats)
    → Decided r id s mode p (enter r id (pair_room seats) mode p s)
unfolding enter
enter-pair r id seats pair p s f e = rw e (ground arith)
enter-pair r id seats group p s f e = rw e (inr (refl, refl, λ h. h))

enter-group :
    (r : Registry) (id : Str) (m : Map Str Socket) (mode : RoomMode) (p : Option Str) (s : Socket)
    → PeerIdFits mode p
    → Map.get id r.rooms ≡ some (group_room m)
    → Decided r id s mode p (enter r id (group_room m) mode p s)
unfolding enter
enter-group r id m pair p s f e = rw e (inr (refl, refl, λ h. h))
enter-group r id m group none s f e = absurd f
enter-group r id m group (some q) s f e = rw e (ground (arith, Map.has-get q m))

enter-new :
    (r : Registry) (id : Str) (mode : RoomMode) (p : Option Str) (s : Socket)
    → 1 ≤ r.max_group_peers
    → PeerIdFits mode p
    → Map.get id r.rooms ≡ none
    → Map.size r.rooms < r.max_rooms
    → Decided r id s mode p (enter (put_room r id (empty_room mode)) id (empty_room mode) mode p s)
unfolding enter add_seat Map.set Map.has
enter-new r id pair p s c f e h =
    rw e (ground (arith, Map.set-set_same id (pair_room []) (pair_room (s ∷ [])) r.rooms))
enter-new r id group none s c f e h = absurd f
enter-new r id group (some q) s c f e h =
    rw e (ground (arith, Map.set-set_same id (group_room []) (group_room ((q, s) ∷ [])) r.rooms))

enter_or_create-Decided :
    (r : Registry) (id : Str) (room : Option Room) (mode : RoomMode) (p : Option Str) (s : Socket)
    → 1 ≤ r.max_group_peers
    → PeerIdFits mode p
    → Map.get id r.rooms ≡ room
    → Decided r id s mode p (enter_or_create r id room mode p s)
unfolding enter_or_create
enter_or_create-Decided r id none mode p s c f e =
    elim (Bool-cases (leb r.max_rooms (Map.size r.rooms))) [
      | inl over ↦ rw (over, e) (inr (refl, refl, ground arith))
      | inr fits ↦ rw fits (enter-new r id mode p s c f e (ground arith))
    ]
enter_or_create-Decided r id (some (pair_room seats)) mode p s c f e =
    enter-pair r id seats mode p s f e
enter_or_create-Decided r id (some (group_room m)) mode p s c f e = enter-group r id m mode p s f e

-- What a join has to bring, apart from a free seat.
abbrev pub IsWellFormed : Str → JoinOptions → Type 0
IsWellFormed id o = (is_valid_room_id id ≡ true) × PeerIdFits (requested_mode o.mode) o.peer_id

-- Seated as the specification says where the join is well formed and has a seat, and otherwise
-- without effect on the registry.
abbrev pub Decides : Registry → Str → Socket → JoinOptions → Joined → Type 0
Decides r id s o j =
    let room = Map.get id r.rooms in
    let mode = requested_mode o.mode in
    ((j.result.joined ≡ true)
      × (j.registry ≡ put_room r id (with_seat room mode o.peer_id s))
      × IsWellFormed id o
      × HasSeat r room mode o.peer_id)
    ⊎ ((j.result.joined ≡ false)
        × (j.registry ≡ r)
        × (¬ (IsWellFormed id o × HasSeat r room mode o.peer_id)))

-- A join is seated exactly when it is well formed and its room has a seat for it: the room must
-- have the mode that is asked for, a pair room fewer than two seats, a group room fewer than its cap
-- and no such peerId, and a room that is new must fit under the cap on rooms. Then the room has the
-- new seat and nothing else has changed; otherwise the registry is as it was. The cap on a group
-- room must be at least 1.
pub join-Decides :
    (r : Registry) (id : Str) (s : Socket) (o : JoinOptions)
    → 1 ≤ r.max_group_peers
    → Decides r id s o (join r id s o)
unfolding join
join-Decides r id s o c = elim (Bool-cases (is_valid_room_id id)) [
  | inr bad ↦ rw bad (inr (refl, refl, λ w. cc))
  | inl good ↦ elim (Bool-cases (peer_id_malformed (requested_mode o.mode) o.peer_id)) [
    | inl bad ↦
        rw (good, bad)
          (inr (
            refl,
            refl,
            λ w. cc ((peer_id_malformed_iff (requested_mode o.mode) o.peer_id).1 w.0.1),
          ))
    | inr fits ↦
        let f : PeerIdFits (requested_mode o.mode) o.peer_id = (peer_id_malformed_iff _ _).0 fits in
        rw (good, fits)
          (elim (enter_or_create-Decided r id (Map.get id r.rooms) _ o.peer_id s c f refl) [
            | inl (j, e, h) ↦ inl (j, e, (refl, f), h)
            | inr (j, e, h) ↦ inr (j, e, λ w. h w.1)
          ])
  ]
]

-- The socket has no seat in the room.
abbrev pub NotSeated : Socket → Option Room → Type 0
NotSeated s none = Unit
NotSeated s (some (pair_room seats)) = seated_in s seats ≡ false
NotSeated s (some (group_room m)) = member_in s m ≡ false

-- No room stands empty.
abbrev pub IsOccupied : Option Room → Type 0
IsOccupied none = Unit
IsOccupied (some room) = 1 ≤ room_size room

without-with_seat :
    (r : Registry) (room : Option Room) (mode : RoomMode) (p : Option Str) (s : Socket) (id : Str)
    → Map.get id r.rooms ≡ room
    → PeerIdFits mode p
    → HasSeat r room mode p
    → NotSeated s room
    → IsOccupied room
    → store_or_drop
        (put_room r id (with_seat room mode p s))
        id
        (without s (with_seat room mode p s))
      ≡ r
unfolding store_or_drop remove_seat remove_member
without-with_seat r none pair p s id e f h a o =
    ground (arith, Map.delete-set id (pair_room (s ∷ [])) r.rooms)
without-with_seat r none group none s id e f h a o = absurd f
without-with_seat r none group (some q) s id e f h a o =
    ground (arith, Map.delete-set id (group_room ((q, s) ∷ [])) r.rooms)
without-with_seat r (some (pair_room seats)) mode p s id e f h a o =
    rw (remove_seat-add_seat s seats a)
      (ground (arith, Map.set-set id (pair_room (add_seat s seats)) (pair_room seats) r.rooms))
without-with_seat r (some (group_room m)) pair none s id e f h a o = absurd h
without-with_seat r (some (group_room m)) group none s id e f h a o = absurd h
without-with_seat r (some (group_room m)) pair (some q) s id e f h a o = absurd h
without-with_seat r (some (group_room m)) group (some q) s id e f h a o =
    rw (remove_member-set s q m h.0 a)
      (ground (arith, Map.set-set id (group_room (Map.set q s m)) (group_room m) r.rooms))

pub leave_present :
    (r : Registry) (id : Str) (s : Socket) (room : Room)
    → Map.get id r.rooms ≡ some room
    → leave r id s ≡ store_or_drop r id (without s room)
unfolding leave
leave_present r id s room e = rw (e, leave)

pub leave_absent :
    (r : Registry) (id : Str) (s : Socket) → Map.get id r.rooms ≡ none → leave r id s ≡ r
unfolding leave
leave_absent r id s e = rw (e, leave)

-- Leaving undoes joining: the registry is the one before, in the order of its entries too.
pub leave-join :
    (r : Registry) (id : Str) (s : Socket) (o : JoinOptions)
    → 1 ≤ r.max_group_peers
    → IsOccupied (Map.get id r.rooms)
    → NotSeated s (Map.get id r.rooms)
    → (join r id s o).result.joined ≡ true
    → leave (join r id s o).registry id s ≡ r
leave-join r id s o c occ a j = elim (join-Decides r id s o c) [
  | inr (n, _, _) ↦ cc
  | inl (_, e, w, h) ↦
      ap (λ q. leave q id s) e
      ∙ leave_present _ id s _ (Map.get-set_self id _ r.rooms)
      ∙ without-with_seat r _ _ o.peer_id s id refl w.1 h a occ
]
