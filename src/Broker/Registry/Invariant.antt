-- ===== src/Broker/Registry/Invariant.antt =====
-- What holds of the registry between two calls, whatever the clients send.
use fuck_chat_control.Base.{
  ℕ, ◌≤◌, ◌≡◌, refl, true, false, Option, none, some, List, [], ◌∷◌, Str, str_eq, arith, length,
  ◌==◌, inl, inr, Option-cases, Bool-cases, subst, sym,
}
use fuck_chat_control.Base.Map
use fuck_chat_control.Base.Map.{Map}
use fuck_chat_control.Broker.Registry.{
  Registry, JoinOptions, new_registry, put_room, join, leave, store_or_drop, remove_from_all,
  remove_socket, get_peer,
}
use fuck_chat_control.Broker.Room.{
  Socket, Room, pair_room, group_room, RoomMode, pair, group, room_size, without, emptied_by,
  seated_in,
}
use fuck_chat_control.Broker.Room.Seats.{
  Unique, length-add_seat, add_seat-Unique, remove_seat-Unique, length-remove_seat,
  remove_member-Distinct, size-remove_member, remove_seat_absent, other_seat_symmetric,
}
use fuck_chat_control.Broker.Registry.Join.{HasSeat, PeerIdFits, with_seat, join-Decides}

-- A pair room has one or two seats, taken by different sockets; a group room between one and its
-- cap, each under a peerId of its own.
abbrev pub IsValidRoom : ℕ → Room → Type 0
IsValidRoom cap (pair_room seats) = Unique seats × (1 ≤ length seats) × (length seats ≤ 2)
IsValidRoom cap (group_room m) = Map.Distinct m × (1 ≤ Map.size m) × (Map.size m ≤ cap)

pub record IsValid (r : Registry) : Type 0 where
  pub distinct_rooms : Map.Distinct r.rooms
  pub rooms_capped : Map.size r.rooms ≤ r.max_rooms
  pub rooms_valid : Map.Each (IsValidRoom r.max_group_peers) r.rooms
  pub group_cap : 1 ≤ r.max_group_peers

pub get-IsValidRoom :
    (r : Registry) (id : Str) (room : Room)
    → IsValid r
    → Map.get id r.rooms ≡ some room
    → IsValidRoom r.max_group_peers room
get-IsValidRoom r id room v e =
    Map.Each-get (IsValidRoom r.max_group_peers) id room r.rooms v.rooms_valid e

with_seat-IsValidRoom :
    (r : Registry) (room : Option Room) (mode : RoomMode) (p : Option Str) (s : Socket) (id : Str)
    → IsValid r
    → Map.get id r.rooms ≡ room
    → PeerIdFits mode p
    → HasSeat r room mode p
    → IsValidRoom r.max_group_peers (with_seat room mode p s)
unfolding Map.get
with_seat-IsValidRoom r none pair p s id v e f h = ground arith
with_seat-IsValidRoom r none group none s id v e f h = absurd f
with_seat-IsValidRoom r none group (some q) s id v e f h = ((refl, tt), omega arith, v.group_cap)
with_seat-IsValidRoom r (some (pair_room seats)) pair p s id v e f h =
    let old = get-IsValidRoom r id (pair_room seats) v e in
    (
      add_seat-Unique s seats old.0,
      omega (arith, length-add_seat s seats),
      omega (arith, length-add_seat s seats),
    )
with_seat-IsValidRoom r (some (pair_room seats)) group p s id v e f h = absurd h
with_seat-IsValidRoom r (some (group_room m)) pair p s id v e f h = absurd h
with_seat-IsValidRoom r (some (group_room m)) group none s id v e f h = absurd h
with_seat-IsValidRoom r (some (group_room m)) group (some q) s id v e f h =
    let old = get-IsValidRoom r id (group_room m) v e in
    (
      Map.set-Distinct q s m old.0,
      ground (arith, Map.size-set q s m, h.0),
      ground (arith, Map.size-set q s m, h.0),
    )

put_room-IsValid :
    (r : Registry) (id : Str) (room : Room)
    → IsValid r
    → IsValidRoom r.max_group_peers room
    → Map.size (Map.set id room r.rooms) ≤ r.max_rooms
    → IsValid (put_room r id room)
put_room-IsValid r id room v w c = record {
  distinct_rooms = Map.set-Distinct id room r.rooms v.distinct_rooms;
  rooms_capped = c;
  rooms_valid = Map.Each-set _ id room r.rooms v.rooms_valid w;
  group_cap = v.group_cap;
}

size-put_room :
    (r : Registry) (room : Option Room) (mode : RoomMode) (p : Option Str) (id : Str) (new : Room)
    → IsValid r
    → Map.get id r.rooms ≡ room
    → HasSeat r room mode p
    → Map.size (Map.set id new r.rooms) ≤ r.max_rooms
size-put_room r none mode p id new v e h = ground (arith, Map.size-set id new r.rooms)
size-put_room r (some room) mode p id new v e h =
    ground (arith, Map.size-set id new r.rooms, v.rooms_capped)

pub join-IsValid :
    (r : Registry) (id : Str) (s : Socket) (o : JoinOptions)
    → IsValid r
    → IsValid (join r id s o).registry
join-IsValid r id s o v = elim (join-Decides r id s o v.group_cap) [
  | inr (_, e, _) ↦ subst IsValid (sym e) v
  | inl (_, e, w, h) ↦ subst IsValid (sym e) (
      put_room-IsValid r id _ v (with_seat-IsValidRoom r _ _ o.peer_id s id v refl w.1 h)
        (size-put_room r _ _ o.peer_id id _ v refl h))
]

drop-IsValid :
    (r : Registry) (id : Str) → IsValid r → IsValid (record r { rooms = Map.delete id r.rooms })
drop-IsValid r id v = record {
  distinct_rooms = Map.delete-Distinct id r.rooms v.distinct_rooms;
  rooms_capped = omega (arith, Map.size-delete-le id r.rooms, v.rooms_capped);
  rooms_valid = Map.Each-delete _ id r.rooms v.rooms_valid;
  group_cap = v.group_cap;
}

-- A room that has lost a seat is valid if any seat is left.
without-IsValidRoom :
    (cap : ℕ) (s : Socket) (room : Room)
    → IsValidRoom cap room
    → (room_size (without s room) == 0) ≡ false
    → IsValidRoom cap (without s room)
without-IsValidRoom cap s (pair_room seats) v h =
    (remove_seat-Unique s seats v.0, ground arith, omega (arith, length-remove_seat s seats, v.2))
without-IsValidRoom cap s (group_room m) v h =
    (remove_member-Distinct s m v.0, ground arith, omega (arith, size-remove_member s m, v.2))

store_or_drop-IsValid :
    (r : Registry) (id : Str) (s : Socket) (room : Room)
    → IsValid r
    → Map.get id r.rooms ≡ some room
    → IsValid (store_or_drop r id (without s room))
unfolding store_or_drop
store_or_drop-IsValid r id s room v e = elim (Bool-cases (room_size (without s room) == 0)) [
  | inl gone ↦ rw gone (drop-IsValid r id v)
  | inr left ↦ rw left (
      put_room-IsValid r id _ v
        (without-IsValidRoom r.max_group_peers s room (get-IsValidRoom r id room v e) left)
        (ground (arith, Map.size-set id (without s room) r.rooms, v.rooms_capped)))
]

pub leave-IsValid : (r : Registry) (id : Str) (s : Socket) → IsValid r → IsValid (leave r id s)
unfolding leave
leave-IsValid r id s v = elim (Option-cases (Map.get id r.rooms)) [
  | inl e ↦ rw (e, leave) v
  | inr (room, e) ↦ rw (e, leave) (store_or_drop-IsValid r id s room v e)
]

emptied_by-size :
    (s : Socket) (room : Room) (cap : ℕ)
    → IsValidRoom cap room
    → emptied_by s room ≡ false
    → (room_size (without s room) == 0) ≡ false
unfolding emptied_by
emptied_by-size s (pair_room seats) cap v h = ground (arith, remove_seat_absent s seats)
emptied_by-size s (group_room m) cap v h = h

get-remove_from_all :
    (s : Socket) (id : Str) (m : Map Str Room)
    → Map.get id m ≡ none
    → Map.get id (remove_from_all s m) ≡ none
unfolding Map.get remove_from_all
get-remove_from_all s id [] h = refl
get-remove_from_all s id ((j, room) ∷ m) h = ground (arith, get-remove_from_all s id m)

remove_from_all-Distinct :
    (s : Socket) (m : Map Str Room) → Map.Distinct m → Map.Distinct (remove_from_all s m)
unfolding remove_from_all
remove_from_all-Distinct s [] d = tt
remove_from_all-Distinct s ((id, room) ∷ m) d = elim (Bool-cases (emptied_by s room)) [
  | inl gone ↦ rw gone (remove_from_all-Distinct s m d.1)
  | inr left ↦ rw left (get-remove_from_all s id m d.0, remove_from_all-Distinct s m d.1)
]

size-remove_from_all : (s : Socket) (m : Map Str Room) → Map.size (remove_from_all s m) ≤ Map.size m
unfolding remove_from_all
size-remove_from_all s [] = omega arith
size-remove_from_all s ((id, room) ∷ m) = ground (arith, size-remove_from_all s m)

remove_from_all-Each :
    (s : Socket) (cap : ℕ) (m : Map Str Room)
    → Map.Each (IsValidRoom cap) m
    → Map.Each (IsValidRoom cap) (remove_from_all s m)
unfolding remove_from_all
remove_from_all-Each s cap [] v = tt
remove_from_all-Each s cap ((id, room) ∷ m) v = elim (Bool-cases (emptied_by s room)) [
  | inl gone ↦ rw gone (remove_from_all-Each s cap m v.1)
  | inr left ↦ rw left (
    without-IsValidRoom cap s room v.0 (emptied_by-size s room cap v.0 left),
    remove_from_all-Each s cap m v.1,
  )
]

pub remove_socket-IsValid : (r : Registry) (s : Socket) → IsValid r → IsValid (remove_socket r s)
unfolding remove_socket
remove_socket-IsValid r s v = record {
  distinct_rooms = remove_from_all-Distinct s r.rooms v.distinct_rooms;
  rooms_capped = omega (arith, size-remove_from_all s r.rooms, v.rooms_capped);
  rooms_valid = remove_from_all-Each s r.max_group_peers r.rooms v.rooms_valid;
  group_cap = v.group_cap;
}

-- The calls that change the registry.
pub data Call : Type 0 where
  joins : Str → Socket → JoinOptions → Call
  leaves : Str → Socket → Call
  removes : Socket → Call

unfoldable pub step : Registry → Call → Registry
step r (joins id s o) = (join r id s o).registry
step r (leaves id s) = leave r id s
step r (removes s) = remove_socket r s

unfoldable pub run : Registry → List Call → Registry
run r [] = r
run r (c ∷ cs) = run (step r c) cs

step-IsValid : (r : Registry) (c : Call) → IsValid r → IsValid (step r c)
unfolding step
step-IsValid r (joins id s o) v = join-IsValid r id s o v
step-IsValid r (leaves id s) v = leave-IsValid r id s v
step-IsValid r (removes s) v = remove_socket-IsValid r s v

pub run-IsValid : (r : Registry) (cs : List Call) → IsValid r → IsValid (run r cs)
unfolding run
run-IsValid r [] v = v
run-IsValid r (c ∷ cs) v = run-IsValid (step r c) cs (step-IsValid r c v)

pub new_registry-IsValid :
    (rooms peers : Option ℕ)
    → 1 ≤ (new_registry rooms peers).max_group_peers
    → IsValid (new_registry rooms peers)
unfolding new_registry
new_registry-IsValid rooms peers h = record {
  distinct_rooms = tt;
  rooms_capped = omega arith;
  rooms_valid = tt;
  group_cap = h;
}

-- Whatever joins, leaves and removals a registry sees from its construction on: no more rooms than
-- its cap, none of them empty, at most two seats in a pair room and at most the cap in a group room,
-- no socket twice in a pair room, no peerId twice in a group room and no room id twice. The cap on
-- group rooms must be at least 1.
pub run-new_registry-IsValid :
    (rooms peers : Option ℕ) (cs : List Call)
    → 1 ≤ (new_registry rooms peers).max_group_peers
    → IsValid (run (new_registry rooms peers) cs)
run-new_registry-IsValid rooms peers cs h = run-IsValid _ cs (new_registry-IsValid rooms peers h)

-- The pair room's forwarding is symmetric: in any registry that calls have led to, if a seated
-- socket's messages go to another socket, then that one's messages go back to it, and it is not the
-- sender itself.
pub get_peer_symmetric :
    (r : Registry) (id : Str) (s t : Socket) (seats : List Socket)
    → IsValid r
    → Map.get id r.rooms ≡ some (pair_room seats)
    → seated_in s seats ≡ true
    → get_peer r id s ≡ some t
    → (get_peer r id t ≡ some s) × ((s == t) ≡ false)
unfolding get_peer
get_peer_symmetric r id s t seats v e i h =
    let w = get-IsValidRoom r id (pair_room seats) v e in
    ground (arith, other_seat_symmetric s t seats w.0 w.2 i)
