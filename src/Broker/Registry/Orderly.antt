-- ===== src/Broker/Registry/Orderly.antt =====
-- The registry as the connections use it: valid, and no socket has two seats in one room.
use fuck_chat_control.Base.{
  ℕ, ◌≤◌, ◌≡◌, refl, inl, inr, true, false, Option, none, some, [], ◌∷◌, Str, str_eq, str_beq,
  arith, ◌==◌, ==_iff, Bool-cases, Option-cases, subst, sym, ap, ◌∙◌, of_some,
}
use fuck_chat_control.Base.Map
use fuck_chat_control.Base.Map.{Map}
use fuck_chat_control.Broker.Room.{
  Socket, Room, RoomMode, pair, group, pair_room, group_room, remove_member, without, room_size,
  emptied_by,
}
use fuck_chat_control.Broker.Room.Seats.{
  Unique, member_in, add_seat-Unique, remove_seat-Unique, remove_seat_absent,
}
use fuck_chat_control.Broker.Registry.{
  Registry, JoinOptions, new_registry, join, leave, remove_socket, remove_from_all, put_room,
  store_or_drop,
}
use fuck_chat_control.Broker.Registry.Join.{
  with_seat, join-Decides, leave_present, leave_absent, PeerIdFits, HasSeat,
}
use fuck_chat_control.Broker.Registry.Invariant.{
  IsValid, IsValidRoom, join-IsValid, leave-IsValid, new_registry-IsValid,
}
use fuck_chat_control.Broker.Registry.Seating.{in_room, seat_at}
use fuck_chat_control.Broker.Registry.Moves.{HasOwnSeats, member_in-set}

pub record IsOrderly (r : Registry) : Type 0 where
  pub valid : IsValid r
  pub own : (id : Str) (room : Room) → Map.get id r.rooms ≡ some room → HasOwnSeats room

values-set-Unique :
    (s : Socket) (p : Str) (m : Map Str Socket)
    → Map.get p m ≡ none
    → member_in s m ≡ false
    → Unique (Map.values m)
    → Unique (Map.values (Map.set p s m))
unfolding Map.set Map.get
values-set-Unique s p [] g h u = (refl, tt)
values-set-Unique s p ((q, t) ∷ m) g h u =
    ground (arith, values-set-Unique s p m, member_in-set s t p m, ==_iff s t, ==_iff t s)

with_seat-HasOwnSeats :
    (r : Registry) (room : Option Room) (mode : RoomMode) (p : Option Str) (s : Socket)
    → PeerIdFits mode p
    → HasSeat r room mode p
    → in_room s room ≡ false
    → ((old : Room) → room ≡ some old → HasOwnSeats old)
    → HasOwnSeats (with_seat room mode p s)
with_seat-HasOwnSeats r none pair p s f h a own = (refl, tt)
with_seat-HasOwnSeats r none group none s f h a own = absurd f
with_seat-HasOwnSeats r none group (some q) s f h a own = (refl, tt)
with_seat-HasOwnSeats r (some (pair_room seats)) pair p s f h a own =
    add_seat-Unique s seats (own (pair_room seats) refl)
with_seat-HasOwnSeats r (some (pair_room seats)) group p s f h a own = absurd h
with_seat-HasOwnSeats r (some (group_room m)) pair p s f h a own = absurd h
with_seat-HasOwnSeats r (some (group_room m)) group none s f h a own = absurd h
with_seat-HasOwnSeats r (some (group_room m)) group (some q) s f h a own =
    values-set-Unique s q m h.0 a (own (group_room m) refl)

put_room-own :
    (r : Registry) (id : Str) (new : Room)
    → HasOwnSeats new
    → ((i : Str) (room : Room) → Map.get i r.rooms ≡ some room → HasOwnSeats room)
    → (i : Str) (room : Room) → Map.get i (put_room r id new).rooms ≡ some room
    → HasOwnSeats room
put_room-own r id new h own i room e = elim (Bool-cases (str_beq id i)) [
  | inl same ↦ subst HasOwnSeats (of_some (sym (here same) ∙ e)) h
  | inr other ↦ own i room (sym (Map.get-set_ne id i new r.rooms other) ∙ e)
]
  where
    here : str_beq id i ≡ true → Map.get i (Map.set id new r.rooms) ≡ some new
    here same = ground (arith, Map.get-set id i new r.rooms)

pub join-IsOrderly :
    (r : Registry) (id : Str) (s : Socket) (o : JoinOptions)
    → IsOrderly r
    → seat_at r id s ≡ false
    → IsOrderly (join r id s o).registry
unfolding seat_at
join-IsOrderly r id s o v a = record {
  valid = join-IsValid r id s o v.valid;
  own = elim (join-Decides r id s o v.valid.group_cap) [
    | inr (_, e, _) ↦ subst Own (sym e) v.own
    | inl (_, e, w, h) ↦ subst Own (sym e) (
        put_room-own r id _
          (with_seat-HasOwnSeats r _ _ o.peer_id s w.1 h a (λ old g. v.own id old g)) v.own)
  ];
}
  where
    Own : Registry → Type 0
    Own q = (i : Str) (room : Room) → Map.get i q.rooms ≡ some room → HasOwnSeats room

values-remove_member_absent :
    (s t : Socket) (m : Map Str Socket)
    → member_in t m ≡ false
    → member_in t (remove_member s m) ≡ false
unfolding remove_member
values-remove_member_absent s t [] h = refl
values-remove_member_absent s t ((q, u) ∷ m) h = ground (arith, values-remove_member_absent s t m)

values-remove_member-Unique :
    (s : Socket) (m : Map Str Socket)
    → Unique (Map.values m)
    → Unique (Map.values (remove_member s m))
unfolding remove_member
values-remove_member-Unique s [] u = tt
values-remove_member-Unique s ((q, t) ∷ m) u =
    ground (arith, values-remove_member-Unique s m, values-remove_member_absent s t m)

without-HasOwnSeats : (s : Socket) (room : Room) → HasOwnSeats room → HasOwnSeats (without s room)
without-HasOwnSeats s (pair_room seats) u = remove_seat-Unique s seats u
without-HasOwnSeats s (group_room m) u = values-remove_member-Unique s m u

store_or_drop-own :
    (r : Registry) (id : Str) (new : Room)
    → HasOwnSeats new
    → IsOrderly r
    → (i : Str) (room : Room) → Map.get i (store_or_drop r id new).rooms ≡ some room
    → HasOwnSeats room
unfolding store_or_drop
store_or_drop-own r id new h v i room e = elim (Bool-cases (room_size new == 0)) [
  | inr left ↦ put_room-own r id new h v.own i room (rw left at e)
  | inl gone ↦ v.own i room (kept (rw gone at e))
]
  where
    kept : Map.get i (Map.delete id r.rooms) ≡ some room → Map.get i r.rooms ≡ some room
    kept g = ground (arith, Map.get-delete id i r.rooms v.valid.distinct_rooms)

pub leave-IsOrderly :
    (r : Registry) (id : Str) (s : Socket) → IsOrderly r → IsOrderly (leave r id s)
leave-IsOrderly r id s v = elim (Option-cases (Map.get id r.rooms)) [
  | inl e ↦ subst IsOrderly (sym (leave_absent r id s e)) v
  | inr (room, e) ↦ record {
    valid = leave-IsValid r id s v.valid;
    own = λ i other g.
        store_or_drop-own r id (without s room) (without-HasOwnSeats s room (v.own id room e)) v i
          other (ap (λ q. Map.get i q.rooms) (sym (leave_present r id s room e)) ∙ g);
  }
]

pub new_registry-IsOrderly :
    (rooms peers : Option ℕ)
    → 1 ≤ (new_registry rooms peers).max_group_peers
    → IsOrderly (new_registry rooms peers)
unfolding new_registry Map.get
new_registry-IsOrderly rooms peers h = record {
  valid = new_registry-IsValid rooms peers h;
  own = λ id room e. absurd (cc);
}

remove_member_absent :
    (s : Socket) (m : Map Str Socket) → member_in s m ≡ false → remove_member s m ≡ m
unfolding remove_member
remove_member_absent s [] h = refl
remove_member_absent s ((q, t) ∷ m) h = ground (arith, remove_member_absent s m)

untouched :
    (s : Socket) (room : Room) (cap : ℕ)
    → IsValidRoom cap room
    → in_room s (some room) ≡ false
    → (emptied_by s room ≡ false) × (without s room ≡ room)
unfolding emptied_by
untouched s (pair_room seats) cap v h = (ground arith, ap pair_room (remove_seat_absent s seats h))
untouched s (group_room m) cap v h =
    (ground (arith, remove_member_absent s m h), ap group_room (remove_member_absent s m h))

remove_from_all_absent :
    (s : Socket) (cap : ℕ) (m : Map Str Room)
    → Map.Each (IsValidRoom cap) m
    → Map.Each (λ room. in_room s (some room) ≡ false) m
    → remove_from_all s m ≡ m
unfolding remove_from_all
remove_from_all_absent s cap [] v h = refl
remove_from_all_absent s cap ((id, room) ∷ m) v h =
    let (stays, same) = untouched s room cap v.0 h.0 in
    rw (stays, same, remove_from_all_absent s cap m v.1 h.1) refl

-- The scan finds nothing to do for a socket that has no seat.
pub remove_socket_unseated :
    (r : Registry) (s : Socket)
    → IsOrderly r
    → ((id : Str) → seat_at r id s ≡ false)
    → remove_socket r s ≡ r
unfolding remove_socket seat_at
remove_socket_unseated r s v h =
    ap (λ m. record r { rooms = m })
      (remove_from_all_absent s r.max_group_peers r.rooms v.valid.rooms_valid (
        Map.Each-of_get _ r.rooms v.valid.distinct_rooms
          (λ id room e. subst (λ o. in_room s o ≡ false) e (h id))))
