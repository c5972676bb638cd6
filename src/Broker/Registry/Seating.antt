-- ===== src/Broker/Registry/Seating.antt =====
-- Who sits where, and how the operations of the registry change it.
use fuck_chat_control.Base.{
  ◌≡◌, inl, inr, Bool, true, false, Option, none, some, List, [], ◌∷◌, Str, str_eq, arith, ◌==◌,
  ==_iff, Bool-cases,
}
use fuck_chat_control.Base.Map
use fuck_chat_control.Base.Map.{Map}
use fuck_chat_control.Broker.Room.{
  Socket, Room, pair_room, group_room, seated_in, other_seat, list_seats, list_members,
}
use fuck_chat_control.Broker.Room.Seats.{member_in}
use fuck_chat_control.Broker.Registry.{Registry, get_peer, get_peer_by_id, list_peers}

abbrev pub in_room : Socket → Option Room → Bool
in_room s none = false
in_room s (some (pair_room seats)) = seated_in s seats
in_room s (some (group_room m)) = member_in s m

-- The socket has a seat in the room.
unfoldable pub seat_at : Registry → Str → Socket → Bool
seat_at r id s = in_room s (Map.get id r.rooms)

other_seat-seated_in :
    (s t : Socket) (ss : List Socket) → other_seat s ss ≡ some t → seated_in t ss ≡ true
unfolding other_seat
other_seat-seated_in s t [] h = absurd (cc)
other_seat-seated_in s t (u ∷ ss) h = ground (arith, ==_iff u t, other_seat-seated_in s t ss)

get-member_in :
    (p : Str) (t : Socket) (m : Map Str Socket) → Map.get p m ≡ some t → member_in t m ≡ true
unfolding Map.get
get-member_in p t [] h = absurd (cc)
get-member_in p t ((q, u) ∷ m) h = ground (arith, ==_iff u t, get-member_in p t m)

-- The pair room's target sits in the room.
pub get_peer-seat_at :
    (r : Registry) (id : Str) (s t : Socket) → get_peer r id s ≡ some t → seat_at r id t ≡ true
unfolding get_peer seat_at
get_peer-seat_at r id s t h = go (Map.get id r.rooms) h
  where
    go :
        (room : Option Room)
        → (elim room [
          | none ↦ none
          | some room ↦ elim room [ pair_room seats ↦ other_seat s seats | group_room m ↦ none ]
        ])
          ≡ some t
        → in_room t room ≡ true
    go none h = absurd (cc)
    go (some (pair_room seats)) h = other_seat-seated_in s t seats h
    go (some (group_room m)) h = absurd (cc)

pub get_peer_by_id-seat_at :
    (r : Registry) (id p : Str) (t : Socket)
    → get_peer_by_id r id p ≡ some t
    → seat_at r id t ≡ true
unfolding get_peer_by_id seat_at
get_peer_by_id-seat_at r id p t h = go (Map.get id r.rooms) h
  where
    go :
        (room : Option Room)
        → (elim room [
          | none ↦ none
          | some room ↦ elim room [ pair_room seats ↦ none | group_room m ↦ Map.get p m ]
        ])
          ≡ some t
        → in_room t room ≡ true
    go none h = absurd (cc)
    go (some (pair_room seats)) h = absurd (cc)
    go (some (group_room m)) h = get-member_in p t m h

abbrev pub AllOf {ℓ κ} : {A : Type ℓ} → (A → Type κ) → List A → Type κ
AllOf P [] = Unit
AllOf P (x ∷ xs) = P x × AllOf P xs

list_seats-AllOf :
    (s : Socket) (ss : List Socket) (P : Socket → Type 0)
    → ((t : Socket) → seated_in t ss ≡ true → P t)
    → AllOf (λ p. P p.socket) (list_seats (some s) ss)
unfolding list_seats
list_seats-AllOf s [] P h = tt
list_seats-AllOf s (u ∷ ss) P h = elim (Bool-cases (u == s)) [
  | inl e ↦ rw e (list_seats-AllOf s ss P (λ t m. h t (ground arith)))
  | inr e ↦ rw e (h u (ground arith), list_seats-AllOf s ss P (λ t m. h t (ground arith)))
]

list_members-AllOf :
    (s : Socket) (m : Map Str Socket) (P : Socket → Type 0)
    → ((t : Socket) → member_in t m ≡ true → P t)
    → AllOf (λ p. P p.socket) (list_members (some s) m)
unfolding list_members
list_members-AllOf s [] P h = tt
list_members-AllOf s ((q, u) ∷ m) P h = elim (Bool-cases (u == s)) [
  | inl e ↦ rw e (list_members-AllOf s m P (λ t i. h t (ground arith)))
  | inr e ↦ rw e (h u (ground arith), list_members-AllOf s m P (λ t i. h t (ground arith)))
]

-- Everybody on the list of peers sits in the room.
pub list_peers-seat_at :
    (r : Registry) (id : Str) (s : Socket)
    → AllOf (λ p. seat_at r id p.socket ≡ true) (list_peers r id (some s))
unfolding list_peers seat_at
list_peers-seat_at r id s = go (Map.get id r.rooms)
  where
    go :
        (room : Option Room)
        → AllOf
            (λ p. in_room p.socket room ≡ true)
            (elim room [
              | none ↦ []
              | some room ↦ elim room [
                | pair_room seats ↦ list_seats (some s) seats
                | group_room m ↦ list_members (some s) m
              ]
            ])
    go none = tt
    go (some (pair_room seats)) = list_seats-AllOf s seats _ (λ t i. i)
    go (some (group_room m)) = list_members-AllOf s m _ (λ t i. i)
