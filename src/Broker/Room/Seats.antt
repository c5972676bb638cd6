-- ===== src/Broker/Room/Seats.antt =====
-- The seats of one room under `add`, `delete` and the loops of the registry.
use fuck_chat_control.Base.{
  ◌+◌, ◌≤◌, ◌≡◌, refl, Bool, true, false, none, some, List, [], ◌∷◌, Str, str_eq, arith, length,
  ◌==◌, ==_iff,
}
use fuck_chat_control.Base.Map
use fuck_chat_control.Base.Map.{Map}
use fuck_chat_control.Broker.Room.{
  Socket, seated_in, add_seat, remove_seat, remove_member, other_seat,
}

abbrev pub Unique : List Socket → Type 0
Unique [] = Unit
Unique (s ∷ ss) = (seated_in s ss ≡ false) × Unique ss

pub seated_in-add_seat_ne :
    (s t : Socket) (ss : List Socket)
    → (t == s) ≡ false
    → seated_in t (add_seat s ss) ≡ seated_in t ss
unfolding add_seat
seated_in-add_seat_ne s t [] h = ground (arith, ==_iff s t, ==_iff t s)
seated_in-add_seat_ne s t (u ∷ ss) h = ground (arith, seated_in-add_seat_ne s t ss h)

pub seated_in-add_seat : (s : Socket) (ss : List Socket) → seated_in s (add_seat s ss) ≡ true
unfolding add_seat
seated_in-add_seat s [] = ground arith
seated_in-add_seat s (u ∷ ss) = ground (arith, seated_in-add_seat s ss)

pub add_seat-Unique : (s : Socket) (ss : List Socket) → Unique ss → Unique (add_seat s ss)
unfolding add_seat
add_seat-Unique s [] u = (refl, tt)
add_seat-Unique s (t ∷ ss) u =
    ground (arith, add_seat-Unique s ss u.1, seated_in-add_seat_ne s t ss)

pub length-add_seat :
    (s : Socket) (ss : List Socket)
    → (length ss ≤ length (add_seat s ss))
      × (length (add_seat s ss) ≤ length ss + 1)
      × (1 ≤ length (add_seat s ss))
unfolding add_seat
length-add_seat s [] = omega arith
length-add_seat s (t ∷ ss) = ground (arith, length-add_seat s ss)

pub seated_in-remove_seat_absent :
    (s t : Socket) (ss : List Socket)
    → seated_in t ss ≡ false
    → seated_in t (remove_seat s ss) ≡ false
unfolding remove_seat
seated_in-remove_seat_absent s t [] h = refl
seated_in-remove_seat_absent s t (u ∷ ss) h = ground (arith, seated_in-remove_seat_absent s t ss)

pub remove_seat-Unique : (s : Socket) (ss : List Socket) → Unique ss → Unique (remove_seat s ss)
unfolding remove_seat
remove_seat-Unique s [] u = tt
remove_seat-Unique s (t ∷ ss) u =
    ground (arith, remove_seat-Unique s ss u.1, seated_in-remove_seat_absent s t ss)

pub length-remove_seat : (s : Socket) (ss : List Socket) → length (remove_seat s ss) ≤ length ss
unfolding remove_seat
length-remove_seat s [] = omega arith
length-remove_seat s (t ∷ ss) = ground (arith, length-remove_seat s ss)

pub remove_seat_absent :
    (s : Socket) (ss : List Socket) → seated_in s ss ≡ false → remove_seat s ss ≡ ss
unfolding remove_seat
remove_seat_absent s [] h = refl
remove_seat_absent s (t ∷ ss) h = ground (arith, remove_seat_absent s ss)

pub remove_seat-add_seat :
    (s : Socket) (ss : List Socket) → seated_in s ss ≡ false → remove_seat s (add_seat s ss) ≡ ss
unfolding remove_seat add_seat
remove_seat-add_seat s [] h = ground arith
remove_seat-add_seat s (t ∷ ss) h = ground (arith, remove_seat-add_seat s ss)

-- A socket among the members of a group room.
abbrev pub member_in : Socket → Map Str Socket → Bool
member_in s m = seated_in s (Map.values m)

pub get-remove_member_absent :
    (s : Socket) (p : Str) (m : Map Str Socket)
    → Map.get p m ≡ none
    → Map.get p (remove_member s m) ≡ none
unfolding remove_member Map.get
get-remove_member_absent s p [] h = refl
get-remove_member_absent s p ((q, t) ∷ m) h = ground (arith, get-remove_member_absent s p m)

pub remove_member-Distinct :
    (s : Socket) (m : Map Str Socket) → Map.Distinct m → Map.Distinct (remove_member s m)
unfolding remove_member Map.get
remove_member-Distinct s [] d = tt
remove_member-Distinct s ((q, t) ∷ m) d =
    ground (arith, remove_member-Distinct s m d.1, get-remove_member_absent s q m)

pub size-remove_member :
    (s : Socket) (m : Map Str Socket) → Map.size (remove_member s m) ≤ Map.size m
unfolding remove_member
size-remove_member s [] = omega arith
size-remove_member s ((q, t) ∷ m) = ground (arith, size-remove_member s m)

pub remove_member-set :
    (s : Socket) (p : Str) (m : Map Str Socket)
    → Map.get p m ≡ none
    → member_in s m ≡ false
    → remove_member s (Map.set p s m) ≡ m
unfolding remove_member Map.set Map.get
remove_member-set s p [] h a = ground arith
remove_member-set s p ((q, t) ∷ m) h a = ground (arith, remove_member-set s p m)

-- In a room of at most two seats, the other of two sockets is found from either side.
pub other_seat_symmetric :
    (s t : Socket) (ss : List Socket)
    → Unique ss
    → length ss ≤ 2
    → seated_in s ss ≡ true
    → other_seat s ss ≡ some t
    → (other_seat t ss ≡ some s) × ((s == t) ≡ false)
unfolding other_seat
other_seat_symmetric s t [] u h i e = absurd (cc)
other_seat_symmetric s t (a ∷ []) u h i e = ground arith
other_seat_symmetric s t (a ∷ b ∷ []) u h i e = ground arith
other_seat_symmetric s t (a ∷ b ∷ c ∷ ss) u h i e = absurd (omega arith)
