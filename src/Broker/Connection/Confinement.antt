-- ===== src/Broker/Connection/Confinement.antt =====
-- Where the effects of a handler go, and what a relayed message carries.
use fuck_chat_control.Base.{
  ℕ, ◌≡◌, refl, ◌⊎◌, inl, inr, Bool, true, false, Option, none, some, List, [], ◌∷◌, ◌++◌, Str, str,
  str_eq, str_beq, arith, Bool-cases, Option-cases, ltb,
}
use fuck_chat_control.Base.Json.{text, property}
use fuck_chat_control.Broker.Message.{BrokerMessage, offer, answer, ice, format_message}
use fuck_chat_control.Broker.Room.{Socket, RoomMode, pair, group, SeatedPeer}
use fuck_chat_control.Broker.Registry.{Registry, get_peer}
use fuck_chat_control.Broker.Registry.Seating.{
  seat_at, AllOf, list_peers-seat_at, get_peer-seat_at, get_peer_by_id-seat_at,
}
use fuck_chat_control.Broker.Connection.{
  Effect, sends, closes, BrokerConnection, forward, relay_payload, broadcast, send_to,
  notify_peer_left, notices_in, handle_join, handle_leave, on_close, member_target, forward_to,
  target_of, relay, on_message, is_relayable, broker_max_buffered_bytes,
}

abbrev pub target : Effect → Socket
target (sends s j) = s
target (closes c) = c.target

-- The effect reaches a socket seated in the room, or closes the sender itself.
abbrev pub StaysIn : Registry → Str → Socket → Effect → Type 0
StaysIn r id self e = (target e ≡ self) ⊎ (seat_at r id (target e) ≡ true)

AllOf-append {ℓ κ} :
    {A : Type ℓ} (P : A → Type κ) (xs ys : List A) → AllOf P xs → AllOf P ys → AllOf P (xs ++ ys)
AllOf-append P [] ys a b = b
AllOf-append P (x ∷ xs) ys a b = (a.0, AllOf-append P xs ys a.1 b)

broadcast-StaysIn :
    (r : Registry) (id : Str) (self : Socket) (peers : List SeatedPeer) (m : BrokerMessage)
    → AllOf (λ p. seat_at r id p.socket ≡ true) peers
    → AllOf (StaysIn r id self) (broadcast peers m)
unfolding broadcast
broadcast-StaysIn r id self [] m a = tt
broadcast-StaysIn r id self (p ∷ ps) m a = (inr a.0, broadcast-StaysIn r id self ps m a.1)

send_to-StaysIn :
    (r : Registry) (id : Str) (self : Socket) (o : Option Socket) (m : BrokerMessage)
    → get_peer r id self ≡ o
    → AllOf (StaysIn r id self) (send_to o m)
send_to-StaysIn r id self none m e = tt
send_to-StaysIn r id self (some t) m e = (inr (get_peer-seat_at r id self t e), tt)

forward-StaysIn :
    (buffered : Socket → ℕ) (r : Registry) (id : Str) (self t : Socket) (m : BrokerMessage)
    → seat_at r id t ≡ true
    → AllOf (StaysIn r id self) (forward buffered t m)
unfolding forward
forward-StaysIn buffered r id self t m h = elim (Bool-cases (is_relayable m)) [
  | inr skip ↦ rw skip tt
  | inl ok ↦ elim (Bool-cases (ltb broker_max_buffered_bytes (buffered t))) [
    | inl over ↦ rw (ok, over) (inr h, tt)
    | inr fits ↦ rw (ok, fits) (inr h, tt)
  ]
]

forward_to-StaysIn :
    (buffered : Socket → ℕ) (r : Registry) (id : Str) (self : Socket) (o : Option Socket)
    (m : BrokerMessage)
    → ((t : Socket) → o ≡ some t → seat_at r id t ≡ true)
    → AllOf (StaysIn r id self) (forward_to buffered o m)
unfolding forward_to
forward_to-StaysIn buffered r id self none m h = tt
forward_to-StaysIn buffered r id self (some t) m h =
    forward-StaysIn buffered r id self t m (h t refl)

member_target-seat_at :
    (r : Registry) (id : Str) (o : Option Str) (self t : Socket)
    → member_target r id o self ≡ some t
    → seat_at r id t ≡ true
unfolding member_target
member_target-seat_at r id none self t e = absurd (cc)
member_target-seat_at r id (some to) self t e = get_peer_by_id-seat_at r id to t (ground arith)

relay-StaysIn :
    (buffered : Socket → ℕ) (r : Registry) (c : BrokerConnection) (id : Str) (m : BrokerMessage)
    → c.room_id ≡ some id
    → AllOf (StaysIn r id c.socket) (relay buffered r c m)
unfolding relay
relay-StaysIn buffered r c id m e = elim (Option-cases c.peer_id) [
  | inl n ↦
      rw (e, n)
        (forward_to-StaysIn buffered r id c.socket _ _ (λ t g. get_peer-seat_at r id c.socket t g))
  | inr (p, g) ↦
      rw (e, g)
        (forward_to-StaysIn buffered r id c.socket _ _
          (λ t h. member_target-seat_at r id (target_of m) c.socket t h))
]

notify_peer_left-StaysIn :
    (r : Registry) (c : BrokerConnection) (id : Str)
    → c.room_id ≡ some id
    → AllOf (StaysIn r id c.socket) (notify_peer_left r c)
unfolding notify_peer_left
notify_peer_left-StaysIn r c id e = elim (Option-cases c.peer_id) [
  | inl n ↦ rw (e, n) (send_to-StaysIn r id c.socket _ _ refl)
  | inr (p, g) ↦ rw (e, g) (broadcast-StaysIn r id c.socket _ _ (list_peers-seat_at r id c.socket))
]

handle_leave-StaysIn :
    (r : Registry) (c : BrokerConnection) (id : Str)
    → c.room_id ≡ some id
    → AllOf (StaysIn r id c.socket) (handle_leave r c).effects
unfolding handle_leave
handle_leave-StaysIn r c id e = elim (Option-cases c.peer_id) [
  | inl n ↦ rw (e, n) tt
  | inr (p, g) ↦ rw (e, g) (notify_peer_left-StaysIn r (record c { room_id = some id }) id refl)
]

handle_join-StaysIn :
    (r : Registry) (c : BrokerConnection) (id j : Str) (mode : Option RoomMode) (p : Option Str)
    → c.room_id ≡ some id
    → AllOf (StaysIn r id c.socket) (handle_join r c j mode p).effects
unfolding handle_join
handle_join-StaysIn r c id j mode p e = rw e (inl refl, tt)

-- Whatever a seated client sends, and also when its socket closes, the broker writes only to sockets
-- seated in that client's room, or closes the client itself.
pub seated_confined :
    (buffered : Socket → ℕ) (r : Registry) (c : BrokerConnection) (id : Str)
    (m : Option BrokerMessage)
    → c.room_id ≡ some id
    → AllOf (StaysIn r id c.socket) (on_message buffered r c m).effects
      × AllOf (StaysIn r id c.socket) (on_close r c).effects
unfolding on_message on_close
seated_confined buffered r c id none e = (tt, notify_peer_left-StaysIn r c id e)
seated_confined buffered r c id (some (BrokerMessage.join j mode p)) e =
    (handle_join-StaysIn r c id j mode p e, notify_peer_left-StaysIn r c id e)
seated_confined buffered r c id (some (BrokerMessage.leave j p)) e =
    (handle_leave-StaysIn r c id e, notify_peer_left-StaysIn r c id e)
seated_confined buffered r c id (some m) e =
    (relay-StaysIn buffered r c id m e, notify_peer_left-StaysIn r c id e)

notices_in-StaysIn :
    (mode : Option RoomMode) (r : Registry) (second : Bool) (id : Str) (p : Option Str) (s : Socket)
    → AllOf (StaysIn r id s) (notices_in mode r second id p s)
unfolding notices_in
notices_in-StaysIn (some group) r second id (some q) s =
    broadcast-StaysIn r id s _ _ (list_peers-seat_at r id s)
notices_in-StaysIn (some group) r true id none s = send_to-StaysIn r id s _ _ refl
notices_in-StaysIn (some group) r false id none s = tt
notices_in-StaysIn (some pair) r true id p s = send_to-StaysIn r id s _ _ refl
notices_in-StaysIn (some pair) r false id p s = tt
notices_in-StaysIn none r true id p s = send_to-StaysIn r id s _ _ refl
notices_in-StaysIn none r false id p s = tt

-- A message on the wire names its sender as the broker seated it, and never its addressee.
abbrev pub IsStamped : Option Str → Effect → Type 0
IsStamped seat (closes c) = Unit
IsStamped none (sends t j) = (property (str "from") j ≡ none) × (property (str "to") j ≡ none)
IsStamped (some p) (sends t j) =
    (property (str "from") j ≡ some (text p)) × (property (str "to") j ≡ none)

payload-IsStamped :
    (seat : Option Str) (t : Socket) (m : BrokerMessage)
    → is_relayable m ≡ true
    → IsStamped seat (sends t (format_message (relay_payload m seat)))
unfolding relay_payload format_message property str_beq
payload-IsStamped none t (offer b to from) h = (refl, refl)
payload-IsStamped none t (answer b to from) h = (refl, refl)
payload-IsStamped none t (ice b to from) h = (refl, refl)
payload-IsStamped (some p) t (offer b to from) h = (refl, refl)
payload-IsStamped (some p) t (answer b to from) h = (refl, refl)
payload-IsStamped (some p) t (ice b to from) h = (refl, refl)
payload-IsStamped seat t (BrokerMessage.join _ _ _) h = absurd (cc)
payload-IsStamped seat t (BrokerMessage.leave _ _) h = absurd (cc)

is_relayable-relay_payload :
    (m : BrokerMessage) (seat : Option Str) → is_relayable (relay_payload m seat) ≡ is_relayable m
unfolding relay_payload
is_relayable-relay_payload (offer _ _ _) seat = refl
is_relayable-relay_payload (answer _ _ _) seat = refl
is_relayable-relay_payload (ice _ _ _) seat = refl
is_relayable-relay_payload (BrokerMessage.join _ _ _) seat = refl
is_relayable-relay_payload (BrokerMessage.leave _ _) seat = refl

forward_to-IsStamped :
    (buffered : Socket → ℕ) (o : Option Socket) (m : BrokerMessage) (seat : Option Str)
    → AllOf (IsStamped seat) (forward_to buffered o (relay_payload m seat))
unfolding forward_to forward
forward_to-IsStamped buffered none m seat = tt
forward_to-IsStamped buffered (some t) m seat = elim (Bool-cases (is_relayable m)) [
  | inr skip ↦ rw (is_relayable-relay_payload m seat, skip) tt
  | inl ok ↦ elim (Bool-cases (ltb broker_max_buffered_bytes (buffered t))) [
    | inl over ↦ rw (is_relayable-relay_payload m seat, ok, over) (tt, tt)
    | inr fits ↦
        rw (is_relayable-relay_payload m seat, ok, fits) (payload-IsStamped seat t m ok, tt)
  ]
]

-- No client can speak under another's peerId: whatever `to` and `from` it puts into a message, the
-- relayed one carries as `from` the peerId that its own connection was seated under (nothing in a
-- pair room), and no `to`.
pub relay-IsStamped :
    (buffered : Socket → ℕ) (r : Registry) (c : BrokerConnection) (m : BrokerMessage)
    → AllOf (IsStamped c.peer_id) (relay buffered r c m)
unfolding relay
relay-IsStamped buffered r c m = elim (Option-cases c.room_id) [
  | inl n ↦ rw n tt
  | inr (id, e) ↦ elim (Option-cases c.peer_id) [
    | inl n ↦ rw (e, n) (forward_to-IsStamped buffered _ m none)
    | inr (p, g) ↦ rw (e, g) (forward_to-IsStamped buffered _ m (some p))
  ]
]
