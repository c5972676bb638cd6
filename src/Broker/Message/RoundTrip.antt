-- ===== src/Broker/Message/RoundTrip.antt =====
-- Reading what was written, and what a message that was read looks like.
use fuck_chat_control.Base.{
  ℕ, ◌≤◌, ◌≡◌, ◌∙◌, ap, refl, length, leb, Bool, true, false, Option, none, some, Str, str, str_beq,
  if◌then◌else◌, ltb, ◌||◌, ◌==◌, arith, Bool-cases, of_some, inl, inr, subst,
}
use fuck_chat_control.Base.Json.{Json, property}
use fuck_chat_control.Base.Json.Written.{stringify}
use fuck_chat_control.Broker.Room.{pair, group, is_valid_room_id, is_valid_peer_id}
use fuck_chat_control.Broker.Message.{
  RawText, BrokerMessage, join, leave, offer, answer, ice, read_peer_id_field, read_room_id,
  read_mode, mode_allows, read_join, read_leave, read_relayed, read_tagged, read_message,
  parse_message, format_message, broker_message_max_bytes, ◌>>=◌, keep_if, read_text,
}

-- A peerId that is absent or well formed.
abbrev pub IsPeerField : Option Str → Type 0
IsPeerField none = Unit
IsPeerField (some p) = is_valid_peer_id p ≡ true

-- The messages of the wire: the ids are well formed, a group join names its peer, and an explicit
-- pair join names none.
abbrev pub IsWire : BrokerMessage → Type 0
IsWire (join room_id mode peer_id) =
    (is_valid_room_id room_id ≡ true) × IsPeerField peer_id × (mode_allows mode peer_id ≡ true)
IsWire (leave room_id peer_id) = (is_valid_room_id room_id ≡ true) × IsPeerField peer_id
IsWire (offer sdp to from) = IsPeerField to × IsPeerField from
IsWire (answer sdp to from) = IsPeerField to × IsPeerField from
IsWire (ice candidate to from) = IsPeerField to × IsPeerField from

read_message-format_message :
    (m : BrokerMessage) → IsWire m → read_message (format_message m) ≡ some m
unfolding read_message format_message property str_beq
read_message-format_message (join r none none) w = ground arith
read_message-format_message (join r none (some p)) w = ground arith
read_message-format_message (join r (some pair) none) w = ground arith
read_message-format_message (join r (some pair) (some p)) w = ground arith
read_message-format_message (join r (some group) none) w = ground arith
read_message-format_message (join r (some group) (some p)) w = ground arith
read_message-format_message (leave r none) w = ground arith
read_message-format_message (leave r (some p)) w = ground arith
read_message-format_message (offer s none none) w = ground arith
read_message-format_message (offer s none (some q)) w = ground arith
read_message-format_message (offer s (some p) none) w = ground arith
read_message-format_message (offer s (some p) (some q)) w = ground arith
read_message-format_message (answer s none none) w = ground arith
read_message-format_message (answer s none (some q)) w = ground arith
read_message-format_message (answer s (some p) none) w = ground arith
read_message-format_message (answer s (some p) (some q)) w = ground arith
read_message-format_message (ice s none none) w = ground arith
read_message-format_message (ice s none (some q)) w = ground arith
read_message-format_message (ice s (some p) none) w = ground arith
read_message-format_message (ice s (some p) (some q)) w = ground arith

read_peer_id_field-IsPeerField :
    (v : Option Json) (p : Option Str) → read_peer_id_field v ≡ some p → IsPeerField p
unfolding read_peer_id_field
read_peer_id_field-IsPeerField v none h = tt
read_peer_id_field-IsPeerField v (some p) h = ground arith

read_room_id_valid :
    (v : Option Json) (r : Str) → read_room_id v ≡ some r → is_valid_room_id r ≡ true
unfolding read_room_id
read_room_id_valid v r h = ground arith

>>=-eq-some {ℓ κ} :
    {A : Type ℓ} {B : Type κ} (o : Option A) (f : A → Option B) {b : B}
    → (o >>= f) ≡ some b
    → (a : A) × (o ≡ some a) × (f a ≡ some b)
>>=-eq-some none f h = absurd (cc)
>>=-eq-some (some a) f h = (a, refl, h)

keep_if-eq-some {ℓ} :
    {A : Type ℓ} (b : Bool) (x : A) {y : A} → keep_if b x ≡ some y → (b ≡ true) × (x ≡ y)
keep_if-eq-some true x h = (refl, cc)
keep_if-eq-some false x h = absurd (cc)

read_join-IsWire : (v : Json) {m : BrokerMessage} → read_join v ≡ some m → IsWire m
unfolding read_join
read_join-IsWire v h =
    let (r, er, h1) = >>=-eq-some (read_room_id (property (str "roomId") v)) _ h in
    let (mode, _, h2) = >>=-eq-some (read_mode (property (str "mode") v)) _ h1 in
    let (p, ep, h3) = >>=-eq-some (read_peer_id_field (property (str "peerId") v)) _ h2 in
    let (allowed, e) = keep_if-eq-some (mode_allows mode p) (join r mode p) h3 in
    subst IsWire e (read_room_id_valid _ r er, read_peer_id_field-IsPeerField _ p ep, allowed)

read_leave-IsWire : (v : Json) {m : BrokerMessage} → read_leave v ≡ some m → IsWire m
unfolding read_leave
read_leave-IsWire v h =
    let (r, er, h1) = >>=-eq-some (read_room_id (property (str "roomId") v)) _ h in
    let (p, ep, h2) = >>=-eq-some (read_peer_id_field (property (str "peerId") v)) _ h1 in
    subst IsWire (of_some h2) (read_room_id_valid _ r er, read_peer_id_field-IsPeerField _ p ep)

read_relayed-IsWire :
    (kind : Json → Option Str → Option Str → BrokerMessage) (o : Option Json) (v : Json)
    → ((b : Json) (to from : Option Str)
        → IsPeerField to
        → IsPeerField from
        → IsWire (kind b to from))
    → {m : BrokerMessage} → read_relayed kind o v ≡ some m
    → IsWire m
unfolding read_relayed
read_relayed-IsWire kind o v wire h =
    let (b, _, h1) = >>=-eq-some o _ h in
    let (to, et, h2) = >>=-eq-some (read_peer_id_field (property (str "to") v)) _ h1 in
    let (from, ef, h3) = >>=-eq-some (read_peer_id_field (property (str "from") v)) _ h2 in
    subst IsWire (of_some h3) (
      wire b to from (read_peer_id_field-IsPeerField _ to et)
        (read_peer_id_field-IsPeerField _ from ef))

relayed_kinds :
    (tag : Str) (v : Json) {m : BrokerMessage}
    → (if str_beq tag (str "offer")
        then read_relayed offer (property (str "sdp") v) v
        else if str_beq tag (str "answer")
        then read_relayed answer (property (str "sdp") v) v
        else if str_beq tag (str "ice")
        then read_relayed ice (property (str "candidate") v) v
        else none)
      ≡ some m
    → IsWire m
relayed_kinds tag v {m} h = elim (Bool-cases (str_beq tag (str "offer"))) [
  | inl e ↦ read_relayed-IsWire offer _ v (λ b to from t f. (t, f)) (rw e at h)
  | inr n ↦ elim (Bool-cases (str_beq tag (str "answer"))) [
    | inl e ↦ read_relayed-IsWire answer _ v (λ b to from t f. (t, f)) (rw (n, e) at h)
    | inr n' ↦ elim (Bool-cases (str_beq tag (str "ice"))) [
      | inl e ↦ read_relayed-IsWire ice _ v (λ b to from t f. (t, f)) (rw (n, n', e) at h)
      | inr n'' ↦ let e : none ≡ some m = rw (n, n', n'') at h in absurd (cc)
    ]
  ]
]

read_tagged-IsWire :
    (tag : Str) (v : Json) {m : BrokerMessage} → read_tagged tag v ≡ some m → IsWire m
unfolding read_tagged
read_tagged-IsWire tag v h = elim (Bool-cases (str_beq tag (str "join"))) [
  | inl e ↦ read_join-IsWire v (rw e at h)
  | inr n ↦ elim (Bool-cases (str_beq tag (str "leave"))) [
    | inl e ↦ read_leave-IsWire v (rw (n, e) at h)
    | inr n' ↦ relayed_kinds tag v (rw (n, n') at h)
  ]
]

within_limit {ℓ} :
    {A : Type ℓ} (n : ℕ) (o : Option A) {a : A}
    → (if n == 0 || ltb broker_message_max_bytes n then none else o) ≡ some a
    → (1 ≤ n) × (n ≤ broker_message_max_bytes) × (o ≡ some a)
within_limit n o h = ground arith

read_message-IsWire : (v : Json) {m : BrokerMessage} → read_message v ≡ some m → IsWire m
unfolding read_message
read_message-IsWire v h =
    let (tag, _, e) = >>=-eq-some (read_text (property (str "t") v)) _ h in
    read_tagged-IsWire tag v e

-- A text that is accepted has at most 16384 code units, and the message read from it is one of the wire:
-- its ids are well formed, a group join names its peer, an explicit pair join names none.
pub parse_message_sound :
    (raw : RawText) {m : BrokerMessage}
    → parse_message raw ≡ some m
    → (1 ≤ length raw.text) × (length raw.text ≤ broker_message_max_bytes) × IsWire m
unfolding parse_message
parse_message_sound raw h = parsed_sound (length raw.text) raw.parsed h
  where
    parsed_sound :
        (n : ℕ) (parsed : Option Json) {m : BrokerMessage}
        → (if n == 0 || ltb broker_message_max_bytes n then none else parsed >>= read_message)
          ≡ some m
        → (1 ≤ n) × (n ≤ broker_message_max_bytes) × IsWire m
    parsed_sound n none h = absurd (ground arith)
    parsed_sound n (some v) h =
        let (lo, hi, e) = within_limit n (read_message v) h in (lo, hi, read_message-IsWire v e)

written_length : (m : BrokerMessage) → 1 ≤ length (stringify (format_message m))
unfolding format_message stringify
written_length (join room_id mode peer_id) = omega arith
written_length (leave room_id peer_id) = omega arith
written_length (offer sdp to from) = omega arith
written_length (answer sdp to from) = omega arith
written_length (ice candidate to from) = omega arith

at_limit :
    (n : ℕ) (o : Option BrokerMessage)
    → 1 ≤ n
    → (if n == 0 || ltb broker_message_max_bytes n then none else o)
      ≡ (if leb n broker_message_max_bytes then o else none)
at_limit n o l = ground arith

-- A message of the wire is read back from its written text exactly if that has at most 16384 code units, and is
-- refused if it is longer, where `JSON.parse` reads the value of the message back from what `JSON.stringify` wrote.
pub parse_message-format_message :
    (json_parse : Str → Option Json) (m : BrokerMessage)
    → json_parse (stringify (format_message m)) ≡ some (format_message m)
    → IsWire m
    → parse_message (record {
      text = stringify (format_message m);
      parsed = json_parse (stringify (format_message m));
    })
      ≡ (if leb (length (stringify (format_message m))) broker_message_max_bytes
          then some m
          else none)
unfolding parse_message
parse_message-format_message json_parse m law w =
    at_limit (length (stringify (format_message m))) _ (written_length m)
    ∙ ap
        (λ o.
          if leb (length (stringify (format_message m))) broker_message_max_bytes then o else none)
        (ap (λ parsed. parsed >>= read_message) law ∙ read_message-format_message m w)
