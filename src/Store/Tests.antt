-- ===== src/Store/Tests.antt =====
-- A repository on concrete inputs.
use fuck_chat_control.Base.{
  zero, suc, ℕ, ◌≡◌, refl, true, none, some, Option, List, [], ◌∷◌, ◌++◌, length, replicate, str,
  str_eq, str_beq, str_beq_iff, take, drop, sym, ap, Str, ◌∙◌, if◌then◌else◌, Bool-cases, inl, inr,
}
use fuck_chat_control.Base.Map as Map
use fuck_chat_control.Base.Result.{ok, err}
use fuck_chat_control.Base.Json.{num, text, arr, obj, Items, nil, cons, field, end, property, find}
use fuck_chat_control.Protocol.Bytes.{are_bytes-Bytes, take-append, drop-append}
use fuck_chat_control.Store.Types.{type_error, sent, message_record_aad, MessageDirection}
use fuck_chat_control.Store.Encoding.{bytes_to_hex, hex_to_bytes, hex_to_bytes-bytes_to_hex}
use fuck_chat_control.Store.Base64.{bytes_to_base64, base64_to_bytes}
use fuck_chat_control.Store.Repo.{
  Repository, new_repository, create_conversation, store_peer_identity, begin_append, Append,
  id_key, require_key,
}
use fuck_chat_control.Store.Repo.Reload.{
  Reading, SerializedState, prints, decode_conversation_id_hex, load_conversation, load_state,
}
use fuck_chat_control.Store.Repo.Steps.{Operation, creating, pinning, naming, apply, run}
use fuck_chat_control.Store.Repo.Whole.{IsWholeRepository}
use fuck_chat_control.Store.Repo.Runs.{run-IsWhole}
use fuck_chat_control.Store.Repo.Pins.{HasPinned, run-HasPinned}
use fuck_chat_control.Store.Repo.Messages.{decrypt_message, decrypt_message-begin_append}

abbrev id : List ℕ
id = replicate 16 171

abbrev reading : Reading
reading = record { is_valid_public_key = λ k. true; number = λ s. some (length s) }

hex-is_written : bytes_to_hex (0 ∷ 171 ∷ []) ≡ str "00ab"
unfolding bytes_to_hex
hex-is_written = refl

hex-is_read : hex_to_bytes (bytes_to_hex id) ≡ some id
hex-is_read = hex_to_bytes-bytes_to_hex id (are_bytes-Bytes id refl)

base64-is_written : bytes_to_base64 (77 ∷ 97 ∷ 110 ∷ 77 ∷ []) ≡ str "TWFuTQ=="
unfolding bytes_to_base64
base64-is_written = refl

base64-is_read : base64_to_bytes (str "TWFu TQ==") none ≡ some (77 ∷ 97 ∷ 110 ∷ 77 ∷ [])
unfolding base64_to_bytes
base64-is_read = refl

base64-is_limited : base64_to_bytes (str "TWFuTQ==") (some 3) ≡ none
unfolding base64_to_bytes
base64-is_limited = refl

abbrev key : List ℕ
key = replicate 32 1

abbrev contact_key : List ℕ
contact_key = 4 ∷ replicate 64 2

abbrev other_key : List ℕ
other_key = 4 ∷ replicate 64 3

abbrev operations : List Operation
operations = creating id 5 ∷ pinning id (str "aa") contact_key ∷ []

run-IsWhole_example : IsWholeRepository (run reading operations (new_repository key))
run-IsWhole_example = run-IsWhole reading key operations

abbrev pinned : Repository
pinned = run reading operations (new_repository key)

is_pinned : HasPinned pinned (id_key id) contact_key
unfolding apply create_conversation store_peer_identity Map.has Map.set Map.get bytes_to_hex str_beq
is_pinned = (record { fingerprint = str "aa"; public_key = contact_key }, refl, refl)

-- A second key is refused, and the first stays.
run-HasPinned_example :
    HasPinned
      (run reading (pinning id (str "bb") other_key ∷ naming id (str "x") ∷ []) pinned)
      (id_key id)
      contact_key
run-HasPinned_example =
    run-HasPinned reading (id_key id) contact_key
      (pinning id (str "bb") other_key ∷ naming id (str "x") ∷ []) pinned (refl, (refl, tt))
      is_pinned

-- An id that no template can hold.
abbrev odd_id : SerializedState
odd_id = record {
  conversations =
      obj (field (str "id") (obj (field (str "toString") (num (str "1")) end)) end) ∷ [];
  messages = [];
}

odd_id-is_refused : load_state reading odd_id ≡ err type_error
unfolding load_state load_conversation decode_conversation_id_hex property find prints str_beq
odd_id-is_refused = refl

-- An array of the characters of an id is read as the id.
abbrev hex_items : ℕ → Items
hex_items zero = nil
hex_items (suc n) = cons (text (97 ∷ [])) (cons (text (98 ∷ 120 ∷ [])) (hex_items n))

array_id-is_read : decode_conversation_id_hex (some (arr (hex_items 16))) ≡ ok id
unfolding decode_conversation_id_hex hex_to_bytes
array_id-is_read = refl

-- A stand-in for the cipher, which seals with the additional data in front and opens with the same only.
abbrev seal : List ℕ → List ℕ → List ℕ → List ℕ → List ℕ
seal k n b p = length b ∷ b ++ p

abbrev unseal : List ℕ → List ℕ → List ℕ → List ℕ → Option (List ℕ)
unseal k n c [] = none
unseal k n c (x ∷ sealed) = if str_beq (take x sealed) c then some (drop x sealed) else none

seal-opens : (k n b p : List ℕ) → unseal k n b (seal k n b p) ≡ some p
seal-opens k n b p =
    rw (take-append b p (length b) refl, (str_beq_iff b b).1 refl, drop-append b p (length b) refl)
      refl

seal-binds : (k n b c p q : List ℕ) → unseal k n c (seal k n b p) ≡ some q → c ≡ b
seal-binds k n b c p q h = elim (Bool-cases (str_beq (take (length b) (b ++ p)) c)) [
  | inl y ↦ sym ((str_beq_iff _ c).0 y) ∙ take-append b p (length b) refl
  | inr other ↦
      absurd
        (nothing (sym (ap (λ t. if t then some (drop (length b) (b ++ p)) else none) other) ∙ h))
]
  where
    nothing : ◌≡◌ {A = Option (List ℕ)} none (some q) → ⊥
    nothing e = absurd (cc)

abbrev hello : List ℕ
hello = 104 ∷ 105 ∷ []

abbrev kept : Repository
kept = create_conversation (new_repository key) id 5

abbrev appended : Append
appended = record {
  key = id_key id;
  message = record {
    id = str "m1";
    direction = sent;
    timestamp = 9;
    nonce = replicate 12 3;
    ciphertext = seal key (replicate 12 3) (message_record_aad id sent) hello;
  };
}

is_sealed :
    begin_append (λ t. t) seal kept id hello sent 9 (some (str "m1")) (str "") (replicate 12 3)
    ≡ ok appended
unfolding begin_append create_conversation Map.has Map.set bytes_to_hex str_beq
is_sealed = refl

has_key : require_key kept ≡ ok key
unfolding create_conversation Map.has
has_key = refl

decrypt_message-begin_append_example :
    (decrypt_message unseal (λ b. b) key id appended.message ≡ ok hello)
    × ((other : List ℕ) (e : MessageDirection) (found : Str)
        → length other ≡ 16
        → decrypt_message unseal (λ b. b) key other (record appended.message { direction = e })
          ≡ ok found
        → (other ≡ id) × (e ≡ sent))
decrypt_message-begin_append_example =
    decrypt_message-begin_append (λ t. t) (λ b. b) seal unseal kept id hello sent 9
      (some (str "m1")) (str "") (replicate 12 3) key appended seal-opens seal-binds refl refl refl
      is_sealed has_key
