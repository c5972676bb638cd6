-- ===== src/Framing/Sender/Tests.antt =====
-- A sender on concrete inputs.
use fuck_chat_control.Base.{
  ℕ, ◌≤◌, ◌^◌, ◌≡◌, ◌≢◌, refl, true, false, none, some, List, [], ◌∷◌, ◌++◌, length, replicate,
}
use fuck_chat_control.Base.Map as Map
use fuck_chat_control.Protocol.Types.{FrameType}
use fuck_chat_control.Base.Result.{ok}
use fuck_chat_control.Protocol.Bytes.{are_bytes-Bytes}
use fuck_chat_control.Protocol.Nonce.{derive_nonce}
use fuck_chat_control.Crypto.Aead.{Cipher}
use fuck_chat_control.Framing.Sender.{
  Sender, Event, new_sender, begin_file_transfer, allocate_transfer_id, assert_not_cancelled,
  next_sequence,
}
use fuck_chat_control.Framing.Sender.Calls.{Config, send_text, send_encrypted_frame}
use fuck_chat_control.Framing.Sender.Steps.{Reaches, done, then_step, text, begin, teardown}
use fuck_chat_control.Framing.Sender.Sequence.{Encryption, encryptions}
use fuck_chat_control.Framing.Sender.Nonces.{
  sequences, count_up, reaches-Counts, reaches-Silent, reaches-NonceOnce,
}
use fuck_chat_control.Framing.Sender.Reservations.{HasReserved, reaches-HasReserved}

-- A stand-in for the cipher, which seals with the length of the key in front.
abbrev cipher : Cipher
cipher = record {
  seal = λ key nonce aad plaintext. length key ∷ plaintext;
  unseal = λ key nonce aad sealed. elim sealed [ [] ↦ none | ◌∷◌ x rest ↦ some rest ];
}

abbrev config : Config
config = record {
  cipher = cipher;
  sha256 = λ xs. replicate 32 (length xs);
  encode_text = λ s. s;
  local_session_id = replicate 32 7;
  group_link = false;
}

abbrev key : List ℕ
key = replicate 32 1

abbrev hello : List ℕ
hello = 104 ∷ 105 ∷ []

abbrev after_one : Sender
after_one = (send_text config (new_sender key) hello).sender

abbrev after_two : Sender
after_two = (send_text config after_one hello).sender

abbrev events_of_two : List Event
events_of_two =
    (send_text config (new_sender key) hello).events
    ++ ((send_text config after_one hello).events ++ [])

two_texts : Reaches config (new_sender key) events_of_two after_two
two_texts =
    then_step (text (new_sender key) hello) (then_step (text after_one hello) (done after_two))

reaches-Counts_example :
    (sequences (encryptions events_of_two) ≡ count_up 0 after_two.sequence)
    × (after_two.sequence ≤ 2 ^ 32)
reaches-Counts_example = reaches-Counts config key two_texts

abbrev encryption : ℕ → Encryption
encryption sequence = (
  key,
  record {
    protocol_version = 1;
    sender_session_id = replicate 32 7;
    sender_sequence = sequence;
    frame_type = FrameType.text;
    transfer_id = 0;
    chunk_id = 0;
  },
)

two_texts-encryptions : encryptions events_of_two ≡ encryption 0 ∷ encryption 1 ∷ []
unfolding send_text send_encrypted_frame assert_not_cancelled Map.has next_sequence
two_texts-encryptions = refl

nonce-is_derived : derive_nonce (replicate 32 7) 0 ≡ ok (replicate 12 7)
unfolding derive_nonce
nonce-is_derived = refl

reaches-NonceOnce_example : derive_nonce (replicate 32 7) 1 ≢ ok (replicate 12 7)
reaches-NonceOnce_example =
    reaches-NonceOnce config key (are_bytes-Bytes (replicate 32 7) refl) two_texts [] (encryption 0)
      [] (encryption 1) [] two_texts-encryptions (replicate 12 7) nonce-is_derived

abbrev torn : Sender
torn = teardown config (new_sender key)

torn-text :
    Reaches config torn
      ((send_text config torn hello).events ++ [])
      (send_text config torn hello).sender
torn-text = then_step (text torn hello) (done _)

torn_down : torn.tearing_down ≡ true
unfolding teardown
torn_down = refl

reaches-Silent_example :
    (encryptions ((send_text config torn hello).events ++ []) ≡ [])
    × ((send_text config torn hello).sender.tearing_down ≡ true)
reaches-Silent_example = reaches-Silent config torn_down torn-text

abbrev reserved : Sender
reserved = record (new_sender key) {
  next_transfer_id = 1000001;
  active_transfers = (1000000, tt) ∷ [];
}

abbrev reserved_twice : Sender
reserved_twice = record (new_sender key) {
  next_transfer_id = 1000002;
  active_transfers = (1000000, tt) ∷ (1000001, tt) ∷ [];
}

reserves : begin_file_transfer (new_sender key) ≡ ok (1000000, reserved)
unfolding begin_file_transfer allocate_transfer_id Map.set
reserves = refl

reserves_again : begin_file_transfer reserved ≡ ok (1000001, reserved_twice)
unfolding begin_file_transfer allocate_transfer_id Map.set
reserves_again = refl

reaches-HasReserved_example : HasReserved reserved
reaches-HasReserved_example =
    reaches-HasReserved config key
      (then_step (begin (new_sender key) reserved 1000000 reserves) (done reserved))
