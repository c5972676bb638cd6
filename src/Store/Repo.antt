-- ===== src/Store/Repo.antt =====
-- store/in-memory-repo.ts: the maps of the repository and its operations. An operation that awaits nothing is one
-- function; `appendMessage` is two, before and after the encryption. WebCrypto and `TextEncoder` are parameters. The
-- code's types give ids 16 bytes and keys 65, so that the checks of its defensive copies are left out.
pub mod Reload
pub mod Groups
pub mod Steps
pub mod Whole
pub mod Filling
pub mod Runs
pub mod Malformed
pub mod Messages
pub mod Pins
use fuck_chat_control.Base.{
  ℕ, Bool, true, false, not, Option, none, some, List, [], ◌∷◌, ◌++◌, map, if◌then◌else◌, ◌==◌,
  length, replicate, or_default, Str, str_beq, str_eq,
}
use fuck_chat_control.Base.Map as Map
use fuck_chat_control.Base.Map.{Map}
use fuck_chat_control.Base.Result.{Result, ok, err, ◌>>=◌, ◌>>◌, require}
use fuck_chat_control.Base.Json.{Json}
use fuck_chat_control.Protocol.Limits.{conversation_id_bytes, public_key_bytes}
use fuck_chat_control.Store.Types.{
  StoreErrorCode, conversation_not_found, malformed_bundle, not_initialized,
  peer_identity_already_pinned, group_not_found, wrong_passphrase, StoreFailure, store, Stored,
  MessageDirection, message_record_aad,
}
use fuck_chat_control.Store.Encoding.{bytes_to_hex}

pub record PeerIdentityRecord : Type 0 where
  pub fingerprint : Str
  pub public_key : List ℕ

-- A time that a reload took over unchecked may be any value but `null`.
pub record InternalConversation : Type 0 where
  pub created_at : ℕ
  pub display_name : Option Str
  pub peer : Option PeerIdentityRecord
  pub auth_failed : Bool
  pub auth_failed_at : Option Json

pub record InternalMessage : Type 0 where
  pub id : Str
  pub direction : MessageDirection
  pub timestamp : ℕ
  pub nonce : List ℕ
  pub ciphertext : List ℕ

pub record GroupMember : Type 0 where
  pub identity_pub : List ℕ
  pub is_author : Bool
  pub display_name : Str

pub record InternalGroup : Type 0 where
  pub epoch : ℕ
  pub author_identity_pub : Option (List ℕ)
  pub members : List GroupMember
  pub display_name : Option Str
  pub created_at : ℕ

pub record Repository : Type 0 where
  pub conversations : Map Str InternalConversation
  pub messages : Map Str (List InternalMessage)
  pub key_by_id : Map Str (List ℕ)
  pub groups : Map Str InternalGroup
  pub group_id_by_key : Map Str (List ℕ)
  pub at_rest_key : Option (List ℕ)

abbrev pub new_repository : List ℕ → Repository
new_repository key = record {
  conversations = [];
  messages = [];
  key_by_id = [];
  groups = [];
  group_id_by_key = [];
  at_rest_key = some key;
}

-- `idKey` and `groupKey`.
abbrev pub id_key : List ℕ → Str
id_key id = bytes_to_hex id

-- The value that a map must have at a key.
abbrev pub or_missing {ℓ} : {A : Type ℓ} → StoreErrorCode → Option A → Stored A
or_missing code none = err (store code)
or_missing code (some a) = ok a

abbrev pub require_key : Repository → Stored (List ℕ)
require_key r = or_missing not_initialized r.at_rest_key

abbrev pub zeroize_at_rest_key : Repository → Repository
zeroize_at_rest_key r = record r { at_rest_key = none }

abbrev pub reset_at_rest_key : Repository → List ℕ → Repository
reset_at_rest_key r key = record r { at_rest_key = some key }

abbrev pub fresh_conversation : ℕ → InternalConversation
fresh_conversation created_at = record {
  created_at = created_at;
  display_name = none;
  peer = none;
  auth_failed = false;
  auth_failed_at = none;
}

unfoldable pub create_conversation : Repository → List ℕ → ℕ → Repository
create_conversation r id created_at = if Map.has (id_key id) r.conversations then r else record r {
  conversations = Map.set (id_key id) (fresh_conversation created_at) r.conversations;
  key_by_id = Map.set (id_key id) id r.key_by_id;
  messages = Map.set (id_key id) [] r.messages;
}

abbrev pub get_conversation : Repository → List ℕ → Option InternalConversation
get_conversation r id = Map.get (id_key id) r.conversations

-- A write to an entry of `conversations` that is there.
abbrev pub put_conversation : Repository → Str → InternalConversation → Repository
put_conversation r key c = record r { conversations = Map.set key c r.conversations }

abbrev pub peer_record : Str → List ℕ → Option PeerIdentityRecord
peer_record fingerprint public_key =
    some (record { fingerprint = fingerprint; public_key = public_key })

-- A pinned key may be pinned again, not exchanged.
abbrev pub may_pin : Option PeerIdentityRecord → List ℕ → Bool
may_pin none public_key = true
may_pin (some peer) public_key = str_beq peer.public_key public_key

unfoldable pub store_peer_identity : Repository → List ℕ → Str → List ℕ → Stored Repository
store_peer_identity r id fingerprint public_key = do
  c ← or_missing conversation_not_found (get_conversation r id)
  require (may_pin c.peer public_key) (store peer_identity_already_pinned)
  ok (put_conversation r (id_key id) (record c { peer = peer_record fingerprint public_key }))

unfoldable pub replace_peer_identity : Repository → List ℕ → Str → List ℕ → Stored Repository
replace_peer_identity r id fingerprint public_key = do
  c ← or_missing conversation_not_found (get_conversation r id)
  ok (put_conversation r (id_key id) (record c { peer = peer_record fingerprint public_key }))

unfoldable pub get_peer_identity : Repository → List ℕ → Option PeerIdentityRecord
get_peer_identity r id = elim (get_conversation r id) [ none ↦ none | some c ↦ c.peer ]

unfoldable pub set_display_name : Repository → List ℕ → Str → Stored Repository
set_display_name r id name = do
  c ← or_missing conversation_not_found (get_conversation r id)
  ok (put_conversation r (id_key id) (record c { display_name = some name }))

unfoldable pub mark_auth_failed : Repository → List ℕ → Json → Stored Repository
mark_auth_failed r id now = do
  c ← or_missing conversation_not_found (get_conversation r id)
  ok (put_conversation r (id_key id) (record c { auth_failed = true; auth_failed_at = some now }))

unfoldable pub clear_conversation : Repository → List ℕ → Repository
clear_conversation r id = record r {
  conversations = Map.delete (id_key id) r.conversations;
  messages = Map.delete (id_key id) r.messages;
  key_by_id = Map.delete (id_key id) r.key_by_id;
}

unfoldable pub clear_all : Repository → Repository
clear_all r = record r {
  conversations = [];
  messages = [];
  key_by_id = [];
  groups = [];
  group_id_by_key = [];
}

-- `options.id`, or a fresh UUID.
abbrev pub message_id : Option Str → Str → Stored Str
message_id none fresh = ok fresh
message_id (some []) fresh = err (store malformed_bundle)
message_id (some id) fresh = ok id

-- An `appendMessage` whose encryption is awaited.
pub record Append : Type 0 where
  pub key : Str
  pub message : InternalMessage

-- `appendMessage` up to the `await`: `encode_text` is `TextEncoder`, and `seal` gets the key, the nonce, the
-- additional data and the bytes of the text.
unfoldable pub begin_append :
    (Str → List ℕ)
    → (List ℕ → List ℕ → List ℕ → List ℕ → List ℕ)
    → Repository
    → List ℕ
    → Str
    → MessageDirection
    → ℕ
    → Option Str
    → Str
    → List ℕ
    → Stored Append
begin_append encode_text seal r id plaintext direction timestamp explicit fresh nonce = do
  require (Map.has (id_key id) r.conversations) (store conversation_not_found)
  stored ← message_id explicit fresh
  at_rest_key ← require_key r
  let encoded = encode_text plaintext
  ok (record {
    key = id_key id;
    message = record {
      id = stored;
      direction = direction;
      timestamp = timestamp;
      nonce = nonce;
      ciphertext = seal at_rest_key nonce (message_record_aad id direction) encoded;
    };
  })

-- `appendMessage` from the `await` on.
unfoldable pub end_append : Repository → Append → Stored Repository
end_append r a = do
  require (Map.has a.key r.conversations) (store conversation_not_found)
  ok (record r {
    messages =
        Map.set a.key (or_default (Map.get a.key r.messages) [] ++ a.message ∷ []) r.messages;
  })
