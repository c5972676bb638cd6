-- ===== src/Store/Repo/Whole.antt =====
-- The conversations, their messages and their ids have the same keys.
use fuck_chat_control.Base.{
  ℕ, ◌≡◌, refl, ap, ◌∙◌, Bool, true, false, Option, none, some, List, [], Bool-cases, inl, inr, Str,
  str_eq,
}
use fuck_chat_control.Base.Map as Map
use fuck_chat_control.Base.Map.{
  Map, Distinct, set-Distinct, delete-Distinct, Aligned, Aligned-set, Aligned-delete,
  Aligned-set_left, Aligned-set_right,
}
use fuck_chat_control.Base.Result.{ok, ◌>>=◌, ◌>>◌, require}
use fuck_chat_control.Base.Json.{Json}
use fuck_chat_control.Store.Types.{StoreErrorCode, StoreFailure, Stored}
use fuck_chat_control.Store.Repo.{
  InternalConversation, InternalMessage, Append, Repository, id_key, or_missing,
  create_conversation, store_peer_identity, replace_peer_identity, set_display_name,
  mark_auth_failed, end_append, fresh_conversation, may_pin,
}
use fuck_chat_control.Store.Repo.Steps.{or_same}

pub record IsWhole (conversations : Map Str InternalConversation) (key_by_id : Map Str (List ℕ))
    (messages : Map Str (List InternalMessage)) : Type 0 where
  pub distinct : Distinct conversations
  pub distinct_ids : Distinct key_by_id
  pub distinct_messages : Distinct messages
  pub ids : Aligned key_by_id conversations
  pub lists : Aligned messages conversations

abbrev pub IsWholeRepository : Repository → Type 0
IsWholeRepository r = IsWhole r.conversations r.key_by_id r.messages

pub empty-IsWhole : IsWhole [] [] []
unfolding Map.has
empty-IsWhole = record {
  distinct = tt;
  distinct_ids = tt;
  distinct_messages = tt;
  ids = λ k. refl;
  lists = λ k. refl;
}

module _ {cs : Map Str InternalConversation} {ks : Map Str (List ℕ)}
    {ms : Map Str (List InternalMessage)} (w : IsWhole cs ks ms) where
  pub set-IsWhole :
      (k : Str) (c : InternalConversation) (id : List ℕ) (l : List InternalMessage)
      → IsWhole (Map.set k c cs) (Map.set k id ks) (Map.set k l ms)
  set-IsWhole k c id l = record {
    distinct = set-Distinct k c cs w.distinct;
    distinct_ids = set-Distinct k id ks w.distinct_ids;
    distinct_messages = set-Distinct k l ms w.distinct_messages;
    ids = Aligned-set k id c ks cs w.ids;
    lists = Aligned-set k l c ms cs w.lists;
  }

  pub delete-IsWhole : (k : Str) → IsWhole (Map.delete k cs) (Map.delete k ks) (Map.delete k ms)
  delete-IsWhole k = record {
    distinct = delete-Distinct k cs w.distinct;
    distinct_ids = delete-Distinct k ks w.distinct_ids;
    distinct_messages = delete-Distinct k ms w.distinct_messages;
    ids = Aligned-delete k ks cs w.distinct_ids w.distinct w.ids;
    lists = Aligned-delete k ms cs w.distinct_messages w.distinct w.lists;
  }

  pub set_list-IsWhole :
      (k : Str) (l : List InternalMessage) → Map.has k cs ≡ true → IsWhole cs ks (Map.set k l ms)
  set_list-IsWhole k l h = record {
    distinct = w.distinct;
    distinct_ids = w.distinct_ids;
    distinct_messages = set-Distinct k l ms w.distinct_messages;
    ids = w.ids;
    lists = Aligned-set_left k l ms cs h w.lists;
  }

  put-IsWhole :
      (k : Str) (c : InternalConversation) → Map.has k cs ≡ true → IsWhole (Map.set k c cs) ks ms
  put-IsWhole k c h = record {
    distinct = set-Distinct k c cs w.distinct;
    distinct_ids = w.distinct_ids;
    distinct_messages = w.distinct_messages;
    ids = Aligned-set_right k c ks cs h w.ids;
    lists = Aligned-set_right k c ms cs h w.lists;
  }

has-found :
    {V : Type 0} (k : Str) (v : V) (m : Map Str V) → Map.get k m ≡ some v → Map.has k m ≡ true
has-found k v m h =
    Map.has-get k m ∙ ap (λ o. elim o as (λ _. Bool) [ none ↦ false | some v ↦ true ]) h

-- An operation that looks a conversation up, and changes the repository if it is there.
looked-IsWhole :
    (r : Repository) (key : Str) (code : StoreErrorCode)
    (change : InternalConversation → Stored Repository) (o : Option InternalConversation)
    → Map.get key r.conversations ≡ o
    → IsWholeRepository r
    → ((c : InternalConversation)
        → Map.has key r.conversations ≡ true
        → IsWholeRepository (or_same r (change c)))
    → IsWholeRepository (or_same r (or_missing code o >>= change))
looked-IsWhole r key code change none e w f = w
looked-IsWhole r key code change (some c) e w f = f c (has-found key c r.conversations e)

-- An operation with a test before it.
required-IsWhole :
    (r s : Repository) (holds : Bool) (code : StoreFailure)
    → IsWholeRepository r
    → (holds ≡ true → IsWholeRepository s)
    → IsWholeRepository (or_same r (require holds code >> ok s))
required-IsWhole r s true code w f = f refl
required-IsWhole r s false code w f = w

module _ (r : Repository) (w : IsWholeRepository r) where
  pub create_conversation-IsWhole :
      (id : List ℕ) (created_at : ℕ) → IsWholeRepository (create_conversation r id created_at)
  unfolding create_conversation
  create_conversation-IsWhole id created_at =
      elim (Bool-cases (Map.has (id_key id) r.conversations)) [
        | inl y ↦ rw y w
        | inr n ↦ rw n (set-IsWhole w (id_key id) (fresh_conversation created_at) id [])
      ]

  pub store_peer_identity-IsWhole :
      (id : List ℕ) (fingerprint : Str) (key : List ℕ)
      → IsWholeRepository (or_same r (store_peer_identity r id fingerprint key))
  unfolding store_peer_identity
  store_peer_identity-IsWhole id fingerprint key =
      looked-IsWhole r (id_key id) _ _ (Map.get (id_key id) r.conversations) refl w
        (λ c h. required-IsWhole r _ (may_pin c.peer key) _ w (λ _. put-IsWhole w (id_key id) _ h))

  pub replace_peer_identity-IsWhole :
      (id : List ℕ) (fingerprint : Str) (key : List ℕ)
      → IsWholeRepository (or_same r (replace_peer_identity r id fingerprint key))
  unfolding replace_peer_identity
  replace_peer_identity-IsWhole id fingerprint key =
      looked-IsWhole r (id_key id) _ _ (Map.get (id_key id) r.conversations) refl w
        (λ c h. put-IsWhole w (id_key id) _ h)

  pub set_display_name-IsWhole :
      (id : List ℕ) (name : Str) → IsWholeRepository (or_same r (set_display_name r id name))
  unfolding set_display_name
  set_display_name-IsWhole id name =
      looked-IsWhole r (id_key id) _ _ (Map.get (id_key id) r.conversations) refl w
        (λ c h. put-IsWhole w (id_key id) _ h)

  pub mark_auth_failed-IsWhole :
      (id : List ℕ) (now : Json) → IsWholeRepository (or_same r (mark_auth_failed r id now))
  unfolding mark_auth_failed
  mark_auth_failed-IsWhole id now =
      looked-IsWhole r (id_key id) _ _ (Map.get (id_key id) r.conversations) refl w
        (λ c h. put-IsWhole w (id_key id) _ h)

  pub end_append-IsWhole : (a : Append) → IsWholeRepository (or_same r (end_append r a))
  unfolding end_append
  end_append-IsWhole a =
      required-IsWhole r _ (Map.has a.key r.conversations) _ w (λ h. set_list-IsWhole w a.key _ h)
