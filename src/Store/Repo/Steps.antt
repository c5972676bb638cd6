-- ===== src/Store/Repo/Steps.antt =====
-- store/in-memory-repo.ts: what can happen to a repository. An `appendMessage` or a `reload` that awaits goes on as
-- a step of its own, with anything in between.
use fuck_chat_control.Base.{ℕ, Option, List, [], ◌∷◌, Str}
use fuck_chat_control.Base.Result.{ok, err}
use fuck_chat_control.Base.Json.{Json}
use fuck_chat_control.Store.Types.{Stored}
use fuck_chat_control.Store.Repo.{
  GroupMember, Append, Repository, zeroize_at_rest_key, reset_at_rest_key, create_conversation,
  store_peer_identity, replace_peer_identity, set_display_name, mark_auth_failed,
  clear_conversation, clear_all, end_append,
}
use fuck_chat_control.Store.Repo.Groups.{
  GroupRecord, store_group, update_group_membership, set_group_display_name, remove_group,
}
use fuck_chat_control.Store.Repo.Reload.{
  Reading, SerializedState, Loaded, load_state, begin_reload, end_reload,
}

pub data Operation : Type 0 where
  creating : List ℕ → ℕ → Operation
  pinning replacing : List ℕ → Str → List ℕ → Operation
  naming : List ℕ → Str → Operation
  marking : List ℕ → Json → Operation
  clearing : List ℕ → Operation
  clearing_all zeroizing : Operation
  resetting : List ℕ → Operation
  appending : Append → Operation
  storing_group : GroupRecord → Operation
  updating_group : List ℕ → ℕ → List GroupMember → Operation
  naming_group : List ℕ → Option Str → Operation
  removing_group : List ℕ → Operation
  beginning_reload : SerializedState → Operation
  ending_reload : List ℕ → SerializedState → Operation

-- A throw leaves the repository as it was.
abbrev pub or_same : Repository → Stored Repository → Repository
or_same r (ok changed) = changed
or_same r (err e) = r

abbrev pub cleared_by : Repository → Stored (Repository × Loaded) → Repository
cleared_by r (ok (cleared, next)) = cleared
cleared_by r (err e) = r

-- A reload that goes on has read its state.
abbrev pub filled_by : Repository → List ℕ → Stored Loaded → Repository
filled_by r key (ok next) = end_reload r key next
filled_by r key (err e) = r

module _ (reading : Reading) where
  unfoldable pub apply : Operation → Repository → Repository
  apply (creating id created_at) r = create_conversation r id created_at
  apply (pinning id fingerprint key) r = or_same r (store_peer_identity r id fingerprint key)
  apply (replacing id fingerprint key) r = or_same r (replace_peer_identity r id fingerprint key)
  apply (naming id name) r = or_same r (set_display_name r id name)
  apply (marking id now) r = or_same r (mark_auth_failed r id now)
  apply (clearing id) r = clear_conversation r id
  apply clearing_all r = clear_all r
  apply zeroizing r = zeroize_at_rest_key r
  apply (resetting key) r = reset_at_rest_key r key
  apply (appending a) r = or_same r (end_append r a)
  apply (storing_group g) r = store_group r g
  apply (updating_group id epoch members) r = or_same r (update_group_membership r id epoch members)
  apply (naming_group id name) r = or_same r (set_group_display_name r id name)
  apply (removing_group id) r = remove_group r id
  apply (beginning_reload state) r = cleared_by r (begin_reload reading r state)
  apply (ending_reload key state) r = filled_by r key (load_state reading state)

  abbrev pub run : List Operation → Repository → Repository
  run [] r = r
  run (o ∷ operations) r = run operations (apply o r)
