-- ===== src/Store/Repo/Runs.antt =====
-- Runs of a repository.
use fuck_chat_control.Base.{◌≡◌, refl, List, [], ◌∷◌, ℕ, Option, none, some, str_eq}
use fuck_chat_control.Base.Result.{ok, err, ◌>>=◌}
use fuck_chat_control.Store.Types.{Stored}
use fuck_chat_control.Store.Repo.{
  Repository, new_repository, clear_conversation, clear_all, or_missing,
}
use fuck_chat_control.Store.Types.{StoreErrorCode}
use fuck_chat_control.Store.Repo.Groups.{
  store_group, update_group_membership, set_group_display_name, remove_group,
}
use fuck_chat_control.Store.Repo.Reload.{Reading, Loaded, SerializedState, load_state, begin_reload}
use fuck_chat_control.Store.Repo.Steps.{
  Operation, creating, pinning, replacing, naming, marking, clearing, clearing_all, zeroizing,
  resetting, appending, storing_group, updating_group, naming_group, removing_group,
  beginning_reload, ending_reload, or_same, cleared_by, filled_by, apply, run,
}
use fuck_chat_control.Store.Repo.Whole.{
  IsWholeRepository, empty-IsWhole, delete-IsWhole, create_conversation-IsWhole,
  store_peer_identity-IsWhole, replace_peer_identity-IsWhole, set_display_name-IsWhole,
  mark_auth_failed-IsWhole, end_append-IsWhole,
}
use fuck_chat_control.Store.Repo.Filling.{load_state-IsWhole, end_reload-IsWhole}

-- An operation on a group that is looked up leaves the conversations.
looked_group-IsWhole :
    {A : Type 0} (r : Repository) (code : StoreErrorCode) (o : Option A) (change : A → Repository)
    → ((a : A) → IsWholeRepository (change a))
    → IsWholeRepository r
    → IsWholeRepository (or_same r (or_missing code o >>= λ a. ok (change a)))
looked_group-IsWhole r code none change f w = w
looked_group-IsWhole r code (some a) change f w = f a

module _ (reading : Reading) where
  begin_reload-IsWhole :
      (r : Repository) (o : Stored Loaded)
      → IsWholeRepository r
      → IsWholeRepository (cleared_by r (o >>= λ next. ok (clear_all r, next)))
  unfolding clear_all
  begin_reload-IsWhole r (ok next) w = empty-IsWhole
  begin_reload-IsWhole r (err e) w = w

  end_reload-IsWhole_of :
      (r : Repository) (key : List ℕ) (state : SerializedState) (o : Stored Loaded)
      → load_state reading state ≡ o
      → IsWholeRepository r
      → IsWholeRepository (filled_by r key o)
  end_reload-IsWhole_of r key state (ok next) e w =
      end_reload-IsWhole r key next w (load_state-IsWhole reading state next e)
  end_reload-IsWhole_of r key state (err code) e w = w

  apply-IsWhole :
      (o : Operation) (r : Repository) → IsWholeRepository r → IsWholeRepository (apply reading o r)
  unfolding apply clear_conversation clear_all store_group update_group_membership
      set_group_display_name remove_group begin_reload
  apply-IsWhole (creating id created_at) r w = create_conversation-IsWhole r w id created_at
  apply-IsWhole (pinning id fingerprint key) r w =
      store_peer_identity-IsWhole r w id fingerprint key
  apply-IsWhole (replacing id fingerprint key) r w =
      replace_peer_identity-IsWhole r w id fingerprint key
  apply-IsWhole (naming id name) r w = set_display_name-IsWhole r w id name
  apply-IsWhole (marking id now) r w = mark_auth_failed-IsWhole r w id now
  apply-IsWhole (clearing id) r w = delete-IsWhole w _
  apply-IsWhole clearing_all r w = empty-IsWhole
  apply-IsWhole zeroizing r w = w
  apply-IsWhole (resetting key) r w = w
  apply-IsWhole (appending a) r w = end_append-IsWhole r w a
  apply-IsWhole (storing_group g) r w = w
  apply-IsWhole (updating_group id epoch members) r w = looked_group-IsWhole r _ _ _ (λ g. w) w
  apply-IsWhole (naming_group id name) r w = looked_group-IsWhole r _ _ _ (λ g. w) w
  apply-IsWhole (removing_group id) r w = w
  apply-IsWhole (beginning_reload state) r w = begin_reload-IsWhole r (load_state reading state) w
  apply-IsWhole (ending_reload key state) r w =
      end_reload-IsWhole_of r key state (load_state reading state) refl w

  run-IsWhole_from :
      (os : List Operation) (r : Repository)
      → IsWholeRepository r
      → IsWholeRepository (run reading os r)
  run-IsWhole_from [] r w = w
  run-IsWhole_from (o ∷ os) r w = run-IsWhole_from os (apply reading o r) (apply-IsWhole o r w)

  -- Whatever is called on a new repository in whatever order, with appends and reloads that are interrupted by other
  -- calls, its conversations, their lists of messages and their ids have the same keys, each once: no
  -- message is left without its conversation.
  pub run-IsWhole :
      (key : List ℕ) (os : List Operation) → IsWholeRepository (run reading os (new_repository key))
  run-IsWhole key os = run-IsWhole_from os (new_repository key) empty-IsWhole
