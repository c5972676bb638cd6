-- ===== src/Store/Repo/Groups.antt =====
-- store/in-memory-repo.ts: the records of groups, kept while the program runs.
use fuck_chat_control.Base.{ℕ, Option, none, some, List, [], ◌∷◌, if◌then◌else◌, Str, str_eq}
use fuck_chat_control.Base.Map as Map
use fuck_chat_control.Base.Result.{ok, ◌>>=◌}
use fuck_chat_control.Store.Types.{group_not_found, Stored}
use fuck_chat_control.Store.Repo.{GroupMember, InternalGroup, Repository, id_key, or_missing}

pub record GroupRecord : Type 0 where
  pub group_id : List ℕ
  pub group : InternalGroup

abbrev pub created_or : Option InternalGroup → ℕ → ℕ
created_or none created_at = created_at
created_or (some existing) created_at = existing.created_at

-- A rejoin keeps the time of creation.
unfoldable pub store_group : Repository → GroupRecord → Repository
store_group r g =
    let key = id_key g.group_id in
    record r {
      groups =
          Map.set key
            (record g.group { created_at = created_or (Map.get key r.groups) g.group.created_at })
            r.groups;
      group_id_by_key =
          if Map.has key r.group_id_by_key
          then r.group_id_by_key
          else Map.set key g.group_id r.group_id_by_key;
    }

-- `members.find((m) => m.isAuthor)`.
abbrev pub find_author : List GroupMember → Option GroupMember
find_author [] = none
find_author (m ∷ members) = let rest = find_author members in if m.is_author then some m else rest

abbrev pub author_or : Option GroupMember → Option (List ℕ) → Option (List ℕ)
author_or none author = author
author_or (some m) author = some m.identity_pub

unfoldable pub update_group_membership :
    Repository → List ℕ → ℕ → List GroupMember → Stored Repository
update_group_membership r id epoch members = do
  g ← or_missing group_not_found (Map.get (id_key id) r.groups)
  ok (record r {
    groups =
        Map.set (id_key id)
          (record g {
            epoch = epoch;
            members = members;
            author_identity_pub = author_or (find_author members) g.author_identity_pub;
          })
          r.groups;
  })

unfoldable pub set_group_display_name : Repository → List ℕ → Option Str → Stored Repository
set_group_display_name r id name = do
  g ← or_missing group_not_found (Map.get (id_key id) r.groups)
  ok (record r { groups = Map.set (id_key id) (record g { display_name = name }) r.groups })

unfoldable pub remove_group : Repository → List ℕ → Repository
remove_group r id = record r {
  groups = Map.delete (id_key id) r.groups;
  group_id_by_key = Map.delete (id_key id) r.group_id_by_key;
}
