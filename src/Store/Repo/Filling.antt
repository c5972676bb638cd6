-- ===== src/Store/Repo/Filling.antt =====
-- A state that is reloaded is whole, and so is a repository that is filled with it.
use fuck_chat_control.Base.{ℕ, ◌≡◌, refl, subst, not, ◌||◌, List, [], ◌∷◌, arith, Str, str, str_eq}
use fuck_chat_control.Base.Map as Map
use fuck_chat_control.Base.Map.{Map, Distinct, set-Distinct, Aligned}
use fuck_chat_control.Base.Result.{ok, >>=-eq-ok, require-eq-ok, of_ok}
use fuck_chat_control.Base.Json.{Json, property}
use fuck_chat_control.Store.Repo.{Repository, id_key}
use fuck_chat_control.Store.Repo.Reload.{
  Reading, Loaded, SerializedState, nothing_loaded, is_object, require_or_malformed,
  decode_conversation_id_hex, finite_number, string_or_null, peer_or_null, array_of,
  deserialize_messages, load_conversation, load_conversations, load_group, load_groups, load_state,
  end_reload, set_each,
}
use fuck_chat_control.Store.Repo.Whole.{
  IsWhole, IsWholeRepository, empty-IsWhole, set-IsWhole, set_list-IsWhole,
}

abbrev pub IsWholeLoaded : Loaded → Type 0
IsWholeLoaded next = IsWhole next.conversations next.key_by_id next.messages

module _ (reading : Reading) where
  load_conversation-IsWhole :
      (next : Loaded) (convo : Json) (more : Loaded)
      → IsWholeLoaded next
      → load_conversation reading next convo ≡ ok more
      → IsWholeLoaded more
  unfolding load_conversation
  load_conversation-IsWhole next convo more w h =
      let (_, _, h1) = >>=-eq-ok (require_or_malformed (is_object convo)) _ h in
      let (id, _, h2) = >>=-eq-ok (decode_conversation_id_hex (property (str "id") convo)) _ h1 in
      let (_, _, h3) =
        >>=-eq-ok (require_or_malformed (not (Map.has (id_key id) next.conversations))) _ h2 in
      let (_, _, h4) = >>=-eq-ok (finite_number reading (property (str "createdAt") convo)) _ h3 in
      let (_, _, h5) = >>=-eq-ok (string_or_null (property (str "displayName") convo)) _ h4 in
      let (_, _, h6) = >>=-eq-ok (peer_or_null reading (property (str "peer") convo)) _ h5 in
      subst IsWholeLoaded (of_ok h6) (set-IsWhole w (id_key id) _ id [])

  load_conversations-IsWhole :
      (convos : List Json) (next more : Loaded)
      → IsWholeLoaded next
      → load_conversations reading next convos ≡ ok more
      → IsWholeLoaded more
  load_conversations-IsWhole [] next more w h = subst IsWholeLoaded (of_ok h) w
  load_conversations-IsWhole (convo ∷ convos) next more w h =
      let (mid, first, later) = >>=-eq-ok (load_conversation reading next convo) _ h in
      load_conversations-IsWhole convos mid more (load_conversation-IsWhole next convo mid w first)
        later

  load_group-IsWhole :
      (next more : Loaded × Map Str (Unit {0})) (group : Json)
      → IsWholeLoaded next.0
      → load_group reading next group ≡ ok more
      → IsWholeLoaded more.0
  unfolding load_group
  load_group-IsWhole (next, seen) more group w h =
      let (items, _, h1) = >>=-eq-ok (array_of reading (property (str "messages") group)) _ h in
      let (id, _, h2) =
        >>=-eq-ok (decode_conversation_id_hex (property (str "conversationId") group)) _ h1 in
      let (_, known, h3) =
        >>=-eq-ok (require_or_malformed (Map.has (id_key id) next.conversations)) _ h2 in
      let (_, _, h4) = >>=-eq-ok (require_or_malformed (not (Map.has (id_key id) seen))) _ h3 in
      let (list, _, h5) = >>=-eq-ok (deserialize_messages reading items) _ h4 in
      subst (λ more. IsWholeLoaded more.0) (of_ok h5)
        (set_list-IsWhole w (id_key id) list (require-eq-ok _ _ known))

  load_groups-IsWhole :
      (groups : List Json) (next : Loaded × Map Str (Unit {0})) (more : Loaded)
      → IsWholeLoaded next.0
      → load_groups reading next groups ≡ ok more
      → IsWholeLoaded more
  load_groups-IsWhole [] next more w h = subst IsWholeLoaded (of_ok h) w
  load_groups-IsWhole (group ∷ groups) next more w h =
      let (mid, first, later) = >>=-eq-ok (load_group reading next group) _ h in
      load_groups-IsWhole groups mid more (load_group-IsWhole next mid group w first) later

  pub load_state-IsWhole :
      (state : SerializedState) (next : Loaded)
      → load_state reading state ≡ ok next
      → IsWholeLoaded next
  unfolding load_state
  load_state-IsWhole state next h =
      let (mid, first, later) =
        >>=-eq-ok (load_conversations reading nothing_loaded state.conversations) _ h in
      load_groups-IsWhole state.messages (mid, []) next
        (load_conversations-IsWhole state.conversations nothing_loaded mid empty-IsWhole first)
        later

set_each-Distinct : {V : Type 0} (next m : Map Str V) → Distinct m → Distinct (set_each next m)
set_each-Distinct [] m d = d
set_each-Distinct ((k, v) ∷ next) m d =
    set_each-Distinct next (Map.set k v m) (set-Distinct k v m d)

has-set_each :
    {V : Type 0} (next m : Map Str V) (j : Str)
    → Map.has j (set_each next m) ≡ (Map.has j next || Map.has j m)
unfolding Map.has
has-set_each [] m j = refl
has-set_each ((k, v) ∷ next) m j =
    ground (arith, has-set_each next (Map.set k v m) j, Map.has-set k j v m)

set_each-Aligned :
    {V W : Type 0} (a m : Map Str V) (b n : Map Str W)
    → Aligned a b
    → Aligned m n
    → Aligned (set_each a m) (set_each b n)
set_each-Aligned a m b n h k j = ground (arith, has-set_each a m j, has-set_each b n j, h j, k j)

pub end_reload-IsWhole :
    (r : Repository) (key : List ℕ) (next : Loaded)
    → IsWholeRepository r
    → IsWholeLoaded next
    → IsWholeRepository (end_reload r key next)
unfolding end_reload
end_reload-IsWhole r key next w n = record {
  distinct = set_each-Distinct next.conversations r.conversations w.distinct;
  distinct_ids = set_each-Distinct next.key_by_id r.key_by_id w.distinct_ids;
  distinct_messages = set_each-Distinct next.messages r.messages w.distinct_messages;
  ids = set_each-Aligned next.key_by_id r.key_by_id next.conversations r.conversations n.ids w.ids;
  lists =
      set_each-Aligned next.messages r.messages next.conversations r.conversations n.lists w.lists;
}
