-- ===== src/Store/Repo/Pins.antt =====
-- A pinned key stays: trust on first use.
use fuck_chat_control.Base.{
  ℕ, ◌≡◌, refl, sym, ap, ◌∙◌, subst, Bool, true, false, Option, none, some, List, [], ◌∷◌,
  Bool-cases, inl, inr, Str, str_beq, str_beq_iff, str_eq, of_some,
}
use fuck_chat_control.Base.Map as Map
use fuck_chat_control.Base.Result.{ok, ◌>>=◌, ◌>>◌, require}
use fuck_chat_control.Store.Types.{StoreErrorCode, StoreFailure, Stored}
use fuck_chat_control.Store.Repo.{
  PeerIdentityRecord, InternalConversation, Repository, id_key, or_missing, put_conversation,
  fresh_conversation, create_conversation, store_peer_identity, set_display_name, mark_auth_failed,
  end_append, may_pin, peer_record,
}
use fuck_chat_control.Store.Repo.Groups.{
  store_group, update_group_membership, set_group_display_name, remove_group,
}
use fuck_chat_control.Store.Repo.Reload.{Reading}
use fuck_chat_control.Store.Repo.Steps.{
  Operation, creating, pinning, replacing, naming, marking, clearing, clearing_all, zeroizing,
  resetting, appending, storing_group, updating_group, naming_group, removing_group,
  beginning_reload, ending_reload, or_same, apply, run,
}

-- The operations that may take a pinned key away: the trusted import, clearing, and reloading.
abbrev pub is_trusted : Operation → Bool
is_trusted (replacing id fingerprint key) = true
is_trusted (clearing id) = true
is_trusted clearing_all = true
is_trusted (beginning_reload state) = true
is_trusted (ending_reload key state) = true
is_trusted o = false

abbrev pub NoneTrusted : List Operation → Type 0
NoneTrusted [] = Unit {0}
NoneTrusted (o ∷ os) = (is_trusted o ≡ false) × NoneTrusted os

abbrev pub Pinned : Option InternalConversation → List ℕ → Type 0
Pinned none key = ⊥
Pinned (some c) key = (peer : PeerIdentityRecord) × (c.peer ≡ some peer) × (peer.public_key ≡ key)

-- The conversation at `k` has `key` pinned.
abbrev pub HasPinned : Repository → Str → List ℕ → Type 0
HasPinned r k key = Pinned (Map.get k r.conversations) key

module _ (k : Str) (key : List ℕ) where
  -- A write of a conversation that keeps what is pinned.
  put-HasPinned :
      (r : Repository) (j : Str) (c d : InternalConversation)
      → Map.get j r.conversations ≡ some c
      → (Pinned (some c) key → Pinned (some d) key)
      → HasPinned r k key
      → HasPinned (put_conversation r j d) k key
  put-HasPinned r j c d e f h = elim (Bool-cases (str_beq j k)) [
    | inl y ↦
        subst (λ o. Pinned o key) (sym (Map.get-set j k d r.conversations))
          (rw y (
            f (
              subst (λ o. Pinned o key)
                (sym (ap (λ i. Map.get i r.conversations) ((str_beq_iff j k).0 y)) ∙ e) h)))
    | inr n ↦ subst (λ o. Pinned o key) (sym (Map.get-set_ne j k d r.conversations n)) h
  ]

  looked-HasPinned :
      (r : Repository) (j : Str) (code : StoreErrorCode) (o : Option InternalConversation)
      (change : InternalConversation → Stored Repository)
      → Map.get j r.conversations ≡ o
      → ((c : InternalConversation)
          → Map.get j r.conversations ≡ some c
          → HasPinned (or_same r (change c)) k key)
      → HasPinned r k key
      → HasPinned (or_same r (or_missing code o >>= change)) k key
  looked-HasPinned r j code none change e f h = h
  looked-HasPinned r j code (some c) change e f h = f c e

  required-HasPinned :
      (r s : Repository) (holds : Bool) (code : StoreFailure)
      → (holds ≡ true → HasPinned s k key)
      → HasPinned r k key
      → HasPinned (or_same r (require holds code >> ok s)) k key
  required-HasPinned r s true code f h = f refl
  required-HasPinned r s false code f h = h

  -- Where a key is pinned, only the same key may be pinned.
  same_key :
      (peer : Option PeerIdentityRecord) (fingerprint : Str) (other : List ℕ)
      (c : InternalConversation)
      → c.peer ≡ peer
      → may_pin peer other ≡ true
      → Pinned (some c) key
      → Pinned (some (record c { peer = peer_record fingerprint other })) key
  same_key none fingerprint other c e m (p, q, s) = absurd (cc)
  same_key (some held) fingerprint other c e m (p, q, s) = (
    record { fingerprint = fingerprint; public_key = other },
    refl,
    sym ((str_beq_iff held.public_key other).0 m)
        ∙ ap (λ o. o.public_key) (of_some (sym e ∙ q))
        ∙ s,
  )

  looked_group-HasPinned :
      {A : Type 0} (r : Repository) (code : StoreErrorCode) (o : Option A) (change : A → Repository)
      → ((a : A) → HasPinned (change a) k key)
      → HasPinned r k key
      → HasPinned (or_same r (or_missing code o >>= λ a. ok (change a))) k key
  looked_group-HasPinned r code none change f h = h
  looked_group-HasPinned r code (some a) change f h = f a

  HasPinned-has : (r : Repository) → HasPinned r k key → Map.has k r.conversations ≡ true
  HasPinned-has r h = Map.has-get k r.conversations ∙ found (Map.get k r.conversations) h
    where
      found :
          (o : Option InternalConversation)
          → Pinned o key
          → (elim o as (λ _. Bool) [ none ↦ false | some v ↦ true ]) ≡ true
      found none p = absurd p
      found (some c) p = refl

  create-HasPinned :
      (r : Repository) (id : List ℕ) (created_at : ℕ)
      → HasPinned r k key
      → HasPinned (create_conversation r id created_at) k key
  unfolding create_conversation
  create-HasPinned r id created_at h = elim (Bool-cases (Map.has (id_key id) r.conversations)) [
    | inl y ↦ rw y h
    | inr n ↦ rw n (elim (Bool-cases (str_beq (id_key id) k)) [
      | inl same ↦ absurd (
          clash n (
            sym (ap (λ j. Map.has j r.conversations) {x = k} (sym ((str_beq_iff _ _).0 same)))
            ∙ HasPinned-has r h))
      | inr other ↦
          subst (λ o. Pinned o key)
            (sym
              (Map.get-set_ne (id_key id) k (fresh_conversation created_at) r.conversations other))
            h
    ])
  ]
    where
      clash : {b : Bool} → b ≡ false → b ≡ true → ⊥
      clash e f = absurd (cc)

  apply-HasPinned :
      (reading : Reading) (o : Operation) (r : Repository)
      → is_trusted o ≡ false
      → HasPinned r k key
      → HasPinned (apply reading o r) k key
  unfolding apply store_peer_identity set_display_name mark_auth_failed end_append store_group
      update_group_membership set_group_display_name remove_group
  apply-HasPinned reading (creating id created_at) r t h = create-HasPinned r id created_at h
  apply-HasPinned reading (pinning id fingerprint other) r t h =
      looked-HasPinned r (id_key id) _ _ _ refl
        (λ c e.
          required-HasPinned r _ (may_pin c.peer other) _
            (λ m. put-HasPinned r (id_key id) c _ e (same_key c.peer fingerprint other c refl m) h)
            h)
        h
  apply-HasPinned reading (replacing id fingerprint other) r t h = absurd (cc)
  apply-HasPinned reading (naming id name) r t h =
      looked-HasPinned r (id_key id) _ _ _ refl
        (λ c e. put-HasPinned r (id_key id) c _ e (λ p. p) h) h
  apply-HasPinned reading (marking id now) r t h =
      looked-HasPinned r (id_key id) _ _ _ refl
        (λ c e. put-HasPinned r (id_key id) c _ e (λ p. p) h) h
  apply-HasPinned reading (clearing id) r t h = absurd (cc)
  apply-HasPinned reading clearing_all r t h = absurd (cc)
  apply-HasPinned reading zeroizing r t h = h
  apply-HasPinned reading (resetting other) r t h = h
  apply-HasPinned reading (appending a) r t h =
      required-HasPinned r _ (Map.has a.key r.conversations) _ (λ _. h) h
  apply-HasPinned reading (storing_group g) r t h = h
  apply-HasPinned reading (updating_group id epoch members) r t h =
      looked_group-HasPinned r _ _ _ (λ g. h) h
  apply-HasPinned reading (naming_group id name) r t h = looked_group-HasPinned r _ _ _ (λ g. h) h
  apply-HasPinned reading (removing_group id) r t h = h
  apply-HasPinned reading (beginning_reload state) r t h = absurd (cc)
  apply-HasPinned reading (ending_reload other state) r t h = absurd (cc)

-- Once a conversation has a key pinned, it keeps that key through whatever is called, but for the replacement of
-- the trusted import, a clearing and a reload.
pub run-HasPinned :
    (reading : Reading) (k : Str) (key : List ℕ) (os : List Operation) (r : Repository)
    → NoneTrusted os
    → HasPinned r k key
    → HasPinned (run reading os r) k key
run-HasPinned reading k key [] r t h = h
run-HasPinned reading k key (o ∷ os) r (t, ts) h =
    run-HasPinned reading k key os (apply reading o r) ts (apply-HasPinned k key reading o r t h)
