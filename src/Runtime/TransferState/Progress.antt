-- ===== src/Runtime/TransferState/Progress.antt =====
-- Runs of the transfer list.
use fuck_chat_control.Base.{
  ℕ, ◌≤◌, ◌≡◌, refl, sym, ap, ◌∙◌, subst, inl, inr, Bool, true, false, Option, none, some, List, [],
  ◌∷◌, ◌++◌, if◌then◌else◌, ◌==◌, arith, Bool-cases,
}
use fuck_chat_control.Runtime.TransferState.{
  TransferState, TransferEvent, started, progressed, completed, aborted, failed, is_terminal,
  updated, update_first, find, event_id, started_transfer, apply_transfer_event,
}

abbrev pub run : List TransferState → List TransferEvent → List TransferState
run state [] = state
run state (event ∷ events) = run (apply_transfer_event state event) events

-- Ids stand once, and no transfer has more bytes than its size.
abbrev pub IsConsistent : List TransferState → Type 0
IsConsistent [] = Unit {0}
IsConsistent (t ∷ state) =
    (find t.id state ≡ none) × (t.bytes_transferred ≤ t.size) × IsConsistent state

updated-keeps :
    (t : TransferState) (e : TransferEvent)
    → ((updated t e).id ≡ t.id) × ((updated t e).size ≡ t.size)
updated-keeps t (started _ _ _ _ _ _) = (refl, refl)
updated-keeps t (progressed _ _) = (refl, refl)
updated-keeps t (completed _) = (refl, refl)
updated-keeps t (aborted _) = (refl, refl)
updated-keeps t (failed _ _) = (refl, refl)

updated-bounded :
    (t : TransferState) (e : TransferEvent)
    → t.bytes_transferred ≤ t.size
    → (updated t e).bytes_transferred ≤ (updated t e).size
updated-bounded t (started _ _ _ _ _ _) h = h
updated-bounded t (progressed _ bytes) h = ground arith
updated-bounded t (completed _) h = omega arith
updated-bounded t (aborted _) h = h
updated-bounded t (failed _ _) h = h

find-append :
    (id : ℕ) (state : List TransferState) (new : TransferState)
    → find id (state ++ new ∷ []) ≡ (elim (find id state) as (λ _. Option TransferState) [
      | some t ↦ some t
      | none ↦ if new.id == id then some new else none
    ])
find-append id [] new = refl
find-append id (t ∷ state) new = ground (arith, find-append id state new)

-- What an entry becomes with an event for its id.
abbrev settled : TransferState → TransferEvent → TransferState
settled t e = if is_terminal t.status then t else updated t e

settled-keeps :
    (t : TransferState) (e : TransferEvent)
    → ((settled t e).id ≡ t.id) × ((settled t e).size ≡ t.size)
settled-keeps t e = elim (Bool-cases (is_terminal t.status)) [
  | inl final ↦ rw final (refl, refl)
  | inr active ↦ rw active (updated-keeps t e)
]

settled-bounded :
    (t : TransferState) (e : TransferEvent)
    → t.bytes_transferred ≤ t.size
    → (settled t e).bytes_transferred ≤ (settled t e).size
settled-bounded t e h = elim (Bool-cases (is_terminal t.status)) [
  | inl final ↦ rw final h
  | inr active ↦ rw active (updated-bounded t e h)
]

find-update_first :
    (id : ℕ) (state : List TransferState) (e : TransferEvent)
    → find id (update_first state e) ≡ (elim (find id state) as (λ _. Option TransferState) [
      | none ↦ none
      | some t ↦ some (if id == event_id e then settled t e else t)
    ])
find-update_first id [] e = refl
find-update_first id (t ∷ state) e = ground (arith, find-update_first id state e, settled-keeps t e)

update_first-terminal :
    (id : ℕ) (t : TransferState) (state : List TransferState) (e : TransferEvent)
    → find id state ≡ some t
    → is_terminal t.status ≡ true
    → find id (update_first state e) ≡ some t
update_first-terminal id t state e f h =
    find-update_first id state e ∙ rw f (ap some (final (id == event_id e)))
  where
    final : (b : Bool) → (if b then settled t e else t) ≡ t
    final true = rw h refl
    final false = refl

apply-terminal :
    (id : ℕ) (t : TransferState) (state : List TransferState) (e : TransferEvent)
    → find id state ≡ some t
    → is_terminal t.status ≡ true
    → find id (apply_transfer_event state e) ≡ some t
unfolding apply_transfer_event
apply-terminal id t state (started new name mime size direction queue) f h = go (find new state)
  where
    go :
        (o : Option TransferState)
        → find id (elim o as (λ _. List TransferState) [
          | some u ↦ state
          | none ↦ state ++ started_transfer new name mime size direction queue ∷ []
        ])
          ≡ some t
    go (some u) = f
    go none = find-append id state (started_transfer new name mime size direction queue) ∙ rw f refl
apply-terminal id t state (progressed i b) f h =
    update_first-terminal id t state (progressed i b) f h
apply-terminal id t state (completed i) f h = update_first-terminal id t state (completed i) f h
apply-terminal id t state (aborted i) f h = update_first-terminal id t state (aborted i) f h
apply-terminal id t state (failed i s) f h = update_first-terminal id t state (failed i s) f h

-- A transfer that is complete, cancelled or in error keeps its entry as it is through any later events, also those
-- for its own id.
pub find-run_terminal :
    (id : ℕ) (t : TransferState) (state : List TransferState) (events : List TransferEvent)
    → find id state ≡ some t
    → is_terminal t.status ≡ true
    → find id (run state events) ≡ some t
find-run_terminal id t state [] f h = f
find-run_terminal id t state (e ∷ events) f h =
    find-run_terminal id t (apply_transfer_event state e) events (apply-terminal id t state e f h) h

update_first-IsConsistent :
    (state : List TransferState) (e : TransferEvent)
    → IsConsistent state
    → IsConsistent (update_first state e)
update_first-IsConsistent [] e c = tt
update_first-IsConsistent (t ∷ state) e (n, b, c) = elim (Bool-cases (t.id == event_id e)) [
  | inl same ↦
      rw same
        (subst (λ i. find i state ≡ none) (sym (settled-keeps t e).0) n, settled-bounded t e b, c)
  | inr other ↦
      rw other (find-update_first t.id state e ∙ rw n refl, b, update_first-IsConsistent state e c)
]

append-IsConsistent :
    (state : List TransferState) (new : TransferState)
    → find new.id state ≡ none
    → new.bytes_transferred ≤ new.size
    → IsConsistent state
    → IsConsistent (state ++ new ∷ [])
append-IsConsistent [] new n b c = (refl, b, tt)
append-IsConsistent (t ∷ state) new n b (m, d, c) = elim (Bool-cases (t.id == new.id)) [
  | inl same ↦ absurd (clash same)
  | inr other ↦ (
    find-append t.id state new ∙ rw m (ground arith),
    d,
    append-IsConsistent state new (rest other) b c,
  )
]
  where
    look : (b : Bool) → (t.id == new.id) ≡ b → (if b then some t else find new.id state) ≡ none
    look b e = ap (λ b. if b then some t else find new.id state) (sym e) ∙ n

    clash : (t.id == new.id) ≡ true → ⊥
    clash e = let h : some t ≡ none = look true e in absurd (cc)

    rest : (t.id == new.id) ≡ false → find new.id state ≡ none
    rest e = look false e

apply-IsConsistent :
    (state : List TransferState) (e : TransferEvent)
    → IsConsistent state
    → IsConsistent (apply_transfer_event state e)
unfolding apply_transfer_event
apply-IsConsistent state (started new name mime size direction queue) c = go (find new state) refl
  where
    go :
        (o : Option TransferState)
        → find new state ≡ o
        → IsConsistent (elim o as (λ _. List TransferState) [
          | some u ↦ state
          | none ↦ state ++ started_transfer new name mime size direction queue ∷ []
        ])
    go (some u) e = c
    go none e =
        append-IsConsistent state (started_transfer new name mime size direction queue) e
          (omega arith) c
apply-IsConsistent state (progressed i b) c = update_first-IsConsistent state (progressed i b) c
apply-IsConsistent state (completed i) c = update_first-IsConsistent state (completed i) c
apply-IsConsistent state (aborted i) c = update_first-IsConsistent state (aborted i) c
apply-IsConsistent state (failed i s) c = update_first-IsConsistent state (failed i s) c

run-IsConsistent_from :
    (state : List TransferState) (events : List TransferEvent)
    → IsConsistent state
    → IsConsistent (run state events)
run-IsConsistent_from state [] c = c
run-IsConsistent_from state (e ∷ events) c =
    run-IsConsistent_from (apply_transfer_event state e) events (apply-IsConsistent state e c)

-- Whatever events come in whatever order, each id stands once in the list, and no transfer has more bytes than
-- its size.
pub run-IsConsistent : (events : List TransferEvent) → IsConsistent (run [] events)
run-IsConsistent events = run-IsConsistent_from [] events tt
