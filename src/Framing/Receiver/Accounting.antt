-- ===== src/Framing/Receiver/Accounting.antt =====
-- The counters of a receiver against its transfers, through each handler.
use fuck_chat_control.Base.{
  ℕ, ◌+◌, ◌-◌, ◌≤◌, ◌≡◌, refl, ◌∙◌, ◌⊎◌, inl, inr, true, false, Option, none, some, List, [], ◌∷◌,
  if◌then◌else◌, ◌==◌, ==_iff, arith, length, Bool-cases, nat_eq,
}
use fuck_chat_control.Base.Map as Map
use fuck_chat_control.Base.Map.{Map}
use fuck_chat_control.Framing.Errors.{malformed, size_exceeded}
use fuck_chat_control.Framing.Receiver.{
  ActiveTransfer, Completion, Receiver, Outcome, quietly, failing, mark_dropped, drop_transfer,
  reassemble, complete_transfer,
}

-- The bytes of the chunks that are there.
abbrev pub chunk_bytes : List (Option (List ℕ)) → ℕ
chunk_bytes [] = 0
chunk_bytes (none ∷ chunks) = chunk_bytes chunks
chunk_bytes (some chunk ∷ chunks) = length chunk + chunk_bytes chunks

pub record IsSound (t : ActiveTransfer) : Type 0 where
  pub live : t.dropped ≡ false
  pub sized : length t.chunks ≡ t.manifest.chunk_count
  pub bounded : t.received_bytes ≤ t.manifest.size
  pub counted : t.received_bytes ≡ chunk_bytes t.chunks

abbrev pub received : ActiveTransfer → ℕ
received t = t.received_bytes

abbrev pub missing : ActiveTransfer → ℕ
missing t = t.manifest.size - t.received_bytes

-- What `completeTransfer` waits with.
abbrev pub IsWaiting : Map ℕ ActiveTransfer → Option Completion → Type 0
IsWaiting transfers none = Unit {0}
IsWaiting transfers (some c) =
    (length c.reassembled ≡ c.transfer.manifest.size)
    × (reassemble c.transfer.chunks ≡ some c.reassembled)
    × ((c.transfer.dropped ≡ true) ⊎ (Map.get c.transfer_id transfers ≡ some c.transfer))

-- The counters are exact, and what is buffered or promised stays within the budget.
pub record IsAccounted (r : Receiver) : Type 0 where
  pub sound : Map.Each IsSound r.transfers
  pub distinct : Map.Distinct r.transfers
  pub buffered : r.total_buffered_bytes ≡ Map.sum received r.transfers
  pub reserved : r.outstanding_declared_bytes ≡ Map.sum missing r.transfers
  pub few : Map.size r.transfers ≤ 4
  pub budget : r.total_buffered_bytes + r.outstanding_declared_bytes ≤ 67108864
  pub waiting : IsWaiting r.transfers r.completing

mark_dropped-IsWaiting :
    (id : ℕ) (m : Map ℕ ActiveTransfer) (c : Option Completion)
    → IsWaiting m c
    → IsWaiting (Map.delete id m) (mark_dropped id c)
mark_dropped-IsWaiting id m none w = tt
mark_dropped-IsWaiting id m (some c) (l, g, w) = elim (Bool-cases (c.transfer_id == id)) [
  | inl same ↦ rw same (l, g, inl refl)
  | inr other ↦ rw other (l, g, kept other w)
]
  where
    swapped : (c.transfer_id == id) ≡ false → (id == c.transfer_id) ≡ false
    swapped o = ground arith

    kept :
        (c.transfer_id == id) ≡ false
        → ((c.transfer.dropped ≡ true) ⊎ (Map.get c.transfer_id m ≡ some c.transfer))
        → (c.transfer.dropped ≡ true) ⊎ (Map.get c.transfer_id (Map.delete id m) ≡ some c.transfer)
    kept o (inl d) = inl d
    kept o (inr g) = inr (Map.get-delete_ne id c.transfer_id m (swapped o) ∙ g)

pub drop_transfer-IsAccounted :
    (r : Receiver) (id : ℕ) (t : ActiveTransfer)
    → IsAccounted r
    → Map.get id r.transfers ≡ some t
    → IsAccounted (drop_transfer r id t)
unfolding drop_transfer
drop_transfer-IsAccounted r id t a g =
    let s = Map.Each-get IsSound id t r.transfers a.sound g in
    let b = Map.sum-delete received id t r.transfers g in
    let m = Map.sum-delete missing id t r.transfers g in
    rw (s.live) (record {
      sound = Map.Each-delete IsSound id r.transfers a.sound;
      distinct = Map.delete-Distinct id r.transfers a.distinct;
      buffered = omega (arith, a.buffered, b);
      reserved = omega (arith, a.reserved, m);
      few = omega (arith, a.few, Map.size-delete-le id r.transfers);
      budget = omega (arith, a.budget);
      waiting = mark_dropped-IsWaiting id r.transfers r.completing a.waiting;
    })

pub with_completing :
    (r : Receiver) (c : Option Completion)
    → IsAccounted r
    → IsWaiting r.transfers c
    → IsAccounted (record r { completing = c })
with_completing r c a w = record {
  sound = a.sound;
  distinct = a.distinct;
  buffered = a.buffered;
  reserved = a.reserved;
  few = a.few;
  budget = a.budget;
  waiting = w;
}

pub complete_transfer-IsAccounted :
    (r : Receiver) (id : ℕ) (t : ActiveTransfer)
    → IsAccounted r
    → Map.get id r.transfers ≡ some t
    → IsAccounted (complete_transfer r id t).receiver
unfolding complete_transfer
complete_transfer-IsAccounted r id t a g = go (reassemble t.chunks) refl
  where
    go :
        (o : Option (List ℕ))
        → reassemble t.chunks ≡ o
        → IsAccounted (
            (elim o as (λ _. Outcome) [
              | none ↦ failing (drop_transfer r id t) malformed
              | some reassembled ↦
                  if length reassembled == t.manifest.size
                  then quietly (record r {
                    completing =
                        some (record { transfer_id = id; transfer = t; reassembled = reassembled });
                  })
                  else failing (drop_transfer r id t) size_exceeded
            ]).receiver)
    go none e = drop_transfer-IsAccounted r id t a g
    go (some whole) e = elim (Bool-cases (length whole == t.manifest.size)) [
      | inl same ↦ rw same (with_completing r _ a ((==_iff _ _).0 same, e, inr g))
      | inr other ↦ rw other (drop_transfer-IsAccounted r id t a g)
    ]
