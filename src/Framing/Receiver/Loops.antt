-- ===== src/Framing/Receiver/Loops.antt =====
-- The loops of the sweep and of the teardown keep the counters right.
use fuck_chat_control.Base.{
  ℕ, ◌≡◌, refl, sym, ap, ◌∙◌, subst, inl, inr, Bool, true, false, none, some, [], ◌∷◌,
  if◌then◌else◌, ◌==◌, ==_iff, arith, Bool-cases, nat_eq,
}
use fuck_chat_control.Base.Map as Map
use fuck_chat_control.Base.Map.{Map}
use fuck_chat_control.Framing.Receiver.{
  ActiveTransfer, Receiver, quietly, drop_transfer, drop_each, teardown, is_idle, timeouts,
  sweep_each, sweep_inactive_transfers,
}
use fuck_chat_control.Framing.Receiver.Accounting.{
  IsAccounted, IsSound, IsWaiting, received, missing, drop_transfer-IsAccounted,
}

-- Every entry of `entries` stands in `m` too.
abbrev Within : Map ℕ ActiveTransfer → Map ℕ ActiveTransfer → Type 0
Within entries m =
    (id : ℕ) (t : ActiveTransfer) → Map.get id entries ≡ some t → Map.get id m ≡ some t

Within-head :
    (id : ℕ) (t : ActiveTransfer) (entries m : Map ℕ ActiveTransfer)
    → Within ((id, t) ∷ entries) m
    → Map.get id m ≡ some t
unfolding Map.get
Within-head id t entries m w = w id t (rw ((==_iff id id).1 refl) refl)

other_id :
    (id j : ℕ) (t : ActiveTransfer) (entries : Map ℕ ActiveTransfer)
    → Map.get id entries ≡ none
    → Map.get j entries ≡ some t
    → (id == j) ≡ false
other_id id j t entries n g = elim (Bool-cases (id == j)) [
  | inl same ↦ absurd (clash ((==_iff id j).0 same))
  | inr other ↦ other
]
  where
    clash : id ≡ j → ⊥
    clash e = let h : none ≡ some t = sym n ∙ ap (λ k. Map.get k entries) e ∙ g in absurd (cc)

Within-tail :
    (id : ℕ) (t : ActiveTransfer) (entries m : Map ℕ ActiveTransfer)
    → Map.get id entries ≡ none
    → Within ((id, t) ∷ entries) m
    → Within entries m
unfolding Map.get
Within-tail id t entries m n w j u g = w j u (rw (other_id id j u entries n g) g)

Within-delete :
    (id : ℕ) (entries m : Map ℕ ActiveTransfer)
    → Map.get id entries ≡ none
    → Within entries m
    → Within entries (Map.delete id m)
Within-delete id entries m n w j u g =
    Map.get-delete_ne id j m (other_id id j u entries n g) ∙ w j u g

transfers-drop_transfer :
    (r : Receiver) (id : ℕ) (t : ActiveTransfer)
    → t.dropped ≡ false
    → (drop_transfer r id t).transfers ≡ Map.delete id r.transfers
unfolding drop_transfer
transfers-drop_transfer r id t d = rw d refl

-- A step of a loop over the transfers.
module _ (r : Receiver) (id : ℕ) (t : ActiveTransfer) (entries : Map ℕ ActiveTransfer) where
  after_drop :
      IsAccounted r
      → Map.Distinct ((id, t) ∷ entries)
      → Within ((id, t) ∷ entries) r.transfers
      → IsAccounted (drop_transfer r id t) × Within entries (drop_transfer r id t).transfers
  after_drop a (n, d) w =
      let g = Within-head id t entries r.transfers w in
      let s = Map.Each-get IsSound id t r.transfers a.sound g in
      (
        drop_transfer-IsAccounted r id t a g,
        subst (Within entries) (sym (transfers-drop_transfer r id t s.live))
            (Within-delete id entries r.transfers n (Within-tail id t entries r.transfers n w)),
      )

sweep_each-IsAccounted :
    (timeout now : ℕ) (r : Receiver) (entries : Map ℕ ActiveTransfer)
    → IsAccounted r
    → Map.Distinct entries
    → Within entries r.transfers
    → IsAccounted (sweep_each timeout now r entries)
sweep_each-IsAccounted timeout now r [] a d w = a
sweep_each-IsAccounted timeout now r ((id, t) ∷ entries) a d w =
    let (a', w') = after_drop r id t entries a d w in
    let keep =
      sweep_each-IsAccounted timeout now r entries a d.1
        (Within-tail id t entries r.transfers d.0 w) in
    let dropped = sweep_each-IsAccounted timeout now (drop_transfer r id t) entries a' d.1 w' in
    go (is_idle timeout now t) keep dropped
  where
    go :
        (b : Bool)
        → IsAccounted (sweep_each timeout now r entries)
        → IsAccounted (sweep_each timeout now (drop_transfer r id t) entries)
        → IsAccounted (sweep_each timeout now (if b then drop_transfer r id t else r) entries)
    go true keep dropped = dropped
    go false keep dropped = keep

pub sweep_inactive_transfers-IsAccounted :
    (timeout now : ℕ) (r : Receiver)
    → IsAccounted r
    → IsAccounted (sweep_inactive_transfers timeout now r).receiver
unfolding sweep_inactive_transfers
sweep_inactive_transfers-IsAccounted timeout now r a = go r.torn_down
  where
    swept : IsAccounted (sweep_each timeout now r r.transfers)
    swept = sweep_each-IsAccounted timeout now r r.transfers a a.distinct (λ j u g. g)

    go :
        (b : Bool)
        → IsAccounted
            (if b then quietly r else record {
              receiver = sweep_each timeout now r r.transfers;
              events = timeouts timeout now r.transfers;
              thrown = none;
            }).receiver
    go true = a
    go false = swept

drop_each-empty :
    (r : Receiver) (entries : Map ℕ ActiveTransfer)
    → IsAccounted r
    → Map.Distinct entries
    → Within entries r.transfers
    → Map.size entries ≡ Map.size r.transfers
    → IsAccounted (drop_each r entries) × ((drop_each r entries).transfers ≡ [])
drop_each-empty r [] a d w s = (a, empty r.transfers (sym s))
  where
    empty : (m : Map ℕ ActiveTransfer) → Map.size m ≡ 0 → m ≡ []
    empty [] h = refl
    empty (p ∷ m) h = absurd (omega arith)
drop_each-empty r ((id, t) ∷ entries) a d w s =
    let (a', w') = after_drop r id t entries a d w in
    let g = Within-head id t entries r.transfers w in
    let live = Map.Each-get IsSound id t r.transfers a.sound g in
    let e : Map.size (drop_transfer r id t).transfers ≡ Map.size (Map.delete id r.transfers) =
      ap Map.size (transfers-drop_transfer r id t live.live) in
    drop_each-empty (drop_transfer r id t) entries a' d.1 w'
      (omega (arith, e, s, Map.size-delete id t r.transfers g))

cleared :
    (r : Receiver)
    → IsAccounted r
    → r.transfers ≡ []
    → IsAccounted (record r { transfers = [] })
      × (◌≡◌ {A = Map ℕ ActiveTransfer} [] [])
      × (r.total_buffered_bytes ≡ 0)
      × (r.outstanding_declared_bytes ≡ 0)
cleared r a e =
    let total = a.buffered ∙ ap (Map.sum received) e in
    let promised = a.reserved ∙ ap (Map.sum missing) e in
    (
      record {
        sound = tt;
        distinct = tt;
        buffered = total;
        reserved = promised;
        few = omega arith;
        budget = a.budget;
        waiting = subst (λ m. IsWaiting m r.completing) e a.waiting;
      },
      refl,
      total,
      promised,
    )

-- A receiver that is torn down has no transfers left and no bytes counted.
pub teardown-IsAccounted :
    (r : Receiver)
    → IsAccounted r
    → IsAccounted (teardown r)
      × ((teardown r).transfers ≡ [])
      × ((teardown r).total_buffered_bytes ≡ 0)
      × ((teardown r).outstanding_declared_bytes ≡ 0)
unfolding teardown
teardown-IsAccounted r a =
    let (b, e) = drop_each-empty closed r.transfers (closing a) a.distinct (λ j u g. g) refl in
    cleared (drop_each closed r.transfers) b e
  where
    closed : Receiver
    closed = record r { torn_down = true }

    closing : IsAccounted r → IsAccounted closed
    closing a = record {
      sound = a.sound;
      distinct = a.distinct;
      buffered = a.buffered;
      reserved = a.reserved;
      few = a.few;
      budget = a.budget;
      waiting = a.waiting;
    }
