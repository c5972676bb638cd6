-- ===== src/Framing/Receiver/Endings.antt =====
-- `completeTransfer` after its digest, and cancelling keep the counters right.
use fuck_chat_control.Base.{
  ℕ, ◌≡◌, refl, sym, subst, inl, inr, Bool, true, false, ◌||◌, not, Option, none, some, List,
  if◌then◌else◌, Bool-cases, nat_eq, str_beq,
}
use fuck_chat_control.Base.Map as Map
use fuck_chat_control.Base.Map.{Map}
use fuck_chat_control.Framing.Receiver.{
  ActiveTransfer, Completion, Receiver, drop_transfer, resume, cancel_transfer,
}
use fuck_chat_control.Framing.Receiver.Accounting.{
  IsAccounted, IsWaiting, drop_transfer-IsAccounted, with_completing,
}

pub cancel_transfer-IsAccounted :
    (r : Receiver) (id : ℕ) → IsAccounted r → IsAccounted (cancel_transfer r id).0
unfolding cancel_transfer
cancel_transfer-IsAccounted r id a = go r.torn_down (Map.get id r.transfers) refl
  where
    go :
        (b : Bool) (o : Option ActiveTransfer)
        → Map.get id r.transfers ≡ o
        → IsAccounted
            (if b then (r, false) else (elim o as (λ _. Receiver × Bool) [
              | none ↦ (r, false)
              | some t ↦ (drop_transfer r id t, true)
            ])).0
    go true o g = a
    go false none g = a
    go false (some t) g = drop_transfer-IsAccounted r id t a g

-- Dropping a transfer again does nothing.
drop_transfer_again :
    (r : Receiver) (id : ℕ) (t : ActiveTransfer) → t.dropped ≡ true → drop_transfer r id t ≡ r
unfolding drop_transfer
drop_transfer_again r id t d = rw d refl

module _ (sha256 : List ℕ → List ℕ) where
  pub resume-IsAccounted :
      (r : Receiver) (c : Completion)
      → IsAccounted r
      → r.completing ≡ some c
      → IsAccounted (resume sha256 r c).receiver
  unfolding resume
  resume-IsAccounted r c a e =
      let s = record r { completing = none } in
      let d : IsAccounted (drop_transfer s c.transfer_id c.transfer) =
        settled (subst (IsWaiting r.transfers) e a.waiting) in
      elim (Bool-cases (str_beq (sha256 c.reassembled) c.transfer.manifest.content_hash)) [
        | inr bad ↦ rw bad d
        | inl good ↦ elim (Bool-cases (r.torn_down || not (Map.has c.transfer_id r.transfers))) [
          | inl gone ↦ rw (good, gone) d
          | inr here ↦ rw (good, here) d
        ]
      ]
    where
      settled :
          IsWaiting r.transfers (some c)
          → IsAccounted (drop_transfer (record r { completing = none }) c.transfer_id c.transfer)
      settled (_, _, inl d) =
          subst IsAccounted
            (sym (drop_transfer_again (record r { completing = none }) c.transfer_id c.transfer d))
            (with_completing r none a tt)
      settled (_, _, inr g) =
          drop_transfer-IsAccounted (record r { completing = none }) c.transfer_id c.transfer
            (with_completing r none a tt) g
