-- ===== src/Framing/Receiver/Admission.antt =====
-- `handleManifest` keeps the counters right.
use fuck_chat_control.Base.{
  ℕ, zero, suc, ◌+◌, ◌≤◌, ◌<◌, ◌≡◌, refl, sym, ap, ◌∙◌, inl, inr, false, none, some, ltb, leb,
  leb→gt, ltb→le, ◌==◌, arith, replicate, length-replicate, Bool-cases, nat_eq,
}
use fuck_chat_control.Base.Map as Map
use fuck_chat_control.Base.Map.{Map}
use fuck_chat_control.Framing.Receiver.{
  FileManifest, ActiveTransfer, Receiver, admitted, handle_manifest,
}
use fuck_chat_control.Framing.Receiver.Accounting.{
  IsAccounted, IsSound, chunk_bytes, received, missing, complete_transfer-IsAccounted,
}

chunk_bytes-replicate : (n : ℕ) → chunk_bytes (replicate n none) ≡ 0
chunk_bytes-replicate zero = refl
chunk_bytes-replicate (suc n) = chunk_bytes-replicate n

-- The receiver after a manifest is admitted.
admit : Receiver → ℕ → FileManifest → ℕ → Receiver
admit r id manifest now = record r {
  transfers = Map.set id (admitted manifest now) r.transfers;
  outstanding_declared_bytes = r.outstanding_declared_bytes + manifest.size;
}

admit-IsAccounted :
    (r : Receiver) (id : ℕ) (manifest : FileManifest) (now : ℕ)
    → IsAccounted r
    → r.completing ≡ none
    → Map.get id r.transfers ≡ none
    → Map.size r.transfers < 4
    → r.total_buffered_bytes + r.outstanding_declared_bytes + manifest.size ≤ 67108864
    → IsAccounted (admit r id manifest now)
unfolding admit
admit-IsAccounted r id manifest now a c g f b = record {
  sound = Map.Each-set IsSound id (admitted manifest now) r.transfers a.sound (record {
    live = refl;
    sized = length-replicate manifest.chunk_count none;
    bounded = omega arith;
    counted = sym (chunk_bytes-replicate manifest.chunk_count);
  });
  distinct = Map.set-Distinct id (admitted manifest now) r.transfers a.distinct;
  buffered =
      omega (arith, a.buffered, Map.sum-set_new received id (admitted manifest now) r.transfers g);
  reserved =
      omega (arith, a.reserved, Map.sum-set_new missing id (admitted manifest now) r.transfers g);
  few = omega (arith, sized, f);
  budget = omega (arith, b);
  waiting = rw c tt;
}
  where
    sized : Map.size (Map.set id (admitted manifest now) r.transfers) ≡ suc (Map.size r.transfers)
    sized =
        Map.size-set id (admitted manifest now) r.transfers
        ∙ ap
            (λ o. elim o as (λ _. ℕ) [
              | none ↦ suc (Map.size r.transfers)
              | some w ↦ Map.size r.transfers
            ])
            g

absent : (id : ℕ) (m : Map ℕ ActiveTransfer) → Map.has id m ≡ false → Map.get id m ≡ none
absent id m h = ground (arith, Map.has-get id m)

pub handle_manifest-IsAccounted :
    (r : Receiver) (id : ℕ) (manifest : FileManifest) (now : ℕ)
    → IsAccounted r
    → r.completing ≡ none
    → IsAccounted (handle_manifest r id manifest now).receiver
unfolding handle_manifest admit
handle_manifest-IsAccounted r id manifest now a c = elim (Bool-cases (Map.has id r.transfers)) [
  | inl active ↦ rw active a
  | inr free ↦ elim (Bool-cases (leb 4 (Map.size r.transfers))) [
    | inl full ↦ rw (free, full) a
    | inr room ↦
        elim (Bool-cases
          (ltb 67108864 (r.total_buffered_bytes + r.outstanding_declared_bytes + manifest.size))) [
            | inl over ↦ rw (free, room, over) a
            | inr within ↦
                let b =
                  admit-IsAccounted r id manifest now a c (absent id r.transfers free)
                    (leb→gt _ _ room) (ltb→le _ _ within) in
                elim (Bool-cases (manifest.chunk_count == 0)) [
                  | inl empty ↦
                      rw (free, room, within, empty)
                        (complete_transfer-IsAccounted (admit r id manifest now) id
                          (admitted manifest now) b
                          (Map.get-set_self id (admitted manifest now) r.transfers))
                  | inr chunked ↦ rw (free, room, within, chunked) b
                ]
          ]
  ]
]
