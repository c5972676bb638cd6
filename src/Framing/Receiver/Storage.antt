-- ===== src/Framing/Receiver/Storage.antt =====
-- `handleChunk` keeps the counters right.
use fuck_chat_control.Base.{
  ℕ, zero, suc, ◌+◌, ◌-◌, ◌≤◌, ◌<◌, ◌≡◌, ap, ◌∙◌, inl, inr, false, Option, none, some, List, [],
  ◌∷◌, if◌then◌else◌, ltb, leb, leb→gt, ltb→le, ◌==◌, arith, length, get_or, set, length-set,
  Bool-cases, Option-cases, nat_eq,
}
use fuck_chat_control.Base.Map as Map
use fuck_chat_control.Base.Map.{Map}
use fuck_chat_control.Framing.Chunks.{chunk_length}
use fuck_chat_control.Framing.Receiver.{
  ActiveTransfer, Receiver, quietly, complete_transfer, is_received, with_chunk, store_chunk,
  handle_chunk,
}
use fuck_chat_control.Framing.Receiver.Accounting.{
  IsAccounted, IsSound, chunk_bytes, received, missing, complete_transfer-IsAccounted,
}

chunk_bytes-set :
    (chunks : List (Option (List ℕ))) (i : ℕ) (chunk : List ℕ)
    → i < length chunks
    → is_received (get_or chunks i none) ≡ false
    → chunk_bytes (set chunks i (some chunk)) ≡ chunk_bytes chunks + length chunk
chunk_bytes-set [] i chunk l f = absurd (omega arith)
chunk_bytes-set (none ∷ chunks) zero chunk l f = omega arith
chunk_bytes-set (some old ∷ chunks) zero chunk l f = absurd (cc)
chunk_bytes-set (none ∷ chunks) (suc i) chunk l f = chunk_bytes-set chunks i chunk (omega arith) f
chunk_bytes-set (some old ∷ chunks) (suc i) chunk l f =
    omega (arith, chunk_bytes-set chunks i chunk (omega arith) f)

-- The receiver after a chunk is stored.
store : Receiver → ℕ → ActiveTransfer → ℕ → List ℕ → ℕ → Receiver
store r id t chunk_id plaintext now = record r {
  transfers = Map.set id (with_chunk t chunk_id plaintext now) r.transfers;
  total_buffered_bytes = r.total_buffered_bytes + length plaintext;
  outstanding_declared_bytes = r.outstanding_declared_bytes - length plaintext;
}

store-IsAccounted :
    (r : Receiver) (id : ℕ) (t : ActiveTransfer) (chunk_id : ℕ) (plaintext : List ℕ) (now : ℕ)
    → IsAccounted r
    → r.completing ≡ none
    → Map.get id r.transfers ≡ some t
    → chunk_id < t.manifest.chunk_count
    → is_received (get_or t.chunks chunk_id none) ≡ false
    → t.received_bytes + length plaintext ≤ t.manifest.size
    → IsAccounted (store r id t chunk_id plaintext now)
unfolding store
store-IsAccounted r id t chunk_id plaintext now a c g i f b =
    let t' = with_chunk t chunk_id plaintext now in
    let s = Map.Each-get IsSound id t r.transfers a.sound g in
    let buffered = Map.sum-set received id t' t r.transfers g in
    let reserved = Map.sum-set missing id t' t r.transfers g in
    let promised = Map.sum-delete missing id t r.transfers g in
    record {
      sound = Map.Each-set IsSound id t' r.transfers a.sound (record {
        live = s.live;
        sized = length-set t.chunks chunk_id (some plaintext) ∙ s.sized;
        bounded = b;
        counted = omega (
          arith,
          s.counted,
          chunk_bytes-set t.chunks chunk_id plaintext (omega (arith, s.sized)) f,
        );
      });
      distinct = Map.set-Distinct id t' r.transfers a.distinct;
      buffered = omega (arith, a.buffered, buffered);
      reserved = omega (arith, a.reserved, reserved, promised, b);
      few = omega (arith, a.few, sized t');
      budget = omega (arith, a.budget, a.reserved, promised, b);
      waiting = rw c tt;
    }
  where
    sized : (t' : ActiveTransfer) → Map.size (Map.set id t' r.transfers) ≡ Map.size r.transfers
    sized t' =
        Map.size-set id t' r.transfers
        ∙ ap
            (λ o. elim o as (λ _. ℕ) [
              | none ↦ suc (Map.size r.transfers)
              | some w ↦ Map.size r.transfers
            ])
            g

store_chunk-IsAccounted :
    (r : Receiver) (id : ℕ) (t : ActiveTransfer) (chunk_id : ℕ) (plaintext : List ℕ) (now : ℕ)
    → IsAccounted r
    → r.completing ≡ none
    → Map.get id r.transfers ≡ some t
    → IsAccounted (store_chunk r id t chunk_id plaintext now).receiver
unfolding store
store_chunk-IsAccounted r id t chunk_id plaintext now a c g =
    elim (Bool-cases (leb t.manifest.chunk_count chunk_id)) [
      | inl out ↦ rw out a
      | inr inside ↦ elim (Bool-cases (length plaintext == chunk_length t.manifest.size chunk_id)) [
        | inr wrong ↦ rw (inside, wrong) a
        | inl right ↦ elim (Bool-cases (is_received (get_or t.chunks chunk_id none))) [
          | inl again ↦ rw (inside, right, again) a
          | inr first ↦
              elim (Bool-cases (ltb t.manifest.size (t.received_bytes + length plaintext))) [
                | inl over ↦ rw (inside, right, first, over) a
                | inr fits ↦
                    rw (inside, right, first, fits)
                      (elim (Bool-cases
                        (ltb 67108864 (r.total_buffered_bytes + length plaintext))) [
                          | inl full ↦ rw full a
                          | inr room ↦ rw room (stored (leb→gt _ _ inside) first (ltb→le _ _ fits))
                        ])
              ]
        ]
      ]
    ]
  where
    stored :
        chunk_id < t.manifest.chunk_count
        → is_received (get_or t.chunks chunk_id none) ≡ false
        → t.received_bytes + length plaintext ≤ t.manifest.size
        → IsAccounted
            (if t.received_count + 1 == t.manifest.chunk_count
              then complete_transfer
                  (store r id t chunk_id plaintext now)
                  id
                  (with_chunk t chunk_id plaintext now)
              else quietly (store r id t chunk_id plaintext now)).receiver
    stored i f b =
        let s = store-IsAccounted r id t chunk_id plaintext now a c g i f b in
        elim (Bool-cases (t.received_count + 1 == t.manifest.chunk_count)) [
          | inl last ↦ rw last (
              complete_transfer-IsAccounted (store r id t chunk_id plaintext now) id
                (with_chunk t chunk_id plaintext now) s
                (Map.get-set_self id (with_chunk t chunk_id plaintext now) r.transfers))
          | inr more ↦ rw more s
        ]

pub handle_chunk-IsAccounted :
    (r : Receiver) (id chunk_id : ℕ) (plaintext : List ℕ) (now : ℕ)
    → IsAccounted r
    → r.completing ≡ none
    → IsAccounted (handle_chunk r id chunk_id plaintext now).receiver
unfolding handle_chunk
handle_chunk-IsAccounted r id chunk_id plaintext now a c =
    elim (Option-cases (Map.get id r.transfers)) [
      | inl g ↦ rw (handle_chunk, g) a
      | inr (t, g) ↦
          rw (handle_chunk, g) (store_chunk-IsAccounted r id t chunk_id plaintext now a c g)
    ]
