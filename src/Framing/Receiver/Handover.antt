-- ===== src/Framing/Receiver/Handover.antt =====
-- From the chunks of a file to its completion, and to the callback.
use fuck_chat_control.Base.{
  ℕ, suc, ◌+◌, ◌≤◌, ◌<◌, ◌≡◌, refl, sym, ap, ap2, ◌∙◌, subst, Bool, true, false, not, ◌||◌, none,
  some, List, [], ◌∷◌, ◌++◌, arith, if◌then◌else◌, ◌==◌, ==_iff, str_beq_iff, length, length-append,
  nat_eq,
}
use fuck_chat_control.Base.Map as Map
use fuck_chat_control.Protocol.Bytes.{append_nil, append_assoc}
use fuck_chat_control.Framing.Chunks.Whole.{concat}
use fuck_chat_control.Framing.Receiver.{
  FileManifest, ActiveTransfer, Receiver, quietly, complete_transfer, resume, file_complete,
  drop_transfer,
}
use fuck_chat_control.Framing.Receiver.Delivery.{
  after_chunks, Fit, reassemble-slots, concat-snoc, length-snoc, ap3, half, holding, taken, Room,
  handle_chunk-takes,
}

-- The tests of `resume`, all passed.
passes :
    {A : Type 0} (same torn held : Bool) (x y z : A)
    → same ≡ true
    → torn ≡ false
    → held ≡ true
    → (if not same then x else if torn || not held then y else z) ≡ z
passes same torn held x y z p q t = rw (p, q, t) refl

module _ (m : FileManifest) (r : Receiver) where
  -- All chunks are there, and the digest is awaited.
  abbrev pub complete : List (List ℕ) → ℕ → Receiver
  complete held now = record (holding m r held 0 now) {
    completing = some (record {
      transfer_id = m.transfer_id;
      transfer = half m r held 0 now;
      reassembled = concat held;
    });
  }

  pub complete_transfer-complete :
      (held : List (List ℕ)) (now : ℕ)
      → length (concat held) ≡ m.size
      → complete_transfer (holding m r held 0 now) m.transfer_id (half m r held 0 now)
        ≡ quietly (complete held now)
  unfolding complete_transfer
  complete_transfer-complete held now h =
      rw (complete_transfer, reassemble-slots held, (==_iff _ _).1 h) refl

  taken-last :
      (held : List (List ℕ)) (c : List ℕ) (now : ℕ)
      → length held ≡ m.chunk_count
      → length (concat held) ≡ m.size
      → taken m r (half m r held 0 now) now c (holding m r held 0 now) ≡ quietly (complete held now)
  taken-last held c now n h = rw ((==_iff _ _).1 n) (complete_transfer-complete held now h)

  taken-next :
      (held : List (List ℕ)) (c : List ℕ) (left now : ℕ)
      → length held + suc left ≡ m.chunk_count
      → taken m r (half m r held (suc left) now) now c (holding m r held (suc left) now)
        ≡ quietly (holding m r held (suc left) now)
  taken-next held c left now n = rw (differ (length held) m.chunk_count (omega (arith, n))) refl
    where
      differ : (a b : ℕ) → a < b → (a == b) ≡ false
      differ a b h = ground arith

  pub record Coming (file : List ℕ) (held cs : List (List ℕ)) : Type 0 where
    pub whole : concat held ++ concat cs ≡ file
    pub size : m.size ≡ length file
    pub count : length held + length cs ≡ m.chunk_count
    pub fit : Fit m.size (length held) cs
    pub budget : r.total_buffered_bytes + r.outstanding_declared_bytes + m.size ≤ 67108864

  next-Coming :
      (file : List ℕ) (held : List (List ℕ)) (c : List ℕ) (cs : List (List ℕ))
      → Coming file held (c ∷ cs)
      → Coming file (held ++ c ∷ []) cs
  next-Coming file held c cs k = record {
    whole =
        ap (λ l. l ++ concat cs) (concat-snoc held c)
        ∙ append_assoc (concat held) c (concat cs)
        ∙ k.whole;
    size = k.size;
    count = omega (arith, length-snoc held c, k.count);
    fit = subst (λ n. Fit m.size n cs) (sym (length-snoc held c)) k.fit.1;
    budget = k.budget;
  }

  Coming-Room :
      (file : List ℕ) (held : List (List ℕ)) (c : List ℕ) (cs : List (List ℕ))
      → Coming file held (c ∷ cs)
      → Room m r held c (length cs)
  Coming-Room file held c cs k = record {
    counted = k.count;
    sized = k.fit.0;
    inside = omega (
      arith,
      sym (length-append (concat held) (c ++ concat cs)) ∙ ap length k.whole,
      length-append c (concat cs),
      k.size,
    );
    budget = k.budget;
  }

  pub after_chunks-complete :
      (clock : ℕ → ℕ) (file : List ℕ) (held : List (List ℕ)) (c : List ℕ) (cs : List (List ℕ))
      (before : ℕ)
      → Coming file held (c ∷ cs)
      → (now : ℕ) × (all : List (List ℕ)) × (concat all ≡ file)
        × (after_chunks clock
              (holding m r held (suc (length cs)) before)
              m.transfer_id
              (length held)
              (c ∷ cs)
            ≡ complete all now)
  after_chunks-complete clock file held c [] before k =
      let now = clock (length held) in
      let all = held ++ c ∷ [] in
      let next = next-Coming file held c [] k in
      let whole = sym (append_nil (concat all)) ∙ next.whole in
      (
        now,
        all,
        whole,
        ap (λ o. o.receiver)
            (handle_chunk-takes m r held c 0 before now (Coming-Room file held c [] k)
              ∙ taken-last all c now (omega (arith, next.count)) (ap length whole ∙ sym k.size)),
      )
  after_chunks-complete clock file held c (d ∷ cs) before k =
      let now = clock (length held) in
      let next = next-Coming file held c (d ∷ cs) k in
      let (end, all, whole, e) = after_chunks-complete clock file (held ++ c ∷ []) d cs now next in
      (
        end,
        all,
        whole,
        ap2 (λ s i. after_chunks clock s m.transfer_id i (d ∷ cs))
              (ap (λ o. o.receiver)
                (handle_chunk-takes m r held c (length (d ∷ cs)) before now
                    (Coming-Room file held c (d ∷ cs) k)
                  ∙ taken-next (held ++ c ∷ []) c (length cs) now next.count))
              (sym (length-snoc held c))
            ∙ e,
      )

  drop_complete :
      (held : List (List ℕ)) (now : ℕ)
      → Map.get m.transfer_id r.transfers ≡ none
      → drop_transfer
          (record (holding m r held 0 now) { completing = none })
          m.transfer_id
          (half m r held 0 now)
        ≡ record r { completing = none }
  unfolding drop_transfer
  drop_complete held now absent =
      ap3
        (λ transfers total outstanding. record r {
          transfers = transfers;
          total_buffered_bytes = total;
          outstanding_declared_bytes = outstanding;
          completing = none;
        })
        (Map.delete-set m.transfer_id (half m r held 0 now) r.transfers absent) (omega arith)
        (omega arith)

  is_held :
      (t : ActiveTransfer) → Map.has m.transfer_id (Map.set m.transfer_id t r.transfers) ≡ true
  is_held t =
      Map.has-get m.transfer_id (Map.set m.transfer_id t r.transfers)
      ∙ ap (λ o. elim o as (λ _. Bool) [ none ↦ false | some v ↦ true ])
          (Map.get-set_self m.transfer_id t r.transfers)

  pub resume-complete :
      (sha256 : List ℕ → List ℕ) (held : List (List ℕ)) (now : ℕ)
      → Map.get m.transfer_id r.transfers ≡ none
      → r.torn_down ≡ false
      → sha256 (concat held) ≡ m.content_hash
      → resume sha256 (complete held now) (record {
        transfer_id = m.transfer_id;
        transfer = half m r held 0 now;
        reassembled = concat held;
      })
        ≡ record {
          receiver = record r { completing = none };
          events = file_complete m (concat held) ∷ [];
          thrown = none;
        }
  unfolding resume
  resume-complete sha256 held now absent up digest =
      passes _ r.torn_down _ _ _ _ ((str_beq_iff (sha256 (concat held)) m.content_hash).1 digest) up
        (is_held (half m r held 0 now))
      ∙ ap
          (λ s. record { receiver = s; events = file_complete m (concat held) ∷ []; thrown = none })
          (drop_complete held now absent)
