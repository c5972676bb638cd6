-- ===== src/Framing/Receiver/Delivery.antt =====
-- A file whose chunks all come in.
use fuck_chat_control.Base.{
  ℕ, suc, ◌+◌, ◌-◌, ◌≤◌, ◌<◌, ◌≡◌, refl, sym, ap, ap2, ◌∙◌, true, false, Option, none, some, List,
  [], ◌∷◌, ◌++◌, arith, if◌then◌else◌, ltb, leb, ◌==◌, ==_iff, length, get_or, set, replicate,
  length-append, nat_eq,
}
use fuck_chat_control.Base.Map as Map
use fuck_chat_control.Protocol.Bytes.{append_nil, append_assoc}
use fuck_chat_control.Framing.Chunks.{chunk_length}
use fuck_chat_control.Framing.Chunks.Whole.{concat}
use fuck_chat_control.Framing.Receiver.{
  FileManifest, ActiveTransfer, Receiver, Outcome, quietly, reassemble, complete_transfer,
  handle_chunk, store_chunk, with_chunk,
}

-- The receiver after the chunks from `i` on, one after the other, at the times of `clock`.
abbrev pub after_chunks : (ℕ → ℕ) → Receiver → ℕ → ℕ → List (List ℕ) → Receiver
after_chunks clock r id i [] = r
after_chunks clock r id i (c ∷ cs) =
    after_chunks clock (handle_chunk r id i c (clock i)).receiver id (i + 1) cs

-- Chunks from `i` on have the lengths that a file of the size is cut into.
abbrev pub Fit : ℕ → ℕ → List (List ℕ) → Type 0
Fit size i [] = Unit {0}
Fit size i (c ∷ cs) = (length c ≡ chunk_length size i) × Fit size (i + 1) cs

abbrev pub slots : List (List ℕ) → ℕ → List (Option (List ℕ))
slots [] left = replicate left none
slots (c ∷ held) left = some c ∷ slots held left

pub set-slots :
    (held : List (List ℕ)) (left : ℕ) (c : List ℕ)
    → set (slots held (suc left)) (length held) (some c) ≡ slots (held ++ c ∷ []) left
set-slots [] left c = refl
set-slots (d ∷ held) left c = ap (λ l. some d ∷ l) (set-slots held left c)

pub get_or-slots :
    (held : List (List ℕ)) (left : ℕ) → get_or (slots held (suc left)) (length held) none ≡ none
get_or-slots [] left = refl
get_or-slots (d ∷ held) left = get_or-slots held left

pub reassemble-slots : (held : List (List ℕ)) → reassemble (slots held 0) ≡ some (concat held)
reassemble-slots [] = refl
reassemble-slots (c ∷ held) = rw (reassemble-slots held) refl

pub concat-snoc : (held : List (List ℕ)) (c : List ℕ) → concat (held ++ c ∷ []) ≡ concat held ++ c
concat-snoc [] c = append_nil c
concat-snoc (d ∷ held) c =
    ap (λ l. d ++ l) (concat-snoc held c) ∙ sym (append_assoc d (concat held) c)

pub length-snoc : (held : List (List ℕ)) (c : List ℕ) → length (held ++ c ∷ []) ≡ length held + 1
length-snoc held c = length-append held (c ∷ [])

pub ap3 :
    {A B C D : Type 0} (f : A → B → C → D) {a a' : A} {b b' : B} {c c' : C}
    → a ≡ a'
    → b ≡ b'
    → c ≡ c'
    → f a b c ≡ f a' b' c'
ap3 f p q r = cc

pub gt→leb : (a b : ℕ) → b < a → leb a b ≡ false
gt→leb a b h = ground arith

pub le→ltb : (a b : ℕ) → b ≤ a → ltb a b ≡ false
le→ltb a b h = ground arith

module _ (m : FileManifest) (r : Receiver) where
  -- The transfer of `m` with the chunks `held`, `left` of them still to come.
  abbrev pub half : List (List ℕ) → ℕ → ℕ → ActiveTransfer
  half held left now = record {
    manifest = m;
    chunks = slots held left;
    received_count = length held;
    received_bytes = length (concat held);
    last_activity = now;
    dropped = false;
  }

  abbrev pub holding : List (List ℕ) → ℕ → ℕ → Receiver
  holding held left now = record r {
    transfers = Map.set m.transfer_id (half held left now) r.transfers;
    total_buffered_bytes = r.total_buffered_bytes + length (concat held);
    outstanding_declared_bytes = r.outstanding_declared_bytes + (m.size - length (concat held));
  }

  -- What `store_chunk` does with a chunk that it takes.
  abbrev pub taken : ActiveTransfer → ℕ → List ℕ → Receiver → Outcome
  taken t now c s =
      if t.received_count == t.manifest.chunk_count
      then complete_transfer s m.transfer_id t
      else quietly s

  pub record Room (held : List (List ℕ)) (c : List ℕ) (left : ℕ) : Type 0 where
    pub counted : length held + suc left ≡ m.chunk_count
    pub sized : length c ≡ chunk_length m.size (length held)
    pub inside : length (concat held) + length c ≤ m.size
    pub budget : r.total_buffered_bytes + r.outstanding_declared_bytes + m.size ≤ 67108864

  with_chunk-half :
      (held : List (List ℕ)) (c : List ℕ) (left before now : ℕ)
      → with_chunk (half held (suc left) before) (length held) c now
        ≡ half (held ++ c ∷ []) left now
  with_chunk-half held c left before now =
      ap3
        (λ chunks count bytes. record {
          manifest = m;
          chunks = chunks;
          received_count = count;
          received_bytes = bytes;
          last_activity = now;
          dropped = false;
        })
        (set-slots held left c) (sym (length-snoc held c))
        (sym (ap length (concat-snoc held c) ∙ length-append (concat held) c))

  store_chunk-takes :
      (held : List (List ℕ)) (c : List ℕ) (left before now : ℕ)
      → Room held c left
      → store_chunk
          (holding held (suc left) before)
          m.transfer_id
          (half held (suc left) before)
          (length held)
          c
          now
        ≡ taken (half (held ++ c ∷ []) left now) now c (holding (held ++ c ∷ []) left now)
  store_chunk-takes held c left before now room =
      rw (g1, g2, g3, g4, g5) (ap2 (λ t s. taken t now c s) half_next holding_next)
    where
      half_next :
          with_chunk (half held (suc left) before) (length held) c now
          ≡ half (held ++ c ∷ []) left now
      half_next = with_chunk-half held c left before now

      longer : length (concat (held ++ c ∷ [])) ≡ length (concat held) + length c
      longer = ap length (concat-snoc held c) ∙ length-append (concat held) c

      holding_next :
          record (holding held (suc left) before) {
            transfers =
                Map.set m.transfer_id
                  (with_chunk (half held (suc left) before) (length held) c now)
                  (Map.set m.transfer_id (half held (suc left) before) r.transfers);
            total_buffered_bytes = r.total_buffered_bytes + length (concat held) + length c;
            outstanding_declared_bytes =
                r.outstanding_declared_bytes + (m.size - length (concat held)) - length c;
          }
          ≡ holding (held ++ c ∷ []) left now
      holding_next =
          ap3
            (λ transfers total outstanding. record r {
              transfers = transfers;
              total_buffered_bytes = total;
              outstanding_declared_bytes = outstanding;
            })
            (Map.set-set_same m.transfer_id (half held (suc left) before) _ r.transfers
              ∙ ap (λ t. Map.set m.transfer_id t r.transfers) half_next)
            (omega (arith, longer)) (omega (arith, longer, room.inside))

      g1 : leb m.chunk_count (length held) ≡ false
      g1 = gt→leb _ _ (omega (arith, room.counted))

      g2 : (length c == chunk_length m.size (length held)) ≡ true
      g2 = (==_iff _ _).1 room.sized

      g3 : get_or (slots held (suc left)) (length held) none ≡ none
      g3 = get_or-slots held left

      g4 : ltb m.size (length (concat held) + length c) ≡ false
      g4 = le→ltb _ _ room.inside

      g5 : ltb 67108864 (r.total_buffered_bytes + length (concat held) + length c) ≡ false
      g5 = le→ltb _ _ (omega (arith, room.budget, room.inside))

  pub handle_chunk-takes :
      (held : List (List ℕ)) (c : List ℕ) (left before now : ℕ)
      → Room held c left
      → handle_chunk (holding held (suc left) before) m.transfer_id (length held) c now
        ≡ taken (half (held ++ c ∷ []) left now) now c (holding (held ++ c ∷ []) left now)
  unfolding handle_chunk
  handle_chunk-takes held c left before now room =
      rw (handle_chunk, Map.get-set_self m.transfer_id (half held (suc left) before) r.transfers)
        (store_chunk-takes held c left before now room)
