-- ===== src/Framing/Receiver/Whole.antt =====
-- From a manifest and the chunks of a file to the file.
use fuck_chat_control.Base.{
  ℕ, zero, suc, ◌+◌, ◌≤◌, ◌<◌, ◌≡◌, refl, sym, ap, ap2, ◌∙◌, subst, Bool, true, false, none, some,
  List, [], ◌∷◌, arith, if◌then◌else◌, ◌==◌, length, drop, nat_eq, length-drop, length-take,
}
use fuck_chat_control.Base.Map as Map
use fuck_chat_control.Protocol.Bytes.{subarray}
use fuck_chat_control.Framing.Chunks.{
  compute_chunk_count, chunk_start, chunk_end, chunk_length, chunks_from,
}
use fuck_chat_control.Framing.Chunks.Whole.{concat, concat-chunks, chunk_length-bounds}
use fuck_chat_control.Framing.Receiver.{
  FileManifest, Completion, Receiver, quietly, complete_transfer, resume, handle_manifest,
  file_complete, admitted,
}
use fuck_chat_control.Framing.Receiver.Delivery.{after_chunks, Fit, half, holding, gt→leb, le→ltb}
use fuck_chat_control.Framing.Receiver.Handover.{
  complete, complete_transfer-complete, Coming, after_chunks-complete, resume-complete,
}

length-chunks_from :
    (file : List ℕ) (size i left : ℕ) → length (chunks_from file size i left) ≡ left
length-chunks_from file size i zero = refl
length-chunks_from file size i (suc left) = ap suc (length-chunks_from file size (i + 1) left)

length-chunk :
    (file : List ℕ) (i : ℕ)
    → i < compute_chunk_count (length file)
    → length (subarray file (chunk_start i) (chunk_end (length file) i))
      ≡ chunk_length (length file) i
length-chunk file i h = omega (
  arith,
  length-take (chunk_length (length file) i) (drop (chunk_start i) file),
  length-drop (chunk_start i) file,
  chunk_length-bounds (length file) i h,
)

chunks_from-Fit :
    (file : List ℕ) (i left : ℕ)
    → i + left ≡ compute_chunk_count (length file)
    → Fit (length file) i (chunks_from file (length file) i left)
chunks_from-Fit file i zero h = tt
chunks_from-Fit file i (suc left) h =
    (length-chunk file i (omega (arith, h)), chunks_from-Fit file (i + 1) left (omega (arith, h)))

-- What a manifest needs to be admitted.
pub record Admissible (r : Receiver) (m : FileManifest) : Type 0 where
  pub absent : Map.get m.transfer_id r.transfers ≡ none
  pub up : r.torn_down ≡ false
  pub room : Map.size r.transfers < 4
  pub budget : r.total_buffered_bytes + r.outstanding_declared_bytes + m.size ≤ 67108864

-- The manifest of a file, with its size, its number of chunks and its digest.
pub record Describes (sha256 : List ℕ → List ℕ) (m : FileManifest) (file : List ℕ) : Type 0 where
  pub size : m.size ≡ length file
  pub count : m.chunk_count ≡ compute_chunk_count (length file)
  pub digest : sha256 file ≡ m.content_hash

module _ (m : FileManifest) (r : Receiver) where
  -- The tests of `handle_manifest`, all passed.
  opens :
      {A : Type 0} (active full over : Bool) (x y z w : A)
      → active ≡ false
      → full ≡ false
      → over ≡ false
      → (if active then x else if full then y else if over then z else w) ≡ w
  opens active full over x y z w p q t = rw (p, q, t) refl

  handle_manifest-opens :
      (now : ℕ)
      → Admissible r m
      → handle_manifest r m.transfer_id m now ≡ (
          if m.chunk_count == 0
          then complete_transfer
              (holding m r [] m.chunk_count now)
              m.transfer_id
              (half m r [] m.chunk_count now)
          else quietly (holding m r [] m.chunk_count now))
  unfolding handle_manifest
  handle_manifest-opens now a =
      opens _ _ _ _ _ _ _ absent (gt→leb 4 _ a.room) (le→ltb 67108864 _ a.budget)
      ∙ ap
          (λ s.
            if m.chunk_count == 0
            then complete_transfer s m.transfer_id (half m r [] m.chunk_count now)
            else quietly s)
          held
    where
      absent : Map.has m.transfer_id r.transfers ≡ false
      absent =
          Map.has-get m.transfer_id r.transfers
          ∙ ap (λ o. elim o as (λ _. Bool) [ none ↦ false | some v ↦ true ]) a.absent

      held :
          record r {
            transfers = Map.set m.transfer_id (admitted m now) r.transfers;
            outstanding_declared_bytes = r.outstanding_declared_bytes + m.size;
          }
          ≡ holding m r [] m.chunk_count now
      held =
          ap2
            (λ total outstanding. record r {
              transfers = Map.set m.transfer_id (admitted m now) r.transfers;
              total_buffered_bytes = total;
              outstanding_declared_bytes = outstanding;
            })
            (omega arith) (omega arith)

  -- The completion that waits for the digest.
  abbrev awaited : List (List ℕ) → ℕ → Completion
  awaited all now = record {
    transfer_id = m.transfer_id;
    transfer = half m r all 0 now;
    reassembled = concat all;
  }

  -- The receiver waits for a digest, and the digest hands over the file and leaves the receiver as it was.
  abbrev pub Delivers : (List ℕ → List ℕ) → List ℕ → Receiver → Type 0
  Delivers sha256 file s =
      (c : Completion) × (s.completing ≡ some c)
      × (resume sha256 s c ≡ record {
        receiver = record r { completing = none };
        events = file_complete m file ∷ [];
        thrown = none;
      })

  complete-Delivers :
      (sha256 : List ℕ → List ℕ) (file : List ℕ) (all : List (List ℕ)) (now : ℕ)
      → Admissible r m
      → Describes sha256 m file
      → concat all ≡ file
      → Delivers sha256 file (complete m r all now)
  complete-Delivers sha256 file all now a d e = (
    awaited all now,
    refl,
    resume-complete m r sha256 all now a.absent a.up (ap sha256 e ∙ d.digest)
        ∙ ap
            (λ f. record {
              receiver = record r { completing = none };
              events = file_complete m f ∷ [];
              thrown = none;
            })
            e,
  )

  begun :
      (now : ℕ) (k : ℕ)
      → m.chunk_count ≡ k
      → Admissible r m
      → handle_manifest r m.transfer_id m now ≡ (
          if k == 0
          then complete_transfer (holding m r [] k now) m.transfer_id (half m r [] k now)
          else quietly (holding m r [] k now))
  begun now k e a =
      subst
        (λ k. handle_manifest r m.transfer_id m now ≡ (
          if k == 0
          then complete_transfer (holding m r [] k now) m.transfer_id (half m r [] k now)
          else quietly (holding m r [] k now)))
        e (handle_manifest-opens now a)

  more : {A : Type 0} (n : ℕ) (x y : A) → (if suc n == 0 then x else y) ≡ y
  more n x y = ground arith

  chunks-Delivers :
      (sha256 : List ℕ → List ℕ) (clock : ℕ → ℕ) (file : List ℕ) (now : ℕ) (cs : List (List ℕ))
      → Admissible r m
      → Describes sha256 m file
      → Coming m r file [] cs
      → Delivers sha256 file
          (after_chunks clock (handle_manifest r m.transfer_id m now).receiver m.transfer_id 0 cs)
  chunks-Delivers sha256 clock file now [] a d k =
      subst (λ o. Delivers sha256 file o.receiver)
        (sym (
          begun now 0 (sym k.count) a
          ∙ complete_transfer-complete m r [] now (ap length k.whole ∙ sym k.size)))
        (complete-Delivers sha256 file [] now a d k.whole)
  chunks-Delivers sha256 clock file now (c ∷ cs) a d k =
      let (end, all, whole, e) = after_chunks-complete m r clock file [] c cs now k in
      subst (λ o. Delivers sha256 file (after_chunks clock o.receiver m.transfer_id 0 (c ∷ cs)))
        (sym (begun now (suc (length cs)) (omega (arith, k.count)) a ∙ more (length cs) _ _))
        (subst (Delivers sha256 file) (sym e) (complete-Delivers sha256 file all end a d whole))

  -- When the manifest of a file is admitted and all its chunks come in, as the sender cuts them and in their order,
  -- then the receiver awaits the digest, the digest hands the whole file over, once, and the receiver is
  -- as it was before the manifest, its counters included.
  pub file-Delivers :
      (sha256 : List ℕ → List ℕ) (clock : ℕ → ℕ) (file : List ℕ) (now : ℕ)
      → Admissible r m
      → Describes sha256 m file
      → Delivers sha256 file (
          after_chunks clock
            (handle_manifest r m.transfer_id m now).receiver
            m.transfer_id
            0
            (chunks_from file (length file) 0 (compute_chunk_count (length file))))
  file-Delivers sha256 clock file now a d = chunks-Delivers sha256 clock file now _ a d (record {
    whole = concat-chunks file;
    size = d.size;
    count = omega (
      arith,
      length-chunks_from file (length file) 0 (compute_chunk_count (length file)),
      d.count,
    );
    fit =
        subst (λ n. Fit n 0 (chunks_from file (length file) 0 (compute_chunk_count (length file))))
          (sym d.size) (chunks_from-Fit file 0 (compute_chunk_count (length file)) (omega arith));
    budget = a.budget;
  })
