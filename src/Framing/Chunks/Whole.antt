-- ===== src/Framing/Chunks/Whole.antt =====
-- The chunks of a file cover it, each byte once.
use fuck_chat_control.Base.{
  ℕ, zero, suc, ◌+◌, ◌*◌, ◌/◌, ◌≤◌, ◌<◌, ◌≡◌, refl, sym, ap, ◌∙◌, List, [], ◌∷◌, ◌++◌,
  if◌then◌else◌, ◌==◌, ==_iff, min, arith, length, drop, Bool-cases, true, false, ◌≢◌, leb, leb→le,
  leb→gt, inl, inr,
}
use fuck_chat_control.Protocol.Bytes.{subarray}
use fuck_chat_control.Protocol.Bytes.Slices.{drop-take}
use fuck_chat_control.Framing.Chunks.{
  max_chunk_plaintext_bytes, compute_chunk_count, chunk_start, chunk_end, chunk_length, chunks_from,
}

abbrev pub concat : List (List ℕ) → List ℕ
concat [] = []
concat (x ∷ xs) = x ++ concat xs

-- The last chunk of a file that is not empty holds its last byte.
pub count_bounds :
    (size : ℕ)
    → 0 < size
    → (size ≤ compute_chunk_count size * 16368) × (compute_chunk_count size * 16368 < size + 16368)
count_bounds size h = rw counted (omega arith, omega arith)
  where
    nonzero : (size == 0) ≡ false
    nonzero = ground arith

    counted : compute_chunk_count size ≡ (size + 16367) / 16368
    counted = rw nonzero refl

pub chunk_length-bounds :
    (size i : ℕ)
    → i < compute_chunk_count size
    → (0 < chunk_length size i) × (chunk_length size i ≤ max_chunk_plaintext_bytes)
chunk_length-bounds size i h = elim (Bool-cases (size == 0)) [
  | inl z ↦ absurd (none_of z)
  | inr p ↦
      let (_, b) = count_bounds size (ground arith) in (omega (arith, b, h), omega (arith, b, h))
]
  where
    none_of : (size == 0) ≡ true → ⊥
    none_of z =
        let c : compute_chunk_count size ≡ 0 =
          ap (λ b. if b then 0 else (size + 16367) / 16368) z in
        absurd (omega (arith, c, h))

drop_past : (xs : List ℕ) (n : ℕ) → length xs ≤ n → drop n xs ≡ []
drop_past [] zero h = refl
drop_past [] (suc n) h = refl
drop_past (x ∷ xs) zero h = absurd (omega arith)
drop_past (x ∷ xs) (suc n) h = drop_past xs n (omega arith)

-- The next chunk starts where this one ends, or both are at the end of the file.
drop-next :
    (file : List ℕ) (i : ℕ)
    → drop (chunk_start (i + 1)) file ≡ drop (min (chunk_start i + 16368) (length file)) file
drop-next file i = elim (Bool-cases (leb (chunk_start i + 16368) (length file))) [
  | inl inside ↦ ap (λ n. drop n file) {x = chunk_start (i + 1)} (omega (arith, leb→le _ _ inside))
  | inr over ↦
      drop_past file (chunk_start (i + 1)) (beyond over)
      ∙ sym (drop_past file (min (chunk_start i + 16368) (length file)) (beyond_end over))
]
  where
    beyond : leb (chunk_start i + 16368) (length file) ≡ false → length file ≤ chunk_start (i + 1)
    beyond o = omega (arith, leb→gt (chunk_start i + 16368) (length file) o)

    beyond_end :
        leb (chunk_start i + 16368) (length file) ≡ false
        → length file ≤ min (chunk_start i + 16368) (length file)
    beyond_end o = omega (arith, leb→gt (chunk_start i + 16368) (length file) o)

concat-chunks_from :
    (file : List ℕ) (i left : ℕ)
    → i + left ≡ compute_chunk_count (length file)
    → concat (chunks_from file (length file) i left) ≡ drop (chunk_start i) file
concat-chunks_from file i zero h =
    sym (drop_past file (chunk_start i) (all_sent (length file) (omega arith)))
  where
    all_sent : (size : ℕ) → i ≡ compute_chunk_count size → size ≤ chunk_start i
    all_sent zero e = omega arith
    all_sent (suc n) e = omega (arith, e, count_bounds (suc n))
concat-chunks_from file i (suc left) h =
    ap (λ r. subarray file (chunk_start i) (chunk_end (length file) i) ++ r)
      (concat-chunks_from file (i + 1) left (omega arith)
        ∙ drop-next file i
        ∙ ap (λ n. drop n file) reached)
    ∙ sym (drop-take file (chunk_start i) (chunk_length (length file) i))
  where
    begun : chunk_start i < length file
    begun = begun_of (length file) (omega arith)
      where
        begun_of : (size : ℕ) → i < compute_chunk_count size → chunk_start i < size
        begun_of size l = omega (arith, chunk_length-bounds size i l)

    reached :
        min (chunk_start i + 16368) (length file) ≡ chunk_start i + chunk_length (length file) i
    reached = omega (arith, begun)

-- The chunks that the sender cuts a file into, put together, are the file.
pub concat-chunks :
    (file : List ℕ)
    → concat (chunks_from file (length file) 0 (compute_chunk_count (length file))) ≡ file
concat-chunks file = concat-chunks_from file 0 (compute_chunk_count (length file)) (omega arith)

-- The chunk lengths that the receiver asks for are positive and at most the size of a frame's
-- plaintext, and the chunks meet: chunk `i + 1` starts where chunk `i` ends, and the last ends with the file.
pub chunk_boundaries-IsPartition :
    (size i : ℕ)
    → i < compute_chunk_count size
    → (0 < chunk_length size i)
      × (chunk_length size i ≤ max_chunk_plaintext_bytes)
      × (chunk_end size i
          ≡ (if i + 1 == compute_chunk_count size then size else chunk_start (i + 1)))
chunk_boundaries-IsPartition size i h =
    let (p, l) = chunk_length-bounds size i h in
    (
      p,
      l,
      elim (Bool-cases (i + 1 == compute_chunk_count size)) [
        | inl e ↦ rw e (omega (arith, (==_iff (i + 1) (compute_chunk_count size)).0 e, bounds))
        | inr n ↦ rw n (omega (arith, before n, bounds))
      ],
    )
  where
    bounds :
        (size ≤ compute_chunk_count size * 16368)
        × (compute_chunk_count size * 16368 < size + 16368)
    bounds = count_bounds size (omega (arith, chunk_length-bounds size i h))

    differ : (a b : ℕ) → (a == b) ≡ false → a ≢ b
    differ a b n = ground arith

    before : (i + 1 == compute_chunk_count size) ≡ false → i + 1 < compute_chunk_count size
    before n = omega (arith, differ (i + 1) (compute_chunk_count size) n, h)
