-- ===== src/Framing/Manifest/RoundTrip.antt =====
-- A manifest that was written is read back.
use fuck_chat_control.Base.{
  ℕ, zero, suc, ◌+◌, ◌-◌, ◌^◌, ◌≤◌, ◌<◌, ◌≡◌, refl, sym, ap, ap2, ◌∙◌, true, false, not, List, [],
  ◌∷◌, ◌++◌, ltb, leb, leb→le, ◌==◌, ==_iff, arith, length, length-append, get_or, take, drop, Str,
}
use fuck_chat_control.Base.Result.{ok, require, >>=-eq-ok, require-eq-ok, of_ok}
use fuck_chat_control.Protocol.Bytes.{
  subarray, uint32_be, read_uint32_be, append_assoc, append_nil, get_or-append,
  read_uint32_be-append, take-append, drop-append, read-uint32_be,
}
use fuck_chat_control.Framing.Chunks.{compute_chunk_count}
use fuck_chat_control.Framing.Chunks.Whole.{count_bounds}
use fuck_chat_control.Framing.Receiver.{FileManifest}
use fuck_chat_control.Framing.Manifest.{encode_manifest, decode_manifest}
use fuck_chat_control.Framing.Manifest.Layout.{front, tail, length-front, fill_manifest-layout}

-- What the encoder asks of a manifest.
record IsSendable (m : FileManifest) (name mime : List ℕ) : Type 0 where
  id : m.transfer_id ≤ 4294967295
  short_name : leb (length name) 255 ≡ true
  named : not (length name == 0) ≡ true
  short_mime : leb (length mime) 127 ≡ true
  hashed : length m.content_hash ≡ 32
  small : leb m.size 67108864 ≡ true
  counted : (m.chunk_count == compute_chunk_count m.size) ≡ true

few_chunks : (size count : ℕ) → size ≤ 67108864 → count ≡ compute_chunk_count size → count < 2 ^ 32
few_chunks zero count l c = omega (arith, c)
few_chunks (suc n) count l c = omega (arith, c, count_bounds (suc n))

-- The parts of a manifest's bytes, each read where the decoder reads it.
module _ (m : FileManifest) (name mime : List ℕ) (e : IsSendable m name mime) where
  bytes : List ℕ
  bytes = front m name mime ++ tail m

  rest_after_name : List ℕ
  rest_after_name = length mime ∷ (mime ++ tail m)

  bytes-name : bytes ≡ (uint32_be m.transfer_id ++ (length name ∷ [])) ++ (name ++ rest_after_name)
  unfolding bytes rest_after_name
  bytes-name = rw (append_assoc, append_assoc, append_assoc) refl

  bytes-length : length bytes ≡ 46 + length name + length mime
  unfolding bytes
  bytes-length =
      omega (arith, length-append (front m name mime) (tail m), length-front m name mime, e.hashed)

  read_id : read_uint32_be bytes 0 ≡ m.transfer_id
  read_id =
      ap (λ b. read_uint32_be b 0) bytes-name
      ∙ read-uint32_be m.transfer_id (length name ∷ (name ++ rest_after_name)) (omega (arith, e.id))

  read_name_length : get_or bytes 4 0 ≡ length name
  read_name_length = ap (λ b. get_or b 4 0) bytes-name

  read_name : subarray bytes 5 (5 + length name) ≡ name
  read_name =
      ap2 (λ k b. take k (drop 5 b)) {a = 5 + length name - 5} {a' = length name} (omega arith)
        bytes-name
      ∙ take-append name rest_after_name (length name) refl

  upto_name : List ℕ
  upto_name = (uint32_be m.transfer_id ++ (length name ∷ [])) ++ name

  length-upto_name : length upto_name ≡ 5 + length name
  unfolding upto_name
  length-upto_name =
      omega (arith, length-append (uint32_be m.transfer_id ++ (length name ∷ [])) name)

  upto_mime_length : List ℕ
  upto_mime_length = ((uint32_be m.transfer_id ++ (length name ∷ [])) ++ name) ++ (length mime ∷ [])

  length-upto_mime_length : length upto_mime_length ≡ 6 + length name
  unfolding upto_mime_length
  length-upto_mime_length = omega (
    arith,
    length-append ((uint32_be m.transfer_id ++ (length name ∷ [])) ++ name) (length mime ∷ []),
    length-append (uint32_be m.transfer_id ++ (length name ∷ [])) name,
  )

  read_mime_length : get_or bytes (5 + length name) 0 ≡ length mime
  unfolding rest_after_name upto_name
  read_mime_length =
      ap2 (λ b i. get_or b i 0) {b' = 5 + length name + 0}
        (bytes-name
          ∙ sym (append_assoc (uint32_be m.transfer_id ++ (length name ∷ [])) name rest_after_name))
        (omega arith)
      ∙ get_or-append upto_name rest_after_name 0 (5 + length name) length-upto_name

  read_mime : subarray bytes (6 + length name) (6 + length name + length mime) ≡ mime
  unfolding bytes upto_mime_length
  read_mime =
      ap2 (λ k b. take k (drop (6 + length name) b))
        {a = 6 + length name + length mime - (6 + length name)} {a' = length mime} (omega arith)
        (append_assoc upto_mime_length mime (tail m))
      ∙ ap (λ b. take (length mime) b)
          (drop-append upto_mime_length (mime ++ tail m) (6 + length name) length-upto_mime_length)
      ∙ take-append mime (tail m) (length mime) refl

  read_size : read_uint32_be bytes (6 + length name + length mime) ≡ m.size
  unfolding bytes
  read_size =
      ap (λ i. read_uint32_be bytes i) {y = 6 + length name + length mime + 0} (omega arith)
      ∙ read_uint32_be-append (front m name mime) (tail m) 0 (6 + length name + length mime)
          (length-front m name mime)
      ∙ read-uint32_be m.size (uint32_be m.chunk_count ++ m.content_hash)
          (omega (arith, leb→le _ _ e.small))

  read_chunk_count : read_uint32_be bytes (6 + length name + length mime + 4) ≡ m.chunk_count
  unfolding bytes
  read_chunk_count =
      read_uint32_be-append (front m name mime) (tail m) 4 (6 + length name + length mime)
        (length-front m name mime)
      ∙ read-uint32_be m.chunk_count m.content_hash
          (few_chunks m.size m.chunk_count (leb→le _ _ e.small) ((==_iff _ _).0 e.counted))

  read_hash :
      subarray bytes (6 + length name + length mime + 8) (6 + length name + length mime + 40)
      ≡ m.content_hash
  unfolding bytes
  read_hash =
      ap2 (λ k b. take k (drop (6 + length name + length mime + 8) b))
        {a = 6 + length name + length mime + 40 - (6 + length name + length mime + 8)} {a' = 32}
        (omega arith)
        (sym (
          append_assoc (front m name mime) (uint32_be m.size ++ uint32_be m.chunk_count)
            m.content_hash))
      ∙ ap (λ b. take 32 b)
          (drop-append (front m name mime ++ (uint32_be m.size ++ uint32_be m.chunk_count))
            m.content_hash (6 + length name + length mime + 8)
            (omega (
              arith,
              length-append (front m name mime) (uint32_be m.size ++ uint32_be m.chunk_count),
              length-front m name mime,
            )))
      ∙ ap (λ b. take 32 b) (sym (append_nil m.content_hash))
      ∙ take-append m.content_hash [] 32 e.hashed

  long_enough : (k : ℕ) → k ≤ 46 + length name + length mime → leb k (length bytes) ≡ true
  long_enough k l = ground (arith, bytes-length)

  decoded :
      (decode_text : List ℕ → Str)
      → decode_manifest decode_text bytes m.transfer_id
        ≡ ok (record m { name = decode_text name; mime_type = decode_text mime })
  unfolding decode_manifest
  decoded decode_text =
      rw
        (
          not_short,
          read_id,
          (==_iff m.transfer_id m.transfer_id).1 refl,
          read_name_length,
          long_enough (5 + length name) (omega arith),
          read_name,
          e.named,
          e.short_name,
          more,
          read_mime_length,
          long_enough (6 + length name + length mime) (omega arith),
          read_mime,
          e.short_mime,
          long_enough (6 + length name + length mime + 40) (omega arith),
          read_size,
          read_chunk_count,
          read_hash,
          exact,
          e.small,
          e.counted,
        )
        refl
    where
      not_short : ltb (length bytes) 6 ≡ false
      not_short = ground (arith, bytes-length)

      more : leb (length bytes) (5 + length name) ≡ false
      more = ground (arith, bytes-length)

      exact : (6 + length name + length mime + 40 == length bytes) ≡ true
      exact = ground (arith, bytes-length)

-- A manifest that the encoder accepts is read back as it was under its own id, if its name and its type survive the
-- way through UTF-8.
pub decode_manifest-encode_manifest :
    (encode_text : Str → List ℕ) (decode_text : List ℕ → Str) (m : FileManifest)
    (plaintext : List ℕ)
    → decode_text (encode_text m.name) ≡ m.name
    → decode_text (encode_text m.mime_type) ≡ m.mime_type
    → encode_manifest encode_text m ≡ ok plaintext
    → decode_manifest decode_text plaintext m.transfer_id ≡ ok m
unfolding encode_manifest bytes
decode_manifest-encode_manifest encode_text decode_text m plaintext n t h =
    let name = encode_text m.name in
    let mime = encode_text m.mime_type in
    let (_, a, h1) = >>=-eq-ok (require (leb m.transfer_id 4294967295) _) _ h in
    let (_, b, h2) = >>=-eq-ok (require (leb (length name) 255) _) _ h1 in
    let (_, c, h3) = >>=-eq-ok (require (not (length name == 0)) _) _ h2 in
    let (_, d, h4) = >>=-eq-ok (require (leb (length mime) 127) _) _ h3 in
    let (_, x, h5) = >>=-eq-ok (require (length m.content_hash == 32) _) _ h4 in
    let (_, s, h6) = >>=-eq-ok (require (leb m.size 67108864) _) _ h5 in
    let (_, k, h7) = >>=-eq-ok (require (m.chunk_count == compute_chunk_count m.size) _) _ h6 in
    let hashed : length m.content_hash ≡ 32 = (==_iff _ _).0 (require-eq-ok _ _ x) in
    let e : IsSendable m name mime = record {
      id = leb→le _ _ (require-eq-ok _ _ a);
      short_name = require-eq-ok _ _ b;
      named = require-eq-ok _ _ c;
      short_mime = require-eq-ok _ _ d;
      hashed = hashed;
      small = require-eq-ok _ _ s;
      counted = require-eq-ok _ _ k;
    } in
    ap (λ p. decode_manifest decode_text p m.transfer_id)
      (sym (of_ok h7) ∙ fill_manifest-layout m name mime hashed)
    ∙ decoded m name mime e decode_text
    ∙ ap2 (λ n t. ok (record m { name = n; mime_type = t })) n t
