-- ===== src/Framing/Chunks.antt =====
-- framing/manifest.ts: how a file is cut into chunks, and framing/sender.ts: the loop over them.
pub mod Whole
use fuck_chat_control.Base.{
  ℕ, zero, suc, ◌+◌, ◌-◌, ◌*◌, ◌/◌, List, [], ◌∷◌, ◌++◌, if◌then◌else◌, ◌==◌, min,
}
use fuck_chat_control.Protocol.Limits.{max_chunk_bytes, gcm_tag_bytes}
use fuck_chat_control.Protocol.Bytes.{subarray}

abbrev pub max_chunk_plaintext_bytes : ℕ
max_chunk_plaintext_bytes = max_chunk_bytes - gcm_tag_bytes

-- `Math.ceil(size / MAX_CHUNK_PLAINTEXT_BYTES)`.
abbrev pub compute_chunk_count : ℕ → ℕ
compute_chunk_count size =
    if size == 0 then 0 else (size + (max_chunk_plaintext_bytes - 1)) / max_chunk_plaintext_bytes

abbrev pub chunk_start : ℕ → ℕ
chunk_start index = index * max_chunk_plaintext_bytes

abbrev pub chunk_end : ℕ → ℕ → ℕ
chunk_end size index = min (chunk_start index + max_chunk_plaintext_bytes) size

-- `end - start` of `chunkBoundaries(size, index)`.
abbrev pub chunk_length : ℕ → ℕ → ℕ
chunk_length size index = chunk_end size index - chunk_start index

-- The chunks that the sender's loop sends, from `index` on.
abbrev pub chunks_from : List ℕ → ℕ → ℕ → ℕ → List (List ℕ)
chunks_from file size index zero = []
chunks_from file size index (suc left) =
    subarray file (chunk_start index) (chunk_end size index)
    ∷ chunks_from file size (index + 1) left
