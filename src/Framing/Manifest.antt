-- ===== src/Framing/Manifest.antt =====
-- framing/manifest.ts: the plaintext of a manifest frame. `TextEncoder` and `TextDecoder` are parameters.
pub mod Layout
pub mod RoundTrip
use fuck_chat_control.Base.{
  ℕ, ◌+◌, ◌-◌, Bool, not, List, [], ◌∷◌, ltb, leb, ◌==◌, length, get_or, replicate, Str,
}
use fuck_chat_control.Base.Result.{Result, ok, err, ◌>>=◌, ◌>>◌, require}
use fuck_chat_control.Protocol.Limits.{uint32_max, max_incomplete_transfer_bytes}
use fuck_chat_control.Protocol.Bytes.{put, subarray, write_uint32_be, read_uint32_be}
use fuck_chat_control.Framing.Errors.{FramingErrorCode, malformed, size_exceeded}
use fuck_chat_control.Framing.Chunks.{compute_chunk_count}
use fuck_chat_control.Framing.Receiver.{FileManifest}

abbrev pub max_manifest_name_bytes : ℕ
max_manifest_name_bytes = 255

abbrev pub max_manifest_mime_bytes : ℕ
max_manifest_mime_bytes = 127

-- The writes, at the offsets as they grow.
abbrev pub fill_manifest : FileManifest → List ℕ → List ℕ → List ℕ
fill_manifest m name mime =
    let out = replicate (4 + 1 + length name + 1 + length mime + 4 + 4 + 32) 0 in
    let id = write_uint32_be out 0 m.transfer_id in
    let name_length = put id 4 (length name ∷ []) in
    let names = put name_length 5 name in
    let mime_length = put names (5 + length name) (length mime ∷ []) in
    let mimes = put mime_length (6 + length name) mime in
    let size = write_uint32_be mimes (6 + length name + length mime) m.size in
    let count = write_uint32_be size (10 + length name + length mime) m.chunk_count in
    put count (14 + length name + length mime) m.content_hash

unfoldable pub encode_manifest : (Str → List ℕ) → FileManifest → Result FramingErrorCode (List ℕ)
encode_manifest encode_text m = do
  require (leb m.transfer_id uint32_max) malformed
  let name = encode_text m.name
  require (leb (length name) max_manifest_name_bytes) size_exceeded
  require (not (length name == 0)) malformed
  let mime = encode_text m.mime_type
  require (leb (length mime) max_manifest_mime_bytes) size_exceeded
  require (length m.content_hash == 32) malformed
  require (leb m.size max_incomplete_transfer_bytes) size_exceeded
  require (m.chunk_count == compute_chunk_count m.size) malformed
  ok (fill_manifest m name mime)

unfoldable pub decode_manifest : (List ℕ → Str) → List ℕ → ℕ → Result FramingErrorCode FileManifest
decode_manifest decode_text plaintext expected = do
  require (not (ltb (length plaintext) 6)) malformed
  let transfer_id = read_uint32_be plaintext 0
  require (transfer_id == expected) malformed
  let name_length = get_or plaintext 4 0
  require (leb (5 + name_length) (length plaintext)) malformed
  let name = decode_text (subarray plaintext 5 (5 + name_length))
  require (not (name_length == 0)) malformed
  require (leb name_length max_manifest_name_bytes) size_exceeded
  require (not (leb (length plaintext) (5 + name_length))) malformed
  let mime_length = get_or plaintext (5 + name_length) 0
  let mime_start = 6 + name_length
  require (leb (mime_start + mime_length) (length plaintext)) malformed
  let mime_type = decode_text (subarray plaintext mime_start (mime_start + mime_length))
  let tail = mime_start + mime_length
  require (leb mime_length max_manifest_mime_bytes) size_exceeded
  require (leb (tail + 40) (length plaintext)) malformed
  let size = read_uint32_be plaintext tail
  let chunk_count = read_uint32_be plaintext (tail + 4)
  let content_hash = subarray plaintext (tail + 8) (tail + 40)
  require (tail + 40 == length plaintext) malformed
  require (leb size max_incomplete_transfer_bytes) size_exceeded
  require (chunk_count == compute_chunk_count size) malformed
  ok (record {
    transfer_id = transfer_id;
    name = name;
    mime_type = mime_type;
    size = size;
    chunk_count = chunk_count;
    content_hash = content_hash;
  })
