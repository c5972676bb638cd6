-- ===== src/Framing/Wire.antt =====
-- framing/wire.ts: a frame is a header, a nonce and the ciphertext.
pub mod RoundTrip
use fuck_chat_control.Base.{ℕ, ◌+◌, ◌-◌, Bool, not, List, [], ◌∷◌, ltb, ◌==◌, length, replicate}
use fuck_chat_control.Base.Result.{Result, ok, err, ◌>>=◌, ◌>>◌, require}
use fuck_chat_control.Protocol.Limits.{frame_header_bytes, gcm_nonce_bytes}
use fuck_chat_control.Protocol.Types.{FrameAad, FrameHeader}
use fuck_chat_control.Protocol.Bytes.{put, subarray}
use fuck_chat_control.Protocol.Codec.{encode_frame_header, decode_frame_header}
use fuck_chat_control.Framing.Errors.{Failure, framing, malformed, Framed, passed_on, as_malformed}

unfoldable pub encode_wire_frame : FrameHeader → List ℕ → List ℕ → Framed (List ℕ)
encode_wire_frame header nonce ciphertext = do
  require (length nonce == gcm_nonce_bytes) (framing malformed)
  header_bytes ← passed_on (encode_frame_header header)
  ok (
      put (put (put (replicate (62 + length ciphertext) 0) 0 header_bytes) frame_header_bytes nonce)
        62 ciphertext)

pub record WireFrame : Type 0 where
  pub aad : FrameAad
  pub ciphertext_length : ℕ
  pub nonce : List ℕ
  pub ciphertext : List ℕ

unfoldable pub decode_wire_frame : List ℕ → Framed WireFrame
decode_wire_frame bytes = do
  require (not (ltb (length bytes) 62)) (framing malformed)
  header ← as_malformed (decode_frame_header (subarray bytes 0 frame_header_bytes))
  let nonce = subarray bytes frame_header_bytes 62
  let ciphertext = subarray bytes 62 (62 + header.ciphertext_length)
  require (length ciphertext == header.ciphertext_length) (framing malformed)
  require (length bytes - 62 - header.ciphertext_length == 0) (framing malformed)
  ok (record {
    aad = header.aad;
    ciphertext_length = header.ciphertext_length;
    nonce = nonce;
    ciphertext = ciphertext;
  })
