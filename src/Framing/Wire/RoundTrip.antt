-- ===== src/Framing/Wire/RoundTrip.antt =====
-- A frame on the wire: writing and reading agree in both directions.
use fuck_chat_control.Base.{
  ℕ, ◌+◌, ◌-◌, ◌≤◌, ◌≡◌, refl, sym, ap, ap2, ◌∙◌, subst, true, false, not, List, [], ◌++◌, ltb,
  ◌==◌, ==_iff, arith, length, length-append, length-take, length-drop, take, drop, replicate,
}
use fuck_chat_control.Base.Result.{Result, ok, err, require, >>=-eq-ok, require-eq-ok, of_ok}
use fuck_chat_control.Protocol.Types.{FrameHeader, ProtocolErrorCode}
use fuck_chat_control.Protocol.Bytes.{
  put, subarray, Bytes, append_assoc, append_nil, put-written, take-append, drop-append,
}
use fuck_chat_control.Protocol.Bytes.Slices.{drop-take, drop_all}
use fuck_chat_control.Protocol.Codec.{encode_frame_header, decode_frame_header}
use fuck_chat_control.Protocol.Codec.Header.{
  length-header_layout, encode_frame_header-IsSendable, decode_frame_header-encode_frame_header,
  encode_frame_header-decode_frame_header, Bytes-take,
}
use fuck_chat_control.Framing.Errors.{framing, malformed, passed_on, as_malformed}
use fuck_chat_control.Framing.Wire.{encode_wire_frame, decode_wire_frame, WireFrame}

of_passed_on : {A : Type 0} (r : Result ProtocolErrorCode A) {a : A} → passed_on r ≡ ok a → r ≡ ok a
of_passed_on (ok a) h = ap ok (of_ok h)
of_passed_on (err e) h = absurd (cc)

of_as_malformed :
    {A : Type 0} (r : Result ProtocolErrorCode A) {a : A} → as_malformed r ≡ ok a → r ≡ ok a
of_as_malformed (ok a) h = ap ok (of_ok h)
of_as_malformed (err e) h = absurd (cc)

-- The three writes put the parts one after the other.
written :
    (header nonce ciphertext : List ℕ)
    → length header ≡ 50
    → length nonce ≡ 12
    → put (put (put (replicate (62 + length ciphertext) 0) 0 header) 50 nonce) 62 ciphertext
      ≡ (header ++ nonce) ++ ciphertext
written header nonce ciphertext h n =
    put-written (header ++ nonce) ciphertext 62 0 (length ciphertext)
      (put-written header nonce 50 (length ciphertext) (12 + length ciphertext)
        (put-written [] header 0 (12 + length ciphertext) (62 + length ciphertext) refl refl
          (omega (arith, h)))
        h (omega (arith, n)))
      (omega (arith, length-append header nonce, h, n)) (omega arith)
    ∙ append_nil ((header ++ nonce) ++ ciphertext)

-- Reading three parts that stand one after the other.
decoded :
    (header : FrameHeader) (hb nonce ciphertext : List ℕ)
    → length hb ≡ 50
    → length nonce ≡ 12
    → header.ciphertext_length ≡ length ciphertext
    → decode_frame_header hb ≡ ok header
    → decode_wire_frame ((hb ++ nonce) ++ ciphertext)
      ≡ ok (record {
        aad = header.aad;
        ciphertext_length = header.ciphertext_length;
        nonce = nonce;
        ciphertext = ciphertext;
      })
unfolding decode_wire_frame
decoded header hb nonce ciphertext h n c d =
    rw (long, front, middle, rest, (==_iff _ _).1 (sym c), none_left) refl
  where
    both : length (hb ++ nonce) ≡ 62
    both = omega (arith, length-append hb nonce)

    total : length ((hb ++ nonce) ++ ciphertext) ≡ 62 + length ciphertext
    total = omega (arith, length-append (hb ++ nonce) ciphertext, both)

    long : ltb (length ((hb ++ nonce) ++ ciphertext)) 62 ≡ false
    long = ground (arith, total)

    front : decode_frame_header (subarray ((hb ++ nonce) ++ ciphertext) 0 50) ≡ ok header
    front =
        ap decode_frame_header (
          ap (λ l. take 50 l) (append_assoc hb nonce ciphertext)
          ∙ take-append hb (nonce ++ ciphertext) 50 h)
        ∙ d

    middle : subarray ((hb ++ nonce) ++ ciphertext) 50 62 ≡ nonce
    middle =
        ap (λ l. take 12 (drop 50 l)) (append_assoc hb nonce ciphertext)
        ∙ ap (λ l. take 12 l) (drop-append hb (nonce ++ ciphertext) 50 h)
        ∙ take-append nonce ciphertext 12 n

    rest : subarray ((hb ++ nonce) ++ ciphertext) 62 (62 + header.ciphertext_length) ≡ ciphertext
    rest =
        ap2 (λ k l. take k l) {a = 62 + header.ciphertext_length - 62} {a' = length ciphertext}
          (omega (arith, c)) (drop-append (hb ++ nonce) ciphertext 62 both)
        ∙ ap (λ l. take (length ciphertext) l) (sym (append_nil ciphertext))
        ∙ take-append ciphertext [] (length ciphertext) refl

    none_left : (length ((hb ++ nonce) ++ ciphertext) - 62 - header.ciphertext_length == 0) ≡ true
    none_left = (==_iff _ _).1 (omega (arith, total, c))

-- A frame whose header declares the length of its ciphertext is read back as it was written.
pub decode_wire_frame-encode_wire_frame :
    (header : FrameHeader) (nonce ciphertext bytes : List ℕ)
    → header.ciphertext_length ≡ length ciphertext
    → encode_wire_frame header nonce ciphertext ≡ ok bytes
    → decode_wire_frame bytes
      ≡ ok (record {
        aad = header.aad;
        ciphertext_length = header.ciphertext_length;
        nonce = nonce;
        ciphertext = ciphertext;
      })
unfolding encode_wire_frame decode_wire_frame
decode_wire_frame-encode_wire_frame header nonce ciphertext bytes d h =
    let (_, n, h1) = >>=-eq-ok (require (length nonce == 12) _) _ h in
    let (hb, e, h2) = >>=-eq-ok (passed_on (encode_frame_header header)) _ h1 in
    let e' = of_passed_on (encode_frame_header header) e in
    let (sendable, l) = encode_frame_header-IsSendable header hb e' in
    let hl : length hb ≡ 50 = ap length l ∙ length-header_layout header sendable in
    let nl : length nonce ≡ 12 = (==_iff _ _).0 (require-eq-ok _ _ n) in
    let whole : bytes ≡ (hb ++ nonce) ++ ciphertext =
      sym (of_ok h2) ∙ written hb nonce ciphertext hl nl in
    ap decode_wire_frame whole
    ∙ decoded header hb nonce ciphertext hl nl d
        (decode_frame_header-encode_frame_header header hb e')

abbrev pub header_of : WireFrame → FrameHeader
header_of frame = record { aad = frame.aad; ciphertext_length = frame.ciphertext_length }

-- Writing the three parts of a byte array.
encoded :
    (bytes : List ℕ) (header : FrameHeader)
    → Bytes bytes
    → decode_frame_header (take 50 bytes) ≡ ok header
    → length bytes ≡ 62 + header.ciphertext_length
    → encode_wire_frame header
        (subarray bytes 50 62)
        (subarray bytes 62 (62 + header.ciphertext_length))
      ≡ ok bytes
unfolding encode_wire_frame
encoded bytes header b d l =
    rw ((==_iff _ _).1 middle, passed)
      (ap ok (written (take 50 bytes) (subarray bytes 50 62) rest front middle ∙ whole))
  where
    rest : List ℕ
    rest = subarray bytes 62 (62 + header.ciphertext_length)

    front : length (take 50 bytes) ≡ 50
    front = omega (arith, length-take 50 bytes, l)

    middle : length (subarray bytes 50 62) ≡ 12
    middle = omega (arith, length-take 12 (drop 50 bytes), length-drop 50 bytes, l)

    passed : passed_on (encode_frame_header header) ≡ ok (take 50 bytes)
    passed =
        ap passed_on
          (encode_frame_header-decode_frame_header (take 50 bytes) header (Bytes-take bytes 50 b) d)

    last : subarray bytes 62 (62 + header.ciphertext_length) ≡ drop 62 bytes
    last =
        sym (append_nil rest)
        ∙ ap2 (λ k r. take k (drop 62 bytes) ++ r) {a' = header.ciphertext_length} (omega arith)
            (sym (drop_all bytes (62 + header.ciphertext_length) l))
        ∙ sym (drop-take bytes 62 header.ciphertext_length)

    whole : (take 50 bytes ++ subarray bytes 50 62) ++ rest ≡ bytes
    whole =
        append_assoc (take 50 bytes) (subarray bytes 50 62) rest
        ∙ ap (λ r. take 50 bytes ++ (subarray bytes 50 62 ++ r)) last
        ∙ ap (λ r. take 50 bytes ++ r) (sym (drop-take bytes 50 12))
        ∙ sym (drop-take bytes 0 50)

-- A byte array that is read as a frame is the one that is written for the frame's parts, and the header
-- declares the length of the ciphertext.
pub encode_wire_frame-decode_wire_frame :
    (bytes : List ℕ) (frame : WireFrame)
    → Bytes bytes
    → decode_wire_frame bytes ≡ ok frame
    → (encode_wire_frame (header_of frame) frame.nonce frame.ciphertext ≡ ok bytes)
      × (frame.ciphertext_length ≡ length frame.ciphertext)
unfolding encode_wire_frame decode_wire_frame
encode_wire_frame-decode_wire_frame bytes frame b h =
    let (_, l, h1) = >>=-eq-ok (require (not (ltb (length bytes) 62)) _) _ h in
    let (header, d, h2) = >>=-eq-ok (as_malformed (decode_frame_header (take 50 bytes))) _ h1 in
    let n = header.ciphertext_length in
    let ciphertext = subarray bytes 62 (62 + n) in
    let (_, c, h3) = >>=-eq-ok (require (length ciphertext == n) (framing malformed)) _ h2 in
    let (_, t, h4) = >>=-eq-ok (require (length bytes - 62 - n == 0) (framing malformed)) _ h3 in
    let short : length ciphertext ≡ n = (==_iff _ _).0 (require-eq-ok _ _ c) in
    let none_left : length bytes - 62 - n ≡ 0 = (==_iff _ _).0 (require-eq-ok _ _ t) in
    let long : not (ltb (length bytes) 62) ≡ true = require-eq-ok _ _ l in
    let d' = of_as_malformed (decode_frame_header (take 50 bytes)) d in
    subst
      (λ frame.
        (encode_wire_frame (header_of frame) frame.nonce frame.ciphertext ≡ ok bytes)
        × (frame.ciphertext_length ≡ length frame.ciphertext))
      (of_ok h4) (encoded bytes header b d' (sized n short none_left long), sym short)
  where
    long_enough : (k : ℕ) → not (ltb k 62) ≡ true → 62 ≤ k
    long_enough k h = ground arith

    sized :
        (n : ℕ)
        → length (subarray bytes 62 (62 + n)) ≡ n
        → length bytes - 62 - n ≡ 0
        → not (ltb (length bytes) 62) ≡ true
        → length bytes ≡ 62 + n
    sized n s t l = omega (
      arith,
      length-take (62 + n - 62) (drop 62 bytes),
      length-drop 62 bytes,
      long_enough (length bytes) l,
    )
