-- ===== src/Protocol/Codec/Header.antt =====
-- The header of a frame: writing and reading agree in both directions.
use fuck_chat_control.Base.{
  ℕ, zero, suc, ◌+◌, ◌≤◌, ◌≡◌, refl, sym, ap, ap2, ◌∙◌, subst, List, [], ◌∷◌, ◌++◌, leb→le, ==_iff,
  arith, length, length-append, take, replicate,
}
use fuck_chat_control.Base.Result.{ok, require, >>=-eq-ok, require-eq-ok, of_ok}
use fuck_chat_control.Protocol.Limits.{uint32_max}
use fuck_chat_control.Protocol.Types.{FrameHeader}
use fuck_chat_control.Protocol.Bytes.{
  put, subarray, uint32_be, write_uint32_be, read_uint32_be, Bytes, append_nil, put-written,
  write-written, read_uint32_be-append, take-append, read-uint32_be,
}
use fuck_chat_control.Protocol.Bytes.Slices.{drop-take, drop-read_uint32_be, drop_all}
use fuck_chat_control.Protocol.Codec.{
  ciphertext_cap_for_frame_type, assert_exact_length, assert_uint32, assert_aad_fields, decode_aad,
  encode_frame_header, decode_frame_header,
}
use fuck_chat_control.Protocol.Codec.Aad.{
  IsEncodable, aad_layout, length-aad_layout, assert_aad_fields-ok, assert_aad_fields-IsEncodable,
  fill_aad-layout, decode_aad-layout, decode_aad_sound, le→leb,
}

abbrev pub header_layout : FrameHeader → List ℕ
header_layout header = aad_layout header.aad ++ uint32_be header.ciphertext_length

-- What the encoder asks of a header.
pub record IsSendable (header : FrameHeader) : Type 0 where
  pub aad : IsEncodable header.aad
  pub uint32 : header.ciphertext_length ≤ uint32_max
  pub capped : header.ciphertext_length ≤ ciphertext_cap_for_frame_type header.aad.frame_type

pub length-header_layout :
    (header : FrameHeader) → IsSendable header → length (header_layout header) ≡ 50
length-header_layout header e = omega (
  arith,
  length-append (aad_layout header.aad) (uint32_be header.ciphertext_length),
  length-aad_layout header.aad e.aad.session,
)

pub encode_frame_header-ok :
    (header : FrameHeader)
    → IsSendable header
    → encode_frame_header header ≡ ok (header_layout header)
unfolding encode_frame_header
encode_frame_header-ok header e =
    rw
      (
        assert_aad_fields-ok header.aad e.aad,
        le→leb _ _ e.uint32,
        le→leb _ _ e.capped,
        fill_aad-layout header.aad e.aad.session,
      )
      (ap ok written)
  where
    sized : length (aad_layout header.aad) ≡ 46
    sized = length-aad_layout header.aad e.aad.session

    written :
        write_uint32_be (put (replicate 50 0) 0 (aad_layout header.aad)) 46 header.ciphertext_length
        ≡ header_layout header
    written =
        write-written (aad_layout header.aad) header.ciphertext_length 46 0 4
          (put-written [] (aad_layout header.aad) 0 4 50 refl refl (omega (arith, sized))) sized
          refl
        ∙ append_nil (header_layout header)

pub encode_frame_header-IsSendable :
    (header : FrameHeader) (bytes : List ℕ)
    → encode_frame_header header ≡ ok bytes
    → IsSendable header × (bytes ≡ header_layout header)
unfolding encode_frame_header
encode_frame_header-IsSendable header bytes h =
    let (_, a, h1) = >>=-eq-ok (assert_aad_fields header.aad) _ h in
    let (_, u, h2) = >>=-eq-ok (assert_uint32 header.ciphertext_length) _ h1 in
    let (_, c, h3) = >>=-eq-ok (require _ _) _ h2 in
    let e : IsSendable header = record {
      aad = assert_aad_fields-IsEncodable header.aad a;
      uint32 = leb→le _ _ (require-eq-ok _ _ u);
      capped = leb→le _ _ (require-eq-ok _ _ c);
    } in
    (e, of_ok (sym h ∙ encode_frame_header-ok header e))

pub decode_frame_header-layout :
    (header : FrameHeader)
    → IsSendable header
    → decode_frame_header (header_layout header) ≡ ok header
unfolding decode_frame_header
decode_frame_header-layout header e =
    rw
      (
        (==_iff _ _).1 (length-header_layout header e),
        front,
        number,
        le→leb _ _ e.uint32,
        le→leb _ _ e.capped,
      )
      refl
  where
    sized : length (aad_layout header.aad) ≡ 46
    sized = length-aad_layout header.aad e.aad.session

    front : decode_aad (subarray (header_layout header) 0 46) ≡ ok header.aad
    front =
        ap decode_aad
          (take-append (aad_layout header.aad) (uint32_be header.ciphertext_length) 46 sized)
        ∙ decode_aad-layout header.aad e.aad

    number : read_uint32_be (header_layout header) 46 ≡ header.ciphertext_length
    number =
        read_uint32_be-append (aad_layout header.aad) (uint32_be header.ciphertext_length) 0 46
          sized
        ∙ read-uint32_be header.ciphertext_length [] (omega (arith, e.uint32))

-- A frame header that the encoder writes is read back as it was.
pub decode_frame_header-encode_frame_header :
    (header : FrameHeader) (bytes : List ℕ)
    → encode_frame_header header ≡ ok bytes
    → decode_frame_header bytes ≡ ok header
decode_frame_header-encode_frame_header header bytes h =
    let (e, l) = encode_frame_header-IsSendable header bytes h in
    rw l (decode_frame_header-layout header e)

pub Bytes-take : (xs : List ℕ) (n : ℕ) → Bytes xs → Bytes (take n xs)
Bytes-take xs zero b = tt
Bytes-take [] (suc n) b = tt
Bytes-take (x ∷ xs) (suc n) (h, b) = (h, Bytes-take xs n b)

pub decode_frame_header-IsSendable :
    (bytes : List ℕ) (header : FrameHeader)
    → Bytes bytes
    → decode_frame_header bytes ≡ ok header
    → IsSendable header × (bytes ≡ header_layout header)
unfolding decode_frame_header
decode_frame_header-IsSendable bytes header b h =
    let (_, l, h1) = >>=-eq-ok (assert_exact_length bytes 50) _ h in
    let sized : length bytes ≡ 50 = (==_iff _ _).0 (require-eq-ok _ _ l) in
    let room : 46 + 4 ≤ length bytes = omega (arith, sized) in
    let (aad, a, h2) = >>=-eq-ok (decode_aad (subarray bytes 0 46)) _ h1 in
    let (_, u, h3) = >>=-eq-ok (assert_uint32 (read_uint32_be bytes 46)) _ h2 in
    let (_, c, h4) = >>=-eq-ok (require _ _) _ h3 in
    let (e, s) = decode_aad_sound (take 46 bytes) aad (Bytes-take bytes 46 b) a in
    subst (λ header. IsSendable header × (bytes ≡ header_layout header)) (of_ok h4)
      (
        record {
          aad = e;
          uint32 = leb→le _ _ (require-eq-ok _ _ u);
          capped = leb→le _ _ (require-eq-ok _ _ c);
        },
        drop-take bytes 0 46
            ∙ ap2 (λ x y. x ++ y) s
                (drop-read_uint32_be bytes 46 b room
                  ∙ ap (λ r. uint32_be (read_uint32_be bytes 46) ++ r) (drop_all bytes 50 sized)),
      )

-- A byte array that is read as a frame header is the one that the encoder writes for it.
pub encode_frame_header-decode_frame_header :
    (bytes : List ℕ) (header : FrameHeader)
    → Bytes bytes
    → decode_frame_header bytes ≡ ok header
    → encode_frame_header header ≡ ok bytes
encode_frame_header-decode_frame_header bytes header b h =
    let (e, l) = decode_frame_header-IsSendable bytes header b h in
    encode_frame_header-ok header e ∙ ap ok (sym l)
