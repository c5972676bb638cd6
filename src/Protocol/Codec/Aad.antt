-- ===== src/Protocol/Codec/Aad.antt =====
-- The additional data of a frame: writing and reading agree in both directions.
use fuck_chat_control.Base.{
  ℕ, ◌+◌, ◌≤◌, ◌≡◌, refl, sym, ap, ◌∙◌, true, Option, none, some, List, [], ◌∷◌, ◌++◌, leb, ◌==◌,
  ==_iff, arith, length, length-append, get_or, subst, ap2, leb→le,
}
use fuck_chat_control.Base.Result.{ok, >>=-eq-ok, require-eq-ok, of_ok}
use fuck_chat_control.Protocol.Limits.{uint32_max}
use fuck_chat_control.Protocol.Types.{
  FrameType, frame_type_code, frame_type_of, FrameAad, frame_type_of-frame_type_code,
  frame_type_code-frame_type_of,
}
use fuck_chat_control.Protocol.Bytes.{
  subarray, uint32_be, read_uint32_be, Bytes, append_assoc, append_nil, put-written, write-written,
  get_or-append, read_uint32_be-append, take-append, read-uint32_be,
}
use fuck_chat_control.Protocol.Bytes.Slices.{drop-get_or, drop-take, drop-read_uint32_be, drop_all}
use fuck_chat_control.Protocol.Codec.{
  assert_protocol_version, assert_exact_length, assert_uint32, known_type, assert_frame_type,
  encode_session_id, assert_aad_fields, assert_frame_field_relations, fill_aad, encode_aad,
  decode_aad,
}

abbrev pub tail_layout : FrameAad → List ℕ
tail_layout aad =
    uint32_be aad.sender_sequence
    ++ (frame_type_code aad.frame_type ∷ uint32_be aad.transfer_id ++ uint32_be aad.chunk_id)

-- The fields of the additional data one after the other.
abbrev pub aad_layout : FrameAad → List ℕ
aad_layout aad = aad.protocol_version ∷ aad.sender_session_id ++ tail_layout aad

pub fill_aad-layout :
    (aad : FrameAad) → length aad.sender_session_id ≡ 32 → fill_aad aad ≡ aad_layout aad
fill_aad-layout aad h =
    write-written d4 aad.chunk_id 42 0 4
      (write-written d3 aad.transfer_id 38 4 8
        (put-written d2 (frame_type_code aad.frame_type ∷ []) 37 8 9
          (write-written d1 aad.sender_sequence 33 9 13
            (put-written (aad.protocol_version ∷ []) aad.sender_session_id 1 13 45 refl refl
              (omega arith))
            (omega arith) refl)
          (grown d1 (uint32_be aad.sender_sequence) 33 (omega arith)) refl)
        (grown d2 (frame_type_code aad.frame_type ∷ []) 37
          (grown d1 (uint32_be aad.sender_sequence) 33 (omega arith)))
        refl)
      (grown d3 (uint32_be aad.transfer_id) 38 (
        grown d2 (frame_type_code aad.frame_type ∷ []) 37
          (grown d1 (uint32_be aad.sender_sequence) 33 (omega arith))))
      refl
    ∙ append_nil (d4 ++ uint32_be aad.chunk_id)
    ∙ rw (append_assoc, append_assoc, append_assoc) refl
  where
    d1 : List ℕ
    d1 = (aad.protocol_version ∷ []) ++ aad.sender_session_id

    d2 : List ℕ
    d2 = d1 ++ uint32_be aad.sender_sequence

    d3 : List ℕ
    d3 = d2 ++ (frame_type_code aad.frame_type ∷ [])

    d4 : List ℕ
    d4 = d3 ++ uint32_be aad.transfer_id

    grown : (done xs : List ℕ) (n : ℕ) → length done ≡ n → length (done ++ xs) ≡ n + length xs
    grown done xs n l = omega (arith, length-append done xs)

pub length-aad_layout :
    (aad : FrameAad) → length aad.sender_session_id ≡ 32 → length (aad_layout aad) ≡ 46
length-aad_layout aad h = omega (arith, length-append aad.sender_session_id (tail_layout aad))

-- What the checks of `assertAadFields` say.
pub record IsEncodable (aad : FrameAad) : Type 0 where
  pub version : aad.protocol_version ≡ 1
  pub session : length aad.sender_session_id ≡ 32
  pub sequence : aad.sender_sequence ≤ uint32_max
  pub transfer : aad.transfer_id ≤ uint32_max
  pub chunk : aad.chunk_id ≤ uint32_max
  pub relations : assert_frame_field_relations aad.frame_type aad.transfer_id aad.chunk_id ≡ ok tt

pub assert_aad_fields-IsEncodable :
    (aad : FrameAad) {u : Unit {0}} → assert_aad_fields aad ≡ ok u → IsEncodable aad
assert_aad_fields-IsEncodable aad h =
    let (_, v, h1) = >>=-eq-ok (assert_protocol_version aad.protocol_version) _ h in
    let (_, s, h2) = >>=-eq-ok (assert_exact_length aad.sender_session_id 32) _ h1 in
    let (_, q, h3) = >>=-eq-ok (assert_uint32 aad.sender_sequence) _ h2 in
    let (_, t, h4) = >>=-eq-ok (assert_uint32 aad.transfer_id) _ h3 in
    let (_, c, h5) = >>=-eq-ok (assert_uint32 aad.chunk_id) _ h4 in
    record {
      version = (==_iff _ _).0 (require-eq-ok _ _ v);
      session = (==_iff _ _).0 (require-eq-ok _ _ s);
      sequence = leb→le _ _ (require-eq-ok _ _ q);
      transfer = leb→le _ _ (require-eq-ok _ _ t);
      chunk = leb→le _ _ (require-eq-ok _ _ c);
      relations = h5;
    }

pub le→leb : (a b : ℕ) → a ≤ b → leb a b ≡ true
le→leb a b h = ground arith

pub decode_aad-layout : (aad : FrameAad) → IsEncodable aad → decode_aad (aad_layout aad) ≡ ok aad
unfolding decode_aad
decode_aad-layout aad e =
    rw
      (
        sized,
        is_version,
        session,
        is_session,
        sequence,
        frame_type,
        transfer,
        chunk,
        known,
        le→leb _ _ e.sequence,
        le→leb _ _ e.transfer,
        le→leb _ _ e.chunk,
        e.relations,
      )
      refl
  where
    first : List ℕ
    first = aad.protocol_version ∷ aad.sender_session_id

    sized : (length (aad_layout aad) == 46) ≡ true
    sized = (==_iff _ _).1 (length-aad_layout aad e.session)

    is_version : (aad.protocol_version == 1) ≡ true
    is_version = (==_iff _ _).1 e.version

    is_session : (length aad.sender_session_id == 32) ≡ true
    is_session = (==_iff _ _).1 e.session

    session : subarray (aad_layout aad) 1 33 ≡ aad.sender_session_id
    session = take-append aad.sender_session_id (tail_layout aad) 32 e.session

    first_length : length first ≡ 33
    first_length = omega (arith, e.session)

    sequence : read_uint32_be (aad_layout aad) 33 ≡ aad.sender_sequence
    sequence =
        read_uint32_be-append first (tail_layout aad) 0 33 first_length
        ∙ read-uint32_be aad.sender_sequence
            (frame_type_code aad.frame_type ∷ uint32_be aad.transfer_id ++ uint32_be aad.chunk_id)
            (omega (arith, e.sequence))

    frame_type : get_or (aad_layout aad) 37 0 ≡ frame_type_code aad.frame_type
    frame_type = get_or-append first (tail_layout aad) 4 33 first_length

    known : assert_frame_type (frame_type_code aad.frame_type) ≡ ok aad.frame_type
    known = ap known_type (frame_type_of-frame_type_code aad.frame_type)

    transfer : read_uint32_be (aad_layout aad) 38 ≡ aad.transfer_id
    transfer =
        read_uint32_be-append first (tail_layout aad) 5 33 first_length
        ∙ read-uint32_be aad.transfer_id (uint32_be aad.chunk_id) (omega (arith, e.transfer))

    chunk : read_uint32_be (aad_layout aad) 42 ≡ aad.chunk_id
    chunk =
        read_uint32_be-append first (tail_layout aad) 9 33 first_length
        ∙ read-uint32_be aad.chunk_id [] (omega (arith, e.chunk))

pub encode_aad-layout :
    (aad : FrameAad) (bytes : List ℕ)
    → encode_aad aad ≡ ok bytes
    → IsEncodable aad × (bytes ≡ aad_layout aad)
unfolding encode_aad
encode_aad-layout aad bytes h =
    let (u, a, h1) = >>=-eq-ok (assert_aad_fields aad) (λ _. ok (fill_aad aad)) h in
    let e = assert_aad_fields-IsEncodable aad a in
    (e, sym (of_ok h1) ∙ fill_aad-layout aad e.session)

pub decode_aad-encode_aad :
    (aad : FrameAad) (bytes : List ℕ) → encode_aad aad ≡ ok bytes → decode_aad bytes ≡ ok aad
decode_aad-encode_aad aad bytes h =
    let (e, l) = encode_aad-layout aad bytes h in rw l (decode_aad-layout aad e)

-- Reading is canonical.
pub decode_aad_sound :
    (bytes : List ℕ) (aad : FrameAad)
    → Bytes bytes
    → decode_aad bytes ≡ ok aad
    → IsEncodable aad × (bytes ≡ aad_layout aad)
unfolding decode_aad
decode_aad_sound bytes aad b h =
    let (_, l, h1) = >>=-eq-ok (assert_exact_length bytes 46) _ h in
    let sized : length bytes ≡ 46 = (==_iff _ _).0 (require-eq-ok _ _ l) in
    let (_, v, h2) = >>=-eq-ok (assert_protocol_version (get_or bytes 0 0)) _ h1 in
    let (sid, s, h3) = >>=-eq-ok (encode_session_id (subarray bytes 1 33)) _ h2 in
    let (t, f, h4) = >>=-eq-ok (assert_frame_type (get_or bytes 37 0)) _ h3 in
    let (_, q, h5) = >>=-eq-ok (assert_uint32 (read_uint32_be bytes 33)) _ h4 in
    let (_, tr, h6) = >>=-eq-ok (assert_uint32 (read_uint32_be bytes 38)) _ h5 in
    let (_, ch, h7) = >>=-eq-ok (assert_uint32 (read_uint32_be bytes 42)) _ h6 in
    let (_, r, h8) =
      >>=-eq-ok (assert_frame_field_relations t (read_uint32_be bytes 38) (read_uint32_be bytes 42))
        _ h7 in
    let (_, s1, s2) = >>=-eq-ok (assert_exact_length (subarray bytes 1 33) 32) _ s in
    subst (λ aad. IsEncodable aad × (bytes ≡ aad_layout aad)) (of_ok h8)
      (
        record {
          version = (==_iff _ _).0 (require-eq-ok _ _ v);
          session = ap length (sym (of_ok s2)) ∙ (==_iff _ _).0 (require-eq-ok _ _ s1);
          sequence = leb→le _ _ (require-eq-ok _ _ q);
          transfer = leb→le _ _ (require-eq-ok _ _ tr);
          chunk = leb→le _ _ (require-eq-ok _ _ ch);
          relations = r;
        },
        parts bytes sid t b sized (of_ok s2) (of_known (frame_type_of (get_or bytes 37 0)) f),
      )
  where
    of_known : {t : FrameType} (o : Option FrameType) → known_type o ≡ ok t → o ≡ some t
    of_known none e = absurd (cc)
    of_known (some t') e = ap some (of_ok e)

    parts :
        (bytes sid : List ℕ) (t : FrameType)
        → Bytes bytes
        → length bytes ≡ 46
        → subarray bytes 1 33 ≡ sid
        → frame_type_of (get_or bytes 37 0) ≡ some t
        → bytes
          ≡ get_or bytes 0 0 ∷ sid
            ++ (uint32_be (read_uint32_be bytes 33)
                ++ (frame_type_code t ∷ uint32_be (read_uint32_be bytes 38)
                    ++ uint32_be (read_uint32_be bytes 42)))
    parts bytes sid t b l s f =
        drop-get_or bytes 0 (omega (arith, l))
        ∙ ap (λ r. get_or bytes 0 0 ∷ r)
            (drop-take bytes 1 32
              ∙ ap2 (λ x y. x ++ y) s
                  (drop-read_uint32_be bytes 33 b (omega (arith, l))
                    ∙ ap (λ r. uint32_be (read_uint32_be bytes 33) ++ r)
                        (drop-get_or bytes 37 (omega (arith, l))
                          ∙ ap2 (λ x y. x ∷ y)
                              (sym (frame_type_code-frame_type_of (get_or bytes 37 0) t f))
                              (drop-read_uint32_be bytes 38 b (omega (arith, l))
                                ∙ ap (λ r. uint32_be (read_uint32_be bytes 38) ++ r)
                                    (drop-read_uint32_be bytes 42 b (omega (arith, l))
                                      ∙ ap (λ r. uint32_be (read_uint32_be bytes 42) ++ r)
                                          (drop_all bytes 46 l))))))

pub assert_aad_fields-ok : (aad : FrameAad) → IsEncodable aad → assert_aad_fields aad ≡ ok tt
assert_aad_fields-ok aad e =
    rw
      (
        (==_iff aad.protocol_version 1).1 e.version,
        (==_iff (length aad.sender_session_id) 32).1 e.session,
        le→leb _ _ e.sequence,
        le→leb _ _ e.transfer,
        le→leb _ _ e.chunk,
      )
      e.relations

pub encode_aad-ok : (aad : FrameAad) → IsEncodable aad → encode_aad aad ≡ ok (aad_layout aad)
unfolding encode_aad
encode_aad-ok aad e = rw (assert_aad_fields-ok aad e) (ap ok (fill_aad-layout aad e.session))
