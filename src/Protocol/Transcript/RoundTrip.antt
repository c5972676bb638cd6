-- ===== src/Protocol/Transcript/RoundTrip.antt =====
-- An encoded transcript is decoded to what it was, and stands for no other.
use fuck_chat_control.Base.{
  ℕ, ◌≡◌, refl, sym, ap, ◌∙◌, Bool, List, ◌∷◌, ◌++◌, if◌then◌else◌, ◌==◌, ==_iff, arith, length,
  length-append, get_or,
}
use fuck_chat_control.Base.Result.{ok, require, >>=-eq-ok, require-eq-ok, of_ok}
use fuck_chat_control.Protocol.Bytes.{subarray}
use fuck_chat_control.Protocol.Keys.{encode_public_key}
use fuck_chat_control.Protocol.Transcript.{
  AuthMode, safety_number_only, pake, auth_mode_code, assert_auth_mode, Transcript,
  transcript_layout, encode_transcript, decode_transcript,
}
use fuck_chat_control.Protocol.Transcript.Layout.{IsEncodable, IsLaidOut, layout-IsLaidOut}

encoded :
    (t : Transcript) {b : List ℕ}
    → encode_transcript t ≡ ok b
    → IsEncodable t × (transcript_layout t ≡ b)
unfolding encode_transcript
encoded t h =
    let (_, a, h1) = >>=-eq-ok (require (t.transcript_version == 1) _) _ h in
    let (_, b, h2) = >>=-eq-ok (require (t.protocol_version == 1) _) _ h1 in
    let (_, c, h3) = >>=-eq-ok (require (length t.conversation_id == 16) _) _ h2 in
    let (_, d, h4) = >>=-eq-ok (require (length t.initiator_identity_key == 65) _) _ h3 in
    let (_, e, h5) = >>=-eq-ok (require (length t.responder_identity_key == 65) _) _ h4 in
    let (_, f, h6) = >>=-eq-ok (require (length t.initiator_ephemeral_key == 65) _) _ h5 in
    let (_, g, h7) = >>=-eq-ok (require (length t.responder_ephemeral_key == 65) _) _ h6 in
    let (_, i, h8) = >>=-eq-ok (require (length t.initiator_session_id == 32) _) _ h7 in
    let (_, j, h9) = >>=-eq-ok (require (length t.responder_session_id == 32) _) _ h8 in
    (
      record {
        version = (==_iff _ _).0 (require-eq-ok _ _ a);
        protocol = (==_iff _ _).0 (require-eq-ok _ _ b);
        conversation = (==_iff _ _).0 (require-eq-ok _ _ c);
        initiator_key = (==_iff _ _).0 (require-eq-ok _ _ d);
        responder_key = (==_iff _ _).0 (require-eq-ok _ _ e);
        initiator_ephemeral = (==_iff _ _).0 (require-eq-ok _ _ f);
        responder_ephemeral = (==_iff _ _).0 (require-eq-ok _ _ g);
        initiator_session = (==_iff _ _).0 (require-eq-ok _ _ i);
        responder_session = (==_iff _ _).0 (require-eq-ok _ _ j);
      },
      of_ok h9,
    )

-- The parts, read without a check.
mode_of : ℕ → AuthMode
mode_of value = if value == 1 then safety_number_only else pake

read_back : List ℕ → Transcript
read_back b = record {
  transcript_version = get_or b 0 0;
  protocol_version = get_or b 1 0;
  conversation_id = subarray b 2 18;
  auth_mode = mode_of (get_or b 18 0);
  initiator_identity_key = subarray b 19 84;
  responder_identity_key = subarray b 84 149;
  initiator_ephemeral_key = subarray b 149 214;
  responder_ephemeral_key = subarray b 214 279;
  initiator_session_id = subarray b 279 311;
  responder_session_id = subarray b 311 343;
}

mode_of-auth_mode_code : (m : AuthMode) → mode_of (auth_mode_code m) ≡ m
unfolding mode_of
mode_of-auth_mode_code safety_number_only = refl
mode_of-auth_mode_code pake = refl

assert_auth_mode-auth_mode_code : (m : AuthMode) → assert_auth_mode (auth_mode_code m) ≡ ok m
assert_auth_mode-auth_mode_code safety_number_only = refl
assert_auth_mode-auth_mode_code pake = refl

read_back-IsLaidOut : (t : Transcript) (b : List ℕ) → IsLaidOut t b → read_back b ≡ t
unfolding read_back
read_back-IsLaidOut t b l =
    rw
      (
        l.version,
        l.protocol,
        l.conversation,
        l.mode,
        mode_of-auth_mode_code t.auth_mode,
        l.initiator_key,
        l.responder_key,
        l.initiator_ephemeral,
        l.responder_ephemeral,
        l.initiator_session,
        l.responder_session,
      )
      refl

read_back-encode_transcript :
    (t : Transcript) {b : List ℕ} → encode_transcript t ≡ ok b → read_back b ≡ t
read_back-encode_transcript t h =
    let (e, same) = encoded t h in
    ap read_back (sym same) ∙ read_back-IsLaidOut t (transcript_layout t) (layout-IsLaidOut t e)

-- Two transcripts with the same bytes are the same: a signature over the bytes is one over every part.
pub encode_transcript_injective :
    (t u : Transcript) {b : List ℕ}
    → encode_transcript t ≡ ok b
    → encode_transcript u ≡ ok b
    → t ≡ u
encode_transcript_injective t u h k =
    sym (read_back-encode_transcript t h) ∙ read_back-encode_transcript u k

-- The four keys pass the check of keys.
pub record HasKeys (is_point : List ℕ → Bool) (t : Transcript) : Type 0 where
  pub initiator_key :
      encode_public_key is_point t.initiator_identity_key ≡ ok t.initiator_identity_key
  pub responder_key :
      encode_public_key is_point t.responder_identity_key ≡ ok t.responder_identity_key
  pub initiator_ephemeral :
      encode_public_key is_point t.initiator_ephemeral_key ≡ ok t.initiator_ephemeral_key
  pub responder_ephemeral :
      encode_public_key is_point t.responder_ephemeral_key ≡ ok t.responder_ephemeral_key

length-transcript_layout : (t : Transcript) → IsEncodable t → length (transcript_layout t) ≡ 343
length-transcript_layout t e =
    let s = t.initiator_session_id ++ t.responder_session_id in
    let k4 = t.responder_ephemeral_key ++ s in
    let k3 = t.initiator_ephemeral_key ++ k4 in
    let k2 = t.responder_identity_key ++ k3 in
    let k1 = t.initiator_identity_key ++ k2 in
    omega (
      arith,
      e.conversation,
      e.initiator_key,
      e.responder_key,
      e.initiator_ephemeral,
      e.responder_ephemeral,
      e.initiator_session,
      e.responder_session,
      length-append t.conversation_id (auth_mode_code t.auth_mode ∷ k1),
      length-append t.initiator_identity_key k2,
      length-append t.responder_identity_key k3,
      length-append t.initiator_ephemeral_key k4,
      length-append t.responder_ephemeral_key s,
      length-append t.initiator_session_id t.responder_session_id,
    )

laid_out-decoded :
    (is_point : List ℕ → Bool) (t : Transcript) (b : List ℕ)
    → IsEncodable t
    → HasKeys is_point t
    → IsLaidOut t b
    → length b ≡ 343
    → decode_transcript is_point b ≡ ok t
unfolding decode_transcript
laid_out-decoded is_point t b e k l n =
    rw
      (
        (==_iff _ _).1 n,
        l.version,
        (==_iff _ _).1 e.version,
        l.protocol,
        (==_iff _ _).1 e.protocol,
        l.conversation,
        (==_iff _ _).1 e.conversation,
        l.mode,
        assert_auth_mode-auth_mode_code t.auth_mode,
        l.initiator_key,
        k.initiator_key,
        l.responder_key,
        k.responder_key,
        l.initiator_ephemeral,
        k.initiator_ephemeral,
        l.responder_ephemeral,
        k.responder_ephemeral,
        l.initiator_session,
        (==_iff _ _).1 e.initiator_session,
        l.responder_session,
        (==_iff _ _).1 e.responder_session,
      )
      refl

-- A transcript that the encoder accepts is decoded to what it was, if its keys pass the check of keys.
pub decode_transcript-encode_transcript :
    (is_point : List ℕ → Bool) (t : Transcript) {b : List ℕ}
    → HasKeys is_point t
    → encode_transcript t ≡ ok b
    → decode_transcript is_point b ≡ ok t
decode_transcript-encode_transcript is_point t k h =
    let (e, same) = encoded t h in
    ap (decode_transcript is_point) (sym same)
    ∙ laid_out-decoded is_point t (transcript_layout t) e k (layout-IsLaidOut t e)
        (length-transcript_layout t e)
