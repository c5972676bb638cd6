-- ===== src/Protocol/Transcript/Layout.antt =====
-- A transcript that was encoded is read back, part after part.
use fuck_chat_control.Base.{
  ℕ, zero, suc, ◌+◌, ◌-◌, ◌≡◌, refl, sym, ap, ◌∙◌, List, [], ◌∷◌, ◌++◌, arith, length, get_or, take,
  drop,
}
use fuck_chat_control.Protocol.Bytes.{subarray, append_nil, take-append, drop-append}
use fuck_chat_control.Protocol.Transcript.{auth_mode_code, Transcript, transcript_layout}

drop-drop : (xs : List ℕ) (o n : ℕ) → drop (o + n) xs ≡ drop n (drop o xs)
drop-drop xs zero n = ap (λ k. drop k xs) {y = n} (omega arith)
drop-drop [] (suc o) zero = ap (λ k. drop {A = ℕ} k []) {x = suc o + 0} {y = suc o} (omega arith)
drop-drop [] (suc o) (suc n) =
    ap (λ k. drop {A = ℕ} k []) {x = suc o + suc n} {y = suc (o + suc n)} (omega arith)
drop-drop (x ∷ xs) (suc o) n =
    ap (λ k. drop k (x ∷ xs)) {x = suc o + n} {y = suc (o + n)} (omega arith) ∙ drop-drop xs o n

-- A part that stands at an offset, and what is behind it.
part :
    (b x rest : List ℕ) (i n : ℕ)
    → drop i b ≡ x ++ rest
    → length x ≡ n
    → (subarray b i (i + n) ≡ x) × (drop (i + n) b ≡ rest)
part b x rest i n e l = (
  ap (λ k. take k (drop i b)) {x = i + n - i} {y = n} (omega arith)
      ∙ ap (take n) e
      ∙ take-append x rest n l,
  drop-drop b i n ∙ ap (drop n) e ∙ drop-append x rest n l,
)

byte_at : (b : List ℕ) (i x : ℕ) (rest : List ℕ) → drop i b ≡ x ∷ rest → get_or b i 0 ≡ x
byte_at [] zero x rest e = absurd (cc)
byte_at [] (suc i) x rest e = absurd (cc)
byte_at (y ∷ b) zero x rest e = ap (λ l. get_or l 0 0) e
byte_at (y ∷ b) (suc i) x rest e = byte_at b i x rest e

pub record IsEncodable (t : Transcript) : Type 0 where
  pub version : t.transcript_version ≡ 1
  pub protocol : t.protocol_version ≡ 1
  pub conversation : length t.conversation_id ≡ 16
  pub initiator_key : length t.initiator_identity_key ≡ 65
  pub responder_key : length t.responder_identity_key ≡ 65
  pub initiator_ephemeral : length t.initiator_ephemeral_key ≡ 65
  pub responder_ephemeral : length t.responder_ephemeral_key ≡ 65
  pub initiator_session : length t.initiator_session_id ≡ 32
  pub responder_session : length t.responder_session_id ≡ 32

-- The bytes of a transcript, where the decoder reads them.
pub record IsLaidOut (t : Transcript) (b : List ℕ) : Type 0 where
  pub version : get_or b 0 0 ≡ t.transcript_version
  pub protocol : get_or b 1 0 ≡ t.protocol_version
  pub conversation : subarray b 2 18 ≡ t.conversation_id
  pub mode : get_or b 18 0 ≡ auth_mode_code t.auth_mode
  pub initiator_key : subarray b 19 84 ≡ t.initiator_identity_key
  pub responder_key : subarray b 84 149 ≡ t.responder_identity_key
  pub initiator_ephemeral : subarray b 149 214 ≡ t.initiator_ephemeral_key
  pub responder_ephemeral : subarray b 214 279 ≡ t.responder_ephemeral_key
  pub initiator_session : subarray b 279 311 ≡ t.initiator_session_id
  pub responder_session : subarray b 311 343 ≡ t.responder_session_id

pub layout-IsLaidOut : (t : Transcript) → IsEncodable t → IsLaidOut t (transcript_layout t)
layout-IsLaidOut t e =
    let b = transcript_layout t in
    let (c, d18) = part b t.conversation_id _ 2 16 refl e.conversation in
    let (_, d19) = part b (auth_mode_code t.auth_mode ∷ []) _ 18 1 d18 refl in
    let (k1, d84) = part b t.initiator_identity_key _ 19 65 d19 e.initiator_key in
    let (k2, d149) = part b t.responder_identity_key _ 84 65 d84 e.responder_key in
    let (k3, d214) = part b t.initiator_ephemeral_key _ 149 65 d149 e.initiator_ephemeral in
    let (k4, d279) = part b t.responder_ephemeral_key _ 214 65 d214 e.responder_ephemeral in
    let (s1, d311) = part b t.initiator_session_id _ 279 32 d279 e.initiator_session in
    let (s2, _) =
      part b t.responder_session_id [] 311 32 (d311 ∙ sym (append_nil t.responder_session_id))
        e.responder_session in
    record {
      version = refl;
      protocol = refl;
      conversation = c;
      mode = byte_at b 18 _ _ d18;
      initiator_key = k1;
      responder_key = k2;
      initiator_ephemeral = k3;
      responder_ephemeral = k4;
      initiator_session = s1;
      responder_session = s2;
    }
