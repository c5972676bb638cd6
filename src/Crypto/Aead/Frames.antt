-- ===== src/Crypto/Aead/Frames.antt =====
-- Frames that are encrypted and decrypted.
use fuck_chat_control.Base.{
  ℕ, ◌≡◌, refl, ap, ◌∙◌, subst, true, false, some, List, [], ◌∷◌, leb, ◌==◌, ==_iff, arith, length,
  str_beq, str_beq_iff,
}
use fuck_chat_control.Base.Result.{Result, ok, err, require, >>=-eq-ok, of_ok}
use fuck_chat_control.Protocol.Types.{FrameAad}
use fuck_chat_control.Protocol.Codec.{encode_aad}
use fuck_chat_control.Protocol.Nonce.{derive_nonce}
use fuck_chat_control.Protocol.Nonce.Distinct.{length-derive_nonce}
use fuck_chat_control.Crypto.ReplayWindow.{ReplayWindow, observe, new_window, invalid_argument}
use fuck_chat_control.Crypto.ReplayWindow.History.{Represents, seen, is_fresh}
use fuck_chat_control.Crypto.ReplayWindow.Refinement.{
  Agrees, observe-Agrees, fresh-not_seen, new_window-Represents, Unique,
}
use fuck_chat_control.Crypto.Aead.{
  Cipher, AeadFailure, crypto, of_codec, of_crypto, verified, assert_uint32_sequence,
  EncryptedFrame, encrypt_frame, decrypt_frame,
}

-- A frame as it comes in.
pub record Incoming : Type 0 where
  pub aad : FrameAad
  pub nonce : List ℕ
  pub ciphertext : List ℕ

of_of_crypto : {A : Type 0} (r : Result _ A) {a : A} → of_crypto r ≡ ok a → r ≡ ok a
of_of_crypto (ok a) h = ap ok (of_ok h)
of_of_crypto (err e) h = absurd (cc)

module _ (cipher : Cipher) (key : List ℕ) where
  decrypt_frame-observe :
      (w w' : ReplayWindow) (f : Incoming) (p : List ℕ)
      → decrypt_frame cipher key w f.aad f.nonce f.ciphertext ≡ ok (w', p)
      → observe w f.aad.sender_sequence ≡ ok w'
  unfolding decrypt_frame
  decrypt_frame-observe w w' f p h =
      let (_, _, h1) = >>=-eq-ok (require (length f.nonce == 12) _) _ h in
      let (_, _, h2) = >>=-eq-ok (assert_uint32_sequence f.aad.sender_sequence) _ h1 in
      let (n, _, h3) =
        >>=-eq-ok (of_codec (derive_nonce f.aad.sender_session_id f.aad.sender_sequence)) _ h2 in
      let (_, _, h4) = >>=-eq-ok (require (str_beq f.nonce n) _) _ h3 in
      let (a, _, h5) = >>=-eq-ok (of_codec (encode_aad f.aad)) _ h4 in
      let (t, _, h6) = >>=-eq-ok (verified (cipher.unseal key f.nonce a f.ciphertext)) _ h5 in
      let (m, o, h7) = >>=-eq-ok (of_crypto (observe w f.aad.sender_sequence)) _ h6 in
      of_of_crypto (observe w f.aad.sender_sequence) (o ∙ ap ok (ap (λ q. q.0) (of_ok h7)))

  -- The sequence numbers of the frames that a receiver decrypts, one frame after the other.
  abbrev pub decrypted : ReplayWindow → List Incoming → List ℕ
  decrypted w [] = []
  decrypted w (f ∷ frames) = elim (decrypt_frame cipher key w f.aad f.nonce f.ciphertext) [
    | ok q ↦ f.aad.sender_sequence ∷ decrypted q.0 frames
    | err e ↦ decrypted w frames
  ]

  decrypted-Unique_from :
      (w : ReplayWindow) (past : List ℕ) (frames : List Incoming)
      → Represents w past
      → Unique (decrypted w frames)
        × ((y : ℕ) → seen y past ≡ true → seen y (decrypted w frames) ≡ false)
  decrypted-Unique_from w past [] r = (tt, λ y s. refl)
  decrypted-Unique_from w past (f ∷ frames) r =
      go (decrypt_frame cipher key w f.aad f.nonce f.ciphertext) refl
        (λ w' p r'. decrypted-Unique_from w' p frames r')
    where
      x : ℕ
      x = f.aad.sender_sequence

      accept :
          (w' : ReplayWindow)
          → observe w x ≡ ok w'
          → (is_fresh w.size past x ≡ true) × Represents w' (x ∷ past)
      accept w' o =
          let (s, _, r') = subst (Agrees w past x) o (observe-Agrees w past x r) in (s, r')

      go :
          (o : Result AeadFailure (ReplayWindow × List ℕ))
          → decrypt_frame cipher key w f.aad f.nonce f.ciphertext ≡ o
          → ((w' : ReplayWindow) (p : List ℕ)
              → Represents w' p
              → Unique (decrypted w' frames)
                × ((y : ℕ) → seen y p ≡ true → seen y (decrypted w' frames) ≡ false))
          → Unique (elim o as (λ _. List ℕ) [
            | ok q ↦ x ∷ decrypted q.0 frames
            | err e ↦ decrypted w frames
          ])
            × ((y : ℕ)
                → seen y past ≡ true
                → seen y (elim o as (λ _. List ℕ) [
                  | ok q ↦ x ∷ decrypted q.0 frames
                  | err e ↦ decrypted w frames
                ])
                  ≡ false)
      go (err e) h rest = rest w past r
      go (ok (w', p)) h rest =
          let (s, r') = accept w' (decrypt_frame-observe w w' f p h) in
          let (u, n) = rest w' (x ∷ past) r' in
          ((n x (ground arith), u), λ y sy. ground (arith, fresh-not_seen w.size x past s, n y, sy))

  -- Of any frames that come in, forged, replayed or reordered, a receiver with a new window decrypts no two with
  -- the same sequence number, whatever the cipher does.
  pub decrypted-Unique :
      (size : ℕ) (w : ReplayWindow) (frames : List Incoming)
      → new_window size ≡ ok w
      → Unique (decrypted w frames)
  decrypted-Unique size w frames h =
      (decrypted-Unique_from w [] frames (new_window-Represents size w h).1).0

  of_of_codec : {A : Type 0} (r : Result _ A) {a : A} → of_codec r ≡ ok a → r ≡ ok a
  of_of_codec (ok a) h = ap ok (of_ok h)
  of_of_codec (err e) h = absurd (cc)

  decrypt_frame-sealed :
      (aad : FrameAad) (plaintext a n : List ℕ) (w w' : ReplayWindow)
      → (cipher.unseal key n a (cipher.seal key n a plaintext) ≡ some plaintext)
      → require (leb aad.sender_sequence 4294967295) (crypto invalid_argument) ≡ ok tt
      → of_codec (encode_aad aad) ≡ ok a
      → of_codec (derive_nonce aad.sender_session_id aad.sender_sequence) ≡ ok n
      → observe w aad.sender_sequence ≡ ok w'
      → decrypt_frame cipher key w aad n (cipher.seal key n a plaintext) ≡ ok (w', plaintext)
  unfolding decrypt_frame
  decrypt_frame-sealed aad plaintext a n w w' opens b ea dn o =
      rw
        (
          (==_iff (length n) 12).1
              (length-derive_nonce aad.sender_session_id n aad.sender_sequence (of_of_codec _ dn)),
          b,
          dn,
          (str_beq_iff n n).1 refl,
          ea,
          opens,
          o,
        )
        refl

  -- With a cipher that opens what it has sealed, a frame that was encrypted is decrypted to its plaintext, if the
  -- window accepts its sequence number.
  pub decrypt_frame-encrypt_frame :
      (aad : FrameAad) (plaintext : List ℕ) (frame : EncryptedFrame) (w w' : ReplayWindow)
      → ((k n a p : List ℕ) → cipher.unseal k n a (cipher.seal k n a p) ≡ some p)
      → encrypt_frame cipher key aad plaintext ≡ ok frame
      → observe w aad.sender_sequence ≡ ok w'
      → decrypt_frame cipher key w aad frame.nonce frame.ciphertext ≡ ok (w', plaintext)
  unfolding encrypt_frame decrypt_frame
  decrypt_frame-encrypt_frame aad plaintext frame w w' opens e o =
      let (_, b, h1) = >>=-eq-ok (assert_uint32_sequence aad.sender_sequence) _ e in
      let (a, ea, h2) = >>=-eq-ok (of_codec (encode_aad aad)) _ h1 in
      let (n, dn, h3) =
        >>=-eq-ok (of_codec (derive_nonce aad.sender_session_id aad.sender_sequence)) _ h2 in
      subst
        (λ frame. decrypt_frame cipher key w aad frame.nonce frame.ciphertext ≡ ok (w', plaintext))
        (of_ok h3) (decrypt_frame-sealed aad plaintext a n w w' (opens key n a plaintext) b ea dn o)
