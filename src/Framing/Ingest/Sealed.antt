-- ===== src/Framing/Ingest/Sealed.antt =====
-- A frame of a sender as it comes in at the peer's receiver.
use fuck_chat_control.Base.{
  ℕ, ◌≡◌, refl, ap, if◌then◌else◌, ◌∙◌, false, some, List, length, str_beq_iff,
}
use fuck_chat_control.Base.Result.{ok, err, of_ok}
use fuck_chat_control.Protocol.Types.{FrameAad, text}
use fuck_chat_control.Crypto.ReplayWindow.{ReplayWindow, observe}
use fuck_chat_control.Crypto.Aead.{EncryptedFrame, encrypt_frame}
use fuck_chat_control.Crypto.Aead.Frames.{decrypt_frame-encrypt_frame}
use fuck_chat_control.Framing.Errors.{Framed}
use fuck_chat_control.Framing.Wire.RoundTrip.{decode_wire_frame-encode_wire_frame}
use fuck_chat_control.Framing.Sender.{of_codec}
use fuck_chat_control.Framing.Sender.Calls as Sender
use fuck_chat_control.Framing.Sender.Steps.{seal_wire}
use fuck_chat_control.Framing.Ingest.{
  Config, Link, quiet, delivering, on_text, open_frame, awaiting, begin_ingest, end_ingest,
  dispatch,
}

of_of_codec : {A : Type 0} (r : Framed A) {a : A} → of_codec r ≡ ok a → r ≡ ok a
of_of_codec (ok a) h = ap ok (of_ok h)
of_of_codec (err e) h = absurd (cc)

module _ (sending : Sender.Config) (config : Config) where
  open_frame-sealed :
      (aad : FrameAad) (plaintext wire : List ℕ) (frame : EncryptedFrame) (l : Link)
      (window : ReplayWindow)
      → ((k n a p : List ℕ) → config.cipher.unseal k n a (config.cipher.seal k n a p) ≡ some p)
      → encrypt_frame config.cipher l.recv_key aad plaintext ≡ ok frame
      → seal_wire sending aad (ok frame) ≡ ok wire
      → aad.sender_session_id ≡ config.peer_session_id
      → observe l.window aad.sender_sequence ≡ ok window
      → open_frame config l wire ≡ ok (record { aad = aad; result = ok (window, plaintext) })
  open_frame-sealed aad plaintext wire frame l window opens sealed written session accepted =
      rw
        (
          decode_wire_frame-encode_wire_frame
              (record { aad = aad; ciphertext_length = length frame.ciphertext }) frame.nonce
              frame.ciphertext wire refl (of_of_codec _ written),
          (str_beq_iff aad.sender_session_id config.peer_session_id).1 session,
          decrypt_frame-encrypt_frame config.cipher l.recv_key aad plaintext frame l.window window
              opens sealed accepted,
        )
        refl

  -- A frame that a sender seals for its session and hands to the transport is, with a cipher that opens what it has
  -- sealed, decrypted by the receiver of that session to its plaintext, if the window accepts its number.
  pub begin_ingest-seal_wire :
      (aad : FrameAad) (plaintext wire : List ℕ) (frame : EncryptedFrame) (l : Link)
      (window : ReplayWindow)
      → ((k n a p : List ℕ) → config.cipher.unseal k n a (config.cipher.seal k n a p) ≡ some p)
      → encrypt_frame config.cipher l.recv_key aad plaintext ≡ ok frame
      → seal_wire sending aad (ok frame) ≡ ok wire
      → aad.sender_session_id ≡ config.peer_session_id
      → l.receiver.torn_down ≡ false
      → observe l.window aad.sender_sequence ≡ ok window
      → begin_ingest config l wire
        ≡ quiet
            (record l { decrypting = some (record { aad = aad; result = ok (window, plaintext) }) })
  unfolding begin_ingest
  begin_ingest-seal_wire aad plaintext wire frame l window opens sealed written session up
        accepted =
      ap (λ b. if b then quiet l else awaiting config l (open_frame config l wire)) up
      ∙ ap (awaiting config l) (
          open_frame-sealed aad plaintext wire frame l window opens sealed written session accepted)

  -- A text that a sender seals for its session is handed over by the receiver of that session as it was sent, if
  -- the window accepts its number and the receiver is not torn down in between.
  pub end_ingest-text :
      (aad : FrameAad) (plaintext : List ℕ) (l : Link) (window : ReplayWindow) (now : ℕ)
      → aad.frame_type ≡ text
      → l.receiver.torn_down ≡ false
      → end_ingest config l now (record { aad = aad; result = ok (window, plaintext) })
        ≡ delivering (record l { window = window }) (on_text plaintext)
  unfolding end_ingest
  end_ingest-text aad plaintext l window now t up =
      ap
        (λ b.
          if b
          then quiet (record l { window = window })
          else dispatch config (record l { window = window }) now aad aad.frame_type plaintext)
        up
      ∙ ap (λ t. dispatch config (record l { window = window }) now aad t plaintext) t
