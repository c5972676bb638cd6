-- ===== src/Crypto/Tests.antt =====
-- Runs of the window and of the cipher on concrete streams.
use fuck_chat_control.Base.{ℕ, ◌≡◌, refl, true, false, none, some, replicate, List, [], ◌∷◌}
use fuck_chat_control.Base.Result.{ok}
use fuck_chat_control.Protocol.Types.{FrameAad, text}
use fuck_chat_control.Crypto.Aead.{Cipher, EncryptedFrame, encrypt_frame, decrypt_frame}
use fuck_chat_control.Crypto.Aead.Frames.{
  Incoming, decrypted, decrypted-Unique, decrypt_frame-encrypt_frame,
}
use fuck_chat_control.Crypto.ReplayWindow.{ReplayWindow, new_window, observe}
use fuck_chat_control.Crypto.ReplayWindow.Refinement.{
  observe_all, fresh_all, Unique, observe_all-new_window,
}

abbrev empty_window : ReplayWindow
empty_window = record { size = 3; highest = none; slots = 0 ∷ 0 ∷ 0 ∷ [] }

-- A first frame, a replay, a jump, a late frame, one too late, and one beyond 32 bits.
abbrev stream : List ℕ
stream = 4 ∷ 4 ∷ 6 ∷ 5 ∷ 3 ∷ 4294967296 ∷ 9 ∷ 6 ∷ 7 ∷ []

empty_window-is_new : new_window 3 ≡ ok empty_window
unfolding new_window
empty_window-is_new = refl

fresh_stream :
    fresh_all 3 [] stream ≡ true ∷ false ∷ true ∷ true ∷ false ∷ false ∷ true ∷ false ∷ true ∷ []
fresh_stream = refl

observe_all-new_window_example : observe_all empty_window stream ≡ fresh_all 3 [] stream
observe_all-new_window_example = observe_all-new_window 3 empty_window stream empty_window-is_new

-- A stand-in for AES-GCM that opens what it has sealed.
abbrev plain : Cipher
plain = record { seal = λ k n a p. p; unseal = λ k n a c. some c }

abbrev text_aad : FrameAad
text_aad = record {
  protocol_version = 1;
  sender_session_id = replicate 32 200;
  sender_sequence = 5;
  frame_type = text;
  transfer_id = 0;
  chunk_id = 0;
}

abbrev text_frame : EncryptedFrame
text_frame = record {
  ciphertext = 72 ∷ 105 ∷ [];
  nonce = 200 ∷ 200 ∷ 200 ∷ 200 ∷ 200 ∷ 200 ∷ 200 ∷ 200 ∷ 200 ∷ 200 ∷ 200 ∷ 205 ∷ [];
}

abbrev moved_window : ReplayWindow
moved_window = record { size = 3; highest = some 5; slots = 1 ∷ 0 ∷ 0 ∷ [] }

text_frame-is_encrypted : encrypt_frame plain [] text_aad (72 ∷ 105 ∷ []) ≡ ok text_frame
unfolding encrypt_frame
text_frame-is_encrypted = refl

window-moves : observe empty_window 5 ≡ ok moved_window
unfolding observe
window-moves = refl

decrypt_frame-encrypt_frame_example :
    decrypt_frame plain [] empty_window text_aad text_frame.nonce text_frame.ciphertext
    ≡ ok (moved_window, 72 ∷ 105 ∷ [])
decrypt_frame-encrypt_frame_example =
    decrypt_frame-encrypt_frame plain [] text_aad (72 ∷ 105 ∷ []) text_frame empty_window
      moved_window (λ k n a p. refl) text_frame-is_encrypted window-moves

abbrev incoming : Incoming
incoming = record { aad = text_aad; nonce = text_frame.nonce; ciphertext = text_frame.ciphertext }

-- The frame is decrypted, and its replay is not.
decrypted_once : decrypted plain [] empty_window (incoming ∷ incoming ∷ []) ≡ 5 ∷ []
unfolding decrypt_frame
decrypted_once = refl

decrypted-Unique_example : Unique (decrypted plain [] empty_window (incoming ∷ incoming ∷ []))
decrypted-Unique_example =
    decrypted-Unique plain [] 3 empty_window (incoming ∷ incoming ∷ []) empty_window-is_new
