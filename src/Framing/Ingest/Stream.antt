-- ===== src/Framing/Ingest/Stream.antt =====
-- Texts from a sender to the peer's receiver, over a transport that keeps their order.
use fuck_chat_control.Base.{
  ℕ, ◌+◌, ◌≤◌, ◌<◌, ◌≡◌, refl, ap, ◌∙◌, true, false, Option, some, none, List, [], ◌∷◌, ◌++◌, map,
  leb→le, ltb, arith,
}
use fuck_chat_control.Base.Result.{ok, >>=-eq-ok, require-eq-ok}
use fuck_chat_control.Protocol.Types.{FrameAad, text}
use fuck_chat_control.Crypto.ReplayWindow.{ReplayWindow, observe, is_above, move_up}
use fuck_chat_control.Crypto.Aead.{EncryptedFrame, encrypt_frame, assert_uint32_sequence}
use fuck_chat_control.Framing.Sender.Calls as Sender
use fuck_chat_control.Framing.Sender.Calls.{frame_aad}
use fuck_chat_control.Framing.Sender.Steps.{seal_wire}
use fuck_chat_control.Framing.Ingest.{
  Config, Decryption, Link, Ingested, Delivery, delivering, on_text, begin_ingest, end_ingest,
}
use fuck_chat_control.Framing.Ingest.Sealed.{begin_ingest-seal_wire, end_ingest-text}

-- The window has seen nothing, or nothing from `sequence` on.
abbrev pub IsBefore : Option ℕ → ℕ → Type 0
IsBefore none sequence = Unit {0}
IsBefore (some highest) sequence = highest < sequence

observe-next :
    (w : ReplayWindow) (sequence : ℕ)
    → IsBefore w.highest sequence
    → sequence ≤ 4294967295
    → observe w sequence ≡ ok (move_up w sequence)
unfolding observe
observe-next w sequence before small = rw (within, above w.highest before) refl
  where
    within : ltb 4294967295 sequence ≡ false
    within = ground arith

    above : (h : Option ℕ) → IsBefore h sequence → is_above h sequence ≡ true
    above none b = refl
    above (some h) b = ground arith

module _ (sending : Sender.Config) (config : Config) (key : List ℕ) where
  -- The wires of texts that are sealed with the numbers from `sequence` on.
  pub data Texts : ℕ → List (List ℕ) → List (List ℕ) → Type 0 where
    no_text : {sequence : ℕ} → Texts sequence [] []
    one_text :
        {sequence : ℕ} {texts wires : List (List ℕ)} (plaintext wire : List ℕ)
        (frame : EncryptedFrame)
        → encrypt_frame config.cipher key (frame_aad sending sequence text 0 0) plaintext ≡ ok frame
        → seal_wire sending (frame_aad sending sequence text 0 0) (ok frame) ≡ ok wire
        → Texts (sequence + 1) texts wires
        → Texts sequence (plaintext ∷ texts) (wire ∷ wires)

  -- A call of `ingest` that is not interrupted.
  abbrev pub finish : ℕ → Ingested → Option Decryption → Ingested
  finish now o none = o
  finish now o (some d) = end_ingest config (record o.link { decrypting = none }) now d

  abbrev pub ingest : ℕ → Link → List ℕ → Ingested
  ingest now l wire = let o = begin_ingest config l wire in finish now o o.link.decrypting

  abbrev pub ingest_all : ℕ → Link → List (List ℕ) → List Delivery
  ingest_all now l [] = []
  ingest_all now l (wire ∷ wires) =
      let o = ingest now l wire in o.deliveries ++ ingest_all now o.link wires

  encrypted-small :
      (aad : FrameAad) (plaintext : List ℕ) (frame : EncryptedFrame)
      → encrypt_frame config.cipher key aad plaintext ≡ ok frame
      → aad.sender_sequence ≤ 4294967295
  unfolding encrypt_frame
  encrypted-small aad plaintext frame h =
      let (_, b, _) = >>=-eq-ok (assert_uint32_sequence aad.sender_sequence) _ h in
      leb→le _ _ (require-eq-ok _ _ b)

  module _
      (opens : (k n a p : List ℕ)
        → config.cipher.unseal k n a (config.cipher.seal k n a p) ≡ some p)
      (session : sending.local_session_id ≡ config.peer_session_id) where
    ingest-text :
        (now sequence : ℕ) (plaintext wire : List ℕ) (frame : EncryptedFrame) (l : Link)
        → encrypt_frame config.cipher key (frame_aad sending sequence text 0 0) plaintext ≡ ok frame
        → seal_wire sending (frame_aad sending sequence text 0 0) (ok frame) ≡ ok wire
        → l.recv_key ≡ key
        → l.receiver.torn_down ≡ false
        → IsBefore l.window.highest sequence
        → ingest now l wire
          ≡ delivering
              (record l { window = move_up l.window sequence; decrypting = none })
              (on_text plaintext)
    ingest-text now sequence plaintext wire frame l sealed written same up before =
        ap (λ o. finish now o o.link.decrypting)
          (begin_ingest-seal_wire sending config aad plaintext wire frame l
            (move_up l.window sequence) opens
            (ap (λ k. encrypt_frame config.cipher k aad plaintext) same ∙ sealed) written session up
            (observe-next l.window sequence before (encrypted-small aad plaintext frame sealed)))
        ∙ end_ingest-text sending config aad plaintext (record l { decrypting = none })
            (move_up l.window sequence) now refl up
      where
        aad : FrameAad
        aad = frame_aad sending sequence text 0 0

    -- Texts that a sender seals one after the other, and that come in in that order, are handed over by the
    -- receiver of its session: each once, in order, as they were.
    pub ingest_all-Texts :
        (now sequence : ℕ) (texts wires : List (List ℕ)) (l : Link)
        → Texts sequence texts wires
        → l.recv_key ≡ key
        → l.receiver.torn_down ≡ false
        → IsBefore l.window.highest sequence
        → ingest_all now l wires ≡ map on_text texts
    ingest_all-Texts now sequence _ _ l no_text same up before = refl
    ingest_all-Texts now sequence _ _ l
          (one_text {texts} {wires} plaintext wire frame sealed written rest) same up before =
        ap (λ o. o.deliveries ++ ingest_all now o.link wires)
          (ingest-text now sequence plaintext wire frame l sealed written same up before)
        ∙ ap (λ ds. on_text plaintext ∷ ds)
            (ingest_all-Texts now (sequence + 1) texts wires
              (record l { window = move_up l.window sequence; decrypting = none }) rest same up
              (omega arith))
