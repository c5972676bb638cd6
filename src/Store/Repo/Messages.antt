-- ===== src/Store/Repo/Messages.antt =====
-- store/in-memory-repo.ts: reading messages back, over crypto/at-rest.ts: decryptAtRest.
use fuck_chat_control.Base.{
  ℕ, ◌≡◌, ◌≢◌, refl, sym, ap, ◌∙◌, subst, Bool, true, false, ◌&&◌, ◌||◌, Option, none, some, List,
  [], ◌∷◌, ◌++◌, if◌then◌else◌, Str, str_eq, ltb, ◌==◌, ==_iff, length, or_default,
}
use fuck_chat_control.Base.Map as Map
use fuck_chat_control.Base.Result.{Result, ok, err, ◌>>=◌, ◌>>◌, require, >>=-eq-ok, of_ok}
use fuck_chat_control.Protocol.Limits.{gcm_nonce_bytes}
use fuck_chat_control.Crypto.ReplayWindow.{CryptoErrorCode, invalid_argument, authentication_failed}
use fuck_chat_control.Protocol.Bytes.Slices.{append_cancel}
use fuck_chat_control.Store.Types.{
  conversation_not_found, wrong_passphrase, store, crypto, Stored, MessageDirection, sent, received,
  direction_text, message_record_aad,
}
use fuck_chat_control.Store.Repo.{
  InternalMessage, Repository, Append, id_key, require_key, message_id, begin_append,
}

abbrev pub or_authentication_failed : Option (List ℕ) → Result CryptoErrorCode (List ℕ)
or_authentication_failed none = err authentication_failed
or_authentication_failed (some plaintext) = ok plaintext

abbrev pub wrong_passphrase_of : Result CryptoErrorCode (List ℕ) → Stored (List ℕ)
wrong_passphrase_of (ok plaintext) = ok plaintext
wrong_passphrase_of (err authentication_failed) = err (store wrong_passphrase)
wrong_passphrase_of (err e) = err (crypto e)

-- `unseal` is AES-GCM of WebCrypto: key, nonce, additional data and ciphertext.
module _ (unseal : List ℕ → List ℕ → List ℕ → List ℕ → Option (List ℕ)) where
  -- Records from before the binding were sealed with empty additional data.
  unfoldable pub decrypt_at_rest :
      List ℕ → List ℕ → List ℕ → List ℕ → Result CryptoErrorCode (List ℕ)
  decrypt_at_rest key nonce ciphertext aad =
      require (length nonce == gcm_nonce_bytes) invalid_argument
      >> (elim (unseal key nonce aad ciphertext) [
        | some plaintext ↦ ok plaintext
        | none ↦ or_authentication_failed (unseal key nonce [] ciphertext)
      ])

  -- `decode_text` is `TextDecoder`.
  unfoldable pub decrypt_message : (List ℕ → Str) → List ℕ → List ℕ → InternalMessage → Stored Str
  decrypt_message decode_text key conversation_id m = do
    plaintext ←
        wrong_passphrase_of (
          decrypt_at_rest key m.nonce m.ciphertext (message_record_aad conversation_id m.direction))
    ok (decode_text plaintext)

  abbrev pub decrypt_each :
      (List ℕ → Str)
      → List ℕ
      → List ℕ
      → List InternalMessage
      → Stored (List (InternalMessage × Str))
  decrypt_each decode_text key id [] = ok []
  decrypt_each decode_text key id (m ∷ list) = do
    plaintext ← decrypt_message decode_text key id m
    rest ← decrypt_each decode_text key id list
    ok ((m, plaintext) ∷ rest)

  -- `a.timestamp - b.timestamp || a.id.localeCompare(b.id)` is at most 0, with `at_most` the order of the locale.
  abbrev pub comes_before : (Str → Str → Bool) → InternalMessage → InternalMessage → Bool
  comes_before at_most a b =
      ltb a.timestamp b.timestamp || a.timestamp == b.timestamp && at_most a.id b.id

  abbrev pub insert :
      (Str → Str → Bool)
      → InternalMessage × Str
      → List (InternalMessage × Str)
      → List (InternalMessage × Str)
  insert at_most m [] = m ∷ []
  insert at_most m (n ∷ list) =
      let rest = insert at_most m list in
      if comes_before at_most m.0 n.0 then m ∷ n ∷ list else n ∷ rest

  abbrev pub sort : (Str → Str → Bool) → List (InternalMessage × Str) → List (InternalMessage × Str)
  sort at_most [] = []
  sort at_most (m ∷ list) = insert at_most m (sort at_most list)

  -- `getMessages`, when nothing else happens while it decrypts.
  unfoldable pub get_messages :
      (List ℕ → Str)
      → (Str → Str → Bool)
      → Repository
      → List ℕ
      → Stored (List (InternalMessage × Str))
  get_messages decode_text at_most r id = do
    require (Map.has (id_key id) r.conversations) (store conversation_not_found)
    at_rest_key ← require_key r
    out ← decrypt_each decode_text at_rest_key id (or_default (Map.get (id_key id) r.messages) [])
    ok (sort at_most out)

direction_text_injective : (d e : MessageDirection) → direction_text d ≡ direction_text e → d ≡ e
direction_text_injective sent sent h = refl
direction_text_injective sent received h = absurd (cc)
direction_text_injective received sent h = absurd (cc)
direction_text_injective received received h = refl

message_record_aad_injective :
    (id other : List ℕ) (d e : MessageDirection)
    → length id ≡ length other
    → message_record_aad id d ≡ message_record_aad other e
    → (id ≡ other) × (d ≡ e)
unfolding message_record_aad
message_record_aad_injective id other d e l h =
    let rest : id ++ direction_text d ≡ other ++ direction_text e = cc in
    let (p, q) =
      append_cancel id (direction_text d) other (direction_text e) (length other) l refl rest in
    (p, direction_text_injective d e q)

module _ (encode_text : Str → List ℕ) (decode_text : List ℕ → Str)
    (seal : List ℕ → List ℕ → List ℕ → List ℕ → List ℕ)
    (unseal : List ℕ → List ℕ → List ℕ → List ℕ → Option (List ℕ)) where
  -- A message that `begin_append` has sealed.
  sealed_message :
      (r : Repository) (id : List ℕ) (plaintext : Str) (d : MessageDirection) (at_time : ℕ)
      (explicit : Option Str) (fresh : Str) (nonce key : List ℕ) (a : Append)
      → begin_append encode_text seal r id plaintext d at_time explicit fresh nonce ≡ ok a
      → require_key r ≡ ok key
      → (a.message.nonce ≡ nonce)
        × (a.message.direction ≡ d)
        × (a.message.ciphertext ≡ seal key nonce (message_record_aad id d) (encode_text plaintext))
  unfolding begin_append
  sealed_message r id plaintext d at_time explicit fresh nonce key a h k =
      let (_, _, h1) =
        >>=-eq-ok (require (Map.has (id_key id) r.conversations) (store conversation_not_found)) _
          h in
      let (_, _, h2) = >>=-eq-ok (message_id explicit fresh) _ h1 in
      let (held, e, h3) = >>=-eq-ok (require_key r) _ h2 in
      let same : held ≡ key = of_ok (sym e ∙ k) in
      let m = of_ok h3 in
      (
        sym (ap (λ a. a.message.nonce) m),
        sym (ap (λ a. a.message.direction) m),
        sym (ap (λ a. a.message.ciphertext) m)
            ∙ ap (λ k. seal k nonce (message_record_aad id d) (encode_text plaintext)) same,
      )

  -- What is read of a sealed body under the additional data `aad`.
  reads :
      (key nonce aad bound plaintext : List ℕ) (o p : Option (List ℕ)) (found : Str)
      → unseal key nonce aad (seal key nonce bound plaintext) ≡ o
      → unseal key nonce [] (seal key nonce bound plaintext) ≡ p
      → ((b q : List ℕ) → unseal key nonce b (seal key nonce bound plaintext) ≡ some q → b ≡ bound)
      → bound ≢ []
      → (wrong_passphrase_of (
            require (length nonce == gcm_nonce_bytes) invalid_argument
            >> (elim o as (λ _. Result CryptoErrorCode (List ℕ)) [
              | some plaintext ↦ ok plaintext
              | none ↦ or_authentication_failed p
            ]))
          >>= λ plaintext. ok (decode_text plaintext))
        ≡ ok found
      → aad ≡ bound
  reads key nonce aad bound plaintext (some q) p found eo ep only full h = only aad q eo
  reads key nonce aad bound plaintext none (some q) found eo ep only full h =
      absurd (full (sym (only [] q ep)))
  reads key nonce aad bound plaintext none none found eo ep only full h =
      absurd (refused (length nonce == gcm_nonce_bytes) h)
    where
      refused :
          (b : Bool)
          → (wrong_passphrase_of (require b invalid_argument >> or_authentication_failed none)
              >>= λ plaintext. ok (decode_text plaintext))
            ≡ ok found
          → ⊥
      refused true e = absurd (cc)
      refused false e = absurd (cc)

  -- A message that an append seals is read back as it was under its own conversation, if its text survives the way
  -- through UTF-8; and under another 16-byte id or with another direction no message is read at all: the cipher
  -- opens what it has sealed, and with no other additional data than it was sealed with.
  pub decrypt_message-begin_append :
      (r : Repository) (id : List ℕ) (plaintext : Str) (d : MessageDirection) (at_time : ℕ)
      (explicit : Option Str) (fresh : Str) (nonce key : List ℕ) (a : Append)
      → ((k n b p : List ℕ) → unseal k n b (seal k n b p) ≡ some p)
      → ((k n b c p q : List ℕ) → unseal k n c (seal k n b p) ≡ some q → c ≡ b)
      → decode_text (encode_text plaintext) ≡ plaintext
      → length nonce ≡ 12
      → length id ≡ 16
      → begin_append encode_text seal r id plaintext d at_time explicit fresh nonce ≡ ok a
      → require_key r ≡ ok key
      → (decrypt_message unseal decode_text key id a.message ≡ ok plaintext)
        × ((other : List ℕ) (e : MessageDirection) (found : Str)
            → length other ≡ 16
            → decrypt_message unseal decode_text key other (record a.message { direction = e })
              ≡ ok found
            → (other ≡ id) × (e ≡ d))
  unfolding decrypt_message decrypt_at_rest message_record_aad
  decrypt_message-begin_append r id plaintext d at_time explicit fresh nonce key a opens only utf8 n
        l h k =
      let (en, ed, ec) = sealed_message r id plaintext d at_time explicit fresh nonce key a h k in
      (
        rw
            (
              en,
              ed,
              ec,
              (==_iff (length nonce) 12).1 n,
              opens key nonce (message_record_aad id d) (encode_text plaintext),
              utf8,
            )
            refl,
        λ other e found lo f. message_record_aad_injective other id e d (lo ∙ sym l) (
            reads key nonce (message_record_aad other e) (message_record_aad id d)
              (encode_text plaintext) _ _ found refl refl
              (λ b q. only key nonce (message_record_aad id d) b (encode_text plaintext) q)
              (not_empty id d)
              (subst
                (λ c.
                  decrypt_message unseal decode_text key other
                    (record a.message { direction = e; nonce = nonce; ciphertext = c })
                  ≡ ok found)
                ec
                (subst
                  (λ n.
                    decrypt_message unseal decode_text key other
                      (record a.message { direction = e; nonce = n })
                    ≡ ok found)
                  en f))),
      )
    where
      not_empty : (id : List ℕ) (d : MessageDirection) → message_record_aad id d ≢ []
      not_empty id d e = absurd (cc)
