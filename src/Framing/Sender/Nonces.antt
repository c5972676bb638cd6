-- ===== src/Framing/Sender/Nonces.antt =====
-- Runs of a sender: sequence numbers, keys and nonces.
use fuck_chat_control.Base.{
  ℕ, zero, suc, ◌+◌, ◌^◌, ◌≤◌, ◌<◌, ◌≡◌, ◌≢◌, refl, sym, ap, ◌∙◌, subst, true, List, [], ◌∷◌, ◌++◌,
  arith, inl, inr, ap2, Bool-cases,
}
use fuck_chat_control.Base.Result.{ok}
use fuck_chat_control.Protocol.Bytes.{Bytes}
use fuck_chat_control.Protocol.Nonce.{derive_nonce}
use fuck_chat_control.Protocol.Nonce.Distinct.{derive_nonce_injective}
use fuck_chat_control.Framing.Sender.{Sender, Event, new_sender}
use fuck_chat_control.Framing.Sender.Calls.{Config}
use fuck_chat_control.Framing.Sender.Steps.{Reaches, done, then_step}
use fuck_chat_control.Framing.Sender.Sequence.{Encryption, encryptions, Encrypts}
use fuck_chat_control.Framing.Sender.Moves.{Step-IsStep}

abbrev pub sequences : List Encryption → List ℕ
sequences [] = []
sequences (e ∷ es) = e.1.sender_sequence ∷ sequences es

-- `from`, `from + 1` and so on, `count` of them.
abbrev pub count_up : (from count : ℕ) → List ℕ
count_up from zero = []
count_up from (suc count) = from ∷ count_up (from + 1) count

encryptions-append :
    (es fs : List Event) → encryptions (es ++ fs) ≡ encryptions es ++ encryptions fs
encryptions-append [] fs = refl
encryptions-append (e ∷ es) fs = ground (arith, encryptions-append es fs)

sequences-append : (xs ys : List Encryption) → sequences (xs ++ ys) ≡ sequences xs ++ sequences ys
sequences-append [] ys = refl
sequences-append (x ∷ xs) ys = ap (λ l. x.1.sender_sequence ∷ l) (sequences-append xs ys)

-- The sequence numbers go up by one from those of the sender before to those of the sender after.
record Counts (s : Sender) (es : List Event) (s' : Sender) : Type 0 where
  count : ℕ
  used : sequences (encryptions es) ≡ count_up s.sequence count
  moved : s'.sequence ≡ s.sequence + count
  bounded : s'.sequence ≤ 2 ^ 32

module _ (config : Config) where
  Encrypts-Counts :
      (s s' : Sender) (es : List Event)
      → Encrypts config s (encryptions es) s'
      → s.sequence ≤ 2 ^ 32
      → Counts s es s'
  Encrypts-Counts s s' es h bound = counted (encryptions es) refl h
    where
      counted :
          (xs : List Encryption) → encryptions es ≡ xs → Encrypts config s xs s' → Counts s es s'
      counted [] e h = record {
        count = 0;
        used = ap sequences e;
        moved = omega arith;
        bounded = omega arith;
      }
      counted (x ∷ []) e (_, small, _, next, _, moved) = record {
        count = 1;
        used = ap sequences e ∙ ap (λ n. n ∷ []) next;
        moved = moved;
        bounded = omega arith;
      }
      counted (x ∷ y ∷ zs) e h = absurd h

  count_up-append :
      (from n m : ℕ) → count_up from n ++ count_up (from + n) m ≡ count_up from (n + m)
  count_up-append from zero m = ap2 count_up (omega arith) (omega arith)
  count_up-append from (suc n) m =
      ap (λ l. from ∷ l)
        (ap (λ k. count_up (from + 1) n ++ count_up k m) {x = from + suc n} (omega arith)
          ∙ count_up-append (from + 1) n m)
      ∙ ap (count_up from) {x = suc (n + m)} (omega arith)

  reaches-Counts_from :
      {s s' : Sender} {es : List Event}
      → Reaches config s es s'
      → s.sequence ≤ 2 ^ 32
      → Counts s es s'
  reaches-Counts_from (done s) b = record {
    count = 0;
    used = refl;
    moved = omega arith;
    bounded = b;
  }
  reaches-Counts_from (then_step {s} {t} {u} {es} {fs} st rest) b =
      joined (Encrypts-Counts s t es (Step-IsStep config st).0 b) (λ c. reaches-Counts_from rest c)
    where
      joined : Counts s es t → (t.sequence ≤ 2 ^ 32 → Counts t fs u) → Counts s (es ++ fs) u
      joined first later =
          let second = later first.bounded in
          record {
            count = first.count + second.count;
            used =
                ap sequences (encryptions-append es fs)
                ∙ sequences-append (encryptions es) (encryptions fs)
                ∙ ap2 (λ xs ys. xs ++ ys) first.used
                    (second.used ∙ ap (λ n. count_up n second.count) first.moved)
                ∙ count_up-append s.sequence first.count second.count;
            moved = omega (arith, first.moved, second.moved);
            bounded = second.bounded;
          }

  -- Whatever is sent, cancelled and torn down, and in whatever order the calls that wait go on, the frames that a
  -- new sender encrypts have the sequence numbers 0, 1, 2 and so on, each once, and at most 2^32 of them.
  pub reaches-Counts :
      (key : List ℕ) {s : Sender} {es : List Event}
      → Reaches config (new_sender key) es s
      → (sequences (encryptions es) ≡ count_up 0 s.sequence) × (s.sequence ≤ 2 ^ 32)
  reaches-Counts key {s} r =
      let c = reaches-Counts_from r (omega arith) in
      (c.used ∙ ap (count_up 0) {y = s.sequence} (omega (arith, c.moved)), c.bounded)

  -- Every frame is encrypted with `key` and for the sender's own session.
  abbrev pub AllFor : List ℕ → List Encryption → Type 0
  AllFor key [] = Unit {0}
  AllFor key (e ∷ es) =
      (e.0 ≡ key) × (e.1.sender_session_id ≡ config.local_session_id) × AllFor key es

  AllFor-append :
      (key : List ℕ) (xs ys : List Encryption)
      → AllFor key xs
      → AllFor key ys
      → AllFor key (xs ++ ys)
  AllFor-append key [] ys h k = k
  AllFor-append key (x ∷ xs) ys (e, i, h) k = (e, i, AllFor-append key xs ys h k)

  Encrypts-none :
      (s s' : Sender) (xs : List Encryption)
      → s.tearing_down ≡ true
      → Encrypts config s xs s'
      → xs ≡ []
  Encrypts-none s s' [] t h = refl
  Encrypts-none s s' (x ∷ []) t (o, _, _, _, _, _) = absurd (cc)
  Encrypts-none s s' (x ∷ y ∷ zs) t h = absurd h

  Encrypts-AllFor :
      (s s' : Sender) (xs : List Encryption) → Encrypts config s xs s' → AllFor s.send_key xs
  Encrypts-AllFor s s' [] h = tt
  Encrypts-AllFor s s' (x ∷ []) (_, _, k, _, i, _) = (k, i, tt)
  Encrypts-AllFor s s' (x ∷ y ∷ zs) h = absurd h

  -- A sender that was torn down encrypts no frame any more, whatever is called and whatever waits.
  pub reaches-Silent :
      {s s' : Sender} {es : List Event}
      → s.tearing_down ≡ true
      → Reaches config s es s'
      → (encryptions es ≡ []) × (s'.tearing_down ≡ true)
  reaches-Silent t (done s) = (refl, t)
  reaches-Silent t (then_step {s} {t = s'} {es} {fs} st rest) =
      let (e, keeps, _) = Step-IsStep config st in
      let (none_later, t') = reaches-Silent (keeps t) rest in
      (
        encryptions-append es fs
            ∙ ap2 (λ xs ys. xs ++ ys) (Encrypts-none s s' (encryptions es) t e) none_later,
        t',
      )

  -- All frames of a sender are encrypted with the key that it has before its teardown, never with the zeros that
  -- a teardown leaves.
  pub reaches-AllFor :
      {s s' : Sender} {es : List Event}
      → Reaches config s es s'
      → AllFor s.send_key (encryptions es)
  reaches-AllFor (done s) = tt
  reaches-AllFor (then_step {s} {t} {u} {es} {fs} st rest) =
      subst (AllFor s.send_key) (sym (encryptions-append es fs)) (
        AllFor-append s.send_key (encryptions es) (encryptions fs)
          (Encrypts-AllFor s t (encryptions es) (Step-IsStep config st).0)
          (elim (Bool-cases t.tearing_down) [
            | inl torn ↦ subst (AllFor s.send_key) (sym (reaches-Silent torn rest).0) tt
            | inr open_still ↦
                subst (λ k. AllFor k (encryptions fs)) ((Step-IsStep config st).2 open_still)
                  (reaches-AllFor rest)
          ]))

  AllFor-mid :
      (key : List ℕ) (xs : List Encryption) (e : Encryption) (ys : List Encryption)
      → AllFor key (xs ++ e ∷ ys)
      → (e.1.sender_session_id ≡ config.local_session_id) × AllFor key ys
  AllFor-mid key [] e ys (_, i, h) = (i, h)
  AllFor-mid key (x ∷ xs) e ys (_, _, h) = AllFor-mid key xs e ys h

  -- In a list that counts up, what stands later is larger.
  count_up-above :
      (from n : ℕ) (xs : List ℕ) (b : ℕ) (ys : List ℕ) → xs ++ b ∷ ys ≡ count_up from n → from ≤ b
  count_up-above from zero [] b ys h = absurd (cc)
  count_up-above from zero (x ∷ xs) b ys h = absurd (cc)
  count_up-above from (suc n) [] b ys h = let e : b ≡ from = cc in omega arith
  count_up-above from (suc n) (x ∷ xs) b ys h =
      let e : xs ++ b ∷ ys ≡ count_up (from + 1) n = cc in
      omega (arith, count_up-above (from + 1) n xs b ys e)

  count_up-Rising :
      (from n : ℕ) (xs : List ℕ) (a : ℕ) (ys : List ℕ) (b : ℕ) (zs : List ℕ)
      → xs ++ a ∷ (ys ++ b ∷ zs) ≡ count_up from n
      → a < b
  count_up-Rising from zero [] a ys b zs h = absurd (cc)
  count_up-Rising from zero (x ∷ xs) a ys b zs h = absurd (cc)
  count_up-Rising from (suc n) [] a ys b zs h =
      let e : a ≡ from = cc in
      let f : ys ++ b ∷ zs ≡ count_up (from + 1) n = cc in
      omega (arith, count_up-above (from + 1) n ys b zs f)
  count_up-Rising from (suc n) (x ∷ xs) a ys b zs h =
      let f : xs ++ a ∷ (ys ++ b ∷ zs) ≡ count_up (from + 1) n = cc in
      count_up-Rising (from + 1) n xs a ys b zs f

  -- No two frames of a run of a new sender are encrypted under the same nonce, if the session id is made of bytes.
  pub reaches-NonceOnce :
      (key : List ℕ) {s : Sender} {es : List Event}
      → Bytes config.local_session_id
      → Reaches config (new_sender key) es s
      → (xs : List Encryption) (a : Encryption) (ys : List Encryption) (b : Encryption)
        (zs : List Encryption)
      → encryptions es ≡ xs ++ a ∷ (ys ++ b ∷ zs)
      → (nonce : List ℕ) → derive_nonce a.1.sender_session_id a.1.sender_sequence ≡ ok nonce
      → derive_nonce b.1.sender_session_id b.1.sender_sequence ≢ ok nonce
  reaches-NonceOnce key {s} bytes r xs a ys b zs e nonce na nb =
      absurd (omega (arith, rising, same))
    where
      sessions : (a.1.sender_session_id ≡ config.local_session_id) × AllFor key (ys ++ b ∷ zs)
      sessions = AllFor-mid key xs a (ys ++ b ∷ zs) (subst (AllFor key) e (reaches-AllFor r))

      same : a.1.sender_sequence ≡ b.1.sender_sequence
      same =
          derive_nonce_injective config.local_session_id nonce a.1.sender_sequence
            b.1.sender_sequence bytes
            (ap (λ i. derive_nonce i a.1.sender_sequence) (sym sessions.0) ∙ na)
            (ap (λ i. derive_nonce i b.1.sender_sequence)
                (sym (AllFor-mid key ys b zs sessions.1).0)
              ∙ nb)

      rising : a.1.sender_sequence < b.1.sender_sequence
      rising =
          count_up-Rising 0 s.sequence (sequences xs) a.1.sender_sequence (sequences ys)
            b.1.sender_sequence (sequences zs)
            (sym (
                sequences-append xs (a ∷ (ys ++ b ∷ zs))
                ∙ ap (λ l. sequences xs ++ a.1.sender_sequence ∷ l) (sequences-append ys (b ∷ zs)))
              ∙ sym (ap sequences e)
              ∙ (reaches-Counts key r).0)
