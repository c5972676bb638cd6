-- ===== src/Orchestrator/Invitation/Accepted.antt =====
-- What a fragment is that parses.
use fuck_chat_control.Base.{
  ℕ, zero, suc, ◌+◌, ◌*◌, ◌/◌, ◌%◌, ◌<◌, ◌≡◌, ◌⊎◌, refl, sym, ap, ap2, ◌∙◌, Bool, true, false, ◌&&◌,
  ◌||◌, not, Option, none, some, List, [], ◌∷◌, ◌++◌, if◌then◌else◌, ltb, ◌==◌, ==_iff, arith,
  length, length-append, get_or, take, drop, Str, inl, inr, take-append-drop, subst,
}
use fuck_chat_control.Base.Result.{ok, ◌>>◌, require, >>=-eq-ok, require-eq-ok, of_ok}
use fuck_chat_control.Protocol.Bytes.{take-append, drop-append, append_nil, append_assoc}
use fuck_chat_control.Store.Encoding.{
  hex_digits, parse_hex_digit, hex_byte, bytes_to_hex, hex_to_bytes, all_below-holds,
}
use fuck_chat_control.Orchestrator.Invitation.{
  every, is_digit, is_hex_digit, is_hex_id, is_code, is_tail, is_hex_with_code,
  hex_to_conversation_id, parsed, Orchestrated, to_lower_case, strip_hash, ParsedInvitation,
  tilde_of, parse_bare, parse_coded, is_short_code, parse_invitation, malformed_invitation,
}
use fuck_chat_control.Orchestrator.Invitation.RoundTrip.{tilde_of-append}

and_parts : (p q : Bool) → (p && q) ≡ true → (p ≡ true) × (q ≡ true)
and_parts true q h = (refl, h)
and_parts false q h = absurd (cc)

abbrev is_value : Option ℕ → ℕ → Bool
is_value none c = false
is_value (some v) c = ltb v 16 && (get_or hex_digits v 0 == c)

abbrev reads_back : ℕ → Bool
reads_back c = not (is_hex_digit c) || is_value (parse_hex_digit c) c

implied : (p q : Bool) → (not p || q) ≡ true → p ≡ true → q ≡ true
implied true q h e = h
implied false q h e = absurd (cc)

value_of :
    (o : Option ℕ) (c : ℕ)
    → is_value o c ≡ true
    → (v : ℕ) × ((o ≡ some v) × ((v < 16) × (get_or hex_digits v 0 ≡ c)))
value_of none c t = absurd (cc)
value_of (some v) c t = (v, (refl, (ground arith, (==_iff _ _).0 ((and_parts _ _ t).1))))

-- A digit of the pattern is the one that its value is written with.
digit_value :
    (c : ℕ)
    → is_hex_digit c ≡ true
    → (v : ℕ) × ((parse_hex_digit c ≡ some v) × ((v < 16) × (get_or hex_digits v 0 ≡ c)))
digit_value c h =
    value_of (parse_hex_digit c) c
      (implied (is_hex_digit c) _ (all_below-holds reads_back 103 c refl (ground arith)) h)

pair_read :
    (c d v w : ℕ) (s : Str) (bytes : List ℕ)
    → parse_hex_digit c ≡ some v
    → parse_hex_digit d ≡ some w
    → hex_to_bytes s ≡ some bytes
    → hex_to_bytes (c ∷ d ∷ s) ≡ some ((v * 16 + w) ∷ bytes)
unfolding hex_to_bytes
pair_read c d v w s bytes e f r =
    ap2 (λ high low. hex_byte high low (hex_to_bytes s)) e f ∙ ap (hex_byte (some v) (some w)) r

pair_written :
    (c d v w : ℕ) (s : Str) (bytes : List ℕ)
    → w < 16
    → get_or hex_digits v 0 ≡ c
    → get_or hex_digits w 0 ≡ d
    → bytes_to_hex bytes ≡ s
    → bytes_to_hex ((v * 16 + w) ∷ bytes) ≡ c ∷ d ∷ s
unfolding bytes_to_hex
pair_written c d v w s bytes small e f r =
    ap2 (λ v w. get_or hex_digits v 0 ∷ get_or hex_digits w 0 ∷ bytes_to_hex bytes)
      {a = (v * 16 + w) / 16} {a' = v} {b = (v * 16 + w) % 16} {b' = w} (omega arith) (omega arith)
    ∙ ap2 (λ c d. c ∷ d ∷ bytes_to_hex bytes) e f
    ∙ ap (λ s. c ∷ d ∷ s) r

abbrev IsRead : ℕ → Str → Type 0
IsRead n s =
    (bytes : List ℕ) × ((hex_to_bytes s ≡ some bytes)
      × ((bytes_to_hex bytes ≡ s) × (length bytes ≡ n)))

pair-IsRead :
    (n c d : ℕ) (s : Str)
    → is_hex_digit c ≡ true
    → is_hex_digit d ≡ true
    → IsRead n s
    → IsRead (suc n) (c ∷ d ∷ s)
pair-IsRead n c d s hc hd (bytes, (r, (e, k))) =
    let (v, (pv, (sv, wv))) = digit_value c hc in
    let (w, (pw, (sw, ww))) = digit_value d hd in
    (
      (v * 16 + w) ∷ bytes,
      (pair_read c d v w s bytes pv pw r, (pair_written c d v w s bytes sw wv ww e, ap suc k)),
    )

-- Digits in pairs are what the bytes that are read from them are written as.
hex-IsRead : (n : ℕ) (s : Str) → every is_hex_digit s ≡ true → length s ≡ n + n → IsRead n s
unfolding hex_to_bytes bytes_to_hex
hex-IsRead zero [] h l = ([], (refl, (refl, refl)))
hex-IsRead zero (c ∷ s) h l = absurd (omega (arith, l))
hex-IsRead (suc n) [] h l = absurd (omega (arith, l))
hex-IsRead (suc n) (c ∷ []) h l = absurd (omega (arith, l))
hex-IsRead (suc n) (c ∷ d ∷ s) h l =
    let (hc, rest) = and_parts (is_hex_digit c) _ h in
    let (hd, hs) = and_parts (is_hex_digit d) _ rest in
    pair-IsRead n c d s hc hd (hex-IsRead n s hs (omega (arith, l)))

hex_parts : (s : Str) → is_hex_id s ≡ true → (length s ≡ 32) × (every is_hex_digit s ≡ true)
unfolding is_hex_id
hex_parts s h = let (l, e) = and_parts (length s == 32) _ h in ((==_iff _ _).0 l, e)

-- The id and the text of it.
read_id :
    (hex : Str) {id : List ℕ}
    → hex_to_conversation_id hex ≡ ok id
    → (length id ≡ 16) × (bytes_to_hex id ≡ hex)
unfolding hex_to_conversation_id
read_id hex h =
    let (_, a, h1) = >>=-eq-ok (require (is_hex_id hex) _) _ h in
    let (l, every_digit) = hex_parts hex (require-eq-ok _ _ a) in
    let (bytes, (r, (e, k))) = hex-IsRead 16 hex every_digit l in
    let same : bytes ≡ _ = of_ok (sym (ap parsed r) ∙ h1) in
    (ap (λ l. length l) (sym same) ∙ k, ap bytes_to_hex (sym same) ∙ e)

abbrev pub tail_of : Option Str → Str
tail_of none = []
tail_of (some code) = 126 ∷ code

abbrev pub IsFullCode : Option Str → Type 0
IsFullCode none = Unit {0}
IsFullCode (some code) = (length code ≡ 6) × (every is_digit code ≡ true)

code_parts : (code : Str) → is_code code ≡ true → IsFullCode (some code)
unfolding is_code
code_parts code h = let (l, e) = and_parts (length code == 6) _ h in ((==_iff _ _).0 l, e)

abbrev pub IsWrittenBy : Str → ParsedInvitation → Type 0
IsWrittenBy stripped r =
    (length r.conversation_id ≡ 16)
    × (IsFullCode r.code × (stripped ≡ bytes_to_hex r.conversation_id ++ tail_of r.code))

bare-IsWrittenBy :
    (stripped : Str) (r : ParsedInvitation) → parse_bare stripped ≡ ok r → IsWrittenBy stripped r
bare-IsWrittenBy stripped r h =
    let (id, e, h1) = >>=-eq-ok (hex_to_conversation_id stripped) _ h in
    let (l, t) = read_id stripped e in
    subst (IsWrittenBy stripped) (of_ok h1) (l, (tt, sym t ∙ sym (append_nil (bytes_to_hex id))))

tail_shape :
    (tail : Str)
    → is_tail tail ≡ true
    → (code : Str) × ((tail ≡ 126 ∷ code) × (is_code code ≡ true))
tail_shape [] h = absurd (cc)
tail_shape (c ∷ code) h =
    let (tilde, six) = and_parts (c == 126) _ h in
    (code, (ap (λ c. c ∷ code) ((==_iff _ _).0 tilde), six))

parts :
    (stripped hex code : Str)
    → stripped ≡ hex ++ (126 ∷ code)
    → length hex ≡ 32
    → every is_hex_digit hex ≡ true
    → is_code code ≡ true
    → (r : ParsedInvitation) → parse_coded stripped (tilde_of stripped) ≡ ok r
    → IsWrittenBy stripped r
parts stripped hex code shape sized digits six r h =
    let found : tilde_of stripped ≡ some 32 =
      ap tilde_of shape ∙ tilde_of-append hex code digits ∙ ap (λ n. some n) sized in
    let (id, e, h1) =
      >>=-eq-ok (hex_to_conversation_id (take 32 stripped)) _
        (sym (ap (parse_coded stripped) found) ∙ h) in
    let front : take 32 stripped ≡ hex =
      ap (take 32) shape ∙ take-append hex (126 ∷ code) 32 sized in
    let behind : drop 33 stripped ≡ code =
      ap (drop 33) (shape ∙ sym (append_assoc hex (126 ∷ []) code))
      ∙ drop-append (hex ++ (126 ∷ [])) code 33
          (omega (arith, length-append hex (126 ∷ []), sized)) in
    let (l, w) = read_id (take 32 stripped) e in
    subst (IsWrittenBy stripped) (of_ok h1) (
      l,
      (
        subst (λ code. IsFullCode (some code)) (sym behind) (code_parts code six),
        shape ∙ ap2 (λ hex code. hex ++ (126 ∷ code)) (sym (w ∙ front)) (sym behind),
      ),
    )

coded-IsWrittenBy :
    (stripped : Str) (r : ParsedInvitation)
    → is_hex_with_code stripped ≡ true
    → parse_coded stripped (tilde_of stripped) ≡ ok r
    → IsWrittenBy stripped r
unfolding is_hex_with_code
coded-IsWrittenBy stripped r t h =
    let (hex, tail) = and_parts (is_hex_id (take 32 stripped)) _ t in
    let (code, (shape, six)) = tail_shape (drop 32 stripped) tail in
    let (sized, digits) = hex_parts (take 32 stripped) hex in
    parts stripped (take 32 stripped) code
      (sym (take-append-drop 32 stripped) ∙ ap (λ tail. take 32 stripped ++ tail) shape) sized
      digits six r h

-- The ways to succeed.
successes :
    (bare coded short : Bool) (x y : Orchestrated ParsedInvitation) {r : ParsedInvitation}
    → (if bare then x else if coded then y else require (not short) malformed_invitation >> x)
      ≡ ok r
    → (x ≡ ok r) ⊎ ((coded ≡ true) × (y ≡ ok r))
successes true coded short x y h = inl h
successes false true short x y h = inr (refl, h)
successes false false true x y h = absurd (cc)
successes false false false x y h = inl h

-- A fragment that parses is, without a leading `#` and in lower case, the text of an id of 16 bytes, alone or with
-- a code of exactly six digits behind a `~`; and the id and the code are what the parse gives.
pub parse_invitation-IsWrittenBy :
    (fragment : Str) (r : ParsedInvitation)
    → parse_invitation fragment ≡ ok r
    → IsWrittenBy (to_lower_case (strip_hash fragment)) r
unfolding parse_invitation
parse_invitation-IsWrittenBy fragment r h =
    let stripped = to_lower_case (strip_hash fragment) in
    elim (successes (is_hex_id stripped) (is_hex_with_code stripped)
      (is_short_code stripped (tilde_of stripped)) (parse_bare stripped)
      (parse_coded stripped (tilde_of stripped)) h) [
        | inl bare ↦ bare-IsWrittenBy stripped r bare
        | inr (coded, e) ↦ coded-IsWrittenBy stripped r coded e
      ]
