-- ===== src/Protocol/Nonce/Distinct.antt =====
-- The nonces of a session are different.
use Prim.Native.Nat.{bit_xor}
use fuck_chat_control.Base.{
  ℕ, zero, suc, ◌/◌, ◌%◌, ◌≤◌, ◌<◌, ◌≡◌, refl, sym, ap, ◌∙◌, Bool, true, ◌&&◌, List, [], ◌∷◌, ◌==◌,
  ==_iff, arith, if◌then◌else◌, length, length-set, length-take, get_or, get_or-set, leb→le,
}
use fuck_chat_control.Base.Result.{ok, >>=-eq-ok, require-eq-ok, of_ok}
use fuck_chat_control.Protocol.Bytes.{subarray, Bytes}
use fuck_chat_control.Protocol.Codec.{assert_exact_length, assert_uint32}
use fuck_chat_control.Protocol.Codec.Header.{Bytes-take}
use fuck_chat_control.Protocol.Nonce.{xor_at, fill_nonce, derive_nonce}

abbrev all_below : ℕ → (ℕ → Bool) → Bool
all_below zero p = true
all_below (suc n) p = p n && all_below n p

all_below_lem : (n : ℕ) (p : ℕ → Bool) (x : ℕ) → all_below n p ≡ true → x < n → p x ≡ true
all_below_lem zero p x h l = absurd (omega arith)
all_below_lem (suc n) p x h l = ground (arith, all_below_lem n p x)

-- Every pair of bytes.
xor_table : all_below 256 (λ a. all_below 256 (λ x. bit_xor a (bit_xor a x) == x)) ≡ true
xor_table = refl

xor_twice : (a x : ℕ) → a < 256 → x < 256 → bit_xor a (bit_xor a x) ≡ x
xor_twice a x h k = (==_iff _ x).0 (
    all_below_lem 256 (λ x. bit_xor a (bit_xor a x) == x) x
      (all_below_lem 256 (λ a. all_below 256 (λ x. bit_xor a (bit_xor a x) == x)) a xor_table h) k)

xor_cancel : (a x y : ℕ) → a < 256 → x < 256 → y < 256 → bit_xor a x ≡ bit_xor a y → x ≡ y
xor_cancel a x y h k l e = sym (xor_twice a x h k) ∙ ap (bit_xor a) e ∙ xor_twice a y h l

read-xor_at :
    (n : List ℕ) (i j byte : ℕ)
    → i < length n
    → get_or (xor_at n i byte) j 0 ≡ (if i == j then bit_xor (get_or n i 0) byte else get_or n j 0)
read-xor_at n i j byte l = get_or-set n i j (bit_xor (get_or n i 0) byte) 0 l

length-xor_at : (n : List ℕ) (i byte : ℕ) → length (xor_at n i byte) ≡ length n
length-xor_at n i byte = length-set n i (bit_xor (get_or n i 0) byte)

-- The last four bytes after the four writes one after the other.
xor_at-last_four :
    (n : List ℕ) (a b c d : ℕ)
    → length n ≡ 12
    → (get_or (xor_at (xor_at (xor_at (xor_at n 8 a) 9 b) 10 c) 11 d) 8 0
        ≡ bit_xor (get_or n 8 0) a)
      × (get_or (xor_at (xor_at (xor_at (xor_at n 8 a) 9 b) 10 c) 11 d) 9 0
          ≡ bit_xor (get_or n 9 0) b)
      × (get_or (xor_at (xor_at (xor_at (xor_at n 8 a) 9 b) 10 c) 11 d) 10 0
          ≡ bit_xor (get_or n 10 0) c)
      × (get_or (xor_at (xor_at (xor_at (xor_at n 8 a) 9 b) 10 c) 11 d) 11 0
          ≡ bit_xor (get_or n 11 0) d)
xor_at-last_four n a b c d h =
    let f = xor_at n 8 a in
    let s = xor_at f 9 b in
    let t = xor_at s 10 c in
    let fl : length f ≡ 12 = length-xor_at n 8 a ∙ h in
    let sl : length s ≡ 12 = length-xor_at f 9 b ∙ fl in
    let tl : length t ≡ 12 = length-xor_at s 10 c ∙ sl in
    (
      read-xor_at t 11 8 d (omega (arith, tl))
          ∙ read-xor_at s 10 8 c (omega (arith, sl))
          ∙ read-xor_at f 9 8 b (omega (arith, fl))
          ∙ read-xor_at n 8 8 a (omega (arith, h)),
      read-xor_at t 11 9 d (omega (arith, tl))
          ∙ read-xor_at s 10 9 c (omega (arith, sl))
          ∙ read-xor_at f 9 9 b (omega (arith, fl))
          ∙ ap (λ x. bit_xor x b) (read-xor_at n 8 9 a (omega (arith, h))),
      read-xor_at t 11 10 d (omega (arith, tl))
          ∙ read-xor_at s 10 10 c (omega (arith, sl))
          ∙ ap (λ x. bit_xor x c)
              (read-xor_at f 9 10 b (omega (arith, fl)) ∙ read-xor_at n 8 10 a (omega (arith, h))),
      read-xor_at t 11 11 d (omega (arith, tl))
          ∙ ap (λ x. bit_xor x d)
              (read-xor_at s 10 11 c (omega (arith, sl))
                ∙ read-xor_at f 9 11 b (omega (arith, fl))
                ∙ read-xor_at n 8 11 a (omega (arith, h))),
    )

get_or-byte : (xs : List ℕ) (i : ℕ) → Bytes xs → get_or xs i 0 < 256
get_or-byte [] i b = omega arith
get_or-byte (x ∷ xs) zero b = b.0
get_or-byte (x ∷ xs) (suc i) b = get_or-byte xs i b.1

-- One of the four bytes tells the sequence numbers' bytes apart.
same_byte :
    {n m k x y : ℕ}
    → k < 256
    → x < 256
    → y < 256
    → n ≡ bit_xor k x
    → m ≡ bit_xor k y
    → n ≡ m
    → x ≡ y
same_byte {k = k} {x = x} {y = y} h i j e f g = xor_cancel k x y h i j (sym e ∙ g ∙ f)

-- Two sequence numbers for which the same nonce is derived from one session id of bytes are the same.
pub derive_nonce_injective :
    (session nonce : List ℕ) (s t : ℕ)
    → Bytes session
    → derive_nonce session s ≡ ok nonce
    → derive_nonce session t ≡ ok nonce
    → s ≡ t
unfolding derive_nonce
derive_nonce_injective session nonce s t bytes h k =
    let (_, l, h1) = >>=-eq-ok (assert_exact_length session 32) _ h in
    let (_, sb, h2) = >>=-eq-ok (assert_uint32 s) (λ _. ok (fill_nonce session s)) h1 in
    let (_, _, k1) = >>=-eq-ok (assert_exact_length session 32) _ k in
    let (_, tb, k2) = >>=-eq-ok (assert_uint32 t) (λ _. ok (fill_nonce session t)) k1 in
    let sized : length (subarray session 0 12) ≡ 12 =
      omega (arith, length-take 12 session, (==_iff (length session) 32).0 (require-eq-ok _ _ l)) in
    let same : fill_nonce session s ≡ fill_nonce session t = of_ok h2 ∙ sym (of_ok k2) in
    equal (subarray session 0 12) sized (Bytes-take session 12 bytes)
      (leb→le _ _ (require-eq-ok _ _ sb)) (leb→le _ _ (require-eq-ok _ _ tb)) same
  where
    equal :
        (n : List ℕ)
        → length n ≡ 12
        → Bytes n
        → s ≤ 4294967295
        → t ≤ 4294967295
        → xor_at
            (xor_at
              (xor_at (xor_at n 8 (s / 16777216 % 256)) 9 (s / 65536 % 256))
              10
              (s / 256 % 256))
            11
            (s % 256)
          ≡ xor_at
              (xor_at
                (xor_at (xor_at n 8 (t / 16777216 % 256)) 9 (t / 65536 % 256))
                10
                (t / 256 % 256))
              11
              (t % 256)
        → s ≡ t
    equal n l b sb tb e =
        let (p, q, r, u) =
          xor_at-last_four n (s / 16777216 % 256) (s / 65536 % 256) (s / 256 % 256) (s % 256) l in
        let (p', q', r', u') =
          xor_at-last_four n (t / 16777216 % 256) (t / 65536 % 256) (t / 256 % 256) (t % 256) l in
        let w =
          same_byte (get_or-byte n 8 b) (omega arith) (omega arith) p p'
            (ap (λ m. get_or m 8 0) e) in
        let x =
          same_byte (get_or-byte n 9 b) (omega arith) (omega arith) q q'
            (ap (λ m. get_or m 9 0) e) in
        let y =
          same_byte (get_or-byte n 10 b) (omega arith) (omega arith) r r'
            (ap (λ m. get_or m 10 0) e) in
        let z =
          same_byte (get_or-byte n 11 b) (omega arith) (omega arith) u u'
            (ap (λ m. get_or m 11 0) e) in
        omega (arith, w, x, y, z, sb, tb)

pub length-derive_nonce :
    (session nonce : List ℕ) (s : ℕ) → derive_nonce session s ≡ ok nonce → length nonce ≡ 12
unfolding derive_nonce
length-derive_nonce session nonce s h =
    let (_, l, h1) = >>=-eq-ok (assert_exact_length session 32) _ h in
    let (_, _, h2) = >>=-eq-ok (assert_uint32 s) (λ _. ok (fill_nonce session s)) h1 in
    let n = subarray session 0 12 in
    let f = xor_at n 8 (s / 16777216 % 256) in
    let g = xor_at f 9 (s / 65536 % 256) in
    let k = xor_at g 10 (s / 256 % 256) in
    ap length (sym (of_ok h2))
    ∙ length-xor_at k 11 (s % 256)
    ∙ length-xor_at g 10 (s / 256 % 256)
    ∙ length-xor_at f 9 (s / 65536 % 256)
    ∙ length-xor_at n 8 (s / 16777216 % 256)
    ∙ omega (arith, length-take 12 session, (==_iff (length session) 32).0 (require-eq-ok _ _ l))
