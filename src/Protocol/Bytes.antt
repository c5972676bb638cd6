-- ===== src/Protocol/Bytes.antt =====
-- Byte arrays, and protocol/codec.ts: `writeUint32Be`, `readUint32Be`.
pub mod Slices
use fuck_chat_control.Base.{
  ℕ, zero, suc, ◌+◌, ◌-◌, ◌*◌, ◌/◌, ◌%◌, ◌^◌, ◌≤◌, ◌<◌, ◌≡◌, refl, sym, ap, ◌∙◌, List, [], ◌∷◌,
  ◌++◌, arith, Bool, true, false, ◌&&◌, ltb, length, get_or, set, take, drop, replicate,
}

-- `out.set(xs, i)`, for a source that fits.
abbrev pub put : List ℕ → ℕ → List ℕ → List ℕ
put out i [] = out
put out i (x ∷ xs) = put (set out i x) (i + 1) xs

-- `xs.subarray(from, to)`.
abbrev pub subarray : List ℕ → ℕ → ℕ → List ℕ
subarray xs from to = take (to - from) (drop from xs)

-- `value >>> 24 & 0xff` and so on.
abbrev pub uint32_be : ℕ → List ℕ
uint32_be value =
    value / 16777216 % 256 ∷ value / 65536 % 256 ∷ value / 256 % 256 ∷ value % 256 ∷ []

abbrev pub write_uint32_be : List ℕ → ℕ → ℕ → List ℕ
write_uint32_be target offset value =
    set
      (set (set (set target offset (value / 16777216 % 256)) (offset + 1) (value / 65536 % 256))
        (offset + 2) (value / 256 % 256))
      (offset + 3) (value % 256)

abbrev pub read_uint32_be : List ℕ → ℕ → ℕ
read_uint32_be src offset =
    (get_or src offset 0 * 0x1000000
      + get_or src (offset + 1) 0 * 2 ^ 16
      + get_or src (offset + 2) 0 * 2 ^ 8
      + get_or src (offset + 3) 0)
    % 2 ^ 32

-- All elements of an array are bytes.
abbrev pub Bytes : List ℕ → Type 0
Bytes [] = Unit {0}
Bytes (x ∷ xs) = (x < 256) × Bytes xs

set-append :
    (done rest : List ℕ) (x y : ℕ)
    → set (done ++ y ∷ rest) (length done) x ≡ (done ++ x ∷ []) ++ rest
set-append [] rest x y = refl
set-append (d ∷ done) rest x y = ap (λ xs. d ∷ xs) (set-append done rest x y)

length-snoc : (xs : List ℕ) (x : ℕ) → length (xs ++ x ∷ []) ≡ length xs + 1
length-snoc [] x = refl
length-snoc (y ∷ xs) x = omega (arith, length-snoc xs x)

pub append_assoc {ℓ} : {A : Type ℓ} (xs ys zs : List A) → (xs ++ ys) ++ zs ≡ xs ++ (ys ++ zs)
append_assoc [] ys zs = refl
append_assoc (x ∷ xs) ys zs = ap (λ l. x ∷ l) (append_assoc xs ys zs)

pub append_nil {ℓ} : {A : Type ℓ} (xs : List A) → xs ++ [] ≡ xs
append_nil [] = refl
append_nil (x ∷ xs) = ap (λ l. x ∷ l) (append_nil xs)

-- Writing at the end of what is written of a new array.
pub put-append :
    (done xs : List ℕ) (n k : ℕ)
    → length done ≡ n
    → put (done ++ replicate (length xs + k) 0) n xs ≡ (done ++ xs) ++ replicate k 0
put-append done [] n k h = rw (append_nil done, show_zero) refl
  where
    show_zero : 0 + k ≡ k
    show_zero = omega arith
put-append done (x ∷ xs) n k h =
    rw (unary, sym h, set-append done (replicate (length xs + k) 0) x 0)
      (put-append (done ++ x ∷ []) xs (length done + 1) k (length-snoc done x)
        ∙ ap (λ l. l ++ replicate k 0) (append_assoc done (x ∷ []) xs))
  where
    unary : suc (length xs) + k ≡ suc (length xs + k)
    unary = omega arith

pub write_uint32_be-put : (t : List ℕ) (o v : ℕ) → write_uint32_be t o v ≡ put t o (uint32_be v)
write_uint32_be-put t o v = rw (two, three) refl
  where
    two : o + 1 + 1 ≡ o + 2
    two = omega arith

    three : o + 2 + 1 ≡ o + 3
    three = omega arith

pub get_or-append :
    (xs ys : List ℕ) (i n : ℕ) → length xs ≡ n → get_or (xs ++ ys) (n + i) 0 ≡ get_or ys i 0
get_or-append [] ys i n h = ap (λ k. get_or ys k 0) (omega arith)
get_or-append (x ∷ xs) ys i n h =
    ap (λ k. get_or (x ∷ xs ++ ys) k 0) step ∙ get_or-append xs ys i (length xs) refl
  where
    step : n + i ≡ suc (length xs + i)
    step = omega arith

pub read-uint32_be :
    (v : ℕ) (rest : List ℕ) → v < 2 ^ 32 → read_uint32_be (uint32_be v ++ rest) 0 ≡ v
read-uint32_be v rest h = omega arith

pub uint32_be-read :
    (a b c d : ℕ)
    → a < 256
    → b < 256
    → c < 256
    → d < 256
    → uint32_be ((a * 0x1000000 + b * 2 ^ 16 + c * 2 ^ 8 + d) % 2 ^ 32) ≡ a ∷ b ∷ c ∷ d ∷ []
uint32_be-read a b c d h i j k = cong4 (omega arith) (omega arith) (omega arith) (omega arith)
  where
    cong4 :
        {p q r s p' q' r' s' : ℕ}
        → p ≡ p'
        → q ≡ q'
        → r ≡ r'
        → s ≡ s'
        → ◌≡◌ {A = List ℕ} (p ∷ q ∷ r ∷ s ∷ []) (p' ∷ q' ∷ r' ∷ s' ∷ [])
    cong4 e f g h = cc

pub read_uint32_be-append :
    (xs ys : List ℕ) (i n : ℕ)
    → length xs ≡ n
    → read_uint32_be (xs ++ ys) (n + i) ≡ read_uint32_be ys i
read_uint32_be-append xs ys i n h =
    rw (next 1, next 2, next 3)
      (rw
        (
          get_or-append xs ys i n h,
          get_or-append xs ys (i + 1) n h,
          get_or-append xs ys (i + 2) n h,
          get_or-append xs ys (i + 3) n h,
        )
        refl)
  where
    next : (k : ℕ) → n + i + k ≡ n + (i + k)
    next k = omega arith

-- What `put-append` says of a write in a sequence of writes.
pub put-written :
    {out : List ℕ} (done xs : List ℕ) (n k m : ℕ)
    → out ≡ done ++ replicate m 0
    → length done ≡ n
    → m ≡ length xs + k
    → put out n xs ≡ (done ++ xs) ++ replicate k 0
put-written done xs n k m e l h =
    ap (λ o. put o n xs) (e ∙ ap (λ m. done ++ replicate m 0) h) ∙ put-append done xs n k l

pub take-append : (xs ys : List ℕ) (n : ℕ) → length xs ≡ n → take n (xs ++ ys) ≡ xs
take-append [] ys zero h = refl
take-append [] ys (suc n) h = absurd (omega arith)
take-append (x ∷ xs) ys zero h = absurd (omega arith)
take-append (x ∷ xs) ys (suc n) h = ap (λ l. x ∷ l) (take-append xs ys n (omega arith))

pub drop-append : (xs ys : List ℕ) (n : ℕ) → length xs ≡ n → drop n (xs ++ ys) ≡ ys
drop-append [] ys zero h = refl
drop-append [] ys (suc n) h = absurd (omega arith)
drop-append (x ∷ xs) ys zero h = absurd (omega arith)
drop-append (x ∷ xs) ys (suc n) h = drop-append xs ys n (omega arith)

pub write-written :
    {out : List ℕ} (done : List ℕ) (v n k m : ℕ)
    → out ≡ done ++ replicate m 0
    → length done ≡ n
    → m ≡ 4 + k
    → write_uint32_be out n v ≡ (done ++ uint32_be v) ++ replicate k 0
write-written {out} done v n k m e l h =
    write_uint32_be-put out n v ∙ put-written done (uint32_be v) n k m e l h

abbrev pub are_bytes : List ℕ → Bool
are_bytes [] = true
are_bytes (x ∷ xs) = ltb x 256 && are_bytes xs

pub are_bytes-Bytes : (xs : List ℕ) → are_bytes xs ≡ true → Bytes xs
are_bytes-Bytes [] h = tt
are_bytes-Bytes (x ∷ xs) h = (ground arith, are_bytes-Bytes xs (ground arith))
