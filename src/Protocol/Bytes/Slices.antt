-- ===== src/Protocol/Bytes/Slices.antt =====
-- A byte array read part after part.
use fuck_chat_control.Base.{
  ℕ, zero, suc, ◌+◌, ◌≤◌, ◌<◌, ◌≡◌, refl, sym, ap, ◌∙◌, List, [], ◌∷◌, ◌++◌, arith, length, get_or,
  take, drop, take-append-drop,
}
use fuck_chat_control.Protocol.Bytes.{
  uint32_be, read_uint32_be, Bytes, uint32_be-read, take-append, drop-append,
}

pub drop-get_or :
    (xs : List ℕ) (o : ℕ) → o < length xs → drop o xs ≡ get_or xs o 0 ∷ drop (o + 1) xs
drop-get_or [] o h = absurd (omega arith)
drop-get_or (x ∷ xs) zero h = refl
drop-get_or (x ∷ xs) (suc o) h =
    drop-get_or xs o (omega arith)
    ∙ ap (λ k. get_or xs o 0 ∷ drop k (x ∷ xs)) {x = suc (o + 1)} (omega arith)

drop_nil : (n : ℕ) → drop {A = ℕ} n [] ≡ []
drop_nil zero = refl
drop_nil (suc n) = refl

pub drop-take : (xs : List ℕ) (o n : ℕ) → drop o xs ≡ take n (drop o xs) ++ drop (o + n) xs
drop-take xs zero n =
    ap (λ l. l) (sym (take-append-drop n xs))
    ∙ ap (λ k. take n xs ++ drop k xs) {x = n} (omega arith)
drop-take [] (suc o) zero = sym (drop_nil (suc o + 0))
drop-take [] (suc o) (suc n) = sym (drop_nil (suc o + suc n))
drop-take (x ∷ xs) (suc o) n =
    drop-take xs o n
    ∙ ap (λ k. take n (drop o xs) ++ drop k (x ∷ xs)) {x = suc (o + n)} (omega arith)

pub read_suc : (x : ℕ) (xs : List ℕ) (o : ℕ) → read_uint32_be (x ∷ xs) (suc o) ≡ read_uint32_be xs o
read_suc x xs o = rw (step 1, step 2, step 3) refl
  where
    step : (k : ℕ) → suc o + k ≡ suc (o + k)
    step k = omega arith

pub drop-read_uint32_be :
    (xs : List ℕ) (o : ℕ)
    → Bytes xs
    → o + 4 ≤ length xs
    → drop o xs ≡ uint32_be (read_uint32_be xs o) ++ drop (o + 4) xs
drop-read_uint32_be (a ∷ b ∷ c ∷ d ∷ xs) zero (ha, (hb, (hc, (hd, h)))) l =
    ap (λ l. l ++ xs) (sym (uint32_be-read a b c d ha hb hc hd))
drop-read_uint32_be (x ∷ xs) (suc o) (_, h) l =
    drop-read_uint32_be xs o h (omega arith)
    ∙ ap (λ v. uint32_be v ++ drop (o + 4) xs) (sym (read_suc x xs o))
    ∙ ap (λ k. uint32_be (read_uint32_be (x ∷ xs) (suc o)) ++ drop k (x ∷ xs)) {x = suc (o + 4)}
        (omega arith)
drop-read_uint32_be _ _ h l = absurd (omega arith)

pub drop_all : (xs : List ℕ) (n : ℕ) → length xs ≡ n → drop n xs ≡ []
drop_all xs n h = rw (sym h) (all xs)
  where
    all : (xs : List ℕ) → drop (length xs) xs ≡ []
    all [] = refl
    all (x ∷ xs) = all xs

-- Two concatenations whose first parts are of one length are the same only part for part.
pub append_cancel :
    (xs ys zs us : List ℕ) (n : ℕ)
    → length xs ≡ n
    → length zs ≡ n
    → xs ++ ys ≡ zs ++ us
    → (xs ≡ zs) × (ys ≡ us)
append_cancel xs ys zs us n h k e = (
  sym (take-append xs ys n h) ∙ ap (take n) e ∙ take-append zs us n k,
  sym (drop-append xs ys n h) ∙ ap (drop n) e ∙ drop-append zs us n k,
)
