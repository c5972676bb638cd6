-- ===== src/Crypto/ReplayWindow/Slots.antt =====
-- The loops over the slots, read slot by slot.
use fuck_chat_control.Base.{
  ℕ, zero, suc, ◌+◌, ◌-◌, ◌≤◌, ◌<◌, ◌≡◌, refl, ap, ◌∙◌, ◌&&◌, List, if◌then◌else◌, ltb, leb, ◌==◌,
  arith, length, get_or, set, replicate, get_or-set, length-set, length-replicate, Bool-cases, inl,
  inr,
}
use fuck_chat_control.Crypto.ReplayWindow.{shift, clear, advance_by}

pub get_or-replicate : (n j : ℕ) → get_or {A = ℕ} (replicate n 0) j 0 ≡ 0
get_or-replicate zero j = refl
get_or-replicate (suc n) zero = refl
get_or-replicate (suc n) (suc j) = get_or-replicate n j

pub length-shift : (n a : ℕ) (s : List ℕ) → length (shift n a s) ≡ length s
unfolding shift
length-shift zero a s = refl
length-shift (suc n) a s =
    ground
      (arith, length-shift n a (set s (n + a) (get_or s n 0)), length-set s (n + a) (get_or s n 0))

-- The last step of the loop, with the slots before (`x` at j, `y` at j - a, `z` at n) and after.
shift_step :
    (n a j x y z x' y' : ℕ)
    → 0 < a
    → x' ≡ (if n + a == j then z else x)
    → y' ≡ (if n + a == j - a then z else y)
    → (j ≡ n + a → y ≡ z)
    → (if leb a j && ltb j (n + a) then y' else x')
      ≡ (if leb a j && ltb j (suc n + a) then y else x)
shift_step n a j x y z x' y' h e f g = ground arith

get_or-shift :
    (n a : ℕ) (s : List ℕ) (j : ℕ)
    → 0 < a
    → n + a ≤ length s
    → get_or (shift n a s) j 0
      ≡ (if leb a j && ltb j (n + a) then get_or s (j - a) 0 else get_or s j 0)
unfolding shift
get_or-shift zero a s j h l = ground arith
get_or-shift (suc n) a s j h l =
    let v = get_or s n 0 in
    get_or-shift n a (set s (n + a) v) j h (omega (arith, length-set s (n + a) v))
    ∙ shift_step n a j (get_or s j 0) (get_or s (j - a) 0) v _ _ h
        (get_or-set s (n + a) j v 0 (omega arith)) (get_or-set s (n + a) (j - a) v 0 (omega arith))
        (λ e. ap (λ i. get_or s i 0) (omega arith))

pub length-clear : (n : ℕ) (s : List ℕ) → length (clear n s) ≡ length s
unfolding clear
length-clear zero s = refl
length-clear (suc n) s = ground (arith, length-clear n s, length-set (clear n s) n 0)

get_or-clear :
    (n : ℕ) (s : List ℕ) (j : ℕ)
    → n ≤ length s
    → get_or (clear n s) j 0 ≡ (if ltb j n then 0 else get_or s j 0)
unfolding clear
get_or-clear zero s j l = ground arith
get_or-clear (suc n) s j l =
    ground (arith, get_or-clear n s j, length-clear n s, get_or-set (clear n s) n j 0 0)

pub length-advance_by :
    (size a : ℕ) (s : List ℕ) → length s ≡ size → length (advance_by size a s) ≡ size
unfolding advance_by
length-advance_by size a s l = elim (Bool-cases (leb size a)) [
  | inl far ↦ rw far (length-replicate size 0)
  | inr near ↦
      rw near (omega (arith, length-clear a (shift (size - a) a s), length-shift (size - a) a s))
]

-- Moving the window up by `a` moves each slot up by `a`, and the new slots are empty.
pub get_or-advance_by :
    (size a : ℕ) (s : List ℕ) (j : ℕ)
    → 0 < a
    → length s ≡ size
    → j < size
    → get_or (advance_by size a s) j 0 ≡ (if leb a j then get_or s (j - a) 0 else 0)
unfolding advance_by
get_or-advance_by size a s j h l b = elim (Bool-cases (leb size a)) [
  | inl far ↦ rw (far, get_or-replicate size j) (ground arith)
  | inr near ↦ rw near (
      ground (
        arith,
        get_or-clear a (shift (size - a) a s) j,
        length-shift (size - a) a s,
        get_or-shift (size - a) a s j,
      ))
]
