-- ===== src/Protocol/Codec/Roles.antt =====
-- Two peers take opposite roles.
use fuck_chat_control.Base.{
  ℕ, ◌≡◌, refl, sym, ap, ap2, ◌∙◌, ◌⊎◌, inl, inr, true, false, List, [], ◌∷◌, if◌then◌else◌, ltb,
  ◌==◌, ==_iff, arith, length, Bool-cases,
}
use fuck_chat_control.Base.Result.{ok, err}
use fuck_chat_control.Protocol.Types.{Role, initiator, responder, role_indeterminable}
use fuck_chat_control.Protocol.Codec.{
  Comparison, below, equal, above, compare_numbers, compare_bytes, role_of, derive_role,
}

abbrev pub opposite : Comparison → Comparison
opposite below = above
opposite equal = equal
opposite above = below

abbrev pub other_role : Role → Role
other_role initiator = responder
other_role responder = initiator

compare_numbers-swap : (a b : ℕ) → compare_numbers b a ≡ opposite (compare_numbers a b)
compare_numbers-swap a b = elim (Bool-cases (ltb a b)) [
  | inl l ↦ let g : ltb b a ≡ false = ground arith in rw (l, g) refl
  | inr n ↦ elim (Bool-cases (ltb b a)) [ inl g ↦ rw (n, g) refl | inr m ↦ rw (n, m) refl ]
]

pub compare_bytes-swap : (a b : List ℕ) → compare_bytes b a ≡ opposite (compare_bytes a b)
unfolding compare_bytes
compare_bytes-swap [] [] = refl
compare_bytes-swap [] (y ∷ b) = refl
compare_bytes-swap (x ∷ a) [] = refl
compare_bytes-swap (x ∷ a) (y ∷ b) = elim (Bool-cases (x == y)) [
  | inl e ↦
      let f : (y == x) ≡ true = (==_iff y x).1 (sym ((==_iff x y).0 e)) in
      rw (e, f) (compare_bytes-swap a b)
  | inr n ↦ let f : (y == x) ≡ false = ground arith in rw (n, f) (compare_numbers-swap x y)
]

compare_numbers-equal : (a b : ℕ) → compare_numbers a b ≡ equal → a ≡ b
compare_numbers-equal a b h = ground arith

pub compare_bytes-equal : (a b : List ℕ) → compare_bytes a b ≡ equal → a ≡ b
unfolding compare_bytes
compare_bytes-equal [] [] h = refl
compare_bytes-equal [] (y ∷ b) h = absurd (cc)
compare_bytes-equal (x ∷ a) [] h = absurd (cc)
compare_bytes-equal (x ∷ a) (y ∷ b) h = elim (Bool-cases (x == y)) [
  | inl e ↦ ap2 (λ x a. x ∷ a) ((==_iff x y).0 e) (compare_bytes-equal a b (same e))
  | inr n ↦ let e : x ≡ y = compare_numbers-equal x y (differ n) in absurd (contra e n)
]
  where
    same : (x == y) ≡ true → compare_bytes a b ≡ equal
    same e = sym (ap (λ t. if t then compare_bytes a b else compare_numbers x y) e) ∙ h

    differ : (x == y) ≡ false → compare_numbers x y ≡ equal
    differ e = sym (ap (λ t. if t then compare_bytes a b else compare_numbers x y) e) ∙ h

    contra : x ≡ y → (x == y) ≡ false → ⊥
    contra e n = let t : (x == y) ≡ true = (==_iff x y).1 e in absurd (cc)

pub derive_role-of :
    (a b : List ℕ) → length a ≡ 65 → length b ≡ 65 → derive_role a b ≡ role_of (compare_bytes a b)
unfolding derive_role
derive_role-of a b h k = rw ((==_iff (length a) 65).1 h, (==_iff (length b) 65).1 k) refl

-- Two peers with 65-byte identity keys derive opposite roles, each from its own side, unless the keys
-- are the same: then both derivations fail.
pub derive_role-IsOpposite :
    (a b : List ℕ)
    → length a ≡ 65
    → length b ≡ 65
    → ((a ≡ b)
        × (derive_role a b ≡ err role_indeterminable)
        × (derive_role b a ≡ err role_indeterminable))
      ⊎ ((r : Role) × (derive_role a b ≡ ok r) × (derive_role b a ≡ ok (other_role r)))
derive_role-IsOpposite a b h k = go (compare_bytes a b) refl
  where
    go :
        (c : Comparison)
        → compare_bytes a b ≡ c
        → ((a ≡ b)
            × (derive_role a b ≡ err role_indeterminable)
            × (derive_role b a ≡ err role_indeterminable))
          ⊎ ((r : Role) × (derive_role a b ≡ ok r) × (derive_role b a ≡ ok (other_role r)))
    go equal e = inl (
      compare_bytes-equal a b e,
      derive_role-of a b h k ∙ ap role_of e,
      derive_role-of b a k h ∙ ap role_of (compare_bytes-swap a b ∙ ap opposite e),
    )
    go below e = inr (
      initiator,
      derive_role-of a b h k ∙ ap role_of e,
      derive_role-of b a k h ∙ ap role_of (compare_bytes-swap a b ∙ ap opposite e),
    )
    go above e = inr (
      responder,
      derive_role-of a b h k ∙ ap role_of e,
      derive_role-of b a k h ∙ ap role_of (compare_bytes-swap a b ∙ ap opposite e),
    )
