-- ===== src/Group/PairwiseId/Pairs.antt =====
-- An id stands for a group and two members of it, whichever of the two derives it.
use fuck_chat_control.Base.{
  ℕ, ◌≡◌, refl, sym, ap, ap2, ◌∙◌, ◌⊎◌, inl, inr, ◌↔◌, Bool, List, ◌++◌, length, ◌==◌, ==_iff,
}
use fuck_chat_control.Base.Result.{ok, err, ◌>>=◌, ◌>>◌, require, >>=-eq-ok, require-eq-ok, of_ok}
use fuck_chat_control.Protocol.Bytes.{subarray}
use fuck_chat_control.Protocol.Bytes.Slices.{append_cancel}
use fuck_chat_control.Protocol.Codec.{
  Checked, Comparison, below, equal, above, compare_bytes, assert_exact_length,
}
use fuck_chat_control.Protocol.Codec.Roles.{opposite, compare_bytes-swap, compare_bytes-equal}
use fuck_chat_control.Protocol.Keys.{encode_public_key}
use fuck_chat_control.Protocol.Keys.Valid.{encode_public_key-eq-ok}
use fuck_chat_control.Group.Errors.{Grouped, passed_on, encode_group_id}
use fuck_chat_control.Group.PairwiseId.{
  pairwise_domain, ordered_by, pairwise_material, derive_pairwise_conv_id,
}

ordered_by-swap :
    (c : Comparison) (a b : List ℕ)
    → compare_bytes a b ≡ c
    → ordered_by (opposite c) b a ≡ ordered_by c a b
ordered_by-swap below a b h = refl
ordered_by-swap above a b h = refl
ordered_by-swap equal a b h = rw (compare_bytes-equal a b h) refl

pairwise_material-swap : (gid a b : List ℕ) → pairwise_material gid b a ≡ pairwise_material gid a b
unfolding pairwise_material
pairwise_material-swap gid a b =
    ap (λ o. pairwise_domain ++ (gid ++ o))
      (ap (λ c. ordered_by c b a) (compare_bytes-swap a b)
        ∙ ordered_by-swap (compare_bytes a b) a b refl)

-- Two keys, in either order.
abbrev pub SamePair : List ℕ → List ℕ → List ℕ → List ℕ → Type 0
SamePair a b c d = ((a ≡ c) × (b ≡ d)) ⊎ ((a ≡ d) × (b ≡ c))

module _ (a b c d : List ℕ) (ha : length a ≡ 65) (hb : length b ≡ 65) (hc : length c ≡ 65)
    (hd : length d ≡ 65) where
  straight : a ++ b ≡ c ++ d → SamePair a b c d
  straight e = inl (append_cancel a b c d 65 ha hc e)

  crossed : a ++ b ≡ d ++ c → SamePair a b c d
  crossed e = inr (append_cancel a b d c 65 ha hd e)

  crossed_left : b ++ a ≡ c ++ d → SamePair a b c d
  crossed_left e = let (x, y) = append_cancel b a c d 65 hb hc e in inr (y, x)

  crossed_both : b ++ a ≡ d ++ c → SamePair a b c d
  crossed_both e = let (x, y) = append_cancel b a d c 65 hb hd e in inl (y, x)

  of_ordered : (p q : Comparison) → ordered_by p a b ≡ ordered_by q c d → SamePair a b c d
  of_ordered below below e = straight e
  of_ordered below equal e = straight e
  of_ordered below above e = crossed e
  of_ordered equal below e = straight e
  of_ordered equal equal e = straight e
  of_ordered equal above e = crossed e
  of_ordered above below e = crossed_left e
  of_ordered above equal e = crossed_left e
  of_ordered above above e = crossed_both e

  of_material :
      (g h : List ℕ)
      → length g ≡ 16
      → length h ≡ 16
      → pairwise_material g a b ≡ pairwise_material h c d
      → (g ≡ h) × SamePair a b c d
  unfolding pairwise_material
  of_material g h hg hh e =
      let (_, inner) =
        append_cancel pairwise_domain (g ++ ordered_by (compare_bytes a b) a b) pairwise_domain
          (h ++ ordered_by (compare_bytes c d) c d) 17 refl refl e in
      let (same, keys) = append_cancel g _ h _ 16 hg hh inner in
      (same, of_ordered (compare_bytes a b) (compare_bytes c d) keys)

material-SamePair :
    (g h a b c d : List ℕ)
    → (g ≡ h) × SamePair a b c d
    → pairwise_material g a b ≡ pairwise_material h c d
material-SamePair g h a b c d (e, inl (x, y)) = rw (e, x, y) refl
material-SamePair g h a b c d (e, inr (x, y)) = rw (e, x, y) (pairwise_material-swap h c d)

passed_on-eq-ok : {A : Type 0} {a : A} (r : Checked A) → passed_on r ≡ ok a → r ≡ ok a
passed_on-eq-ok (ok x) h = ap (λ y. ok y) (of_ok h)
passed_on-eq-ok (err e) h = absurd (cc)

three_calls :
    (p q r : Grouped (List ℕ)) (rest : List ℕ → List ℕ → List ℕ → Grouped (List ℕ)) {u v w : List ℕ}
    → p ≡ ok u
    → q ≡ ok v
    → r ≡ ok w
    → (p >>= λ g. q >>= λ a. r >>= λ b. rest g a b) ≡ rest u v w
three_calls p q r rest e f g = rw (e, f, g) refl

module _ (is_point : List ℕ → Bool) (sha256 : List ℕ → List ℕ) where
  -- What a derivation that succeeds has seen.
  derived :
      (g a b : List ℕ) {id : List ℕ}
      → derive_pairwise_conv_id is_point sha256 g a b ≡ ok id
      → (length g ≡ 16)
        × ((length a ≡ 65)
            × ((length b ≡ 65) × (id ≡ subarray (sha256 (pairwise_material g a b)) 0 16)))
  unfolding derive_pairwise_conv_id
  derived g a b h =
      let (gid, e, h1) = >>=-eq-ok (encode_group_id g) _ h in
      let (_, l, e1) = >>=-eq-ok (require (length g == 16) _) _ e in
      let (a', x, h2) = >>=-eq-ok (passed_on (encode_public_key is_point a)) _ h1 in
      let (b', y, h3) = >>=-eq-ok (passed_on (encode_public_key is_point b)) _ h2 in
      let (la, ea) = encode_public_key-eq-ok is_point a (passed_on-eq-ok _ x) in
      let (lb, eb) = encode_public_key-eq-ok is_point b (passed_on-eq-ok _ y) in
      let id = subarray (sha256 (pairwise_material gid a' b')) 0 16 in
      let (_, z, h4) = >>=-eq-ok (require (length id == 16) _) _ (passed_on-eq-ok _ h3) in
      (
        (==_iff _ _).0 (require-eq-ok _ _ l),
        (
          la,
          (
            lb,
            sym (of_ok h4)
                ∙ ap (λ g. subarray (sha256 (pairwise_material g a' b')) 0 16) (sym (of_ok e1))
                ∙ ap2 (λ a b. subarray (sha256 (pairwise_material g a b)) 0 16) ea eb,
          ),
        ),
      )

  -- Where the hash does not take the two inputs to the same id, two ids that are derived are the same exactly if
  -- they were derived for the same group and the same two keys, in either order.
  pub derive_pairwise_conv_id-SamePair :
      (g h a b c d : List ℕ) {i j : List ℕ}
      → (subarray (sha256 (pairwise_material g a b)) 0 16
            ≡ subarray (sha256 (pairwise_material h c d)) 0 16
          → pairwise_material g a b ≡ pairwise_material h c d)
      → derive_pairwise_conv_id is_point sha256 g a b ≡ ok i
      → derive_pairwise_conv_id is_point sha256 h c d ≡ ok j
      → (i ≡ j) ↔ ((g ≡ h) × SamePair a b c d)
  derive_pairwise_conv_id-SamePair g h a b c d distinct x y =
      let (lg, (la, (lb, ei))) = derived g a b x in
      let (lh, (lc, (ld, ej))) = derived h c d y in
      (
        λ e. of_material a b c d la lb lc ld g h lg lh (distinct (sym ei ∙ e ∙ ej)),
        λ same.
            ei ∙ ap (λ m. subarray (sha256 m) 0 16) (material-SamePair g h a b c d same) ∙ sym ej,
      )

  -- Both members derive the same id: a derivation that succeeds for one of the two also does for the other.
  pub derive_pairwise_conv_id-swap :
      (g a b : List ℕ) {i : List ℕ}
      → derive_pairwise_conv_id is_point sha256 g a b ≡ ok i
      → derive_pairwise_conv_id is_point sha256 g b a ≡ ok i
  unfolding derive_pairwise_conv_id
  derive_pairwise_conv_id-swap g a b {i = i} h =
      let (gid, e, h1) = >>=-eq-ok (encode_group_id g) _ h in
      let (a', x, h2) = >>=-eq-ok (passed_on (encode_public_key is_point a)) _ h1 in
      let (b', y, h3) = >>=-eq-ok (passed_on (encode_public_key is_point b)) _ h2 in
      let hash : List ℕ → Grouped (List ℕ) =
        λ m. let id = subarray (sha256 m) 0 16 in passed_on (assert_exact_length id 16 >> ok id) in
      three_calls (encode_group_id g) (passed_on (encode_public_key is_point b))
        (passed_on (encode_public_key is_point a)) (λ g b a. hash (pairwise_material g b a)) e y x
      ∙ ap hash (pairwise_material-swap gid a' b')
      ∙ h3
