-- ===== src/Base/Result.antt =====
-- What a function that may throw leaves: a value, or the error's code.
use mathlib.Core.Bool.{Bool, true, false}
use mathlib.Core.Path.{◌≡◌, refl}
use mathlib.Core.Logic.{◌⊎◌, inl, inr}

pub data Result {ℓ κ} (E : Type ℓ) (A : Type κ) : Type (ℓ ⊔ κ) where
  ok : A → Result E A
  err : E → Result E A

module _ {ℓ} {E : Type ℓ} where
  -- `if (!holds) throw code`.
  abbrev pub require : (holds : Bool) (code : E) → Result E (Unit {0})
  require false code = err code
  require true code = ok tt

  -- What comes after a call that may throw.
  abbrev pub ◌>>=◌ {κ μ} : {A : Type κ} {B : Type μ} → Result E A → (A → Result E B) → Result E B
  err code >>= rest = err code
  ok value >>= rest = rest value

  abbrev pub ◌>>◌ {κ} : {B : Type κ} → Result E (Unit {0}) → Result E B → Result E B
  check >> rest = check >>= λ _. rest

  infixl 5 ◌>>=◌ ◌>>◌
  pub >>=-eq-ok {κ μ} :
      {A : Type κ} {B : Type μ} (call : Result E A) (rest : A → Result E B) {final : B}
      → (call >>= rest) ≡ ok final
      → (value : A) × (call ≡ ok value) × (rest value ≡ ok final)
  >>=-eq-ok (err code) rest h = absurd (cc)
  >>=-eq-ok (ok value) rest h = (value, refl, h)

  pub require-eq-ok :
      (holds : Bool) (code : E) {u : Unit {0}} → require holds code ≡ ok u → holds ≡ true
  require-eq-ok false code h = absurd (cc)
  require-eq-ok true code h = refl

  pub of_ok {κ} : {A : Type κ} {x y : A} → ◌≡◌ {A = Result E A} (ok x) (ok y) → x ≡ y
  of_ok h = cc

  pub Result-cases {κ} :
      {A : Type κ} (m : Result E A) → ((a : A) × (m ≡ ok a)) ⊎ ((e : E) × (m ≡ err e))
  Result-cases (ok a) = inl (a, refl)
  Result-cases (err e) = inr (e, refl)
