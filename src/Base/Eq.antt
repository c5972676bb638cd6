-- ===== src/Base/Eq.antt =====
-- Equality of keys as an interface: numbers stand for objects with an identity, lists of code units
-- for JavaScript strings.
use Prim.Native.Nat.{ℕ}
use mathlib.Core.Path.{◌≡◌, refl}
use mathlib.Core.Logic.{◌↔◌}
use mathlib.Core.Bool.{Bool, true, false, ◌&&◌}
use mathlib.Core.List.{List, [], ◌∷◌}
use native.Mathlib.Omega.{arith}
use fuck_chat_control.Base.Tests.{◌==◌ as nat_beq, ==_iff as nat_beq_iff}

pub record Eq {ℓ} (A : Type ℓ) : Type ℓ where
  pub beq : A → A → Bool
  pub beq_iff : (key other : A) → (beq key other ≡ true) ↔ (key ≡ other)

infix 50 ◌===◌
abbrev pub ◌===◌ {ℓ} : {A : Type ℓ} ⦃e : Eq A⦄ → A → A → Bool
◌===◌ ⦃e⦄ = e.beq

instance abbrev pub nat_eq : Eq ℕ
nat_eq = record { beq = nat_beq; beq_iff = nat_beq_iff }

-- A JavaScript string: its UTF-16 code units.
abbrev pub Str : Type 0
Str = List ℕ

unfoldable pub str_beq : Str → Str → Bool
str_beq [] [] = true
str_beq (a ∷ s) (b ∷ t) = nat_beq a b && str_beq s t
str_beq _ _ = false

pub str_beq_iff : (s t : Str) → (str_beq s t ≡ true) ↔ (s ≡ t)
unfolding str_beq
str_beq_iff [] [] = (λ _. refl, λ _. refl)
str_beq_iff [] (b ∷ t) = (λ h. cc, λ h. cc)
str_beq_iff (a ∷ s) [] = (λ h. cc, λ h. cc)
str_beq_iff (a ∷ s) (b ∷ t) =
    (λ h. ground (arith, (str_beq_iff s t).0), λ h. ground (arith, (str_beq_iff s t).1))

instance abbrev pub str_eq : Eq Str
str_eq = record { beq = str_beq; beq_iff = str_beq_iff }

module _ {ℓ} {A : Type ℓ} ⦃e : Eq A⦄ where
  pub beq_refl : (a : A) → e.beq a a ≡ true
  beq_refl a = (e.beq_iff a a).1 refl
