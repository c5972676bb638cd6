-- ===== src/Base/Map.antt =====
-- A JavaScript `Map`, and a `Set` as its keys: an association list in insertion order. `set` on a
-- key that is present keeps its place.
use Prim.Native.Nat.{ℕ, suc, ◌+◌, ◌≤◌}
use mathlib.Core.Path.{◌≡◌, refl}
use mathlib.Core.Bool.{Bool, true, false}
use mathlib.Core.Option.{Option, none, some}
use mathlib.Core.List.{List, [], ◌∷◌}
use native.Mathlib.Omega.{arith}
use fuck_chat_control.Base.Tests.{if◌then◌else◌}
use fuck_chat_control.Base.Eq.{Eq, beq_refl}

abbrev pub Map {ℓ κ} : Type ℓ → Type κ → Type (ℓ ⊔ κ)
Map K V = List (K × V)

module _ {ℓ κ} {K : Type ℓ} {V : Type κ} where
  abbrev pub size : Map K V → ℕ
  size [] = 0
  size (p ∷ m) = suc (size m)

  abbrev pub values : Map K V → List V
  values [] = []
  values (p ∷ m) = p.1 ∷ values m

  -- Every entry's value has the property.
  abbrev pub Each {μ} : (V → Type μ) → Map K V → Type μ
  Each P [] = Unit
  Each P (p ∷ m) = P p.1 × Each P m

  abbrev pub sum : (V → ℕ) → Map K V → ℕ
  sum f [] = 0
  sum f (p ∷ m) = f p.1 + sum f m

module _ {ℓ κ} {K : Type ℓ} {V : Type κ} ⦃e : Eq K⦄ where
  unfoldable pub get : K → Map K V → Option V
  get k [] = none
  get k ((j, v) ∷ m) = if e.beq j k then some v else get k m

  unfoldable pub has : K → Map K V → Bool
  has k [] = false
  has k ((j, v) ∷ m) = if e.beq j k then true else has k m

  unfoldable pub set : K → V → Map K V → Map K V
  set k v [] = (k, v) ∷ []
  set k v ((j, w) ∷ m) = if e.beq j k then (j, v) ∷ m else (j, w) ∷ set k v m

  unfoldable pub delete : K → Map K V → Map K V
  delete k [] = []
  delete k ((j, w) ∷ m) = if e.beq j k then m else (j, w) ∷ delete k m

  -- No key stands twice.
  abbrev pub Distinct : Map K V → Type κ
  Distinct [] = Unit
  Distinct (p ∷ m) = (get p.0 m ≡ none) × Distinct m

  pub has-get : (k : K) (m : Map K V) → has k m ≡ (elim (get k m) [ none ↦ false | some v ↦ true ])
  unfolding has get
  has-get k [] = refl
  has-get k ((j, w) ∷ m) = ground (arith, has-get k m)

  pub get-set :
      (k j : K) (v : V) (m : Map K V) → get j (set k v m) ≡ (if e.beq k j then some v else get j m)
  unfolding get set
  get-set k j v [] = refl
  get-set k j v ((i, w) ∷ m) =
      ground (arith, e.beq_iff k j, e.beq_iff i k, e.beq_iff i j, get-set k j v m)

  pub get-set_self : (k : K) (v : V) (m : Map K V) → get k (set k v m) ≡ some v
  get-set_self k v m = ground (arith, get-set k k v m, beq_refl k)

  pub get-set_ne : (k j : K) (v : V) (m : Map K V) → e.beq k j ≡ false → get j (set k v m) ≡ get j m
  get-set_ne k j v m h = ground (arith, get-set k j v m)

  pub set-Distinct : (k : K) (v : V) (m : Map K V) → Distinct m → Distinct (set k v m)
  unfolding set get
  set-Distinct k v [] d = (refl, tt)
  set-Distinct k v ((j, w) ∷ m) d =
      ground (arith, e.beq_iff j k, e.beq_iff k j, get-set k j v m, set-Distinct k v m d.1)

  pub get-delete_ne : (k j : K) (m : Map K V) → e.beq k j ≡ false → get j (delete k m) ≡ get j m
  unfolding get delete
  get-delete_ne k j [] h = refl
  get-delete_ne k j ((i, w) ∷ m) h =
      ground (arith, e.beq_iff k j, e.beq_iff i k, e.beq_iff i j, get-delete_ne k j m h)

  pub get-delete_self : (k : K) (m : Map K V) → Distinct m → get k (delete k m) ≡ none
  unfolding get delete
  get-delete_self k [] d = refl
  get-delete_self k ((i, w) ∷ m) d = ground (arith, e.beq_iff i k, get-delete_self k m d.1)

  pub get-delete :
      (k j : K) (m : Map K V)
      → Distinct m
      → get j (delete k m) ≡ (if e.beq k j then none else get j m)
  get-delete k j m d = ground (arith, e.beq_iff k j, get-delete_ne k j m, get-delete_self k m d)

  pub get-delete-none : (k j : K) (m : Map K V) → get j m ≡ none → get j (delete k m) ≡ none
  unfolding get delete
  get-delete-none k j [] h = refl
  get-delete-none k j ((i, w) ∷ m) h = ground (arith, get-delete-none k j m)

  pub delete-Distinct : (k : K) (m : Map K V) → Distinct m → Distinct (delete k m)
  unfolding delete get
  delete-Distinct k [] d = tt
  delete-Distinct k ((j, w) ∷ m) d = ground (arith, get-delete-none k j m, delete-Distinct k m d.1)

  pub size-set :
      (k : K) (v : V) (m : Map K V)
      → size (set k v m) ≡ (elim (get k m) [ none ↦ suc (size m) | some w ↦ size m ])
  unfolding set get
  size-set k v [] = refl
  size-set k v ((j, w) ∷ m) = ground (arith, size-set k v m)

  pub size-delete-le : (k : K) (m : Map K V) → size (delete k m) ≤ size m
  unfolding delete
  size-delete-le k [] = omega arith
  size-delete-le k ((j, w) ∷ m) = ground (arith, size-delete-le k m)

  pub size-delete :
      (k : K) (v : V) (m : Map K V) → get k m ≡ some v → size m ≡ suc (size (delete k m))
  unfolding delete get
  size-delete k v [] h = absurd (cc)
  size-delete k v ((j, w) ∷ m) h = ground (arith, size-delete k v m)

  pub delete_absent : (k : K) (m : Map K V) → get k m ≡ none → delete k m ≡ m
  unfolding delete get
  delete_absent k [] h = refl
  delete_absent k ((j, w) ∷ m) h = ground (arith, delete_absent k m)

  -- An entry that is new stands last, and taking it out restores the map.
  pub delete-set : (k : K) (v : V) (m : Map K V) → get k m ≡ none → delete k (set k v m) ≡ m
  unfolding delete set get
  delete-set k v [] h = ground (arith, beq_refl k)
  delete-set k v ((j, w) ∷ m) h = ground (arith, delete-set k v m)

  -- Writing back the value that was there restores the map.
  pub set-set : (k : K) (v w : V) (m : Map K V) → get k m ≡ some w → set k w (set k v m) ≡ m
  unfolding set get
  set-set k v w [] h = cc
  set-set k v w ((j, u) ∷ m) h = ground (arith, set-set k v w m)

  -- The later of two writes at one key stands.
  pub set-set_same : (k : K) (v w : V) (m : Map K V) → set k w (set k v m) ≡ set k w m
  unfolding set
  set-set_same k v w [] = ground (arith, beq_refl k)
  set-set_same k v w ((j, u) ∷ m) = ground (arith, set-set_same k v w m)

  module _ {μ} (P : V → Type μ) where
    pub Each-get : (k : K) (v : V) (m : Map K V) → Each P m → get k m ≡ some v → P v
    unfolding get
    Each-get k v [] a h = absurd (cc)
    Each-get k v ((j, w) ∷ m) a h = ground (arith, Each-get k v m a.1)

    pub Each-set : (k : K) (v : V) (m : Map K V) → Each P m → P v → Each P (set k v m)
    unfolding set
    Each-set k v [] a p = (p, tt)
    Each-set k v ((j, w) ∷ m) a p = ground (arith, Each-set k v m a.1 p)

    pub Each-delete : (k : K) (m : Map K V) → Each P m → Each P (delete k m)
    unfolding delete
    Each-delete k [] a = tt
    Each-delete k ((j, w) ∷ m) a = ground (arith, Each-delete k m a.1)

  module _ (f : V → ℕ) where
    pub sum-set_new :
        (k : K) (v : V) (m : Map K V) → get k m ≡ none → sum f (set k v m) ≡ sum f m + f v
    unfolding set get
    sum-set_new k v [] h = omega arith
    sum-set_new k v ((j, w) ∷ m) h = ground (arith, sum-set_new k v m)

    pub sum-set :
        (k : K) (v w : V) (m : Map K V) → get k m ≡ some w → sum f (set k v m) + f w ≡ sum f m + f v
    unfolding set get
    sum-set k v w [] h = absurd (cc)
    sum-set k v w ((j, u) ∷ m) h = ground (arith, sum-set k v w m)

    pub sum-delete :
        (k : K) (w : V) (m : Map K V) → get k m ≡ some w → sum f (delete k m) + f w ≡ sum f m
    unfolding delete get
    sum-delete k w [] h = absurd (cc)
    sum-delete k w ((j, u) ∷ m) h = ground (arith, sum-delete k w m)

  -- What holds at every key holds of every entry.
  pub Each-of_get {μ} :
      (P : V → Type μ) (m : Map K V)
      → Distinct m
      → ((k : K) (v : V) → get k m ≡ some v → P v)
      → Each P m
  unfolding get
  Each-of_get P [] d h = tt
  Each-of_get P ((j, w) ∷ m) d h = (
    h j w (ground (arith, beq_refl j)),
    Each-of_get P m d.1 (λ k v g. h k v (ground (arith, e.beq_iff j k))),
  )

module _ {ℓ κ} {K : Type ℓ} {V : Type κ} ⦃e : Eq K⦄ where
  pub has-set :
      (k j : K) (v : V) (m : Map K V) → has j (set k v m) ≡ (if e.beq k j then true else has j m)
  unfolding has set
  has-set k j v [] = refl
  has-set k j v ((i, w) ∷ m) =
      ground (arith, e.beq_iff k j, e.beq_iff i k, e.beq_iff i j, has-set k j v m)

  has-absent : (k : K) (m : Map K V) → get k m ≡ none → has k m ≡ false
  unfolding has get
  has-absent k [] h = refl
  has-absent k ((j, w) ∷ m) h = ground (arith, has-absent k m)

  pub has-delete :
      (k j : K) (m : Map K V)
      → Distinct m
      → has j (delete k m) ≡ (if e.beq k j then false else has j m)
  unfolding has delete
  has-delete k j [] d = ground arith
  has-delete k j ((i, w) ∷ m) d =
      ground (
        arith,
        e.beq_iff k j,
        e.beq_iff i k,
        e.beq_iff i j,
        has-delete k j m d.1,
        has-absent i m d.0,
      )

-- Two maps have the same keys.
abbrev pub Aligned {ℓ κ μ} :
    {K : Type ℓ} {V : Type κ} {W : Type μ} ⦃e : Eq K⦄ → Map K V → Map K W → Type ℓ
Aligned m n = (k : _) → has k m ≡ has k n

module _ {ℓ κ μ} {K : Type ℓ} {V : Type κ} {W : Type μ} ⦃e : Eq K⦄ where
  pub Aligned-set :
      (k : K) (v : V) (w : W) (m : Map K V) (n : Map K W)
      → Aligned m n
      → Aligned (set k v m) (set k w n)
  Aligned-set k v w m n a j = ground (arith, has-set k j v m, has-set k j w n, a j)

  pub Aligned-delete :
      (k : K) (m : Map K V) (n : Map K W)
      → Distinct m
      → Distinct n
      → Aligned m n
      → Aligned (delete k m) (delete k n)
  Aligned-delete k m n d f a j = ground (arith, has-delete k j m d, has-delete k j n f, a j)

  -- A write to a key that is there leaves the keys.
  pub Aligned-set_left :
      (k : K) (v : V) (m : Map K V) (n : Map K W)
      → has k n ≡ true
      → Aligned m n
      → Aligned (set k v m) n
  Aligned-set_left k v m n h a j = ground (arith, has-set k j v m, e.beq_iff k j, a j)

  pub Aligned-set_right :
      (k : K) (w : W) (m : Map K V) (n : Map K W)
      → has k n ≡ true
      → Aligned m n
      → Aligned m (set k w n)
  Aligned-set_right k w m n h a j = ground (arith, has-set k j w n, e.beq_iff k j, a j)
