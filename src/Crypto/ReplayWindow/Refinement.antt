-- ===== src/Crypto/ReplayWindow/Refinement.antt =====
-- What a receiver that keeps a window accepts of a stream of sequence numbers.
use fuck_chat_control.Base.{
  ℕ, ◌-◌, ◌≤◌, ◌≡◌, refl, sym, ap, ◌∙◌, inl, inr, Bool, true, false, Option, none, some, List, [],
  ◌∷◌, if◌then◌else◌, ltb, leb, ◌==◌, arith, get_or, set, replicate, length-replicate, Bool-cases,
  Option-cases, subst,
}
use fuck_chat_control.Base.Result.{Result, ok, err, of_ok}
use fuck_chat_control.Protocol.Limits.{uint32_max}
use fuck_chat_control.Crypto.ReplayWindow.{
  ReplayWindow, CryptoErrorCode, replay_stale, replay_duplicate, invalid_argument, new_window,
  observe, is_above, behind,
}
use fuck_chat_control.Crypto.ReplayWindow.Slots.{get_or-replicate}
use fuck_chat_control.Crypto.ReplayWindow.History.{
  seen, top, is_fresh, is_fresh_at, Represents, seen-le-top, top-none, move_up-Represents,
  observe_inside,
}

-- Why a sequence that is not fresh is refused.
abbrev pub refusal : ℕ → List ℕ → ℕ → CryptoErrorCode
refusal size past x =
    if ltb uint32_max x
    then invalid_argument
    else if leb size (behind (top past) x)
    then replay_stale
    else replay_duplicate

-- One observation does what the list of accepted sequences says.
abbrev pub Agrees : ReplayWindow → List ℕ → ℕ → Result CryptoErrorCode ReplayWindow → Type 0
Agrees w past x (ok w') =
    (is_fresh w.size past x ≡ true) × (w'.size ≡ w.size) × Represents w' (x ∷ past)
Agrees w past x (err e) = (is_fresh w.size past x ≡ false) × (e ≡ refusal w.size past x)

-- `observe` of a sequence `offset` below the highest one.
abbrev observe_at : ReplayWindow → ℕ → Result CryptoErrorCode ReplayWindow
observe_at w offset =
    if leb w.size offset
    then err replay_stale
    else if get_or w.slots offset 0 == 1
    then err replay_duplicate
    else ok (record w { slots = set w.slots offset 1 })

observe-Agrees_inside :
    (w : ReplayWindow) (past : List ℕ) (x h : ℕ)
    → Represents w past
    → ltb uint32_max x ≡ false
    → top past ≡ some h
    → ltb h x ≡ false
    → Agrees w past x (observe_at w (h - x))
observe-Agrees_inside w past x h r f t l = elim (Bool-cases (leb w.size (h - x))) [
  | inl stale ↦ rw (stale, t) (ground arith, ground arith)
  | inr near ↦ elim (Bool-cases (get_or w.slots (h - x) 0 == 1)) [
    | inl taken ↦ rw (near, taken, t) (ground (arith, slot near), ground arith)
    | inr free ↦
        rw (near, free)
          (
            rw t (ground (arith, slot near)),
            refl,
            observe_inside w past x h r t inside (ground arith),
          )
  ]
]
  where
    inside : x ≤ h
    inside = ground arith

    slot : leb w.size (h - x) ≡ false → get_or w.slots (h - x) 0 ≡ (if seen x past then 1 else 0)
    slot near =
        let index : h - (h - x) ≡ x = ground arith in
        r.marked (h - x) (ground arith) ∙ rw (t, index) (ground arith)

pub observe-Agrees :
    (w : ReplayWindow) (past : List ℕ) (x : ℕ) → Represents w past → Agrees w past x (observe w x)
unfolding observe
observe-Agrees w past x r = elim (Bool-cases (ltb uint32_max x)) [
  | inl big ↦ rw big (ground arith, ground arith)
  | inr fits ↦ elim (Bool-cases (is_above w.highest x)) [
    | inl above ↦
        rw (fits, above)
          (
            fresh_above fits (sym (ap (λ o. is_above o x) r.highest) ∙ above),
            refl,
            move_up-Represents w past x r above,
          )
    | inr below ↦ elim (Option-cases (top past)) [
      | inl t ↦ absurd (contra t below)
      | inr (h, t) ↦
          rw (fits, below)
            (subst (λ b. Agrees w past x (observe_at w b))
              (sym (ap (λ o. behind o x) (r.highest ∙ t)))
              (observe-Agrees_inside w past x h r fits t
                (sym (ap (λ o. is_above o x) (r.highest ∙ t)) ∙ below)))
    ]
  ]
]
  where
    fresh_at : (o : Option ℕ) → is_above o x ≡ true → is_fresh_at w.size o past x ≡ true
    fresh_at none a = refl
    fresh_at (some h) a = ground arith

    fresh_above :
        ltb uint32_max x ≡ false → is_above (top past) x ≡ true → is_fresh w.size past x ≡ true
    fresh_above f a = rw (fresh_at (top past) a) (ground arith)

    contra : top past ≡ none → is_above w.highest x ≡ false → ⊥
    contra t b =
        let e : true ≡ false = sym (ap (λ o. is_above o x) (r.highest ∙ t)) ∙ b in absurd (cc)

pub new_window-Represents :
    (size : ℕ) (w : ReplayWindow) → new_window size ≡ ok w → (w.size ≡ size) × Represents w []
unfolding new_window
new_window-Represents size w h = elim (Bool-cases (size == 0)) [
  | inl z ↦ absurd (refused z h)
  | inr p ↦
      let e : record { size = size; highest = none; slots = replicate size 0 } ≡ w =
        of_ok (sym (made p) ∙ h) in
      subst (λ w. (w.size ≡ size) × Represents w []) e
        (
          refl,
          record {
            positive = ground arith;
            sized = length-replicate size 0;
            highest = refl;
            marked = λ j b. get_or-replicate size j;
          },
        )
]
  where
    refused : (size == 0) ≡ true → new_window size ≡ ok w → ⊥
    refused z h = absurd (ground arith)

    made :
        (size == 0) ≡ false
        → new_window size ≡ ok (record { size = size; highest = none; slots = replicate size 0 })
    made p = rw p refl

-- Whether each sequence of a stream is accepted, one after the other.
abbrev pub after : ReplayWindow → Result CryptoErrorCode ReplayWindow → ReplayWindow
after w (ok w') = w'
after w (err e) = w

abbrev pub is_ok : Result CryptoErrorCode ReplayWindow → Bool
is_ok (ok w) = true
is_ok (err e) = false

abbrev pub observe_all : ReplayWindow → List ℕ → List Bool
observe_all w [] = []
observe_all w (x ∷ xs) = let r = observe w x in is_ok r ∷ observe_all (after w r) xs

-- The same by the list of what was accepted before.
abbrev pub fresh_all : ℕ → List ℕ → List ℕ → List Bool
fresh_all size past [] = []
fresh_all size past (x ∷ xs) =
    let b = is_fresh size past x in b ∷ fresh_all size (if b then x ∷ past else past) xs

observe_all_lem :
    (w : ReplayWindow) (past xs : List ℕ)
    → Represents w past
    → observe_all w xs ≡ fresh_all w.size past xs
observe_all_lem w past [] r = refl
observe_all_lem w past (x ∷ xs) r =
    go (observe w x) (observe-Agrees w past x r) (λ w' p r'. observe_all_lem w' p xs r')
  where
    go :
        (o : Result CryptoErrorCode ReplayWindow)
        → Agrees w past x o
        → ((w' : ReplayWindow) (p : List ℕ)
            → Represents w' p
            → observe_all w' xs ≡ fresh_all w'.size p xs)
        → (is_ok o ∷ observe_all (after w o) xs) ≡ (
            is_fresh w.size past x
            ∷ fresh_all w.size (if is_fresh w.size past x then x ∷ past else past) xs)
    go (ok w') (f, s, r') rest = rw (f, sym s) (ap (λ bs. true ∷ bs) (rest w' (x ∷ past) r'))
    go (err e) (f, _) rest = rw f (ap (λ bs. false ∷ bs) (rest w past r))

-- The sequences of `xs` that were accepted.
abbrev pub accepted : List ℕ → List Bool → List ℕ
accepted (x ∷ xs) (true ∷ bs) = x ∷ accepted xs bs
accepted (x ∷ xs) (false ∷ bs) = accepted xs bs
accepted _ _ = []

abbrev pub Unique : List ℕ → Type 0
Unique [] = Unit {0}
Unique (x ∷ xs) = (seen x xs ≡ false) × Unique xs

pub fresh-not_seen :
    (size x : ℕ) (past : List ℕ) → is_fresh size past x ≡ true → seen x past ≡ false
fresh-not_seen size x past f = elim (Option-cases (top past)) [
  | inl t ↦ rw (top-none past t) refl
  | inr (h, t) ↦ elim (Bool-cases (seen x past)) [
    | inl s ↦
        let at : is_fresh_at size (some h) past x ≡ true = of_top t f in
        absurd (not_below (seen-le-top x h past t s) at s)
    | inr s ↦ s
  ]
]
  where
    of_top :
        {h : ℕ}
        → top past ≡ some h
        → is_fresh size past x ≡ true
        → is_fresh_at size (some h) past x ≡ true
    of_top {h} t f = sym (ap (λ o. is_fresh_at size o past x) t) ∙ ground arith

    not_below : {h : ℕ} → x ≤ h → is_fresh_at size (some h) past x ≡ true → seen x past ≡ true → ⊥
    not_below l f s = ground arith

accepted-not_seen :
    (size y : ℕ) (past xs : List ℕ)
    → seen y past ≡ true
    → seen y (accepted xs (fresh_all size past xs)) ≡ false
accepted-not_seen size y past [] s = refl
accepted-not_seen size y past (x ∷ xs) s = elim (Bool-cases (is_fresh size past x)) [
  | inl f ↦
      rw f (ground (arith, fresh-not_seen size x past f, accepted-not_seen size y (x ∷ past) xs, s))
  | inr f ↦ rw f (accepted-not_seen size y past xs s)
]

accepted-Unique : (size : ℕ) (past xs : List ℕ) → Unique (accepted xs (fresh_all size past xs))
accepted-Unique size past [] = tt
accepted-Unique size past (x ∷ xs) = elim (Bool-cases (is_fresh size past x)) [
  | inl f ↦
      rw f
        (accepted-not_seen size x (x ∷ past) xs (ground arith), accepted-Unique size (x ∷ past) xs)
  | inr f ↦ rw f (accepted-Unique size past xs)
]

-- A receiver with a new window of any positive size accepts of any stream of sequence numbers
-- exactly those that are at most 2^32 - 1 and are either above all that it accepted before or less
-- than the size below the highest of these and not among them.
pub observe_all-new_window :
    (size : ℕ) (w : ReplayWindow) (xs : List ℕ)
    → new_window size ≡ ok w
    → observe_all w xs ≡ fresh_all size [] xs
observe_all-new_window size w xs h =
    let (s, r) = new_window-Represents size w h in
    observe_all_lem w [] xs r ∙ ap (λ n. fresh_all n [] xs) s

-- No stream of sequence numbers, replays and reorderings included, makes a new window of any positive
-- size accept a sequence number twice.
pub observe_all-Unique :
    (size : ℕ) (w : ReplayWindow) (xs : List ℕ)
    → new_window size ≡ ok w
    → Unique (accepted xs (observe_all w xs))
observe_all-Unique size w xs h =
    rw (observe_all-new_window size w xs h) (accepted-Unique size [] xs)
