-- ===== src/Crypto/ReplayWindow/History.antt =====
-- The window against the list of all sequences that were accepted, latest first.
use fuck_chat_control.Base.{
  get_or-set, ℕ, ◌-◌, ◌≤◌, ◌<◌, ◌≡◌, refl, sym, ap, ◌∙◌, inl, inr, Bool, true, false, ◌&&◌, ◌||◌,
  not, Option, none, some, List, [], ◌∷◌, if◌then◌else◌, ltb, leb, ◌==◌, arith, length, get_or, set,
  length-set, Bool-cases, dec_lt, tests,
}
use fuck_chat_control.Protocol.Limits.{uint32_max}
use fuck_chat_control.Crypto.ReplayWindow.{ReplayWindow, advance_by, move_up, distance, is_above}
use fuck_chat_control.Crypto.ReplayWindow.Slots.{length-advance_by, get_or-advance_by}

abbrev pub seen : ℕ → List ℕ → Bool
seen x [] = false
seen x (y ∷ ys) = (y == x) || seen x ys

abbrev pub raise : ℕ → Option ℕ → ℕ
raise x none = x
raise x (some h) = if ltb h x then x else h

abbrev pub top : List ℕ → Option ℕ
top [] = none
top (x ∷ xs) = some (raise x (top xs))

-- A sequence is fresh if it is above all accepted ones, or within the window and not accepted yet.
abbrev pub is_fresh_at : ℕ → Option ℕ → List ℕ → ℕ → Bool
is_fresh_at size none past x = true
is_fresh_at size (some h) past x = ltb h x || (ltb (h - x) size && not (seen x past))

abbrev pub is_fresh : ℕ → List ℕ → ℕ → Bool
is_fresh size past x = leb x uint32_max && is_fresh_at size (top past) past x

abbrev pub mark : Option ℕ → List ℕ → ℕ → ℕ
mark none past j = 0
mark (some h) past j = if leb j h && seen (h - j) past then 1 else 0

pub record Represents (w : ReplayWindow) (past : List ℕ) : Type 0 where
  pub positive : 0 < w.size
  pub sized : length w.slots ≡ w.size
  pub highest : w.highest ≡ top past
  pub marked : (j : ℕ) → j < w.size → get_or w.slots j 0 ≡ mark (top past) past j

pub seen-le-top : (x h : ℕ) (past : List ℕ) → top past ≡ some h → seen x past ≡ true → x ≤ h
seen-le-top x h [] e s = absurd (cc)
seen-le-top x h (y ∷ past) e s = ground (arith, seen_le x past)
  where
    seen_le : (x : ℕ) (past : List ℕ) → seen x past ≡ true → x ≤ raise 0 (top past)
    seen_le x [] s = absurd (cc)
    seen_le x (z ∷ zs) s = ground (arith, seen_le x zs)

-- A sequence above all others is accepted: the marks move up with it.
mark_above :
    (j x h : ℕ) (past : List ℕ) (before : ℕ)
    → h < x
    → top past ≡ some h
    → (seen (x - j) past ≡ true → x - j ≤ h)
    → (leb (x - h) j ≡ true → before ≡ mark (some h) past (j - (x - h)))
    → 0 < j
    → (if leb (x - h) j then before else 0) ≡ mark (some x) (x ∷ past) j
mark_above j x h past before l t s e p = elim (Bool-cases (leb (x - h) j)) [
  | inr near ↦ rw near (ground arith)
  | inl far ↦
      rw (far, e far)
        (elim (Bool-cases (leb j x)) [
          | inr past_end ↦ ground arith
          | inl within ↦
              let index : h - (j - (x - h)) ≡ x - j = ground arith in rw index (ground arith)
        ])
]

pub top-none : (past : List ℕ) → top past ≡ none → past ≡ []
top-none [] e = refl
top-none (x ∷ past) e = absurd (cc)

-- No sequence was accepted before: the window is empty.
mark_first : (j x : ℕ) (past : List ℕ) → top past ≡ none → 0 < j → 0 ≡ mark (some x) (x ∷ past) j
mark_first j x past t p = rw (top-none past t) (ground arith)

-- The slots after the window has moved up to `x`, and slot 0 is taken.
moved :
    (w : ReplayWindow) (past : List ℕ) (a x j : ℕ)
    → Represents w past
    → 0 < a
    → j < w.size
    → get_or (set (advance_by w.size a w.slots) 0 1) j 0
      ≡ (if 0 == j then 1 else if leb a j then mark (top past) past (j - a) else 0)
moved w past a x j r h b =
    get_or-set (advance_by w.size a w.slots) 0 j 1 0
      (omega (arith, length-advance_by w.size a w.slots r.sized, r.positive))
    ∙ ground (arith, get_or-advance_by w.size a w.slots j h r.sized b, r.marked (j - a))

raise_above : (x : ℕ) (o : Option ℕ) → is_above o x ≡ true → raise x o ≡ x
raise_above x none a = refl
raise_above x (some h) a = ground arith

-- Slot `j` of a window that has moved up to `x`, by what was the highest sequence.
marked_above :
    (x j : ℕ) (past : List ℕ) (o : Option ℕ)
    → top past ≡ o
    → is_above o x ≡ true
    → (if 0 == j then 1 else if leb (distance o x) j then mark o past (j - distance o x) else 0)
      ≡ mark (some x) (x ∷ past) j
marked_above x j past none t a = elim (dec_lt 0 j) [
  | yes p ↦ ground (arith, mark_first j x past t p)
  | no n ↦ ground arith
]
marked_above x j past (some h) t a = elim (dec_lt 0 j) [
  | yes p ↦ ground (
    arith,
    mark_above j x h past (mark (some h) past (j - (x - h))) (omega (tests)) t
        (seen-le-top (x - j) h past t) (λ _. refl) p,
  )
  | no n ↦ ground arith
]

pub move_up-Represents :
    (w : ReplayWindow) (past : List ℕ) (x : ℕ)
    → Represents w past
    → is_above w.highest x ≡ true
    → Represents (move_up w x) (x ∷ past)
move_up-Represents w past x r a = record {
  positive = r.positive;
  sized =
      length-set (advance_by w.size (distance w.highest x) w.slots) 0 1
      ∙ length-advance_by w.size (distance w.highest x) w.slots r.sized;
  highest = ap some (sym raised);
  marked = λ j b.
      moved w past (distance w.highest x) x j r (distance-positive w.highest a) b
      ∙ rw (r.highest) (marked_above x j past (top past) refl above)
      ∙ ap (λ k. mark (some k) (x ∷ past) j) (sym raised);
}
  where
    above : is_above (top past) x ≡ true
    above = sym (ap (λ o. is_above o x) r.highest) ∙ a

    raised : raise x (top past) ≡ x
    raised = raise_above x (top past) above

    distance-positive : (o : Option ℕ) → is_above o x ≡ true → 0 < distance o x
    distance-positive none a = omega arith
    distance-positive (some h) a = omega tests

pub observe_inside :
    (w : ReplayWindow) (past : List ℕ) (x h : ℕ)
    → Represents w past
    → top past ≡ some h
    → x ≤ h
    → h - x < w.size
    → Represents (record w { slots = set w.slots (h - x) 1 }) (x ∷ past)
observe_inside w past x h r t l b = record {
  positive = r.positive;
  sized = length-set w.slots (h - x) 1 ∙ r.sized;
  highest = r.highest ∙ t ∙ ap some (sym raised);
  marked = λ j jb.
      get_or-set w.slots (h - x) j 1 0 (omega (arith, r.sized))
      ∙ slot j (r.marked j jb)
      ∙ ap (λ k. mark (some k) (x ∷ past) j) (sym raised);
}
  where
    raised : raise x (top past) ≡ h
    raised = ground arith

    slot :
        (j : ℕ)
        → get_or w.slots j 0 ≡ mark (top past) past j
        → (if h - x == j then 1 else get_or w.slots j 0) ≡ mark (some h) (x ∷ past) j
    slot j m = ground arith
