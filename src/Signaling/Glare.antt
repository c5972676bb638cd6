-- ===== src/Signaling/Glare.antt =====
-- Two peers that offer at once.
use fuck_chat_control.Base.{ℕ, ◌≡◌, ◌≢◌, refl, ap, ◌∙◌, List, if◌then◌else◌, length, arith}
use fuck_chat_control.Base.Result.{ok}
use fuck_chat_control.Protocol.Types.{Role, initiator, responder}
use fuck_chat_control.Protocol.Codec.{Comparison, equal, below, above, compare_bytes, role_of}
use fuck_chat_control.Protocol.Codec.Roles.{
  opposite, other_role, compare_bytes-swap, compare_bytes-equal, derive_role-of,
}
use fuck_chat_control.Signaling.{
  new_resolver, begin_offer, on_remote_offer, RemoteOfferOutcome, answer, ignore, derive_glare_role,
  is_even_parity_key, derive_resume_glare_role,
}

-- The role from a comparison of the keys.
resume_role-of :
    (a b : List ℕ) (c : Comparison)
    → length a ≡ 65
    → length b ≡ 65
    → compare_bytes a b ≡ c
    → c ≢ equal
    → derive_resume_glare_role a b ≡ role_of c
unfolding derive_resume_glare_role
resume_role-of a b equal h k e n = absurd (n refl)
resume_role-of a b below h k e n =
    rw (derive_resume_glare_role, e) (derive_role-of a b h k ∙ ap role_of e)
resume_role-of a b above h k e n =
    rw (derive_resume_glare_role, e) (derive_role-of a b h k ∙ ap role_of e)

-- Two peers that resume with their pinned 65-byte keys, each from its own side, and both have an offer in
-- flight: one answers and the other ignores the offer that comes in, unless the keys are the same.
pub resume_glare-IsResolved :
    (a b : List ℕ)
    → length a ≡ 65
    → length b ≡ 65
    → a ≢ b
    → (r : Role) × (derive_resume_glare_role a b ≡ ok r)
      × (derive_resume_glare_role b a ≡ ok (other_role r))
      × (on_remote_offer (begin_offer (new_resolver r))
          ≢ on_remote_offer (begin_offer (new_resolver (other_role r))))
unfolding on_remote_offer
resume_glare-IsResolved a b h k n = go (compare_bytes a b) refl
  where
    other : {c : Comparison} → compare_bytes a b ≡ c → compare_bytes b a ≡ opposite c
    other e = compare_bytes-swap a b ∙ ap opposite e

    go :
        (c : Comparison)
        → compare_bytes a b ≡ c
        → (r : Role) × (derive_resume_glare_role a b ≡ ok r)
          × (derive_resume_glare_role b a ≡ ok (other_role r))
          × (on_remote_offer (begin_offer (new_resolver r))
              ≢ on_remote_offer (begin_offer (new_resolver (other_role r))))
    go equal e = absurd (n (compare_bytes-equal a b e))
    go below e = (
      initiator,
      resume_role-of a b below h k e (λ d. cc),
      resume_role-of b a above k h (other e) (λ d. cc),
      λ d. cc,
    )
    go above e = (
      responder,
      resume_role-of a b above h k e (λ d. cc),
      resume_role-of b a below k h (other e) (λ d. cc),
      λ d. cc,
    )

-- What the two sides of a glare do, each with an offer of its own in flight.
abbrev pub glare_outcomes : List ℕ → List ℕ → RemoteOfferOutcome × RemoteOfferOutcome
glare_outcomes a b = (
  on_remote_offer (begin_offer (new_resolver (derive_glare_role a))),
  on_remote_offer (begin_offer (new_resolver (derive_glare_role b))),
)

-- Two peers that take their roles from their own keys alone: keys of different parity resolve a glare, keys that are
-- both even make both sides ignore the other's offer, and keys that are both odd make both sides answer.
pub glare_outcomes-of_parity :
    (a b : List ℕ)
    → glare_outcomes a b ≡ (
      if is_even_parity_key a then ignore else answer,
      if is_even_parity_key b then ignore else answer,
    )
unfolding on_remote_offer
glare_outcomes-of_parity a b = ground arith
