-- ===== src/Signaling/Tests.antt =====
-- Runs on concrete states and keys.
use fuck_chat_control.Base.{ℕ, ◌≡◌, ◌≢◌, refl, ◌⊎◌, List, [], ◌∷◌, replicate}
use fuck_chat_control.Base.Result.{ok}
use fuck_chat_control.Protocol.Types.{Role}
use fuck_chat_control.Protocol.Codec.Roles.{other_role}
use fuck_chat_control.Signaling.{
  ConnectionState, idle, waiting, handshaking, verifying, connected, transition, new_resolver,
  begin_offer, on_remote_offer, derive_resume_glare_role,
}
use fuck_chat_control.Signaling.Paths.{run, Passes, run-connected}
use fuck_chat_control.Signaling.Glare.{resume_glare-IsResolved}

-- A request that is refused on the way.
abbrev requests : List ConnectionState
requests = waiting ∷ connected ∷ handshaking ∷ verifying ∷ connected ∷ []

requests-connect : run idle requests ≡ connected
unfolding transition
requests-connect = refl

run-connected_example : (idle ≡ connected) ⊎ Passes verifying idle requests
run-connected_example = run-connected idle requests requests-connect

abbrev key_a : List ℕ
key_a = 4 ∷ 17 ∷ replicate 63 1

abbrev key_b : List ℕ
key_b = 4 ∷ 18 ∷ replicate 63 0

keys-differ : key_a ≢ key_b
keys-differ e = cc

resume_glare-IsResolved_example :
    (r : Role) × (derive_resume_glare_role key_a key_b ≡ ok r)
    × (derive_resume_glare_role key_b key_a ≡ ok (other_role r))
    × (on_remote_offer (begin_offer (new_resolver r))
        ≢ on_remote_offer (begin_offer (new_resolver (other_role r))))
resume_glare-IsResolved_example = resume_glare-IsResolved key_a key_b refl refl keys-differ
