-- ===== src/Signaling/Paths.antt =====
-- Runs of the connection's states.
use fuck_chat_control.Base.{◌≡◌, ◌⊎◌, inl, inr, List, [], ◌∷◌, arith}
use fuck_chat_control.Base.Result.{Result, ok, err}
use fuck_chat_control.Signaling.{
  ConnectionState, verifying, connected, InvalidTransition, transition,
}

-- A machine that was asked for each of `requests` in turn, those that it refused left out.
abbrev pub after_request :
    ConnectionState → Result InvalidTransition ConnectionState → ConnectionState
after_request s (ok t) = t
after_request s (err e) = s

abbrev pub run : ConnectionState → List ConnectionState → ConnectionState
run s [] = s
run s (next ∷ requests) = run (after_request s (transition s next)) requests

-- The machine is in `p` at some point of the run.
abbrev pub Passes : ConnectionState → ConnectionState → List ConnectionState → Type 0
Passes p s [] = s ≡ p
Passes p s (next ∷ requests) = (s ≡ p) ⊎ Passes p (after_request s (transition s next)) requests

into_connected :
    (s t : ConnectionState)
    → after_request s (transition s t) ≡ connected
    → (s ≡ connected) ⊎ (s ≡ verifying)
unfolding transition
into_connected s t h = ground arith

-- A machine is connected only after it was verifying: every run that ends connected started connected or
-- passes the state before.
pub run-connected :
    (s : ConnectionState) (requests : List ConnectionState)
    → run s requests ≡ connected
    → (s ≡ connected) ⊎ Passes verifying s requests
run-connected s [] h = inl h
run-connected s (next ∷ requests) h =
    elim (run-connected (after_request s (transition s next)) requests h) [
      | inr later ↦ inr (inr later)
      | inl now ↦ elim (into_connected s next now) [
        | inl already ↦ inl already
        | inr verified ↦ inr (inl verified)
      ]
    ]
