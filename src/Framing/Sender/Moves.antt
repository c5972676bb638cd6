-- ===== src/Framing/Sender/Moves.antt =====
-- The steps of a sender: what each encrypts, and what it does to the reservations.
use fuck_chat_control.Base.{nat_eq, ℕ, ◌≡◌, refl, ◌∙◌, true, false, List, [], ◌++◌, arith}
use fuck_chat_control.Base.Result.{ok}
use fuck_chat_control.Framing.Sender.{Sender, Event, Run, allocate_transfer_id, begin_file_transfer}
use fuck_chat_control.Framing.Sender.Calls.{Config, send_text, send_control, send_file}
use fuck_chat_control.Framing.Sender.Steps.{
  resume, handle_drain, cancel_transfer, teardown, Step, text, control, begin, file, go, cancel,
  drain, tear,
}
use fuck_chat_control.Framing.Sender.Sequence.{
  encryptions, Encrypts, IsPiece, send_text-IsPiece, send_control-IsPiece, send_file-IsPiece,
  resume-IsPiece, cancel_transfer-IsPiece,
}

module _ (config : Config) where
  -- What a step of a sender encrypts. Only a teardown changes the key.
  abbrev pub IsStep : Sender → List Event → Sender → Type 0
  IsStep s es s' =
      Encrypts config s (encryptions es) s'
      × (s.tearing_down ≡ true → s'.tearing_down ≡ true)
      × (s'.tearing_down ≡ false → s'.send_key ≡ s.send_key)

  of_piece : (s : Sender) (r : Run) → IsPiece config s r → IsStep s r.events r.sender
  of_piece s r (e, t, k, _) = (e, λ h. t ∙ h, λ _. k)

  begin-IsStep : (s s' : Sender) (id : ℕ) → begin_file_transfer s ≡ ok (id, s') → IsStep s [] s'
  unfolding begin_file_transfer allocate_transfer_id
  begin-IsStep s s' id h = ground arith

  pub Step-IsStep : {s s' : Sender} {es : List Event} → Step config s es s' → IsStep s es s'
  unfolding handle_drain teardown
  Step-IsStep (text s p) = of_piece s (send_text config s p) (send_text-IsPiece config s p)
  Step-IsStep (control s subtype p) =
      of_piece s (send_control config s subtype p) (send_control-IsPiece config s subtype p)
  Step-IsStep (begin s s' id h) = begin-IsStep s s' id h
  Step-IsStep (file s job) = of_piece s (send_file config s job) (send_file-IsPiece config s job)
  Step-IsStep (go s buffered before task later e) =
      of_piece s (resume config buffered (record s { tasks = before ++ later }) task)
        (resume-IsPiece config buffered (record s { tasks = before ++ later }) task)
  Step-IsStep (cancel s id) =
      of_piece s (cancel_transfer config s id).0 (cancel_transfer-IsPiece config s id)
  Step-IsStep (drain s) = (refl, λ h. h, λ _. refl)
  Step-IsStep (tear s) = (refl, λ _. refl, λ h. absurd (cc))
