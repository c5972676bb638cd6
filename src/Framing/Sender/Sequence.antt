-- ===== src/Framing/Sender/Sequence.antt =====
-- The frames that a sender encrypts.
use fuck_chat_control.Base.{
  Bool-cases, ◌⊎◌, inl, inr, nat_eq, ℕ, ◌+◌, ◌≤◌, ◌≡◌, refl, false, none, some, List, [], ◌∷◌,
  if◌then◌else◌, arith, leb,
}
use fuck_chat_control.Base.Map as Map
use fuck_chat_control.Base.Result.{ok, err, ◌>>◌}
use fuck_chat_control.Protocol.Types.{FrameType, FrameAad}
use fuck_chat_control.Framing.Sender.{
  assert_not_tearing_down, max_buffered_data_bytes, max_sequence, FileJob, Thrown, After, returning,
  swallowed, manifest_of, chunk_of, rethrowing, Task, hashing, sealing, drained, Sender, Event,
  encrypting, Run, run, thrown_code, Called, assert_not_cancelled, next_sequence, release,
}
use fuck_chat_control.Framing.Sender.Calls.{
  wait, send_chunk, Config, send_encrypted_frame, send_control_frame, send_cancel, or_throw,
  send_text, send_control, or_rethrow, fail_file, or_fail, next_chunk, chunks_or_return, send_file,
  send_manifest,
}
use fuck_chat_control.Framing.Sender.Steps.{
  tell_peer, or_swallow, cancelled_sender, go_on, give_up, resume, cancel_transfer,
}

abbrev pub Encryption : Type 0
Encryption = List ℕ × FrameAad

-- The keys and the additional data that frames are encrypted with.
abbrev pub encryptions : List Event → List Encryption
encryptions [] = []
encryptions (encrypting key aad ∷ es) = (key, aad) ∷ encryptions es
encryptions (e ∷ es) = encryptions es

-- A piece of a call gives back at most one reservation, and makes none.
abbrev pub Frees : Sender → Sender → Type 0
Frees s s' =
    (s'.next_transfer_id ≡ s.next_transfer_id)
    × ((s'.active_transfers ≡ s.active_transfers)
        ⊎ ((id : ℕ) × (s'.active_transfers ≡ Map.delete id s.active_transfers)))

module _ (config : Config) where
  -- A piece of a call encrypts at most one frame, with the next sequence number.
  abbrev pub Encrypts : Sender → List Encryption → Sender → Type 0
  Encrypts s [] s' = s'.sequence ≡ s.sequence
  Encrypts s ((key, aad) ∷ []) s' =
      (s.tearing_down ≡ false)
      × (s.sequence ≤ max_sequence)
      × (key ≡ s.send_key)
      × (aad.sender_sequence ≡ s.sequence)
      × (aad.sender_session_id ≡ config.local_session_id)
      × (s'.sequence ≡ s.sequence + 1)
  Encrypts s (x ∷ y ∷ zs) s' = ⊥

  abbrev pub IsPiece : Sender → Run → Type 0
  IsPiece s r =
      Encrypts s (encryptions r.events) r.sender
      × (r.sender.tearing_down ≡ s.tearing_down)
      × (r.sender.send_key ≡ s.send_key)
      × Frees s r.sender

  -- A piece that encrypts nothing and changes neither the state of the key nor the counters.
  abbrev IsIdle : Sender → Sender → Type 0
  IsIdle s s' =
      (s'.sequence ≡ s.sequence)
      × (s'.tearing_down ≡ s.tearing_down)
      × (s'.send_key ≡ s.send_key)
      × Frees s s'

  same-IsIdle : (s : Sender) → IsIdle s s
  same-IsIdle s = (refl, refl, refl, (refl, inl refl))

  release-IsIdle : (s : Sender) (id : ℕ) → IsIdle s (release s id)
  unfolding release
  release-IsIdle s id = (refl, refl, refl, (refl, inr (id, refl)))

  abbrev IsCall : Sender → Called Run → Type 0
  IsCall s (ok r) = IsPiece s r × (r.sender.active_transfers ≡ s.active_transfers)
  IsCall s (err thrown) = Unit {0}

  send_encrypted_frame-IsCall :
      (s : Sender) (t : FrameType) (p : List ℕ) (id i : ℕ) (a : After)
      → IsCall s (send_encrypted_frame config s t p id i a)
  unfolding send_encrypted_frame next_sequence assert_not_cancelled
  send_encrypted_frame-IsCall s t p id i a = ground arith

  send_control_frame-IsCall :
      (s : Sender) (subtype : ℕ) (p : List ℕ) (a : After)
      → IsCall s (send_control_frame config s subtype p a)
  unfolding send_control_frame
  send_control_frame-IsCall s subtype p a =
      ground (arith, send_encrypted_frame-IsCall s FrameType.control (subtype ∷ p) 0 0 a)

  send_cancel-IsCall : (s : Sender) (id : ℕ) (a : After) → IsCall s (send_cancel config s id a)
  unfolding send_cancel
  send_cancel-IsCall s id a = grind (arith, send_control_frame-IsCall)

  or_throw-IsPiece : (s : Sender) (c : Called Run) → IsCall s c → IsPiece s (or_throw config s c)
  or_throw-IsPiece s (ok r) h = h.0
  or_throw-IsPiece s (err thrown) h = same-IsIdle s

  pub send_text-IsPiece : (s : Sender) (p : List ℕ) → IsPiece s (send_text config s p)
  unfolding send_text
  send_text-IsPiece s p =
      or_throw-IsPiece s
        (assert_not_tearing_down s >> send_encrypted_frame config s FrameType.text p 0 0 returning)
        (ground (arith, send_encrypted_frame-IsCall s FrameType.text p 0 0 returning))

  pub send_control-IsPiece :
      (s : Sender) (subtype : ℕ) (p : List ℕ) → IsPiece s (send_control config s subtype p)
  unfolding send_control
  send_control-IsPiece s subtype p =
      or_throw-IsPiece s _ (send_control_frame-IsCall s subtype p returning)

  or_rethrow-IsPiece :
      (s : Sender) (job : FileJob) (thrown : Thrown) (c : Called Run)
      → IsCall s c
      → IsPiece s (or_rethrow config s job thrown c)
  unfolding release
  or_rethrow-IsPiece s job thrown (ok r) h = h.0
  or_rethrow-IsPiece s job thrown (err _) h = release-IsIdle s job.transfer_id

  fail_file-IsPiece :
      (s : Sender) (job : FileJob) (thrown : Thrown) → IsPiece s (fail_file config s job thrown)
  unfolding fail_file release
  fail_file-IsPiece s job thrown = ground (
    arith,
    release-IsIdle s job.transfer_id,
    or_rethrow-IsPiece s job thrown _
        (send_cancel-IsCall s job.transfer_id (rethrowing job thrown)),
  )

  or_fail-IsPiece :
      (s : Sender) (job : FileJob) (c : Called Run)
      → IsCall s c
      → IsPiece s (or_fail config s job c)
  or_fail-IsPiece s job (ok r) h = h.0
  or_fail-IsPiece s job (err thrown) h = fail_file-IsPiece s job thrown

  next_chunk-IsPiece :
      (buffered : ℕ) (s : Sender) (job : FileJob) (i : ℕ)
      → IsPiece s (next_chunk config buffered s job i)
  unfolding next_chunk
  next_chunk-IsPiece buffered s job i =
      or_fail-IsPiece s job
        (assert_not_cancelled s job.transfer_id
          >> (if leb max_buffered_data_bytes buffered
              then ok (run (wait config s job i) [])
              else send_chunk config s job i))
        (grind (arith, send_encrypted_frame-IsCall))

  chunks_or_return-IsPiece :
      (buffered : ℕ) (s : Sender) (job : FileJob) (i : ℕ)
      → IsPiece s (chunks_or_return config buffered s job i)
  unfolding chunks_or_return release
  chunks_or_return-IsPiece buffered s job i =
      ground (arith, next_chunk-IsPiece buffered s job i, release-IsIdle s job.transfer_id)

  pub send_file-IsPiece : (s : Sender) (job : FileJob) → IsPiece s (send_file config s job)
  unfolding send_file release
  send_file-IsPiece s job = ground (arith, release-IsIdle s job.transfer_id)

  send_manifest-IsPiece : (s : Sender) (job : FileJob) → IsPiece s (send_manifest config s job)
  unfolding send_manifest
  send_manifest-IsPiece s job =
      grind (arith, fail_file-IsPiece, or_fail-IsPiece, send_encrypted_frame-IsCall)

  seal-IsPiece : (buffered : ℕ) (s : Sender) (a : After) → IsPiece s (go_on config buffered s a)
  unfolding release
  seal-IsPiece buffered s returning = same-IsIdle s
  seal-IsPiece buffered s swallowed = same-IsIdle s
  seal-IsPiece buffered s (manifest_of job) = chunks_or_return-IsPiece buffered s job 0
  seal-IsPiece buffered s (chunk_of job i) = chunks_or_return-IsPiece buffered s job (i + 1)
  seal-IsPiece buffered s (rethrowing job thrown) = release-IsIdle s job.transfer_id

  give_up-IsPiece :
      (s : Sender) (a : After) (thrown : Thrown) → IsPiece s (give_up config s a thrown)
  unfolding release
  give_up-IsPiece s returning thrown = same-IsIdle s
  give_up-IsPiece s swallowed thrown = same-IsIdle s
  give_up-IsPiece s (manifest_of job) thrown = fail_file-IsPiece s job thrown
  give_up-IsPiece s (chunk_of job i) thrown = fail_file-IsPiece s job thrown
  give_up-IsPiece s (rethrowing job earlier) thrown = release-IsIdle s job.transfer_id

  pub resume-IsPiece :
      (buffered : ℕ) (s : Sender) (t : Task) → IsPiece s (resume config buffered s t)
  unfolding resume
  resume-IsPiece buffered s (hashing job) = send_manifest-IsPiece s job
  resume-IsPiece buffered s (sealing aad frame a) = grind (arith, seal-IsPiece, give_up-IsPiece)
  resume-IsPiece buffered s (drained job i none) = next_chunk-IsPiece buffered s job i
  resume-IsPiece buffered s (drained job i (some code)) = fail_file-IsPiece s job (thrown_code code)

  abbrev IsSame : Sender → Run → Type 0
  IsSame s r =
      Encrypts s (encryptions r.events) r.sender
      × (r.sender.tearing_down ≡ s.tearing_down)
      × (r.sender.send_key ≡ s.send_key)
      × (r.sender.next_transfer_id ≡ s.next_transfer_id)
      × (r.sender.active_transfers ≡ s.active_transfers)

  or_swallow-IsSame : (s : Sender) (c : Called Run) → IsCall s c → IsSame s (or_swallow config s c)
  or_swallow-IsSame s (ok r) ((e, t, k, f), a) = (e, t, k, f.0, a)
  or_swallow-IsSame s (err thrown) h = (refl, refl, refl, refl, refl)

  cancelled-Encrypts :
      (s s' : Sender) (id : ℕ) (xs : List Encryption)
      → Encrypts (cancelled_sender config s id) xs s'
      → Encrypts s xs s'
  cancelled-Encrypts s s' id [] h = h
  cancelled-Encrypts s s' id (x ∷ []) h = h
  cancelled-Encrypts s s' id (x ∷ y ∷ zs) h = h

  cancelled-IsPiece :
      (s : Sender) (id : ℕ) (r : Run) → IsSame (cancelled_sender config s id) r → IsPiece s r
  cancelled-IsPiece s id r (e, t, k, n, a) =
      (cancelled-Encrypts s r.sender id (encryptions r.events) e, t, k, (n, inr (id, a)))

  tell_peer-IsPiece :
      (s : Sender) (id : ℕ) → IsPiece s (tell_peer config s id (cancelled_sender config s id))
  tell_peer-IsPiece s id = elim (Bool-cases (Map.has id s.manifest_sent_transfers)) [
    | inl y ↦ rw y (
        cancelled-IsPiece s id
          (or_swallow config (cancelled_sender config s id)
            (send_cancel config (cancelled_sender config s id) id swallowed))
          (or_swallow-IsSame (cancelled_sender config s id) _
            (send_cancel-IsCall (cancelled_sender config s id) id swallowed)))
    | inr n ↦ rw n (refl, refl, refl, (refl, inr (id, refl)))
  ]

  pub cancel_transfer-IsPiece : (s : Sender) (id : ℕ) → IsPiece s (cancel_transfer config s id).0
  unfolding cancel_transfer
  cancel_transfer-IsPiece s id = elim (Bool-cases (Map.has id s.active_transfers)) [
    | inl y ↦ rw y (tell_peer-IsPiece s id)
    | inr n ↦ rw n (same-IsIdle s)
  ]
