-- ===== src/Framing/Receiver/Steps.antt =====
-- framing/receiver.ts: what can happen to a receiver, one event after the other. `ingest` chains its calls,
-- so a frame is handled only when no completion waits; a cancel, a sweep or a teardown may come in between.
use fuck_chat_control.Base.{ℕ, ◌≡◌, false, none, some, List, [], ◌++◌}
use fuck_chat_control.Framing.Receiver.{
  FileManifest, Receiver, Completion, Event, resume, handle_manifest, handle_chunk, cancel_transfer,
  sweep_inactive_transfers, teardown,
}

module _ (sha256 : List ℕ → List ℕ) (timeout : ℕ) where
  pub data Step : Receiver → List Event → Receiver → Type 0 where
    manifest :
        (r : Receiver) (id : ℕ) (m : FileManifest) (now : ℕ)
        → r.completing ≡ none
        → r.torn_down ≡ false
        → Step r (handle_manifest r id m now).events (handle_manifest r id m now).receiver
    chunk :
        (r : Receiver) (id chunk_id : ℕ) (plaintext : List ℕ) (now : ℕ)
        → r.completing ≡ none
        → r.torn_down ≡ false
        → Step r
            (handle_chunk r id chunk_id plaintext now).events
            (handle_chunk r id chunk_id plaintext now).receiver
    digest :
        (r : Receiver) (c : Completion)
        → r.completing ≡ some c
        → Step r (resume sha256 r c).events (resume sha256 r c).receiver
    cancel : (r : Receiver) (id : ℕ) → Step r [] (cancel_transfer r id).0
    sweep :
        (r : Receiver) (now : ℕ)
        → Step r
            (sweep_inactive_transfers timeout now r).events
            (sweep_inactive_transfers timeout now r).receiver
    tear : (r : Receiver) → Step r [] (teardown r)

  -- What a new receiver can become, with the events on the way.
  pub data Reaches : Receiver → List Event → Receiver → Type 0 where
    done : (r : Receiver) → Reaches r [] r
    after :
        {r s u : Receiver} {es fs : List Event}
        → Step r es s
        → Reaches s fs u
        → Reaches r (es ++ fs) u
