-- ===== src/Framing/Sender/Steps.antt =====
-- framing/sender.ts: how a call that waits goes on, what ends a wait, and what can happen to a sender. A transport
-- takes every frame that it is given: a throw of its `send` is left out.
use fuck_chat_control.Base.{
  ℕ, ◌+◌, ◌≡◌, Bool, true, false, Option, none, some, List, [], ◌∷◌, ◌++◌, if◌then◌else◌, ◌==◌,
  length, map, replicate, nat_eq,
}
use fuck_chat_control.Base.Map as Map
use fuck_chat_control.Base.Result.{Result, ok, err}
use fuck_chat_control.Crypto.Aead.{AeadFailure, EncryptedFrame}
use fuck_chat_control.Protocol.Types.{FrameAad}
use fuck_chat_control.Framing.Errors.{FramingErrorCode, transfer_cancelled, tearing_down}
use fuck_chat_control.Framing.Wire.{encode_wire_frame}
use fuck_chat_control.Framing.Chunks.{chunk_end}
use fuck_chat_control.Framing.Sender.{
  FileJob, Thrown, of_aead, thrown_code, After, returning, swallowed, manifest_of, chunk_of,
  rethrowing, Task, hashing, sealing, drained, DrainWaiter, Sender, Event, sent, transfer_start,
  progress, returned, threw, Run, run, then_run, Called, begin_file_transfer, of_codec,
  release_and_throw,
}
use fuck_chat_control.Framing.Sender.Calls.{
  Config, send_text, send_control, send_cancel, send_file, send_manifest, fail_file, next_chunk,
  chunks_or_return,
}

module _ (config : Config) where
  -- `sendEncryptedFrame` after its `await`: the frame on the wire, if it can be written.
  abbrev pub seal_wire : FrameAad → Result AeadFailure EncryptedFrame → Called (List ℕ)
  seal_wire aad (err e) = err (of_aead e)
  seal_wire aad (ok frame) = of_codec (
      encode_wire_frame (record { aad = aad; ciphertext_length = length frame.ciphertext })
        frame.nonce frame.ciphertext)

  -- What a call does when `sendEncryptedFrame` returns or throws, with `buffered` bytes in the transport.
  abbrev pub go_on : ℕ → Sender → After → Run
  go_on buffered s returning = run s (returned ∷ [])
  go_on buffered s swallowed = run s []
  go_on buffered s (manifest_of job) =
      then_run (transfer_start job.transfer_id ∷ []) (chunks_or_return config buffered s job 0)
  go_on buffered s (chunk_of job i) =
      then_run (progress job.transfer_id (chunk_end (length job.file) i) ∷ [])
        (chunks_or_return config buffered s job (i + 1))
  go_on buffered s (rethrowing job thrown) = release_and_throw s job thrown

  abbrev pub give_up : Sender → After → Thrown → Run
  give_up s returning thrown = run s (threw thrown ∷ [])
  give_up s swallowed thrown = run s []
  give_up s (manifest_of job) thrown = fail_file config s job thrown
  give_up s (chunk_of job i) thrown = fail_file config s job thrown
  give_up s (rethrowing job earlier) thrown = release_and_throw s job earlier

  -- A call goes on; `s` has its task taken out.
  unfoldable pub resume : ℕ → Sender → Task → Run
  resume buffered s (hashing job) = send_manifest config s job
  resume buffered s (sealing aad frame after) = elim (seal_wire aad frame) [
    | ok wire ↦ then_run (sent wire ∷ []) (go_on buffered s after)
    | err thrown ↦ give_up s after thrown
  ]
  resume buffered s (drained job i none) = next_chunk config buffered s job i
  resume buffered s (drained job i (some code)) = fail_file config s job (thrown_code code)

  abbrev pub waits_for : ℕ → DrainWaiter → Bool
  waits_for id waiter = waiter.job.transfer_id == id

  -- `rejectWaiters` goes from the last waiter to the first.
  abbrev pub kept_waiters : ℕ → List DrainWaiter → List DrainWaiter
  kept_waiters id [] = []
  kept_waiters id (w ∷ waiters) =
      let rest = kept_waiters id waiters in if waits_for id w then rest else w ∷ rest

  abbrev pub rejected_tasks : ℕ → List DrainWaiter → List Task
  rejected_tasks id [] = []
  rejected_tasks id (w ∷ waiters) =
      let rest = rejected_tasks id waiters in
      if waits_for id w then rest ++ drained w.job w.chunk (some transfer_cancelled) ∷ [] else rest

  abbrev pub reject_waiters : Sender → ℕ → Sender
  reject_waiters s id = record s {
    drain_waiters = kept_waiters id s.drain_waiters;
    tasks = s.tasks ++ rejected_tasks id s.drain_waiters;
  }

  abbrev pub or_swallow : Sender → Called Run → Run
  or_swallow s (ok r) = r
  or_swallow s (err thrown) = run s []

  abbrev pub cancelled_sender : Sender → ℕ → Sender
  cancelled_sender s id =
      reject_waiters
        (record s {
          cancelled_transfers = Map.set id tt s.cancelled_transfers;
          active_transfers = Map.delete id s.active_transfers;
        })
        id

  abbrev pub tell_peer : Sender → ℕ → Sender → Run
  tell_peer s id cancelled =
      if Map.has id s.manifest_sent_transfers
      then or_swallow cancelled (send_cancel config cancelled id swallowed)
      else run cancelled []

  unfoldable pub cancel_transfer : Sender → ℕ → Run × Bool
  cancel_transfer s id =
      if Map.has id s.active_transfers
      then (tell_peer s id (cancelled_sender s id), true)
      else (run s [], false)

  -- How a drain settles a waiter.
  abbrev pub settlement : Sender → DrainWaiter → Option FramingErrorCode
  settlement s w =
      if s.tearing_down
      then some tearing_down
      else if Map.has w.job.transfer_id s.cancelled_transfers
      then some transfer_cancelled
      else none

  unfoldable pub handle_drain : Sender → Sender
  handle_drain s = record s {
    drain_waiters = [];
    tasks = s.tasks ++ map (λ w. drained w.job w.chunk (settlement s w)) s.drain_waiters;
  }

  -- The keys are overwritten with zeros.
  unfoldable pub teardown : Sender → Sender
  teardown s = record s {
    tearing_down = true;
    drain_waiters = [];
    tasks = s.tasks ++ map (λ w. drained w.job w.chunk (some tearing_down)) s.drain_waiters;
    active_transfers = [];
    manifest_sent_transfers = [];
    send_key = replicate (length s.send_key) 0;
  }

  -- The waiting calls go on in any order.
  pub data Step : Sender → List Event → Sender → Type 0 where
    text :
        (s : Sender) (plaintext : List ℕ)
        → Step s (send_text config s plaintext).events (send_text config s plaintext).sender
    control :
        (s : Sender) (subtype : ℕ) (payload : List ℕ)
        → Step s
            (send_control config s subtype payload).events
            (send_control config s subtype payload).sender
    begin : (s s' : Sender) (id : ℕ) → begin_file_transfer s ≡ ok (id, s') → Step s [] s'
    file :
        (s : Sender) (job : FileJob)
        → Step s (send_file config s job).events (send_file config s job).sender
    go :
        (s : Sender) (buffered : ℕ) (before : List Task) (task : Task) (later : List Task)
        → s.tasks ≡ before ++ task ∷ later
        → Step s
            (resume buffered (record s { tasks = before ++ later }) task).events
            (resume buffered (record s { tasks = before ++ later }) task).sender
    cancel :
        (s : Sender) (id : ℕ)
        → Step s (cancel_transfer s id).0.events (cancel_transfer s id).0.sender
    drain : (s : Sender) → Step s [] (handle_drain s)
    tear : (s : Sender) → Step s [] (teardown s)

  pub data Reaches : Sender → List Event → Sender → Type 0 where
    done : (s : Sender) → Reaches s [] s
    then_step :
        {s t u : Sender} {es fs : List Event}
        → Step s es t
        → Reaches t fs u
        → Reaches s (es ++ fs) u
