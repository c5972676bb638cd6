-- ===== src/Runtime/Tests.antt =====
-- Events on a concrete list of transfers.
use fuck_chat_control.Base.{◌≡◌, refl, true, false, none, some, List, [], ◌∷◌, str}
use fuck_chat_control.Runtime.TransferState.{
  TransferState, TransferEvent, started, progressed, completed, failed, sent, complete, find,
}
use fuck_chat_control.Runtime.TransferState.Progress.{
  run, IsConsistent, find-run_terminal, run-IsConsistent,
}

abbrev done : TransferState
done = record {
  id = 1;
  name = str "a";
  mime_type = str "b";
  size = 5;
  direction = sent;
  bytes_transferred = 5;
  status = complete;
  error_text = none;
}

-- A late error, and a second start under the same id.
abbrev late_events : List TransferEvent
late_events =
    failed 1 (str "late") ∷ started 1 (str "c") (str "d") 9 sent true ∷ progressed 1 2 ∷ []

find-run_terminal_example : find 1 (run (done ∷ []) late_events) ≡ some done
find-run_terminal_example = find-run_terminal 1 done (done ∷ []) late_events refl refl

abbrev all_events : List TransferEvent
all_events = started 1 (str "a") (str "b") 5 sent false ∷ progressed 1 9 ∷ completed 1 ∷ late_events

run-IsConsistent_example : IsConsistent (run [] all_events)
run-IsConsistent_example = run-IsConsistent all_events
