-- ===== src/Framing/Receiver/Runs.antt =====
-- Runs of a receiver.
use fuck_chat_control.Base.{
  ℕ, ◌≡◌, refl, sym, ◌∙◌, subst, true, none, List, [], ◌∷◌, ◌++◌, arith, length, str_beq_iff,
  nat_eq,
}
use fuck_chat_control.Base.Map.{Map}
use fuck_chat_control.Framing.Receiver.{
  FileManifest, ActiveTransfer, Completion, Receiver, Event, file_complete, transfer_timeout,
  new_receiver, drop_transfer, complete_transfer, resume, handle_manifest, handle_chunk,
  store_chunk, cancel_transfer, drop_each, timeouts, sweep_inactive_transfers, teardown,
}
use fuck_chat_control.Framing.Receiver.Steps.{
  Step, manifest, chunk, digest, cancel, sweep, tear, Reaches, done, after,
}
use fuck_chat_control.Framing.Receiver.Accounting.{IsAccounted, IsWaiting}
use fuck_chat_control.Framing.Receiver.Admission.{handle_manifest-IsAccounted}
use fuck_chat_control.Framing.Receiver.Storage.{handle_chunk-IsAccounted}
use fuck_chat_control.Framing.Receiver.Endings.{cancel_transfer-IsAccounted, resume-IsAccounted}
use fuck_chat_control.Framing.Receiver.Loops.{
  sweep_inactive_transfers-IsAccounted, teardown-IsAccounted,
}

complete_transfer-quiet :
    (r : Receiver) (id : ℕ) (t : ActiveTransfer) → (complete_transfer r id t).events ≡ []
unfolding complete_transfer
complete_transfer-quiet r id t = ground arith

handle_manifest-quiet :
    (r : Receiver) (id : ℕ) (m : FileManifest) (now : ℕ) → (handle_manifest r id m now).events ≡ []
unfolding handle_manifest
handle_manifest-quiet r id m now = grind (arith, complete_transfer-quiet)

store_chunk-quiet :
    (r : Receiver) (id : ℕ) (t : ActiveTransfer) (i : ℕ) (p : List ℕ) (now : ℕ)
    → (store_chunk r id t i p now).events ≡ []
store_chunk-quiet r id t i p now = grind (arith, complete_transfer-quiet)

handle_chunk-quiet :
    (r : Receiver) (id i : ℕ) (p : List ℕ) (now : ℕ) → (handle_chunk r id i p now).events ≡ []
unfolding handle_chunk
handle_chunk-quiet r id i p now = grind (arith, store_chunk-quiet)

module _ (sha256 : List ℕ → List ℕ) (timeout : ℕ) where
  Step-IsAccounted :
      {r s : Receiver} {es : List Event}
      → Step sha256 timeout r es s
      → IsAccounted r
      → IsAccounted s
  Step-IsAccounted (manifest r id m now c o) a = handle_manifest-IsAccounted r id m now a c
  Step-IsAccounted (chunk r id i p now c o) a = handle_chunk-IsAccounted r id i p now a c
  Step-IsAccounted (digest r c e) a = resume-IsAccounted sha256 r c a e
  Step-IsAccounted (cancel r id) a = cancel_transfer-IsAccounted r id a
  Step-IsAccounted (sweep r now) a = sweep_inactive_transfers-IsAccounted timeout now r a
  Step-IsAccounted (tear r) a = (teardown-IsAccounted r a).0

  reaches-IsAccounted_from :
      {r s : Receiver} {es : List Event}
      → Reaches sha256 timeout r es s
      → IsAccounted r
      → IsAccounted s
  reaches-IsAccounted_from (done r) a = a
  reaches-IsAccounted_from (after st rest) a = reaches-IsAccounted_from rest (Step-IsAccounted st a)

  -- A file that is handed over has the declared size and the declared digest.
  abbrev pub IsGenuine : Event → Type 0
  IsGenuine (file_complete m file) = (length file ≡ m.size) × (sha256 file ≡ m.content_hash)
  IsGenuine (transfer_timeout id) = Unit {0}

  abbrev pub AllGenuine : List Event → Type 0
  AllGenuine [] = Unit {0}
  AllGenuine (e ∷ es) = IsGenuine e × AllGenuine es

  AllGenuine-append : (es fs : List Event) → AllGenuine es → AllGenuine fs → AllGenuine (es ++ fs)
  AllGenuine-append [] fs h k = k
  AllGenuine-append (e ∷ es) fs (g, h) k = (g, AllGenuine-append es fs h k)

  timeouts-AllGenuine : (now : ℕ) (m : Map ℕ ActiveTransfer) → AllGenuine (timeouts timeout now m)
  timeouts-AllGenuine now [] = tt
  timeouts-AllGenuine now (p ∷ m) = ground (arith, timeouts-AllGenuine now m)

  sweep-AllGenuine :
      (now : ℕ) (r : Receiver) → AllGenuine (sweep_inactive_transfers timeout now r).events
  unfolding sweep_inactive_transfers
  sweep-AllGenuine now r = ground (arith, timeouts-AllGenuine now r.transfers)

  resume-AllGenuine :
      (r : Receiver) (c : Completion)
      → length c.reassembled ≡ c.transfer.manifest.size
      → AllGenuine (resume sha256 r c).events
  unfolding resume
  resume-AllGenuine r c l =
      ground (arith, str_beq_iff (sha256 c.reassembled) c.transfer.manifest.content_hash)

  Step-AllGenuine :
      {r s : Receiver} {es : List Event}
      → Step sha256 timeout r es s
      → IsAccounted r
      → AllGenuine es
  Step-AllGenuine (manifest r id m now c o) a =
      subst AllGenuine (sym (handle_manifest-quiet r id m now)) tt
  Step-AllGenuine (chunk r id i p now c o) a =
      subst AllGenuine (sym (handle_chunk-quiet r id i p now)) tt
  Step-AllGenuine (digest r c e) a =
      resume-AllGenuine r c (subst (IsWaiting r.transfers) e a.waiting).0
  Step-AllGenuine (cancel r id) a = tt
  Step-AllGenuine (sweep r now) a = sweep-AllGenuine now r
  Step-AllGenuine (tear r) a = tt

  reaches-AllGenuine_from :
      {r s : Receiver} {es : List Event}
      → Reaches sha256 timeout r es s
      → IsAccounted r
      → AllGenuine es
  reaches-AllGenuine_from (done r) a = tt
  reaches-AllGenuine_from (after {es = es} {fs = fs} st rest) a =
      AllGenuine-append es fs (Step-AllGenuine st a)
        (reaches-AllGenuine_from rest (Step-IsAccounted st a))

  torn_down-drop_transfer :
      (r : Receiver) (id : ℕ) (t : ActiveTransfer) → (drop_transfer r id t).torn_down ≡ r.torn_down
  unfolding drop_transfer
  torn_down-drop_transfer r id t = ground arith

  resume-silent :
      (r : Receiver) (c : Completion)
      → r.torn_down ≡ true
      → ((resume sha256 r c).events ≡ []) × ((resume sha256 r c).receiver.torn_down ≡ true)
  unfolding resume
  resume-silent r c t =
      ground
        (arith, torn_down-drop_transfer (record r { completing = none }) c.transfer_id c.transfer)

  cancel-silent :
      (r : Receiver) (id : ℕ) → r.torn_down ≡ true → (cancel_transfer r id).0.torn_down ≡ true
  unfolding cancel_transfer
  cancel-silent r id t = ground arith

  sweep-silent :
      (r : Receiver) (now : ℕ)
      → r.torn_down ≡ true
      → ((sweep_inactive_transfers timeout now r).events ≡ [])
        × ((sweep_inactive_transfers timeout now r).receiver.torn_down ≡ true)
  unfolding sweep_inactive_transfers
  sweep-silent r now t = ground arith

  torn_down-drop_each :
      (r : Receiver) (entries : Map ℕ ActiveTransfer)
      → (drop_each r entries).torn_down ≡ r.torn_down
  torn_down-drop_each r [] = refl
  torn_down-drop_each r ((id, t) ∷ entries) =
      torn_down-drop_each (drop_transfer r id t) entries ∙ torn_down-drop_transfer r id t

  pub teardown-torn_down : (r : Receiver) → (teardown r).torn_down ≡ true
  unfolding teardown
  teardown-torn_down r = torn_down-drop_each (record r { torn_down = true }) r.transfers

  pub Step-silent :
      {r s : Receiver} {es : List Event}
      → Step sha256 timeout r es s
      → r.torn_down ≡ true
      → (es ≡ []) × (s.torn_down ≡ true)
  Step-silent (manifest r id m now c o) t = absurd (cc)
  Step-silent (chunk r id i p now c o) t = absurd (cc)
  Step-silent (digest r c e) t = resume-silent r c t
  Step-silent (cancel r id) t = (refl, cancel-silent r id t)
  Step-silent (sweep r now) t = sweep-silent r now t
  Step-silent (tear r) t = (refl, teardown-torn_down r)

  -- After a teardown nothing is called back about a transfer by a digest that comes in late, a cancel or a sweep.
  pub reaches-torn_down :
      {r s : Receiver} {es : List Event}
      → r.torn_down ≡ true
      → Reaches sha256 timeout r es s
      → (es ≡ []) × (s.torn_down ≡ true)
  reaches-torn_down t (done r) = (refl, t)
  reaches-torn_down t (after {es = es} {fs = fs} st rest) =
      let (e, t') = Step-silent st t in
      let (f, u) = reaches-torn_down t' rest in (rw (e, f) refl, u)

  new_receiver-IsAccounted : IsAccounted new_receiver
  new_receiver-IsAccounted = record {
    sound = tt;
    distinct = tt;
    buffered = refl;
    reserved = refl;
    few = omega arith;
    budget = omega arith;
    waiting = tt;
  }

  -- Whatever frames, digests, cancels, sweeps and teardowns come in whatever order, a receiver's counters are
  -- exactly the bytes received and the bytes still missing of its transfers, these are at most four, and the
  -- two together stay within 64 MiB.
  pub reaches-IsAccounted :
      {r : Receiver} {es : List Event} → Reaches sha256 timeout new_receiver es r → IsAccounted r
  reaches-IsAccounted h = reaches-IsAccounted_from h new_receiver-IsAccounted

  -- Every file that a receiver hands over, whatever happened before, has the size and the digest that its
  -- manifest declares.
  pub reaches-AllGenuine :
      {r : Receiver} {es : List Event} → Reaches sha256 timeout new_receiver es r → AllGenuine es
  reaches-AllGenuine h = reaches-AllGenuine_from h new_receiver-IsAccounted
