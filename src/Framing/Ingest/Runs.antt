-- ===== src/Framing/Ingest/Runs.antt =====
-- Runs of `ingest`: each is, to the transfers, a run of their handlers.
use fuck_chat_control.Base.{
  ℕ, ◌≡◌, refl, sym, ap, subst, Bool, true, false, not, none, some, List, [], ◌∷◌, ◌++◌, map, arith,
  if◌then◌else◌, ◌==◌,
}
use fuck_chat_control.Base.Result.{Result, ok, err}
use fuck_chat_control.Protocol.Bytes.{append_nil, append_assoc}
use fuck_chat_control.Protocol.Types.{
  FrameType, text, file_manifest, file_chunk, control, media_manifest, media_chunk, FrameAad,
}
use fuck_chat_control.Crypto.ReplayWindow.{ReplayWindow}
use fuck_chat_control.Protocol.Control.{
  is_allowed_subtype, transfer_cancel, decode_transfer_cancel_payload,
}
use fuck_chat_control.Framing.Errors.{
  FramingErrorCode, Framed, framing, unknown_control_subtype, passed_on,
}
use fuck_chat_control.Framing.Manifest.{decode_manifest}
use fuck_chat_control.Framing.Receiver.{
  Receiver, FileManifest, Completion, Event, Outcome, handle_manifest, handle_chunk,
  cancel_transfer, sweep_inactive_transfers, resume,
}
use fuck_chat_control.Framing.Receiver.Steps.{
  Step, manifest, chunk, digest, cancel, sweep, tear, Reaches, done, after,
}
use fuck_chat_control.Framing.Receiver.Accounting.{IsAccounted}
use fuck_chat_control.Framing.Receiver.Runs.{AllGenuine, reaches-IsAccounted, reaches-AllGenuine}
use fuck_chat_control.Framing.Ingest.{
  Config, Decryption, Link, new_link, Delivery, on_control, of_transfer, Ingested, quiet, rejecting,
  delivering, of_outcome, begin_ingest, end_ingest, dispatch, handle_control, cancel_named, admit,
  awaiting, open_frame, teardown_link,
}

module _ (config : Config) (sha256 : List ℕ → List ℕ) (timeout : ℕ) where
  pub data LinkStep : Link → List Delivery → Link → Type 0 where
    -- The chain lets a frame in when the one before is done with.
    frame :
        (l : Link) (bytes : List ℕ)
        → l.decrypting ≡ none
        → l.receiver.completing ≡ none
        → LinkStep l (begin_ingest config l bytes).deliveries (begin_ingest config l bytes).link
    decrypted :
        (l : Link) (d : Decryption) (now : ℕ)
        → l.decrypting ≡ some d
        → l.receiver.completing ≡ none
        → LinkStep l
            (end_ingest config (record l { decrypting = none }) now d).deliveries
            (end_ingest config (record l { decrypting = none }) now d).link
    digested :
        (l : Link) (c : Completion)
        → l.receiver.completing ≡ some c
        → LinkStep l
            (of_outcome l (resume sha256 l.receiver c)).deliveries
            (of_outcome l (resume sha256 l.receiver c)).link
    cancelled :
        (l : Link) (id : ℕ)
        → LinkStep l [] (record l { receiver = (cancel_transfer l.receiver id).0 })
    swept :
        (l : Link) (now : ℕ)
        → LinkStep l
            (of_outcome l (sweep_inactive_transfers timeout now l.receiver)).deliveries
            (of_outcome l (sweep_inactive_transfers timeout now l.receiver)).link
    torn : (l : Link) → LinkStep l [] (teardown_link l)

  pub data LinkReaches : Link → List Delivery → Link → Type 0 where
    start : (l : Link) → LinkReaches l [] l
    then_step :
        {l k j : Link} {ds es : List Delivery}
        → LinkStep l ds k
        → LinkReaches k es j
        → LinkReaches l (ds ++ es) j

  -- The callbacks about transfers.
  abbrev pub transfer_events : List Delivery → List Event
  transfer_events [] = []
  transfer_events (of_transfer e ∷ ds) = e ∷ transfer_events ds
  transfer_events (d ∷ ds) = transfer_events ds

  transfer_events-map : (es : List Event) → transfer_events (map of_transfer es) ≡ es
  transfer_events-map [] = refl
  transfer_events-map (e ∷ es) = ap (λ l. e ∷ l) (transfer_events-map es)

  transfer_events-append :
      (ds es : List Delivery)
      → transfer_events (ds ++ es) ≡ transfer_events ds ++ transfer_events es
  transfer_events-append [] es = refl
  transfer_events-append (d ∷ ds) es = ground (arith, transfer_events-append ds es)

  -- A piece is one step of the transfers, or leaves them alone.
  record Follows (r : Receiver) (o : Ingested) : Type 0 where
    run : Reaches sha256 timeout r (transfer_events o.deliveries) o.link.receiver

  one :
      {r s : Receiver} {es : List Event}
      → Step sha256 timeout r es s
      → Reaches sha256 timeout r es s
  one {r} {s} {es} st =
      subst (λ l. Reaches sha256 timeout r l s) (append_nil es) (after st (done s))

  of_outcome-Follows :
      (l : Link) (o : Outcome)
      → Step sha256 timeout l.receiver o.events o.receiver
      → Follows l.receiver (of_outcome l o)
  of_outcome-Follows l o st = record {
    run =
        subst (λ es. Reaches sha256 timeout l.receiver es o.receiver)
          (sym (transfer_events-map o.events)) (one st);
  }

  awaiting-Follows : (l : Link) (d : Framed Decryption) → Follows l.receiver (awaiting config l d)
  awaiting-Follows l (ok d) = record { run = done l.receiver }
  awaiting-Follows l (err e) = record { run = done l.receiver }

  if-Follows :
      {r : Receiver} (b : Bool) (x y : Ingested)
      → (b ≡ true → Follows r x)
      → (b ≡ false → Follows r y)
      → Follows r (if b then x else y)
  if-Follows true x y f g = f refl
  if-Follows false x y f g = g refl

  begin_ingest-Follows :
      (l : Link) (bytes : List ℕ) → Follows l.receiver (begin_ingest config l bytes)
  unfolding begin_ingest
  begin_ingest-Follows l bytes =
      if-Follows l.receiver.torn_down (quiet l) (awaiting config l (open_frame config l bytes))
        (λ _. record { run = done l.receiver })
        (λ _. awaiting-Follows l (open_frame config l bytes))

  cancel_named-Follows : (l : Link) (id : Framed ℕ) → Follows l.receiver (cancel_named config l id)
  cancel_named-Follows l (ok id) = record { run = one (cancel l.receiver id) }
  cancel_named-Follows l (err e) = record { run = done l.receiver }

  handle_control-Follows :
      (l : Link) (plaintext : List ℕ) → Follows l.receiver (handle_control config l plaintext)
  unfolding handle_control
  handle_control-Follows l [] = record { run = done l.receiver }
  handle_control-Follows l (subtype ∷ payload) =
      if-Follows (not (is_allowed_subtype config.group_link subtype))
        (rejecting l (framing unknown_control_subtype))
        (if subtype == transfer_cancel
          then cancel_named config l named
          else delivering l (on_control subtype payload))
        (λ _. record { run = done l.receiver })
        (λ _.
          if-Follows (subtype == transfer_cancel) (cancel_named config l named)
            (delivering l (on_control subtype payload)) (λ _. cancel_named-Follows l named)
            (λ _. record { run = done l.receiver }))
    where
      named : Framed ℕ
      named = passed_on (decode_transfer_cancel_payload payload)

  module _ (l : Link) (idle : l.receiver.completing ≡ none)
      (up : l.receiver.torn_down ≡ false) where
    admit-Follows :
        (now id : ℕ) (m : Result FramingErrorCode FileManifest)
        → Follows l.receiver (admit config l now id m)
    admit-Follows now id (ok m) =
        of_outcome-Follows l (handle_manifest l.receiver id m now)
          (manifest l.receiver id m now idle up)
    admit-Follows now id (err code) = record { run = done l.receiver }

    dispatch-Follows :
        (now : ℕ) (aad : FrameAad) (t : FrameType) (plaintext : List ℕ)
        → Follows l.receiver (dispatch config l now aad t plaintext)
    dispatch-Follows now aad text plaintext = record { run = done l.receiver }
    dispatch-Follows now aad control plaintext = handle_control-Follows l plaintext
    dispatch-Follows now aad file_manifest plaintext =
        admit-Follows now aad.transfer_id
          (decode_manifest config.decode_text plaintext aad.transfer_id)
    dispatch-Follows now aad file_chunk plaintext =
        of_outcome-Follows l (handle_chunk l.receiver aad.transfer_id aad.chunk_id plaintext now)
          (chunk l.receiver aad.transfer_id aad.chunk_id plaintext now idle up)
    dispatch-Follows now aad media_manifest plaintext = record { run = done l.receiver }
    dispatch-Follows now aad media_chunk plaintext = record { run = done l.receiver }

  end_ingest-Follows :
      (l : Link) (now : ℕ) (aad : FrameAad) (result : Result _ (ReplayWindow × List ℕ))
      → l.receiver.completing ≡ none
      → Follows l.receiver (end_ingest config l now (record { aad = aad; result = result }))
  unfolding end_ingest
  end_ingest-Follows l now aad (err e) idle = record { run = done l.receiver }
  end_ingest-Follows l now aad (ok (window, plaintext)) idle =
      if-Follows l.receiver.torn_down (quiet (record l { window = window }))
        (dispatch config (record l { window = window }) now aad aad.frame_type plaintext)
        (λ _. record { run = done l.receiver })
        (λ up.
          dispatch-Follows (record l { window = window }) idle up now aad aad.frame_type plaintext)

  LinkStep-Follows :
      {l k : Link} {ds : List Delivery}
      → LinkStep l ds k
      → Reaches sha256 timeout l.receiver (transfer_events ds) k.receiver
  unfolding teardown_link
  LinkStep-Follows (frame l bytes n i) = (begin_ingest-Follows l bytes).run
  LinkStep-Follows (decrypted l d now e i) =
      (end_ingest-Follows (record l { decrypting = none }) now d.aad d.result i).run
  LinkStep-Follows (digested l c e) =
      (of_outcome-Follows l (resume sha256 l.receiver c) (digest l.receiver c e)).run
  LinkStep-Follows (cancelled l id) = one (cancel l.receiver id)
  LinkStep-Follows (swept l now) =
      (of_outcome-Follows l (sweep_inactive_transfers timeout now l.receiver)
        (sweep l.receiver now)).run
  LinkStep-Follows (torn l) = one (tear l.receiver)

  Reaches-join :
      {r s u : Receiver} {es fs : List Event}
      → Reaches sha256 timeout r es s
      → Reaches sha256 timeout s fs u
      → Reaches sha256 timeout r (es ++ fs) u
  Reaches-join (done r) g = g
  Reaches-join {u} {fs} (after {r} {s} {es} {fs = later} st rest) g =
      subst (λ l. Reaches sha256 timeout r l u) (sym (append_assoc es later fs))
        (after st (Reaches-join rest g))

  -- Whatever bytes come in, what `ingest` and the other calls do to the transfers, and the callbacks that they make
  -- about them, is a run of the handlers of transfers.
  pub LinkReaches-Follows :
      {l k : Link} {ds : List Delivery}
      → LinkReaches l ds k
      → Reaches sha256 timeout l.receiver (transfer_events ds) k.receiver
  LinkReaches-Follows (start l) = done l.receiver
  LinkReaches-Follows (then_step {l} {k} {j} {ds} {es} st rest) =
      subst (λ fs. Reaches sha256 timeout l.receiver fs j.receiver)
        (sym (transfer_events-append ds es))
        (Reaches-join (LinkStep-Follows st) (LinkReaches-Follows rest))

  -- Whatever bytes come in, well formed or not, and whenever transfers are cancelled, swept or torn down: every file
  -- that a new receiver hands over has the size and the digest that its manifest declares, and the receiver's
  -- counters are exact and within the budget.
  pub ingest-AllGenuine :
      (key : List ℕ) (window : ReplayWindow) {l : Link} {ds : List Delivery}
      → LinkReaches (new_link key window) ds l
      → AllGenuine sha256 timeout (transfer_events ds) × IsAccounted l.receiver
  ingest-AllGenuine key window h =
      let r = LinkReaches-Follows h in
      (reaches-AllGenuine sha256 timeout r, reaches-IsAccounted sha256 timeout r)
