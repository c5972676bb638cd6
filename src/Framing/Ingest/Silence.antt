-- ===== src/Framing/Ingest/Silence.antt =====
-- What a receiver does after its teardown.
use fuck_chat_control.Base.{ℕ, ◌≡◌, refl, ap, ◌∙◌, true, none, List, [], map, if◌then◌else◌}
use fuck_chat_control.Base.Result.{Result, ok, err}
use fuck_chat_control.Protocol.Types.{FrameAad}
use fuck_chat_control.Crypto.ReplayWindow.{ReplayWindow}
use fuck_chat_control.Crypto.Aead.{AeadFailure}
use fuck_chat_control.Framing.Receiver.Steps.{digest, cancel, sweep}
use fuck_chat_control.Framing.Receiver.Runs.{Step-silent, teardown-torn_down}
use fuck_chat_control.Framing.Ingest.{
  Config, Link, Delivery, of_transfer, Ingested, quiet, dispatch, begin_ingest, end_ingest,
  awaiting, open_frame, teardown_link,
}
use fuck_chat_control.Framing.Ingest.Runs.{
  LinkStep, LinkReaches, frame, decrypted, digested, cancelled, swept, torn, start, then_step,
}

module _ (config : Config) (sha256 : List ℕ → List ℕ) (timeout : ℕ) where
  begin_ingest-silent :
      (l : Link) (bytes : List ℕ)
      → l.receiver.torn_down ≡ true
      → begin_ingest config l bytes ≡ quiet l
  unfolding begin_ingest
  begin_ingest-silent l bytes t =
      ap (λ b. if b then quiet l else awaiting config l (open_frame config l bytes)) t

  -- A decryption that ends late delivers nothing, be it text, control or a part of a file.
  end_ingest-silent :
      (l : Link) (now : ℕ) (aad : FrameAad) (result : Result AeadFailure (ReplayWindow × List ℕ))
      → l.receiver.torn_down ≡ true
      → ((end_ingest config l now (record { aad = aad; result = result })).deliveries ≡ [])
        × ((end_ingest config l now (record { aad = aad; result = result })).link.receiver.torn_down
            ≡ true)
  unfolding end_ingest
  end_ingest-silent l now aad (err e) t = (refl, t)
  end_ingest-silent l now aad (ok (window, plaintext)) t =
      let moved = record l { window = window } in
      (
        ap (λ b. (if b then quiet moved else live_of moved).deliveries) t,
        ap (λ b. (if b then quiet moved else live_of moved).link.receiver.torn_down) t ∙ t,
      )
    where
      live_of : Link → Ingested
      live_of moved = dispatch config moved now aad aad.frame_type plaintext

  LinkStep-silent :
      {l k : Link} {ds : List Delivery}
      → LinkStep config sha256 timeout l ds k
      → l.receiver.torn_down ≡ true
      → (ds ≡ []) × (k.receiver.torn_down ≡ true)
  unfolding teardown_link
  LinkStep-silent (frame l bytes d c) t =
      let e = begin_ingest-silent l bytes t in
      (ap (λ o. o.deliveries) e, ap (λ o. o.link.receiver.torn_down) e ∙ t)
  LinkStep-silent (decrypted l d now e c) t =
      end_ingest-silent (record l { decrypting = none }) now d.aad d.result t
  LinkStep-silent (digested l c e) t =
      let (quiet_events, still) = Step-silent sha256 timeout (digest l.receiver c e) t in
      (ap (λ es. map of_transfer es) quiet_events, still)
  LinkStep-silent (cancelled l id) t =
      (refl, (Step-silent sha256 timeout (cancel l.receiver id) t).1)
  LinkStep-silent (swept l now) t =
      let (quiet_events, still) = Step-silent sha256 timeout (sweep l.receiver now) t in
      (ap (λ es. map of_transfer es) quiet_events, still)
  LinkStep-silent (torn l) t = (refl, teardown-torn_down sha256 timeout l.receiver)

  LinkReaches-silent :
      {l k : Link} {ds : List Delivery}
      → LinkReaches config sha256 timeout l ds k
      → l.receiver.torn_down ≡ true
      → (ds ≡ []) × (k.receiver.torn_down ≡ true)
  LinkReaches-silent (start l) t = (refl, t)
  LinkReaches-silent (then_step {ds = ds} {es = es} st rest) t =
      let (e, t') = LinkStep-silent st t in
      let (f, u) = LinkReaches-silent rest t' in (rw (e, f) refl, u)

  -- After a teardown, in whatever state it finds the receiver and whatever bytes, decryptions, digests, cancels and
  -- sweeps come then, none of onText, onControl, onFileComplete and onTransferTimeout is called.
  pub teardown_link-silent :
      (l : Link) {k : Link} {ds : List Delivery}
      → LinkReaches config sha256 timeout (teardown_link l) ds k
      → ds ≡ []
  unfolding teardown_link
  teardown_link-silent l h = (LinkReaches-silent h (teardown-torn_down sha256 timeout l.receiver)).0
