-- ===== src/Framing/Sender/Reservations.antt =====
-- Runs of a sender: the ids of transfers.
use fuck_chat_control.Base.{
  inl, inr, nat_eq, ℕ, ◌+◌, ◌≤◌, ◌<◌, ◌^◌, ◌≡◌, sym, subst, some, List, [], ◌++◌, arith,
}
use fuck_chat_control.Base.Map as Map
use fuck_chat_control.Base.Map.{Map}
use fuck_chat_control.Base.Result.{ok}
use fuck_chat_control.Framing.Sender.{
  Sender, Event, Run, new_sender, allocate_transfer_id, begin_file_transfer,
}
use fuck_chat_control.Framing.Sender.Calls.{Config, send_text, send_control, send_file}
use fuck_chat_control.Framing.Sender.Steps.{
  resume, handle_drain, cancel_transfer, teardown, Step, text, control, begin, file, go, cancel,
  drain, tear, Reaches, done, then_step,
}
use fuck_chat_control.Framing.Sender.Sequence.{
  Frees, IsPiece, send_text-IsPiece, send_control-IsPiece, send_file-IsPiece, resume-IsPiece,
  cancel_transfer-IsPiece,
}

-- The ids that are reserved are at most four, stand once, and were handed out: from 1,000,000 on, below `next`,
-- which stays within 32 bits and one.
pub record IsReserved (active : Map ℕ (Unit {0})) (next : ℕ) : Type 0 where
  pub few : Map.size active ≤ 4
  pub distinct : Map.Distinct active
  pub handed_out : (id : ℕ) → Map.get id active ≡ some tt → (1000000 ≤ id) × (id < next)
  pub from_first : 1000000 ≤ next
  pub in_range : next ≤ 2 ^ 32

none-IsReserved : {n : ℕ} → 1000000 ≤ n → n ≤ 2 ^ 32 → IsReserved [] n
unfolding Map.get
none-IsReserved low high = record {
  few = omega arith;
  distinct = tt;
  handed_out = λ id g. absurd (cc);
  from_first = low;
  in_range = high;
}

abbrev pub HasReserved : Sender → Type 0
HasReserved s = IsReserved s.active_transfers s.next_transfer_id

delete-IsReserved :
    (id : ℕ) (m : Map ℕ (Unit {0})) (n : ℕ) → IsReserved m n → IsReserved (Map.delete id m) n
delete-IsReserved id m n r = record {
  few = omega (arith, Map.size-delete-le id m, r.few);
  distinct = Map.delete-Distinct id m r.distinct;
  handed_out = λ k g. r.handed_out k (ground (arith, Map.get-delete id k m r.distinct));
  from_first = r.from_first;
  in_range = r.in_range;
}

set-IsReserved :
    (m : Map ℕ (Unit {0})) (n : ℕ)
    → Map.size m ≤ 3
    → n ≤ 0xffffffff
    → IsReserved m n
    → IsReserved (Map.set n tt m) (n + 1)
set-IsReserved m n room small r = record {
  few = ground (arith, Map.size-set n tt m);
  distinct = Map.set-Distinct n tt m r.distinct;
  handed_out = λ k g. ground (arith, Map.get-set n k tt m, r.handed_out k, r.from_first);
  from_first = omega (arith, r.from_first);
  in_range = omega arith;
}

Frees-HasReserved : (s s' : Sender) → Frees s s' → HasReserved s → HasReserved s'
Frees-HasReserved s s' (n, inl e) r =
    subst (IsReserved s'.active_transfers) (sym n)
      (subst (λ m. IsReserved m s.next_transfer_id) (sym e) r)
Frees-HasReserved s s' (n, inr (id, e)) r = subst (IsReserved s'.active_transfers) (sym n) (
    subst (λ m. IsReserved m s.next_transfer_id) (sym e)
      (delete-IsReserved id s.active_transfers s.next_transfer_id r))

begin-moves : (s s' : Sender) (id : ℕ) → begin_file_transfer s ≡ ok (id, s') → record {
  room : Map.size s.active_transfers ≤ 3;
  small : s.next_transfer_id ≤ 0xffffffff;
  given : id ≡ s.next_transfer_id;
  active : s'.active_transfers ≡ Map.set s.next_transfer_id tt s.active_transfers;
  next : s'.next_transfer_id ≡ s.next_transfer_id + 1;
}
unfolding begin_file_transfer allocate_transfer_id
begin-moves s s' id h = record {
  room = ground arith;
  small = ground arith;
  given = ground arith;
  active = ground arith;
  next = ground arith;
}

begin-HasReserved :
    (s s' : Sender) (id : ℕ) → begin_file_transfer s ≡ ok (id, s') → HasReserved s → HasReserved s'
begin-HasReserved s s' id h r =
    let b = begin-moves s s' id h in
    subst (IsReserved s'.active_transfers) (sym b.next) (
      subst (λ m. IsReserved m (s.next_transfer_id + 1)) (sym b.active)
        (set-IsReserved s.active_transfers s.next_transfer_id b.room b.small r))

module _ (config : Config) where
  -- Every step but a call of `beginFileTransfer` and a teardown is a piece.
  of_piece : (s : Sender) (r : Run) → IsPiece config s r → HasReserved s → HasReserved r.sender
  of_piece s r (_, _, _, f) h = Frees-HasReserved s r.sender f h

  Step-HasReserved :
      {s s' : Sender} {es : List Event} → Step config s es s' → HasReserved s → HasReserved s'
  unfolding handle_drain teardown
  Step-HasReserved (text s p) = of_piece s (send_text config s p) (send_text-IsPiece config s p)
  Step-HasReserved (control s subtype p) =
      of_piece s (send_control config s subtype p) (send_control-IsPiece config s subtype p)
  Step-HasReserved (begin s s' id h) = begin-HasReserved s s' id h
  Step-HasReserved (file s job) =
      of_piece s (send_file config s job) (send_file-IsPiece config s job)
  Step-HasReserved (go s buffered before task later e) =
      of_piece s (resume config buffered (record s { tasks = before ++ later }) task)
        (resume-IsPiece config buffered (record s { tasks = before ++ later }) task)
  Step-HasReserved (cancel s id) =
      of_piece s (cancel_transfer config s id).0 (cancel_transfer-IsPiece config s id)
  Step-HasReserved (drain s) = λ r. r
  Step-HasReserved (tear s) = λ r. none-IsReserved r.from_first r.in_range

  reaches-HasReserved_from :
      {s s' : Sender} {es : List Event} → Reaches config s es s' → HasReserved s → HasReserved s'
  reaches-HasReserved_from (done s) r = r
  reaches-HasReserved_from (then_step st rest) r =
      reaches-HasReserved_from rest (Step-HasReserved st r)

  -- Whatever happens to a new sender, at most four transfers are reserved, and their ids are different numbers
  -- of 32 bits from 1,000,000 on that were handed out.
  pub reaches-HasReserved :
      (key : List ℕ) {s : Sender} {es : List Event}
      → Reaches config (new_sender key) es s
      → HasReserved s
  reaches-HasReserved key h =
      reaches-HasReserved_from h (none-IsReserved (omega arith) (omega arith))

  Frees-le : (s s' : Sender) → Frees s s' → s.next_transfer_id ≤ s'.next_transfer_id
  Frees-le s s' f = omega (arith, f.0)

  piece-le :
      (s : Sender) (r : Run) → IsPiece config s r → s.next_transfer_id ≤ r.sender.next_transfer_id
  piece-le s r (_, _, _, f) = Frees-le s r.sender f

  Step-le :
      {s s' : Sender} {es : List Event}
      → Step config s es s'
      → s.next_transfer_id ≤ s'.next_transfer_id
  unfolding handle_drain teardown
  Step-le (text s p) = piece-le s (send_text config s p) (send_text-IsPiece config s p)
  Step-le (control s subtype p) =
      piece-le s (send_control config s subtype p) (send_control-IsPiece config s subtype p)
  Step-le (begin s s' id h) = omega (arith, (begin-moves s s' id h).next)
  Step-le (file s job) = piece-le s (send_file config s job) (send_file-IsPiece config s job)
  Step-le (go s buffered before task later e) =
      piece-le s (resume config buffered (record s { tasks = before ++ later }) task)
        (resume-IsPiece config buffered (record s { tasks = before ++ later }) task)
  Step-le (cancel s id) =
      piece-le s (cancel_transfer config s id).0 (cancel_transfer-IsPiece config s id)
  Step-le (drain s) = omega arith
  Step-le (tear s) = omega arith

  reaches-le :
      {s s' : Sender} {es : List Event}
      → Reaches config s es s'
      → s.next_transfer_id ≤ s'.next_transfer_id
  reaches-le (done s) = omega arith
  reaches-le (then_step st rest) = omega (arith, Step-le st, reaches-le rest)

  -- A transfer id is never handed out twice, whatever happens in between: a later one is larger.
  pub begin_file_transfer-Rising :
      (s s' t t' : Sender) (es : List Event) (id later : ℕ)
      → begin_file_transfer s ≡ ok (id, s')
      → Reaches config s' es t
      → begin_file_transfer t ≡ ok (later, t')
      → id < later
  begin_file_transfer-Rising s s' t t' es id later h r k =
      let b = begin-moves s s' id h in
      let c = begin-moves t t' later k in omega (arith, b.given, b.next, c.given, reaches-le r)
