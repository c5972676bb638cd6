-- ===== src/Group/Errors.antt =====
-- group/errors.ts, and `encodeGroupId` of group/types.ts.
use fuck_chat_control.Base.{ℕ, List, length, ◌==◌}
use fuck_chat_control.Base.Result.{Result, ok, err, ◌>>◌, require}
use fuck_chat_control.Protocol.Limits.{conversation_id_bytes}
use fuck_chat_control.Protocol.Types.{ProtocolErrorCode}

pub data GroupErrorCode : Type 0 where
  malformed not_author epoch_regression member_limit_reached unknown_link_identity : GroupErrorCode
  membership_invalid no_established_link group_not_found : GroupErrorCode

-- What a group function throws: a `GroupError`, or a `ProtocolError` that it passes on.
pub data GroupFailure : Type 0 where
  group : GroupErrorCode → GroupFailure
  protocol : ProtocolErrorCode → GroupFailure

abbrev pub Grouped : Type 0 → Type 0
Grouped A = Result GroupFailure A

-- A `ProtocolError` passed on.
abbrev pub passed_on : {A : Type 0} → Result ProtocolErrorCode A → Grouped A
passed_on (ok a) = ok a
passed_on (err e) = err (protocol e)

-- A `ProtocolError` caught and thrown as `Malformed`.
abbrev pub as_malformed_entry : {A : Type 0} → Result ProtocolErrorCode A → Grouped A
as_malformed_entry (ok a) = ok a
as_malformed_entry (err e) = err (group malformed)

abbrev pub encode_group_id : List ℕ → Grouped (List ℕ)
encode_group_id input =
    require (length input == conversation_id_bytes) (group malformed) >> ok input
