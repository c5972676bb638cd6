-- ===== src/Framing/Errors.antt =====
-- framing/errors.ts.
use fuck_chat_control.Base.Result.{Result, ok, err}
use fuck_chat_control.Protocol.Types.{ProtocolErrorCode}

pub data FramingErrorCode : Type 0 where
  malformed wrong_session sequence_exhausted unknown_transfer transfer_inactive : FramingErrorCode
  duplicate_chunk chunk_out_of_range size_exceeded concurrent_transfers_exceeded : FramingErrorCode
  hash_mismatch transfer_cancelled tearing_down backpressured unknown_control_subtype :
      FramingErrorCode

-- What a framing function throws: a `FramingError`, or a `ProtocolError` that it passes on.
pub data Failure : Type 0 where
  framing : FramingErrorCode → Failure
  protocol : ProtocolErrorCode → Failure

abbrev pub Framed {ℓ} : Type ℓ → Type ℓ
Framed A = Result Failure A

-- A `ProtocolError` passed on.
abbrev pub passed_on {ℓ} : {A : Type ℓ} → Result ProtocolErrorCode A → Framed A
passed_on (ok a) = ok a
passed_on (err e) = err (protocol e)

-- A `ProtocolError` caught and thrown as `Malformed`.
abbrev pub as_malformed {ℓ} : {A : Type ℓ} → Result ProtocolErrorCode A → Framed A
as_malformed (ok a) = ok a
as_malformed (err e) = err (framing malformed)
