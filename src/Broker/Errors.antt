-- ===== src/Broker/Errors.antt =====
-- broker/errors.ts, and the close frames that the broker sends.
use Prim.Native.String.{String}
use fuck_chat_control.Base.{ℕ}

pub data BrokerErrorCode : Type 0 where
  already_seated duplicate_peer_id room_mode_mismatch : BrokerErrorCode

abbrev pub broker_close_codes : BrokerErrorCode → ℕ
broker_close_codes already_seated = 4003
broker_close_codes duplicate_peer_id = 4004
broker_close_codes room_mode_mismatch = 4005

abbrev pub broker_close_reasons : BrokerErrorCode → String
broker_close_reasons already_seated = "socket already in a room; leave + reconnect required"
broker_close_reasons duplicate_peer_id = "peerId already seated in this room; choose a fresh peerId"
broker_close_reasons room_mode_mismatch = "join mode does not match the room's mode"
