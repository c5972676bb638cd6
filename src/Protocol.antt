-- ===== src/Protocol.antt =====
-- The wire protocol: packages/chat-runtime/src/protocol.
pub mod Limits
pub mod Types
pub mod Bytes
pub mod Codec
pub mod Nonce
pub mod Control
pub mod Keys
pub mod Transcript
mod Tests
