-- ===== src/Framing.antt =====
-- The framing of an encrypted session: packages/chat-runtime/src/framing.
pub mod Errors
pub mod Wire
pub mod Chunks
pub mod Receiver
pub mod Manifest
pub mod Sender
pub mod Ingest
mod Tests
