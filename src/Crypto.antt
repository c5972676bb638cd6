-- ===== src/Crypto.antt =====
-- packages/chat-runtime/src/crypto.
pub mod ReplayWindow
pub mod Aead
mod Tests
