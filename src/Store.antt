-- ===== src/Store.antt =====
-- What a peer keeps of its conversations: packages/chat-runtime/src/store.
pub mod Types
pub mod Encoding
pub mod Base64
pub mod Repo
mod Tests
