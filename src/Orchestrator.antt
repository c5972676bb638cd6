-- ===== src/Orchestrator.antt =====
-- What starts a conversation: packages/chat-runtime/src/orchestrator.
pub mod Invitation
mod Tests
