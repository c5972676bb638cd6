-- ===== src/Runtime.antt =====
-- What the controller keeps for the user interface: packages/chat-runtime/src/runtime.
pub mod TransferState
mod Tests
