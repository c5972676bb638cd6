-- ===== src/Broker.antt =====
-- The signaling broker: packages/chat-runtime/src/broker and apps/web/src/server/broker.ts.
pub mod Errors
pub mod Room
pub mod Message
pub mod Registry
pub mod Connection
pub mod Server
mod Tests
