-- ===== src/Group.antt =====
-- The members of a group and the ids of its links: packages/chat-runtime/src/group.
pub mod Errors
pub mod Membership
pub mod PairwiseId
mod Tests
