-- ===== src/Session.antt =====
-- One connection of the server (`include/session.h`).
pub mod Outgoing
pub mod Reading
pub mod Handler
pub mod Account
pub mod Friend
pub mod Group
pub mod Conversation
pub mod Members
pub mod Roles
pub mod Leave
pub mod Message
pub mod Reaction
pub mod Avatar
pub mod Dispatch
pub mod Invariants
mod Tests
