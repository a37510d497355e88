-- ===== src/Database.antt =====
-- The data access layer (`src/database`, `include/database`): the schema, statements that can fail,
-- and one module for each of its files.
pub mod Schema
pub mod Exec
pub mod Rows
pub mod Samples
mod Tests
pub mod Conversation
pub mod Friend
pub mod Message
pub mod Reaction
pub mod Group
pub mod Auth
pub mod Direct
pub mod Pool
