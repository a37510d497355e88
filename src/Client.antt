-- ===== src/Client.antt =====
-- The back end of the client (`src/client/backend` and the headers it includes).
pub mod Samples
pub mod Qt
pub mod Hash
pub mod Network
pub mod MessageCache
pub mod Handler
pub mod Login
mod Tests
