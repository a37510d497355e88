-- ===== src/Server.antt =====
-- What all sessions of the server share (`include/server.h`).
pub mod Cache
pub mod Sessions
pub mod Push
mod Tests
