-- ===== src/History.antt =====
-- internal/history: the messages of a run in Redis.
pub mod Redis
pub mod Store
pub mod Messages
pub mod Changes
pub mod Keeps
pub mod Writes
pub mod Refines
pub mod Spec
mod Tests
