-- ===== src/Acp.antt =====
-- The Agent Control Protocol: frames and their codec (pkg/acp), the server's event cache and
-- session (internal/acp).
pub mod Frame
pub mod Codec
pub mod EventCache
pub mod Message
pub mod Session
mod Tests
