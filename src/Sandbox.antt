-- ===== src/Sandbox.antt =====
-- internal/sandbox: how the output of a command is kept.
pub mod CapWriter
pub mod MemoryPool
mod Tests
