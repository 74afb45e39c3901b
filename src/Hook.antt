-- ===== src/Hook.antt =====
-- internal/hook: the engine that runs the hooks of an event.
pub mod Manifest
pub mod Engine
pub mod Merge
pub mod Deny
mod Tests
