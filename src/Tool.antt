-- ===== src/Tool.antt =====
-- internal/tool: the tools that an agent may call, and their execution in a sandbox.
pub mod Registry
pub mod Runner
pub mod Released
pub mod Guarded
pub mod Paths
mod Tests
