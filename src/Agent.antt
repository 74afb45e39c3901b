-- ===== src/Agent.antt =====
-- internal/agent: the states of a run, and the runner that executes one run in a worker.
pub mod State
pub mod Types
pub mod Runner
pub mod Trace
pub mod Limits
mod Tests
