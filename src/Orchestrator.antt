-- ===== src/Orchestrator.antt =====
-- internal/orchestrator: dispatch of subagents and pipelines of them.
pub mod Supervisor
pub mod Pipeline
mod Tests
