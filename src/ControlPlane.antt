-- ===== src/ControlPlane.antt =====
-- internal/controlplane: the management of durable agents and of their runs.
pub mod Types
pub mod Docker
pub mod Service
pub mod Finish
pub mod Runs
pub mod Silent
pub mod Deletes
pub mod Workspace
pub mod Health
mod Tests
