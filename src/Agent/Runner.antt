-- ===== src/Agent/Runner.antt =====
-- internal/agent/runner.go: `Runner.Run`. An action returns what the function returns and emits the
-- events that it hands to `Events.Publish`, whether or not that succeeds. Metrics, spans and logs
-- are left out, and so are contexts: a call that is cut off returns an error.
pub mod Publish
pub mod Stream
pub mod Subagent
pub mod Tools
pub mod Context
pub mod Loop
