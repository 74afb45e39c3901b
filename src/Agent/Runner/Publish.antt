-- ===== src/Agent/Runner/Publish.antt =====
-- internal/agent/runner.go: `publishState`, `fail` and `publishToolEvent`.
use ai_agent_cloud_runtime.Prelude.{ℕ, Bool, Option, some, Result, ok, err, if◌then◌else◌}
use ai_agent_cloud_runtime.Prelude.Text.{Text, codes}
use ai_agent_cloud_runtime.Prelude.Act.{Act, pure, raise, try, emit, ◌>>=◌, ◌>>◌}
use ai_agent_cloud_runtime.Queue.Event.{Task, Event, Kind, state_event, error_event, tool_event}
use ai_agent_cloud_runtime.Agent.State.{State, failed, can_transit}
use ai_agent_cloud_runtime.Agent.Types.{Deps}
use ai_agent_cloud_runtime.Orchestrator.Supervisor.{Supervised, on_world}

-- An action of the runner: its own state is the count of subagents per run.
abbrev pub Env : Type 0 → Type 0 → Type 0
Env W A = Act (Event State) (Supervised W) A

module _ {W : Type 0} (d : Deps W) (t : Task) where
  -- `r.Events.Publish(ctx, t.RunID, ...)`: the error is returned.
  unfoldable pub publish : Kind State → Env W (Option Text)
  publish k =
      let ev : Event State = record { run_id = t.run_id; trace_id = t.trace_id; kind = k } in
      emit ev >> on_world (d.publish ev)

  -- The text of the second error is only ever logged.
  unfoldable pub publish_state : (from to : State) → Env W (Option Text)
  publish_state from to =
      if can_transit from to
      then publish (state_event from to)
      else pure (some (codes "invalid transition"))

  unfoldable pub fail : {A : Type 0} → (from : State) (code message : Text) → Env W A
  fail from code message = do
    publish_state from failed
    publish (error_event code message)
    raise message

  unfoldable pub fail_on : {A : Type 0} → (from : State) (code : Text) → Result Text A → Env W A
  fail_on from code (ok a) = pure a
  fail_on from code (err e) = fail from code e

  -- `if err != nil { r.fail(ctx, t, cur, code, err); return err }`
  unfoldable pub or_fail : {A : Type 0} → (from : State) (code : Text) → Env W A → Env W A
  or_fail from code m = try m >>= fail_on from code

  -- `publishToolEvent`
  unfoldable pub tool_update :
      (call_id tool_name phase result message : Text) (is_error : Bool) (elapsed_ms : ℕ)
      → Env W (Option Text)
  tool_update call_id tool_name phase result message is_error elapsed_ms =
      publish (tool_event call_id tool_name phase result message is_error elapsed_ms)
