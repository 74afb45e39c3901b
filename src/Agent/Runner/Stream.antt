-- ===== src/Agent/Runner/Stream.antt =====
-- internal/agent/runner.go: `streamOnce`. The provider's channel is the list of the events that it
-- delivers before it is closed.
pub mod Tokens
use ai_agent_cloud_runtime.Prelude.{
  ℕ, ◌+◌, Option, none, some, List, [], ◌∷◌, ◌++◌, Result, ok, err, if◌then◌else◌,
}
use ai_agent_cloud_runtime.Prelude.Text.{Text, is_empty}
use ai_agent_cloud_runtime.Prelude.Act.{pure, raise, ◌>>=◌, ◌>>◌}
use ai_agent_cloud_runtime.Queue.Event.{Task, token_event}
use ai_agent_cloud_runtime.Orchestrator.Supervisor.{on_world}
use ai_agent_cloud_runtime.Agent.Types.{Deps, Message, ToolCall, ToolDefinition, TokenEvent}
use ai_agent_cloud_runtime.Agent.Runner.Publish.{Env, publish}

-- The variables of the loop: `buf`, `toolCalls`, `tokenCnt` and `*idx`.
pub record Streamed : Type 0 where
  pub text : Text
  pub tool_calls : List ToolCall
  pub token_cnt : ℕ
  pub idx : ℕ

module _ {W : Type 0} (d : Deps W) (t : Task) where
  unfoldable pub take_token : TokenEvent → Streamed → Env W Streamed
  take_token ev s =
      let s' = record s { tool_calls = s.tool_calls ++ ev.tool_calls } in
      if is_empty ev.token
      then pure s'
      else publish d t (token_event ev.token s.idx)
        >> pure
            (record s' { text = s.text ++ ev.token; token_cnt = s.token_cnt + 1; idx = s.idx + 1 })

  -- The rest of the loop for one event: an error ends it, and so does `Done`.
  unfoldable pub consume_event :
      Option Text → TokenEvent → Streamed → (Streamed → Env W Streamed) → Env W Streamed
  consume_event (some e) ev s rest = raise e
  consume_event none ev s rest = take_token ev s >>= λ s'. if ev.done then pure s' else rest s'

  unfoldable pub consume : List TokenEvent → Streamed → Env W Streamed
  consume [] s = pure s
  consume (ev ∷ evs) s = consume_event ev.err ev s (consume evs)

  unfoldable pub consume_stream : Result Text (List TokenEvent) → Streamed → Env W Streamed
  consume_stream (err e) s = raise e
  consume_stream (ok evs) s = consume evs s

  unfoldable pub stream_once : List Message → List ToolDefinition → (idx : ℕ) → Env W Streamed
  stream_once msgs tools idx = do
    opened ← on_world (d.stream (record { model = t.model; messages = msgs; tools = tools }))
    consume_stream opened (record { text = []; tool_calls = []; token_cnt = 0; idx = idx })
