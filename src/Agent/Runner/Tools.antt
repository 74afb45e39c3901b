-- ===== src/Agent/Runner/Tools.antt =====
-- internal/agent/runner.go: `executeToolCall`, and what the loop of `Run` does for the tool calls
-- of one answer of the model.
use ai_agent_cloud_runtime.Prelude.{
  Bool, true, false, Option, none, some, List, [], ◌∷◌, ◌++◌, Result, ok, err, length, take, leb,
  ◌&&◌, if◌then◌else◌,
}
use ai_agent_cloud_runtime.Prelude.Int.{clamp_zero}
use ai_agent_cloud_runtime.Prelude.Text.{Text, codes, is_empty, text_eq}
use ai_agent_cloud_runtime.Prelude.Act.{pure, raise, try, ◌>>=◌, ◌>>◌}
use ai_agent_cloud_runtime.Queue.Event.{Task, ToolResultEvent}
use ai_agent_cloud_runtime.Orchestrator.Supervisor.{on_world}
use ai_agent_cloud_runtime.Agent.State.{waiting_tool}
use ai_agent_cloud_runtime.Agent.Types.{
  Deps, Settings, ToolCall, ToolRunner, Message, history_message,
}
use ai_agent_cloud_runtime.Agent.Runner.Publish.{Env, fail, tool_update}
use ai_agent_cloud_runtime.Agent.Runner.Subagent.{lift, dispatch_subagent}

abbrev pub dispatch_name : Text
dispatch_name = codes "dispatch_subagent"

-- `hasOnlyDispatchSubagent`
unfoldable pub all_dispatch : List ToolCall → Bool
all_dispatch [] = true
all_dispatch (tc ∷ tcs) = text_eq tc.name dispatch_name && all_dispatch tcs

unfoldable pub has_only_dispatch : List ToolCall → Bool
unfolding all_dispatch
has_only_dispatch [] = false
has_only_dispatch (tc ∷ tcs) = all_dispatch (tc ∷ tcs)

-- `timelineText`: at most 4 KiB of a result, and a note where it was cut.
unfoldable pub timeline_text : Text → Text
timeline_text value =
    if leb (length value) 4096
    then value
    else take 4096 value ++ (10 ∷ 0xe2 ∷ 0x80 ∷ 0xa6 ∷ codes " output truncated for the timeline")

-- the tags of the history message of a tool result
abbrev optional_tag : Text → Text → List (Text × Text)
optional_tag key value = if is_empty value then [] else (key, value) ∷ []

abbrev pub tool_tags : Text → ToolCall → ToolResultEvent → List (Text × Text)
tool_tags call_id tc ev =
    (codes "tool_call_id", call_id)
      ∷ (codes "tool_name", tc.name)
      ∷ (codes "is_error", if ev.is_error then codes "true" else codes "false")
      ∷ optional_tag (codes "error_code") ev.error_code
    ++ optional_tag (codes "metadata") ev.meta_json

abbrev pub tool_message : Text → ToolCall → ToolResultEvent → Message
tool_message call_id tc ev = record {
  role = codes "tool";
  content = ev.content;
  name = tc.name;
  tool_call_id = call_id;
  tool_calls = [];
}

abbrev pub tool_error : ToolResultEvent → Text
tool_error ev = if is_empty ev.error_message && ev.is_error then ev.content else ev.error_message

module _ {W : Type 0} (d : Deps W) (c : Settings) (t : Task) where
  -- `toolRunnerFor`
  unfoldable pub tool_runner_for : Option (ToolRunner W)
  tool_runner_for =
      if is_empty t.agent_id
      then d.tool_runner
      else elim d.agent_tool_runner [ some r ↦ some r | none ↦ d.tool_runner ]

  -- `activeToolRunner == nil || activeToolRunner.Registry == nil`, negated
  unfoldable pub has_registry : Option (ToolRunner W) → Bool
  has_registry none = false
  has_registry (some r) = elim r.registry [ none ↦ false | some tools ↦ true ]

  -- The persistent workspace of an agent that has its own runner, or one for this call.
  abbrev workspace : Text → Text
  workspace call_id =
      if is_empty t.agent_id
      then call_id
      else elim d.agent_tool_runner [ some r ↦ t.agent_id | none ↦ call_id ]

  unfoldable pub execute_with : Option (ToolRunner W) → Text → ToolCall → Env W ToolResultEvent
  execute_with none call_id tc = raise (codes "tool runtime is disabled")
  execute_with (some r) call_id tc =
      on_world (r.execute (workspace call_id) call_id t.trace_id tc.name tc.arguments) >>= lift

  unfoldable pub execute_tool_call : Text → ToolCall → Env W ToolResultEvent
  execute_tool_call call_id tc =
      if text_eq tc.name dispatch_name && c.multi_agent_enabled
      then dispatch_subagent d c t call_id tc
      else execute_with tool_runner_for call_id tc

  unfoldable pub tool_done :
      (assistant_id call_id : Text) → ToolCall → Result Text ToolResultEvent → Env W Message
  tool_done assistant_id call_id tc (err e) = do
    elapsed ← on_world d.elapsed_ms
    tool_update d t call_id tc.name (codes "failed") [] e true elapsed
    fail d t waiting_tool (codes "tool_execute") e
  tool_done assistant_id call_id tc (ok ev) = do
    tool_update d t call_id tc.name (if ev.is_error then codes "failed" else codes "completed")
        (timeline_text ev.content) (timeline_text (tool_error ev)) ev.is_error
        (clamp_zero ev.elapsed_ms)
    on_world (
        d.append t.run_id
          (history_message (codes "tool") ev.content assistant_id (tool_tags call_id tc ev)))
    pure (tool_message call_id tc ev)

  unfoldable pub run_tool : Text → ToolCall → Env W Message
  run_tool assistant_id tc = do
    call_id ← if is_empty tc.id then on_world d.new_run_id else pure tc.id
    tool_update d t call_id tc.name (codes "started") [] [] false 0
    answer ← try (execute_tool_call call_id tc)
    tool_done assistant_id call_id tc answer

  -- The loop over the tool calls of one answer: the messages of their results.
  unfoldable pub run_tools : Text → List ToolCall → Env W (List Message)
  run_tools assistant_id [] = pure []
  run_tools assistant_id (tc ∷ tcs) = do
    m ← run_tool assistant_id tc
    ms ← run_tools assistant_id tcs
    pure (m ∷ ms)
