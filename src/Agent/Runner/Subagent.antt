-- ===== src/Agent/Runner/Subagent.antt =====
-- internal/agent/runner.go: `RunChild` and `dispatchSubagent`.
use ai_agent_cloud_runtime.Prelude.{
  Bool, true, false, Option, none, some, List, [], ◌∷◌, ◌++◌, Result, ok, err, if◌then◌else◌,
}
use ai_agent_cloud_runtime.Prelude.Int.{pos}
use ai_agent_cloud_runtime.Prelude.Text.{Text, codes, is_empty, trim_space}
use ai_agent_cloud_runtime.Prelude.Act.{pure, ◌>>=◌, ◌>>◌}
use ai_agent_cloud_runtime.Queue.Event.{Task, ToolResultEvent, done_event}
use ai_agent_cloud_runtime.Orchestrator.Supervisor.{
  SubagentRequest, SubagentResult, ChildRunRequest, on_world, dispatch, refused,
}
use ai_agent_cloud_runtime.Agent.State.{pending, running, done}
use ai_agent_cloud_runtime.Agent.Types.{
  Deps, Settings, ToolCall, Message, llm_message, history_message,
}
use ai_agent_cloud_runtime.Agent.Runner.Publish.{Env, publish, publish_state, or_fail}
use ai_agent_cloud_runtime.Agent.Runner.Stream.{stream_once}

abbrev child_system_prompt : Text
child_system_prompt =
    codes
      "You are an AgentForge subagent. Complete the delegated task and answer with a concise structured summary."

abbrev pub child_prompt : ChildRunRequest → Text
child_prompt req =
    if is_empty req.role
    then trim_space req.task
    else codes "You are a subagent with role: "
      ++ (req.role ++ (codes ".\n\nTask:\n" ++ trim_space req.task))

abbrev pub child_messages : ChildRunRequest → List Message
child_messages req =
    llm_message (codes "system") child_system_prompt
    ∷ llm_message (codes "user") (child_prompt req)
    ∷ []

abbrev pub child_tags : ChildRunRequest → List (Text × Text)
child_tags req = (codes "parent_run_id", req.parent_run_id) ∷ (codes "subagent_role", req.role) ∷ []

abbrev pub child_run_task : ChildRunRequest → Task
child_run_task req = record {
  run_id = req.child_run_id;
  user_id = req.user_id;
  agent_id = [];
  prompt = [];
  model = req.model;
  system_prompt = [];
  trace_id = req.trace_id;
  attempt = 0;
}

-- The error of an appended message as an error of the action.
abbrev pub lift : {W A : Type 0} → Result Text A → Env W A
lift r w = (r, [], w)

module _ {W : Type 0} (d : Deps W) where
  unfoldable pub append : Text → (role content parent : Text) → List (Text × Text) → Env W Text
  append run_id role content parent tags =
      on_world (d.append run_id (history_message role content parent tags)) >>= lift

  unfoldable pub run_child : ChildRunRequest → Env W SubagentResult
  run_child req = do
    let t = child_run_task req
    publish_state d t pending running
    or_fail d t running (codes "child_history_user")
        (append t.run_id (codes "user") (child_prompt req) [] (child_tags req))
    out ← or_fail d t running (codes "child_llm_chunk") (stream_once d t (child_messages req) [] 0)
    or_fail d t running (codes "child_history_assistant")
        (append t.run_id (codes "assistant") out.text [] (child_tags req))
    publish_state d t running done
    publish d t (done_event out.token_cnt)
    pure (record {
      child_run_id = req.child_run_id;
      role = req.role;
      summary = trim_space out.text;
      status = codes "ok";
      error = [];
    })

  -- the result of a tool call that `dispatchSubagent` builds itself
  abbrev pub subagent_event :
      (call_id trace_id content meta_json : Text) (is_error : Bool) (error_code : Text)
      → ToolResultEvent
  subagent_event call_id trace_id content meta_json is_error error_code = record {
    call_id = call_id;
    trace_id = trace_id;
    container_id = [];
    exit_code = pos 0;
    content = content;
    is_error = is_error;
    meta_json = meta_json;
    elapsed_ms = pos 0;
    error_code = error_code;
    error_message = [];
  }

  unfoldable pub dispatched : Task → Text → SubagentResult × Option Text → ToolResultEvent
  dispatched t call_id (res, none) =
      subagent_event call_id t.trace_id (d.marshal_result res)
        (d.subagent_meta res.child_run_id res.role) false []
  dispatched t call_id (res, some e) =
      subagent_event call_id t.trace_id (d.marshal_result res)
        (d.subagent_meta res.child_run_id res.role) true (codes "subagent_error")

  unfoldable pub dispatch_request :
      Settings → Task → Text → Result Text SubagentRequest → Env W ToolResultEvent
  dispatch_request c t call_id (err e) = pure (
      subagent_event call_id t.trace_id (d.marshal_result (refused [] e)) [] true
        (codes "bad_subagent_args"))
  dispatch_request c t call_id (ok req) =
      dispatch d.new_run_id (some run_child) c.limits t.run_id t.trace_id t.user_id t.model c.depth
        req
      >>= λ answer. pure (dispatched t call_id answer)

  unfoldable pub dispatch_subagent : Settings → Task → Text → ToolCall → Env W ToolResultEvent
  dispatch_subagent c t call_id tc = dispatch_request c t call_id (d.unmarshal_request tc.arguments)
