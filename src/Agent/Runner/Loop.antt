-- ===== src/Agent/Runner/Loop.antt =====
-- internal/agent/runner.go: the loop of `Run` over the answers of the model, and `Run` itself.
use ai_agent_cloud_runtime.Prelude.{
  ℕ, zero, suc, ◌+◌, Bool, true, false, Option, none, some, List, [], ◌∷◌, ◌++◌, Result, ok, err,
  ◌&&◌, ◌||◌, if◌then◌else◌,
}
use ai_agent_cloud_runtime.Prelude.Int.{default_pos}
use ai_agent_cloud_runtime.Prelude.Text.{Text, codes, is_empty, decimal}
use ai_agent_cloud_runtime.Prelude.Act.{pure, raise, ◌>>=◌, ◌>>◌}
use ai_agent_cloud_runtime.Queue.Event.{Task, done_event}
use ai_agent_cloud_runtime.Orchestrator.Supervisor.{on_world}
use ai_agent_cloud_runtime.Agent.State.{pending, running, waiting_tool, done}
use ai_agent_cloud_runtime.Agent.Types.{
  Deps, Settings, ToolCall, ToolRunner, ToolDefinition, Message, HookRequest, HookResponse,
  post_llm, history_message,
}
use ai_agent_cloud_runtime.Agent.Runner.Publish.{Env, publish, publish_state, fail, or_fail}
use ai_agent_cloud_runtime.Agent.Runner.Stream.{Streamed, stream_once}
use ai_agent_cloud_runtime.Agent.Runner.Tools.{
  dispatch_name, has_only_dispatch, tool_runner_for, has_registry, run_tools,
}
use ai_agent_cloud_runtime.Agent.Runner.Context.{load_history, build_context}

abbrev pub assistant_message : Streamed → Message
assistant_message out = record {
  role = codes "assistant";
  content = out.text;
  name = [];
  tool_call_id = [];
  tool_calls = out.tool_calls;
}

abbrev pub no_calls : List ToolCall → Bool
no_calls [] = true
no_calls (tc ∷ tcs) = false

-- The id of an appended message; an error is only logged.
abbrev pub id_or_empty : Result Text Text → Text
id_or_empty (ok id) = id
id_or_empty (err e) = []

module _ {W : Type 0} (d : Deps W) (c : Settings) (t : Task) where
  abbrev tool_calls_tag : List ToolCall → List (Text × Text)
  tool_calls_tag calls =
      if no_calls calls then [] else (codes "tool_calls", d.marshal_tool_calls calls) ∷ []

  -- An empty answer is not appended.
  unfoldable pub append_assistant : Streamed → Env W Text
  append_assistant out =
      if is_empty out.text && no_calls out.tool_calls
      then pure []
      else on_world (λ w.
        let (r, w') =
          d.append t.run_id
            (history_message (codes "assistant") out.text [] (tool_calls_tag out.tool_calls)) w in
        (id_or_empty r, w'))

  -- `executePostLLMHook`: the answer of the hook is not used.
  unfoldable pub post_llm_hook :
      Option (HookRequest → W → Result Text HookResponse × W) → Streamed → Env W (Unit {0})
  post_llm_hook none out = pure tt
  post_llm_hook (some execute) out =
      on_world (
        execute (record {
          event = post_llm;
          run_id = t.run_id;
          trace_id = t.trace_id;
          payload_json = d.post_llm_payload out.text out.tool_calls;
        }))
      >> pure tt

  -- `llmTools`
  abbrev dispatch_tool : ToolDefinition
  dispatch_tool = record {
    name = dispatch_name;
    description =
        codes
          "Dispatch a local isolated subagent to complete a focused task and return a structured summary.";
    parameters =
        codes
          "{\"type\":\"object\",\"properties\":{\"role\":{\"type\":\"string\",\"description\":\"Subagent role, such as reviewer, researcher, planner\"},\"task\":{\"type\":\"string\",\"description\":\"Focused task for the child agent\"},\"output_schema\":{\"type\":\"string\",\"description\":\"Optional JSON schema the child should follow\"}},\"required\":[\"role\",\"task\"],\"additionalProperties\":false}";
  }

  abbrev registry_tools : Option (ToolRunner W) → List ToolDefinition
  registry_tools none = []
  registry_tools (some r) = elim r.registry [ none ↦ [] | some tools ↦ tools ]

  unfoldable pub llm_tools : List ToolDefinition
  unfolding tool_runner_for
  llm_tools =
      registry_tools (tool_runner_for d c t)
      ++ (if c.multi_agent_enabled then dispatch_tool ∷ [] else [])

  abbrev can_run : List ToolCall → Bool
  can_run calls =
      has_registry d c t (tool_runner_for d c t)
      || (c.multi_agent_enabled && has_only_dispatch calls)

  -- One answer of the model. `next` goes on where the answer asks for tools that can be run.
  unfoldable pub turn :
      List Message → (idx token_cnt : ℕ) → ((assistant_id : Text) → Streamed → Env W ℕ) → Env W ℕ
  turn msgs idx token_cnt next = do
    out ← or_fail d t running (codes "llm_chunk") (stream_once d t msgs (llm_tools) idx)
    assistant_id ← append_assistant out
    post_llm_hook d.hook out
    if no_calls out.tool_calls
        then pure (token_cnt + out.token_cnt)
        else if can_run out.tool_calls
        then next assistant_id out
        else fail d t running (codes "tool_unavailable")
            (codes "model requested tool calls but tool runtime is disabled")

  -- The tools of one answer, and the messages that the next call of the model gets.
  unfoldable pub tool_round : List Message → Text → Streamed → Env W (List Message)
  tool_round msgs assistant_id out = do
    publish_state d t running waiting_tool
    results ← run_tools d c t assistant_id out.tool_calls
    publish_state d t waiting_tool running
    pure (msgs ++ (assistant_message out ∷ results))

  abbrev loop_limit_message : Text
  loop_limit_message =
      codes "tool call loop exceeded max steps ("
      ++ (decimal (default_pos c.tool_max_steps 5) ++ codes ")")

  -- The loop, with `left` rounds of tools still allowed: `maxToolSteps - toolRounds`.
  unfoldable pub loop : ℕ → List Message → (idx token_cnt : ℕ) → Env W ℕ
  loop zero msgs idx token_cnt =
      turn msgs idx token_cnt
        λ assistant_id out. fail d t running (codes "tool_loop_limit") loop_limit_message
  loop (suc left) msgs idx token_cnt = turn msgs idx token_cnt λ assistant_id out.
      tool_round msgs assistant_id out >>= λ msgs'.
      loop left msgs' out.idx (token_cnt + out.token_cnt)

  -- `Run` from the first state on: what it returns is the total of the tokens.
  unfoldable pub run_started : Env W ℕ
  run_started = do
    publish_state d t pending running
    prior ← load_history d c t
    msgs ← build_context d c t prior
    total ← loop (default_pos c.tool_max_steps 5) msgs 0 0
    publish_state d t running done
    publish d t (done_event total)
    pure total

  -- `Run`
  unfoldable pub run : Env W ℕ
  run = if is_empty t.run_id then raise (codes "empty run id") else run_started
