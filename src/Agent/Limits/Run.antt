-- ===== src/Agent/Limits/Run.antt =====
-- No run dispatches more subagents than its supervisor allows.
use mathlib.Core.Path.{subst}
use ai_agent_cloud_runtime.Prelude.{
  append-nil, sym, ℕ, zero, suc, ◌+◌, ◌<◌, leb, Bool-cases, inl, inr, arith, ◌≤◌, ◌≡◌, refl, Option,
  none, some, List, [], ◌∷◌, Result, ok, err,
}
use ai_agent_cloud_runtime.Prelude.Act.{◌>>=◌}
use ai_agent_cloud_runtime.Prelude.Int.{default_pos}
use ai_agent_cloud_runtime.Prelude.Text.{Text, codes, trim_space, is_empty, text_eq_refl}
use ai_agent_cloud_runtime.Prelude.Maps.{TextMap, lookup_or, insert, lookup_or-insert}
use ai_agent_cloud_runtime.Queue.Event.{Task, ToolResultEvent}
use ai_agent_cloud_runtime.Orchestrator.Supervisor.{
  Supervised, SubagentRequest, SubagentResult, ChildRunRequest, launch, dispatch, child_task,
  or_else,
}
use ai_agent_cloud_runtime.Orchestrator.Supervisor.Limited.{IsLimited}
use ai_agent_cloud_runtime.Agent.Types.{
  Deps, Settings, ToolCall, ToolRunner, Message, HookRequest, HookResponse,
}
use ai_agent_cloud_runtime.Agent.Runner.Publish.{Env, tool_update}
use ai_agent_cloud_runtime.Agent.Runner.Stream.{Streamed}
use ai_agent_cloud_runtime.Agent.Runner.Subagent.{run_child, dispatch_request, dispatch_subagent}
use ai_agent_cloud_runtime.Agent.Runner.Tools.{
  execute_with, execute_tool_call, tool_runner_for, tool_done, run_tool, run_tools,
}
use ai_agent_cloud_runtime.Agent.Runner.Loop.{
  append_assistant, post_llm_hook, turn, tool_round, loop, run_started, run,
}
use ai_agent_cloud_runtime.Agent.Limits.{
  starts_from, starts, Budget, Takes, Takes-bind, Takes-start, Takes-run_child, Keeps, Keeps-pure,
  Keeps-raise, Keeps-result, Keeps-on_world, Keeps-try, Keeps-if, Keeps-bind, Keeps-publish,
  Keeps-publish_state, Keeps-fail, Keeps-or_fail, Keeps-stream_once,
}
use ai_agent_cloud_runtime.Agent.Limits.Context.{Keeps-load_history, Keeps-build_context}

module _ {W : Type 0} (d : Deps W) (c : Settings) (t : Task) (before : ℕ) where
  abbrev limit : ℕ
  limit = default_pos c.limits.max_children 4

  -- No count is above the limit, and that of the run has grown, since it was `before`, with each start
  -- but its own.
  abbrev Q : Budget
  Q k counts =
      ((run : Text) → lookup_or 0 run counts ≤ limit)
      × (k + before ≤ suc (lookup_or 0 t.run_id counts))

  counted : TextMap ℕ → TextMap ℕ
  counted counts = insert t.run_id (suc (lookup_or 0 t.run_id counts)) counts

  counted-Q :
      (k : ℕ) (counts : TextMap ℕ)
      → lookup_or 0 t.run_id counts < limit
      → Q k counts
      → Q (suc k) (counted counts)
  unfolding counted
  counted-Q k counts room (limited, few) =
      let n = suc (lookup_or 0 t.run_id counts) in
      (
        λ run. ground (arith, lookup_or-insert 0 t.run_id run n counts, limited run, room),
        ground (arith, lookup_or-insert 0 t.run_id t.run_id n counts, text_eq_refl t.run_id, few),
      )

  -- What `launch` does after counting.
  Takes-launched :
      (trace user model : Text) (depth : ℕ) (req : SubagentRequest) (k : ℕ) (s : Supervised W)
      → Q (suc k) (counted s.children)
      → let out = launch d.new_run_id (run_child d) t.run_id trace user model depth req s in
        Q (starts_from k out.1) out.2.children
  unfolding launch counted ◌>>=◌
  Takes-launched trace user model depth req k s q =
      let (child, w) = d.new_run_id s.world in
      let started : ChildRunRequest = record {
        parent_run_id = t.run_id;
        child_run_id = child;
        trace_id = trace;
        user_id = user;
        model = model;
        role = or_else (trim_space req.role) (codes "subagent");
        task = child_task req;
        depth = depth + 1;
      } in
      let out = run_child d started (record { children = counted s.children; world = w }) in
      subst (λ es. Q (starts_from k es) out.2.children) (sym (append-nil out.1))
        ((Takes-run_child d Q started).at k (record { children = counted s.children; world = w }) q)

  Keeps-dispatch :
      (trace user model : Text) (depth : ℕ) (req : SubagentRequest)
      → Keeps W
          (SubagentResult × Option Text)
          Q
          (dispatch d.new_run_id (some (run_child d)) c.limits t.run_id trace user model depth req)
  unfolding dispatch
  Keeps-dispatch trace user model depth req = record {
    at = λ k s q. elim (Bool-cases (leb (default_pos c.limits.max_depth 2) depth)) [
      | inl deep ↦ rw deep q
      | inr shallow ↦ elim (Bool-cases (leb limit (lookup_or 0 t.run_id s.children))) [
        | inl many ↦ rw (shallow, many) q
        | inr few ↦
            rw (shallow, few)
              (Takes-launched trace user model depth req k s
                (counted-Q k s.children (ground arith) q))
      ]
    ];
  }

  Keeps-dispatch_request :
      (call_id : Text) (r : Result Text SubagentRequest)
      → Keeps W ToolResultEvent Q (dispatch_request d c t call_id r)
  unfolding dispatch_request
  Keeps-dispatch_request call_id (err e) = Keeps-pure Q _
  Keeps-dispatch_request call_id (ok req) =
      Keeps-bind Q _ _ (Keeps-dispatch _ _ _ _ req) λ _. Keeps-pure Q _

  Keeps-execute_with :
      (r : Option (ToolRunner W)) (call_id : Text) (tc : ToolCall)
      → Keeps W ToolResultEvent Q (execute_with d c t r call_id tc)
  unfolding execute_with
  Keeps-execute_with none call_id tc = Keeps-raise Q _
  Keeps-execute_with (some r) call_id tc =
      Keeps-bind Q _ _ (Keeps-on_world Q _) λ a. Keeps-result Q a

  Keeps-execute_tool_call :
      (call_id : Text) (tc : ToolCall)
      → Keeps W ToolResultEvent Q (execute_tool_call d c t call_id tc)
  unfolding execute_tool_call dispatch_subagent
  Keeps-execute_tool_call call_id tc =
      Keeps-if Q _ _ _ (Keeps-dispatch_request call_id _)
        (Keeps-execute_with (tool_runner_for d c t) call_id tc)

  Keeps-tool_done :
      (assistant_id call_id : Text) (tc : ToolCall) (r : Result Text ToolResultEvent)
      → Keeps W Message Q (tool_done d c t assistant_id call_id tc r)
  unfolding tool_done tool_update
  Keeps-tool_done assistant_id call_id tc (err e) =
      Keeps-bind Q _ _ (Keeps-on_world Q _)
        λ _. Keeps-bind Q _ _ (Keeps-publish d t Q _ refl) λ _. Keeps-fail d t Q _ _ _
  Keeps-tool_done assistant_id call_id tc (ok ev) =
      Keeps-bind Q _ _ (Keeps-publish d t Q _ refl)
        λ _. Keeps-bind Q _ _ (Keeps-on_world Q _) λ _. Keeps-pure Q _

  Keeps-run_tool :
      (assistant_id : Text) (tc : ToolCall) → Keeps W Message Q (run_tool d c t assistant_id tc)
  unfolding run_tool tool_update
  Keeps-run_tool assistant_id tc =
      Keeps-bind Q _ _ (Keeps-if Q _ _ _ (Keeps-on_world Q _) (Keeps-pure Q _)) λ call_id.
        Keeps-bind Q _ _ (Keeps-publish d t Q _ refl) λ _.
          Keeps-bind Q _ _ (Keeps-try Q _ (Keeps-execute_tool_call call_id tc))
            λ answer. Keeps-tool_done assistant_id call_id tc answer

  Keeps-run_tools :
      (assistant_id : Text) (tcs : List ToolCall)
      → Keeps W (List Message) Q (run_tools d c t assistant_id tcs)
  unfolding run_tools
  Keeps-run_tools assistant_id [] = Keeps-pure Q _
  Keeps-run_tools assistant_id (tc ∷ tcs) =
      Keeps-bind Q _ _ (Keeps-run_tool assistant_id tc)
        λ _. Keeps-bind Q _ _ (Keeps-run_tools assistant_id tcs) λ _. Keeps-pure Q _

  Keeps-post_llm_hook :
      (h : Option (HookRequest → W → Result Text HookResponse × W)) (out : Streamed)
      → Keeps W (Unit {0}) Q (post_llm_hook d c t h out)
  unfolding post_llm_hook
  Keeps-post_llm_hook none out = Keeps-pure Q _
  Keeps-post_llm_hook (some execute) out = Keeps-bind Q _ _ (Keeps-on_world Q _) λ _. Keeps-pure Q _

  Keeps-turn :
      (msgs : List Message) (idx cnt : ℕ) (next : Text → Streamed → Env W ℕ)
      → ((assistant_id : Text) (out : Streamed) → Keeps W ℕ Q (next assistant_id out))
      → Keeps W ℕ Q (turn d c t msgs idx cnt next)
  unfolding turn append_assistant
  Keeps-turn msgs idx cnt next k =
      Keeps-bind Q _ _ (Keeps-or_fail d t Q _ _ _ (Keeps-stream_once d t Q _ _ _)) λ out.
        Keeps-bind Q _ _ (Keeps-if Q _ _ _ (Keeps-pure Q _) (Keeps-on_world Q _)) λ assistant_id.
          Keeps-bind Q _ _ (Keeps-post_llm_hook d.hook out) λ _.
            Keeps-if Q _ _ _ (Keeps-pure Q _)
              (Keeps-if Q _ _ _ (k assistant_id out) (Keeps-fail d t Q _ _ _))

  Keeps-tool_round :
      (msgs : List Message) (assistant_id : Text) (out : Streamed)
      → Keeps W (List Message) Q (tool_round d c t msgs assistant_id out)
  unfolding tool_round
  Keeps-tool_round msgs assistant_id out =
      Keeps-bind Q _ _ (Keeps-publish_state d t Q _ _ refl) λ _.
        Keeps-bind Q _ _ (Keeps-run_tools assistant_id out.tool_calls)
          λ _. Keeps-bind Q _ _ (Keeps-publish_state d t Q _ _ refl) λ _. Keeps-pure Q _

  Keeps-loop :
      (left : ℕ) (msgs : List Message) (idx cnt : ℕ) → Keeps W ℕ Q (loop d c t left msgs idx cnt)
  unfolding loop
  Keeps-loop zero msgs idx cnt = Keeps-turn msgs idx cnt _ λ _ _. Keeps-fail d t Q _ _ _
  Keeps-loop (suc left) msgs idx cnt = Keeps-turn msgs idx cnt _ λ assistant_id out.
      Keeps-bind Q _ _ (Keeps-tool_round msgs assistant_id out) λ msgs'. Keeps-loop left msgs' _ _

  Takes-run_started : Takes W ℕ (λ k counts. Q (suc k) counts) Q (run_started d c t)
  unfolding run_started
  Takes-run_started = Takes-bind Q _ _ _ (Takes-start d t Q) λ _.
      Keeps-bind Q _ _ (Keeps-load_history d c t Q) λ prior.
        Keeps-bind Q _ _ (Keeps-build_context d c t Q prior) λ msgs.
          Keeps-bind Q _ _ (Keeps-loop _ msgs 0 0) λ total.
            Keeps-bind Q _ _ (Keeps-publish_state d t Q _ _ refl)
              λ _. Keeps-bind Q _ _ (Keeps-publish d t Q _ refl) λ _. Keeps-pure Q _

  run-Q :
      (s : Supervised W)
      → IsLimited limit s
      → before ≡ lookup_or 0 t.run_id s.children
      → Q (starts (run d c t s).1) (run d c t s).2.children
  unfolding run
  run-Q s limited same = elim (Bool-cases (is_empty t.run_id)) [
    | inl blank ↦ rw blank (limited, omega (arith, same))
    | inr named ↦ rw named (Takes-run_started.at 0 s (limited, omega (arith, same)))
  ]

-- However a run goes, and whatever its model, tools and hooks answer: where no run had dispatched more
-- subagents than the limit before it, none has after it, and of the state events that it has published
-- no more than its own and one for each subagent that the limit had left to it say that a run starts.
pub run-IsLimited :
    {W : Type 0} (d : Deps W) (c : Settings) (t : Task) (s : Supervised W)
    → IsLimited (default_pos c.limits.max_children 4) s
    → let (r, es, s') = run d c t s in
      IsLimited (default_pos c.limits.max_children 4) s'
      × (starts es + lookup_or 0 t.run_id s.children ≤ suc (lookup_or 0 t.run_id s'.children))
      × (starts es + lookup_or 0 t.run_id s.children ≤ suc (default_pos c.limits.max_children 4))
run-IsLimited d c t s limited =
    let (after, few) = run-Q d c t (lookup_or 0 t.run_id s.children) s limited refl in
    (after, few, omega (arith, few, after t.run_id))
