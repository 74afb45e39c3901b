-- ===== src/Agent/Trace/Run.antt =====
-- The walk of a whole run.
use ai_agent_cloud_runtime.Prelude.{
  ℕ, zero, suc, ◌+◌, ◌≡◌, refl, true, false, Option, none, some, List, [], ◌∷◌, Result, ok, err,
}
use ai_agent_cloud_runtime.Prelude.Text.{Text, is_empty}
use ai_agent_cloud_runtime.Queue.Event.{Task, ToolResultEvent}
use ai_agent_cloud_runtime.Orchestrator.Supervisor.{Supervised}
use ai_agent_cloud_runtime.Agent.State.{pending, running, waiting_tool, done, can_transit}
use ai_agent_cloud_runtime.Agent.Types.{
  Deps, Settings, ToolCall, Message, HistoryMessage, HookRequest, HookResponse,
}
use ai_agent_cloud_runtime.Agent.Runner.Publish.{Env}
use ai_agent_cloud_runtime.Agent.Runner.Subagent.{lift}
use ai_agent_cloud_runtime.Agent.Runner.Stream.{Streamed}
use ai_agent_cloud_runtime.Agent.Runner.Tools.{tool_done, run_tool, run_tools}
use ai_agent_cloud_runtime.Agent.Runner.Context.{
  render, load_history, hooked, pre_llm_hook, retrieve, build_context,
}
use ai_agent_cloud_runtime.Agent.Runner.Loop.{
  append_assistant, post_llm_hook, turn, tool_round, loop, run_started, run,
}
use ai_agent_cloud_runtime.Agent.Trace.{follow, Lands}
use ai_agent_cloud_runtime.Agent.Trace.Compaction.{CompactionWorks, Goes-compaction}
use ai_agent_cloud_runtime.Agent.Trace.Rules.{
  Quiet, Quiet-call, Quiet-result, Quiet-bind, Walks-pure, Walks-call, Walks-if, Walks-try,
  Walks-bind,
}
use ai_agent_cloud_runtime.Agent.Trace.Quiet.{Quiet-stream_once, Quiet-append}
use ai_agent_cloud_runtime.Agent.Trace.Walk.{
  Goes, Goes-publish_state, Goes-done_event, Goes-tool_update, Goes-fail, Goes-or_fail,
}
use ai_agent_cloud_runtime.Agent.Trace.Child.{IsFresh, Quiet-execute_tool_call}

module _ {W : Type 0} (d : Deps W) (c : Settings) (t : Task) (fresh : IsFresh d t.run_id) where
  abbrev rid : Text
  rid = t.run_id

  Goes-tool_done :
      (assistant_id call_id : Text) (tc : ToolCall) (r : Result Text ToolResultEvent)
      → Goes d t waiting_tool waiting_tool (tool_done d c t assistant_id call_id tc r)
  unfolding tool_done can_transit
  Goes-tool_done assistant_id call_id tc (err e) =
      Walks-bind rid _ _ waiting_tool _ _ (Walks-call rid _ _) λ elapsed.
        Walks-bind rid _ _ waiting_tool _ _ (Goes-tool_update d t _ _ _ _ _ _ _ _)
          λ _. Goes-fail d t waiting_tool _ _ _ refl
  Goes-tool_done assistant_id call_id tc (ok ev) =
      Walks-bind rid _ _ waiting_tool _ _ (Goes-tool_update d t _ _ _ _ _ _ _ _)
        λ _. Walks-bind rid _ _ waiting_tool _ _ (Walks-call rid _ _) λ _. Walks-pure rid _ _

  Goes-run_tool :
      (assistant_id : Text) (tc : ToolCall)
      → Goes d t waiting_tool waiting_tool (run_tool d c t assistant_id tc)
  unfolding run_tool
  Goes-run_tool assistant_id tc =
      Walks-bind rid _ _ waiting_tool _ _
        (Walks-if rid _ _ _ _ _ (Walks-call rid _ _) (Walks-pure rid _ _))
        λ call_id. Walks-bind rid _ _ waiting_tool _ _ (Goes-tool_update d t _ _ _ _ _ _ _ _) λ _.
          Walks-bind rid _ _ waiting_tool _ _
            (Walks-try rid _ _ (Quiet-execute_tool_call d rid fresh c t call_id tc))
            λ answer. Goes-tool_done assistant_id call_id tc answer

  Goes-run_tools :
      (assistant_id : Text) (tcs : List ToolCall)
      → Goes d t waiting_tool waiting_tool (run_tools d c t assistant_id tcs)
  unfolding run_tools
  Goes-run_tools assistant_id [] = Walks-pure rid waiting_tool []
  Goes-run_tools assistant_id (tc ∷ tcs) =
      Walks-bind rid _ _ waiting_tool _ _ (Goes-run_tool assistant_id tc) λ m.
        Walks-bind rid _ _ waiting_tool _ _ (Goes-run_tools assistant_id tcs)
          λ ms. Walks-pure rid _ _

  Goes-tool_round :
      (msgs : List Message) (assistant_id : Text) (out : Streamed)
      → Goes d t running running (tool_round d c t msgs assistant_id out)
  unfolding tool_round can_transit
  Goes-tool_round msgs assistant_id out =
      Walks-bind rid _ _ waiting_tool _ _ (Goes-publish_state d t running waiting_tool refl) λ _.
        Walks-bind rid _ _ waiting_tool _ _ (Goes-run_tools assistant_id out.tool_calls) λ results.
          Walks-bind rid _ _ running _ _ (Goes-publish_state d t waiting_tool running refl)
            λ _. Walks-pure rid _ _

  Goes-append_assistant : (out : Streamed) → Goes d t running running (append_assistant d c t out)
  unfolding append_assistant
  Goes-append_assistant out = Walks-if rid _ _ _ _ _ (Walks-pure rid _ _) (Walks-call rid _ _)

  Goes-post_llm_hook :
      (h : Option (HookRequest → W → Result Text HookResponse × W)) (out : Streamed)
      → Goes d t running running (post_llm_hook d c t h out)
  unfolding post_llm_hook
  Goes-post_llm_hook none out = Walks-pure rid _ _
  Goes-post_llm_hook (some execute) out =
      Walks-bind rid _ _ running _ _ (Walks-call rid _ _) λ _. Walks-pure rid _ _

  Goes-turn :
      (msgs : List Message) (idx cnt : ℕ) (next : Text → Streamed → Env W ℕ)
      → ((assistant_id : Text) (out : Streamed) → Goes d t running running (next assistant_id out))
      → Goes d t running running (turn d c t msgs idx cnt next)
  unfolding turn can_transit
  Goes-turn msgs idx cnt next goes =
      Walks-bind rid _ _ running _ _
        (Goes-or_fail d t running _ _ refl (Quiet-stream_once d t rid _ _ _))
        λ out. Walks-bind rid _ _ running _ _ (Goes-append_assistant out) λ assistant_id.
          Walks-bind rid _ _ running _ _ (Goes-post_llm_hook d.hook out) λ _.
            Walks-if rid _ _ _ _ _ (Walks-pure rid _ _) (
              Walks-if rid _ _ _ _ _ (goes assistant_id out)
                (Goes-fail d t running running _ _ refl))

  pub Goes-loop :
      (left : ℕ) (msgs : List Message) (idx cnt : ℕ)
      → Goes d t running running (loop d c t left msgs idx cnt)
  unfolding loop can_transit
  Goes-loop zero msgs idx cnt =
      Goes-turn msgs idx cnt _ λ assistant_id out. Goes-fail d t running running _ _ refl
  Goes-loop (suc left) msgs idx cnt = Goes-turn msgs idx cnt _ λ assistant_id out.
      Walks-bind rid _ _ running _ _ (Goes-tool_round msgs assistant_id out)
        λ msgs'. Goes-loop left msgs' out.idx (cnt + out.token_cnt)

  Goes-retrieve :
      (select : Option (Text → W → Result Text Text × W))
      → Goes d t running running (retrieve d c t select)
  Goes-retrieve none = Walks-pure rid _ _
  Goes-retrieve (some select) = Walks-call rid _ _

  Goes-hooked : (r : Result Text HookResponse) → Goes d t running running (hooked d c t r)
  unfolding hooked can_transit
  Goes-hooked (err e) =
      Walks-if rid _ _ _ _ _ (Goes-fail d t running running _ _ refl) (Walks-pure rid _ _)
  Goes-hooked (ok resp) = Walks-pure rid _ _

  Goes-pre_llm_hook :
      (h : Option (HookRequest → W → Result Text HookResponse × W))
      → Goes d t running running (pre_llm_hook d c t h)
  unfolding pre_llm_hook
  Goes-pre_llm_hook none = Walks-pure rid _ _
  Goes-pre_llm_hook (some execute) = Walks-bind rid _ _ running _ _ (Walks-call rid _ _) Goes-hooked

  pub Goes-build_context :
      (prior : List HistoryMessage) → Goes d t running running (build_context d c t prior)
  unfolding build_context
  Goes-build_context prior = Walks-bind rid _ _ running _ _ (Goes-retrieve d.skills) λ skills.
      Walks-bind rid _ _ running _ _ (Goes-retrieve d.rag) λ chunks.
        Walks-bind rid _ _ running _ _ (Goes-pre_llm_hook d.hook) λ added. Walks-pure rid _ _

  Quiet-render : Quiet (Supervised W) (List HistoryMessage) rid (render d c t)
  unfolding render lift
  Quiet-render = Quiet-bind rid _ _ (Quiet-call rid _) (λ r. Quiet-result rid r)

  module _ (works : c.compact_policy.enabled ≡ true → CompactionWorks W d c t) where
    Goes-load_history : Goes d t running running (load_history d c t)
    unfolding load_history can_transit
    Goes-load_history =
        Walks-bind rid _ _ running _ _
          (Goes-or_fail d t running _ _ refl (Quiet-append d t rid _ _ _ _ _))
          λ _.
            Walks-bind rid _ _ running _ _ (Goes-or_fail d t running _ _ refl Quiet-render)
              λ prior. Goes-compaction d c t prior works

    run_started-Walks : Goes d t pending done (run_started d c t)
    unfolding run_started can_transit
    run_started-Walks =
        Walks-bind rid _ pending running done _ (Goes-publish_state d t pending running refl) λ _.
          Walks-bind rid _ running running done _ Goes-load_history λ prior.
            Walks-bind rid _ running running done _ (Goes-build_context prior) λ msgs.
              Walks-bind rid _ running running done _ (Goes-loop _ msgs 0 0) λ total.
                Walks-bind rid _ running done done _ (Goes-publish_state d t running done refl) λ _.
                  Walks-bind rid _ done done done _ (Goes-done_event d t done total)
                    λ _. Walks-pure rid done total

    -- `Run` of a task with a run id, where the ids of its subagents differ from it and, if compaction
    -- is enabled, the history client and the event bus answer: the state events that it publishes
    -- for the run are a legal walk from PENDING, which ends in DONE where it succeeds, and in FAILED
    -- where it returns an error.
    pub run-follow :
        is_empty t.run_id ≡ false
        → (w : Supervised W) → Lands (follow t.run_id pending (run d c t w).1) (run d c t w).0 done
    unfolding run
    run-follow e w = rw e (run_started-Walks.at w)
