-- ===== src/Agent/Trace/Child.antt =====
-- A subagent: its own walk, and that it leaves its parent's where it is.
use ai_agent_cloud_runtime.Prelude.{ℕ, ◌≡◌, refl, false, Option, none, some, Result, ok, err, arith}
use ai_agent_cloud_runtime.Prelude.Text.{Text, text_eq}
use ai_agent_cloud_runtime.Queue.Event.{Task, ToolResultEvent}
use ai_agent_cloud_runtime.Orchestrator.Supervisor.{
  Supervised, SubagentRequest, SubagentResult, ChildRunRequest, Limits, launch, dispatch,
}
use ai_agent_cloud_runtime.Agent.State.{pending, running, done, can_transit}
use ai_agent_cloud_runtime.Agent.Types.{Deps, Settings, ToolCall, ToolRunner}
use ai_agent_cloud_runtime.Agent.Runner.Subagent.{
  run_child, child_run_task, dispatch_request, dispatch_subagent,
}
use ai_agent_cloud_runtime.Agent.Runner.Tools.{execute_with, execute_tool_call, tool_runner_for}
use ai_agent_cloud_runtime.Agent.Trace.{follow}
use ai_agent_cloud_runtime.Agent.Trace.Rules.{
  Quiet, Quiet-pure, Quiet-raise, Quiet-call, Quiet-result, Quiet-if, Quiet-try, Quiet-bind,
  Quiet-call_bind, Walks, Walks-pure, Walks-bind,
}
use ai_agent_cloud_runtime.Agent.Trace.Quiet.{
  Quiet-stream_once, Quiet-append, Quiet-publish_other, Quiet-publish_state_other,
  Quiet-or_fail_other,
}
use ai_agent_cloud_runtime.Agent.Trace.Walk.{Goes-publish_state, Goes-done_event, Goes-or_fail}

module _ {W : Type 0} (d : Deps W) where
  -- `RunChild`: the state events of the child run are a legal walk from PENDING, which ends in DONE
  -- where it returns a result, and in FAILED where it returns an error.
  pub run_child-Walks :
      (req : ChildRunRequest)
      → Walks (Supervised W) SubagentResult req.child_run_id pending done (run_child d req)
  unfolding run_child can_transit
  run_child-Walks req =
      let t = child_run_task req in
      let rid = req.child_run_id in
      Walks-bind rid _ pending running done _ (Goes-publish_state d t pending running refl) λ _.
        Walks-bind rid _ running running done _
          (Goes-or_fail d t running _ _ refl (Quiet-append d t rid _ _ _ _ _))
          λ _.
            Walks-bind rid _ running running done _
              (Goes-or_fail d t running _ _ refl (Quiet-stream_once d t rid _ _ _))
              λ out.
                Walks-bind rid _ running running done _
                  (Goes-or_fail d t running _ _ refl (Quiet-append d t rid _ _ _ _ _))
                  λ _.
                    Walks-bind rid _ running done done _ (Goes-publish_state d t running done refl)
                      λ _.
                        Walks-bind rid _ done done done _ (Goes-done_event d t done out.token_cnt)
                          λ _. Walks-pure rid done _

  Quiet-run_child :
      (rid : Text) (req : ChildRunRequest)
      → text_eq req.child_run_id rid ≡ false
      → Quiet (Supervised W) SubagentResult rid (run_child d req)
  unfolding run_child
  Quiet-run_child rid req other =
      let t = child_run_task req in
      Quiet-bind rid _ _ (Quiet-publish_state_other d t rid other _ _) λ _.
        Quiet-bind rid _ _
          (Quiet-or_fail_other d t rid other _ _ _ (Quiet-append d t rid _ _ _ _ _))
          λ _.
            Quiet-bind rid _ _
              (Quiet-or_fail_other d t rid other _ _ _ (Quiet-stream_once d t rid _ _ _))
              λ out.
                Quiet-bind rid _ _
                  (Quiet-or_fail_other d t rid other _ _ _ (Quiet-append d t rid _ _ _ _ _))
                  λ _. Quiet-bind rid _ _ (Quiet-publish_state_other d t rid other _ _) λ _.
                    Quiet-bind rid _ _ (Quiet-publish_other d t rid other _) λ _. Quiet-pure rid _

-- The ids that `obs.NewRunID` gives to children differ from the id of the run `rid`.
abbrev pub IsFresh : {W : Type 0} → Deps W → Text → Type 0
IsFresh {W} d rid = (w : W) → text_eq (d.new_run_id w).0 rid ≡ false

module _ {W : Type 0} (d : Deps W) (rid : Text) (fresh : IsFresh d rid) where
  Quiet-launch :
      (parent trace user model : Text) (depth : ℕ) (req : SubagentRequest)
      → Quiet
          (Supervised W)
          (SubagentResult × Option Text)
          rid
          (launch d.new_run_id (run_child d) parent trace user model depth req)
  unfolding launch
  Quiet-launch parent trace user model depth req = Quiet-bind rid _ _ (Quiet-call rid _) λ _.
      Quiet-call_bind rid _ _ λ s.
        Quiet-bind rid _ _ (Quiet-try rid _ (Quiet-run_child d rid _ (fresh s.world)))
          λ _. Quiet-pure rid _

  Quiet-dispatch :
      (limits : Limits) (parent trace user model : Text) (depth : ℕ) (req : SubagentRequest)
      → Quiet
          (Supervised W)
          (SubagentResult × Option Text)
          rid
          (dispatch d.new_run_id (some (run_child d)) limits parent trace user model depth req)
  unfolding dispatch follow
  Quiet-dispatch limits parent trace user model depth req = record {
    at = λ s w. ground (arith, (Quiet-launch parent trace user model depth req).at s w);
  }

  Quiet-dispatch_request :
      (c : Settings) (t : Task) (call_id : Text) (r : Result Text SubagentRequest)
      → Quiet (Supervised W) ToolResultEvent rid (dispatch_request d c t call_id r)
  unfolding dispatch_request
  Quiet-dispatch_request c t call_id (err e) = Quiet-pure rid _
  Quiet-dispatch_request c t call_id (ok req) =
      Quiet-bind rid _ _ (Quiet-dispatch c.limits _ _ _ _ _ req) λ _. Quiet-pure rid _

  Quiet-execute_with :
      (c : Settings) (t : Task) (r : Option (ToolRunner W)) (call_id : Text) (tc : ToolCall)
      → Quiet (Supervised W) ToolResultEvent rid (execute_with d c t r call_id tc)
  unfolding execute_with
  Quiet-execute_with c t none call_id tc = Quiet-raise rid _
  Quiet-execute_with c t (some r) call_id tc =
      Quiet-bind rid _ _ (Quiet-call rid _) (λ a. Quiet-result rid a)

  pub Quiet-execute_tool_call :
      (c : Settings) (t : Task) (call_id : Text) (tc : ToolCall)
      → Quiet (Supervised W) ToolResultEvent rid (execute_tool_call d c t call_id tc)
  unfolding execute_tool_call dispatch_subagent
  Quiet-execute_tool_call c t call_id tc =
      Quiet-if rid _ _ _ (Quiet-dispatch_request c t call_id _)
        (Quiet-execute_with c t (tool_runner_for d c t) call_id tc)
