-- ===== src/Orchestrator/Tests.antt =====
-- Concrete dispatches.
use ai_agent_cloud_runtime.Prelude.{ℕ, suc, refl, ◌⊎◌, some, [], ◌∷◌, arith}
use ai_agent_cloud_runtime.Prelude.Int.{pos, default_pos}
use ai_agent_cloud_runtime.Prelude.Text.{Text, codes}
use ai_agent_cloud_runtime.Prelude.Maps.{lookup, lookup_or}
use ai_agent_cloud_runtime.Prelude.Act.{Act, pure}
use ai_agent_cloud_runtime.Orchestrator.Supervisor.{
  SubagentRequest, SubagentResult, ChildRunRequest, Limits, Supervised, dispatch,
}
use ai_agent_cloud_runtime.Orchestrator.Supervisor.Limited.{
  IsLimited, Refuses, Counts, dispatch-IsLimited,
}

abbrev limits : Limits
limits = record { max_depth = pos 2; max_children = pos 2 }

abbrev request : SubagentRequest
request = record { role = codes "planner"; task = codes "plan"; output_schema = [] }

-- A child that answers at once.
abbrev child : ChildRunRequest → Act (Unit {0}) (Supervised ℕ) SubagentResult
child r =
    pure (record {
      child_run_id = r.child_run_id;
      role = r.role;
      summary = [];
      status = [];
      error = [];
    })

abbrev new_id : ℕ → Text × ℕ
new_id w = (w ∷ [], suc w)

-- The run has one child already.
abbrev before : Supervised ℕ
before = record { children = (codes "run", 1) ∷ []; world = 0 }

abbrev after : Supervised ℕ
after = (dispatch new_id (some child) limits (codes "run") [] [] [] 1 request before).2

before-IsLimited : IsLimited (default_pos limits.max_children 4) before
unfolding lookup_or lookup default_pos
before-IsLimited run = ground arith

dispatch-IsLimited_example :
    IsLimited (default_pos limits.max_children 4) after
    × (Refuses new_id child limits
          (codes "run")
          1
          request
          before
          (dispatch new_id (some child) limits (codes "run") [] [] [] 1 request)
        ⊎ Counts new_id child limits (codes "run") 1 before after)
dispatch-IsLimited_example =
    dispatch-IsLimited new_id child limits (codes "run") [] [] [] 1 request before (λ r s. refl)
      before-IsLimited
