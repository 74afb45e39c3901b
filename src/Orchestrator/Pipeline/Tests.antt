-- ===== src/Orchestrator/Pipeline/Tests.antt =====
-- Concrete pipelines.
use ai_agent_cloud_runtime.Prelude.{
  ℕ, suc, ◌+◌, ◌≤◌, ◌≡◌, ◌↔◌, refl, Option, none, some, List, [], ◌∷◌, length, Result, ok, err, ◌⊎◌,
  arith,
}
use ai_agent_cloud_runtime.Prelude.Int.{pos, default_pos, decrement, is_zero}
use ai_agent_cloud_runtime.Prelude.Text.{Text, codes, text_eq, is_empty, trim_space}
use ai_agent_cloud_runtime.Prelude.Maps.{lookup, lookup_or, insert}
use ai_agent_cloud_runtime.Prelude.Counts.{sort_strings}
use ai_agent_cloud_runtime.Prelude.Act.{Act, pure, ◌>>=◌}
use ai_agent_cloud_runtime.Orchestrator.Supervisor.{
  SubagentRequest, SubagentResult, ChildRunRequest, Limits, Supervised, dispatch, launch, settle,
}
use ai_agent_cloud_runtime.Orchestrator.Pipeline.{
  Pipeline, PipelineStep, cycle, topological_order, order_loop, by_id, degrees, link, links, roots,
  release, release_all, ids,
}
use ai_agent_cloud_runtime.Orchestrator.Pipeline.Release.{IsDistinct}
use ai_agent_cloud_runtime.Orchestrator.Pipeline.Order.{IsOrder, topological_order-IsOrder}
use ai_agent_cloud_runtime.Orchestrator.Pipeline.Complete.{topological_order_complete}
use ai_agent_cloud_runtime.Orchestrator.Pipeline.Terminates.{topological_order_returns}
use ai_agent_cloud_runtime.Orchestrator.Pipeline.Parse.{validate_pipeline}
use ai_agent_cloud_runtime.Orchestrator.Pipeline.Parse.Valid.{IsValid, validate_pipeline-IsValid}
use ai_agent_cloud_runtime.Orchestrator.Pipeline.Run.{
  PipelineResult, zero_result, run_steps, run_ordered, conclude, run_pipeline, step_request,
  step_task,
}
use ai_agent_cloud_runtime.Orchestrator.Pipeline.Run.Depends.{run_steps-topological_order}
use ai_agent_cloud_runtime.Orchestrator.Pipeline.Run.Children.{run_pipeline-children}

abbrev step : Text → List Text → PipelineStep
step id deps = record { id = id; role = []; task = codes "work"; depends_on = deps }

abbrev a : PipelineStep
a = step (codes "a") []

abbrev b : PipelineStep
b = step (codes "b") (codes "a" ∷ [])

abbrev c : PipelineStep
c = step (codes "c") (codes "a" ∷ [])

abbrev d : PipelineStep
d = step (codes "d") (codes "b" ∷ codes "c" ∷ [])

abbrev diamond : Pipeline
diamond = record { name = codes "diamond"; steps = d ∷ c ∷ b ∷ a ∷ [] }

abbrev diamond_order : List PipelineStep
diamond_order = a ∷ b ∷ c ∷ d ∷ []

diamond_sorted : topological_order diamond ≡ ok diamond_order
unfolding topological_order order_loop by_id degrees link links roots release release_all
    sort_strings lookup lookup_or insert text_eq decrement is_zero
diamond_sorted = refl

-- A step that waits for itself.
abbrev looped : Pipeline
looped = record { name = []; steps = step (codes "x") (codes "x" ∷ []) ∷ [] }

looped_refused : topological_order looped ≡ err cycle
unfolding topological_order order_loop by_id degrees link links roots release release_all
    sort_strings lookup lookup_or insert text_eq decrement is_zero
looped_refused = refl

diamond-IsDistinct : IsDistinct diamond.steps
unfolding ids text_eq
diamond-IsDistinct = omega arith

topological_order-IsOrder_example : IsOrder diamond.steps diamond_order
topological_order-IsOrder_example =
    topological_order-IsOrder diamond diamond_order diamond-IsDistinct diamond_sorted

topological_order_complete_example :
    (out : List PipelineStep) × (topological_order diamond ≡ ok out) × IsOrder diamond.steps out
topological_order_complete_example =
    topological_order_complete diamond diamond_order diamond-IsDistinct
      topological_order-IsOrder_example

topological_order_returns_example :
    (topological_order looped ≡ err cycle)
    ⊎ ((out : List PipelineStep) × (topological_order looped ≡ ok out)
        × (length out ≡ length looped.steps))
topological_order_returns_example = topological_order_returns looped

validate_pipeline-IsValid_example : (validate_pipeline diamond ≡ none) ↔ IsValid diamond
validate_pipeline-IsValid_example = validate_pipeline-IsValid diamond

-- A child that answers with its task.
abbrev echo : SubagentRequest → Act (Unit {0}) ℕ (SubagentResult × Option Text)
echo req = pure (record zero_result { summary = req.task }, none)

abbrev unknown : SubagentResult
unknown = record zero_result { summary = codes "?" }

run_steps-topological_order_example :
    run_steps unknown echo diamond_order [] [] 0 ≡ run_steps zero_result echo diamond_order [] [] 0
run_steps-topological_order_example =
    run_steps-topological_order echo unknown zero_result diamond diamond_order 0 diamond-IsDistinct
      diamond_sorted

abbrev child : ChildRunRequest → Act (Unit {0}) (Supervised ℕ) SubagentResult
child r = pure zero_result

abbrev new_id : ℕ → Text × ℕ
new_id w = (w ∷ [], suc w)

abbrev limits : Limits
limits = record { max_depth = pos 0; max_children = pos 0 }

abbrev before : Supervised ℕ
before = record { children = []; world = 0 }

abbrev ran : Result Text (PipelineResult × Option Text) × List (Unit {0}) × Supervised ℕ
ran = run_pipeline new_id (some child) limits diamond (codes "run") [] [] [] before

abbrev answer : ℕ → SubagentResult
answer n = record zero_result {
  child_run_id = n ∷ [];
  role = codes "subagent";
  status = codes "ok";
}

abbrev diamond_result : PipelineResult
diamond_result = record {
  name = codes "diamond";
  results = answer 0 ∷ answer 1 ∷ answer 2 ∷ answer 3 ∷ [];
  status = codes "ok";
  error = [];
}

diamond_ran : ran ≡ (ok (diamond_result, none), [], ran.2)
unfolding run_pipeline run_ordered run_steps step_request step_task conclude dispatch launch settle
    topological_order order_loop by_id degrees link links roots release release_all sort_strings
    lookup lookup_or insert text_eq decrement is_zero default_pos is_empty trim_space ◌>>=◌
diamond_ran = refl

run_pipeline-children_example :
    lookup_or 0 (codes "run") before.children + length diamond.steps
    ≤ default_pos limits.max_children 4
unfolding lookup_or lookup default_pos
run_pipeline-children_example =
    run_pipeline-children new_id child limits (codes "run") [] [] [] (λ r s. refl) diamond before
      ran.2 diamond_result [] (omega arith) diamond_ran
