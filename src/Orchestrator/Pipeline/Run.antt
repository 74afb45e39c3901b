-- ===== src/Orchestrator/Pipeline/Run.antt =====
-- internal/orchestrator/pipeline.go: `RunPipeline`.
pub mod Depends
pub mod Children
use ai_agent_cloud_runtime.Prelude.{
  ℕ, zero, Bool, Option, none, some, List, [], ◌∷◌, ◌++◌, Result, ok, err, if◌then◌else◌,
}
use ai_agent_cloud_runtime.Prelude.Text.{Text, codes}
use ai_agent_cloud_runtime.Prelude.Maps.{TextMap, lookup_or, insert}
use ai_agent_cloud_runtime.Prelude.Act.{Act, pure, ◌>>=◌}
use ai_agent_cloud_runtime.Orchestrator.Supervisor.{
  SubagentRequest, SubagentResult, ChildRunRequest, Limits, Supervised, dispatch,
}
use ai_agent_cloud_runtime.Orchestrator.Pipeline.{
  Pipeline, PipelineStep, PipelineError, empty_id, cycle, line_too_long, out_of_fuel,
  duplicate_step, empty_task, missing_dependency, topological_order,
}

pub record PipelineResult : Type 0 where
  pub name : Text
  pub results : List SubagentResult
  pub status : Text
  pub error : Text

-- `err.Error()`
unfoldable pub error_text : PipelineError → Text
error_text empty_id = codes "pipeline missing step: empty id"
error_text (duplicate_step id) = codes "pipeline duplicate step id: " ++ id
error_text (empty_task id) = codes "pipeline missing step: " ++ (id ++ codes " has empty task")
error_text (missing_dependency id dep) =
    codes "pipeline missing step: " ++ (id ++ (codes " depends on " ++ dep))
error_text cycle = codes "pipeline contains a cycle"
error_text line_too_long = codes "bufio.Scanner: token too long"
error_text out_of_fuel = []

-- what `results[dep]` reads for a step that has no result
abbrev pub zero_result : SubagentResult
zero_result = record { child_run_id = []; role = []; summary = []; status = []; error = [] }

-- `if err != nil { ...; return out, err }`, and else the rest of the loop
abbrev pub return_on_error :
    {V S : Type 0}
    → Option Text
    → List SubagentResult
    → Act V S (List SubagentResult × Option Text)
    → Act V S (List SubagentResult × Option Text)
return_on_error (some e) out rest = pure (out, some e)
return_on_error none out rest = rest

-- `absent` is what a missing result reads as.
module _ (absent : SubagentResult) where
  unfoldable pub dep_lines : List Text → TextMap SubagentResult → Text
  dep_lines [] results = []
  dep_lines (dep ∷ deps) results =
      let r = lookup_or absent dep results in
      codes "- "
      ++ (dep
          ++ (codes " ("
              ++ (r.status ++ (codes "): " ++ (r.summary ++ (10 ∷ dep_lines deps results))))))

  unfoldable pub step_task : Text → List Text → TextMap SubagentResult → Text
  step_task task [] results = task
  step_task task (dep ∷ deps) results =
      task ++ (codes "\n\nDependency outputs:\n" ++ dep_lines (dep ∷ deps) results)

  unfoldable pub step_request : PipelineStep → TextMap SubagentResult → SubagentRequest
  step_request st results = record {
    role = st.role;
    task = step_task st.task st.depends_on results;
    output_schema = [];
  }

  module _ {V S : Type 0} (send : SubagentRequest → Act V S (SubagentResult × Option Text)) where
    -- the loop over the order: the results, and the error that ended it
    unfoldable pub run_steps :
        List PipelineStep
        → TextMap SubagentResult
        → List SubagentResult
        → Act V S (List SubagentResult × Option Text)
    run_steps [] results out = pure (out, none)
    run_steps (st ∷ sts) results out = do
      answer ← send (step_request st results)
      let out' = out ++ answer.0 ∷ []
      return_on_error answer.1 out' (run_steps sts (insert st.id answer.0 results) out')

unfoldable pub conclude : Text → List SubagentResult × Option Text → PipelineResult × Option Text
conclude name (results, none) =
    (record { name = name; results = results; status = codes "ok"; error = [] }, none)
conclude name (results, some e) =
    (record { name = name; results = results; status = codes "error"; error = e }, some e)

module _ {V S : Type 0} (send : SubagentRequest → Act V S (SubagentResult × Option Text)) where
  unfoldable pub run_ordered :
      Text → Result PipelineError (List PipelineStep) → Act V S (PipelineResult × Option Text)
  run_ordered name (err e) = pure (conclude name ([], some (error_text e)))
  run_ordered name (ok ordered) = do
    ran ← run_steps zero_result send ordered [] []
    pure (conclude name ran)

-- `RunPipeline`
unfoldable pub run_pipeline :
    {V W : Type 0}
    → (W → Text × W)
    → Option (ChildRunRequest → Act V (Supervised W) SubagentResult)
    → Limits
    → (p : Pipeline) (parent trace user model : Text)
    → Act V (Supervised W) (PipelineResult × Option Text)
run_pipeline new_run_id runner limits p parent trace user model =
    run_ordered (dispatch new_run_id runner limits parent trace user model 0) p.name
      (topological_order p)
