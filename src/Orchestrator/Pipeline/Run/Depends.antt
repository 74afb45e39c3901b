-- ===== src/Orchestrator/Pipeline/Run/Depends.antt =====
-- `RunPipeline` reads the results of the dependencies of a step only after they are there.
use ai_agent_cloud_runtime.Prelude.{
  ◌<◌, ◌≡◌, refl, Option, none, some, List, [], ◌∷◌, ◌++◌, All, ok, ◌∙◌, Bool-cases, inl, inr,
  arith,
}
use ai_agent_cloud_runtime.Prelude.Text.{Text, text_eq}
use ai_agent_cloud_runtime.Prelude.Maps.{TextMap, lookup, lookup_or, insert, lookup-insert}
use ai_agent_cloud_runtime.Prelude.Counts.{count, count-append}
use ai_agent_cloud_runtime.Prelude.Act.{Act, >>=-cong}
use ai_agent_cloud_runtime.Orchestrator.Supervisor.{SubagentRequest, SubagentResult}
use ai_agent_cloud_runtime.Orchestrator.Pipeline.{Pipeline, PipelineStep, topological_order}
use ai_agent_cloud_runtime.Orchestrator.Pipeline.Release.{IsDistinct}
use ai_agent_cloud_runtime.Orchestrator.Pipeline.Invariant.{Ordered}
use ai_agent_cloud_runtime.Orchestrator.Pipeline.Order.{topological_order-IsOrder}
use ai_agent_cloud_runtime.Orchestrator.Pipeline.Run.{
  dep_lines, step_task, step_request, run_steps, return_on_error,
}

-- Every step that is done has a result.
abbrev HasResults : List Text → TextMap SubagentResult → Type 0
HasResults done results =
    (x : Text) → 0 < count x done → (r : SubagentResult) × (lookup x results ≡ some r)

module _ (a b : SubagentResult) where
  lookup_or-absent :
      (x : Text) (results : TextMap SubagentResult) (r : SubagentResult)
      → lookup x results ≡ some r
      → lookup_or a x results ≡ lookup_or b x results
  unfolding lookup_or
  lookup_or-absent x results r h = rw (h, lookup_or)

  dep_lines-absent :
      (done deps : List Text) (results : TextMap SubagentResult)
      → HasResults done results
      → All (λ d. 0 < count d done) deps
      → dep_lines a deps results ≡ dep_lines b deps results
  unfolding dep_lines
  dep_lines-absent done [] results has all = refl
  dep_lines-absent done (d ∷ ds) results has all =
      let (r, found) = has d all.0 in
      rw (lookup_or-absent d results r found, dep_lines-absent done ds results has all.1)

  step_task-absent :
      (done deps : List Text) (task : Text) (results : TextMap SubagentResult)
      → HasResults done results
      → All (λ d. 0 < count d done) deps
      → step_task a task deps results ≡ step_task b task deps results
  unfolding step_task
  step_task-absent done [] task results has all = refl
  step_task-absent done (d ∷ ds) task results has all =
      rw (dep_lines-absent done (d ∷ ds) results has all)

  step_request-absent :
      (done : List Text) (st : PipelineStep) (results : TextMap SubagentResult)
      → HasResults done results
      → All (λ d. 0 < count d done) st.depends_on
      → step_request a st results ≡ step_request b st results
  unfolding step_request
  step_request-absent done st results has all =
      rw (step_task-absent done st.depends_on st.task results has all)

HasResults-insert :
    (done : List Text) (id : Text) (r : SubagentResult) (results : TextMap SubagentResult)
    → HasResults done results
    → HasResults (done ++ id ∷ []) (insert id r results)
HasResults-insert done id r results has x h = elim (Bool-cases (text_eq id x)) [
  | inl same ↦ (r, lookup-insert id x r results ∙ rw same)
  | inr other ↦
      let (old, found) = has x (ground (arith, other, count-append x done (id ∷ []))) in
      (old, lookup-insert id x r results ∙ rw other found)
]

module _ {V S : Type 0} (send : SubagentRequest → Act V S (SubagentResult × Option Text))
    (a b : SubagentResult) where
  run_steps-absent :
      (done : List Text) (sts : List PipelineStep) (results : TextMap SubagentResult)
      (out : List SubagentResult) (s : S)
      → HasResults done results
      → Ordered done sts
      → run_steps a send sts results out s ≡ run_steps b send sts results out s
  unfolding run_steps
  run_steps-absent done [] results out s has ord = refl
  run_steps-absent done (st ∷ sts) results out s has ord =
      rw (step_request-absent a b done st results has ord.0) (
        >>=-cong (send (step_request b st results)) _ _ s λ answer v. go answer.0 answer.1 v (
          run_steps-absent (done ++ st.id ∷ []) sts (insert st.id answer.0 results)
            (out ++ answer.0 ∷ []) v (HasResults-insert done st.id answer.0 results has) ord.1))
    where
      go :
          (r : SubagentResult) (e : Option Text) (v : S)
          → run_steps a send sts (insert st.id r results) (out ++ r ∷ []) v
            ≡ run_steps b send sts (insert st.id r results) (out ++ r ∷ []) v
          → return_on_error e
              (out ++ r ∷ [])
              (run_steps a send sts (insert st.id r results) (out ++ r ∷ []))
              v
            ≡ return_on_error e
                (out ++ r ∷ [])
                (run_steps b send sts (insert st.id r results) (out ++ r ∷ []))
                v
      go r none v ih = ih
      go r (some x) v ih = refl

  -- In the order of a pipeline whose steps have different ids no dependency is looked up before it
  -- has its result: what `RunPipeline` does is the same whatever a missing result reads as.
  pub run_steps-topological_order :
      (p : Pipeline) (ordered : List PipelineStep) (s : S)
      → IsDistinct p.steps
      → topological_order p ≡ ok ordered
      → run_steps a send ordered [] [] s ≡ run_steps b send ordered [] [] s
  run_steps-topological_order p ordered s d h =
      run_steps-absent [] ordered [] [] s (λ x k. absurd (omega arith))
        (topological_order-IsOrder p ordered d h).ordered
