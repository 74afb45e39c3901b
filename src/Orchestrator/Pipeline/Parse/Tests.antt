-- ===== src/Orchestrator/Pipeline/Parse/Tests.antt =====
-- Concrete texts of pipelines.
use ai_agent_cloud_runtime.Prelude.{◌≡◌, refl, some, [], ◌∷◌}
use ai_agent_cloud_runtime.Prelude.Text.{Text, codes, text_eq}
use ai_agent_cloud_runtime.Orchestrator.Pipeline.{duplicate_step}
use ai_agent_cloud_runtime.Orchestrator.Pipeline.Parse.{
  parse_pipeline, validate_pipeline, check_steps,
}
use ai_agent_cloud_runtime.Prelude.Maps.{lookup, insert}

sample_text : Text
sample_text =
    codes
      "name: demo\n# note\nsteps:\n  - id: b\n    task: two\n    depends_on: [a, ]\n  - id: a\n    role: 'x'\n    task: one\n"

sample_parsed : (parse_pipeline sample_text).0 ≡ record {
  name = codes "demo";
  steps =
      record { id = codes "b"; role = []; task = codes "two"; depends_on = codes "a" ∷ [] }
      ∷ record { id = codes "a"; role = codes "x"; task = codes "one"; depends_on = [] }
      ∷ [];
}
unfolding parse_pipeline sample_text
sample_parsed = refl

duplicate_refused :
    (parse_pipeline (codes "- id: a\n  task: one\n- id: a\n  task: two")).1
    ≡ some (duplicate_step (codes "a"))
unfolding parse_pipeline validate_pipeline check_steps lookup insert text_eq
duplicate_refused = refl
