-- ===== src/Orchestrator/Pipeline/Parse/Valid.antt =====
-- What `ValidatePipeline` accepts.
use ai_agent_cloud_runtime.Prelude.{
  ◌<◌, ◌≡◌, ◌↔◌, refl, ap, false, Option, none, some, List, [], ◌∷◌, All, Result, ok, err,
  if◌then◌else◌, ◌==◌, Result-cases, inl, inr, arith,
}
use ai_agent_cloud_runtime.Prelude.Text.{Text, text_eq_iff, is_empty, trim_space}
use ai_agent_cloud_runtime.Prelude.Maps.{TextMap, lookup, insert, lookup-insert}
use ai_agent_cloud_runtime.Prelude.Counts.{count}
use ai_agent_cloud_runtime.Orchestrator.Pipeline.{
  Pipeline, PipelineStep, PipelineError, ids, topological_order,
}
use ai_agent_cloud_runtime.Orchestrator.Pipeline.Release.{IsDistinct}
use ai_agent_cloud_runtime.Orchestrator.Pipeline.Order.{IsOrder, topological_order-IsOrder}
use ai_agent_cloud_runtime.Orchestrator.Pipeline.Complete.{topological_order_complete}
use ai_agent_cloud_runtime.Orchestrator.Pipeline.Parse.{
  check_steps, check_deps, check_all_deps, check_rest, error_of, validate_pipeline,
}

-- A step with an id and a task.
abbrev pub IsNamed : PipelineStep → Type 0
IsNamed st = (is_empty st.id ≡ false) × (is_empty (trim_space st.task) ≡ false)

-- Every dependency is the id of a step.
abbrev pub IsKnown : List PipelineStep → PipelineStep → Type 0
IsKnown sts st = All (λ d. 0 < count d (ids sts)) st.depends_on

pub record IsValid (p : Pipeline) : Type 0 where
  pub named : All IsNamed p.steps
  pub distinct : IsDistinct p.steps
  pub known : All (IsKnown p.steps) p.steps
  pub order : List PipelineStep
  pub ordered : IsOrder p.steps order

-- None of the steps has been seen.
abbrev IsFresh : TextMap (Unit {0}) → List PipelineStep → Type 0
IsFresh old sts = (x : Text) → 0 < count x (ids sts) → lookup x old ≡ none

-- What the first loop leaves where it finds no fault.
record Checked (sts : List PipelineStep) (old seen : TextMap (Unit {0})) : Type 0 where
  named : All IsNamed sts
  distinct : IsDistinct sts
  fresh : IsFresh old sts
  sees : (x : Text) → lookup x seen ≡ (if count x (ids sts) == 0 then lookup x old else some tt)

check_steps-cons :
    (st : PipelineStep) (sts : List PipelineStep) (old seen : TextMap (Unit {0}))
    → check_steps (st ∷ sts) old ≡ ok seen
    → IsNamed st × (lookup st.id old ≡ none) × (check_steps sts (insert st.id tt old) ≡ ok seen)
unfolding check_steps
check_steps-cons st sts old seen h = ground arith

check_steps-Checked :
    (sts : List PipelineStep) (old seen : TextMap (Unit {0}))
    → check_steps sts old ≡ ok seen
    → Checked sts old seen
unfolding check_steps ids
check_steps-Checked [] old seen h = record {
  named = tt;
  distinct = tt;
  fresh = λ x k. absurd (omega arith);
  sees = λ x. ground arith;
}
check_steps-Checked (st ∷ sts) old seen h =
    let (named, unseen, rest) = check_steps-cons st sts old seen h in
    let ih = check_steps-Checked sts (insert st.id tt old) seen rest in
    record {
      named = (named, ih.named);
      distinct = (
        ground (arith, ih.fresh st.id, lookup-insert st.id st.id tt old, text_eq_iff st.id st.id),
        ih.distinct,
      );
      fresh = λ x k.
          ground (arith, unseen, ih.fresh x, lookup-insert st.id x tt old, text_eq_iff st.id x);
      sees = λ x. ground (arith, ih.sees x, lookup-insert st.id x tt old);
    }

check_steps-accepts :
    (sts : List PipelineStep) (old : TextMap (Unit {0}))
    → All IsNamed sts
    → IsDistinct sts
    → IsFresh old sts
    → (seen : TextMap (Unit {0})) × (check_steps sts old ≡ ok seen)
unfolding check_steps ids
check_steps-accepts [] old n d f = (old, refl)
check_steps-accepts (st ∷ sts) old n d f =
    let fresh : IsFresh (insert st.id tt old) sts =
      λ x k. ground (arith, f x, d.0, lookup-insert st.id x tt old, text_eq_iff st.id x) in
    let (seen, e) = check_steps-accepts sts (insert st.id tt old) n.1 d.1 fresh in
    (seen, ground (arith, e, f st.id, text_eq_iff st.id st.id))

-- The second loop finds no unknown dependency just where there is none.
module _ (seen : TextMap (Unit {0})) (all : List PipelineStep)
    (sees : (x : Text) → lookup x seen ≡ (if count x (ids all) == 0 then none else some tt)) where
  check_deps-none :
      (id : Text) (deps : List Text) (rest : Option PipelineError)
      → (check_deps id deps seen rest ≡ none)
        ↔ (All (λ d. 0 < count d (ids all)) deps × (rest ≡ none))
  unfolding check_deps
  check_deps-none id [] rest = (λ h. (tt, h), λ h. h.1)
  check_deps-none id (d ∷ ds) rest = ground (arith, sees d, check_deps-none id ds rest)

  check_all_deps-none :
      (sts : List PipelineStep) (rest : Option PipelineError)
      → (check_all_deps sts seen rest ≡ none) ↔ (All (IsKnown all) sts × (rest ≡ none))
  unfolding check_all_deps
  check_all_deps-none [] rest = (λ h. (tt, h), λ h. h.1)
  check_all_deps-none (st ∷ sts) rest = ground (
    arith,
    check_deps-none st.id st.depends_on (check_all_deps sts seen rest),
    check_all_deps-none sts rest,
  )

sees_from-nil :
    (sts : List PipelineStep) (seen : TextMap (Unit {0}))
    → Checked sts [] seen
    → (x : Text) → lookup x seen ≡ (if count x (ids sts) == 0 then none else some tt)
unfolding lookup
sees_from-nil sts seen c x = c.sees x

error_of-none :
    (r : Result PipelineError (List PipelineStep))
    → error_of r ≡ none
    → (out : List PipelineStep) × (r ≡ ok out)
error_of-none (ok out) h = (out, refl)
error_of-none (err e) h = cc

module _ (p : Pipeline) where
  IsValid-of-none : validate_pipeline p ≡ none → IsValid p
  unfolding validate_pipeline
  IsValid-of-none h = elim (Result-cases (check_steps p.steps [])) [
    | inr (e, refused) ↦ cc (rw (refused, check_rest) at h)
    | inl (seen, checked) ↦
        let c = check_steps-Checked p.steps [] seen checked in
        let (known, order) =
          (check_all_deps-none seen p.steps (sees_from-nil p.steps seen c) p.steps
              (error_of (topological_order p))).0
            (rw (checked, check_rest) at h) in
        let (out, returned) = error_of-none (topological_order p) order in
        record {
          named = c.named;
          distinct = c.distinct;
          known = known;
          order = out;
          ordered = topological_order-IsOrder p out c.distinct returned;
        }
  ]

  none_of-IsValid : IsValid p → validate_pipeline p ≡ none
  unfolding validate_pipeline lookup
  none_of-IsValid v =
      let (seen, checked) = check_steps-accepts p.steps [] v.named v.distinct (λ x k. refl) in
      let c = check_steps-Checked p.steps [] seen checked in
      let (out, returned, _) = topological_order_complete p v.order v.distinct v.ordered in
      rw (checked, check_rest)
        ((check_all_deps-none seen p.steps (sees_from-nil p.steps seen c) p.steps
            (error_of (topological_order p))).1
          (v.known, ap error_of returned))

  -- `ValidatePipeline` reports no error exactly for the pipelines whose steps have ids and tasks, all
  -- ids different, whose dependencies are ids of steps, and whose steps have an order that puts each
  -- after its dependencies.
  pub validate_pipeline-IsValid : (validate_pipeline p ≡ none) ↔ IsValid p
  validate_pipeline-IsValid = (IsValid-of-none, none_of-IsValid)
