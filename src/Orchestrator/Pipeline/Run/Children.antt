-- ===== src/Orchestrator/Pipeline/Run/Children.antt =====
-- `RunPipeline` under the limit of `Dispatch` on the children of one run.
use ai_agent_cloud_runtime.Prelude.{
  ℕ, suc, ◌+◌, ◌≤◌, ◌<◌, ◌≡◌, refl, ap, Option, none, some, List, [], ◌∷◌, ◌++◌, length, ok, leb,
  ◌∙◌, Bool-cases, inl, inr, arith,
}
use ai_agent_cloud_runtime.Prelude.Int.{default_pos}
use ai_agent_cloud_runtime.Prelude.Text.{Text, text_eq_refl}
use ai_agent_cloud_runtime.Prelude.Maps.{TextMap, lookup_or, insert, lookup_or-insert}
use ai_agent_cloud_runtime.Prelude.Act.{Act, >>=-ok}
use ai_agent_cloud_runtime.Orchestrator.Supervisor.{
  SubagentRequest, SubagentResult, ChildRunRequest, Limits, Supervised, launch, dispatch,
}
use ai_agent_cloud_runtime.Orchestrator.Supervisor.Limited.{launch-children}
use ai_agent_cloud_runtime.Orchestrator.Pipeline.{Pipeline, PipelineStep}
use ai_agent_cloud_runtime.Orchestrator.Pipeline.Terminates.{topological_order_returns}
use ai_agent_cloud_runtime.Orchestrator.Pipeline.Run.{
  PipelineResult, step_request, run_steps, return_on_error, conclude, run_ordered, run_pipeline,
  zero_result,
}

return_on_error-none :
    {V S : Type 0} (e : Option Text) (out : List SubagentResult)
    (rest : Act V S (List SubagentResult × Option Text)) (v : S) (rs : List SubagentResult) (s' : S)
    (gs : List V)
    → return_on_error e out rest v ≡ (ok (rs, none), gs, s')
    → (e ≡ none) × (rest v ≡ (ok (rs, none), gs, s'))
return_on_error-none none out rest v rs s' gs h = (refl, h)
return_on_error-none (some e) out rest v rs s' gs h = cc

module _ {V W : Type 0} (new_run_id : W → Text × W)
    (run_child : ChildRunRequest → Act V (Supervised W) SubagentResult) (limits : Limits)
    (parent trace user model : Text)
    (keeps : (r : ChildRunRequest) (s : Supervised W)
      → (run_child r s).2.children ≡ s.children) where
  abbrev children : Supervised W → ℕ
  children s = lookup_or 0 parent s.children

  counted :
      (req : SubagentRequest) (s s' : Supervised W) (res : SubagentResult) (es : List V)
      → launch new_run_id run_child parent trace user model 0 req s ≡ (ok (res, none), es, s')
      → children s' ≡ suc (children s)
  counted req s s' res es h =
      let n = suc (children s) in
      let launched = launch-children new_run_id run_child parent trace user model 0 req s keeps in
      ground (
        arith,
        ap (λ r. lookup_or 0 parent r.2.children) h,
        ap (lookup_or 0 parent) launched,
        lookup_or-insert 0 parent parent n s.children,
        text_eq_refl parent,
      )

  -- A dispatch without an error has counted one more child, and found room for it.
  dispatch-room :
      (req : SubagentRequest) (s s' : Supervised W) (res : SubagentResult) (es : List V)
      → dispatch new_run_id (some run_child) limits parent trace user model 0 req s
        ≡ (ok (res, none), es, s')
      → (children s < default_pos limits.max_children 4) × (children s' ≡ suc (children s))
  unfolding dispatch
  dispatch-room req s s' res es h = elim (Bool-cases (leb (default_pos limits.max_depth 2) 0)) [
    | inl deep ↦ cc (rw deep at h)
    | inr shallow ↦ elim (Bool-cases (leb (default_pos limits.max_children 4) (children s))) [
      | inl many ↦ cc (rw (shallow, many) at h)
      | inr few ↦ (ground arith, counted req s s' res es (rw (shallow, few) at h))
    ]
  ]

  run_steps-children :
      (sts : List PipelineStep) (results : TextMap SubagentResult) (out rs : List SubagentResult)
      (s s' : Supervised W) (es : List V)
      → children s ≤ default_pos limits.max_children 4
      → run_steps zero_result
          (dispatch new_run_id (some run_child) limits parent trace user model 0)
          sts
          results
          out
          s
        ≡ (ok (rs, none), es, s')
      → children s + length sts ≤ default_pos limits.max_children 4
  unfolding run_steps
  run_steps-children [] results out rs s s' es le h = omega arith
  run_steps-children (st ∷ sts) results out rs s s' es le h =
      let send = dispatch new_run_id (some run_child) limits parent trace user model 0 in
      let (answer, fs, v, gs, sent, rest) =
        >>=-ok (send (step_request zero_result st results)) _ s h in
      let (no_error, rest') = return_on_error-none answer.1 _ _ v rs s' gs rest in
      let sent' : send (step_request zero_result st results) s ≡ (ok (answer.0, none), fs, v) =
        sent ∙ ap (λ e. (ok (answer.0, e), fs, v)) no_error in
      let (room, one) = dispatch-room (step_request zero_result st results) s v answer.0 fs sent' in
      omega (
        arith,
        run_steps-children sts (insert st.id answer.0 results) (out ++ answer.0 ∷ []) rs v s' gs
            (omega arith) rest',
      )

  conclude-none :
      (name : Text) (ran : List SubagentResult × Option Text) (res : PipelineResult)
      → conclude name ran ≡ (res, none)
      → ran.1 ≡ none
  unfolding conclude
  conclude-none name (rs, none) res h = refl
  conclude-none name (rs, some e) res h = cc

  -- A pipeline that runs without an error has at most as many steps as the limit on children leaves
  -- to its run, where the run is within the limit at first and `RunChild` dispatches none itself.
  pub run_pipeline-children :
      (p : Pipeline) (s s' : Supervised W) (res : PipelineResult) (es : List V)
      → lookup_or 0 parent s.children ≤ default_pos limits.max_children 4
      → run_pipeline new_run_id (some run_child) limits p parent trace user model s
        ≡ (ok (res, none), es, s')
      → lookup_or 0 parent s.children + length p.steps ≤ default_pos limits.max_children 4
  unfolding run_pipeline run_ordered conclude
  run_pipeline-children p s s' res es le h = elim (topological_order_returns p) [
    | inl e ↦ cc (rw (e, run_ordered) at h)
    | inr (out, e, all) ↦
        let send = dispatch new_run_id (some run_child) limits parent trace user model 0 in
        let (ran, fs, v, gs, ran_ok, ended) =
          >>=-ok (run_steps zero_result send out [] []) _ s (rw (e, run_ordered) at h) in
        let concluded : conclude p.name ran ≡ (res, none) = cc in
        let ran_ok' : run_steps zero_result send out [] [] s ≡ (ok (ran.0, none), fs, v) =
          ran_ok ∙ ap (λ x. (ok (ran.0, x), fs, v)) (conclude-none p.name ran res concluded) in
        omega (arith, all, run_steps-children out [] [] ran.0 s v fs le ran_ok')
  ]
