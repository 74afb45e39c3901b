-- ===== src/Orchestrator/Pipeline/Complete.antt =====
-- `TopologicalOrder` refuses only what has no order.
use ai_agent_cloud_runtime.Prelude.{
  ◌≤◌, ◌<◌, ◌≡◌, some, List, [], ◌∷◌, ◌++◌, All, length, ok, arith,
}
use ai_agent_cloud_runtime.Prelude.Text.{Text, text_eq_iff}
use ai_agent_cloud_runtime.Prelude.Counts.{count, count-append, length-le_of_count}
use ai_agent_cloud_runtime.Orchestrator.Pipeline.{
  PipelineStep, Pipeline, ids, complete, start, topological_order,
}
use ai_agent_cloud_runtime.Orchestrator.Pipeline.Release.{step_of, IsDistinct}
use ai_agent_cloud_runtime.Orchestrator.Pipeline.Invariant.{Ordered, missing_of_All, start-Inv}
use ai_agent_cloud_runtime.Orchestrator.Pipeline.Order.{
  IsOrder, Ended, Ended-emitted, Ended-IsOrder, Ended-le, order_loop-Ended, length-ids,
}
use ai_agent_cloud_runtime.Orchestrator.Pipeline.Terminates.{order_loop-start}

count-IsDistinct : (x : Text) (sts : List PipelineStep) → IsDistinct sts → count x (ids sts) ≤ 1
unfolding ids
count-IsDistinct x [] d = omega arith
count-IsDistinct x (st ∷ sts) d = ground (arith, count-IsDistinct x sts, text_eq_iff st.id x)

All-mono :
    (done bs : List Text) (ds : List Text)
    → ((x : Text) → 0 < count x done → 0 < count x bs)
    → All (λ d. 0 < count d done) ds
    → All (λ d. 0 < count d bs) ds
All-mono done bs [] h a = tt
All-mono done bs (d ∷ ds) h a = (h d a.0, All-mono done bs ds h a.1)

module _ (sts out : List PipelineStep) (ended : Ended sts out) where
  -- Along an order every step has been emitted.
  emitted-Ordered :
      (done : List Text) (os : List PipelineStep)
      → ((x : Text) → 0 < count x done → 0 < count x (ids out))
      → Ordered done os
      → All (λ st. step_of st.id sts ≡ some st) os
      → (x : Text) → 0 < count x (ids os)
      → 0 < count x (ids out)
  unfolding ids
  emitted-Ordered done [] sub ord tak x h = absurd (omega arith)
  emitted-Ordered done (st ∷ os) sub ord tak x h =
      let none_missing =
        missing_of_All st.depends_on (ids out) (All-mono done (ids out) st.depends_on sub ord.0) in
      let emitted : 0 < count st.id (ids out) =
        ground (arith, Ended-emitted sts out st.id ended, tak.0, none_missing) in
      let sub' : (y : Text) → 0 < count y (done ++ st.id ∷ []) → 0 < count y (ids out) = λ y k.
        ground (arith, sub y, count-append y done (st.id ∷ []), text_eq_iff st.id y, emitted) in
      ground (
        arith,
        text_eq_iff st.id x,
        emitted,
        emitted-Ordered (done ++ st.id ∷ []) os sub' ord.1 tak.1 x,
      )

  length-Ended :
      (os : List PipelineStep) → IsDistinct sts → IsOrder sts os → length out ≡ length sts
  length-Ended os d o =
      let all_emitted : (x : Text) → count x (ids sts) ≤ count x (ids out) = λ x. ground (
        arith,
        count-IsDistinct x sts d,
        o.same x,
        emitted-Ordered [] os (λ y k. absurd (omega arith)) o.ordered o.taken x,
      ) in
      omega (
        arith,
        length-le_of_count (ids sts) (ids out) all_emitted,
        length-le_of_count (ids out) (ids sts) (Ended-le sts out ended),
        length-ids sts,
        length-ids out,
      )

-- Where the steps have different ids and some order puts each after its dependencies,
-- `TopologicalOrder` returns such an order.
pub topological_order_complete :
    (p : Pipeline) (os : List PipelineStep)
    → IsDistinct p.steps
    → IsOrder p.steps os
    → (out : List PipelineStep) × (topological_order p ≡ ok out) × IsOrder p.steps out
unfolding topological_order
topological_order_complete p os d o =
    let (out, e) = order_loop-start p in
    let ended = order_loop-Ended (length p.steps) p.steps [] (start p) out d (start-Inv p) e in
    let all = length-Ended p.steps out ended os d o in
    (out, rw (e, complete) (ground (arith, all)), Ended-IsOrder p.steps out ended all)
