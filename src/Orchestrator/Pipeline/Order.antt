-- ===== src/Orchestrator/Pipeline/Order.antt =====
-- An order that `TopologicalOrder` returns puts each step after its dependencies.
use ai_agent_cloud_runtime.Prelude.{
  ℕ, zero, suc, ◌≤◌, ◌<◌, ◌≡◌, refl, ap, some, List, [], ◌∷◌, ◌++◌, All, length, Result, ok, err,
  Option-cases, inl, inr, arith, List-cases,
}
use mathlib.Core.Path.{subst}
use ai_agent_cloud_runtime.Prelude.Text.{Text}
use ai_agent_cloud_runtime.Prelude.Maps.{TextMap, lookup, lookup_or}
use ai_agent_cloud_runtime.Prelude.Counts.{count, count-eq_of_length}
use ai_agent_cloud_runtime.Orchestrator.Pipeline.{
  PipelineStep, Pipeline, PipelineError, Work, zero_step, by_id, links, release_all, order_loop,
  start, ids, out_of_fuel, complete, topological_order,
}
use ai_agent_cloud_runtime.Orchestrator.Pipeline.Release.{step_of, IsDistinct, lookup-by_id}
use ai_agent_cloud_runtime.Orchestrator.Pipeline.Invariant.{
  Inv, Ordered, is_due, pop, ready-step, pop-Inv, start-Inv,
}

-- Each step once, and after the steps that it depends on.
pub record IsOrder (sts out : List PipelineStep) : Type 0 where
  pub same : (x : Text) → count x (ids out) ≡ count x (ids sts)
  pub taken : All (λ st. step_of st.id sts ≡ some st) out
  pub ordered : Ordered [] out

-- the invariant where nothing is ready any more
pub record Ended (sts out : List PipelineStep) : Type 0 where
  pub work : Work
  pub inv : Inv sts out work
  pub empty : work.ready ≡ []

by_id-step_of :
    (x : Text) (sts : List PipelineStep) (st : PipelineStep)
    → step_of x sts ≡ some st
    → lookup_or zero_step x (by_id sts []) ≡ st
unfolding lookup_or lookup
by_id-step_of x sts st h = ground (arith, lookup-by_id x sts [])

module _ (steps : TextMap PipelineStep) (children : TextMap (List Text)) (out : List PipelineStep)
    (w : Work) where
  pub order_loop-nil : (fuel : ℕ) → w.ready ≡ [] → order_loop fuel steps children out w ≡ ok out
  unfolding order_loop
  order_loop-nil zero e = ground arith
  order_loop-nil (suc fuel) e = ground arith

  module _ (id : Text) (rest : List Text) (e : w.ready ≡ id ∷ rest) where
    pub order_loop-zero : order_loop zero steps children out w ≡ err out_of_fuel
    unfolding order_loop
    order_loop-zero = ground arith

    pub order_loop-cons :
        (fuel : ℕ)
        → order_loop (suc fuel) steps children out w
          ≡ order_loop fuel steps children
              (out ++ lookup_or zero_step id steps ∷ [])
              (release_all (lookup_or [] id children) (record w { ready = rest }))
    unfolding order_loop
    order_loop-cons fuel = ground arith

ok-Ended :
    (sts out out' : List PipelineStep) (w : Work)
    → Inv sts out w
    → w.ready ≡ []
    → out ≡ out'
    → Ended sts out'
ok-Ended sts out out' w inv e same =
    subst (Ended sts) same (record { work = w; inv = inv; empty = e })

pub order_loop-Ended :
    (fuel : ℕ) (sts out : List PipelineStep) (w : Work) (out' : List PipelineStep)
    → IsDistinct sts
    → Inv sts out w
    → order_loop fuel (by_id sts []) (links sts []) out w ≡ ok out'
    → Ended sts out'
order_loop-Ended zero sts out w out' d inv h = elim (List-cases w.ready) [
  | inl e ↦
      ok-Ended sts out out' w inv e (cc (order_loop-nil (by_id sts []) (links sts []) out w zero e))
  | inr (id, rest, e) ↦ absurd (cc (order_loop-zero (by_id sts []) (links sts []) out w id rest e))
]
order_loop-Ended (suc fuel) sts out w out' d inv h = elim (List-cases w.ready) [
  | inl e ↦
      ok-Ended sts out out' w inv e
        (cc (order_loop-nil (by_id sts []) (links sts []) out w (suc fuel) e))
  | inr (id, rest, e) ↦
      let (st, found, due, fresh, once) = ready-step sts out id rest w d inv e in
      order_loop-Ended fuel sts (out ++ st ∷ []) (pop sts id rest w) out' d
        (pop-Inv sts out id rest w d inv e st found due fresh once)
        (cc (
          order_loop-cons (by_id sts []) (links sts []) out w id rest e fuel,
          by_id-step_of id sts st found,
        ))
]

-- At the end a step has been emitted just where its dependencies have been.
pub Ended-emitted :
    (sts out : List PipelineStep) (x : Text)
    → Ended sts out
    → count x (ids out) ≡ is_due (step_of x sts) (ids out)
Ended-emitted sts out x h = ground (arith, h.inv.emitted x, h.empty)

pub count-pos_of_step_of :
    (x : Text) (sts : List PipelineStep) (st : PipelineStep)
    → step_of x sts ≡ some st
    → 0 < count x (ids sts)
unfolding ids
count-pos_of_step_of x [] st h = cc
count-pos_of_step_of x (s ∷ sts) st h = elim (Option-cases (step_of x sts)) [
  | inl e ↦ ground arith
  | inr (s', e) ↦ ground (arith, count-pos_of_step_of x sts s' e)
]

pub Ended-le :
    (sts out : List PipelineStep)
    → Ended sts out
    → (x : Text) → count x (ids out) ≤ count x (ids sts)
Ended-le sts out h x = elim (Option-cases (step_of x sts)) [
  | inl e ↦ ground (arith, Ended-emitted sts out x h)
  | inr (st, e) ↦ ground (arith, Ended-emitted sts out x h, count-pos_of_step_of x sts st e)
]

pub length-ids : (sts : List PipelineStep) → length (ids sts) ≡ length sts
unfolding ids
length-ids [] = refl
length-ids (st ∷ sts) = ap suc (length-ids sts)

pub Ended-IsOrder :
    (sts out : List PipelineStep) → Ended sts out → length out ≡ length sts → IsOrder sts out
Ended-IsOrder sts out h e = record {
  same =
      count-eq_of_length (ids out) (ids sts) (Ended-le sts out h)
        (omega (arith, length-ids out, length-ids sts));
  taken = h.inv.taken;
  ordered = h.inv.ordered;
}

complete-ok :
    (n : ℕ) (r : Result PipelineError (List PipelineStep)) (out : List PipelineStep)
    → complete n r ≡ ok out
    → (r ≡ ok out) × (length out ≡ n)
complete-ok n (ok steps) out h = ground arith
complete-ok n (err e) out h = cc

-- What `TopologicalOrder` returns for steps with different ids is these steps, each once, and each
-- after the steps that it depends on.
pub topological_order-IsOrder :
    (p : Pipeline) (out : List PipelineStep)
    → IsDistinct p.steps
    → topological_order p ≡ ok out
    → IsOrder p.steps out
unfolding topological_order
topological_order-IsOrder p out d h =
    let (returned, all) = complete-ok (length p.steps) _ out h in
    Ended-IsOrder p.steps out
      (order_loop-Ended (length p.steps) p.steps [] (start p) out d (start-Inv p) returned) all
