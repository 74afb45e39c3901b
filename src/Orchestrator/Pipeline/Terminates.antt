-- ===== src/Orchestrator/Pipeline/Terminates.antt =====
-- The loop of `TopologicalOrder` ends: each round takes one id from `ready`, and an id joins it only
-- where its count falls to zero.
use ai_agent_cloud_runtime.Prelude.{
  ℕ, zero, suc, ◌+◌, ◌≤◌, ◌≡◌, ap, ◌∙◌, List, [], ◌∷◌, ◌++◌, length, length-append, ok, err, inl,
  inr, ◌⊎◌, if◌then◌else◌, List-cases, Bool-cases, ◌==◌, arith,
}
use ai_agent_cloud_runtime.Prelude.Int.{ℤ, pos, negsuc, decrement, is_zero}
use ai_agent_cloud_runtime.Prelude.Text.{Text}
use ai_agent_cloud_runtime.Prelude.Maps.{TextMap, lookup, lookup_or, insert}
use ai_agent_cloud_runtime.Prelude.Counts.{length-sort_strings}
use ai_agent_cloud_runtime.Orchestrator.Pipeline.{
  PipelineStep, Pipeline, Work, zero_step, by_id, degrees, links, roots, release, release_all,
  order_loop, start, cycle, complete, topological_order,
}
use ai_agent_cloud_runtime.Orchestrator.Pipeline.Order.{order_loop-nil, order_loop-cons}

abbrev is_pos : ℤ → ℕ
is_pos (pos zero) = 0
is_pos (pos (suc n)) = 1
is_pos (negsuc n) = 0

-- the entries that may still fall to zero
abbrev open_count : TextMap ℤ → ℕ
open_count [] = 0
open_count ((k, n) ∷ m) = is_pos n + open_count m

abbrev work_left : Work → ℕ
work_left w = length w.ready + open_count w.indeg

open_count-insert :
    (k : Text) (n : ℤ) (m : TextMap ℤ)
    → open_count (insert k n m) + is_pos (lookup_or (pos 0) k m) ≡ open_count m + is_pos n
unfolding insert lookup_or lookup
open_count-insert k n [] = omega arith
open_count-insert k n ((j, v) ∷ m) = ground (arith, open_count-insert k n m)

is_pos-decrement :
    (z : ℤ) → is_pos (decrement z) + (if is_zero (decrement z) then 1 else 0) ≤ is_pos z
unfolding decrement is_zero
is_pos-decrement (pos zero) = omega arith
is_pos-decrement (pos (suc zero)) = omega arith
is_pos-decrement (pos (suc (suc n))) = ground arith
is_pos-decrement (negsuc n) = omega arith

work_left-release : (c : Text) (w : Work) → work_left (release c w) ≤ work_left w
unfolding release
work_left-release c w =
    let n = decrement (lookup_or (pos 0) c w.indeg) in
    ground (
      arith,
      open_count-insert c n w.indeg,
      is_pos-decrement (lookup_or (pos 0) c w.indeg),
      length-sort_strings (w.ready ++ c ∷ []),
      length-append w.ready (c ∷ []),
    )

work_left-release_all : (cs : List Text) (w : Work) → work_left (release_all cs w) ≤ work_left w
unfolding release_all
work_left-release_all [] w = omega arith
work_left-release_all (c ∷ cs) w =
    omega (arith, work_left-release c w, work_left-release_all cs (release c w))

order_loop_returns :
    (fuel : ℕ) (steps : TextMap PipelineStep) (children : TextMap (List Text))
    (out : List PipelineStep) (w : Work)
    → work_left w ≤ fuel
    → (out' : List PipelineStep) × (order_loop fuel steps children out w ≡ ok out')
order_loop_returns zero steps children out w h = elim (List-cases w.ready) [
  | inl e ↦ (out, order_loop-nil steps children out w zero e)
  | inr (id, rest, e) ↦ absurd (omega (arith, ap length e))
]
order_loop_returns (suc fuel) steps children out w h = elim (List-cases w.ready) [
  | inl e ↦ (out, order_loop-nil steps children out w (suc fuel) e)
  | inr (id, rest, e) ↦
      let cs = lookup_or [] id children in
      let w' = record w { ready = rest } in
      let (out', returns) =
        order_loop_returns fuel steps children (out ++ lookup_or zero_step id steps ∷ [])
          (release_all cs w') (omega (arith, work_left-release_all cs w', ap length e)) in
      (out', order_loop-cons steps children out w id rest e fuel ∙ returns)
]

length-insert :
    {V : Type 0} (k : Text) (v : V) (m : TextMap V) → length (insert k v m) ≤ suc (length m)
unfolding insert
length-insert k v [] = omega arith
length-insert k v ((j, w) ∷ m) = ground (arith, length-insert k v m)

length-degrees :
    (sts : List PipelineStep) (m : TextMap ℤ) → length (degrees sts m) ≤ length sts + length m
unfolding degrees
length-degrees [] m = omega arith
length-degrees (st ∷ sts) m =
    let n = pos (length st.depends_on) in
    omega (arith, length-degrees sts (insert st.id n m), length-insert st.id n m)

length-roots : (m : TextMap ℤ) → length (roots m) + open_count m ≤ length m
unfolding roots is_zero
length-roots [] = omega arith
length-roots ((k, pos zero) ∷ m) = ground (arith, length-roots m)
length-roots ((k, pos (suc n)) ∷ m) = ground (arith, length-roots m)
length-roots ((k, negsuc n) ∷ m) = ground (arith, length-roots m)

work_left-start : (p : Pipeline) → work_left (start p) ≤ length p.steps
work_left-start p = omega (
  arith,
  length-sort_strings (roots (degrees p.steps [])),
  length-roots (degrees p.steps []),
  length-degrees p.steps [],
)

-- As many rounds as there are steps are enough, whatever the steps.
pub order_loop-start :
    (p : Pipeline)
    → (out : List PipelineStep) × (order_loop
          (length p.steps)
          (by_id p.steps [])
          (links p.steps [])
          []
          (start p)
        ≡ ok out)
order_loop-start p =
    order_loop_returns (length p.steps) (by_id p.steps []) (links p.steps []) [] (start p)
      (work_left-start p)

-- `TopologicalOrder` ends for every list of steps, also with ids twice or unknown dependencies: it
-- reports a cycle, or returns as many steps as there are.
pub topological_order_returns :
    (p : Pipeline)
    → (topological_order p ≡ err cycle)
      ⊎ ((out : List PipelineStep) × (topological_order p ≡ ok out) × (length out ≡ length p.steps))
unfolding topological_order
topological_order_returns p =
    let (out, e) = order_loop-start p in
    elim (Bool-cases (length out == length p.steps)) [
      | inl all ↦ inr (out, rw (e, complete) (rw all), ground arith)
      | inr few ↦ inl (rw (e, complete) (rw few))
    ]
