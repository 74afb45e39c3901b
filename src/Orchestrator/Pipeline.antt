-- ===== src/Orchestrator/Pipeline.antt =====
-- internal/orchestrator/pipeline.go: the pipelines and `TopologicalOrder`. A map is a list of its
-- entries; the order in which Go visits `indeg` is hidden by the sort that follows.
pub mod Release
pub mod Invariant
pub mod Order
pub mod Complete
pub mod Terminates
pub mod Parse
pub mod Run
mod Tests
use ai_agent_cloud_runtime.Prelude.{
  ℕ, zero, suc, ◌+◌, List, [], ◌∷◌, ◌++◌, map, Result, ok, err, length, ◌==◌, if◌then◌else◌,
}
use ai_agent_cloud_runtime.Prelude.Int.{ℤ, pos, decrement, is_zero}
use ai_agent_cloud_runtime.Prelude.Text.{Text}
use ai_agent_cloud_runtime.Prelude.Maps.{TextMap, lookup_or, insert}
use ai_agent_cloud_runtime.Prelude.Counts.{sort_strings}

pub record PipelineStep : Type 0 where
  pub id : Text
  pub role : Text
  pub task : Text
  pub depends_on : List Text

pub record Pipeline : Type 0 where
  pub name : Text
  pub steps : List PipelineStep

-- The errors that wrap `ErrMissingStep`, `ErrDuplicateStep` and `ErrPipelineCycle`, and that of a
-- line which the scanner cannot hold. `out_of_fuel` is none of the program's.
pub data PipelineError : Type 0 where
  empty_id cycle line_too_long out_of_fuel : PipelineError
  duplicate_step empty_task : (id : Text) → PipelineError
  missing_dependency : (id dep : Text) → PipelineError

abbrev pub zero_step : PipelineStep
zero_step = record { id = []; role = []; task = []; depends_on = [] }

-- `byID`: the last step of an id
pub by_id : List PipelineStep → TextMap PipelineStep → TextMap PipelineStep
by_id [] m = m
by_id (st ∷ sts) m = by_id sts (insert st.id st m)

-- `indeg[st.ID] = len(st.DependsOn)`
pub degrees : List PipelineStep → TextMap ℤ → TextMap ℤ
degrees [] m = m
degrees (st ∷ sts) m = degrees sts (insert st.id (pos (length st.depends_on)) m)

-- `children[dep] = append(children[dep], st.ID)`
pub link : Text → List Text → TextMap (List Text) → TextMap (List Text)
link child [] m = m
link child (dep ∷ deps) m = link child deps (insert dep (lookup_or [] dep m ++ child ∷ []) m)

pub links : List PipelineStep → TextMap (List Text) → TextMap (List Text)
links [] m = m
links (st ∷ sts) m = links sts (link st.id st.depends_on m)

-- the ids without dependencies
pub roots : TextMap ℤ → List Text
roots [] = []
roots ((id, n) ∷ m) = if is_zero n then id ∷ roots m else roots m

pub record Work : Type 0 where
  pub indeg : TextMap ℤ
  pub ready : List Text

-- `indeg[child]--`, and the child is ready at zero
pub release : Text → Work → Work
release child w =
    let n = decrement (lookup_or (pos 0) child w.indeg) in
    record {
      indeg = insert child n w.indeg;
      ready = if is_zero n then sort_strings (w.ready ++ child ∷ []) else w.ready;
    }

pub release_all : List Text → Work → Work
release_all [] w = w
release_all (child ∷ children) w = release_all children (release child w)

-- The loop `for len(ready) > 0`. `none` means that the fuel ran out.
pub order_loop :
    ℕ
    → TextMap PipelineStep
    → TextMap (List Text)
    → List PipelineStep
    → Work
    → Result PipelineError (List PipelineStep)
order_loop zero steps children out w = elim w.ready [ [] ↦ ok out | _ ∷ _ ↦ err out_of_fuel ]
order_loop (suc fuel) steps children out w = elim w.ready [
  | [] ↦ ok out
  | id ∷ rest ↦
      order_loop fuel steps children (out ++ lookup_or zero_step id steps ∷ [])
        (release_all (lookup_or [] id children) (record w { ready = rest }))
]

abbrev pub start : Pipeline → Work
start p =
    let indeg = degrees p.steps [] in record { indeg = indeg; ready = sort_strings (roots indeg) }

-- `if len(out) != len(p.Steps) { return nil, ErrPipelineCycle }`
abbrev pub complete :
    ℕ → Result PipelineError (List PipelineStep) → Result PipelineError (List PipelineStep)
complete n (ok out) = if length out == n then ok out else err cycle
complete n (err e) = err e

-- `TopologicalOrder`
pub topological_order : Pipeline → Result PipelineError (List PipelineStep)
topological_order p =
    complete (length p.steps)
      (order_loop (length p.steps) (by_id p.steps []) (links p.steps []) [] (start p))

pub ids : List PipelineStep → List Text
ids = map (λ st. st.id)
