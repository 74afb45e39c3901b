-- ===== src/Orchestrator/Pipeline/Parse.antt =====
-- internal/orchestrator/pipeline.go: `ParsePipeline` and `ValidatePipeline`.
pub mod Valid
mod Tests
use mathlib.Core.Option
use ai_agent_cloud_runtime.Prelude.{
  ℕ, Bool, ◌||◌, Option, none, some, List, [], ◌∷◌, ◌++◌, Result, ok, err, length, leb,
  if◌then◌else◌,
}
use ai_agent_cloud_runtime.Prelude.Text.{Text, codes, text_eq, is_empty, has_prefix, trim_space}
use ai_agent_cloud_runtime.Prelude.Maps.{TextMap, lookup, insert}
use ai_agent_cloud_runtime.Prelude.Cuts.{trim, trim_right, trim_prefix, trim_suffix, split, cut}
use ai_agent_cloud_runtime.Orchestrator.Pipeline.{
  Pipeline, PipelineStep, PipelineError, empty_id, duplicate_step, empty_task, missing_dependency,
  line_too_long, zero_step, topological_order,
}

-- `ids`, as the first loop of `ValidatePipeline` leaves them
pub check_steps : List PipelineStep → TextMap (Unit {0}) → Result PipelineError (TextMap (Unit {0}))
check_steps [] seen = ok seen
check_steps (st ∷ sts) seen =
    let rest = check_steps sts (insert st.id tt seen) in
    if is_empty st.id then err empty_id else elim (lookup st.id seen) [
      | some _ ↦ err (duplicate_step st.id)
      | none ↦ if is_empty (trim_space st.task) then err (empty_task st.id) else rest
    ]

pub check_deps : Text → List Text → TextMap (Unit {0}) → Option PipelineError → Option PipelineError
check_deps id [] seen rest = rest
check_deps id (dep ∷ deps) seen rest = elim (lookup dep seen) [
  | some _ ↦ check_deps id deps seen rest
  | none ↦ some (missing_dependency id dep)
]

pub check_all_deps :
    List PipelineStep → TextMap (Unit {0}) → Option PipelineError → Option PipelineError
check_all_deps [] seen rest = rest
check_all_deps (st ∷ sts) seen rest =
    check_deps st.id st.depends_on seen (check_all_deps sts seen rest)

abbrev pub error_of : {A : Type 0} → Result PipelineError A → Option PipelineError
error_of (ok a) = none
error_of (err e) = some e

abbrev pub check_rest : Pipeline → Result PipelineError (TextMap (Unit {0})) → Option PipelineError
check_rest p (ok seen) = check_all_deps p.steps seen (error_of (topological_order p))
check_rest p (err e) = some e

-- `ValidatePipeline`
pub validate_pipeline : Pipeline → Option PipelineError
validate_pipeline p = check_rest p (check_steps p.steps [])

pub clean_yaml_value : Text → Text
unfolding trim trim_space
clean_yaml_value s = trim (codes "\"'") (trim_space s)

clean_all : List Text → List Text
unfolding clean_yaml_value is_empty
clean_all [] = []
clean_all (p ∷ ps) =
    let v = clean_yaml_value p in let rest = clean_all ps in if is_empty v then rest else v ∷ rest

pub parse_list : Text → List Text
unfolding clean_all trim_suffix trim_prefix split
parse_list s =
    let inner = trim_suffix (trim_prefix (trim_space s) (codes "[")) (codes "]") in
    if is_empty (trim_space inner) then [] else clean_all (split 44 inner)

-- the pipeline read so far, and `cur`
pub record Parser : Type 0 where
  pub name : Text
  pub steps : List PipelineStep
  pub cur : Option PipelineStep

-- `p.Steps = append(p.Steps, *cur)`, if there is one
abbrev pub flush : Parser → List PipelineStep
flush s = elim s.cur [ none ↦ s.steps | some st ↦ s.steps ++ st ∷ [] ]

-- the line that starts a step
pub start_step : Text → PipelineStep
unfolding clean_yaml_value trim_prefix has_prefix
start_step line =
    let kv = trim_space (trim_prefix line (codes "- ")) in
    if has_prefix kv (codes "id:")
    then record zero_step { id = clean_yaml_value (trim_prefix kv (codes "id:")) }
    else zero_step

set_field : (key val : Text) → PipelineStep → PipelineStep
unfolding parse_list text_eq
set_field key val st =
    if text_eq key (codes "id")
    then record st { id = clean_yaml_value val }
    else if text_eq key (codes "role")
    then record st { role = clean_yaml_value val }
    else if text_eq key (codes "task")
    then record st { task = clean_yaml_value val }
    else if text_eq key (codes "depends_on")
    then record st { depends_on = parse_list val }
    else st

set_pair : Option (Text × Text) → PipelineStep → PipelineStep
unfolding set_field
set_pair none st = st
set_pair (some (key, val)) st = set_field (trim_space key) val st

-- one round of the loop over the lines
pub parse_line : Text → Parser → Parser
unfolding start_step set_pair trim_right cut text_eq
parse_line raw s =
    let line = trim_space (trim_right (codes " \t") raw) in
    if is_empty line || has_prefix line (codes "#") || text_eq line (codes "steps:")
    then s
    else if has_prefix line (codes "name:")
    then record s { name = clean_yaml_value (trim_prefix line (codes "name:")) }
    else if has_prefix line (codes "- ")
    then record s { steps = flush s; cur = some (start_step line) }
    else record s { cur = Option.map (set_pair (cut 58 line)) s.cur }

-- `bufio.Scanner` refuses a line that fills its buffer of 64 KB.
pub parse_lines : List Text → Parser → Result PipelineError Parser
unfolding parse_line
parse_lines [] s = ok s
parse_lines (line ∷ lines) s =
    let rest = parse_lines lines (parse_line (trim_suffix line (codes "\r")) s) in
    if leb 65536 (length line) then err line_too_long else rest

abbrev pub empty_pipeline : Pipeline
empty_pipeline = record { name = []; steps = [] }

finish : Result PipelineError Parser → Pipeline × Option PipelineError
finish (err e) = (empty_pipeline, some e)
finish (ok s) =
    let p : Pipeline = record {
      name = if is_empty s.name then codes "pipeline" else s.name;
      steps = flush s;
    } in
    (p, validate_pipeline p)

-- `ParsePipeline`: the pipeline and the error.
pub parse_pipeline : Text → Pipeline × Option PipelineError
unfolding finish parse_lines split
parse_pipeline raw =
    finish (parse_lines (split 10 raw) (record { name = []; steps = []; cur = none }))
