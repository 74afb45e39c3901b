-- ===== src/Orchestrator/Supervisor.antt =====
-- internal/orchestrator/types.go: `Supervisor.Dispatch`, with its limits on depth and children.
-- Contexts and timeouts are not modelled: `run_child` may return any error.
pub mod Limited
use ai_agent_cloud_runtime.Prelude.{
  ℕ, suc, ◌+◌, Bool, Option, none, some, List, [], ◌∷◌, ◌++◌, Result, ok, err, leb, if◌then◌else◌,
}
use ai_agent_cloud_runtime.Prelude.Int.{ℤ, default_pos}
use ai_agent_cloud_runtime.Prelude.Text.{Text, codes, is_empty, trim_space}
use ai_agent_cloud_runtime.Prelude.Maps.{TextMap, lookup_or, insert}
use ai_agent_cloud_runtime.Prelude.Act.{Act, pure, call, try, ◌>>=◌, ◌>>◌}

pub record SubagentRequest : Type 0 where
  pub role : Text
  pub task : Text
  pub output_schema : Text

pub record SubagentResult : Type 0 where
  pub child_run_id : Text
  pub role : Text
  pub summary : Text
  pub status : Text
  pub error : Text

pub record ChildRunRequest : Type 0 where
  pub parent_run_id : Text
  pub child_run_id : Text
  pub trace_id : Text
  pub user_id : Text
  pub model : Text
  pub role : Text
  pub task : Text
  pub depth : ℕ

pub record Limits : Type 0 where
  pub max_depth : ℤ
  pub max_children : ℤ

-- The number of children that each run has dispatched, beside the rest of the world.
pub record Supervised (W : Type 0) : Type 0 where
  pub children : TextMap ℕ
  pub world : W

abbrev pub on_world : {V W A : Type 0} → (W → A × W) → Act V (Supervised W) A
on_world op = call (λ s. let (a, w) = op s.world in (a, record s { world = w }))

abbrev pub err_max_depth : Text
err_max_depth = codes "subagent max depth exceeded"

abbrev pub err_max_children : Text
err_max_children = codes "subagent max children exceeded"

abbrev pub refused : Text → Text → SubagentResult
refused role message = record {
  child_run_id = [];
  role = role;
  summary = [];
  status = codes "error";
  error = message;
}

abbrev pub or_else : Text → Text → Text
or_else t d = if is_empty t then d else t

-- What `Dispatch` returns for the answer of `RunChild`: the result and the error.
unfoldable pub settle : Text → Text → Result Text SubagentResult → SubagentResult × Option Text
settle child role (err e) = (record (refused role e) { child_run_id = child }, some e)
settle child role (ok res) = (
  record res {
    child_run_id = or_else res.child_run_id child;
    role = or_else res.role role;
    status = or_else res.status (codes "ok");
  },
  none,
)

abbrev pub child_task : SubagentRequest → Text
child_task req =
    if is_empty req.output_schema
    then trim_space req.task
    else trim_space req.task
      ++ (codes "\n\nReturn output matching this JSON schema:\n" ++ req.output_schema)

module _ {V W : Type 0} (new_run_id : W → Text × W) where
  -- `s.Children[parentRunID]++` and the call of `RunChild`
  unfoldable pub launch :
      (ChildRunRequest → Act V (Supervised W) SubagentResult)
      → (parent trace user model : Text) (depth : ℕ) (req : SubagentRequest)
      → Act V (Supervised W) (SubagentResult × Option Text)
  launch run_child parent trace user model depth req = do
    call (λ s. (
      tt,
      record s { children = insert parent (suc (lookup_or 0 parent s.children)) s.children },
    ))
    child ← on_world new_run_id
    let role = or_else (trim_space req.role) (codes "subagent")
    answer ← try (
        run_child (record {
          parent_run_id = parent;
          child_run_id = child;
          trace_id = trace;
          user_id = user;
          model = model;
          role = role;
          task = child_task req;
          depth = depth + 1;
        }))
    pure (settle child role answer)

  -- `runner` is `none` where the supervisor or its `Runner` is nil.
  unfoldable pub dispatch :
      Option (ChildRunRequest → Act V (Supervised W) SubagentResult)
      → Limits
      → (parent trace user model : Text) (depth : ℕ) (req : SubagentRequest)
      → Act V (Supervised W) (SubagentResult × Option Text)
  dispatch none limits parent trace user model depth req s =
      pure (refused [] (codes "supervisor disabled"), none) s
  dispatch (some run_child) limits parent trace user model depth req s =
      if leb (default_pos limits.max_depth 2) depth
      then pure (refused req.role err_max_depth, some err_max_depth) s
      else if leb (default_pos limits.max_children 4) (lookup_or 0 parent s.children)
      then pure (refused req.role err_max_children, some err_max_children) s
      else launch run_child parent trace user model depth req s
