-- ===== src/Llm/OpenAi/Calls.antt =====
-- `toolCallBuilder` and `builtToolCalls` of internal/llm/openai.go: the fragments of tool calls are
-- joined by their index.
use ai_agent_cloud_runtime.Prelude.{
  Bool, false, Option, none, some, List, [], ◌∷◌, ◌++◌, ◌==◌, if◌then◌else◌,
}
use ai_agent_cloud_runtime.Prelude.Int.{ℤ, pos, negsuc}
use ai_agent_cloud_runtime.Prelude.Text.{Text, codes, is_empty}
use ai_agent_cloud_runtime.Agent.Types.{ToolCall}

-- A fragment in a chunk.
pub record ToolDelta : Type 0 where
  pub index : ℤ
  pub id : Text
  pub type : Text
  pub name : Text
  pub arguments : Text

unfoldable pub int_eq : ℤ → ℤ → Bool
int_eq (pos m) (pos n) = m == n
int_eq (negsuc m) (negsuc n) = m == n
int_eq (pos m) (negsuc n) = false
int_eq (negsuc m) (pos n) = false

-- `order` and `builders`; a builder has the fields of a call.
pub record CallBuilders : Type 0 where
  pub order : List ℤ
  pub builders : List (ℤ × ToolCall)

abbrev pub no_calls : CallBuilders
no_calls = record { order = []; builders = [] }

unfoldable pub builder_at : ℤ → List (ℤ × ToolCall) → Option ToolCall
builder_at i [] = none
builder_at i ((j, b) ∷ bs) = if int_eq j i then some b else builder_at i bs

unfoldable pub set_builder : ℤ → ToolCall → List (ℤ × ToolCall) → List (ℤ × ToolCall)
set_builder i b [] = (i, b) ∷ []
set_builder i b ((j, c) ∷ bs) = if int_eq j i then (i, b) ∷ bs else (j, c) ∷ set_builder i b bs

abbrev pub new_or : Text → Text → Text
new_or old new = if is_empty new then old else new

-- a fragment written into its builder
unfoldable pub add_fragment : ToolDelta → ToolCall → ToolCall
add_fragment d b = record {
  id = new_or b.id d.id;
  type = new_or b.type d.type;
  name = new_or b.name d.name;
  arguments = b.arguments ++ d.arguments;
}

abbrev pub blank_call : ToolCall
blank_call = record { id = []; type = []; name = []; arguments = [] }

unfoldable pub add_to : ToolDelta → Option ToolCall → CallBuilders → CallBuilders
unfolding add_fragment set_builder
add_to d (some b) c = record c { builders = set_builder d.index (add_fragment d b) c.builders }
add_to d none c = record {
  order = c.order ++ d.index ∷ [];
  builders = set_builder d.index (add_fragment d blank_call) c.builders;
}

-- the loop over the fragments of a choice
unfoldable pub add_deltas : List ToolDelta → CallBuilders → CallBuilders
unfolding add_to
add_deltas [] c = c
add_deltas (d ∷ ds) c = add_deltas ds (add_to d (builder_at d.index c.builders) c)

abbrev pub typed_call : ToolCall → ToolCall
typed_call b = record b { type = if is_empty b.type then codes "function" else b.type }

unfoldable pub build_each : List ℤ → List (ℤ × ToolCall) → List ToolCall
build_each [] builders = []
build_each (i ∷ is) builders =
    let rest = build_each is builders in
    elim (builder_at i builders) [ none ↦ rest | some b ↦ typed_call b ∷ rest ]

-- `builtToolCalls`
unfoldable pub built_calls : CallBuilders → List ToolCall
unfolding build_each
built_calls c = build_each c.order c.builders
