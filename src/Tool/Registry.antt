-- ===== src/Tool/Registry.antt =====
-- internal/tool/tool.go: results, descriptors and the registry of tools. A tool is its descriptor and
-- its `Invoke`, in a sandbox of type `S` and a world `W`.
pub mod Names
use ai_agent_cloud_runtime.Prelude.{
  ℕ, Bool, Option, none, some, List, [], ◌∷◌, ◌++◌, Result, ok, err, if◌then◌else◌,
}
use ai_agent_cloud_runtime.Prelude.Int.{ℤ}
use ai_agent_cloud_runtime.Prelude.Text.{Text, codes, is_empty, text_eq, text_lt}
use ai_agent_cloud_runtime.Prelude.Maps.{TextMap, lookup, insert}

-- a value of `Metadata`: an `int`, or the JSON text of anything else
pub data MetaValue : Type 0 where
  int_value : ℤ → MetaValue
  json_value : Text → MetaValue

-- `tool.Result`
pub record ToolResult : Type 0 where
  pub content : Text
  pub is_error : Bool
  pub metadata : TextMap MetaValue

pub record Descriptor : Type 0 where
  pub name : Text
  pub description : Text
  pub schema : Text

pub record Tool (W S : Type 0) : Type 0 where
  pub descriptor : Descriptor
  pub invoke : S → Text → W → Result Text ToolResult × W

abbrev pub Registry : Type 0 → Type 0 → Type 0
Registry W S = TextMap (Tool W S)

module _ {W S : Type 0} where
  -- `Register`: the registry, and the error (of a name in which `%q` escapes nothing)
  unfoldable pub register : Tool W S → Registry W S → Registry W S × Option Text
  register t m =
      if is_empty t.descriptor.name
      then (m, some (codes "tool: empty name"))
      else elim (lookup t.descriptor.name m) [
        | some _ ↦ (m, some (codes "tool: duplicate \"" ++ (t.descriptor.name ++ codes "\"")))
        | none ↦ (insert t.descriptor.name t m, none)
      ]

  -- the errors of `Register` are ignored by `Builtins`
  unfoldable pub register_all : List (Tool W S) → Registry W S → Registry W S
  unfolding register
  register_all [] m = m
  register_all (t ∷ ts) m = register_all ts (register t m).0

  -- `Builtins`
  abbrev pub builtins : List (Tool W S) → Registry W S
  builtins tools = register_all tools []

  -- `Get`
  abbrev pub get : Text → Registry W S → Option (Tool W S)
  get name m = lookup name m

  descriptors : Registry W S → List Descriptor
  descriptors [] = []
  descriptors ((k, t) ∷ m) = t.descriptor ∷ descriptors m

insert_descriptor : Descriptor → List Descriptor → List Descriptor
insert_descriptor d [] = d ∷ []
insert_descriptor d (x ∷ xs) =
    if text_lt x.name d.name then x ∷ insert_descriptor d xs else d ∷ x ∷ xs

-- `sort.Slice` by name
sort_descriptors : List Descriptor → List Descriptor
unfolding insert_descriptor
sort_descriptors [] = []
sort_descriptors (d ∷ ds) = insert_descriptor d (sort_descriptors ds)

-- `List`
unfoldable pub list_tools : {W S : Type 0} → Registry W S → List Descriptor
unfolding descriptors sort_descriptors
list_tools m = sort_descriptors (descriptors m)
