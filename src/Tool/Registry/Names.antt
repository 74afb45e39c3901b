-- ===== src/Tool/Registry/Names.antt =====
-- Which tool a registry gives for a name.
use ai_agent_cloud_runtime.Prelude.{
  ◌≡◌, not, ◌&&◌, Option, none, some, List, [], ◌∷◌, if◌then◌else◌, arith,
}
use ai_agent_cloud_runtime.Prelude.Text.{Text, text_eq, text_eq_iff, is_empty}
use ai_agent_cloud_runtime.Prelude.Maps.{lookup-insert}
use ai_agent_cloud_runtime.Tool.Registry.{Tool, Registry, register, register_all, get}

module _ {W S : Type 0} where
  -- the first tool of a name, which is not empty
  abbrev pub first_named : Text → List (Tool W S) → Option (Tool W S)
  first_named name [] = none
  first_named name (t ∷ ts) =
      if text_eq t.descriptor.name name && not (is_empty t.descriptor.name)
      then some t
      else first_named name ts

  abbrev pub or_else : Option (Tool W S) → Option (Tool W S) → Option (Tool W S)
  or_else (some t) u = some t
  or_else none u = u

  get-register :
      (name : Text) (t : Tool W S) (m : Registry W S)
      → get name (register t m).0 ≡ or_else (get name m) (first_named name (t ∷ []))
  unfolding register
  get-register name t m =
      ground (arith, lookup-insert t.descriptor.name name t m, text_eq_iff t.descriptor.name name)

  -- After some tools have been registered a name gives the tool that it gave before, or else the
  -- first of them with this name: no tool replaces another, and none has the empty name.
  pub get-register_all :
      (name : Text) (ts : List (Tool W S)) (m : Registry W S)
      → get name (register_all ts m) ≡ or_else (get name m) (first_named name ts)
  unfolding register_all
  get-register_all name [] m = ground arith
  get-register_all name (t ∷ ts) m =
      ground (arith, get-register_all name ts (register t m).0, get-register name t m)
