-- ===== src/Prelude/Maps.antt =====
-- A Go map with string keys as an association list: the first entry of a key counts.
use mathlib.Core.Path.{◌≡◌, refl}
use mathlib.Core.List.{List, [], ◌∷◌}
use mathlib.Core.Option.{Option, none, some}
use native.Mathlib.Omega.{arith}
use ai_agent_cloud_runtime.Prelude.Tests.{if◌then◌else◌}
use ai_agent_cloud_runtime.Prelude.Text.{Text, text_eq, text_eq_iff}

abbrev pub TextMap : Type 0 → Type 0
TextMap V = List (Text × V)

module _ {V : Type 0} where
  unfoldable pub lookup : Text → TextMap V → Option V
  lookup k [] = none
  lookup k ((j, v) ∷ m) = if text_eq j k then some v else lookup k m

  unfoldable pub insert : Text → V → TextMap V → TextMap V
  insert k v [] = (k, v) ∷ []
  insert k v ((j, w) ∷ m) = if text_eq j k then (k, v) ∷ m else (j, w) ∷ insert k v m

  pub lookup-insert :
      (k j : Text) (v : V) (m : TextMap V)
      → lookup j (insert k v m) ≡ (if text_eq k j then some v else lookup j m)
  unfolding lookup insert
  lookup-insert k j v [] = refl
  lookup-insert k j v ((i, w) ∷ m) =
      ground (arith, text_eq_iff k j, text_eq_iff i k, text_eq_iff i j, lookup-insert k j v m)

  -- `delete(m, k)`
  unfoldable pub delete : Text → TextMap V → TextMap V
  delete k [] = []
  delete k ((j, w) ∷ m) = if text_eq j k then delete k m else (j, w) ∷ delete k m

  pub lookup-delete :
      (k j : Text) (m : TextMap V)
      → lookup j (delete k m) ≡ (if text_eq k j then none else lookup j m)
  unfolding lookup delete
  lookup-delete k j [] = ground arith
  lookup-delete k j ((i, w) ∷ m) =
      ground (arith, text_eq_iff k j, text_eq_iff i k, text_eq_iff i j, lookup-delete k j m)

-- A missing key reads as the zero value.
unfoldable pub lookup_or : {V : Type 0} → V → Text → TextMap V → V
unfolding lookup
lookup_or d k m = elim (lookup k m) [ none ↦ d | some v ↦ v ]

pub lookup_or-insert :
    {V : Type 0} (d : V) (k j : Text) (v : V) (m : TextMap V)
    → lookup_or d j (insert k v m) ≡ (if text_eq k j then v else lookup_or d j m)
unfolding lookup_or
lookup_or-insert d k j v m = ground (arith, lookup-insert k j v m)
