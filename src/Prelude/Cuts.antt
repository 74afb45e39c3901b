-- ===== src/Prelude/Cuts.antt =====
-- What the program uses of package strings to take a text apart at a byte or at a set of bytes.
use Prim.Native.Nat.{ℕ}
use mathlib.Core.Bool.{Bool, false, ◌||◌}
use mathlib.Core.List.{List, [], ◌∷◌, reverse}
use mathlib.Core.Option.{Option, none, some}
use ai_agent_cloud_runtime.Prelude.Tests.{◌==◌, if◌then◌else◌}
use ai_agent_cloud_runtime.Prelude.Lists.{length, drop}
use ai_agent_cloud_runtime.Prelude.Text.{Text, has_prefix}

unfoldable pub mem : ℕ → Text → Bool
mem c [] = false
mem c (x ∷ xs) = c == x || mem c xs

-- `strings.TrimLeft`, `strings.TrimRight` and `strings.Trim` for an ASCII set
unfoldable pub trim_left : Text → Text → Text
unfolding mem
trim_left cutset [] = []
trim_left cutset (c ∷ s) = if mem c cutset then trim_left cutset s else c ∷ s

unfoldable pub trim_right : Text → Text → Text
unfolding trim_left
trim_right cutset s = reverse (trim_left cutset (reverse s))

unfoldable pub trim : Text → Text → Text
unfolding trim_right
trim cutset s = trim_right cutset (trim_left cutset s)

-- `strings.TrimPrefix` and `strings.TrimSuffix`
unfoldable pub trim_prefix : Text → Text → Text
trim_prefix s prefix = if has_prefix s prefix then drop (length prefix) s else s

unfoldable pub trim_suffix : Text → Text → Text
unfolding trim_prefix
trim_suffix s suffix = reverse (trim_prefix (reverse s) (reverse suffix))

unfoldable pub push : ℕ → List Text → List Text
push c [] = (c ∷ []) ∷ []
push c (p ∷ ps) = (c ∷ p) ∷ ps

-- `strings.Split` at one byte
unfoldable pub split : ℕ → Text → List Text
unfolding push
split sep [] = [] ∷ []
split sep (c ∷ s) = let rest = split sep s in if c == sep then [] ∷ rest else push c rest

put_front : ℕ → Option (Text × Text) → Option (Text × Text)
put_front c none = none
put_front c (some (before, after)) = some (c ∷ before, after)

-- `strings.Cut` at one byte; `none` is its `found` of false.
unfoldable pub cut : ℕ → Text → Option (Text × Text)
unfolding put_front
cut sep [] = none
cut sep (c ∷ s) = let rest = cut sep s in if c == sep then some ([], s) else put_front c rest
