-- ===== src/Prelude/Substrings.antt =====
-- What the program uses of package strings on parts of a string.
use Prim.Native.Nat.{ℕ, zero, suc, ◌+◌, ◌-◌}
use mathlib.Core.Bool.{Bool, ◌&&◌, ◌||◌}
use mathlib.Core.List.{[], ◌∷◌, ◌++◌, map}
use ai_agent_cloud_runtime.Prelude.Tests.{leb, if◌then◌else◌}
use ai_agent_cloud_runtime.Prelude.Lists.{length}
use ai_agent_cloud_runtime.Prelude.Text.{Text, codes, has_prefix}

-- `strings.Contains`
unfoldable pub contains : Text → Text → Bool
contains [] needle = has_prefix [] needle
contains (c ∷ s) needle = has_prefix (c ∷ s) needle || contains s needle

-- The loop of `replace_all`, with `k` characters of the last occurrence still to be dropped.
unfoldable pub replace_from : ℕ → (s old new : Text) → Text
replace_from k [] old new = []
replace_from (suc k) (c ∷ s) old new = replace_from k s old new
replace_from zero (c ∷ s) old new =
    let found = replace_from (length old - 1) s old new in
    let rest = replace_from zero s old new in
    if has_prefix (c ∷ s) old then new ++ found else c ∷ rest

-- `strings.ReplaceAll` where `old` is not empty.
unfoldable pub replace_all : (s old new : Text) → Text
unfolding replace_from
replace_all = replace_from 0

-- `strings.ToLower`, as far as its result is ASCII: the letters A to Z, and the two other characters
-- whose lower case is an ASCII letter, U+212A (k) and U+0130 (i).
unfoldable pub to_lower : Text → Text
unfolding replace_all
to_lower s =
    let ascii = map (λ c. if leb 65 c && leb c 90 then c + 32 else c) s in
    replace_all (replace_all ascii (0xe2 ∷ 0x84 ∷ 0xaa ∷ []) (codes "k")) (0xc4 ∷ 0xb0 ∷ [])
      (codes "i")
