-- ===== src/Skill/Tests.antt =====
-- Concrete selections.
use ai_agent_cloud_runtime.Prelude.{ℕ, suc, ◌≡◌, refl, some, List, [], ◌∷◌, Result, ok, arith}
use ai_agent_cloud_runtime.Prelude.Text.{Text, codes, text_eq_iff}
use ai_agent_cloud_runtime.Prelude.Maps.{TextMap, lookup}
use ai_agent_cloud_runtime.Skill.CachedSelector.{Skill, CacheEntry, select}
use ai_agent_cloud_runtime.Skill.CachedSelector.Transparent.{IsEntry, Answers, select-Answers}

abbrev chosen : Text → List Skill
chosen key = record { name = key; description = []; sha256 = []; path = []; content = [] } ∷ []

abbrev next : Text → ℕ → Result Text (List Skill) × ℕ
next query w = (ok (chosen query), suc w)

abbrev now : ℕ → ℕ × ℕ
now w = (w, suc w)

-- An entry of another query, in a cache of one entry.
abbrev entries : TextMap CacheEntry
entries = (codes "b", record { expires = 3; hit_at = 1; skills = chosen (codes "b") }) ∷ []

entries-Valid :
    (k : Text) (e : CacheEntry) → lookup k entries ≡ some e → IsEntry next now (λ q. q) 2 1 k e
unfolding lookup
entries-Valid k e h =
    (1, ground (arith, h), (k, 1, refl, refl, ground (arith, h, text_eq_iff (codes "b") k)))

abbrev selected : Result Text (List Skill) × TextMap CacheEntry × ℕ
selected = select next now (λ q. q) 2 1 (codes "a") entries 2

select-Answers_example : Answers next now (λ q. q) 2 1 (codes "a") entries 2 selected
select-Answers_example =
    select-Answers next now (λ q. q) 2 1 (codes "a") entries 2 (entries-Valid, omega arith)
