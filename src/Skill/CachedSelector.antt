-- ===== src/Skill/CachedSelector.antt =====
-- internal/skill/selector.go: `CachedSelector`. Times are numbers; the entries of the map stand in
-- the order in which the loop of `evictLocked` meets them. The lock is not modelled: the selector
-- behind the cache runs outside it, and here nothing else changes the map meanwhile.
pub mod Transparent
use ai_agent_cloud_runtime.Prelude.{
  ℕ, zero, suc, ◌+◌, Bool, true, false, Option, none, some, List, [], ◌∷◌, Result, ok, err, length,
  ltb, ◌==◌, if◌then◌else◌,
}
use ai_agent_cloud_runtime.Prelude.Int.{ℤ, default_pos}
use ai_agent_cloud_runtime.Prelude.Text.{Text}
use ai_agent_cloud_runtime.Prelude.Maps.{TextMap, lookup, insert, delete}

pub record Skill : Type 0 where
  pub name : Text
  pub description : Text
  pub sha256 : Text
  pub path : Text
  pub content : Text

pub record CacheEntry : Type 0 where
  pub expires : ℕ
  pub hit_at : ℕ
  pub skills : List Skill

-- The key of the entry that was used the longest time ago, the first one of equals: `key` has been
-- met with `oldest` so far.
unfoldable pub oldest_from : (key : Text) (oldest : ℕ) → TextMap CacheEntry → Text
oldest_from key oldest [] = key
oldest_from key oldest ((k, ent) ∷ m) =
    let this = oldest_from k ent.hit_at m in
    let that = oldest_from key oldest m in if ltb ent.hit_at oldest then this else that

unfoldable pub oldest_key : TextMap CacheEntry → Text
unfolding oldest_from
oldest_key [] = []
oldest_key ((k, ent) ∷ m) = oldest_from k ent.hit_at m

-- `evictLocked`, for at most `fuel` rounds.
unfoldable pub evict : (fuel capacity : ℕ) → TextMap CacheEntry → TextMap CacheEntry
evict zero capacity m = m
evict (suc fuel) capacity m =
    let rest = evict fuel capacity (delete (oldest_key m) m) in
    if ltb capacity (length m) then rest else m

-- `evictLocked`: each round takes an entry away.
unfoldable pub evict_locked : (capacity : ℕ) → TextMap CacheEntry → TextMap CacheEntry
unfolding evict
evict_locked capacity m = evict (length m) capacity m

module _ {W : Type 0} (next : Text → W → Result Text (List Skill) × W) (now : W → ℕ × W)
    (cache_key : Text → Text) (ttl : ℕ) (capacity : ℕ) where
  -- The answer of the selector behind the cache.
  unfoldable pub remember :
      (key : Text) (at : ℕ) → Result Text (List Skill) → TextMap CacheEntry → TextMap CacheEntry
  unfolding evict_locked
  remember key at (err e) m = m
  remember key at (ok skills) m =
      evict_locked capacity
        (insert key (record { expires = at + ttl; hit_at = at; skills = skills }) m)

  unfoldable pub ask :
      (key query : Text) (at : ℕ)
      → TextMap CacheEntry
      → W
      → Result Text (List Skill) × TextMap CacheEntry × W
  unfolding remember
  ask key query at m w = let (r, w') = next query w in (r, remember key at r m, w')

  unfoldable pub answer :
      Option CacheEntry
      → (key query : Text) (at : ℕ) → TextMap CacheEntry
      → W
      → Result Text (List Skill) × TextMap CacheEntry × W
  answer none key query at m w = ask key query at m w
  answer (some ent) key query at m w =
      if ltb at ent.expires
      then (ok ent.skills, insert key (record ent { hit_at = at }) m, w)
      else ask key query at m w

  -- `Select` of a cache whose `TTL` or `Capacity` is not positive, and of one with both.
  unfoldable pub select :
      Text → TextMap CacheEntry → W → Result Text (List Skill) × TextMap CacheEntry × W
  unfolding answer
  select query m w =
      if ttl == 0
      then (let (r, w') = next query w in (r, m, w'))
      else if capacity == 0
      then (let (r, w') = next query w in (r, m, w'))
      else (let (at, w') = now w in
          answer (lookup (cache_key query) m) (cache_key query) query at m w')
