-- ===== src/Acp/EventCache.antt =====
-- internal/acp/eventcache.go: the cache of a run's events in a sorted set of Redis. A member of the
-- set is a payload followed by the eight bytes of its sequence number.
pub mod Replay
use ai_agent_cloud_runtime.Prelude.{
  ℕ, ◌-◌, Option, none, some, List, [], ◌∷◌, ◌++◌, Result, ok, err, length, take, drop, ltb,
  if◌then◌else◌,
}
use ai_agent_cloud_runtime.Prelude.Text.{Text, codes}
use ai_agent_cloud_runtime.Acp.Codec.{put_uint64, uint64_be}

pub record CachedEvent : Type 0 where
  pub seq : ℕ
  pub payload : List ℕ

unfoldable pub encode_member : ℕ → List ℕ → List ℕ
encode_member seq payload = payload ++ put_uint64 seq

-- The results `ok` and `!ok`.
unfoldable pub decode_member : List ℕ → Option CachedEvent
decode_member s =
    if ltb (length s) 8
    then none
    else some (record { seq = uint64_be (drop (length s - 8) s); payload = take (length s - 8) s })

-- The loop of `Replay` over the members that Redis returns.
unfoldable pub decode_members : List (List ℕ) → List CachedEvent
decode_members [] = []
decode_members (m ∷ ms) = elim (decode_member m) [
  | none ↦ decode_members ms
  | some ev ↦ ev ∷ decode_members ms
]

-- The two commands of Redis that the cache calls: `ZADD key score member`, and the members with a
-- score above a bound, in the order of their scores.
pub record SortedSets (W : Type 0) : Type 0 where
  pub zadd : (key : Text) (score : ℕ) (member : List ℕ) → W → Option Text × W
  pub zrangebyscore : (key : Text) (above : ℕ) → W → Result Text (List (List ℕ)) × W

abbrev pub cache_key : Text → Text
cache_key run_id = codes "acp:events:" ++ run_id

abbrev pub prefixed_error : Text → Option Text → Option Text
prefixed_error prefix none = none
prefixed_error prefix (some e) = some (prefix ++ e)

abbrev pub prefixed_result : Text → Result Text (List (List ℕ)) → Result Text (List CachedEvent)
prefixed_result prefix (ok members) = ok (decode_members members)
prefixed_result prefix (err e) = err (prefix ++ e)

module _ {W : Type 0} (sets : SortedSets W) where
  -- `Append`. The expiry of the key is not modelled.
  unfoldable pub append_event : (run_id : Text) (seq : ℕ) (payload : List ℕ) → W → Option Text × W
  append_event run_id seq payload w =
      let (e, w') = sets.zadd (cache_key run_id) seq (encode_member seq payload) w in
      (prefixed_error (codes "zadd: ") e, w')

  -- `Replay`
  unfoldable pub replay : (run_id : Text) (since_seq : ℕ) → W → Result Text (List CachedEvent) × W
  replay run_id since_seq w =
      let (r, w') = sets.zrangebyscore (cache_key run_id) since_seq w in
      (prefixed_result (codes "zrangebyscore: ") r, w')
