-- ===== src/History/Redis.antt =====
-- The commands of Redis that internal/history uses: hashes, sorted sets whose members have one score,
-- and transactions (internal/storage/redis/keys.go names the keys). What they do is documented
-- behaviour of Redis: the record `Obeys` states it of the commands that succeed.
use ai_agent_cloud_runtime.Prelude.{
  ◌&&◌, not, Option, some, List, [], ◌∷◌, map, Result, ok, if◌then◌else◌, ◌≡◌, ◌++◌,
}
use ai_agent_cloud_runtime.Prelude.Text.{Text, codes, text_eq, text_lt}

-- a write within a transaction
pub data Command : Type 0 where
  hset : (key field value : Text) → Command
  zadd : (key member : Text) → Command

-- What Redis holds: the fields of hashes, and the members of sorted sets in lexical order.
pub record View : Type 0 where
  pub hash : Text → Text → Option Text
  pub order : Text → List Text

-- A member stands once in its set, in lexical order.
unfoldable pub insert_member : Text → List Text → List Text
insert_member m [] = m ∷ []
insert_member m (x ∷ xs) =
    if text_eq x m then x ∷ xs else if text_lt x m then x ∷ insert_member m xs else m ∷ x ∷ xs

unfoldable pub update : {A : Type 0} → Text → A → (Text → A) → Text → A
update k a f j = if text_eq k j then a else f j

unfoldable pub apply : Command → View → View
apply (hset k f v) s = record s { hash = update k (update f (some v) (s.hash k)) s.hash }
apply (zadd k m) s = record s { order = update k (insert_member m (s.order k)) s.order }

unfoldable pub apply_all : List Command → View → View
apply_all [] s = s
apply_all (c ∷ cs) s = apply_all cs (apply c s)

-- `[lo [hi` as bounds of `ZRangeByLex`
unfoldable pub in_range : Text → Text → List Text → List Text
in_range lo hi [] = []
in_range lo hi (x ∷ xs) =
    let rest = in_range lo hi xs in
    if not (text_lt x lo) && not (text_lt hi x) then x ∷ rest else rest

-- The commands, in a world that holds Redis beside all else; each may fail.
pub record Redis (W : Type 0) : Type 0 where
  -- `TxPipeline` and `Exec`
  pub exec : List Command → W → Result Text (Unit {0}) × W
  -- `HGet`: `none` is `redis.Nil`
  pub hget : (key field : Text) → W → Result Text (Option Text) × W
  -- `HMGet`
  pub hmget : (key : Text) (fields : List Text) → W → Result Text (List (Option Text)) × W
  -- `ZRangeByLex` from - to +, and between two members
  pub zrange_all : (key : Text) → W → Result Text (List Text) × W
  pub zrange : (key lo hi : Text) → W → Result Text (List Text) × W

-- What a command that succeeds has done, and that reads change nothing.
pub record Obeys {W : Type 0} (redis : Redis W) (view : W → View) : Type 0 where
  pub exec_applies :
      (cs : List Command) (w : W) {w' : W}
      → redis.exec cs w ≡ (ok tt, w')
      → view w' ≡ apply_all cs (view w)
  pub hget_reads :
      (k f : Text) (w : W) {r : Option Text} {w' : W}
      → redis.hget k f w ≡ (ok r, w')
      → (r ≡ (view w).hash k f) × (view w' ≡ view w)
  pub hmget_reads :
      (k : Text) (fs : List Text) (w : W) {r : List (Option Text)} {w' : W}
      → redis.hmget k fs w ≡ (ok r, w')
      → (r ≡ map ((view w).hash k) fs) × (view w' ≡ view w)
  pub zrange_all_reads :
      (k : Text) (w : W) {r : List Text} {w' : W}
      → redis.zrange_all k w ≡ (ok r, w')
      → (r ≡ (view w).order k) × (view w' ≡ view w)
  pub zrange_reads :
      (k lo hi : Text) (w : W) {r : List Text} {w' : W}
      → redis.zrange k lo hi w ≡ (ok r, w')
      → (r ≡ in_range lo hi ((view w).order k)) × (view w' ≡ view w)

abbrev pub history_msgs : Text → Text
history_msgs run = codes "history:" ++ (run ++ codes ":msgs")

abbrev pub history_order : Text → Text
history_order run = codes "history:" ++ (run ++ codes ":order")
