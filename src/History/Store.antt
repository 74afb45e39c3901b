-- ===== src/History/Store.antt =====
-- internal/history/redis_store.go: `RedisStore`. JSON and new ids are parameters.
use ai_agent_cloud_runtime.Prelude.{
  ℕ, ◌+◌, ◌%◌, ◌^◌, true, false, Option, none, some, List, [], ◌∷◌, ◌++◌, Result, ok, err, ◌==◌,
  if◌then◌else◌,
}
use ai_agent_cloud_runtime.Prelude.Text.{Text, codes, is_empty, text_lt}
use ai_agent_cloud_runtime.Prelude.Act.{Act, pure, raise, call, ◌>>=◌, ◌>>◌}
use ai_agent_cloud_runtime.Agent.Types.{HistoryMessage}
use ai_agent_cloud_runtime.History.Redis.{Command, hset, zadd, Redis, history_msgs, history_order}

abbrev pub err_not_found : Text
err_not_found = codes "history: message not found"

abbrev pub answered : {V W A : Type 0} → Text → Result Text A × W → Result Text A × List V × W
answered prefix (ok a, w) = (ok a, [], w)
answered prefix (err e, w) = (err (prefix ++ e), [], w)

-- a command, with `prefix` before its error
unfoldable pub command : {V W A : Type 0} → Text → (W → Result Text A × W) → Act V W A
command prefix op w = answered prefix (op w)

-- `encoding/json` on a message; a `Marshal` of one does not fail.
pub record Json : Type 0 where
  pub marshal : HistoryMessage → Text
  pub unmarshal : Text → Result Text HistoryMessage

-- `m.Version++` on a `uint32`
abbrev pub next_version : ℕ → ℕ
next_version v = (v + 1) % 2 ^ 32

unfoldable pub patched : Text → HistoryMessage → HistoryMessage
patched content m = record m { content = content; version = next_version m.version }

unfoldable pub hidden : HistoryMessage → HistoryMessage
hidden m = record m { visible = false; version = next_version m.version }

-- `Append` on a message with an id
unfoldable pub appended : HistoryMessage → HistoryMessage
appended m = record m { visible = true; version = if m.version == 0 then 1 else m.version }

unfoldable pub folded : (id lo hi summary : Text) → HistoryMessage
folded id lo hi summary = record {
  id = id;
  role = codes "assistant";
  content = summary;
  visible = true;
  version = 1;
  parent_id = [];
  tags = (codes "compacted", codes "true") ∷ (codes "fold_from", lo) ∷ (codes "fold_to", hi) ∷ [];
}

-- `if len(ids) == 0 { return "", ErrNotFound }`
unfoldable pub found : {V W : Type 0} → List Text → Act V W (Unit {0})
found [] = raise err_not_found
found (id ∷ ids) = pure tt

module _ (json : Json) where
  unfoldable pub decoded : {V W : Type 0} → Option Text → Act V W HistoryMessage
  decoded none = raise err_not_found
  decoded (some raw) = elim (json.unmarshal raw) [
    | ok m ↦ pure m
    | err e ↦ raise (codes "unmarshal: " ++ e)
  ]

  -- the messages that `Render` keeps of those read
  unfoldable pub visible_messages : List (Option Text) → List HistoryMessage
  visible_messages [] = []
  visible_messages (none ∷ raws) = visible_messages raws
  visible_messages (some raw ∷ raws) =
      let rest = visible_messages raws in
      elim (json.unmarshal raw) [ ok m ↦ if m.visible then m ∷ rest else rest | err e ↦ rest ]

  unfoldable pub save : Text → HistoryMessage → Command
  save run m = hset (history_msgs run) m.id (json.marshal m)

  unfoldable pub save_all : Text → List HistoryMessage → List Command
  unfolding save
  save_all run [] = []
  save_all run (m ∷ ms) = save run m ∷ save_all run ms

  -- a message with its place in the order
  unfoldable pub save_new : Text → HistoryMessage → List Command
  unfolding save
  save_new run m = save run m ∷ zadd (history_order run) m.id ∷ []

  module _ {V W : Type 0} (redis : Redis W) (new_run_id : W → Text × W) where
    -- `load`
    unfoldable pub load : (run id : Text) → Act V W HistoryMessage
    unfolding decoded
    load run id = do raw ← command [] (redis.hget (history_msgs run) id); decoded raw

    -- `Append` of a message whose id is not empty
    unfoldable pub append_as : (run : Text) → HistoryMessage → Act V W Text
    append_as run m = do
      command (codes "append: ") (redis.exec (save_new run (appended m)))
      pure m.id

    -- `Append`
    unfoldable pub append : (run : Text) → HistoryMessage → Act V W Text
    append run m =
        if is_empty m.id
        then (do id ← call new_run_id; append_as run (record m { id = id }))
        else append_as run m

    -- `saveLocked` after `load`
    unfoldable pub change : (run id : Text) → (HistoryMessage → HistoryMessage) → Act V W (Unit {0})
    change run id f = do m ← load run id; command [] (redis.exec (save run (f m) ∷ []))

    -- `Patch`
    unfoldable pub patch : (run id content : Text) → Act V W (Unit {0})
    patch run id content = change run id (patched content)

    -- `Hide`
    unfoldable pub hide : (run id : Text) → Act V W (Unit {0})
    hide run id = change run id hidden

    -- the loop of `Fold`: the visible messages of the range, hidden
    unfoldable pub load_hidden : Text → List Text → Act V W (List HistoryMessage)
    load_hidden run [] = pure []
    load_hidden run (id ∷ ids) = do
      m ← load run id
      rest ← load_hidden run ids
      pure (if m.visible then hidden m ∷ rest else rest)

    -- the summary and the transaction of `Fold`
    unfoldable pub fold_save : (run lo hi summary : Text) → List HistoryMessage → Act V W Text
    fold_save run lo hi summary ms = do
      id ← call new_run_id
      command (codes "fold: ")
          (redis.exec (save_all run ms ++ save_new run (folded id lo hi summary)))
      pure id

    -- `Fold` with the ends of the range in order
    unfoldable pub fold_range : (run lo hi summary : Text) → Act V W Text
    fold_range run lo hi summary = do
      ids ← command [] (redis.zrange (history_order run) lo hi)
      found ids
      ms ← load_hidden run ids
      fold_save run lo hi summary ms

    -- `Fold`
    unfoldable pub fold : (run from to summary : Text) → Act V W Text
    fold run from to summary = do
      load run from
      load run to
      if text_lt to from then fold_range run to from summary else fold_range run from to summary

    -- `Render` after the ids have been read
    unfoldable pub render_ids : (run : Text) → List Text → Act V W (List HistoryMessage)
    render_ids run [] = pure []
    render_ids run (id ∷ ids) = do
      raws ← command [] (redis.hmget (history_msgs run) (id ∷ ids))
      pure (visible_messages raws)

    -- `Render`
    unfoldable pub render : (run : Text) → Act V W (List HistoryMessage)
    render run = do ids ← command [] (redis.zrange_all (history_order run)); render_ids run ids
