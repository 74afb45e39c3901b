-- ===== src/Queue/Consumer.antt =====
-- internal/queue/stream.go and tool_stream.go: `Consume` and `deadLetter` of the two task queues, which
-- differ in their type of task, their streams and the default of `maxRetry`. Redis is the record
-- `Streams`, whose commands may fail; the calls of the handler and the commands that change a stream
-- are the events of a run.
pub mod Acks
pub mod Retries
mod Tests
use ai_agent_cloud_runtime.Prelude.{
  ℕ, zero, suc, ◌+◌, Bool, true, false, ◌||◌, Option, none, some, List, [], ◌∷◌, ◌++◌, Result, ok,
  err, leb, if◌then◌else◌,
}
use ai_agent_cloud_runtime.Prelude.Int.{ℤ, default_pos}
use ai_agent_cloud_runtime.Prelude.Text.{Text, codes}
use ai_agent_cloud_runtime.Prelude.Substrings.{contains}
use ai_agent_cloud_runtime.Prelude.Act.{Act, pure, call, emit, try, ◌>>=◌, ◌>>◌}
use ai_agent_cloud_runtime.Queue.Event.{Task}

-- `queue.ToolTask`
pub record ToolTask : Type 0 where
  pub call_id : Text
  pub user_id : Text
  pub tool : Text
  pub args_json : Text
  pub timeout_ms : ℤ
  pub trace_id : Text
  pub attempt : ℕ

-- An entry of a stream: its id, and its field `task` if it has one.
pub record Entry : Type 0 where
  pub id : Text
  pub task : Option Text

-- what a consumer does
pub data Effect (T : Type 0) : Type 0 where
  -- a call of the handler, and its error if it returned one
  handled : (id : Text) (task : T) (answer : Option Text) → Effect T
  -- `XAdd` to the stream, and whether it succeeded
  requeued : (payload : Text) (stored : Bool) → Effect T
  -- `XAdd` to the dead letter stream
  buried : (raw error from : Text) (stored : Bool) → Effect T
  acked : (id : Text) → Effect T

-- a type of tasks: its JSON, and its count of attempts
pub record TaskType (T : Type 0) : Type 0 where
  pub marshal : T → Text
  pub unmarshal : Text → Result Text T
  pub attempt : T → ℕ
  pub set_attempt : ℕ → T → T

pub data ReadError : Type 0 where
  redis_nil canceled failed : ReadError

-- The commands that a consumer uses, bound to its stream, group and name.
pub record Streams (W : Type 0) : Type 0 where
  -- `XReadGroup`: the entries of each stream that it returns
  pub read : W → Result ReadError (List (List Entry)) × W
  pub add_task : (payload : Text) → W → Result Text Text × W
  pub add_dead : (raw error from : Text) → W → Result Text Text × W
  pub ack : (id : Text) → W → Bool × W
  -- `ctx.Err() != nil`
  pub is_done : W → Bool × W
  -- half a second, unless the context ends before
  pub backoff : W → Bool × W

abbrev pub is_ok : {A : Type 0} → Result Text A → Bool
is_ok (ok a) = true
is_ok (err e) = false

-- `isBusyGroup` on the text of an error, and `EnsureGroup`
unfoldable pub is_busy_group : Text → Bool
is_busy_group e = contains e (codes "BUSYGROUP")

abbrev pub group_error : Text → Option Text → Option Text
group_error prefix none = none
group_error prefix (some e) = if is_busy_group e then none else some (prefix ++ e)

-- `true` ends the loop
abbrev pub stop_or : {T W : Type 0} → Bool → Act (Effect T) W Bool → Act (Effect T) W Bool
stop_or true next = pure true
stop_or false next = next

module _ {T W : Type 0} (tasks : TaskType T) (streams : Streams W) (max_retry : ℕ) where
  -- `XAck`, whose error is ignored
  unfoldable pub ack_entry : Text → Act (Effect T) W (Unit {0})
  ack_entry id = do call (streams.ack id); emit (acked id)

  -- `deadLetter`
  unfoldable pub dead_letter : (id raw error : Text) → Act (Effect T) W (Unit {0})
  unfolding ack_entry
  dead_letter id raw error = do
    added ← call (streams.add_dead raw error id)
    emit (buried raw error id (is_ok added))
    ack_entry id

  unfoldable pub requeue : (id payload : Text) → Act (Effect T) W (Unit {0})
  unfolding ack_entry
  requeue id payload = do
    added ← call (streams.add_task payload)
    emit (requeued payload (is_ok added))
    ack_entry id

  -- what follows an error of the handler
  unfoldable pub retry : (id raw error : Text) → T → Act (Effect T) W (Unit {0})
  unfolding dead_letter requeue
  retry id raw error t =
      let t' = tasks.set_attempt (tasks.attempt t + 1) t in
      if leb max_retry (tasks.attempt t + 1)
      then dead_letter id raw error
      else requeue id (tasks.marshal t')

  module _ (handler : Text → T → W → Option Text × W) where
    unfoldable pub after_handler : (id raw : Text) → T → Option Text → Act (Effect T) W (Unit {0})
    unfolding retry
    after_handler id raw t none = ack_entry id
    after_handler id raw t (some e) = retry id raw e t

    unfoldable pub consume_raw : (id raw : Text) → Result Text T → Act (Effect T) W (Unit {0})
    unfolding after_handler
    consume_raw id raw (err e) = dead_letter id raw e
    consume_raw id raw (ok t) = do
      answer ← call (handler id t)
      emit (handled id t answer)
      after_handler id raw t answer

    unfoldable pub consume_field : Text → Option Text → Act (Effect T) W (Unit {0})
    unfolding consume_raw
    consume_field id none = ack_entry id
    consume_field id (some raw) = consume_raw id raw (tasks.unmarshal raw)

    unfoldable pub consume_entry : Entry → Act (Effect T) W (Unit {0})
    unfolding consume_field
    consume_entry e = consume_field e.id e.task

    unfoldable pub consume_entries : List Entry → Act (Effect T) W (Unit {0})
    consume_entries [] = pure tt
    consume_entries (e ∷ es) = do consume_entry e; consume_entries es

    unfoldable pub consume_streams : List (List Entry) → Act (Effect T) W (Unit {0})
    consume_streams [] = pure tt
    consume_streams (s ∷ ss) = do consume_entries s; consume_streams ss

    -- one round of the loop; `true` if the context has ended
    unfoldable pub consume_read : Result ReadError (List (List Entry)) → Act (Effect T) W Bool
    consume_read (err redis_nil) = pure false
    consume_read (err canceled) = pure false
    consume_read (err failed) = call streams.backoff
    consume_read (ok ss) = do consume_streams ss; pure false

    -- `Consume` for a number of rounds; `true` if it has returned
    unfoldable pub consume_rounds : ℕ → Act (Effect T) W Bool
    consume_rounds zero = pure false
    consume_rounds (suc n) = do
      over ← call streams.is_done
      stop_or over
          (do res ← call streams.read; ended ← consume_read res; stop_or ended (consume_rounds n))

-- `Consume` of `StreamQueue`
unfoldable pub consume :
    {W : Type 0}
    → TaskType Task
    → Streams W
    → ℤ
    → (Text → Task → W → Option Text × W)
    → ℕ
    → Act (Effect Task) W Bool
consume tasks streams max_retry = consume_rounds tasks streams (default_pos max_retry 3)

-- `Consume` of `ToolStreamQueue`
unfoldable pub consume_tools :
    {W : Type 0}
    → TaskType ToolTask
    → Streams W
    → ℤ
    → (Text → ToolTask → W → Option Text × W)
    → ℕ
    → Act (Effect ToolTask) W Bool
consume_tools tasks streams max_retry = consume_rounds tasks streams (default_pos max_retry 1)
