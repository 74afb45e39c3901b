-- ===== src/ControlPlane/Runs.antt =====
-- `consumeRun`, `convertEvent` and `EventStore` of internal/controlplane/service.go: the events of a run
-- go from the gateway's stream into the event store, and the end of the run into the database.
use ai_agent_cloud_runtime.Prelude.{
  ℕ, Bool, true, false, Option, none, some, List, [], ◌∷◌, ◌++◌, Result, ok, err, ltb,
  if◌then◌else◌,
}
use ai_agent_cloud_runtime.Prelude.Int.{ℤ}
use ai_agent_cloud_runtime.Prelude.Text.{Text, codes, text_eq}
use ai_agent_cloud_runtime.Prelude.Maps.{TextMap, lookup}
use ai_agent_cloud_runtime.Prelude.Act.{Act, pure, call, emit, try, ◌>>=◌, ◌>>◌}
use ai_agent_cloud_runtime.ControlPlane.Types.{AgentSpec, AgentRun}
use ai_agent_cloud_runtime.ControlPlane.Docker.{fail_if, from_result}
use ai_agent_cloud_runtime.ControlPlane.Service.{Store, ServiceEffect, stored, finished}

-- The payload of a `pb.RunEvent`, states by their names.
pub data Payload : Type 0 where
  state_changed : (from to : Text) → Payload
  token : (text : Text) (index : ℤ) → Payload
  run_done : (total_tokens : ℤ) → Payload
  run_error : (code message : Text) → Payload
  tool_update :
      (call_id tool_name phase result error : Text) (is_error : Bool) (elapsed_ms : ℤ) → Payload
  no_payload : Payload

-- The values of the data of a `UIEvent`.
pub data Value : Type 0 where
  text_value : Text → Value
  int_value : ℤ → Value
  bool_value : Bool → Value

pub record Converted : Type 0 where
  pub kind : Text
  pub data_values : TextMap Value
  pub terminal : Bool
  pub status : Text

-- `convertEvent`
unfoldable pub convert_event : Payload → Converted
convert_event (state_changed from to) = record {
  kind = codes "state";
  data_values = (codes "from", text_value from) ∷ (codes "to", text_value to) ∷ [];
  terminal = false;
  status = [];
}
convert_event (token text index) = record {
  kind = codes "token";
  data_values = (codes "text", text_value text) ∷ (codes "index", int_value index) ∷ [];
  terminal = false;
  status = [];
}
convert_event (run_done total) = record {
  kind = codes "done";
  data_values = (codes "totalTokens", int_value total) ∷ [];
  terminal = true;
  status = codes "completed";
}
convert_event (run_error code message) = record {
  kind = codes "error";
  data_values = (codes "code", text_value code) ∷ (codes "message", text_value message) ∷ [];
  terminal = true;
  status = codes "failed";
}
convert_event (tool_update call_id name phase result error is_error elapsed) = record {
  kind = codes "tool";
  data_values =
      (codes "callId", text_value call_id)
      ∷ (codes "toolName", text_value name)
      ∷ (codes "phase", text_value phase)
      ∷ (codes "result", text_value result)
      ∷ (codes "error", text_value error)
      ∷ (codes "isError", bool_value is_error)
      ∷ (codes "elapsedMs", int_value elapsed)
      ∷ [];
  terminal = false;
  status = [];
}
convert_event no_payload = record {
  kind = codes "unknown";
  data_values = [];
  terminal = false;
  status = [];
}

abbrev text_of : Option Value → Text
text_of (some (text_value s)) = s
text_of (some (int_value n)) = []
text_of (some (bool_value b)) = []
text_of none = []

-- what an event adds to the summary
unfoldable pub summary_text : Converted → Text
summary_text c =
    if text_eq c.kind (codes "token") then text_of (lookup (codes "text") c.data_values) else []

pub record UiEvent : Type 0 where
  pub id : ℕ
  pub kind : Text
  pub data_values : TextMap Value

-- The commands of Redis that `EventStore` uses: `Incr`, the transaction of `RPush`, `LRange`.
pub record EventRedis (W : Type 0) : Type 0 where
  pub incr : Text → W → Result Text ℕ × W
  pub push : (run : Text) → UiEvent → W → Option Text × W
  pub range : (key : Text) → W → Result Text (List Text) × W

-- What `RunAgent` of the gateway gives: an error of opening, sending or closing, or the events that
-- `Recv` returns in turn and the error that it returns then.
pub record Gateway (W : Type 0) : Type 0 where
  pub run_agent : AgentRun → AgentSpec → W → Result Text (List Payload × Text) × W

-- `UIEvent`s after a number, of the members that decode
unfoldable pub events_after : (Text → Option UiEvent) → ℕ → List Text → List UiEvent
events_after decode last [] = []
events_after decode last (raw ∷ raws) =
    let rest = events_after decode last raws in
    elim (decode raw) [ none ↦ rest | some ev ↦ if ltb last ev.id then ev ∷ rest else rest ]

unfoldable pub ended_text : Text → Text
ended_text e =
    if text_eq e (codes "EOF") then codes "gateway stream ended without terminal event" else e

module _ {W : Type 0} (store : Store W) (run : Text) where
  -- `finishRun`, whose error is ignored
  unfoldable pub finish_run : (status summary error : Text) → Act ServiceEffect W (Unit {0})
  finish_run status summary error = do
    call (store.finish_run run status summary error)
    emit (finished run status summary error)

  -- what follows an `Append` that succeeded or not
  unfoldable pub after_append :
      Converted
      → (summary : Text) → Act ServiceEffect W (Unit {0})
      → Result Text UiEvent
      → Act ServiceEffect W (Unit {0})
  unfolding finish_run
  after_append c summary rest (err e) = rest
  after_append c summary rest (ok ev) =
      emit (stored c.kind) >> (if c.terminal then finish_run c.status summary [] else rest)

module _ {W : Type 0} (redis : EventRedis W) where
  -- `EventStore.Append`
  unfoldable pub append_event : (run kind : Text) → TextMap Value → Act ServiceEffect W UiEvent
  unfolding fail_if from_result
  append_event run kind data_values = do
    counted ← call (redis.incr (codes "ui:run_event_seq:" ++ run))
    id ← from_result counted
    let ev : UiEvent = record { id = id; kind = kind; data_values = data_values }
    pushed ← call (redis.push (codes "ui:run_events:" ++ run) ev)
    fail_if [] pushed
    pure ev

  -- `EventStore.After`
  unfoldable pub load_events_after :
      (Text → Option UiEvent) → (run : Text) → ℕ → Act ServiceEffect W (List UiEvent)
  unfolding from_result
  load_events_after decode run last = do
    read ← call (redis.range (codes "ui:run_events:" ++ run))
    raws ← from_result read
    pure (events_after decode last raws)

  module _ (store : Store W) (run : Text) where
    -- the loop of `consumeRun`
    unfoldable pub consume_events :
        List Payload → (end summary : Text) → Act ServiceEffect W (Unit {0})
    unfolding finish_run ended_text after_append
    consume_events [] end summary = finish_run store run (codes "failed") summary (ended_text end)
    consume_events (ev ∷ evs) end summary =
        let c = convert_event ev in
        let summary' = summary ++ summary_text c in
        let rest = consume_events evs end summary' in
        try (append_event run c.kind c.data_values) >>= after_append store run c summary' rest

    unfoldable pub consume_opened :
        Result Text (List Payload × Text) → Act ServiceEffect W (Unit {0})
    unfolding finish_run consume_events
    consume_opened (err e) = finish_run store run (codes "failed") [] e
    consume_opened (ok (evs, end)) = consume_events evs end []

  -- `consumeRun`
  unfoldable pub consume_run :
      Store W → Gateway W → AgentRun → AgentSpec → Act ServiceEffect W (Unit {0})
  unfolding consume_opened
  consume_run store gateway r a = do
    opened ← call (gateway.run_agent r a)
    consume_opened store r.run_id opened
