-- ===== src/Acp/Message.antt =====
-- The messages of pkg/acp/control.go, the types of internal/acp/server.go, and the events that
-- internal/acp/session.go makes of them for the client.
use ai_agent_cloud_runtime.Prelude.{ℕ, Option, if◌then◌else◌}
use ai_agent_cloud_runtime.Prelude.Text.{Text, codes, text_eq}

-- `BusinessEvent`
pub record BusinessEvent : Type 0 where
  pub kind : Text
  pub state : Text
  pub from : Text
  pub text : Text
  pub index : ℕ
  pub total : ℕ
  pub code : Text
  pub message : Text

-- `pb.RunState`
pub data RunState : Type 0 where
  unspecified pending running waiting_tool compacting done failed : RunState

-- `stateEnumStr`
unfoldable pub state_enum_str : Text → RunState
state_enum_str s =
    if text_eq s (codes "PENDING")
    then pending
    else if text_eq s (codes "RUNNING")
    then running
    else if text_eq s (codes "WAITING_TOOL")
    then waiting_tool
    else if text_eq s (codes "COMPACTING")
    then compacting
    else if text_eq s (codes "DONE")
    then done
    else if text_eq s (codes "FAILED")
    then failed
    else unspecified

-- The payload of a `pb.RunEvent`.
pub data EventPayload : Type 0 where
  token : (text : Text) (index : ℕ) → EventPayload
  state_changed : (from to : RunState) (ts_unix_ms : ℕ) → EventPayload
  run_done : (total_tokens ts_unix_ms : ℕ) → EventPayload
  run_error : (code message : Text) → EventPayload
  no_payload : EventPayload

pub record RunEvent : Type 0 where
  pub run_id : Text
  pub trace_id : Text
  pub payload : EventPayload

-- `businessToProto` at the time `now`.
unfoldable pub business_to_proto : (now : ℕ) (run_id trace_id : Text) → BusinessEvent → RunEvent
unfolding state_enum_str
business_to_proto now run_id trace_id ev = record {
  run_id = run_id;
  trace_id = trace_id;
  payload =
      if text_eq ev.kind (codes "token")
      then token ev.text ev.index
      else if text_eq ev.kind (codes "state")
      then state_changed (state_enum_str ev.from) (state_enum_str ev.state) now
      else if text_eq ev.kind (codes "done")
      then run_done ev.total now
      else if text_eq ev.kind (codes "error")
      then run_error ev.code ev.message
      else no_payload;
}

pub record RunInput : Type 0 where
  pub run_id : Text
  pub trace_id : Text
  pub user_id : Text
  pub prompt : Text
  pub model : Text

-- `pb.RunRequest`
pub record RunRequest : Type 0 where
  pub user_id : Text
  pub prompt : Text
  pub model : Text

-- `acp.Resume`
pub record Resume : Type 0 where
  pub run_id : Text
  pub last_seq : ℕ

-- What a dispatcher does: it emits events, each with the error that `emit` answers, and returns.
pub data Script : Type 0 where
  returns : Option Text → Script
  emits : BusinessEvent → (Option Text → Script) → Script
