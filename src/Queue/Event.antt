-- ===== src/Queue/Event.antt =====
-- internal/queue: the task and the tool result types, and the events of a run (pubsub.go,
-- stream.go, tool_stream.go). The union fields of `queue.Event` are the constructors of `Kind`.
use ai_agent_cloud_runtime.Prelude.{ℕ, Bool}
use ai_agent_cloud_runtime.Prelude.Int.{ℤ}
use ai_agent_cloud_runtime.Prelude.Text.{Text}

pub record Task : Type 0 where
  pub run_id : Text
  pub user_id : Text
  pub agent_id : Text
  pub prompt : Text
  pub model : Text
  pub system_prompt : Text
  pub trace_id : Text
  pub attempt : ℕ

-- `S` is the type of the states of a run: the queue package does not know it.
pub data Kind (S : Type 0) : Type 0 where
  state_event : (from to : S) → Kind S
  token_event : (text : Text) (index : ℕ) → Kind S
  done_event : (total : ℕ) → Kind S
  error_event : (code message : Text) → Kind S
  tool_event :
      (call_id tool_name phase result message : Text) (is_error : Bool) (elapsed_ms : ℕ) → Kind S

pub record Event (S : Type 0) : Type 0 where
  pub run_id : Text
  pub trace_id : Text
  pub kind : Kind S

pub record ToolResultEvent : Type 0 where
  pub call_id : Text
  pub trace_id : Text
  pub container_id : Text
  pub exit_code : ℤ
  pub content : Text
  pub is_error : Bool
  pub meta_json : Text
  pub elapsed_ms : ℤ
  pub error_code : Text
  pub error_message : Text
