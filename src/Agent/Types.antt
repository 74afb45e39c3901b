-- ===== src/Agent/Types.antt =====
-- The data that `agent.Runner` works on (internal/llm/provider.go, internal/history/store.go,
-- internal/hook/types.go), and what it is connected to: each field of `Deps` is a call that leaves
-- the package. Texts of JSON are made and read by functions of `Deps`.
use ai_agent_cloud_runtime.Prelude.{ℕ, Bool, false, Option, List, [], Result}
use ai_agent_cloud_runtime.Prelude.Int.{ℤ}
use ai_agent_cloud_runtime.Prelude.Text.{Text}
use ai_agent_cloud_runtime.Prelude.Maps.{TextMap}
use ai_agent_cloud_runtime.Queue.Event.{Event, ToolResultEvent}
use ai_agent_cloud_runtime.Agent.State.{State}
use ai_agent_cloud_runtime.Orchestrator.Supervisor.{SubagentRequest, SubagentResult, Limits}

pub record ToolCall : Type 0 where
  pub id : Text
  pub type : Text
  pub name : Text
  pub arguments : Text

-- `llm.Message`
pub record Message : Type 0 where
  pub role : Text
  pub content : Text
  pub name : Text
  pub tool_call_id : Text
  pub tool_calls : List ToolCall

pub record ToolDefinition : Type 0 where
  pub name : Text
  pub description : Text
  pub parameters : Text

-- `llm.Req`; the runner leaves the sampling parameters at zero.
pub record Req : Type 0 where
  pub model : Text
  pub messages : List Message
  pub tools : List ToolDefinition

pub record TokenEvent : Type 0 where
  pub token : Text
  pub tool_calls : List ToolCall
  pub done : Bool
  pub stop_reason : Text
  pub err : Option Text

-- `history.Message`
pub record HistoryMessage : Type 0 where
  pub id : Text
  pub role : Text
  pub content : Text
  pub visible : Bool
  pub version : ℕ
  pub parent_id : Text
  pub tags : TextMap Text

pub data HookEvent : Type 0 where
  pre_llm post_llm pre_tool_use post_tool_use : HookEvent

pub record HookRequest : Type 0 where
  pub event : HookEvent
  pub run_id : Text
  pub trace_id : Text
  pub payload_json : Text

pub record HookResponse : Type 0 where
  pub allowed : Bool
  pub reason : Text
  pub payload_json : Text
  pub append_system_messages : List Text
  pub matched_hooks : List Text

-- `orchestrator.CompactPolicy`
pub record CompactPolicy : Type 0 where
  pub enabled : Bool
  pub max_chars : ℤ
  pub keep_head : ℤ
  pub keep_tail : ℤ

-- A `tool.Runner`: the definitions of its registry, if it has one, and
-- `ExecuteInWorkspace workspace call trace name args`.
pub record ToolRunner (W : Type 0) : Type 0 where
  pub registry : Option (List ToolDefinition)
  pub execute : (workspace call trace name args : Text) → W → Result Text ToolResultEvent × W

-- A nil client or selector is `none`.
pub record Deps (W : Type 0) : Type 0 where
  pub publish : Event State → W → Option Text × W
  pub append : Text → HistoryMessage → W → Result Text Text × W
  pub render : Text → W → Result Text (List HistoryMessage) × W
  pub fold : (run from to summary : Text) → W → Result Text Text × W
  pub stream : Req → W → Result Text (List TokenEvent) × W
  -- `SkillSelector.Select` and `SkillRenderer.RenderSystemMessage`
  pub skills : Option (Text → W → Result Text Text × W)
  -- `RAGRetriever.Retrieve` for the runner's tenant, and `rag.RenderSystemMessage`
  pub rag : Option (Text → W → Result Text Text × W)
  pub hook : Option (HookRequest → W → Result Text HookResponse × W)
  pub tool_runner : Option (ToolRunner W)
  pub agent_tool_runner : Option (ToolRunner W)
  pub new_run_id : W → Text × W
  -- milliseconds since the start of the current tool call
  pub elapsed_ms : W → ℕ × W
  -- `orchestrator.SummarizeMessages`
  pub summarize : List HistoryMessage → Text
  pub unmarshal_request : Text → Result Text SubagentRequest
  pub marshal_result : SubagentResult → Text
  pub subagent_meta : (child_run_id role : Text) → Text
  pub marshal_tool_calls : List ToolCall → Text
  pub post_llm_payload : Text → List ToolCall → Text

-- The settings of a `Runner`.
pub record Settings : Type 0 where
  pub tool_max_steps : ℤ
  pub multi_agent_enabled : Bool
  pub limits : Limits
  pub depth : ℕ
  pub compact_policy : CompactPolicy
  pub hook_fail_closed : Bool

-- A message with the fields that `Append` fills in left at zero.
abbrev pub history_message : (role content parent_id : Text) → TextMap Text → HistoryMessage
history_message role content parent_id tags = record {
  id = [];
  role = role;
  content = content;
  visible = false;
  version = 0;
  parent_id = parent_id;
  tags = tags;
}

abbrev pub llm_message : (role content : Text) → Message
llm_message role content = record {
  role = role;
  content = content;
  name = [];
  tool_call_id = [];
  tool_calls = [];
}
