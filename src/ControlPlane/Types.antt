-- ===== src/ControlPlane/Types.antt =====
-- internal/controlplane/types.go: agents, runs, and the input that creates an agent. The times that the
-- database sets are left out.
use ai_agent_cloud_runtime.Prelude.{
  ℕ, Bool, true, false, not, ◌&&◌, ◌||◌, Option, none, some, List, ◌++◌, length, ltb, if◌then◌else◌,
}
use ai_agent_cloud_runtime.Prelude.Int.{ℤ, pos, negsuc, is_zero}
use ai_agent_cloud_runtime.Prelude.Text.{Text, codes, is_empty, text_eq, trim_space}

abbrev pub default_agent_model : Text
default_agent_model = codes "Qwen/Qwen3.5-35B-A3B"

abbrev pub status_provisioning : Text
status_provisioning = codes "provisioning"

abbrev pub status_running : Text
status_running = codes "running"

abbrev pub status_stopped : Text
status_stopped = codes "stopped"

abbrev pub status_failed : Text
status_failed = codes "failed"

pub record AgentSpec : Type 0 where
  pub id : Text
  pub name : Text
  pub role : Text
  pub system_prompt : Text
  pub model : Text
  pub image : Text
  pub cpu_quota_us : ℤ
  pub memory_mb : ℤ
  pub pids_limit : ℤ
  pub tools : List Text
  pub workspace_policy : Text
  pub status : Text
  pub volume_name : Text
  pub container_id : Text
  pub last_error : Text

pub record AgentRun : Type 0 where
  pub run_id : Text
  pub agent_id : Text
  pub trace_id : Text
  pub prompt : Text
  pub status : Text
  pub error : Text
  pub summary : Text

pub record CreateAgentInput : Type 0 where
  pub name : Text
  pub role : Text
  pub system_prompt : Text
  pub model : Text
  pub image : Text
  pub cpu_quota_us : ℤ
  pub memory_mb : ℤ
  pub pids_limit : ℤ
  pub tools : List Text
  pub workspace_policy : Text

abbrev pub is_negative : ℤ → Bool
is_negative (pos n) = false
is_negative (negsuc n) = true

unfoldable pub is_supported_agent_model : Text → Bool
is_supported_agent_model model = text_eq model default_agent_model

-- `%q` of a text that needs no escapes
abbrev pub quoted : Text → Text
quoted s = codes "\"" ++ s ++ codes "\""

-- `Validate`
unfoldable pub validate : Text → CreateAgentInput → Option Text
validate default_image input =
    if ltb (length (trim_space input.name)) 2 || ltb 80 (length input.name)
    then some (codes "name must contain 2-80 characters")
    else if is_empty (trim_space input.role) || ltb 120 (length input.role)
    then some (codes "role is required and must not exceed 120 characters")
    else if ltb 12000 (length input.system_prompt)
    then some (codes "systemPrompt must not exceed 12000 characters")
    else if not (is_empty input.model) && not (is_supported_agent_model input.model)
    then some (
        codes "unsupported model "
        ++ quoted input.model
        ++ codes "; supported model is "
        ++ quoted default_agent_model)
    else if not (is_empty input.image) && not (text_eq input.image default_image)
    then some (codes "image " ++ quoted input.image ++ codes " is not allowed")
    else if is_negative input.cpu_quota_us
        || is_negative input.memory_mb
        || is_negative input.pids_limit
    then some (codes "resource limits cannot be negative")
    else if not (is_empty input.workspace_policy)
        && not (text_eq input.workspace_policy (codes "retain"))
        && not (text_eq input.workspace_policy (codes "delete"))
    then some (codes "workspacePolicy must be retain or delete")
    else none

abbrev pub text_or : Text → Text → Text
text_or default s = if is_empty s then default else s

abbrev pub int_or : ℕ → ℤ → ℤ
int_or default n = if is_zero n then pos default else n

unfoldable pub normalize_create : Text → CreateAgentInput → CreateAgentInput
normalize_create default_image input = record {
  name = trim_space input.name;
  role = trim_space input.role;
  system_prompt = input.system_prompt;
  model = text_or default_agent_model input.model;
  image = text_or default_image input.image;
  cpu_quota_us = int_or 50000 input.cpu_quota_us;
  memory_mb = int_or 256 input.memory_mb;
  pids_limit = int_or 256 input.pids_limit;
  tools = input.tools;
  workspace_policy = text_or (codes "retain") input.workspace_policy;
}
