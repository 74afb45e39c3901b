-- ===== src/Hook/Tests.antt =====
-- Concrete requests to the engine.
use ai_agent_cloud_runtime.Prelude.{
  ℕ, ◌≡◌, refl, true, none, some, List, [], ◌∷◌, Result, ok, if◌then◌else◌,
}
use ai_agent_cloud_runtime.Prelude.Text.{Text, codes, is_empty, text_eq}
use ai_agent_cloud_runtime.Agent.Types.{HookRequest, HookResponse, pre_tool_use}
use ai_agent_cloud_runtime.Prelude.Text.{has_prefix}
use ai_agent_cloud_runtime.Prelude.Substrings.{contains, to_lower, replace_all, replace_from}
use ai_agent_cloud_runtime.Hook.Manifest.{
  Manifest, ToolCallPayload, deny_hook, load_hooks, deny_dangerous_bash,
}
use ai_agent_cloud_runtime.Hook.Engine.{redact_payload, run_hooks, execute}
use ai_agent_cloud_runtime.Hook.Deny.{denied, untouched, execute-load_hooks}

abbrev tool_request : HookRequest
tool_request = record {
  event = pre_tool_use;
  run_id = codes "run";
  trace_id = [];
  payload_json = codes "{}";
}

abbrev payload : ToolCallPayload
payload = record {
  tool = codes "bash";
  cmd = some (codes "sudo RM -rf /");
  command = none;
  cmd_strings = [];
}

abbrev module_hook : Manifest
module_hook = record deny_hook { id = codes "m"; type = codes "wasm" }

abbrev response : List Text → HookResponse
response ids = record {
  allowed = true;
  reason = [];
  payload_json = [];
  append_system_messages = [];
  matched_hooks = ids;
}

abbrev run_module : Manifest → HookRequest → ℕ → Result Text HookResponse × ℕ
run_module h req w = (ok (response []), w)

payload_is_denied : deny_dangerous_bash payload ≡ true
unfolding deny_dangerous_bash contains to_lower replace_all replace_from has_prefix text_eq is_empty
payload_is_denied = refl

payload_is_redacted :
    redact_payload (codes "key sk-demo-secret!") (codes "sk-demo-secret") (codes "[REDACTED]")
    ≡ (codes "key [REDACTED]!", true)
unfolding redact_payload replace_all replace_from has_prefix text_eq is_empty
payload_is_redacted = refl

execute-load_hooks_example :
    execute (λ raw. payload) run_module none (load_hooks (module_hook ∷ [])) tool_request 0 ≡ (
      if deny_dangerous_bash payload
      then (denied tool_request, none, 0)
      else run_hooks
          (λ raw. payload)
          run_module
          (module_hook ∷ [])
          tool_request
          (untouched tool_request)
          0)
execute-load_hooks_example =
    execute-load_hooks (λ raw. payload) run_module (module_hook ∷ []) tool_request 0 refl
