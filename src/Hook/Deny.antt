-- ===== src/Hook/Deny.antt =====
-- What the engine of internal/hook does before a tool call.
use ai_agent_cloud_runtime.Prelude.{
  ◌≡◌, refl, true, false, none, List, [], ◌∷◌, Result, Bool-cases, inl, inr, if◌then◌else◌,
}
use ai_agent_cloud_runtime.Prelude.Text.{Text, codes, text_eq}
use ai_agent_cloud_runtime.Agent.Types.{HookRequest, HookResponse, pre_tool_use}
use ai_agent_cloud_runtime.Hook.Manifest.{
  Manifest, ToolCallPayload, load_hooks, deny_dangerous_bash, deny_hook,
}
use ai_agent_cloud_runtime.Hook.Engine.{deny, run_hook, resume_hooks, run_hooks, execute}

abbrev pub denied : HookRequest → HookResponse
denied req = record {
  allowed = false;
  reason = codes "dangerous bash command denied by hook";
  payload_json = req.payload_json;
  append_system_messages = [];
  matched_hooks = deny_hook.id ∷ [];
}

abbrev pub untouched : HookRequest → HookResponse
untouched req = record {
  allowed = true;
  reason = [];
  payload_json = req.payload_json;
  append_system_messages = [];
  matched_hooks = [];
}

module _ {W : Type 0} (read_payload : Text → ToolCallPayload)
    (execute_wasm : Manifest → HookRequest → W → Result Text HookResponse × W) where
  -- `Execute` before a tool call, while its context is not done and whatever hooks have been loaded beside the built-in ones: a
  -- dangerous bash command is refused, with the name of the built-in hook, and no loaded hook, WASM
  -- modules among them, is run; for any other call the answer is that of the loaded hooks alone.
  pub execute-load_hooks :
      (loaded : List Manifest) (req : HookRequest) (w : W)
      → req.event ≡ pre_tool_use
      → execute read_payload execute_wasm none (load_hooks loaded) req w ≡ (
          if deny_dangerous_bash (read_payload req.payload_json)
          then (denied req, none, w)
          else run_hooks read_payload execute_wasm loaded req (untouched req) w)
  unfolding execute load_hooks run_hooks run_hook resume_hooks deny text_eq
  execute-load_hooks loaded req w e =
      elim (Bool-cases (deny_dangerous_bash (read_payload req.payload_json))) [
        | inl bad ↦ rw (e, bad) refl
        | inr good ↦ rw (e, good) refl
      ]
