-- ===== src/Tool/Runner.antt =====
-- internal/tool/runner.go: `Runner`. The calls of the driver, of the hooks and of the tool are the
-- events of an execution. Timeouts, traces and metrics are not modelled; JSON is a record of functions.
use ai_agent_cloud_runtime.Prelude.{
  Bool, true, not, Option, none, some, [], ◌∷◌, ◌++◌, Result, ok, err, if◌then◌else◌,
}
use ai_agent_cloud_runtime.Prelude.Int.{ℤ, pos}
use ai_agent_cloud_runtime.Prelude.Text.{Text, codes, is_empty}
use ai_agent_cloud_runtime.Prelude.Maps.{TextMap, lookup}
use ai_agent_cloud_runtime.Prelude.Act.{Act, pure, raise, call, emit, try, ◌>>=◌, ◌>>◌}
use ai_agent_cloud_runtime.Queue.Event.{ToolResultEvent}
use ai_agent_cloud_runtime.Queue.Consumer.{ToolTask}
use ai_agent_cloud_runtime.Agent.Types.{HookRequest, HookResponse, pre_tool_use, post_tool_use}
use ai_agent_cloud_runtime.Tool.Registry.{MetaValue, int_value, ToolResult, Tool, Registry, get}

-- `sandbox.Driver`, as far as the runner uses it
pub record Driver (W S : Type 0) : Type 0 where
  pub acquire : (run_id : Text) → W → Result Text S × W
  pub release : S → W → Option Text × W
  pub container_id : S → Text

-- what a post hook sends back
pub record Patch : Type 0 where
  pub content : Text
  pub is_error : Bool
  pub metadata : Option (TextMap MetaValue)

pub record Codec : Type 0 where
  pub pre_payload : (call tool args : Text) → Text
  pub post_payload : (call tool : Text) → ToolResult → Text
  -- the field `args_json` of a payload
  pub patched_args : Text → Result Text Text
  pub patched_result : Text → Result Text Patch
  -- `json.Marshal` of metadata that are not empty
  pub metadata : TextMap MetaValue → Result Text Text

pub record Runner (W S : Type 0) : Type 0 where
  pub registry : Option (Registry W S)
  pub driver : Option (Driver W S)
  pub hook : Option (HookRequest → W → Result Text HookResponse × W)
  pub hook_fail_closed : Bool
  pub codec : Codec
  -- milliseconds since the start of the execution
  pub elapsed_ms : W → ℤ × W

pub data ToolEffect : Type 0 where
  acquired : (workspace : Text) → ToolEffect
  hooked : HookRequest → ToolEffect
  invoked : (tool args : Text) → ToolEffect
  released : ToolEffect

-- `defer`: what the second action does is done in any case, and its result ignored.
abbrev pub finish : {V W A : Type 0} → Result Text A → Act V W A
finish (ok a) = pure a
finish (err e) = raise e

unfoldable pub finally : {V W A : Type 0} → Act V W A → Act V W (Unit {0}) → Act V W A
finally m n = do r ← try m; n; finish r

abbrev pub from_result : {V W A : Type 0} → (W → Result Text A × W) → Act V W A
from_result op = do r ← call op; finish r

-- what `executePreToolHook` decides
pub data Decision : Type 0 where
  allow : (args : Text) → Decision
  deny : (reason : Text) → Decision

abbrev pub failed_event : (call trace content code message : Text) → ℤ → ToolResultEvent
failed_event call_id trace content code message elapsed = record {
  call_id = call_id;
  trace_id = trace;
  container_id = [];
  exit_code = pos 0;
  content = content;
  is_error = true;
  meta_json = [];
  elapsed_ms = elapsed;
  error_code = code;
  error_message = message;
}

-- `res.Metadata["exit_code"].(int)`, or 0
unfoldable pub exit_code : Option MetaValue → ℤ
exit_code (some (int_value n)) = n
exit_code _ = pos 0

abbrev pub or_blank : Result Text Text → Text
or_blank (ok t) = t
or_blank (err e) = []

abbrev pub or_args : Text → Result Text Text → Text
or_args args (ok t) = if is_empty t then args else t
or_args args (err e) = args

abbrev pub apply_patch : ToolResult → Result Text Patch → ToolResult
apply_patch res (err e) = res
apply_patch res (ok p) = record {
  content = p.content;
  is_error = p.is_error;
  metadata = elim p.metadata [ some m ↦ m | none ↦ res.metadata ];
}

module _ {W S : Type 0} (r : Runner W S) where
  -- the answer of the hook service to `executePreToolHook`
  unfoldable pub pre_decision : Text → Result Text HookResponse → Act ToolEffect W Decision
  pre_decision args (err e) = if r.hook_fail_closed then raise e else pure (allow args)
  pre_decision args (ok resp) =
      if not resp.allowed
      then pure (deny resp.reason)
      else if is_empty resp.payload_json
      then pure (allow args)
      else pure (allow (or_args args (r.codec.patched_args resp.payload_json)))

  -- `executePreToolHook`
  unfoldable pub pre_tool_hook :
      Option (HookRequest → W → Result Text HookResponse × W)
      → (call trace tool args : Text) → Act ToolEffect W Decision
  pre_tool_hook none call_id trace tool args = pure (allow args)
  pre_tool_hook (some hook) call_id trace tool args = do
    let req : HookRequest = record {
      event = pre_tool_use;
      run_id = [];
      trace_id = trace;
      payload_json = r.codec.pre_payload call_id tool args;
    }
    emit (hooked req)
    answer ← call (hook req)
    pre_decision args answer

  unfoldable pub post_patch : ToolResult → Result Text HookResponse → Act ToolEffect W ToolResult
  post_patch res (err e) = if r.hook_fail_closed then raise e else pure res
  post_patch res (ok resp) =
      if is_empty resp.payload_json
      then pure res
      else pure (apply_patch res (r.codec.patched_result resp.payload_json))

  -- `executePostToolHook`
  unfoldable pub post_tool_hook :
      Option (HookRequest → W → Result Text HookResponse × W)
      → (call trace tool : Text) → ToolResult
      → Act ToolEffect W ToolResult
  post_tool_hook none call_id trace tool res = pure res
  post_tool_hook (some hook) call_id trace tool res = do
    let req : HookRequest = record {
      event = post_tool_use;
      run_id = [];
      trace_id = trace;
      payload_json = r.codec.post_payload call_id tool res;
    }
    emit (hooked req)
    answer ← call (hook req)
    post_patch res answer

  unfoldable pub result_event : (call trace container : Text) → ToolResult → ℤ → ToolResultEvent
  result_event call_id trace container res elapsed = record {
    call_id = call_id;
    trace_id = trace;
    container_id = container;
    exit_code = exit_code (lookup (codes "exit_code") res.metadata);
    content = res.content;
    is_error = res.is_error;
    meta_json = elim res.metadata [ [] ↦ [] | kv ∷ m ↦ or_blank (r.codec.metadata (kv ∷ m)) ];
    elapsed_ms = elapsed;
    error_code = [];
    error_message = [];
  }

  -- the call of the tool, unless the hook has denied it
  unfoldable pub invoke_decided :
      Driver W S
      → Tool W S
      → S
      → (call trace name : Text) → Decision
      → Act ToolEffect W ToolResultEvent
  invoke_decided driver tool sb call_id trace name (deny reason) = do
    elapsed ← call r.elapsed_ms
    pure (failed_event call_id trace reason (codes "hook_denied") reason elapsed)
  invoke_decided driver tool sb call_id trace name (allow args) = do
    emit (invoked name args)
    res ← from_result (tool.invoke sb args)
    res' ← post_tool_hook r.hook call_id trace name res
    elapsed ← call r.elapsed_ms
    pure (result_event call_id trace (driver.container_id sb) res' elapsed)

  -- what `ExecuteInWorkspace` does between `Acquire` and `Release`
  unfoldable pub in_sandbox :
      Driver W S → Tool W S → S → (call trace name args : Text) → Act ToolEffect W ToolResultEvent
  in_sandbox driver tool sb call_id trace name args = do
    let args' = if is_empty args then codes "{}" else args
    decision ← pre_tool_hook r.hook call_id trace name args'
    invoke_decided driver tool sb call_id trace name decision

  unfoldable pub release_sandbox : Driver W S → S → Act ToolEffect W (Unit {0})
  release_sandbox driver sb = do call (driver.release sb); emit released

  unfoldable pub execute_tool :
      Driver W S
      → Option (Tool W S)
      → (workspace call trace name args : Text) → Act ToolEffect W ToolResultEvent
  execute_tool driver none workspace call_id trace name args = do
    let message = codes "unknown tool: " ++ name
    elapsed ← call r.elapsed_ms
    pure (failed_event call_id trace message (codes "tool_not_found") message elapsed)
  execute_tool driver (some tool) workspace call_id trace name args = do
    sb ← from_result (driver.acquire workspace)
    emit (acquired workspace)
    finally (in_sandbox driver tool sb call_id trace name args) (release_sandbox driver sb)

  unfoldable pub execute_with :
      Option (Registry W S)
      → Option (Driver W S)
      → (workspace call trace name args : Text) → Act ToolEffect W ToolResultEvent
  execute_with none driver workspace call_id trace name args = raise (codes "tool registry is nil")
  execute_with (some registry) none workspace call_id trace name args =
      raise (codes "sandbox driver is nil")
  execute_with (some registry) (some driver) workspace call_id trace name args =
      execute_tool driver (get name registry) workspace call_id trace name args

  -- `ExecuteInWorkspace`
  unfoldable pub execute_in_workspace :
      (workspace call trace name args : Text) → Act ToolEffect W ToolResultEvent
  execute_in_workspace workspace call_id trace name args =
      execute_with r.registry r.driver workspace call_id trace name args

  -- `Execute`
  abbrev pub execute : (call trace name args : Text) → Act ToolEffect W ToolResultEvent
  execute call_id trace name args = execute_in_workspace call_id call_id trace name args

  -- `Bus.Publish`: `some (e, c)` is an error, and whether it is `context.Canceled`.
  module _ (publish : Text → ToolResultEvent → W → Option (Text × Bool) × W) where
    unfoldable pub publish_result : Text → ToolResultEvent → Act ToolEffect W (Option Text)
    publish_result call_id ev = do
      failed ← call (publish call_id ev)
      pure (elim failed [ none ↦ none | some p ↦ some p.0 ])

    -- `publishError`
    unfoldable pub publish_error : ToolTask → (code message : Text) → Act ToolEffect W (Option Text)
    publish_error t code message = do
      elapsed ← call r.elapsed_ms
      failed ←
          call (publish t.call_id (failed_event t.call_id t.trace_id message code message elapsed))
      pure (elim failed [ none ↦ none | some p ↦ if p.1 then none else some p.0 ])

    unfoldable pub report : ToolTask → Result Text ToolResultEvent → Act ToolEffect W (Option Text)
    report t (err e) = publish_error t (codes "execute") e
    report t (ok ev) = publish_result t.call_id ev

    -- `Handle`: `none` acknowledges the task
    unfoldable pub handle : ToolTask → Act ToolEffect W (Option Text)
    handle t = do answer ← try (execute t.call_id t.trace_id t.tool t.args_json); report t answer
