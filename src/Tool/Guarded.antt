-- ===== src/Tool/Guarded.antt =====
-- The runner with the hook engine of internal/hook behind a hook client and with `HookFailClosed`: a
-- dangerous command reaches no tool.
use mathlib.Core.Path.{subst}
use ai_agent_cloud_runtime.Prelude.{
  ℕ, suc, ◌+◌, ◌≡◌, refl, sym, ap, ◌⊎◌, inl, inr, true, false, Option, none, some, List, [], ◌∷◌,
  ◌++◌, Result, ok, err, if◌then◌else◌, arith,
}
use ai_agent_cloud_runtime.Prelude.Text.{Text, codes, is_empty}
use ai_agent_cloud_runtime.Prelude.Act.{Act, call, emit, try, continue, ◌>>=◌}
use ai_agent_cloud_runtime.Agent.Types.{HookRequest, HookResponse, pre_tool_use}
use ai_agent_cloud_runtime.Hook.Manifest.{
  Manifest, ToolCallPayload, load_hooks, deny_dangerous_bash,
}
use ai_agent_cloud_runtime.Hook.Engine
use ai_agent_cloud_runtime.Hook.Deny.{execute-load_hooks}
use ai_agent_cloud_runtime.Tool.Registry.{Tool, Registry, get}
use ai_agent_cloud_runtime.Tool.Runner.{
  Decision, Driver, Runner, ToolEffect, acquired, hooked, invoked, released, finish, finally,
  from_result, deny, pre_decision, pre_tool_hook, invoke_decided, in_sandbox, release_sandbox,
  execute_tool, execute_with, execute_in_workspace,
}

-- the calls of the tool
abbrev pub invocations : List ToolEffect → ℕ
invocations [] = 0
invocations (invoked tool args ∷ es) = suc (invocations es)
invocations (acquired ws ∷ es) = invocations es
invocations (released ∷ es) = invocations es
invocations (hooked req ∷ es) = invocations es

invocations-append :
    (es fs : List ToolEffect) → invocations (es ++ fs) ≡ invocations es + invocations fs
invocations-append [] fs = omega arith
invocations-append (invoked tool args ∷ es) fs = omega (arith, invocations-append es fs)
invocations-append (acquired ws ∷ es) fs = invocations-append es fs
invocations-append (released ∷ es) fs = invocations-append es fs
invocations-append (hooked req ∷ es) fs = invocations-append es fs

-- A hook client that fails, or relays the answer of an engine that has loaded some hooks beside the
-- built-in ones and runs in a world of its own, as hookd does behind gRPC.
abbrev pub IsEngineClient :
    {W V : Type 0}
    → (Text → ToolCallPayload)
    → (Manifest → HookRequest → V → Result Text HookResponse × V)
    → List Manifest
    → (HookRequest → W → Result Text HookResponse × W)
    → Type 0
IsEngineClient {W} {V} read_payload execute_wasm loaded hook =
    (req : HookRequest) (w : W) (resp : HookResponse)
    → (hook req w).0 ≡ ok resp
    → (over : Option Text) × (v v' : V) × (Engine.execute read_payload execute_wasm over
          (load_hooks loaded) req v
        ≡ (resp, none, v'))

-- No tool is called, whether the action fails or not.
abbrev Calls0 : {W A : Type 0} → Act ToolEffect W A → Type 0
Calls0 {W} m = (w : W) → invocations (m w).1 ≡ 0

Calls0-bind :
    {W A B : Type 0} (m : Act ToolEffect W A) (f : A → Act ToolEffect W B)
    → Calls0 m
    → ((a : A) → Calls0 (f a))
    → Calls0 (m >>= f)
unfolding ◌>>=◌
Calls0-bind {W} {A} {B} m f p q w = go (m w).0
  where
    go : (r : Result Text A) → invocations (continue r (m w).1 f (m w).2).1 ≡ 0
    go (ok a) = omega (arith, invocations-append (m w).1 (f a (m w).2).1, p w, q a (m w).2)
    go (err e) = p w

-- after an action whose outcome is known
bind-events :
    {W A B : Type 0} (m : Act ToolEffect W A) (f : A → Act ToolEffect W B) (w v : W) (a : A)
    (es : List ToolEffect)
    → m w ≡ (ok a, es, v)
    → invocations es ≡ 0
    → Calls0 (f a)
    → invocations ((m >>= f) w).1 ≡ 0
unfolding ◌>>=◌
bind-events m f w v a es e none_yet later =
    rw e (omega (arith, invocations-append es (f a v).1, none_yet, later v))

-- after an action that fails
bind-failed :
    {W A B : Type 0} (m : Act ToolEffect W A) (f : A → Act ToolEffect W B) (w v : W) (e : Text)
    (es : List ToolEffect)
    → m w ≡ (err e, es, v)
    → invocations es ≡ 0
    → invocations ((m >>= f) w).1 ≡ 0
unfolding ◌>>=◌
bind-failed m f w v x es e none_yet = rw e none_yet

finish-Calls0 : {W A : Type 0} (x : Result Text A) → Calls0 {W = W} (finish x)
finish-Calls0 (ok a) w = refl
finish-Calls0 (err e) w = refl

from_result-Calls0 : {W A : Type 0} (op : W → Result Text A × W) → Calls0 (from_result op)
from_result-Calls0 op = Calls0-bind (call op) finish (λ w. refl) finish-Calls0

module _ {W V S : Type 0} (r : Runner W S) (read_payload : Text → ToolCallPayload)
    (execute_wasm : Manifest → HookRequest → V → Result Text HookResponse × V)
    (loaded : List Manifest) (hook : HookRequest → W → Result Text HookResponse × W)
    (relays : IsEngineClient read_payload execute_wasm loaded hook)
    (closed : r.hook_fail_closed ≡ true) where
  abbrev request : (call trace tool args : Text) → HookRequest
  request call_id trace tool args = record {
    event = pre_tool_use;
    run_id = [];
    trace_id = trace;
    payload_json = r.codec.pre_payload call_id tool args;
  }

  -- The hook denies the call, or fails and with it the execution.
  abbrev Stops : Result Text Decision × List ToolEffect × W → HookRequest → Type 0
  Stops out req =
      ((reason : Text) × (v : W) × (out ≡ (ok (deny reason), hooked req ∷ [], v)))
      ⊎ ((e : Text) × (v : W) × (out ≡ (err e, hooked req ∷ [], v)))

  relayed-refused :
      (req : HookRequest) (resp : HookResponse) (over : Option Text) (v v' : V)
      → Engine.execute read_payload execute_wasm over (load_hooks loaded) req v ≡ (resp, none, v')
      → req.event ≡ pre_tool_use
      → deny_dangerous_bash (read_payload req.payload_json) ≡ true
      → resp.allowed ≡ false
  unfolding Engine.execute
  relayed-refused req resp (some e) v v' executed before bad = cc
  relayed-refused req resp none v v' executed before bad =
      let denial = execute-load_hooks read_payload execute_wasm loaded req v before in
      ground (arith, executed, denial, bad)

  pre_tool_hook-stopped :
      (call_id trace name args : Text) (w v : W) (answer : Result Text HookResponse)
      → hook (request call_id trace name args) w ≡ (answer, v)
      → deny_dangerous_bash (read_payload (r.codec.pre_payload call_id name args)) ≡ true
      → Stops
          (pre_tool_hook r (some hook) call_id trace name args w)
          (request call_id trace name args)
  unfolding pre_tool_hook pre_decision ◌>>=◌
  pre_tool_hook-stopped call_id trace name args w v (err e) answered bad =
      inr (e, v, ground (arith, answered, closed))
  pre_tool_hook-stopped call_id trace name args w v (ok resp) answered bad =
      let req = request call_id trace name args in
      let (over, u, u', executed) = relays req w resp (ap (λ x. x.0) answered) in
      let refused = relayed-refused req resp over u u' executed refl bad in
      inl (resp.reason, v, ground (arith, answered, refused))

  pre_tool_hook-denied :
      (o : Option (HookRequest → W → Result Text HookResponse × W)) (call_id trace name args : Text)
      (w : W)
      → o ≡ some hook
      → deny_dangerous_bash (read_payload (r.codec.pre_payload call_id name args)) ≡ true
      → Stops (pre_tool_hook r o call_id trace name args w) (request call_id trace name args)
  pre_tool_hook-denied o call_id trace name args w e bad =
      let req = request call_id trace name args in
      subst (λ h. Stops (pre_tool_hook r h call_id trace name args w) req) (sym e)
        (pre_tool_hook-stopped call_id trace name args w (hook req w).1 (hook req w).0 refl bad)

  deny-Calls0 :
      (driver : Driver W S) (tool : Tool W S) (sb : S) (call_id trace name reason : Text)
      → Calls0 (invoke_decided r driver tool sb call_id trace name (deny reason))
  unfolding invoke_decided
  deny-Calls0 driver tool sb call_id trace name reason =
      Calls0-bind (call r.elapsed_ms) _ (λ w. refl) (λ n w. refl)

  in_sandbox-denied :
      (driver : Driver W S) (tool : Tool W S) (sb : S) (call_id trace name args : Text)
      → r.hook ≡ some hook
      → deny_dangerous_bash (
          read_payload
            (r.codec.pre_payload call_id name (if is_empty args then codes "{}" else args)))
        ≡ true
      → Calls0 (in_sandbox r driver tool sb call_id trace name args)
  unfolding in_sandbox
  in_sandbox-denied driver tool sb call_id trace name args e bad w =
      let args' = if is_empty args then codes "{}" else args in
      let m = pre_tool_hook r r.hook call_id trace name args' in
      let f = invoke_decided r driver tool sb call_id trace name in
      elim (pre_tool_hook-denied r.hook call_id trace name args' w e bad) [
        | inl (reason, v, refused) ↦
            bind-events m f w v (deny reason) _ refused refl
              (deny-Calls0 driver tool sb call_id trace name reason)
        | inr (x, v, failed) ↦ bind-failed m f w v x _ failed refl
      ]

  execute_tool-denied :
      (driver : Driver W S) (tool : Option (Tool W S)) (workspace call_id trace name args : Text)
      → r.hook ≡ some hook
      → deny_dangerous_bash (
          read_payload
            (r.codec.pre_payload call_id name (if is_empty args then codes "{}" else args)))
        ≡ true
      → Calls0 (execute_tool r driver tool workspace call_id trace name args)
  unfolding execute_tool finally release_sandbox
  execute_tool-denied driver none workspace call_id trace name args e bad =
      Calls0-bind (call r.elapsed_ms) _ (λ w. refl) (λ n w. refl)
  execute_tool-denied driver (some tool) workspace call_id trace name args e bad =
      Calls0-bind (from_result (driver.acquire workspace)) _
        (from_result-Calls0 (driver.acquire workspace))
        λ sb.
          Calls0-bind (emit (acquired workspace)) _ (λ w. refl)
            λ u.
              Calls0-bind (try (in_sandbox r driver tool sb call_id trace name args)) _
                (in_sandbox-denied driver tool sb call_id trace name args e bad)
                λ x.
                  Calls0-bind (release_sandbox r driver sb) _
                    (Calls0-bind (call (driver.release sb)) _ (λ w. refl) (λ y w. refl))
                    (λ y. finish-Calls0 x)

  execute_with-denied :
      (registry : Option (Registry W S)) (driver : Option (Driver W S))
      (workspace call_id trace name args : Text)
      → r.hook ≡ some hook
      → deny_dangerous_bash (
          read_payload
            (r.codec.pre_payload call_id name (if is_empty args then codes "{}" else args)))
        ≡ true
      → Calls0 (execute_with r registry driver workspace call_id trace name args)
  unfolding execute_with
  execute_with-denied none driver workspace call_id trace name args e bad w = refl
  execute_with-denied (some registry) none workspace call_id trace name args e bad w = refl
  execute_with-denied (some registry) (some driver) workspace call_id trace name args e bad w =
      execute_tool-denied driver (get name registry) workspace call_id trace name args e bad w

  -- Where the hook client fails or relays the answers of an engine with the built-in hooks and any
  -- loaded ones, and `HookFailClosed` is set, an execution whose call is a dangerous bash command by
  -- its payload calls no tool.
  pub execute_in_workspace-denied :
      (workspace call_id trace name args : Text) (w : W)
      → r.hook ≡ some hook
      → deny_dangerous_bash (
          read_payload
            (r.codec.pre_payload call_id name (if is_empty args then codes "{}" else args)))
        ≡ true
      → invocations (execute_in_workspace r workspace call_id trace name args w).1 ≡ 0
  unfolding execute_in_workspace
  execute_in_workspace-denied workspace call_id trace name args w e bad =
      execute_with-denied r.registry r.driver workspace call_id trace name args e bad w
