-- ===== src/Tool/Released.antt =====
-- Every sandbox that an execution has acquired is released, on every path.
use ai_agent_cloud_runtime.Prelude.{
  ◌≡◌, refl, ◌∙◌, Bool, true, false, Option, none, some, List, [], ◌∷◌, ◌++◌, Result, ok, err,
  arith,
}
use ai_agent_cloud_runtime.Prelude.Text.{Text}
use ai_agent_cloud_runtime.Prelude.Act.{Act, call, emit, continue, ◌>>=◌, ◌>>◌}
use ai_agent_cloud_runtime.Agent.Types.{HookRequest, HookResponse}
use ai_agent_cloud_runtime.Tool.Registry.{ToolResult, Tool, Registry, get}
use ai_agent_cloud_runtime.Tool.Runner.{
  Driver, Runner, ToolEffect, acquired, hooked, invoked, released, finish, finally, from_result,
  Decision, allow, deny, pre_decision, pre_tool_hook, post_patch, post_tool_hook, invoke_decided,
  in_sandbox, release_sandbox, execute_tool, execute_with, execute_in_workspace,
}

-- Whether a sandbox is held after some effects, `none` if one is acquired while another is held, if
-- one is released that is not held, or if a hook or the tool is called while none is.
abbrev pub track : Bool → List ToolEffect → Option Bool
track held [] = some held
track true (acquired ws ∷ es) = none
track false (acquired ws ∷ es) = track true es
track true (released ∷ es) = track false es
track false (released ∷ es) = none
track true (hooked req ∷ es) = track true es
track false (hooked req ∷ es) = none
track true (invoked tool args ∷ es) = track true es
track false (invoked tool args ∷ es) = none

track-append :
    (h k : Bool) (es fs : List ToolEffect) → track h es ≡ some k → track h (es ++ fs) ≡ track k fs
track-append h k [] fs e = ground arith
track-append true k (acquired ws ∷ es) fs e = cc
track-append false k (acquired ws ∷ es) fs e = track-append true k es fs e
track-append true k (released ∷ es) fs e = track-append false k es fs e
track-append false k (released ∷ es) fs e = cc
track-append true k (hooked req ∷ es) fs e = track-append true k es fs e
track-append false k (hooked req ∷ es) fs e = cc
track-append true k (invoked tool args ∷ es) fs e = track-append true k es fs e
track-append false k (invoked tool args ∷ es) fs e = cc

-- From holding or not to holding or not, whether the action fails or not.
abbrev Goes : {W A : Type 0} → Bool → Bool → Act ToolEffect W A → Type 0
Goes {W} h k m = (w : W) → track h (m w).1 ≡ some k

Goes-bind :
    {W A B : Type 0} (h : Bool) (m : Act ToolEffect W A) (f : A → Act ToolEffect W B)
    → Goes h h m
    → ((a : A) → Goes h h (f a))
    → Goes h h (m >>= f)
unfolding ◌>>=◌
Goes-bind h m f p q w = go (m w).0
  where
    go : (r : Result Text _) → track h (continue r (m w).1 f (m w).2).1 ≡ some h
    go (ok a) = track-append h h (m w).1 (f a (m w).2).1 (p w) ∙ q a (m w).2
    go (err e) = p w

module _ {W S : Type 0} (r : Runner W S) where
  pre_decision-Goes :
      (args : Text) (answer : Result Text HookResponse)
      → Goes true true (pre_decision r args answer)
  unfolding pre_decision
  pre_decision-Goes args (err e) w = ground arith
  pre_decision-Goes args (ok resp) w = ground arith

  pre_tool_hook-Goes :
      (hook : Option (HookRequest → W → Result Text HookResponse × W))
      (call_id trace tool args : Text)
      → Goes true true (pre_tool_hook r hook call_id trace tool args)
  unfolding pre_tool_hook ◌>>=◌
  pre_tool_hook-Goes none call_id trace tool args w = refl
  pre_tool_hook-Goes (some hook) call_id trace tool args w = pre_decision-Goes args _ _

  post_patch-Goes :
      (res : ToolResult) (answer : Result Text HookResponse)
      → Goes true true (post_patch r res answer)
  unfolding post_patch
  post_patch-Goes res (err e) w = ground arith
  post_patch-Goes res (ok resp) w = ground arith

  post_tool_hook-Goes :
      (hook : Option (HookRequest → W → Result Text HookResponse × W)) (call_id trace tool : Text)
      (res : ToolResult)
      → Goes true true (post_tool_hook r hook call_id trace tool res)
  unfolding post_tool_hook ◌>>=◌
  post_tool_hook-Goes none call_id trace tool res w = refl
  post_tool_hook-Goes (some hook) call_id trace tool res w = post_patch-Goes res _ _

  finish-Goes : {A : Type 0} (h : Bool) (x : Result Text A) → Goes {W = W} h h (finish x)
  finish-Goes h (ok a) w = refl
  finish-Goes h (err e) w = refl

  from_result-Goes :
      {A : Type 0} (h : Bool) (op : W → Result Text A × W) → Goes h h (from_result op)
  from_result-Goes h op = Goes-bind h (call op) finish (λ w. refl) (finish-Goes h)

  invoke_decided-Goes :
      (driver : Driver W S) (tool : Tool W S) (sb : S) (call_id trace name : Text) (d : Decision)
      → Goes true true (invoke_decided r driver tool sb call_id trace name d)
  unfolding invoke_decided
  invoke_decided-Goes driver tool sb call_id trace name (deny reason) =
      Goes-bind true (call r.elapsed_ms) _ (λ w. refl) (λ n w. refl)
  invoke_decided-Goes driver tool sb call_id trace name (allow args) =
      Goes-bind true (emit (invoked name args)) _ (λ w. refl)
        λ u.
          Goes-bind true (from_result (tool.invoke sb args)) _
            (from_result-Goes true (tool.invoke sb args))
            λ res.
              Goes-bind true (post_tool_hook r r.hook call_id trace name res) _
                (post_tool_hook-Goes r.hook call_id trace name res)
                λ res'. Goes-bind true (call r.elapsed_ms) _ (λ w. refl) (λ n w. refl)

  in_sandbox-Goes :
      (driver : Driver W S) (tool : Tool W S) (sb : S) (call_id trace name args : Text)
      → Goes true true (in_sandbox r driver tool sb call_id trace name args)
  unfolding in_sandbox
  in_sandbox-Goes driver tool sb call_id trace name args =
      Goes-bind true (pre_tool_hook r r.hook call_id trace name _) _
        (pre_tool_hook-Goes r.hook call_id trace name _)
        (invoke_decided-Goes driver tool sb call_id trace name)

  finally-Goes :
      {A : Type 0} (driver : Driver W S) (sb : S) (m : Act ToolEffect W A)
      → Goes true true m
      → Goes true false (finally m (release_sandbox r driver sb))
  unfolding finally release_sandbox ◌>>=◌
  finally-Goes driver sb m g w =
      let w' = (driver.release sb (m w).2).1 in
      track-append true true (m w).1 (released ∷ (finish {V = ToolEffect} (m w).0 w').1) (g w)
      ∙ finish-Goes false (m w).0 w'

  acquired-Goes :
      {A : Type 0} (workspace : Text) (n : Act ToolEffect W A)
      → Goes true false n
      → Goes false false (emit (acquired workspace) >> n)
  unfolding ◌>>=◌
  acquired-Goes workspace n g w = g w

  execute_tool-Goes :
      (driver : Driver W S) (tool : Option (Tool W S)) (workspace call_id trace name args : Text)
      → Goes false false (execute_tool r driver tool workspace call_id trace name args)
  unfolding execute_tool
  execute_tool-Goes driver none workspace call_id trace name args =
      Goes-bind false (call r.elapsed_ms) _ (λ w. refl) (λ n w. refl)
  execute_tool-Goes driver (some tool) workspace call_id trace name args =
      Goes-bind false (from_result (driver.acquire workspace)) _
        (from_result-Goes false (driver.acquire workspace))
        λ sb. acquired-Goes workspace _ (
          finally-Goes driver sb (in_sandbox r driver tool sb call_id trace name args)
            (in_sandbox-Goes driver tool sb call_id trace name args))

  execute_with-Goes :
      (registry : Option (Registry W S)) (driver : Option (Driver W S))
      (workspace call_id trace name args : Text)
      → Goes false false (execute_with r registry driver workspace call_id trace name args)
  unfolding execute_with
  execute_with-Goes none driver workspace call_id trace name args w = refl
  execute_with-Goes (some registry) none workspace call_id trace name args w = refl
  execute_with-Goes (some registry) (some driver) workspace call_id trace name args w =
      execute_tool-Goes driver (get name registry) workspace call_id trace name args w

  -- Whatever the driver, the hooks and the tool answer, an execution holds no sandbox at its end, and
  -- it asks hooks and calls the tool only while it holds one.
  pub execute_in_workspace-released :
      (workspace call_id trace name args : Text) (w : W)
      → track false (execute_in_workspace r workspace call_id trace name args w).1 ≡ some false
  unfolding execute_in_workspace
  execute_in_workspace-released workspace call_id trace name args w =
      execute_with-Goes r.registry r.driver workspace call_id trace name args w
