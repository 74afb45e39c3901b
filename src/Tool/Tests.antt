-- ===== src/Tool/Tests.antt =====
-- Runs with a tool that returns its arguments, in a world that counts.
use ai_agent_cloud_runtime.Prelude.{
  ℕ, suc, ◌≡◌, refl, true, false, Option, none, some, [], ◌∷◌, ok, err, Result, ◌==◌, ◌%◌,
  if◌then◌else◌, arith,
}
use ai_agent_cloud_runtime.Prelude.Int.{pos}
use ai_agent_cloud_runtime.Prelude.Text.{Text, codes, is_empty, text_eq, has_prefix}
use ai_agent_cloud_runtime.Prelude.Substrings.{contains, to_lower, replace_all, replace_from}
use ai_agent_cloud_runtime.Hook.Manifest.{
  Manifest, ToolCallPayload, load_hooks, deny_dangerous_bash,
}
use ai_agent_cloud_runtime.Hook.Engine.{execute}
use ai_agent_cloud_runtime.Agent.Types.{HookRequest, HookResponse}
use ai_agent_cloud_runtime.Tool.Registry.{Tool}
use ai_agent_cloud_runtime.Tool.Runner.{Codec, Runner, execute_in_workspace}
use ai_agent_cloud_runtime.Tool.Released.{track, execute_in_workspace-released}
use ai_agent_cloud_runtime.Prelude.Cuts.{split}
use ai_agent_cloud_runtime.Tool.Paths.{safe_path, clean, allowed_host}
use ai_agent_cloud_runtime.Tool.Paths.Inside.{IsInside, safe_path-IsInside}
use ai_agent_cloud_runtime.Tool.Guarded.{IsEngineClient, invocations, execute_in_workspace-denied}

abbrev bash : Tool ℕ ℕ
bash = record {
  descriptor = record { name = codes "bash"; description = []; schema = [] };
  invoke = λ sb args w. (ok (record { content = args; is_error = false; metadata = [] }), suc w);
}

abbrev other : Tool ℕ ℕ
other = record bash { invoke = λ sb args w. (err (codes "other"), w) }

-- payloads are the arguments themselves
abbrev codec : Codec
codec = record {
  pre_payload = λ call tool args. args;
  post_payload = λ call tool res. res.content;
  patched_args = λ s. ok s;
  patched_result = λ s. err [];
  metadata = λ m. ok [];
}

abbrev read_payload : Text → ToolCallPayload
read_payload s = record { tool = codes "bash"; cmd = none; command = some s; cmd_strings = [] }

abbrev no_module : Manifest → HookRequest → ℕ → Result Text HookResponse × ℕ
no_module m req w = (err (codes "no module"), w)

abbrev relayed : HookResponse → Option Text → Result Text HookResponse
relayed resp none = ok resp
relayed resp (some e) = err e

-- A context that is done at odd times.
abbrev context : ℕ → Option Text
context w = if w % 2 == 1 then some (codes "context canceled") else none

-- A client of an engine.
abbrev client : HookRequest → ℕ → Result Text HookResponse × ℕ
client req w =
    let (resp, e, v) = execute read_payload no_module (context w) (load_hooks []) req 0 in
    (relayed resp e, w)

client_relays : IsEngineClient read_payload no_module [] client
client_relays req w resp answered =
    go (execute read_payload no_module (context w) (load_hooks []) req 0) refl answered
  where
    go :
        (x : HookResponse × Option Text × ℕ)
        → execute read_payload no_module (context w) (load_hooks []) req 0 ≡ x
        → relayed x.0 x.1 ≡ ok resp
        → (over : Option Text) × (v v' : ℕ) × (execute read_payload no_module over
              (load_hooks [])
              req
              v
            ≡ (resp, none, v'))
    go (resp', none, v) e h = (context w, 0, v, ground (arith, e, h))
    go (resp', some x, v) e h = absurd (cc)

abbrev runner : Runner ℕ ℕ
runner = record {
  registry = some ((codes "bash", bash) ∷ []);
  driver = some (record {
    acquire = λ id w. (ok w, suc w);
    release = λ sb w. (none, suc w);
    container_id = λ sb. sb ∷ [];
  });
  hook = some client;
  hook_fail_closed = true;
  codec = codec;
  elapsed_ms = λ w. (pos 1, w);
}

execute_in_workspace-released_example :
    track false
      (execute_in_workspace runner (codes "ws") (codes "c") [] (codes "bash") (codes "ls") 0).1
    ≡ some false
execute_in_workspace-released_example =
    execute_in_workspace-released runner (codes "ws") (codes "c") [] (codes "bash") (codes "ls") 0

rm_is_denied : deny_dangerous_bash (read_payload (codes "rm -rf /")) ≡ true
unfolding deny_dangerous_bash contains to_lower replace_all replace_from has_prefix text_eq is_empty
rm_is_denied = refl

execute_in_workspace-denied_example :
    invocations
      (execute_in_workspace runner
        (codes "ws")
        (codes "c")
        []
        (codes "bash")
        (codes "rm -rf /")
        0).1
    ≡ 0
unfolding is_empty
execute_in_workspace-denied_example =
    execute_in_workspace-denied runner read_payload no_module [] client client_relays refl
      (codes "ws") (codes "c") [] (codes "bash") (codes "rm -rf /") 0 refl rm_is_denied

abbrev workspace : Text
workspace = codes "/workspace"

inner_path : safe_path workspace (codes "a/../b/./c") ≡ ok (codes "/workspace/b/c")
unfolding safe_path clean is_empty text_eq has_prefix split
inner_path = refl

outer_path :
    safe_path workspace (codes "../etc/passwd")
    ≡ err (codes "path \"../etc/passwd\" escapes workspace")
unfolding safe_path clean is_empty text_eq has_prefix split
outer_path = refl

suffix_is_allowed : allowed_host (codes ".Example.com" ∷ []) (codes "api.example.com:443") ≡ true
unfolding allowed_host text_eq to_lower has_prefix
suffix_is_allowed = refl

safe_path-IsInside_example : IsInside workspace (codes "/workspace/b/c")
unfolding has_prefix
safe_path-IsInside_example =
    safe_path-IsInside workspace (codes "a/../b/./c") (codes "/workspace/b/c") refl inner_path
