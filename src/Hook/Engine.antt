-- ===== src/Hook/Engine.antt =====
-- internal/hook/engine.go. JSON is read by parameters, and a WASM module is run by one.
use ai_agent_cloud_runtime.Prelude.{
  Bool, true, false, Option, none, some, List, [], ◌∷◌, ◌++◌, map, Result, ok, err, not, ◌&&◌, ◌||◌,
  if◌then◌else◌,
}
use ai_agent_cloud_runtime.Prelude.Text.{Text, codes, is_empty, text_eq}
use ai_agent_cloud_runtime.Prelude.Substrings.{replace_all}
use ai_agent_cloud_runtime.Agent.Types.{HookRequest, HookResponse}
use ai_agent_cloud_runtime.Hook.Manifest.{
  event_name, Manifest, Info, ToolCallPayload, deny_dangerous_bash,
}

abbrev pub mem : Text → List Text → Bool
mem x [] = false
mem x (y ∷ ys) = text_eq y x || mem x ys

unfoldable pub append_unique : List Text → Text → List Text
append_unique xs value =
    if is_empty value then xs else if mem value xs then xs else xs ++ (value ∷ [])

unfoldable pub append_all_unique : List Text → List Text → List Text
unfolding append_unique
append_all_unique xs [] = xs
append_all_unique xs (id ∷ ids) = append_all_unique (append_unique xs id) ids

unfoldable pub merge_response : (base next : HookResponse) (hook_id : Text) → HookResponse
unfolding append_unique append_all_unique
merge_response base next hook_id = record {
  allowed = if next.allowed then base.allowed else false;
  reason = if next.allowed then base.reason else next.reason;
  payload_json = if is_empty next.payload_json then base.payload_json else next.payload_json;
  append_system_messages = base.append_system_messages ++ next.append_system_messages;
  matched_hooks = append_all_unique (append_unique base.matched_hooks hook_id) next.matched_hooks;
}

unfoldable pub redact_payload : (raw pattern replacement : Text) → Text × Bool
redact_payload raw pattern replacement =
    if is_empty pattern
    then (raw, false)
    else (let next = replace_all raw pattern replacement in (next, not (text_eq next raw)))

unfoldable pub source_for_manifest : Manifest → Text
source_for_manifest h =
    if text_eq h.type (codes "wasm") && not (is_empty h.path)
    then codes "wasm:" ++ h.path
    else h.type

-- `Engine.List`
unfoldable pub list_hooks : List Manifest → List Info
unfolding source_for_manifest
list_hooks = map λ h. record {
  id = h.id;
  event = h.event;
  enabled = h.enabled;
  source = source_for_manifest h;
  description = h.description;
}

abbrev matched : HookResponse → Text → HookResponse
matched resp id = record resp { matched_hooks = resp.matched_hooks ++ (id ∷ []) }

-- What a hook does to the response so far: it goes on with another, or `Execute` returns here, with
-- an error or without.
pub data Outcome : Type 0 where
  go_on : HookResponse → Outcome
  finish : HookResponse → Outcome
  abort : HookResponse → Text → Outcome

module _ {W : Type 0} (read_payload : Text → ToolCallPayload)
    (execute_wasm : Manifest → HookRequest → W → Result Text HookResponse × W) where
  unfoldable pub append_system : Manifest → HookResponse → Outcome
  append_system h resp = go_on (
      if is_empty h.message
      then resp
      else matched
          (record resp { append_system_messages = resp.append_system_messages ++ (h.message ∷ []) })
          h.id)

  unfoldable pub deny : Manifest → HookRequest → HookResponse → Outcome
  deny h req resp =
      if deny_dangerous_bash (read_payload req.payload_json)
      then finish (
          matched
            (record resp {
              allowed = false;
              reason = codes "dangerous bash command denied by hook";
            })
            h.id)
      else go_on resp

  unfoldable pub redact : Manifest → HookResponse → Outcome
  unfolding redact_payload
  redact h resp =
      let (next, changed) = redact_payload resp.payload_json h.pattern h.replacement in
      go_on (if changed then matched (record resp { payload_json = next }) h.id else resp)

  unfoldable pub merged : Manifest → HookResponse → Result Text HookResponse → Outcome
  merged h resp (err e) = abort resp e
  merged h resp (ok next) =
      let resp' = merge_response resp next h.id in
      if resp'.allowed then go_on resp' else finish resp'

  unfoldable pub run_hook : Manifest → HookRequest → HookResponse → W → Outcome × W
  run_hook h req resp w =
      if text_eq h.type (codes "append_system")
      then (append_system h resp, w)
      else if text_eq h.type (codes "deny_dangerous_bash")
      then (deny h req resp, w)
      else if text_eq h.type (codes "redact")
      then (redact h resp, w)
      else if text_eq h.type (codes "wasm")
      then (let (r, w') = execute_wasm h req w in (merged h resp r, w'))
      else (go_on resp, w)

  -- The response, the error, and the world.
  abbrev Executed : Type 0
  Executed = HookResponse × Option Text × W

  unfoldable pub resume_hooks : Outcome → W → (HookResponse → W → Executed) → Executed
  resume_hooks (go_on resp) w rest = rest resp w
  resume_hooks (finish resp) w rest = (resp, none, w)
  resume_hooks (abort resp e) w rest = (resp, some e, w)

  unfoldable pub run_hooks : List Manifest → HookRequest → HookResponse → W → Executed
  unfolding run_hook
  run_hooks [] req resp w = (resp, none, w)
  run_hooks (h ∷ hs) req resp w =
      let rest = run_hooks hs req in
      if h.enabled && text_eq h.event (event_name req.event)
      then (let (o, w') = run_hook h req resp w in resume_hooks o w' rest)
      else rest resp w

  abbrev first_response : HookRequest → HookResponse
  first_response req = record {
    allowed = true;
    reason = [];
    payload_json = req.payload_json;
    append_system_messages = [];
    matched_hooks = [];
  }

  -- `Response{}`
  abbrev no_response : HookResponse
  no_response = record {
    allowed = false;
    reason = [];
    payload_json = [];
    append_system_messages = [];
    matched_hooks = [];
  }

  -- `Execute`, for the answer of `ctx.Err`
  unfoldable pub execute : (over : Option Text) → List Manifest → HookRequest → W → Executed
  unfolding run_hooks
  execute (some e) hooks req w = (no_response, some e, w)
  execute none hooks req w = run_hooks hooks req (first_response req) w
