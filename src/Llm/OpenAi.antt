-- ===== src/Llm/OpenAi.antt =====
-- internal/llm/openai.go: the request, and the goroutine of `Stream` that reads the answer, a stream of
-- server-sent events. JSON and the HTTP client are parameters; a context may end before any send.
pub mod Calls
pub mod Joined
pub mod Described
pub mod Said
pub mod Events
pub mod Heard
use ai_agent_cloud_runtime.Prelude.{
  ℕ, ◌/◌, Bool, true, false, ◌&&◌, Option, none, some, List, [], ◌∷◌, ◌++◌, map, Result, ok, err,
  drop, ◌==◌, if◌then◌else◌,
}
use ai_agent_cloud_runtime.Prelude.Int.{ℤ, pos, is_zero}
use ai_agent_cloud_runtime.Prelude.Text.{
  Text, codes, is_empty, text_eq, has_prefix, trim_space, decimal,
}
use ai_agent_cloud_runtime.Prelude.Cuts.{split, trim_right}
use ai_agent_cloud_runtime.Prelude.Act.{Act, pure, raise, call, emit, ◌>>=◌, ◌>>◌}
use ai_agent_cloud_runtime.Agent.Types.{ToolCall, Message, ToolDefinition, Req, TokenEvent}
use ai_agent_cloud_runtime.Llm.OpenAi.Calls.{
  ToolDelta, CallBuilders, no_calls, add_deltas, built_calls, typed_call,
}

-- `openaiChatReq`; the temperature is left at zero.
pub record ChatReq : Type 0 where
  pub model : Text
  pub messages : List Message
  pub tools : List ToolDefinition
  pub stream : Bool
  pub max_tokens : ℤ
  pub thinking : Option Text

-- `OpenAIProvider`
pub record Provider : Type 0 where
  pub base_url : Text
  pub api_key : Text
  pub model : Text
  pub max_tokens : ℤ
  pub thinking_enabled : Bool

-- `NewOpenAIWithOptions`
unfoldable pub new_openai : (base_url api_key model : Text) → ℤ → Bool → Provider
new_openai base_url api_key model max_tokens thinking = record {
  base_url = trim_right (codes "/") base_url;
  api_key = api_key;
  model = model;
  max_tokens = max_tokens;
  thinking_enabled = thinking;
}

-- The calls of a message, as `toOpenAIMessages` writes them.
unfoldable pub to_openai_message : Message → Message
to_openai_message m = record m { tool_calls = map typed_call m.tool_calls }

-- `max_tokens` is that of the request, which the runner leaves at zero.
unfoldable pub chat_req : Provider → (max_tokens : ℤ) → Req → ChatReq
unfolding to_openai_message
chat_req p max_tokens req = record {
  model = if is_empty req.model then p.model else req.model;
  messages = map to_openai_message req.messages;
  tools = req.tools;
  stream = true;
  max_tokens = if is_zero max_tokens then p.max_tokens else max_tokens;
  thinking = if p.thinking_enabled then some (codes "enabled") else none;
}

-- One of `Choices` of an `openaiStreamChunk`; no reason to finish is an empty one.
pub record Choice : Type 0 where
  pub content : Text
  pub tool_calls : List ToolDelta
  pub finish_reason : Text

-- What can be read of the body of an answer, and the error after it if it is not `io.EOF`. The request is
-- made with the context of `Stream`: where that ends before the body, its error is the one here.
pub record Body : Type 0 where
  pub bytes : Text
  pub failure : Option Text

abbrev pub token_of : Text → TokenEvent
token_of s = record { token = s; tool_calls = []; done = false; stop_reason = []; err = none }

abbrev pub done_of : Text → TokenEvent
done_of reason = record {
  token = [];
  tool_calls = [];
  done = true;
  stop_reason = reason;
  err = none;
}

abbrev pub calls_of : List ToolCall → TokenEvent
calls_of calls = record {
  token = [];
  tool_calls = calls;
  done = false;
  stop_reason = codes "tool_calls";
  err = none;
}

abbrev pub failure_of : Text → TokenEvent
failure_of e = record {
  token = [];
  tool_calls = [];
  done = false;
  stop_reason = [];
  err = some (codes "sse read: " ++ e);
}

abbrev pub end_of : Option Text → TokenEvent
end_of none = done_of []
end_of (some e) = failure_of e

-- `data:` of a line, if it is one
unfoldable pub payload_of : Text → Option Text
payload_of raw =
    let line = trim_right (codes "\r\n") raw in
    if has_prefix line (codes "data:") then some (trim_space (drop 5 line)) else none

abbrev pub is_calls : Text → List (ℤ × ToolCall) → Bool
is_calls reason [] = false
is_calls reason (c ∷ cs) = text_eq reason (codes "tool_calls")

module _ {W : Type 0} (is_done : W → Bool × W) where
  -- `send`, which fails where the context has ended, and what follows
  unfoldable pub send_then : TokenEvent → Act TokenEvent W (Unit {0}) → Act TokenEvent W (Unit {0})
  send_then ev next = do over ← call is_done; if over then pure tt else emit ev >> next

  -- a reason to finish
  unfoldable pub finish_stream : Text → CallBuilders → Act TokenEvent W (Unit {0})
  unfolding send_then
  finish_stream reason calls =
      let last = send_then (done_of reason) (pure tt) in
      if is_calls reason calls.builders then send_then (calls_of (built_calls calls)) last else last

  unfoldable pub send_content : Text → Act TokenEvent W (Unit {0}) → Act TokenEvent W (Unit {0})
  unfolding send_then
  send_content content next = if is_empty content then next else send_then (token_of content) next

  -- the loop over the choices of a chunk
  unfoldable pub each_choice :
      List Choice
      → CallBuilders
      → (CallBuilders → Act TokenEvent W (Unit {0}))
      → Act TokenEvent W (Unit {0})
  unfolding send_content finish_stream
  each_choice [] calls next = next calls
  each_choice (ch ∷ chs) calls next =
      let calls' = add_deltas ch.tool_calls calls in
      let rest = each_choice chs calls' next in
      send_content ch.content
        (if is_empty ch.finish_reason then rest else finish_stream ch.finish_reason calls')

  -- the chunk of a payload
  unfoldable pub on_chunk :
      Option (List Choice)
      → CallBuilders
      → (CallBuilders → Act TokenEvent W (Unit {0}))
      → Act TokenEvent W (Unit {0})
  unfolding each_choice
  on_chunk none calls next = next calls
  on_chunk (some chs) calls next = each_choice chs calls next

  module _ (decode : Text → Option (List Choice)) where
    unfoldable pub on_payload :
        Option Text
        → CallBuilders
        → (CallBuilders → Act TokenEvent W (Unit {0}))
        → Act TokenEvent W (Unit {0})
    unfolding on_chunk send_then
    on_payload none calls next = next calls
    on_payload (some payload) calls next =
        if is_empty payload
        then next calls
        else if text_eq payload (codes "[DONE]")
        then send_then (done_of []) (pure tt)
        else on_chunk (decode payload) calls next

    -- the loop over the lines, and what follows the last of them
    unfoldable pub each_line :
        List Text → CallBuilders → Act TokenEvent W (Unit {0}) → Act TokenEvent W (Unit {0})
    unfolding on_payload payload_of
    each_line [] calls last = last
    each_line (line ∷ lines) calls last =
        on_payload (payload_of line) calls (λ calls'. each_line lines calls' last)

    -- the goroutine of `Stream`
    unfoldable pub read_events : Body → Act TokenEvent W (Unit {0})
    unfolding each_line send_then
    read_events body =
        each_line (split 10 body.bytes) no_calls (send_then (end_of body.failure) (pure tt))

-- The HTTP client: the error of `NewRequestWithContext`, if a URL has one, and the status and the body
-- of the answer to a POST with these headers.
pub record HttpClient (W : Type 0) : Type 0 where
  pub refusal : (url : Text) → Option Text
  pub post :
      (url : Text) (headers : List (Text × Text)) (body : Text) → W → Result Text (ℕ × Body) × W

module _ {W : Type 0} (client : HttpClient W) (marshal : ChatReq → Result Text Text) where
  unfoldable pub answered : Result Text (ℕ × Body) → Act TokenEvent W Body
  answered (err e) = raise (codes "http do: " ++ e)
  answered (ok (status, body)) =
      if status / 100 == 2
      then pure body
      else raise (codes "openai http " ++ (decimal status ++ (codes ": " ++ body.bytes)))

  unfoldable pub send_request : Provider → (url buf : Text) → Option Text → Act TokenEvent W Body
  unfolding answered
  send_request p url buf (some e) = raise (codes "new request: " ++ e)
  send_request p url buf none = do
    let authorization =
        if is_empty p.api_key
        then []
        else (codes "Authorization", codes "Bearer " ++ p.api_key) ∷ []
    let headers =
        (codes "Content-Type", codes "application/json")
        ∷ (codes "Accept", codes "text/event-stream")
        ∷ authorization
    answer ← call (client.post url headers buf)
    answered answer

  unfoldable pub post_request : Provider → Result Text Text → Act TokenEvent W Body
  unfolding send_request
  post_request p (err e) = raise (codes "marshal: " ++ e)
  post_request p (ok buf) =
      let url = p.base_url ++ codes "/chat/completions" in
      send_request p url buf (client.refusal url)

  -- `Stream`: the body that the goroutine reads, or an error
  unfoldable pub open_stream : Provider → (max_tokens : ℤ) → Req → Act TokenEvent W Body
  unfolding post_request chat_req
  open_stream p max_tokens req = post_request p (marshal (chat_req p max_tokens req))
