-- ===== src/Llm/OpenAi/Described.antt =====
-- A description of the events that internal/llm/openai.go makes of the body of an answer.
use ai_agent_cloud_runtime.Prelude.{
  Bool, false, ◌||◌, Option, none, some, List, [], ◌∷◌, ◌++◌, map, if◌then◌else◌,
}
use ai_agent_cloud_runtime.Prelude.Text.{Text, codes, is_empty, text_eq}
use ai_agent_cloud_runtime.Prelude.Cuts.{split}
use ai_agent_cloud_runtime.Agent.Types.{ToolCall, TokenEvent}
use ai_agent_cloud_runtime.Llm.OpenAi.Calls.{ToolDelta}
use ai_agent_cloud_runtime.Llm.OpenAi.Joined.{first_indices, joined_call}
use ai_agent_cloud_runtime.Llm.OpenAi.{
  Choice, Body, token_of, done_of, calls_of, end_of, payload_of,
}

abbrev pub choices_of : Option (List Choice) → List Choice
choices_of none = []
choices_of (some chs) = chs

-- what the payload of a line adds to the choices of the lines behind it
abbrev pub before_rest : (Text → Option (List Choice)) → Option Text → List Choice → List Choice
before_rest decode none rest = rest
before_rest decode (some p) rest =
    if is_empty p
    then rest
    else if text_eq p (codes "[DONE]")
    then []
    else choices_of (decode p) ++ rest

-- the choices of the chunks that decode, up to the end marker
abbrev pub received : (Text → Option (List Choice)) → List Text → List Choice
received decode [] = []
received decode (line ∷ lines) = before_rest decode (payload_of line) (received decode lines)

abbrev pub marks : Option Text → Bool → Bool
marks none rest = rest
marks (some p) rest = if is_empty p then rest else text_eq p (codes "[DONE]") || rest

-- whether there is such a line
abbrev pub is_marked : List Text → Bool
is_marked [] = false
is_marked (line ∷ lines) = marks (payload_of line) (is_marked lines)

-- the choices up to the first with a reason to finish, and that reason
abbrev pub until_reason : List Choice → List Choice
until_reason [] = []
until_reason (ch ∷ chs) =
    let rest = until_reason chs in if is_empty ch.finish_reason then ch ∷ rest else ch ∷ []

abbrev pub reason_of : List Choice → Text
reason_of [] = []
reason_of (ch ∷ chs) =
    let rest = reason_of chs in if is_empty ch.finish_reason then rest else ch.finish_reason

-- the contents that are not empty
abbrev pub contents : List Choice → List Text
contents [] = []
contents (ch ∷ chs) =
    let rest = contents chs in if is_empty ch.content then rest else ch.content ∷ rest

-- the fragments of tool calls
abbrev pub fragments : List Choice → List ToolDelta
fragments [] = []
fragments (ch ∷ chs) = ch.tool_calls ++ fragments chs

abbrev pub joined_calls : List ToolDelta → List ToolCall
joined_calls ds = map (joined_call ds) (first_indices [] ds)

-- the last events, for a reason to finish that is not empty
abbrev pub finishing : Text → List ToolDelta → List TokenEvent
finishing reason [] = done_of reason ∷ []
finishing reason (d ∷ ds) =
    if text_eq reason (codes "tool_calls")
    then calls_of (joined_calls (d ∷ ds)) ∷ done_of reason ∷ []
    else done_of reason ∷ []

abbrev pub closing : Text → List ToolDelta → TokenEvent → List TokenEvent
closing reason ds last = if is_empty reason then last ∷ [] else finishing reason ds

-- the event behind the last line
abbrev pub last_event : List Text → Body → TokenEvent
last_event lines body = if is_marked lines then done_of [] else end_of body.failure

abbrev pub described : (Text → Option (List Choice)) → Body → List TokenEvent
described decode body =
    let lines = split 10 body.bytes in
    let chs = received decode lines in
    map token_of (contents (until_reason chs))
    ++ closing (reason_of chs) (fragments (until_reason chs)) (last_event lines body)
