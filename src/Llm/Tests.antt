-- ===== src/Llm/Tests.antt =====
-- Concrete streams.
use ai_agent_cloud_runtime.Prelude.{
  ℕ, zero, suc, true, ◌+◌, length, ◌≡◌, refl, Bool, false, Option, none, some, List, [], ◌∷◌, ok,
  err, if◌then◌else◌,
}
use ai_agent_cloud_runtime.Prelude.Int.{pos}
use ai_agent_cloud_runtime.Prelude.Text.{Text, codes, text_eq, has_prefix, is_empty, trim_space}
use ai_agent_cloud_runtime.Prelude.Cuts.{split, trim_right}
use ai_agent_cloud_runtime.Prelude.Act.{◌>>=◌}
use ai_agent_cloud_runtime.Agent.Types.{Deps, ToolCall}
use ai_agent_cloud_runtime.Queue.Event.{Task}
use ai_agent_cloud_runtime.Orchestrator.Supervisor.{Supervised}
use ai_agent_cloud_runtime.Agent.Runner.Stream.{stream_once}
use ai_agent_cloud_runtime.Agent.Runner.Stream.Tokens.{join, numbered, outcome}
use ai_agent_cloud_runtime.Llm.OpenAi.Calls.{ToolDelta, int_eq, builder_at, add_deltas, built_calls}
use ai_agent_cloud_runtime.Llm.OpenAi.{Choice, Body, token_of, done_of, calls_of, read_events}
use ai_agent_cloud_runtime.Llm.OpenAi.Described.{
  received, is_marked, until_reason, reason_of, contents, fragments, described,
}
use ai_agent_cloud_runtime.Llm.OpenAi.Events.{IsPrefix, read_events-IsPrefix, read_events-described}
use ai_agent_cloud_runtime.Llm.OpenAi.Heard.{stream_failure, calls_heard, stream_once-read_events}

abbrev fragment : Text → Text → ToolDelta
fragment name arguments = record {
  index = pos 0;
  id = [];
  type = [];
  name = name;
  arguments = arguments;
}

abbrev piece : Text → List ToolDelta → Text → Choice
piece content ds reason = record { content = content; tool_calls = ds; finish_reason = reason }

-- The decoder of the payloads below.
abbrev decode : Text → Option (List Choice)
decode p =
    if text_eq p (codes "a")
    then some (piece (codes "one") (fragment (codes "bash") (codes "{") ∷ []) [] ∷ [])
    else if text_eq p (codes "b")
    then some (
        piece (codes "two") (fragment [] (codes "}") ∷ []) (codes "tool_calls")
        ∷ piece (codes "late") [] []
        ∷ [])
    else none

abbrev body : Body
body = record {
  bytes = codes "data: a\r\n\n: ping\ndata:?\ndata: b\ndata: [DONE]\n";
  failure = none;
}

abbrev live : Unit {0} → Bool × Unit {0}
live w = (false, w)

abbrev bash_call : ToolCall
bash_call = record { id = []; type = codes "function"; name = codes "bash"; arguments = codes "{}" }

read_events_run :
    (read_events live decode body tt).1
    ≡ token_of (codes "one")
      ∷ token_of (codes "two")
      ∷ calls_of (bash_call ∷ [])
      ∷ done_of (codes "tool_calls")
      ∷ []
unfolding read_events text_eq split has_prefix trim_right is_empty trim_space ◌>>=◌ add_deltas
    builder_at int_eq built_calls
read_events_run = refl

read_events-described_example : (read_events live decode body tt).1 ≡ described decode body
read_events-described_example = read_events-described live decode (λ w. refl) body tt

-- A context that ends after two sends.
abbrev brief : ℕ → Bool × ℕ
brief zero = (true, 0)
brief (suc n) = (false, n)

brief_run :
    (read_events brief decode body 2).1 ≡ token_of (codes "one") ∷ token_of (codes "two") ∷ []
unfolding read_events text_eq split has_prefix trim_right is_empty trim_space ◌>>=◌ add_deltas
    builder_at int_eq built_calls
brief_run = refl

read_events-IsPrefix_example : IsPrefix (read_events brief decode body 2).1 (described decode body)
read_events-IsPrefix_example = read_events-IsPrefix brief decode body 2

-- A runner whose provider streams the body.
abbrev deps : Deps (Unit {0})
deps = record {
  publish = λ ev w. (none, w);
  append = λ run m w. (ok (codes "m1"), w);
  render = λ run w. (ok [], w);
  fold = λ run from to summary w. (ok (codes "fold-1"), w);
  stream = λ req w. (ok (read_events live decode body tt).1, w);
  skills = none;
  rag = none;
  hook = none;
  tool_runner = none;
  agent_tool_runner = none;
  new_run_id = λ w. (codes "child", w);
  elapsed_ms = λ w. (1, w);
  summarize = λ ms. codes "summary";
  unmarshal_request = λ text. err (codes "syntax");
  marshal_result = λ r. codes "{}";
  subagent_meta = λ run role. codes "{}";
  marshal_tool_calls = λ calls. codes "[]";
  post_llm_payload = λ text calls. codes "{}";
}

abbrev task : Task
task = record {
  run_id = codes "run-1";
  user_id = codes "u";
  agent_id = [];
  prompt = codes "go";
  model = codes "m";
  system_prompt = [];
  trace_id = codes "t";
  attempt = 0;
}

abbrev start : Supervised (Unit {0})
start = record { children = []; world = tt }

abbrev chunks : List Choice
chunks = received decode (split 10 body.bytes)

stream_once-read_events_example :
    ((stream_once deps task [] [] 3 start).1 ≡ numbered task 3 (contents (until_reason chunks)))
    × ((stream_once deps task [] [] 3 start).0
        ≡ outcome
            (stream_failure (reason_of chunks) (is_marked (split 10 body.bytes)) body.failure)
            (record {
              text = join (contents (until_reason chunks));
              tool_calls = calls_heard (reason_of chunks) (fragments (until_reason chunks));
              token_cnt = length (contents (until_reason chunks));
              idx = 3 + length (contents (until_reason chunks));
            }))
stream_once-read_events_example =
    stream_once-read_events deps task decode live (λ v. refl) [] [] 3 start body tt refl
