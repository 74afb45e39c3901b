-- ===== src/Agent/Tests.antt =====
-- Concrete runs.
use ai_agent_cloud_runtime.Prelude.{
  ℕ, ◌≤◌, arith, suc, ◌+◌, length, ◌≡◌, refl, Bool, true, false, none, List, [], ◌∷◌, Result, ok,
  err, ◌==◌, ◌&&◌, if◌then◌else◌,
}
use ai_agent_cloud_runtime.Prelude.Int.{pos, default_pos, clamp_zero}
use ai_agent_cloud_runtime.Prelude.Text.{Text, codes, is_empty, text_eq}
use ai_agent_cloud_runtime.Queue.Event.{Task}
use ai_agent_cloud_runtime.Orchestrator.Supervisor.{Supervised, ChildRunRequest, SubagentResult}
use ai_agent_cloud_runtime.Agent.State.{pending, done}
use ai_agent_cloud_runtime.Agent.Types.{
  Deps, Settings, ToolCall, TokenEvent, HistoryMessage, history_message,
}
use ai_agent_cloud_runtime.Agent.Runner.Context.{rune_count, total_chars, needs_compaction}
use ai_agent_cloud_runtime.Agent.Runner.Subagent.{run_child}
use ai_agent_cloud_runtime.Prelude.Maps.{lookup, lookup_or}
use ai_agent_cloud_runtime.Orchestrator.Supervisor.Limited.{IsLimited}
use ai_agent_cloud_runtime.Agent.Limits.{starts}
use ai_agent_cloud_runtime.Agent.Limits.Run.{run-IsLimited}
use ai_agent_cloud_runtime.Agent.Runner.Loop.{run}
use ai_agent_cloud_runtime.Agent.Runner.Stream.{stream_once}
use ai_agent_cloud_runtime.Agent.Runner.Stream.Tokens.{
  heard, broken, tokens, all_calls, join, numbered, outcome, stream_once-numbered,
}
use ai_agent_cloud_runtime.Agent.Trace.{follow, Lands}
use ai_agent_cloud_runtime.Agent.Trace.Rules.{Walks}
use ai_agent_cloud_runtime.Agent.Trace.Child.{run_child-Walks}
use ai_agent_cloud_runtime.Agent.Trace.Compaction.{CompactionWorks}
use ai_agent_cloud_runtime.Agent.Trace.Run.{run-follow}
use ai_agent_cloud_runtime.Agent.Trace.Stuck.{run-compaction_failed}

abbrev dispatch_call : ToolCall
dispatch_call = record {
  id = codes "call-1";
  type = codes "function";
  name = codes "dispatch_subagent";
  arguments = codes "{}";
}

abbrev token_of : Text → List ToolCall → Bool → TokenEvent
token_of token calls is_done = record {
  token = token;
  tool_calls = calls;
  done = is_done;
  stop_reason = [];
  err = none;
}

-- The first answer of the model asks for a subagent, all others are two tokens.
abbrev answer : ℕ → List TokenEvent
answer n =
    if n == 0
    then token_of (codes "one moment") (dispatch_call ∷ []) true ∷ []
    else token_of (codes "all") [] false ∷ token_of (codes " done") [] true ∷ []

abbrev prior : List HistoryMessage
prior =
    history_message (codes "user") (codes "hello") [] []
    ∷ history_message (codes "assistant") (codes "hello") [] []
    ∷ history_message (codes "user") (codes "bye") [] []
    ∷ history_message (codes "assistant") (codes "bye") [] []
    ∷ []

-- A world that counts the calls of the model; `folded` is the answer of `Fold`.
abbrev deps : Result Text Text → Deps ℕ
deps folded = record {
  publish = λ ev w. (none, w);
  append = λ run m w. (ok (codes "m1"), w);
  render = λ run w. (ok prior, w);
  fold = λ run from to summary w. (folded, w);
  stream = λ req w. (ok (answer w), suc w);
  skills = none;
  rag = none;
  hook = none;
  tool_runner = none;
  agent_tool_runner = none;
  new_run_id = λ w. (codes "child", w);
  elapsed_ms = λ w. (1, w);
  summarize = λ ms. codes "summary";
  unmarshal_request =
      λ text. ok (record { role = codes "reviewer"; task = codes "read"; output_schema = [] });
  marshal_result = λ r. codes "{}";
  subagent_meta = λ run role. codes "{}";
  marshal_tool_calls = λ calls. codes "[]";
  post_llm_payload = λ text calls. codes "{}";
}

abbrev settings : Settings
settings = record {
  tool_max_steps = pos 2;
  multi_agent_enabled = true;
  limits = record { max_depth = pos 2; max_children = pos 4 };
  depth = 0;
  compact_policy = record {
    enabled = true;
    max_chars = pos 3;
    keep_head = pos 0;
    keep_tail = pos 1;
  };
  hook_fail_closed = true;
}

abbrev task : Task
task = record {
  run_id = codes "run-1";
  user_id = codes "u";
  agent_id = [];
  prompt = codes "go";
  model = codes "m";
  system_prompt = [];
  trace_id = codes "t";
  attempt = 0;
}

abbrev start : Supervised ℕ
start = record { children = []; world = 0 }

child_differs : (w : ℕ) → text_eq (codes "child") (codes "run-1") ≡ false
unfolding text_eq
child_differs w = refl

works : CompactionWorks ℕ (deps (ok (codes "fold-1"))) settings task
works = record {
  publishes = λ ev w. refl;
  folds = λ from to summary w. (codes "fold-1", refl);
  renders = λ w. (prior, refl);
}

named : is_empty task.run_id ≡ false
unfolding is_empty
named = refl

run-follow_example :
    Lands
      (follow task.run_id pending (run (deps (ok (codes "fold-1"))) settings task start).1)
      (run (deps (ok (codes "fold-1"))) settings task start).0
      done
run-follow_example =
    run-follow (deps (ok (codes "fold-1"))) settings task child_differs (λ e. works) named start

abbrev child_request : ChildRunRequest
child_request = record {
  parent_run_id = codes "run-1";
  child_run_id = codes "child";
  trace_id = codes "t";
  user_id = codes "u";
  model = codes "m";
  role = codes "reviewer";
  task = codes "read";
  depth = 1;
}

run_child-Walks_example :
    Walks
      (Supervised ℕ)
      SubagentResult
      (codes "child")
      pending
      done
      (run_child (deps (ok (codes "fold-1"))) child_request)
run_child-Walks_example = run_child-Walks (deps (ok (codes "fold-1"))) child_request

compaction_due :
    (settings.compact_policy.enabled && needs_compaction settings.compact_policy prior) ≡ true
unfolding needs_compaction total_chars rune_count default_pos clamp_zero
compaction_due = refl

run-compaction_failed_example :
    follow task.run_id pending (run (deps (err (codes "redis down"))) settings task start).1 ≡ none
run-compaction_failed_example =
    run-compaction_failed (deps (err (codes "redis down"))) settings task prior named child_differs
      (λ ev w. refl) (λ m w. (codes "m1", refl)) (λ w. refl)
      (λ from to summary w. (codes "redis down", refl)) compaction_due start

-- The second call of the model.
abbrev second : Supervised ℕ
second = record start { world = 1 }

stream_once-numbered_example :
    ((stream_once (deps (ok [])) task [] [] 3 second).1
      ≡ numbered task 3 (tokens (heard (answer 1))))
    × ((stream_once (deps (ok [])) task [] [] 3 second).0
        ≡ outcome (broken (answer 1)) (record {
          text = join (tokens (heard (answer 1)));
          tool_calls = all_calls (heard (answer 1));
          token_cnt = length (tokens (heard (answer 1)));
          idx = 3 + length (tokens (heard (answer 1)));
        }))
stream_once-numbered_example =
    stream_once-numbered (deps (ok [])) task [] [] 3 second (answer 1) refl

start-IsLimited : IsLimited (default_pos settings.limits.max_children 4) start
unfolding lookup_or lookup
start-IsLimited run = omega arith

run-IsLimited_example :
    let (r, es, s') = run (deps (ok (codes "fold-1"))) settings task start in
    IsLimited (default_pos settings.limits.max_children 4) s'
    × (starts es + lookup_or 0 task.run_id start.children
        ≤ suc (lookup_or 0 task.run_id s'.children))
    × (starts es + lookup_or 0 task.run_id start.children
        ≤ suc (default_pos settings.limits.max_children 4))
run-IsLimited_example =
    run-IsLimited (deps (ok (codes "fold-1"))) settings task start start-IsLimited
