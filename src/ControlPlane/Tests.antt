-- ===== src/ControlPlane/Tests.antt =====
-- Runs and deletions in a world that counts the calls.
use ai_agent_cloud_runtime.Prelude.{
  ℕ, suc, ◌+◌, ◌≡◌, refl, none, List, [], ◌∷◌, ok, err, if◌then◌else◌,
}
use ai_agent_cloud_runtime.Prelude.Int.{pos}
use ai_agent_cloud_runtime.Prelude.Text.{Text, codes, has_prefix, is_empty, text_eq}
use ai_agent_cloud_runtime.Prelude.Counts.{count}
use ai_agent_cloud_runtime.Prelude.Act.{◌>>=◌}
use ai_agent_cloud_runtime.ControlPlane.Types.{AgentSpec, AgentRun}
use ai_agent_cloud_runtime.ControlPlane.Docker.{DockerClient, fail_if, from_result}
use ai_agent_cloud_runtime.ControlPlane.Service.{Store, finished, BatchDeleteResult, delete_agents}
use ai_agent_cloud_runtime.ControlPlane.Runs.{
  Payload, token, run_done, EventRedis, Gateway, append_event, consume_run, ended_text,
}
use ai_agent_cloud_runtime.ControlPlane.Finish.{joined}
use ai_agent_cloud_runtime.ControlPlane.Finish.Ends.{Ends, consume_run-Ends}
use ai_agent_cloud_runtime.ControlPlane.Finish.Ending.{
  Stores, Refuses, ending, consume_run-ending, consume_run_refused,
}
use ai_agent_cloud_runtime.Prelude.Cuts.{split, trim_prefix}
use ai_agent_cloud_runtime.Tool.Paths.{clean}
use ai_agent_cloud_runtime.ControlPlane.Workspace.{safe_workspace_path}
use ai_agent_cloud_runtime.ControlPlane.Deletes.{begun, failed_ids, trimmed, due}
use ai_agent_cloud_runtime.ControlPlane.Deletes.Removed.{Deletions}
use ai_agent_cloud_runtime.ControlPlane.Deletes.Each.{delete_agents-each}

abbrev agent : AgentSpec
agent = record {
  id = codes "a";
  name = codes "agent";
  role = codes "role";
  system_prompt = [];
  model = codes "m";
  image = codes "i";
  cpu_quota_us = pos 1;
  memory_mb = pos 1;
  pids_limit = pos 1;
  tools = [];
  workspace_policy = codes "delete";
  status = codes "running";
  volume_name = codes "v";
  container_id = codes "c";
  last_error = [];
}

abbrev run : AgentRun
run = record {
  run_id = codes "r";
  agent_id = codes "a";
  trace_id = codes "t";
  prompt = codes "p";
  status = codes "running";
  error = [];
  summary = [];
}

abbrev store : Store ℕ
store = record {
  create = λ a w. (none, suc w);
  update_runtime = λ id status container error w. (none, suc w);
  get = λ id w. (ok agent, w);
  delete = λ id w. (none, suc w);
  create_run = λ r w. (none, suc w);
  finish_run = λ id status summary error w. (none, suc w);
}

abbrev client : DockerClient ℕ
client = record {
  inspect_image = λ ref w. (none, w);
  pull_image = λ ref w. (none, w);
  download_image = λ w. (none, w);
  create_volume = λ name id w. (none, w);
  create_container = λ a w. (ok (codes "c"), w);
  start_container = λ id w. (none, w);
  stop_container = λ id w. (none, w);
  remove_container = λ id w. (none, w);
  remove_volume = λ id w. (none, w);
}

abbrev events : EventRedis ℕ
events = record {
  incr = λ key w. (ok (suc w), suc w);
  push = λ key ev w. (none, w);
  range = λ key w. (ok [], w);
}

abbrev broken : EventRedis ℕ
broken = record events { incr = λ key w. (err (codes "down"), w) }

abbrev payloads : List Payload
payloads = token (codes "hi") (pos 0) ∷ run_done (pos 1) ∷ []

abbrev gateway : Gateway ℕ
gateway = record { run_agent = λ r a w. (ok (payloads, codes "EOF"), w) }

events_store : Stores events
unfolding append_event fail_if from_result ◌>>=◌
events_store run' kind data_values w =
    (record { id = suc w; kind = kind; data_values = data_values }, suc w, refl)

broken_refuses : Refuses broken
unfolding append_event fail_if from_result ◌>>=◌
broken_refuses run' kind data_values w = (codes "down", w, refl)

consume_run-Ends_example : Ends (codes "r") (consume_run events store gateway run agent 0).1
consume_run-Ends_example = consume_run-Ends events store gateway run agent 0

consume_run-ending_example :
    (consume_run events store gateway run agent 0).1 ≡ ending (codes "r") payloads (codes "EOF") []
consume_run-ending_example =
    consume_run-ending events store gateway run agent payloads (codes "EOF") 0 0 events_store refl

consume_run_refused_example :
    (consume_run broken store gateway run agent 0).1
    ≡ finished (codes "r") (codes "failed") (joined payloads) (ended_text (codes "EOF")) ∷ []
consume_run_refused_example =
    consume_run_refused broken store gateway run agent payloads (codes "EOF") 0 0 broken_refuses
      refl

abbrev raws : List Text
raws = codes "b" ∷ codes "a" ∷ []

delete_agents-each_example :
    let (answer, es, w') = delete_agents store client (codes "a" ∷ raws) 0 in
    (r : BatchDeleteResult) × (answer ≡ ok r)
    × ((x : Text)
        → count x r.deleted_ids + count x (failed_ids r) ≡ due x [] (trimmed (codes "a" ∷ raws)))
    × ((x : Text)
        → count x (begun es) ≡ (if is_empty x then 0 else due x [] (trimmed (codes "a" ∷ raws))))
    × Deletions store client (begun es) 0 r.deleted_ids w'
delete_agents-each_example = delete_agents-each store client (codes "a") raws 0

preview_path : safe_workspace_path (codes "/a/./b//") ≡ ok (codes "a/b")
unfolding safe_workspace_path clean trim_prefix split has_prefix is_empty text_eq
preview_path = refl

refused_path : safe_workspace_path (codes "a\\..\\b") ≡ err (codes "invalid workspace path")
unfolding safe_workspace_path clean trim_prefix split has_prefix is_empty text_eq
refused_path = refl
