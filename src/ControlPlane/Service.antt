-- ===== src/ControlPlane/Service.antt =====
-- internal/controlplane/service.go: the life of an agent, over the database and Docker. What a method
-- returns beside an error is left out, since its callers do not read it.
use ai_agent_cloud_runtime.Prelude.{
  Bool, not, ◌&&◌, ◌||◌, Option, none, some, List, [], ◌∷◌, ◌++◌, Result, ok, err, if◌then◌else◌,
}
use ai_agent_cloud_runtime.Prelude.Text.{Text, codes, is_empty, text_eq, trim_space}
use ai_agent_cloud_runtime.Hook.Engine.{mem}
use ai_agent_cloud_runtime.Prelude.Substrings.{contains, to_lower}
use ai_agent_cloud_runtime.Prelude.Act.{Act, pure, raise, call, emit, try, ◌>>=◌, ◌>>◌}
use ai_agent_cloud_runtime.ControlPlane.Types.{
  AgentSpec, AgentRun, CreateAgentInput, validate, normalize_create, status_provisioning,
  status_running, status_stopped, status_failed,
}
use ai_agent_cloud_runtime.ControlPlane.Docker.{
  DockerClient, fail_if, from_result, create_container, delete_container,
}

-- The statements of `Store`; an error is its text.
pub record Store (W : Type 0) : Type 0 where
  pub create : AgentSpec → W → Option Text × W
  pub update_runtime : (id status container last_error : Text) → W → Option Text × W
  pub get : Text → W → Result Text AgentSpec × W
  pub delete : Text → W → Option Text × W
  pub create_run : AgentRun → W → Option Text × W
  pub finish_run : (id status summary error : Text) → W → Option Text × W

-- What the service does that its properties speak of.
pub data ServiceEffect : Type 0 where
  deleting : (id : Text) → ServiceEffect
  consuming : AgentRun → AgentSpec → ServiceEffect
  stored : (kind : Text) → ServiceEffect
  finished : (id status summary error : Text) → ServiceEffect

-- `IsConflict` on the text of an error
unfoldable pub is_conflict : Text → Bool
is_conflict e =
    not (is_empty e)
    && (contains e (codes "agent_runs_one_active_idx") || contains e (codes "duplicate key"))

-- `if e != nil && !strings.Contains(e.Error(), allowed) { return ... }`
unfoldable pub fail_unless : {V W : Type 0} → (allowed : Text) → Option Text → Act V W (Unit {0})
fail_unless allowed none = pure tt
fail_unless allowed (some e) = if contains e allowed then pure tt else raise e

pub record BatchDeleteFailure : Type 0 where
  pub agent_id : Text
  pub message : Text

pub record BatchDeleteResult : Type 0 where
  pub deleted_ids : List Text
  pub failed : List BatchDeleteFailure

abbrev pub new_agent : CreateAgentInput → Text → AgentSpec
new_agent input id = record {
  id = id;
  name = input.name;
  role = input.role;
  system_prompt = input.system_prompt;
  model = input.model;
  image = input.image;
  cpu_quota_us = input.cpu_quota_us;
  memory_mb = input.memory_mb;
  pids_limit = input.pids_limit;
  tools = input.tools;
  workspace_policy = input.workspace_policy;
  status = status_provisioning;
  volume_name = codes "agentforge-workspace-" ++ id;
  container_id = [];
  last_error = [];
}

abbrev pub add_outcome : Text → Result Text (Unit {0}) → BatchDeleteResult → BatchDeleteResult
add_outcome id (ok u) r = record r { deleted_ids = r.deleted_ids ++ id ∷ [] }
add_outcome id (err e) r = record r {
  failed = r.failed ++ record { agent_id = id; message = e } ∷ [];
}

module _ {W : Type 0} where
  -- what follows the insertion of a run
  unfoldable pub run_created : AgentRun → AgentSpec → Option Text → Act ServiceEffect W AgentRun
  unfolding is_conflict
  run_created r a none = do emit (consuming r a); pure r
  run_created r a (some e) =
      if is_conflict e then raise (codes "agent already has an active run") else raise e

module _ {W : Type 0} (store : Store W) where
  unfoldable pub get_agent : Text → Act ServiceEffect W AgentSpec
  unfolding from_result
  get_agent id = do found ← call (store.get id); from_result found

  unfoldable pub update_runtime : (id status container : Text) → Act ServiceEffect W (Unit {0})
  unfolding fail_if
  update_runtime id status container = do
    updated ← call (store.update_runtime id status container [])
    fail_if [] updated

  -- what follows the creation of the container
  unfoldable pub created : AgentSpec → Result Text Text → Act ServiceEffect W AgentSpec
  unfolding get_agent update_runtime
  created a (err e) = do call (store.update_runtime a.id status_failed [] e); get_agent a.id
  created a (ok container) = do update_runtime a.id status_running container; get_agent a.id

  module _ (client : DockerClient W) where
    -- `StartAgent`
    unfoldable pub start_agent : Text → Act ServiceEffect W AgentSpec
    unfolding get_agent update_runtime fail_unless
    start_agent id = do
      a ← get_agent id
      started ← call (client.start_container a.container_id)
      fail_unless (codes "already started") started
      update_runtime id status_running a.container_id
      get_agent id

    -- `StopAgent`
    unfoldable pub stop_agent : Text → Act ServiceEffect W AgentSpec
    unfolding get_agent update_runtime fail_unless
    stop_agent id = do
      a ← get_agent id
      ended ← call (client.stop_container a.container_id)
      fail_unless (codes "is not running") ended
      update_runtime id status_stopped a.container_id
      get_agent id

    -- `DeleteAgent`
    unfoldable pub delete_agent : Text → Act ServiceEffect W (Unit {0})
    unfolding get_agent fail_if
    delete_agent id = do
      emit (deleting id)
      a ← get_agent id
      delete_container client a
      removed ← call (store.delete id)
      fail_if [] removed

    -- the loop of `DeleteAgents`
    unfoldable pub delete_each :
        List Text → (seen : List Text) → BatchDeleteResult → Act ServiceEffect W BatchDeleteResult
    unfolding delete_agent
    delete_each [] seen r = pure r
    delete_each (raw ∷ raws) seen r =
        let id = trim_space raw in
        let skip = delete_each raws seen in
        let go = delete_each raws (id ∷ seen) in
        if is_empty id
        then skip (add_outcome [] (err (codes "agent id is required")) r)
        else if mem id seen
        then skip r
        else (do outcome ← try (delete_agent id); go (add_outcome id outcome r))

    -- `DeleteAgents`
    unfoldable pub delete_agents : List Text → Act ServiceEffect W BatchDeleteResult
    unfolding delete_each
    delete_agents [] = raise (codes "at least one agent id is required")
    delete_agents (id ∷ ids) = delete_each (id ∷ ids) [] (record { deleted_ids = []; failed = [] })

  module _ (new_ulid : W → Text × W) where
    -- `StartRun`; it starts `consume_run` as a goroutine
    unfoldable pub start_run : (agent prompt : Text) → Act ServiceEffect W AgentRun
    unfolding get_agent
    start_run agent prompt =
        if is_empty (trim_space prompt) then raise (codes "prompt is required") else (do
          a ← get_agent agent
          if text_eq a.status status_running
              then (do
                run_id ← call new_ulid
                trace_id ← call new_ulid
                let r : AgentRun = record {
                  run_id = run_id;
                  agent_id = a.id;
                  trace_id = trace_id;
                  prompt = prompt;
                  status = codes "running";
                  error = [];
                  summary = [];
                }
                inserted ← call (store.create_run r)
                run_created r a inserted)
              else raise (codes "agent is " ++ a.status))

    module _ (client : DockerClient W) (default_image : Text) where
      -- `Create`
      unfoldable pub create_agent : CreateAgentInput → Act ServiceEffect W AgentSpec
      unfolding created fail_if
      create_agent input = do
        fail_if [] (validate default_image input)
        ulid ← call new_ulid
        let a = new_agent (normalize_create default_image input) (to_lower ulid)
        inserted ← call (store.create a)
        fail_if [] inserted
        container ← try (create_container client a)
        created a container
