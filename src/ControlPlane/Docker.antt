-- ===== src/ControlPlane/Docker.antt =====
-- internal/controlplane/docker.go: the containers and volumes of agents, over the calls of the Docker
-- client.
use ai_agent_cloud_runtime.Prelude.{
  Bool, Option, none, some, [], ◌++◌, Result, ok, err, if◌then◌else◌,
}
use ai_agent_cloud_runtime.Prelude.Text.{Text, codes, is_empty, text_eq}
use ai_agent_cloud_runtime.Prelude.Act.{Act, pure, raise, call, ◌>>=◌, ◌>>◌}
use ai_agent_cloud_runtime.ControlPlane.Types.{AgentSpec, quoted}

-- An error of Docker, and whether `errdefs.IsNotFound` holds of it.
pub record DockerError : Type 0 where
  pub message : Text
  pub is_not_found : Bool

-- The calls of the client. `create_container` takes the agent for the configuration that is made of it.
pub record DockerClient (W : Type 0) : Type 0 where
  pub inspect_image : Text → W → Option DockerError × W
  pub pull_image : Text → W → Option Text × W
  pub download_image : W → Option Text × W
  pub create_volume : (name agent : Text) → W → Option Text × W
  pub create_container : AgentSpec → W → Result Text Text × W
  pub start_container : Text → W → Option Text × W
  pub stop_container : Text → W → Option Text × W
  pub remove_container : Text → W → Option DockerError × W
  pub remove_volume : Text → W → Option DockerError × W

-- `if err != nil { return ... }`
unfoldable pub fail_if : {V W : Type 0} → Text → Option Text → Act V W (Unit {0})
fail_if prefix none = pure tt
fail_if prefix (some e) = raise (prefix ++ e)

-- the same for an error that is not "not found"
unfoldable pub fail_unless_missing : {V W : Type 0} → Text → Option DockerError → Act V W (Unit {0})
fail_unless_missing prefix none = pure tt
fail_unless_missing prefix (some e) =
    if e.is_not_found then pure tt else raise (prefix ++ e.message)

unfoldable pub from_result : {V W A : Type 0} → Result Text A → Act V W A
from_result (ok a) = pure a
from_result (err e) = raise e

module _ {V W : Type 0} (client : DockerClient W) where
  unfoldable pub pull_missing : Text → Option DockerError → Act V W (Unit {0})
  unfolding fail_if
  pull_missing ref none = pure tt
  pull_missing ref (some e) =
      if e.is_not_found
      then (do
        pulled ← call (client.pull_image ref)
        fail_if (codes "pull agent image " ++ quoted ref ++ codes ": ") pulled
        downloaded ← call client.download_image
        fail_if (codes "download agent image " ++ quoted ref ++ codes ": ") downloaded)
      else raise (codes "inspect agent image: " ++ e.message)

  -- `ensureImage`
  unfoldable pub ensure_image : Text → Act V W (Unit {0})
  unfolding pull_missing
  ensure_image ref = do found ← call (client.inspect_image ref); pull_missing ref found

  -- `DockerManager.Create`
  unfoldable pub create_container : AgentSpec → Act V W Text
  unfolding ensure_image fail_if from_result
  create_container a = do
    ensure_image a.image
    volume ← call (client.create_volume a.volume_name a.id)
    fail_if (codes "create workspace volume: ") volume
    created ← call (client.create_container a)
    id ← from_result created
    started ← call (client.start_container id)
    fail_if [] started
    pure id

  unfoldable pub remove_container : Text → Act V W (Unit {0})
  unfolding fail_unless_missing
  remove_container id = if is_empty id then pure tt else (do
    removed ← call (client.remove_container id)
    fail_unless_missing (codes "remove agent container: ") removed)

  unfoldable pub remove_workspace : (policy volume : Text) → Act V W (Unit {0})
  unfolding fail_unless_missing
  remove_workspace policy volume =
      if text_eq policy (codes "delete")
      then (do
        removed ← call (client.remove_volume volume)
        fail_unless_missing (codes "remove agent workspace: ") removed)
      else pure tt

  -- `DockerManager.Delete`
  unfoldable pub delete_container : AgentSpec → Act V W (Unit {0})
  unfolding remove_container remove_workspace
  delete_container a = do
    remove_container a.container_id
    remove_workspace a.workspace_policy a.volume_name
