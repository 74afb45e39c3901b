-- ===== src/ControlPlane/Health.antt =====
-- `Health` of internal/controlplane/service.go. The order in which it looks through its map of checks is
-- open, and does not matter for what it finds.
use ai_agent_cloud_runtime.Prelude.{
  Bool, true, ◌&&◌, Option, none, some, [], ◌∷◌, Result, ok, err, if◌then◌else◌,
}
use ai_agent_cloud_runtime.Prelude.Int.{ℤ, pos}
use ai_agent_cloud_runtime.Prelude.Text.{Text, codes, text_eq}
use ai_agent_cloud_runtime.Prelude.Maps.{TextMap, insert}
use ai_agent_cloud_runtime.Prelude.Act.{Act, pure, call, ◌>>=◌}
use ai_agent_cloud_runtime.ControlPlane.Service.{ServiceEffect}

pub record HealthStatus : Type 0 where
  pub status : Text
  pub active_runs : ℤ
  pub checks : TextMap Text

-- The calls that find out whether a part answers.
pub record Pings (W : Type 0) : Type 0 where
  pub postgres : W → Option Text × W
  pub redis : W → Option Text × W
  pub docker : W → Option Text × W
  pub gateway : W → Option Text × W
  -- the count is 0 beside an error
  pub active_run_count : W → Result Text ℤ × W

abbrev check : Option Text → Text
check none = codes "ok"
check (some e) = codes "failed"

abbrev counted : Result Text ℤ → Option Text
counted (ok n) = none
counted (err e) = some e

abbrev count_or_zero : Result Text ℤ → ℤ
count_or_zero (ok n) = n
count_or_zero (err e) = pos 0

unfoldable pub all_ok : TextMap Text → Bool
all_ok [] = true
all_ok ((name, result) ∷ checks) = text_eq result (codes "ok") && all_ok checks

unfoldable pub health : {W : Type 0} → Pings W → Act ServiceEffect W HealthStatus
unfolding all_ok
health pings = do
  postgres ← call pings.postgres
  redis ← call pings.redis
  docker ← call pings.docker
  gateway ← call pings.gateway
  active ← call pings.active_run_count
  let checks = insert (codes "runStore") (check (counted active)) (
      insert (codes "gateway") (check gateway) (
        insert (codes "docker") (check docker)
          (insert (codes "redis") (check redis) (insert (codes "postgres") (check postgres) []))))
  pure (record {
    status = if all_ok checks then codes "ok" else codes "degraded";
    active_runs = count_or_zero active;
    checks = checks;
  })
