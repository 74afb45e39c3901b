-- ===== src/ControlPlane/Silent.antt =====
-- Actions of the control plane that emit nothing.
use ai_agent_cloud_runtime.Prelude.{
  ◌≡◌, refl, Bool, true, false, Option, none, some, List, [], ◌++◌, Result, ok, err, if◌then◌else◌,
  arith,
}
use ai_agent_cloud_runtime.Prelude.Text.{Text, codes, is_empty, text_eq}
use ai_agent_cloud_runtime.Prelude.Maps.{TextMap}
use ai_agent_cloud_runtime.Prelude.Act.{Act, pure, call, continue, ◌>>=◌}
use ai_agent_cloud_runtime.ControlPlane.Types.{AgentSpec}
use ai_agent_cloud_runtime.ControlPlane.Docker.{
  DockerError, DockerClient, fail_if, fail_unless_missing, from_result, remove_container,
  remove_workspace, delete_container,
}
use ai_agent_cloud_runtime.ControlPlane.Service.{Store, get_agent}
use ai_agent_cloud_runtime.ControlPlane.Runs.{Value, UiEvent, EventRedis, append_event}

abbrev pub Silent : {V W A : Type 0} → Act V W A → Type 0
Silent {W} m = (w : W) → (m w).1 ≡ []

pub Silent-bind :
    {V W A B : Type 0} (m : Act V W A) (f : A → Act V W B)
    → Silent m
    → ((a : A) → Silent (f a))
    → Silent (m >>= f)
unfolding ◌>>=◌
Silent-bind {V} {W} {A} {B} m f p q w = go (m w).0 (m w).1 (p w)
  where
    go : (r : Result Text A) (es : List V) → es ≡ [] → (continue {B = B} r es f (m w).2).1 ≡ []
    go (ok a) es e = rw e (q a (m w).2)
    go (err x) es e = e

pub Silent-call : {V W A : Type 0} (op : W → A × W) → Silent (call {V = V} op)
Silent-call op w = refl

pub Silent-fail_if :
    {V W : Type 0} (prefix : Text) (e : Option Text) → Silent (fail_if {V = V} {W = W} prefix e)
unfolding fail_if
Silent-fail_if prefix none w = refl
Silent-fail_if prefix (some e) w = refl

pub Silent-from_result :
    {V W A : Type 0} (r : Result Text A) → Silent (from_result {V = V} {W = W} r)
unfolding from_result
Silent-from_result (ok a) w = refl
Silent-from_result (err e) w = refl

Silent-fail_unless_missing :
    {V W : Type 0} (prefix : Text) (e : Option DockerError)
    → Silent (fail_unless_missing {V = V} {W = W} prefix e)
unfolding fail_unless_missing
Silent-fail_unless_missing prefix none w = refl
Silent-fail_unless_missing prefix (some e) w = ground arith

Silent-if :
    {V W A : Type 0} (b : Bool) (m n : Act V W A)
    → Silent m
    → Silent n
    → Silent (if b then m else n)
Silent-if true m n p q w = p w
Silent-if false m n p q w = q w

module _ {W : Type 0} where
  pub Silent-append_event :
      (redis : EventRedis W) (run kind : Text) (data_values : TextMap Value)
      → Silent (append_event redis run kind data_values)
  unfolding append_event
  Silent-append_event redis run kind data_values =
      let counter = redis.incr (codes "ui:run_event_seq:" ++ run) in
      Silent-bind (call counter) _ (Silent-call counter) λ counted.
        Silent-bind (from_result counted) _ (Silent-from_result counted) λ id.
          let ev : UiEvent = record { id = id; kind = kind; data_values = data_values } in
          let push = redis.push (codes "ui:run_events:" ++ run) ev in
          Silent-bind (call push) _ (Silent-call push)
            λ pushed. Silent-bind (fail_if [] pushed) _ (Silent-fail_if [] pushed) λ u w. refl

  pub Silent-get_agent : (store : Store W) (id : Text) → Silent (get_agent store id)
  unfolding get_agent
  Silent-get_agent store id =
      Silent-bind (call (store.get id)) from_result (Silent-call (store.get id)) Silent-from_result

  Silent-remove_container :
      {V : Type 0} (client : DockerClient W) (id : Text)
      → Silent (remove_container {V = V} client id)
  unfolding remove_container
  Silent-remove_container client id =
      Silent-if (is_empty id) (pure tt) _ (λ w. refl)
        (Silent-bind (call (client.remove_container id)) _
          (Silent-call (client.remove_container id))
          (Silent-fail_unless_missing (codes "remove agent container: ")))

  Silent-remove_workspace :
      {V : Type 0} (client : DockerClient W) (policy volume : Text)
      → Silent (remove_workspace {V = V} client policy volume)
  unfolding remove_workspace
  Silent-remove_workspace client policy volume =
      Silent-if (text_eq policy (codes "delete")) _ (pure tt)
        (Silent-bind (call (client.remove_volume volume)) _
          (Silent-call (client.remove_volume volume))
          (Silent-fail_unless_missing (codes "remove agent workspace: ")))
        (λ w. refl)

  pub Silent-delete_container :
      {V : Type 0} (client : DockerClient W) (a : AgentSpec)
      → Silent (delete_container {V = V} client a)
  unfolding delete_container
  Silent-delete_container client a =
      Silent-bind (remove_container client a.container_id) _
        (Silent-remove_container client a.container_id)
        (λ u. Silent-remove_workspace client a.workspace_policy a.volume_name)
