-- ===== src/Agent/Trace/Walk.antt =====
-- What takes the walk of a run on: `publishState`, `fail`, and the handling of errors.
use ai_agent_cloud_runtime.Prelude.{ℕ, ◌≡◌, refl, Bool, true, some, Result, ok, err, arith}
use ai_agent_cloud_runtime.Prelude.Text.{Text, text_eq_refl}
use ai_agent_cloud_runtime.Prelude.Act.{◌>>=◌}
use ai_agent_cloud_runtime.Queue.Event.{Task, Kind, state_event, done_event, error_event}
use ai_agent_cloud_runtime.Orchestrator.Supervisor.{Supervised}
use ai_agent_cloud_runtime.Agent.State.{State, pending, failed, state_eq, can_transit}
use ai_agent_cloud_runtime.Agent.Types.{Deps}
use ai_agent_cloud_runtime.Agent.Runner.Publish.{
  Env, publish, publish_state, fail, fail_on, or_fail, tool_update,
}
use ai_agent_cloud_runtime.Agent.Trace.{follow, follow_event, follow_kind}
use ai_agent_cloud_runtime.Agent.Trace.Rules.{
  Quiet, Walks, Walks-pure, Walks-raise, Walks-try, Walks-bind,
}

state_eq_refl : (s : State) → state_eq s s ≡ true
state_eq_refl pending = refl
state_eq_refl _ = refl

follow_kind-legal :
    (from to : State)
    → can_transit from to ≡ true
    → follow_kind from (state_event from to) ≡ some to
unfolding follow_kind
follow_kind-legal from to legal = rw (state_eq_refl from) (rw legal refl)

module _ {W : Type 0} (d : Deps W) (t : Task) where
  -- Actions of the run `t` itself.
  abbrev pub Goes : {A : Type 0} → (s u : State) → Env W A → Type 0
  Goes {A} s u m = Walks (Supervised W) A t.run_id s u m

  Goes-publish :
      (s u : State) (k : Kind State) → follow_kind s k ≡ some u → Goes s u (publish d t k)
  unfolding publish ◌>>=◌ follow follow_event
  Goes-publish s u k h = record { at = λ w. ground (arith, text_eq_refl t.run_id) }

  pub Goes-publish_state :
      (from to : State) → can_transit from to ≡ true → Goes from to (publish_state d t from to)
  unfolding publish_state
  Goes-publish_state from to legal =
      rw legal (Goes-publish from to _ (follow_kind-legal from to legal))

  pub Goes-done_event : (s : State) (n : ℕ) → Goes s s (publish d t (done_event n))
  unfolding follow_kind
  Goes-done_event s n = Goes-publish s s (done_event n) refl

  Goes-error_event :
      (s : State) (code message : Text) → Goes s s (publish d t (error_event code message))
  unfolding follow_kind
  Goes-error_event s code message = Goes-publish s s (error_event code message) refl

  pub Goes-tool_update :
      (s : State) (call_id name phase result message : Text) (is_error : Bool) (elapsed : ℕ)
      → Goes s s (tool_update d t call_id name phase result message is_error elapsed)
  unfolding tool_update follow_kind
  Goes-tool_update s call_id name phase result message is_error elapsed = Goes-publish s s _ refl

  pub Goes-fail :
      {A : Type 0} (from u : State) (code message : Text)
      → can_transit from failed ≡ true
      → Goes from u (fail d t {A = A} from code message)
  unfolding fail
  Goes-fail from u code message legal =
      Walks-bind t.run_id _ from failed u _ (Goes-publish_state from failed legal) (λ _.
        Walks-bind t.run_id _ failed failed u _ (Goes-error_event failed code message)
          (λ _. Walks-raise t.run_id u message))

  Goes-fail_on :
      {A : Type 0} (from : State) (code : Text) (r : Result Text A)
      → can_transit from failed ≡ true
      → Goes from from (fail_on d t from code r)
  unfolding fail_on
  Goes-fail_on from code (ok a) legal = Walks-pure t.run_id from a
  Goes-fail_on from code (err e) legal = Goes-fail from from code e legal

  pub Goes-or_fail :
      {A : Type 0} (from : State) (code : Text) (m : Env W A)
      → can_transit from failed ≡ true
      → Quiet (Supervised W) A t.run_id m
      → Goes from from (or_fail d t from code m)
  unfolding or_fail
  Goes-or_fail from code m legal q =
      Walks-bind t.run_id _ from from from _ (Walks-try t.run_id from m q)
        (λ r. Goes-fail_on from code r legal)
