-- ===== src/Agent/Trace/Quiet.antt =====
-- What leaves the walk of a run where it is: streaming, tool events, and whatever is published
-- for another run.
use ai_agent_cloud_runtime.Prelude.{
  ℕ, ◌≡◌, refl, Bool, false, Option, none, some, List, [], ◌∷◌, Result, ok, err, arith,
}
use ai_agent_cloud_runtime.Prelude.Text.{Text, text_eq}
use ai_agent_cloud_runtime.Prelude.Act.{◌>>=◌}
use ai_agent_cloud_runtime.Queue.Event.{
  Task, Kind, token_event, done_event, error_event, tool_event,
}
use ai_agent_cloud_runtime.Orchestrator.Supervisor.{Supervised}
use ai_agent_cloud_runtime.Agent.State.{State}
use ai_agent_cloud_runtime.Agent.Types.{Deps, Message, ToolDefinition, TokenEvent}
use ai_agent_cloud_runtime.Agent.Runner.Publish.{
  Env, publish, publish_state, fail, fail_on, or_fail, tool_update,
}
use ai_agent_cloud_runtime.Agent.Runner.Stream.{
  Streamed, take_token, consume_event, consume, consume_stream, stream_once,
}
use ai_agent_cloud_runtime.Agent.Runner.Subagent.{append}
use ai_agent_cloud_runtime.Agent.Trace.{follow, follow_event, follow_kind}
use ai_agent_cloud_runtime.Agent.Trace.Rules.{
  Quiet, Quiet-pure, Quiet-raise, Quiet-call, Quiet-result, Quiet-if, Quiet-try, Quiet-bind,
}

module _ {W : Type 0} (d : Deps W) (t : Task) (rid : Text) where
  abbrev pub IsQuiet : {A : Type 0} → Env W A → Type 0
  IsQuiet {A} m = Quiet (Supervised W) A rid m

  Quiet-publish :
      (k : Kind State) → ((s : State) → follow_kind s k ≡ some s) → IsQuiet (publish d t k)
  unfolding publish ◌>>=◌ follow follow_event
  Quiet-publish k plain = record { at = λ s w. ground (arith, plain s) }

  pub Quiet-token : (x : Text) (i : ℕ) → IsQuiet (publish d t (token_event x i))
  unfolding follow_kind
  Quiet-token x i = Quiet-publish (token_event x i) (λ s. refl)

  pub Quiet-done : (n : ℕ) → IsQuiet (publish d t (done_event n))
  unfolding follow_kind
  Quiet-done n = Quiet-publish (done_event n) (λ s. refl)

  pub Quiet-error : (code message : Text) → IsQuiet (publish d t (error_event code message))
  unfolding follow_kind
  Quiet-error code message = Quiet-publish (error_event code message) (λ s. refl)

  pub Quiet-tool_update :
      (call_id name phase result message : Text) (is_error : Bool) (elapsed : ℕ)
      → IsQuiet (tool_update d t call_id name phase result message is_error elapsed)
  unfolding tool_update follow_kind
  Quiet-tool_update call_id name phase result message is_error elapsed =
      Quiet-publish (tool_event call_id name phase result message is_error elapsed) (λ s. refl)

  Quiet-take_token : (ev : TokenEvent) (s : Streamed) → IsQuiet (take_token d t ev s)
  unfolding take_token
  Quiet-take_token ev s =
      Quiet-if rid _ _ _ (Quiet-pure rid _)
        (Quiet-bind rid _ _ (Quiet-token ev.token s.idx) (λ _. Quiet-pure rid _))

  Quiet-consume_event :
      (o : Option Text) (ev : TokenEvent) (s : Streamed) (rest : Streamed → Env W Streamed)
      → ((s' : Streamed) → IsQuiet (rest s'))
      → IsQuiet (consume_event d t o ev s rest)
  unfolding consume_event
  Quiet-consume_event (some e) ev s rest q = Quiet-raise rid e
  Quiet-consume_event none ev s rest q =
      Quiet-bind rid _ _ (Quiet-take_token ev s)
        (λ s'. Quiet-if rid _ _ _ (Quiet-pure rid s') (q s'))

  Quiet-consume : (evs : List TokenEvent) (s : Streamed) → IsQuiet (consume d t evs s)
  unfolding consume
  Quiet-consume [] s = Quiet-pure rid s
  Quiet-consume (ev ∷ evs) s = Quiet-consume_event ev.err ev s (consume d t evs) (Quiet-consume evs)

  Quiet-consume_stream :
      (r : Result Text (List TokenEvent)) (s : Streamed) → IsQuiet (consume_stream d t r s)
  unfolding consume_stream
  Quiet-consume_stream (err e) s = Quiet-raise rid e
  Quiet-consume_stream (ok evs) s = Quiet-consume evs s

  abbrev fresh : ℕ → Streamed
  fresh idx = record { text = []; tool_calls = []; token_cnt = 0; idx = idx }

  pub Quiet-stream_once :
      (msgs : List Message) (tools : List ToolDefinition) (idx : ℕ)
      → IsQuiet (stream_once d t msgs tools idx)
  unfolding stream_once
  Quiet-stream_once msgs tools idx =
      Quiet-bind rid _ _ (Quiet-call rid _) (λ r. Quiet-consume_stream r (fresh idx))

  pub Quiet-append :
      (run_id role content parent : Text) (tags : List (Text × Text))
      → IsQuiet (append d run_id role content parent tags)
  unfolding append
  Quiet-append run_id role content parent tags =
      Quiet-bind rid _ _ (Quiet-call rid _) (λ r. Quiet-result rid r)

-- Another run: nothing that is published for it counts.
module _ {W : Type 0} (d : Deps W) (t : Task) (rid : Text)
    (other : text_eq t.run_id rid ≡ false) where
  pub Quiet-publish_other : (k : Kind State) → IsQuiet d t rid (publish d t k)
  unfolding publish ◌>>=◌ follow follow_event
  Quiet-publish_other k = record { at = λ s w. ground arith }

  pub Quiet-publish_state_other : (from to : State) → IsQuiet d t rid (publish_state d t from to)
  unfolding publish_state
  Quiet-publish_state_other from to = Quiet-if rid _ _ _ (Quiet-publish_other _) (Quiet-pure rid _)

  Quiet-fail_other :
      {A : Type 0} (from : State) (code message : Text)
      → IsQuiet d t rid (fail d t {A = A} from code message)
  unfolding fail
  Quiet-fail_other from code message =
      Quiet-bind rid _ _ (Quiet-publish_state_other from _)
        (λ _. Quiet-bind rid _ _ (Quiet-publish_other _) (λ _. Quiet-raise rid _))

  Quiet-fail_on_other :
      {A : Type 0} (from : State) (code : Text) (r : Result Text A)
      → IsQuiet d t rid (fail_on d t from code r)
  unfolding fail_on
  Quiet-fail_on_other from code (ok a) = Quiet-pure rid a
  Quiet-fail_on_other from code (err e) = Quiet-fail_other from code e

  pub Quiet-or_fail_other :
      {A : Type 0} (from : State) (code : Text) (m : Env W A)
      → IsQuiet d t rid m
      → IsQuiet d t rid (or_fail d t from code m)
  unfolding or_fail
  Quiet-or_fail_other from code m q =
      Quiet-bind rid _ _ (Quiet-try rid m q) (Quiet-fail_on_other from code)
