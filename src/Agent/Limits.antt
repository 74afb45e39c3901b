-- ===== src/Agent/Limits.antt =====
-- How many runs are started while the counts of dispatched subagents change: rules for actions of the
-- runner, and the actions that start none.
pub mod Context
pub mod Run
use mathlib.Core.Path.{subst}
use ai_agent_cloud_runtime.Prelude.{
  ℕ, suc, ◌≡◌, refl, sym, ◌&&◌, ◌++◌, Bool, true, false, Option, none, some, List, [], ◌∷◌, Result,
  ok, err, if◌then◌else◌,
}
use ai_agent_cloud_runtime.Prelude.Text.{Text}
use ai_agent_cloud_runtime.Prelude.Maps.{TextMap}
use ai_agent_cloud_runtime.Prelude.Act.{Act, pure, raise, call, try, emit, continue, ◌>>=◌}
use ai_agent_cloud_runtime.Queue.Event.{
  Task, Event, Kind, state_event, token_event, done_event, error_event, tool_event,
}
use ai_agent_cloud_runtime.Orchestrator.Supervisor.{
  Supervised, SubagentResult, ChildRunRequest, on_world,
}
use ai_agent_cloud_runtime.Agent.State.{State, state_eq, pending, running, can_transit}
use ai_agent_cloud_runtime.Agent.Types.{Deps, Message, ToolDefinition, TokenEvent}
use ai_agent_cloud_runtime.Agent.Runner.Publish.{
  Env, publish, publish_state, fail, fail_on, or_fail, tool_update,
}
use ai_agent_cloud_runtime.Agent.Runner.Stream.{
  Streamed, take_token, consume_event, consume, consume_stream, stream_once,
}
use ai_agent_cloud_runtime.Agent.Runner.Subagent.{append, lift, run_child}

-- The event says that a run starts, a subagent's run or another.
abbrev pub is_start : Kind State → Bool
is_start (state_event from to) = state_eq to running && state_eq from pending
is_start (token_event text index) = false
is_start (done_event total) = false
is_start (error_event code message) = false
is_start (tool_event call_id tool_name phase result message is_error elapsed_ms) = false

-- `k` and the number of starts among some events.
abbrev pub starts_from : ℕ → List (Event State) → ℕ
starts_from k [] = k
starts_from k (ev ∷ es) = starts_from (if is_start ev.kind then suc k else k) es

abbrev pub starts : List (Event State) → ℕ
starts es = starts_from 0 es

starts_from-append :
    (k : ℕ) (es fs : List (Event State))
    → starts_from k (es ++ fs) ≡ starts_from (starts_from k es) fs
starts_from-append k [] fs = refl
starts_from-append k (ev ∷ es) fs = starts_from-append (if is_start ev.kind then suc k else k) es fs

-- What is said of the number of starts so far and the counts of the supervisor.
abbrev pub Budget : Type 1
Budget = ℕ → TextMap ℕ → Type 0

-- `Q` holds after `m`, whether it returns or raises, where `P` held before.
pub record Takes (W A : Type 0) (P Q : Budget) (m : Env W A) : Type 0 where
  pub at : (k : ℕ) (s : Supervised W) → P k s.children → Q (starts_from k (m s).1) (m s).2.children

abbrev pub Keeps : (W A : Type 0) → Budget → Env W A → Type 0
Keeps W A Q m = Takes W A Q Q m

module _ {W A : Type 0} (Q : Budget) where
  pub Keeps-pure : (a : A) → Keeps W A Q (pure a)
  Keeps-pure a = record { at = λ k s q. q }

  pub Keeps-raise : (e : Text) → Keeps W A Q (raise e)
  Keeps-raise e = record { at = λ k s q. q }

  pub Keeps-result : (r : Result Text A) → Keeps W A Q (λ s. (r, [], s))
  Keeps-result r = record { at = λ k s q. q }

  pub Keeps-on_world : (op : W → A × W) → Keeps W A Q (on_world op)
  Keeps-on_world op = record { at = λ k s q. q }

  pub Takes-try : (P : Budget) (m : Env W A) → Takes W A P Q m → Takes W (Result Text A) P Q (try m)
  Takes-try P m k = record { at = λ n s q. k.at n s q }

  pub Keeps-try : (m : Env W A) → Keeps W A Q m → Keeps W (Result Text A) Q (try m)
  Keeps-try = Takes-try Q

  pub Keeps-if :
      (b : Bool) (m n : Env W A) → Keeps W A Q m → Keeps W A Q n → Keeps W A Q (if b then m else n)
  Keeps-if true m n h k = h
  Keeps-if false m n h k = k

module _ {W A B : Type 0} (Q : Budget) (f : A → Env W B) where
  continue-Keeps :
      (r : Result Text A) (es : List (Event State)) (k : ℕ) (s : Supervised W)
      → Q (starts_from k es) s.children
      → ((a : A) → Keeps W B Q (f a))
      → Q (starts_from k (continue r es f s).1) (continue r es f s).2.children
  continue-Keeps (ok a) es k s q h =
      subst (λ n. Q n (f a s).2.children) (sym (starts_from-append k es (f a s).1))
        ((h a).at (starts_from k es) s q)
  continue-Keeps (err e) es k s q h = q

  pub Takes-bind :
      (P : Budget) (m : Env W A)
      → Takes W A P Q m
      → ((a : A) → Keeps W B Q (f a))
      → Takes W B P Q (m >>= f)
  unfolding ◌>>=◌
  Takes-bind P m h k = record {
    at = λ n s q. let (r, es, s') = m s in continue-Keeps r es n s' (h.at n s q) k;
  }

  pub Keeps-bind :
      (m : Env W A) → Keeps W A Q m → ((a : A) → Keeps W B Q (f a)) → Keeps W B Q (m >>= f)
  Keeps-bind = Takes-bind Q

module _ {W : Type 0} (d : Deps W) (t : Task) (Q : Budget) where
  pub Keeps-publish :
      (k : Kind State) → is_start k ≡ false → Keeps W (Option Text) Q (publish d t k)
  unfolding publish ◌>>=◌
  Keeps-publish k quiet = record { at = λ n s q. rw quiet q }

  pub Keeps-publish_state :
      (from to : State)
      → is_start (state_event from to) ≡ false
      → Keeps W (Option Text) Q (publish_state d t from to)
  unfolding publish_state
  Keeps-publish_state from to quiet = Keeps-if Q _ _ _ (Keeps-publish _ quiet) (Keeps-pure Q _)

  -- One start more.
  pub Takes-start :
      Takes W (Option Text) (λ k counts. Q (suc k) counts) Q (publish_state d t pending running)
  unfolding publish_state publish can_transit ◌>>=◌
  Takes-start = record { at = λ n s q. q }

  pub Keeps-fail :
      {A : Type 0} (from : State) (code message : Text) → Keeps W A Q (fail d t from code message)
  unfolding fail
  Keeps-fail from code message =
      Keeps-bind Q _ _ (Keeps-publish_state from _ refl)
        λ _. Keeps-bind Q _ _ (Keeps-publish _ refl) λ _. Keeps-raise Q message

  Keeps-fail_on :
      {A : Type 0} (from : State) (code : Text) (r : Result Text A)
      → Keeps W A Q (fail_on d t from code r)
  unfolding fail_on
  Keeps-fail_on from code (ok a) = Keeps-pure Q a
  Keeps-fail_on from code (err e) = Keeps-fail from code e

  pub Keeps-or_fail :
      {A : Type 0} (from : State) (code : Text) (m : Env W A)
      → Keeps W A Q m
      → Keeps W A Q (or_fail d t from code m)
  unfolding or_fail
  Keeps-or_fail from code m k = Keeps-bind Q _ _ (Keeps-try Q m k) (Keeps-fail_on from code)

  Keeps-take_token : (ev : TokenEvent) (s : Streamed) → Keeps W Streamed Q (take_token d t ev s)
  unfolding take_token
  Keeps-take_token ev s =
      Keeps-if Q _ _ _ (Keeps-pure Q _)
        (Keeps-bind Q _ _ (Keeps-publish _ refl) λ _. Keeps-pure Q _)

  Keeps-consume_event :
      (o : Option Text) (ev : TokenEvent) (s : Streamed) (rest : Streamed → Env W Streamed)
      → ((s' : Streamed) → Keeps W Streamed Q (rest s'))
      → Keeps W Streamed Q (consume_event d t o ev s rest)
  unfolding consume_event
  Keeps-consume_event (some e) ev s rest k = Keeps-raise Q e
  Keeps-consume_event none ev s rest k =
      Keeps-bind Q _ _ (Keeps-take_token ev s) λ s'. Keeps-if Q _ _ _ (Keeps-pure Q s') (k s')

  Keeps-consume : (evs : List TokenEvent) (s : Streamed) → Keeps W Streamed Q (consume d t evs s)
  unfolding consume
  Keeps-consume [] s = Keeps-pure Q s
  Keeps-consume (ev ∷ evs) s = Keeps-consume_event ev.err ev s _ (Keeps-consume evs)

  Keeps-consume_stream :
      (r : Result Text (List TokenEvent)) (s : Streamed)
      → Keeps W Streamed Q (consume_stream d t r s)
  unfolding consume_stream
  Keeps-consume_stream (err e) s = Keeps-raise Q e
  Keeps-consume_stream (ok evs) s = Keeps-consume evs s

  pub Keeps-stream_once :
      (msgs : List Message) (tools : List ToolDefinition) (idx : ℕ)
      → Keeps W Streamed Q (stream_once d t msgs tools idx)
  unfolding stream_once
  Keeps-stream_once msgs tools idx =
      Keeps-bind Q _ _ (Keeps-on_world Q _) λ r. Keeps-consume_stream r _

module _ {W : Type 0} (d : Deps W) (Q : Budget) where
  pub Keeps-append :
      (run role content parent : Text) (tags : List (Text × Text))
      → Keeps W Text Q (append d run role content parent tags)
  unfolding append
  Keeps-append run role content parent tags =
      Keeps-bind Q _ _ (Keeps-on_world Q _) λ r. Keeps-result Q r

  -- A child starts once and dispatches no child.
  pub Takes-run_child :
      (req : ChildRunRequest)
      → Takes W SubagentResult (λ k counts. Q (suc k) counts) Q (run_child d req)
  unfolding run_child
  Takes-run_child req = Takes-bind Q _ _ _ (Takes-start d _ Q) λ _.
      Keeps-bind Q _ _ (Keeps-or_fail d _ Q _ _ _ (Keeps-append _ _ _ _ _)) λ _.
        Keeps-bind Q _ _ (Keeps-or_fail d _ Q _ _ _ (Keeps-stream_once d _ Q _ _ _)) λ out.
          Keeps-bind Q _ _ (Keeps-or_fail d _ Q _ _ _ (Keeps-append _ _ _ _ _)) λ _.
            Keeps-bind Q _ _ (Keeps-publish_state d _ Q _ _ refl)
              λ _. Keeps-bind Q _ _ (Keeps-publish d _ Q _ refl) λ _. Keeps-pure Q _
