-- ===== src/Agent/Trace/Stuck.antt =====
-- A run whose compaction fails: what `Run` publishes after an error of `compactHistory`.
use ai_agent_cloud_runtime.Prelude.{
  ◌≡◌, refl, ◌∙◌, true, false, Option, none, some, List, [], Result, ok, err, ◌&&◌, append-nil,
}
use ai_agent_cloud_runtime.Prelude.Int.{default_pos}
use ai_agent_cloud_runtime.Prelude.Text.{Text, codes, is_empty}
use ai_agent_cloud_runtime.Prelude.Act.{pure, try, ◌>>=◌}
use ai_agent_cloud_runtime.Queue.Event.{Task, Event, done_event}
use ai_agent_cloud_runtime.Orchestrator.Supervisor.{Supervised}
use ai_agent_cloud_runtime.Agent.State.{
  State, pending, running, compacting, done, failed, state_eq, can_transit,
}
use ai_agent_cloud_runtime.Agent.Types.{Deps, Settings, HistoryMessage, history_message}
use ai_agent_cloud_runtime.Agent.Runner.Publish.{Env, publish, publish_state, or_fail, fail_on}
use ai_agent_cloud_runtime.Agent.Runner.Subagent.{append, lift}
use ai_agent_cloud_runtime.Agent.Runner.Context.{
  needs_compaction, compact_history, render, after_compaction, load_history, build_context,
}
use ai_agent_cloud_runtime.Agent.Runner.Loop.{loop, run_started, run}
use ai_agent_cloud_runtime.Agent.Trace.{follow, follow_event, follow_kind, follow-append, Lands}
use ai_agent_cloud_runtime.Agent.Trace.Apart.{follow-apart}
use ai_agent_cloud_runtime.Agent.Trace.Rules.{Walks, Walks-bind, Walks-pure}
use ai_agent_cloud_runtime.Agent.Trace.Walk.{Goes, Goes-publish_state, Goes-done_event}
use ai_agent_cloud_runtime.Agent.Trace.Child.{IsFresh}
use ai_agent_cloud_runtime.Agent.Trace.Run.{Goes-loop, Goes-build_context}
use ai_agent_cloud_runtime.Agent.Trace.Compaction.{
  Succeeds, Fails, Publishes, state_of, published, compact_history_err, announced,
}

-- In every world `m` returns a value of `P`, and its state events walk from `s` to `u`.
record Reaches (W A : Type 0) (rid : Text) (s u : State) (P : A → Type 0) (m : Env W A)
    : Type 0 where
  at : (w : Supervised W) → (a : A) × P a × ((m w).0 ≡ ok a) × (follow rid s (m w).1 ≡ some u)

abbrev Anything : {A : Type 0} → A → Type 0
Anything a = Unit {0}

module _ {W A B : Type 0} (rid : Text) (f : A → Env W B) (m : Env W A) where
  Reaches-bind :
      (s u v : State) (P : A → Type 0) (Q : B → Type 0)
      → Reaches W A rid s u P m
      → ((a : A) → P a → Reaches W B rid u v Q (f a))
      → Reaches W B rid s v Q (m >>= f)
  unfolding ◌>>=◌
  Reaches-bind s u v P Q h k = record {
    at = λ w.
        let (r, es, w') = m w in
        let (a, p, e, walk) = h.at w in
        let (b, q, e', walk') = (k a p).at w' in
        rw e (b, q, e', follow-append rid s u es (f a w').1 walk ∙ walk');
  }

  stuck-after :
      (s u : State) (P : A → Type 0)
      → Reaches W A rid s u P m
      → ((a : A) (w : Supervised W) → follow rid u (f a w).1 ≡ none)
      → (w : Supervised W) → follow rid s ((m >>= f) w).1 ≡ none
  unfolding ◌>>=◌
  stuck-after s u P h k w =
      let (r, es, w') = m w in
      let (a, p, e, walk) = h.at w in rw e (follow-append rid s u es (f a w').1 walk ∙ k a w')

  -- The walk of `f a` starts at `v`, where `m` leaves it at `u`.
  stuck-bind :
      (s u v z : State) (P : A → Type 0) (w : Supervised W)
      → Reaches W A rid s u P m
      → ((a : A) → Walks (Supervised W) B rid v z (f a))
      → state_eq v z ≡ false
      → state_eq v failed ≡ false
      → state_eq v u ≡ false
      → follow rid s ((m >>= f) w).1 ≡ none
  unfolding ◌>>=◌
  stuck-bind s u v z P w h k n n' n'' =
      let (r, es, w') = m w in
      let (a, p, e, walk) = h.at w in
      rw e (follow-append rid s u es (f a w').1 walk ∙ left (f a w').0 (f a w').1 ((k a).at w'))
    where
      left :
          (r : Result Text B) (fs : List (Event State))
          → Lands (follow rid v fs) r z
          → follow rid u fs ≡ none
      left (ok b) fs lands = follow-apart rid v u z fs lands n n''
      left (err x) fs lands = follow-apart rid v u failed fs lands n' n''

module _ {W : Type 0} (d : Deps W) (c : Settings) (t : Task) where
  abbrev rid : Text
  rid = t.run_id

  Reaches-started :
      Reaches W (Option Text) rid pending running Anything (publish_state d t pending running)
  unfolding can_transit publish_state publish ◌>>=◌ follow follow_event follow_kind
  Reaches-started = record {
    at = λ w. (
      (d.publish (state_of d c t pending running) w.world).0,
      tt,
      refl,
      (Goes-publish_state d t pending running refl).at w,
    );
  }

  Reaches-or_fail :
      {A : Type 0} (s : State) (code : Text) (P : A → Type 0) (m : Env W A)
      → Reaches W A rid s s P m
      → Reaches W A rid s s P (or_fail d t running code m)
  unfolding or_fail fail_on ◌>>=◌
  Reaches-or_fail s code P m h = record {
    at = λ w. let (a, p, e, walk) = h.at w in rw e (a, p, refl, rw (append-nil (m w).1) walk);
  }

  Reaches-append :
      (content : Text)
      → ((m : HistoryMessage) → Succeeds (d.append t.run_id m))
      → Reaches W Text rid running running Anything (append d t.run_id (codes "user") content [] [])
  unfolding append lift ◌>>=◌ follow
  Reaches-append content appends = record {
    at = λ w.
        let (id, e) = appends (history_message (codes "user") content [] []) w.world in
        (id, tt, rw e refl, refl);
  }

  module _ (prior : List HistoryMessage) where
    Reaches-render :
        ((w : W) → (d.render t.run_id w).0 ≡ ok prior)
        → Reaches W (List HistoryMessage) rid running running (λ a. a ≡ prior) (render d c t)
    unfolding render lift ◌>>=◌ follow
    Reaches-render renders = record { at = λ w. (prior, refl, renders w.world, refl) }

    -- The error of the compaction is dropped, and with it the state of the run.
    Reaches-compaction :
        Publishes d
        → ((from to summary : Text) → Fails (d.fold t.run_id from to summary))
        → (c.compact_policy.enabled && needs_compaction c.compact_policy prior) ≡ true
        → Reaches W
            (List HistoryMessage)
            rid
            running
            compacting
            Anything
            (try (compact_history d c t prior) >>= after_compaction d c t prior)
    unfolding after_compaction ◌>>=◌
    Reaches-compaction up fails due = record {
      at = λ w.
          let w' = published d c t running compacting w in
          let (x, e) = fails _ _ _ w'.world in
          rw (compact_history_err d c t prior up due w x e) (prior, tt, refl, announced d c t);
    }

    Reaches-load_history :
        Publishes d
        → ((m : HistoryMessage) → Succeeds (d.append t.run_id m))
        → ((w : W) → (d.render t.run_id w).0 ≡ ok prior)
        → ((from to summary : Text) → Fails (d.fold t.run_id from to summary))
        → (c.compact_policy.enabled && needs_compaction c.compact_policy prior) ≡ true
        → Reaches W (List HistoryMessage) rid running compacting Anything (load_history d c t)
    unfolding load_history
    Reaches-load_history up appends renders fails due =
        Reaches-bind rid _ _ running running compacting Anything Anything
          (Reaches-or_fail running _ Anything _ (Reaches-append t.prompt appends))
          λ _ _.
            Reaches-bind rid _ _ running running compacting (λ a. a ≡ prior) Anything
              (Reaches-or_fail running _ (λ a. a ≡ prior) _ (Reaches-render renders))
              λ a same. rw same (Reaches-compaction up fails due)

    Walks-rest :
        IsFresh d t.run_id
        → (a : List HistoryMessage)
        → Goes d t running done (
            build_context d c t a >>= λ msgs.
            loop d c t (default_pos c.tool_max_steps 5) msgs 0 0 >>= λ total.
            publish_state d t running done >>= λ _.
            publish d t (done_event total) >>= λ _. pure total)
    unfolding can_transit
    Walks-rest fresh a =
        Walks-bind rid _ running running done _ (Goes-build_context d c t fresh a) λ msgs.
          Walks-bind rid _ running running done _ (Goes-loop d c t fresh _ msgs 0 0) λ total.
            Walks-bind rid _ running done done _ (Goes-publish_state d t running done refl) λ _.
              Walks-bind rid _ done done done _ (Goes-done_event d t done total)
                λ _. Walks-pure rid done total

    -- A run whose history is due for compaction while every `Fold` fails, and whose appends, reads of
    -- the history and publications succeed: its state events are not a legal walk from PENDING. It
    -- has announced COMPACTING, and goes on from RUNNING.
    pub run-compaction_failed :
        is_empty t.run_id ≡ false
        → IsFresh d t.run_id
        → Publishes d
        → ((m : HistoryMessage) → Succeeds (d.append t.run_id m))
        → ((w : W) → (d.render t.run_id w).0 ≡ ok prior)
        → ((from to summary : Text) → Fails (d.fold t.run_id from to summary))
        → (c.compact_policy.enabled && needs_compaction c.compact_policy prior) ≡ true
        → (w : Supervised W) → follow t.run_id pending (run d c t w).1 ≡ none
    unfolding run run_started
    run-compaction_failed named fresh up appends renders fails due w = rw named (
        stuck-after rid _ _ pending running Anything Reaches-started
          (λ _ w'.
            stuck-bind rid _ _ running compacting running done Anything w'
              (Reaches-load_history up appends renders fails due) (Walks-rest fresh) refl refl refl)
          w)
