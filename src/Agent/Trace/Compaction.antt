-- ===== src/Agent/Trace/Compaction.antt =====
-- The compaction of the history inside a run.
use ai_agent_cloud_runtime.Prelude.{
  ◌≡◌, refl, Bool, true, false, none, some, List, [], ◌∷◌, Result, ok, err, inl, inr, ◌&&◌, arith,
  length, ◌-◌, drop, take, Bool-cases,
}
use ai_agent_cloud_runtime.Prelude.Int.{default_pos, clamp_zero}
use ai_agent_cloud_runtime.Prelude.Text.{Text, codes, text_eq_refl}
use ai_agent_cloud_runtime.Prelude.Act.{try, ◌>>=◌}
use ai_agent_cloud_runtime.Queue.Event.{Task, Event, state_event}
use ai_agent_cloud_runtime.Orchestrator.Supervisor.{Supervised}
use ai_agent_cloud_runtime.Agent.State.{State, running, compacting, can_transit}
use ai_agent_cloud_runtime.Agent.Types.{Deps, Settings, HistoryMessage}
use ai_agent_cloud_runtime.Agent.Runner.Publish.{Env, publish, publish_state, fail_on, or_fail}
use ai_agent_cloud_runtime.Agent.Runner.Subagent.{lift}
use ai_agent_cloud_runtime.Agent.Runner.Context.{
  needs_compaction, compact_if_needed, announce_compaction, compact_history, render,
  after_compaction, id_at,
}
use ai_agent_cloud_runtime.Agent.Trace.{follow, follow_event, follow_kind, follow-append, Lands}
use ai_agent_cloud_runtime.Agent.Trace.Rules.{Walks-pure, Walks-bind}
use ai_agent_cloud_runtime.Agent.Trace.Walk.{Goes, Goes-publish_state}

-- An operation that returns a value in every world, and one that fails in every world.
abbrev pub Succeeds : {W A : Type 0} → (W → Result Text A × W) → Type 0
Succeeds {W} {A} op = (w : W) → (a : A) × ((op w).0 ≡ ok a)

abbrev pub Fails : {W A : Type 0} → (W → Result Text A × W) → Type 0
Fails {W} op = (w : W) → (e : Text) × ((op w).0 ≡ err e)

abbrev pub Publishes : {W : Type 0} → Deps W → Type 0
Publishes {W} d = (ev : Event State) (w : W) → (d.publish ev w).0 ≡ none

module _ {W : Type 0} (d : Deps W) (c : Settings) (t : Task) where
  abbrev pub state_of : State → State → Event State
  state_of from to = record { run_id = t.run_id; trace_id = t.trace_id; kind = state_event from to }

  -- the world after the event, and after the call of `Fold`
  abbrev pub published : State → State → Supervised W → Supervised W
  published from to w = record w { world = (d.publish (state_of from to) w.world).1 }

  abbrev pub fold_call : List HistoryMessage → W → Result Text Text × W
  fold_call msgs =
      let head = clamp_zero c.compact_policy.keep_head in
      let tail = default_pos c.compact_policy.keep_tail 8 in
      d.fold t.run_id (id_at msgs head) (id_at msgs (length msgs - tail - 1))
        (d.summarize (take (length msgs - tail - head) (drop head msgs)))

  abbrev pub folded : List HistoryMessage → Supervised W → Supervised W
  folded prior w =
      let w' = published running compacting w in record w' { world = (fold_call prior w'.world).1 }

  module _ (prior : List HistoryMessage) (up : Publishes d)
      (needed : (c.compact_policy.enabled && needs_compaction c.compact_policy prior) ≡ true) where
    compact_history_ok :
        (w : Supervised W) (id : Text)
        → (fold_call prior (published running compacting w).world).0 ≡ ok id
        → compact_history d c t prior w
          ≡ (ok true, state_of running compacting ∷ [], folded prior w)
    unfolding compact_history announce_compaction compact_if_needed publish_state publish
        can_transit ◌>>=◌
    compact_history_ok w id e = ground (arith, up (state_of running compacting) w.world)

    -- An error of `Fold` comes after the event of COMPACTING.
    pub compact_history_err :
        (w : Supervised W) (e : Text)
        → (fold_call prior (published running compacting w).world).0 ≡ err e
        → compact_history d c t prior w ≡ (err e, state_of running compacting ∷ [], folded prior w)
    unfolding compact_history announce_compaction compact_if_needed publish_state publish
        can_transit ◌>>=◌
    compact_history_err w e failed = ground (arith, up (state_of running compacting) w.world)

  -- A bind whose first action is known at a world.
  module _ {A B : Type 0} (f : A → Env W B) where
    Lands-known :
        (m : Env W A) (s u v : State) (w w' : Supervised W) (a : A) (es : List (Event State))
        → m w ≡ (ok a, es, w')
        → follow t.run_id s es ≡ some u
        → Lands (follow t.run_id u (f a w').1) (f a w').0 v
        → Lands (follow t.run_id s ((m >>= f) w).1) ((m >>= f) w).0 v
    unfolding ◌>>=◌
    Lands-known m s u v w w' a es e h k = rw e (rw (follow-append t.run_id s u es (f a w').1 h) k)

  Goes-render :
      Succeeds (d.render t.run_id)
      → Goes d t compacting compacting
          (or_fail d t running (codes "history_render_after_compact") (render d c t))
  unfolding or_fail render fail_on ◌>>=◌ lift follow
  Goes-render works = record { at = λ w. ground (arith, (works w.world).1) }

  Goes-after_compaction :
      (prior : List HistoryMessage)
      → Succeeds (d.render t.run_id)
      → Goes d t compacting running (after_compaction d c t prior (ok true))
  unfolding after_compaction can_transit
  Goes-after_compaction prior works =
      Walks-bind t.run_id _ compacting compacting running _ (Goes-render works) λ rendered.
        Walks-bind t.run_id _ compacting running running _
          (Goes-publish_state d t compacting running refl) λ _. Walks-pure t.run_id running rendered

  pub announced : follow t.run_id running (state_of running compacting ∷ []) ≡ some compacting
  unfolding follow follow_event follow_kind can_transit
  announced = ground (arith, text_eq_refl t.run_id)

-- The history client and the event bus answer while a history is compacted.
pub record CompactionWorks (W : Type 0) (d : Deps W) (c : Settings) (t : Task) : Type 0 where
  pub publishes : Publishes d
  pub folds : (from to summary : Text) → Succeeds (d.fold t.run_id from to summary)
  pub renders : Succeeds (d.render t.run_id)

and_left : (a b : Bool) → (a && b) ≡ true → a ≡ true
and_left true b e = refl
and_left false b e = e

module _ {W : Type 0} (d : Deps W) (c : Settings) (t : Task) (prior : List HistoryMessage) where
  abbrev needed : Bool
  needed = c.compact_policy.enabled && needs_compaction c.compact_policy prior

  compact_history_skipped :
      (w : Supervised W) → needed ≡ false → compact_history d c t prior w ≡ (ok false, [], w)
  unfolding compact_history
  compact_history_skipped w e = rw e refl

  pub try-known :
      {A : Type 0} (m : Env W A) (w : Supervised W) (r : Result Text A) (es : List (Event State))
      (w' : Supervised W)
      → m w ≡ (r, es, w')
      → try m w ≡ (ok r, es, w')
  try-known m w r es w' e = rw e refl

  pub Goes-compaction :
      (c.compact_policy.enabled ≡ true → CompactionWorks W d c t)
      → Goes d t running running
          (try (compact_history d c t prior) >>= after_compaction d c t prior)
  unfolding after_compaction follow
  Goes-compaction works = record {
    at = λ w. elim (Bool-cases needed) [
      | inl due ↦
          let ready = works (and_left c.compact_policy.enabled _ due) in
          let w' = published d c t running compacting w in
          let (id, e) = ready.folds _ _ _ w'.world in
          Lands-known d c t _ (try (compact_history d c t prior)) running compacting running w
            (folded d c t prior w) (ok true) _
            (try-known (compact_history d c t prior) w _ _ _
              (compact_history_ok d c t prior ready.publishes due w id e))
            (announced d c t)
            ((Goes-after_compaction d c t prior ready.renders).at (folded d c t prior w))
      | inr idle ↦
          Lands-known d c t _ (try (compact_history d c t prior)) running running running w w
            (ok false) []
            (try-known (compact_history d c t prior) w _ _ _ (compact_history_skipped w idle)) refl
            refl
    ];
  }
