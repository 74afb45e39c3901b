-- ===== src/Agent/Limits/Context.antt =====
-- What a run does before its first call of the model leaves the counts as they are.
use ai_agent_cloud_runtime.Prelude.{
  refl, Option, none, some, List, Result, ok, err, Bool, true, false,
}
use ai_agent_cloud_runtime.Prelude.Text.{Text}
use ai_agent_cloud_runtime.Queue.Event.{Task}
use ai_agent_cloud_runtime.Agent.Types.{
  Deps, Settings, Message, HistoryMessage, HookRequest, HookResponse,
}
use ai_agent_cloud_runtime.Agent.Runner.Context.{
  compact_if_needed, announce_compaction, compact_history, render, after_compaction, load_history,
  retrieve, hooked, pre_llm_hook, build_context,
}
use ai_agent_cloud_runtime.Agent.Limits.{
  Budget, Keeps, Keeps-pure, Keeps-raise, Keeps-result, Keeps-on_world, Keeps-try, Keeps-if,
  Keeps-bind, Keeps-publish_state, Keeps-fail, Keeps-or_fail, Keeps-append,
}

module _ {W : Type 0} (d : Deps W) (c : Settings) (t : Task) (Q : Budget) where
  Keeps-compact_if_needed :
      (msgs : List HistoryMessage)
      → Keeps W Bool Q (compact_if_needed d c.compact_policy t.run_id msgs)
  unfolding compact_if_needed
  Keeps-compact_if_needed msgs =
      Keeps-if Q _ _ _
        (Keeps-bind Q _ _ (Keeps-on_world Q _)
          λ r. Keeps-bind Q _ _ (Keeps-result Q r) λ _. Keeps-pure Q _)
        (Keeps-pure Q _)

  Keeps-announce_compaction :
      (o : Option Text) (prior : List HistoryMessage)
      → Keeps W Bool Q (announce_compaction d c t o prior)
  unfolding announce_compaction
  Keeps-announce_compaction none prior = Keeps-compact_if_needed prior
  Keeps-announce_compaction (some e) prior = Keeps-raise Q _

  Keeps-compact_history :
      (prior : List HistoryMessage) → Keeps W Bool Q (compact_history d c t prior)
  unfolding compact_history
  Keeps-compact_history prior =
      Keeps-if Q _ _ _
        (Keeps-bind Q _ _ (Keeps-publish_state d t Q _ _ refl)
          λ o. Keeps-announce_compaction o prior)
        (Keeps-pure Q _)

  Keeps-render : Keeps W (List HistoryMessage) Q (render d c t)
  unfolding render
  Keeps-render = Keeps-bind Q _ _ (Keeps-on_world Q _) λ r. Keeps-result Q r

  Keeps-after_compaction :
      (prior : List HistoryMessage) (r : Result Text Bool)
      → Keeps W (List HistoryMessage) Q (after_compaction d c t prior r)
  unfolding after_compaction
  Keeps-after_compaction prior (err e) = Keeps-pure Q _
  Keeps-after_compaction prior (ok false) = Keeps-pure Q _
  Keeps-after_compaction prior (ok true) =
      Keeps-bind Q _ _ (Keeps-or_fail d t Q _ _ _ Keeps-render)
        λ _. Keeps-bind Q _ _ (Keeps-publish_state d t Q _ _ refl) λ _. Keeps-pure Q _

  pub Keeps-load_history : Keeps W (List HistoryMessage) Q (load_history d c t)
  unfolding load_history
  Keeps-load_history =
      Keeps-bind Q _ _ (Keeps-or_fail d t Q _ _ _ (Keeps-append d Q _ _ _ _ _)) λ _.
        Keeps-bind Q _ _ (Keeps-or_fail d t Q _ _ _ Keeps-render) λ prior.
          Keeps-bind Q _ _ (Keeps-try Q _ (Keeps-compact_history prior))
            λ r. Keeps-after_compaction prior r

  Keeps-retrieve :
      (o : Option (Text → W → Result Text Text × W)) → Keeps W (List Message) Q (retrieve d c t o)
  Keeps-retrieve none = Keeps-pure Q _
  Keeps-retrieve (some select) = Keeps-on_world Q _

  Keeps-hooked : (r : Result Text HookResponse) → Keeps W (List Message) Q (hooked d c t r)
  unfolding hooked
  Keeps-hooked (err e) = Keeps-if Q _ _ _ (Keeps-fail d t Q _ _ _) (Keeps-pure Q _)
  Keeps-hooked (ok resp) = Keeps-pure Q _

  Keeps-pre_llm_hook :
      (h : Option (HookRequest → W → Result Text HookResponse × W))
      → Keeps W (List Message) Q (pre_llm_hook d c t h)
  unfolding pre_llm_hook
  Keeps-pre_llm_hook none = Keeps-pure Q _
  Keeps-pre_llm_hook (some execute) = Keeps-bind Q _ _ (Keeps-on_world Q _) Keeps-hooked

  pub Keeps-build_context :
      (prior : List HistoryMessage) → Keeps W (List Message) Q (build_context d c t prior)
  unfolding build_context
  Keeps-build_context prior = Keeps-bind Q _ _ (Keeps-retrieve d.skills) λ _.
      Keeps-bind Q _ _ (Keeps-retrieve d.rag)
        λ _. Keeps-bind Q _ _ (Keeps-pre_llm_hook d.hook) λ _. Keeps-pure Q _
