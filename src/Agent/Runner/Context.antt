-- ===== src/Agent/Runner/Context.antt =====
-- internal/agent/runner.go: what `Run` does before its first call of the model. `compactHistory`
-- calls `CompactIfNeeded` of internal/orchestrator/types.go.
use ai_agent_cloud_runtime.Prelude.{
  ℕ, ◌+◌, ◌-◌, Bool, true, false, Option, none, some, List, [], ◌∷◌, ◌++◌, map, Result, ok, err,
  length, take, drop, get_or, leb, ltb, ◌&&◌, if◌then◌else◌,
}
use ai_agent_cloud_runtime.Prelude.Int.{default_pos, clamp_zero}
use ai_agent_cloud_runtime.Prelude.Text.{Text, codes, is_empty, trim_space}
use ai_agent_cloud_runtime.Prelude.Act.{pure, raise, try, ◌>>=◌, ◌>>◌}
use ai_agent_cloud_runtime.Queue.Event.{Task}
use ai_agent_cloud_runtime.Orchestrator.Supervisor.{on_world}
use ai_agent_cloud_runtime.Agent.State.{running, compacting}
use ai_agent_cloud_runtime.Agent.Types.{
  Deps, Settings, CompactPolicy, Message, HistoryMessage, HookRequest, HookResponse, pre_llm,
  llm_message, history_message,
}
use ai_agent_cloud_runtime.Agent.Runner.Publish.{Env, publish_state, fail, or_fail}
use ai_agent_cloud_runtime.Agent.Runner.Subagent.{lift, append}

-- `len([]rune(s))` of valid UTF-8: the bytes that do not continue a character.
unfoldable pub rune_count : Text → ℕ
rune_count [] = 0
rune_count (b ∷ bs) = (if leb 0x80 b && ltb b 0xc0 then 0 else 1) + rune_count bs

unfoldable pub total_chars : List HistoryMessage → ℕ
unfolding rune_count
total_chars [] = 0
total_chars (m ∷ ms) = rune_count m.content + total_chars ms

-- The test that `compactHistory` and `CompactIfNeeded` both make.
unfoldable pub needs_compaction : CompactPolicy → List HistoryMessage → Bool
unfolding total_chars
needs_compaction p msgs =
    ltb (default_pos p.max_chars 24000) (total_chars msgs)
    && ltb (clamp_zero p.keep_head + default_pos p.keep_tail 8 + 1) (length msgs)

-- `msgs[i].ID`
abbrev pub id_at : List HistoryMessage → ℕ → Text
id_at msgs i = (get_or msgs i (history_message [] [] [] [])).id

module _ {W : Type 0} (d : Deps W) where
  unfoldable pub compact_if_needed : CompactPolicy → Text → List HistoryMessage → Env W Bool
  compact_if_needed p run_id msgs =
      let head = clamp_zero p.keep_head in
      let tail = default_pos p.keep_tail 8 in
      if p.enabled && needs_compaction p msgs
      then on_world (
          d.fold run_id (id_at msgs head) (id_at msgs (length msgs - tail - 1))
            (d.summarize (take (length msgs - tail - head) (drop head msgs))))
        >>= (λ folded. lift folded >> pure true)
      else pure false

module _ {W : Type 0} (d : Deps W) (c : Settings) (t : Task) where
  unfoldable pub announce_compaction : Option Text → List HistoryMessage → Env W Bool
  announce_compaction none prior = compact_if_needed d c.compact_policy t.run_id prior
  announce_compaction (some e) prior = raise e

  unfoldable pub compact_history : List HistoryMessage → Env W Bool
  compact_history prior =
      if c.compact_policy.enabled && needs_compaction c.compact_policy prior
      then publish_state d t running compacting >>= (λ e. announce_compaction e prior)
      else pure false

  unfoldable pub render : Env W (List HistoryMessage)
  render = on_world (d.render t.run_id) >>= lift

  -- `if ok, err := r.compactHistory(...)`: an error is only logged.
  unfoldable pub after_compaction :
      List HistoryMessage → Result Text Bool → Env W (List HistoryMessage)
  after_compaction prior (err e) = pure prior
  after_compaction prior (ok false) = pure prior
  after_compaction prior (ok true) = do
    rendered ← or_fail d t running (codes "history_render_after_compact") render
    publish_state d t compacting running
    pure rendered

  -- The user's message is written and the visible history read, compacted if it is long.
  unfoldable pub load_history : Env W (List HistoryMessage)
  load_history = do
    or_fail d t running (codes "history_user") (append d t.run_id (codes "user") t.prompt [] [])
    prior ← or_fail d t running (codes "history_render") render
    compacted ← try (compact_history prior)
    after_compaction prior compacted

  abbrev pub default_system_prompt : Text
  default_system_prompt = codes "You are AgentForge runtime, a helpful assistant. Answer concisely."

  -- A rendered system message, unless it is empty or could not be made.
  abbrev pub rendered_message : Result Text Text → List Message
  rendered_message (err e) = []
  rendered_message (ok text) = if is_empty text then [] else llm_message (codes "system") text ∷ []

  abbrev pub retrieve : Option (Text → W → Result Text Text × W) → Env W (List Message)
  retrieve none = pure []
  retrieve (some select) =
      on_world (λ w. let (r, w') = select t.prompt w in (rendered_message r, w'))

  abbrev pub system_messages : List Text → List Message
  system_messages [] = []
  system_messages (content ∷ rest) =
      if is_empty (trim_space content)
      then system_messages rest
      else llm_message (codes "system") content ∷ system_messages rest

  unfoldable pub hooked : Result Text HookResponse → Env W (List Message)
  hooked (err e) = if c.hook_fail_closed then fail d t running (codes "hook_pre_llm") e else pure []
  hooked (ok resp) = pure (if resp.allowed then system_messages resp.append_system_messages else [])

  -- `client` is the hook client, if the runner has one.
  unfoldable pub pre_llm_hook :
      Option (HookRequest → W → Result Text HookResponse × W) → Env W (List Message)
  pre_llm_hook none = pure []
  pre_llm_hook (some execute) =
      on_world (
        execute
          (record { event = pre_llm; run_id = t.run_id; trace_id = t.trace_id; payload_json = [] }))
      >>= hooked

  -- The system prompt, the selected skills, the retrieved chunks, what the hook adds, the history.
  unfoldable pub build_context : List HistoryMessage → Env W (List Message)
  build_context prior = do
    skills ← retrieve d.skills
    chunks ← retrieve d.rag
    added ← pre_llm_hook d.hook
    let prompt =
        if is_empty (trim_space t.system_prompt) then default_system_prompt else t.system_prompt
    pure (
        llm_message (codes "system") prompt ∷ skills
        ++ (chunks ++ (added ++ map (λ m. llm_message m.role m.content) prior)))
