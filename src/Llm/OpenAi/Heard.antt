-- ===== src/Llm/OpenAi/Heard.antt =====
-- What `streamOnce` of internal/agent/runner.go makes of the stream of internal/llm/openai.go.
use ai_agent_cloud_runtime.Prelude.{
  ℕ, ◌+◌, ◌≡◌, refl, ap, ◌∙◌, Bool, false, Option, none, some, List, [], ◌∷◌, ◌++◌, map, Result, ok,
  length, append-nil, Bool-cases, inl, inr, if◌then◌else◌,
}
use ai_agent_cloud_runtime.Prelude.Text.{Text, codes, is_empty, text_eq}
use ai_agent_cloud_runtime.Prelude.Cuts.{split}
use ai_agent_cloud_runtime.Queue.Event.{Task}
use ai_agent_cloud_runtime.Orchestrator.Supervisor.{Supervised}
use ai_agent_cloud_runtime.Agent.Types.{Deps, Message, ToolCall, ToolDefinition, TokenEvent}
use ai_agent_cloud_runtime.Agent.Runner.Stream.{Streamed, stream_once}
use ai_agent_cloud_runtime.Agent.Runner.Stream.Tokens.{
  heard, broken, tokens, all_calls, join, numbered, outcome, stream_once-numbered,
}
use ai_agent_cloud_runtime.Llm.OpenAi.Calls.{ToolDelta}
use ai_agent_cloud_runtime.Llm.OpenAi.{Choice, Body, token_of, end_of, read_events}
use ai_agent_cloud_runtime.Llm.OpenAi.Described.{
  received, is_marked, until_reason, reason_of, contents, fragments, joined_calls, finishing,
  closing, last_event, described,
}
use ai_agent_cloud_runtime.Llm.OpenAi.Events.{read_events-described}

-- What a listener takes from a stream: its tokens, its tool calls and its error.
abbrev HeardAs : List Text → List ToolCall → Option Text → List TokenEvent → Type 0
HeardAs xs calls failure evs =
    (tokens (heard evs) ≡ xs) × (all_calls (heard evs) ≡ calls) × (broken evs ≡ failure)

abbrev pub read_failure : Option Text → Option Text
read_failure none = none
read_failure (some e) = some (codes "sse read: " ++ e)

-- the error of a stream: none if it was marked as done, or has a reason to finish
abbrev pub stream_failure : Text → Bool → Option Text → Option Text
stream_failure reason done failure =
    if is_empty reason then (if done then none else read_failure failure) else none

abbrev pub calls_heard : Text → List ToolDelta → List ToolCall
calls_heard reason ds = if text_eq reason (codes "tool_calls") then joined_calls ds else []

contents-HeardAs :
    (chs : List Choice) (calls : List ToolCall) (failure : Option Text) (evs : List TokenEvent)
    → HeardAs [] calls failure evs
    → HeardAs (contents chs) calls failure (map token_of (contents chs) ++ evs)
unfolding is_empty
contents-HeardAs [] calls failure evs h = h
contents-HeardAs (ch ∷ chs) calls failure evs h =
    let (said, called, broke) = contents-HeardAs chs calls failure evs h in
    elim (Bool-cases (is_empty ch.content)) [
      | inl e ↦ rw e (said, called, broke)
      | inr e ↦ rw e (rw e (ap (λ xs. ch.content ∷ xs) said, called, broke))
    ]

finishing-HeardAs :
    (reason : Text) (ds : List ToolDelta)
    → HeardAs [] (calls_heard reason ds) none (finishing reason ds)
unfolding is_empty
finishing-HeardAs reason [] = elim (Bool-cases (text_eq reason (codes "tool_calls"))) [
  | inl e ↦ rw e (refl, refl, refl)
  | inr e ↦ rw e (refl, refl, refl)
]
finishing-HeardAs reason (d ∷ ds) = elim (Bool-cases (text_eq reason (codes "tool_calls"))) [
  | inl e ↦ rw e (refl, append-nil (joined_calls (d ∷ ds)), refl)
  | inr e ↦ rw e (refl, refl, refl)
]

end_of-HeardAs :
    (failure : Option Text) → HeardAs [] [] (read_failure failure) (end_of failure ∷ [])
unfolding is_empty
end_of-HeardAs none = (refl, refl, refl)
end_of-HeardAs (some e) = (refl, refl, refl)

last_event-HeardAs :
    (lines : List Text) (body : Body)
    → HeardAs [] []
        (if is_marked lines then none else read_failure body.failure)
        (last_event lines body ∷ [])
unfolding is_empty
last_event-HeardAs lines body = elim (Bool-cases (is_marked lines)) [
  | inl e ↦ rw e (refl, refl, refl)
  | inr e ↦ rw e (end_of-HeardAs body.failure)
]

closing-HeardAs :
    (reason : Text) (ds : List ToolDelta) (lines : List Text) (body : Body)
    → HeardAs []
        (calls_heard reason ds)
        (stream_failure reason (is_marked lines) body.failure)
        (closing reason ds (last_event lines body))
unfolding text_eq is_empty
closing-HeardAs [] ds lines body = last_event-HeardAs lines body
closing-HeardAs (x ∷ xs) ds lines body = finishing-HeardAs (x ∷ xs) ds

described-HeardAs :
    (decode : Text → Option (List Choice)) (body : Body)
    → let lines = split 10 body.bytes in
      let chs = received decode lines in
      HeardAs
        (contents (until_reason chs))
        (calls_heard (reason_of chs) (fragments (until_reason chs)))
        (stream_failure (reason_of chs) (is_marked lines) body.failure)
        (described decode body)
described-HeardAs decode body =
    let lines = split 10 body.bytes in
    let chs = received decode lines in
    contents-HeardAs (until_reason chs) _ _ _
      (closing-HeardAs (reason_of chs) (fragments (until_reason chs)) lines body)

abbrev gathered : Option Text → ℕ → List Text → List ToolCall → Result Text Streamed
gathered failure idx xs calls =
    outcome failure
      (record { text = join xs; tool_calls = calls; token_cnt = length xs; idx = idx + length xs })

gathered-HeardAs :
    (idx : ℕ) (xs : List Text) (calls : List ToolCall) (failure : Option Text)
    (evs : List TokenEvent)
    → HeardAs xs calls failure evs
    → gathered (broken evs) idx (tokens (heard evs)) (all_calls (heard evs))
      ≡ gathered failure idx xs calls
gathered-HeardAs idx xs calls failure evs (said, called, broke) = rw (said, called, broke) refl

module _ {W V : Type 0} (d : Deps W) (t : Task) (decode : Text → Option (List Choice))
    (is_done : V → Bool × V) (live : (v : V) → (is_done v).0 ≡ false) where
  -- Where the provider's stream is what the goroutine sends for a body, and its context does not end:
  -- the runner publishes one token event for each content that is not empty, of the chunks up to the
  -- first with a reason to finish or to the end marker; its text is these contents joined, its tool calls are
  -- the calls joined from the fragments if the reason is "tool_calls" and none otherwise, and there is
  -- an error only if the body broke off before either.
  pub stream_once-read_events :
      (msgs : List Message) (tools : List ToolDefinition) (idx : ℕ) (w : Supervised W) (body : Body)
      (v : V)
      → (d.stream (record { model = t.model; messages = msgs; tools = tools }) w.world).0
        ≡ ok (read_events is_done decode body v).1
      → let lines = split 10 body.bytes in
        let chs = received decode lines in
        let said = contents (until_reason chs) in
        ((stream_once d t msgs tools idx w).1 ≡ numbered t idx said)
        × ((stream_once d t msgs tools idx w).0
            ≡ outcome (stream_failure (reason_of chs) (is_marked lines) body.failure) (record {
              text = join said;
              tool_calls = calls_heard (reason_of chs) (fragments (until_reason chs));
              token_cnt = length said;
              idx = idx + length said;
            }))
  stream_once-read_events msgs tools idx w body v opened =
      let (said, called, broke) = described-HeardAs decode body in
      let (sent, result) =
        stream_once-numbered d t msgs tools idx w (described decode body)
          (opened ∙ ap ok (read_events-described is_done decode live body v)) in
      (
        sent ∙ ap (numbered t idx) said,
        result ∙ gathered-HeardAs idx _ _ _ (described decode body) (described-HeardAs decode body),
      )
