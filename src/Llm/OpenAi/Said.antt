-- ===== src/Llm/OpenAi/Said.antt =====
-- The events of some choices by the recursion of internal/llm/openai.go, and their description.
use ai_agent_cloud_runtime.Prelude.{
  ◌≡◌, refl, sym, ap, ◌∙◌, Bool, true, false, Option, none, some, List, [], ◌∷◌, ◌++◌, map,
  append-nil, append_assoc, if◌then◌else◌, Bool-cases, inl, inr,
}
use ai_agent_cloud_runtime.Prelude.Int.{ℤ}
use ai_agent_cloud_runtime.Prelude.Text.{Text, codes, is_empty, text_eq}
use ai_agent_cloud_runtime.Agent.Types.{ToolCall, TokenEvent}
use ai_agent_cloud_runtime.Llm.OpenAi.Calls.{
  ToolDelta, int_eq, CallBuilders, no_calls, builder_at, set_builder, add_to, add_deltas,
  built_calls,
}
use ai_agent_cloud_runtime.Llm.OpenAi.Joined.{built_calls-joined_call}
use ai_agent_cloud_runtime.Llm.OpenAi.{Choice, token_of, done_of, calls_of, is_calls}
use ai_agent_cloud_runtime.Llm.OpenAi.Described.{
  until_reason, reason_of, contents, fragments, finishing, closing,
}

-- the events by the code's own recursion
unfoldable pub token_events : Text → List TokenEvent → List TokenEvent
token_events content es = if is_empty content then es else token_of content ∷ es

unfoldable pub finish_events : Text → CallBuilders → List TokenEvent
finish_events reason calls =
    if is_calls reason calls.builders
    then calls_of (built_calls calls) ∷ done_of reason ∷ []
    else done_of reason ∷ []

unfoldable pub said :
    List Choice → CallBuilders → (CallBuilders → List TokenEvent) → List TokenEvent
said [] calls k = k calls
said (ch ∷ chs) calls k =
    let rest = said chs (add_deltas ch.tool_calls calls) k in
    token_events ch.content (
      if is_empty ch.finish_reason
      then rest
      else finish_events ch.finish_reason (add_deltas ch.tool_calls calls))

pub said-append :
    (chs bs : List Choice) (calls : CallBuilders) (k : CallBuilders → List TokenEvent)
    → said (chs ++ bs) calls k ≡ said chs calls (λ c. said bs c k)
unfolding said
said-append [] bs calls k = refl
said-append (ch ∷ chs) bs calls k = rw (said-append chs bs (add_deltas ch.tool_calls calls) k) refl

add_deltas-append :
    (ds es : List ToolDelta) (c : CallBuilders)
    → add_deltas (ds ++ es) c ≡ add_deltas es (add_deltas ds c)
unfolding add_deltas
add_deltas-append [] es c = refl
add_deltas-append (d ∷ ds) es c = add_deltas-append ds es _

-- Once there is a builder, there always is one.
IsStarted : List (ℤ × ToolCall) → Type 0
IsStarted bs = (x : ℤ × ToolCall) × (xs : List (ℤ × ToolCall)) × (bs ≡ x ∷ xs)

set_builder-IsStarted :
    (i : ℤ) (b : ToolCall) (bs : List (ℤ × ToolCall)) → IsStarted (set_builder i b bs)
unfolding set_builder IsStarted
set_builder-IsStarted i b [] = ((i, b), [], refl)
set_builder-IsStarted i b ((j, c) ∷ bs) = choose (int_eq j i)
  where
    choose :
        (t : Bool)
        → (x : ℤ × ToolCall) × (xs : List (ℤ × ToolCall)) × ((if t
              then (i, b) ∷ bs
              else (j, c) ∷ set_builder i b bs)
            ≡ x ∷ xs)
    choose true = ((i, b), bs, refl)
    choose false = ((j, c), set_builder i b bs, refl)

add_to-IsStarted :
    (d : ToolDelta) (o : Option ToolCall) (c : CallBuilders) → IsStarted (add_to d o c).builders
unfolding add_to
add_to-IsStarted d none c = set_builder-IsStarted d.index _ c.builders
add_to-IsStarted d (some b) c = set_builder-IsStarted d.index _ c.builders

add_deltas-IsStarted :
    (ds : List ToolDelta) (c : CallBuilders)
    → IsStarted c.builders
    → IsStarted (add_deltas ds c).builders
unfolding add_deltas
add_deltas-IsStarted [] c h = h
add_deltas-IsStarted (d ∷ ds) c h = add_deltas-IsStarted ds _ (add_to-IsStarted d _ c)

is_calls-IsStarted :
    (reason : Text) (bs : List (ℤ × ToolCall))
    → IsStarted bs
    → is_calls reason bs ≡ text_eq reason (codes "tool_calls")
unfolding IsStarted
is_calls-IsStarted reason bs (x, xs, e) = rw e refl

finish_events-finishing :
    (reason : Text) (ds : List ToolDelta)
    → finish_events reason (add_deltas ds no_calls) ≡ finishing reason ds
unfolding finish_events add_deltas text_eq builder_at built_calls
finish_events-finishing reason [] = refl
finish_events-finishing reason (d ∷ ds) =
    let c = add_to d none no_calls in
    let started = add_deltas-IsStarted ds c (add_to-IsStarted d none no_calls) in
    ap
      (λ b.
        if b
        then calls_of (built_calls (add_deltas ds c)) ∷ done_of reason ∷ []
        else done_of reason ∷ [])
      (is_calls-IsStarted reason (add_deltas ds c).builders started)
    ∙ ap
        (λ calls.
          if text_eq reason (codes "tool_calls")
          then calls_of calls ∷ done_of reason ∷ []
          else done_of reason ∷ [])
        (built_calls-joined_call (d ∷ ds))

token_events-map :
    (content : Text) (xs : List Text) (ys : List TokenEvent)
    → token_events content (map token_of xs ++ ys)
      ≡ map token_of (if is_empty content then xs else content ∷ xs) ++ ys
unfolding token_events
token_events-map content xs ys = elim (Bool-cases (is_empty content)) [
  | inl e ↦ rw e refl
  | inr e ↦ rw e refl
]

pub said-described :
    (chs : List Choice) (prior : List ToolDelta) (ev : TokenEvent)
    → said chs (add_deltas prior no_calls) (λ c. ev ∷ [])
      ≡ map token_of (contents (until_reason chs))
        ++ closing (reason_of chs) (prior ++ fragments (until_reason chs)) ev
unfolding said is_empty
said-described [] prior ev = refl
said-described (ch ∷ chs) prior ev =
    let added = sym (add_deltas-append prior ch.tool_calls no_calls) in
    let ih = said-described chs (prior ++ ch.tool_calls) ev in
    elim (Bool-cases (is_empty ch.finish_reason)) [
      | inl e ↦
          rw (e, added)
            (ap (token_events ch.content) ih
              ∙ token_events-map ch.content (contents (until_reason chs)) _
              ∙ ap
                  (λ ds.
                    map token_of (
                      if is_empty ch.content
                      then contents (until_reason chs)
                      else ch.content ∷ contents (until_reason chs))
                    ++ closing (reason_of chs) ds ev)
                  (append_assoc prior ch.tool_calls (fragments (until_reason chs))))
      | inr e ↦
          rw (e, added)
            (rw e (
              ap (token_events ch.content)
                (finish_events-finishing ch.finish_reason (prior ++ ch.tool_calls))
              ∙ token_events-map ch.content [] (finishing ch.finish_reason (prior ++ ch.tool_calls))
              ∙ ap
                  (λ ds.
                    map token_of (if is_empty ch.content then [] else ch.content ∷ [])
                    ++ finishing ch.finish_reason ds)
                  (ap (λ t. prior ++ t) (sym (append-nil ch.tool_calls)))))
    ]
