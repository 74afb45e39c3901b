-- ===== src/Agent/Runner/Stream/Tokens.antt =====
-- What `streamOnce` makes of a stream, against a description of it without a loop variable.
use ai_agent_cloud_runtime.Prelude.{
  ℕ, suc, ◌+◌, ◌≡◌, refl, sym, ap, ◌∙◌, Bool, true, false, Option, none, some, List, [], ◌∷◌, ◌++◌,
  Result, ok, err, length, append-nil, append_assoc, Bool-cases, inl, inr, if◌then◌else◌, arith,
}
use ai_agent_cloud_runtime.Prelude.Text.{Text, is_empty}
use ai_agent_cloud_runtime.Prelude.Act.{◌>>=◌}
use ai_agent_cloud_runtime.Queue.Event.{Task, Event, token_event}
use ai_agent_cloud_runtime.Orchestrator.Supervisor.{Supervised}
use ai_agent_cloud_runtime.Agent.State.{State}
use ai_agent_cloud_runtime.Agent.Types.{Deps, Message, ToolCall, ToolDefinition, TokenEvent}
use ai_agent_cloud_runtime.Agent.Runner.Publish.{Env, publish}
use ai_agent_cloud_runtime.Agent.Runner.Stream.{
  Streamed, take_token, consume_event, consume, consume_stream, stream_once,
}

-- The events of a stream that count: up to the first with `Done`, and before the first error.
abbrev pub heard : List TokenEvent → List TokenEvent
heard [] = []
heard (ev ∷ evs) = elim ev.err [ some e ↦ [] | none ↦ ev ∷ (if ev.done then [] else heard evs) ]

-- The error that ends the stream, if one comes before `Done`.
abbrev pub broken : List TokenEvent → Option Text
broken [] = none
broken (ev ∷ evs) = elim ev.err [ some e ↦ some e | none ↦ if ev.done then none else broken evs ]

-- The tokens that are not empty, and all tool calls.
abbrev pub tokens : List TokenEvent → List Text
tokens [] = []
tokens (ev ∷ evs) = if is_empty ev.token then tokens evs else ev.token ∷ tokens evs

abbrev pub all_calls : List TokenEvent → List ToolCall
all_calls [] = []
all_calls (ev ∷ evs) = ev.tool_calls ++ all_calls evs

abbrev pub join : List Text → Text
join [] = []
join (t ∷ ts) = t ++ join ts

-- One token event of the run for each text, numbered from `n` on.
abbrev pub numbered : Task → ℕ → List Text → List (Event State)
numbered t n [] = []
numbered t n (x ∷ xs) =
    record { run_id = t.run_id; trace_id = t.trace_id; kind = token_event x n }
    ∷ numbered t (n + 1) xs

abbrev pub extended : Streamed → List TokenEvent → Streamed
extended s evs = record {
  text = s.text ++ join (tokens evs);
  tool_calls = s.tool_calls ++ all_calls evs;
  token_cnt = s.token_cnt + length (tokens evs);
  idx = s.idx + length (tokens evs);
}

abbrev pub outcome : Option Text → Streamed → Result Text Streamed
outcome none s = ok s
outcome (some e) s = err e

-- What the loop holds after one event.
abbrev add : Streamed → TokenEvent → Streamed
add s ev =
    if is_empty ev.token
    then record s { tool_calls = s.tool_calls ++ ev.tool_calls }
    else record s {
      tool_calls = s.tool_calls ++ ev.tool_calls;
      text = s.text ++ ev.token;
      token_cnt = s.token_cnt + 1;
      idx = s.idx + 1;
    }

extended-empty : (s : Streamed) → extended s [] ≡ s
extended-empty s = rw (append-nil s.text, append-nil s.tool_calls) (ground arith)

shift : (n k : ℕ) → n + 1 + k ≡ n + suc k
shift n k = omega arith

extended-add :
    (s : Streamed) (ev : TokenEvent) (evs : List TokenEvent)
    → extended (add s ev) evs ≡ extended s (ev ∷ evs)
extended-add s ev evs = elim (Bool-cases (is_empty ev.token)) [
  | inl empty ↦ rw (empty, append_assoc s.tool_calls ev.tool_calls (all_calls evs)) refl
  | inr text ↦
      rw
        (
          text,
          append_assoc s.tool_calls ev.tool_calls (all_calls evs),
          append_assoc s.text ev.token (join (tokens evs)),
          shift s.token_cnt (length (tokens evs)),
          shift s.idx (length (tokens evs)),
        )
        refl
]

numbered-add :
    (t : Task) (s : Streamed) (ev : TokenEvent) (evs : List TokenEvent)
    → numbered t s.idx (tokens (ev ∷ [])) ++ numbered t (add s ev).idx (tokens evs)
      ≡ numbered t s.idx (tokens (ev ∷ evs))
numbered-add t s ev evs = elim (Bool-cases (is_empty ev.token)) [
  | inl empty ↦ rw empty refl
  | inr text ↦ rw text refl
]

module _ {W : Type 0} (d : Deps W) (t : Task) where
  take_token-add :
      (ev : TokenEvent) (s : Streamed) (w : Supervised W)
      → ((take_token d t ev s w).0 ≡ ok (add s ev))
        × ((take_token d t ev s w).1 ≡ numbered t s.idx (tokens (ev ∷ [])))
  unfolding take_token publish ◌>>=◌
  take_token-add ev s w = elim (Bool-cases (is_empty ev.token)) [
    | inl empty ↦ rw empty (refl, refl)
    | inr text ↦ rw text (refl, refl)
  ]

  -- What the loop returns, and what it publishes.
  abbrev Consumed : Streamed → List TokenEvent → Env W Streamed → Type 0
  Consumed s evs m =
      (w : Supervised W)
      → ((m w).1 ≡ numbered t s.idx (tokens (heard evs)))
        × ((m w).0 ≡ outcome (broken evs) (extended s (heard evs)))

  abbrev event_of : Text → List ToolCall → Bool → Text → Option Text → TokenEvent
  event_of token calls is_last reason e = record {
    token = token;
    tool_calls = calls;
    done = is_last;
    stop_reason = reason;
    err = e;
  }

  -- one event of the next lemma
  consume_one :
      (x : Text) (calls : List ToolCall) (is_last : Bool) (reason : Text) (e : Option Text)
      (evs : List TokenEvent) (s : Streamed)
      → ((s' : Streamed) → Consumed s' evs (consume d t evs s'))
      → Consumed s
          (event_of x calls is_last reason e ∷ evs)
          (consume d t (event_of x calls is_last reason e ∷ evs) s)
  unfolding consume consume_event ◌>>=◌
  consume_one x calls is_last reason (some e) evs s ih w = (refl, refl)
  consume_one x calls true reason none evs s ih w =
      let ev = event_of x calls true reason none in
      let (added, sent) = take_token-add ev s w in
      rw added (
        append-nil (take_token d t ev s w).1 ∙ sent,
        ap ok (sym (extended-empty (add s ev)) ∙ extended-add s ev []),
      )
  consume_one x calls false reason none evs s ih w =
      let ev = event_of x calls false reason none in
      let (r, es, w') = take_token d t ev s w in
      let (added, sent) = take_token-add ev s w in
      let (rest, result) = ih (add s ev) w' in
      rw added (
        ap (λ fs. es ++ fs) rest
            ∙ (ap (λ xs. xs ++ numbered t (add s ev).idx (tokens (heard evs))) sent
                ∙ numbered-add t s ev (heard evs)),
        result ∙ ap (outcome (broken evs)) (extended-add s ev (heard evs)),
      )

  consume-Consumed : (evs : List TokenEvent) (s : Streamed) → Consumed s evs (consume d t evs s)
  unfolding consume
  consume-Consumed [] s w = (refl, ap ok (sym (extended-empty s)))
  consume-Consumed (ev ∷ evs) s w =
      consume_one ev.token ev.tool_calls ev.done ev.stop_reason ev.err evs s (consume-Consumed evs)
        w

  -- A stream that the provider opens, with the token index at `idx`: a token event is published for
  -- each token that is not empty, in their order and numbered from `idx` on, up to the first event
  -- with `Done` or the first error, and nothing else is; an error that comes first is the result,
  -- and otherwise the result is the tokens joined, all tool calls up to there, the number of tokens,
  -- and the index after the last one.
  pub stream_once-numbered :
      (msgs : List Message) (tools : List ToolDefinition) (idx : ℕ) (w : Supervised W)
      (evs : List TokenEvent)
      → (d.stream (record { model = t.model; messages = msgs; tools = tools }) w.world).0 ≡ ok evs
      → ((stream_once d t msgs tools idx w).1 ≡ numbered t idx (tokens (heard evs)))
        × ((stream_once d t msgs tools idx w).0
            ≡ outcome (broken evs) (record {
              text = join (tokens (heard evs));
              tool_calls = all_calls (heard evs);
              token_cnt = length (tokens (heard evs));
              idx = idx + length (tokens (heard evs));
            }))
  unfolding stream_once consume_stream ◌>>=◌
  stream_once-numbered msgs tools idx w evs opened =
      let start : Streamed = record { text = []; tool_calls = []; token_cnt = 0; idx = idx } in
      let w' = (d.stream (record { model = t.model; messages = msgs; tools = tools }) w.world).1 in
      let (sent, result) = consume-Consumed evs start (record w { world = w' }) in
      rw opened (
        sent,
        result
            ∙ ap
                (λ k. outcome (broken evs) (record {
                  text = join (tokens (heard evs));
                  tool_calls = all_calls (heard evs);
                  token_cnt = k;
                  idx = idx + length (tokens (heard evs));
                }))
                (omega arith),
      )
