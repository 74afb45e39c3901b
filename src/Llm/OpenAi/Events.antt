-- ===== src/Llm/OpenAi/Events.antt =====
-- What the goroutine of `Stream` in internal/llm/openai.go sends for the body of an answer.
use ai_agent_cloud_runtime.Prelude.{
  ◌≡◌, refl, sym, ap, Bool, true, false, Option, none, some, List, [], ◌∷◌, ◌++◌, if◌then◌else◌,
  Bool-cases, inl, inr,
}
use mathlib.Core.Path.{subst}
use ai_agent_cloud_runtime.Prelude.Text.{Text, codes, is_empty, text_eq}
use ai_agent_cloud_runtime.Prelude.Cuts.{split}
use ai_agent_cloud_runtime.Prelude.Act.{Act, pure, ◌>>=◌}
use ai_agent_cloud_runtime.Agent.Types.{TokenEvent}
use ai_agent_cloud_runtime.Llm.OpenAi.Calls.{CallBuilders, no_calls, add_deltas, built_calls}
use ai_agent_cloud_runtime.Llm.OpenAi.{
  Choice, Body, token_of, done_of, calls_of, end_of, payload_of, is_calls, send_then, finish_stream,
  send_content, each_choice, on_chunk, on_payload, each_line, read_events,
}
use ai_agent_cloud_runtime.Llm.OpenAi.Described.{
  choices_of, before_rest, received, marks, is_marked, last_event, described,
}
use ai_agent_cloud_runtime.Llm.OpenAi.Said.{
  token_events, finish_events, said, said-append, said-described,
}

abbrev pub IsPrefix : List TokenEvent → List TokenEvent → Type 0
IsPrefix xs ys = (rest : List TokenEvent) × (xs ++ rest ≡ ys)

IsPrefix-cons :
    (x : TokenEvent) (xs ys : List TokenEvent) → IsPrefix xs ys → IsPrefix (x ∷ xs) (x ∷ ys)
IsPrefix-cons x xs ys (rest, e) = (rest, ap (λ t. x ∷ t) e)

module _ {W : Type 0} (is_done : W → Bool × W) (decode : Text → Option (List Choice)) where
  -- No send finds the context ended.
  abbrev pub IsLive : Type 0
  IsLive = (w : W) → (is_done w).0 ≡ false

  -- An action sends the first of some events, and all of them where no send finds the context ended.
  abbrev Emits : List TokenEvent → Act TokenEvent W (Unit {0}) → Type 0
  Emits es m = (w : W) → IsPrefix (m w).1 es × (IsLive → (m w).1 ≡ es)

  pure-Emits : Emits [] (pure tt)
  pure-Emits w = (([], refl), λ live. refl)

  Emits-≡ :
      {es fs : List TokenEvent}
      → es ≡ fs
      → (m : Act TokenEvent W (Unit {0})) → Emits es m
      → Emits fs m
  Emits-≡ e m = subst (λ t. Emits t m) e

  send_then-Emits :
      (ev : TokenEvent) (es : List TokenEvent) (next : Act TokenEvent W (Unit {0}))
      → Emits es next
      → Emits (ev ∷ es) (send_then is_done ev next)
  unfolding send_then ◌>>=◌
  send_then-Emits ev es next h w = elim (Bool-cases (is_done w).0) [
    | inl over ↦ rw over ((ev ∷ es, refl), λ live. let no = live w in cc)
    | inr going ↦
        let (part, whole) = h (is_done w).1 in
        rw going
          (IsPrefix-cons ev (next (is_done w).1).1 es part, λ live. ap (λ t. ev ∷ t) (whole live))
  ]

  choose-Emits :
      (b : Bool) (es fs : List TokenEvent) (m n : Act TokenEvent W (Unit {0}))
      → Emits es m
      → Emits fs n
      → Emits (if b then es else fs) (if b then m else n)
  choose-Emits true es fs m n p q = p
  choose-Emits false es fs m n p q = q

  send_content-Emits :
      (content : Text) (es : List TokenEvent) (next : Act TokenEvent W (Unit {0}))
      → Emits es next
      → Emits (token_events content es) (send_content is_done content next)
  unfolding send_content token_events
  send_content-Emits content es next h w = elim (Bool-cases (is_empty content)) [
    | inl e ↦ rw e (h w)
    | inr e ↦ rw e (send_then-Emits (token_of content) es next h w)
  ]

  finish_stream-Emits :
      (reason : Text) (calls : CallBuilders)
      → Emits (finish_events reason calls) (finish_stream is_done reason calls)
  unfolding finish_stream finish_events
  finish_stream-Emits reason calls w =
      let last = send_then is_done (done_of reason) (pure tt) in
      let ended : Emits (done_of reason ∷ []) last =
        send_then-Emits (done_of reason) [] (pure tt) pure-Emits in
      elim (Bool-cases (is_calls reason calls.builders)) [
        | inl e ↦
            rw e (send_then-Emits (calls_of (built_calls calls)) (done_of reason ∷ []) last ended w)
        | inr e ↦ rw e (ended w)
      ]

  each_choice-Emits :
      (chs : List Choice) (calls : CallBuilders) (next : CallBuilders → Act TokenEvent W (Unit {0}))
      (k : CallBuilders → List TokenEvent)
      → ((c : CallBuilders) → Emits (k c) (next c))
      → Emits (said chs calls k) (each_choice is_done chs calls next)
  unfolding each_choice said
  each_choice-Emits [] calls next k h = h calls
  each_choice-Emits (ch ∷ chs) calls next k h =
      let calls' = add_deltas ch.tool_calls calls in
      let rest = each_choice is_done chs calls' next in
      send_content-Emits ch.content _
        (if is_empty ch.finish_reason then rest else finish_stream is_done ch.finish_reason calls')
        (choose-Emits (is_empty ch.finish_reason) _ _ rest
          (finish_stream is_done ch.finish_reason calls') (each_choice-Emits chs calls' next k h)
          (finish_stream-Emits ch.finish_reason calls'))

  on_chunk-Emits :
      (decoded : Option (List Choice)) (chs : List Choice) (ev : TokenEvent) (calls : CallBuilders)
      (next : CallBuilders → Act TokenEvent W (Unit {0}))
      → ((c : CallBuilders) → Emits (said chs c (λ c'. ev ∷ [])) (next c))
      → Emits
          (said (choices_of decoded ++ chs) calls (λ c. ev ∷ []))
          (on_chunk is_done decoded calls next)
  unfolding on_chunk
  on_chunk-Emits none chs ev calls next h = h calls
  on_chunk-Emits (some ds) chs ev calls next h =
      Emits-≡ (sym (said-append ds chs calls (λ c. ev ∷ []))) (each_choice is_done ds calls next)
        (each_choice-Emits ds calls next (λ c. said chs c (λ c'. ev ∷ [])) h)

  abbrev done_or : Bool → TokenEvent → TokenEvent
  done_or b ev = if b then done_of [] else ev

  on_payload-Emits :
      (o : Option Text) (chs : List Choice) (b : Bool) (ev : TokenEvent) (calls : CallBuilders)
      (next : CallBuilders → Act TokenEvent W (Unit {0}))
      → ((c : CallBuilders) → Emits (said chs c (λ c'. done_or b ev ∷ [])) (next c))
      → Emits
          (said (before_rest decode o chs) calls (λ c. done_or (marks o b) ev ∷ []))
          (on_payload is_done decode o calls next)
  unfolding on_payload said
  on_payload-Emits none chs b ev calls next h w = h calls w
  on_payload-Emits (some p) chs b ev calls next h w = elim (Bool-cases (is_empty p)) [
    | inl e ↦ rw e (h calls w)
    | inr e ↦ elim (Bool-cases (text_eq p (codes "[DONE]"))) [
      | inl d ↦ rw e (rw d (send_then-Emits (done_of []) [] (pure tt) pure-Emits w))
      | inr d ↦ rw e (rw d (on_chunk-Emits (decode p) chs (done_or b ev) calls next h w))
    ]
  ]

  each_line-Emits :
      (lines : List Text) (calls : CallBuilders) (ev : TokenEvent)
      (last : Act TokenEvent W (Unit {0}))
      → Emits (ev ∷ []) last
      → Emits
          (said (received decode lines) calls (λ c. done_or (is_marked lines) ev ∷ []))
          (each_line is_done decode lines calls last)
  unfolding each_line said
  each_line-Emits [] calls ev last h w = h w
  each_line-Emits (line ∷ lines) calls ev last h w =
      on_payload-Emits (payload_of line) (received decode lines) (is_marked lines) ev calls
        (λ calls'. each_line is_done decode lines calls' last)
        (λ c v. each_line-Emits lines c ev last h v) w

  read_events-Emits :
      (body : Body) → Emits (described decode body) (read_events is_done decode body)
  unfolding read_events add_deltas
  read_events-Emits body =
      let lines = split 10 body.bytes in
      Emits-≡ (said-described (received decode lines) [] (last_event lines body))
        (read_events is_done decode body)
        (each_line-Emits lines no_calls (end_of body.failure)
          (send_then is_done (end_of body.failure) (pure tt))
          (send_then-Emits (end_of body.failure) [] (pure tt) pure-Emits))

  -- Whatever its sends find of the context, the goroutine sends the first of the events described for
  -- what it could read of the body, up to its end or to an error, which may be that of an ended context,
  -- in their order, and no other.
  pub read_events-IsPrefix :
      (body : Body) (w : W) → IsPrefix (read_events is_done decode body w).1 (described decode body)
  read_events-IsPrefix body w = (read_events-Emits body w).0

  -- Where no send finds the context ended, the goroutine sends the contents that are not empty, in order, of
  -- the chunks up to the first with a reason to finish or to the end marker; then, if the reason is
  -- "tool_calls" and there are fragments of calls, the calls, each joined from the fragments with its
  -- index; and last one event: `Done` with the reason, or the error that broke the body off.
  pub read_events-described :
      IsLive → (body : Body) (w : W) → (read_events is_done decode body w).1 ≡ described decode body
  read_events-described live body w = (read_events-Emits body w).1 live
