-- ===== src/ControlPlane/Finish.antt =====
-- The end of a run by the events of its stream, and the rounds of the loop of `consumeRun`.
pub mod Ends
pub mod Ending
use mathlib.Core.Path.{subst}
use ai_agent_cloud_runtime.Prelude.{
  ◌≡◌, refl, sym, ap, ◌∙◌, ◌⊎◌, inl, inr, Bool, true, false, Option, none, some, List, [], ◌∷◌,
  ◌++◌, map, append-nil, append_assoc, Result, ok, err, if◌then◌else◌, Bool-cases, arith,
}
use ai_agent_cloud_runtime.Prelude.Text.{Text, codes, text_eq}
use ai_agent_cloud_runtime.Prelude.Maps.{TextMap, lookup}
use ai_agent_cloud_runtime.Prelude.Act.{Act, pure, call, emit, try, continue, ◌>>=◌, ◌>>◌}
use ai_agent_cloud_runtime.ControlPlane.Types.{AgentSpec, AgentRun}
use ai_agent_cloud_runtime.ControlPlane.Service.{Store, ServiceEffect, stored, finished}
use ai_agent_cloud_runtime.ControlPlane.Runs.{
  Payload, state_changed, token, run_done, run_error, tool_update, no_payload, Value, Converted,
  UiEvent, EventRedis, Gateway, convert_event, summary_text, append_event, finish_run, ended_text,
  after_append, consume_events, consume_opened, consume_run,
}
use ai_agent_cloud_runtime.ControlPlane.Silent.{Silent, Silent-append_event}

-- the text that an event streams
abbrev pub streamed : Payload → Text
streamed (token text index) = text
streamed (state_changed from to) = []
streamed (run_done total) = []
streamed (run_error code message) = []
streamed (tool_update c n p r e b l) = []
streamed no_payload = []

abbrev pub joined : List Payload → Text
joined [] = []
joined (p ∷ ps) = streamed p ++ joined ps

-- the end that an event reports
abbrev pub reported_end : Payload → Option Text
reported_end (run_done total) = some (codes "completed")
reported_end (run_error code message) = some (codes "failed")
reported_end (token text index) = none
reported_end (state_changed from to) = none
reported_end (tool_update c n p r e b l) = none
reported_end no_payload = none

-- the events up to the first that reports an end, and that end
abbrev pub until_end : List Payload → List Payload
until_end [] = []
until_end (p ∷ ps) =
    let rest = until_end ps in elim (reported_end p) [ none ↦ p ∷ rest | some s ↦ p ∷ [] ]

abbrev pub end_of : List Payload → Option Text
end_of [] = none
end_of (p ∷ ps) = let rest = end_of ps in elim (reported_end p) [ none ↦ rest | some s ↦ some s ]

-- status and error of the run
abbrev pub verdict : Option Text → Text → Text × Text
verdict (some status) end = (status, [])
verdict none end = (codes "failed", ended_text end)

abbrev pub kind_of : Payload → Text
kind_of p = (convert_event p).kind

pub summary_text-streamed : (p : Payload) → summary_text (convert_event p) ≡ streamed p
unfolding summary_text convert_event lookup text_eq
summary_text-streamed (token text index) = refl
summary_text-streamed (state_changed from to) = refl
summary_text-streamed (run_done total) = refl
summary_text-streamed (run_error code message) = refl
summary_text-streamed (tool_update c n p r e b l) = refl
summary_text-streamed no_payload = refl

-- a conversion is terminal where its event reports an end, and has its status
pub converted_end :
    (p : Payload)
    → ((reported_end p ≡ none) × ((convert_event p).terminal ≡ false))
      ⊎ (((convert_event p).terminal ≡ true) × (reported_end p ≡ some (convert_event p).status))
unfolding convert_event
converted_end (token text index) = inl (refl, refl)
converted_end (state_changed from to) = inl (refl, refl)
converted_end (tool_update c n p r e b l) = inl (refl, refl)
converted_end no_payload = inl (refl, refl)
converted_end (run_done total) = inr (refl, refl)
converted_end (run_error code message) = inr (refl, refl)

module _ {W : Type 0} (redis : EventRedis W) (store : Store W) (run : Text) where
  -- one round of the loop, by what `Append` does
  pub consume-stored :
      (p : Payload) (ps : List Payload) (end summary : Text) (ev : UiEvent) (w v : W)
      → append_event redis run (convert_event p).kind (convert_event p).data_values w
        ≡ (ok ev, [], v)
      → (consume_events redis store run (p ∷ ps) end summary w).1
        ≡ stored (kind_of p)
          ∷ ((if (convert_event p).terminal
                then finish_run store run (convert_event p).status (summary ++ streamed p) []
                else consume_events redis store run ps end (summary ++ streamed p))
              v).1
  unfolding consume_events after_append finish_run ◌>>=◌
  consume-stored p ps end summary ev w v e = rw e (rw (summary_text-streamed p) refl)

  pub consume-refused :
      (p : Payload) (ps : List Payload) (end summary e : Text) (w v : W)
      → append_event redis run (convert_event p).kind (convert_event p).data_values w
        ≡ (err e, [], v)
      → (consume_events redis store run (p ∷ ps) end summary w).1
        ≡ (consume_events redis store run ps end (summary ++ streamed p) v).1
  unfolding consume_events after_append ◌>>=◌
  consume-refused p ps end summary e w v h = rw h (rw (summary_text-streamed p) refl)

  pub finish-event :
      (status summary error : Text) (w : W)
      → (finish_run store run status summary error w).1 ≡ finished run status summary error ∷ []
  unfolding finish_run ◌>>=◌
  finish-event status summary error w = refl
