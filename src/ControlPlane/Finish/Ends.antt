-- ===== src/ControlPlane/Finish/Ends.antt =====
-- Every run ends in the database, once.
use mathlib.Core.Path.{subst}
use ai_agent_cloud_runtime.Prelude.{
  ◌≡◌, refl, sym, ap, ◌∙◌, ◌⊎◌, inl, inr, true, false, List, [], ◌∷◌, ◌++◌, map, Result, ok, err,
  if◌then◌else◌,
}
use ai_agent_cloud_runtime.Prelude.Text.{Text, codes}
use ai_agent_cloud_runtime.Prelude.Act.{◌>>=◌}
use ai_agent_cloud_runtime.ControlPlane.Types.{AgentSpec, AgentRun}
use ai_agent_cloud_runtime.ControlPlane.Service.{Store, ServiceEffect, stored, finished}
use ai_agent_cloud_runtime.ControlPlane.Runs.{
  Payload, state_changed, token, run_done, run_error, tool_update, no_payload, UiEvent, EventRedis,
  Gateway, convert_event, append_event, finish_run, ended_text, consume_events, consume_opened,
  consume_run,
}
use ai_agent_cloud_runtime.ControlPlane.Silent.{Silent-append_event}
use ai_agent_cloud_runtime.ControlPlane.Finish.{
  streamed, kind_of, consume-stored, consume-refused, finish-event,
}

-- One entry in the database ends a run, as completed or failed, after what is stored.
pub record Ends (run : Text) (es : List ServiceEffect) : Type 0 where
  pub kinds : List Text
  pub status : Text
  pub summary : Text
  pub error : Text
  pub known : (status ≡ codes "completed") ⊎ (status ≡ codes "failed")
  pub effects : es ≡ map stored kinds ++ finished run status summary error ∷ []

Ends-stored :
    (run kind : Text) (es : List ServiceEffect) → Ends run es → Ends run (stored kind ∷ es)
Ends-stored run kind es h = record {
  kinds = kind ∷ h.kinds;
  status = h.status;
  summary = h.summary;
  error = h.error;
  known = h.known;
  effects = ap (λ t. stored kind ∷ t) h.effects;
}

finished-Ends :
    (run status summary error : Text)
    → (status ≡ codes "completed") ⊎ (status ≡ codes "failed")
    → Ends run (finished run status summary error ∷ [])
finished-Ends run status summary error k = record {
  kinds = [];
  status = status;
  summary = summary;
  error = error;
  known = k;
  effects = refl;
}

converted_known :
    (p : Payload)
    → ((convert_event p).terminal ≡ false)
      ⊎ (((convert_event p).terminal ≡ true)
          × (((convert_event p).status ≡ codes "completed")
              ⊎ ((convert_event p).status ≡ codes "failed")))
unfolding convert_event
converted_known (token text index) = inl refl
converted_known (state_changed from to) = inl refl
converted_known (tool_update c n p r e b l) = inl refl
converted_known no_payload = inl refl
converted_known (run_done total) = inr (refl, inl refl)
converted_known (run_error code message) = inr (refl, inr refl)

module _ {W : Type 0} (redis : EventRedis W) where
  stored_or_ended :
      (store : Store W) (run : Text) (p : Payload) (ps : List Payload) (end summary : Text) (v : W)
      → Ends run (consume_events redis store run ps end summary v).1
      → Ends run
          ((if (convert_event p).terminal
              then finish_run store run (convert_event p).status summary []
              else consume_events redis store run ps end summary)
            v).1
  stored_or_ended store run p ps end summary v h = elim (converted_known p) [
    | inl e ↦
        subst
          (λ b.
            Ends run
              ((if b
                  then finish_run store run (convert_event p).status summary []
                  else consume_events redis store run ps end summary)
                v).1)
          (sym e) h
    | inr e ↦
        subst
          (λ b.
            Ends run
              ((if b
                  then finish_run store run (convert_event p).status summary []
                  else consume_events redis store run ps end summary)
                v).1)
          (sym e.0)
          (subst (Ends run)
            (sym (finish-event redis store run (convert_event p).status summary [] v))
            (finished-Ends run (convert_event p).status summary [] e.1))
  ]

  consume_cons-Ends :
      (store : Store W) (run : Text) (p : Payload) (ps : List Payload) (end summary : Text) (w : W)
      (r : Result Text UiEvent × List ServiceEffect × W)
      → append_event redis run (convert_event p).kind (convert_event p).data_values w ≡ r
      → r.1 ≡ []
      → ((v : W) → Ends run (consume_events redis store run ps end (summary ++ streamed p) v).1)
      → Ends run (consume_events redis store run (p ∷ ps) end summary w).1
  consume_cons-Ends store run p ps end summary w (ok ev, es, v) e k later =
      subst (Ends run)
        (sym
          (consume-stored redis store run p ps end summary ev w v (e ∙ ap (λ t. (ok ev, t, v)) k)))
        (Ends-stored run (kind_of p) _
          (stored_or_ended store run p ps end (summary ++ streamed p) v (later v)))
  consume_cons-Ends store run p ps end summary w (err x, es, v) e k later =
      subst (Ends run)
        (sym
          (consume-refused redis store run p ps end summary x w v (e ∙ ap (λ t. (err x, t, v)) k)))
        (later v)

  consume_events-Ends :
      (store : Store W) (run : Text) (ps : List Payload) (end summary : Text) (w : W)
      → Ends run (consume_events redis store run ps end summary w).1
  unfolding consume_events finish_run ◌>>=◌
  consume_events-Ends store run [] end summary w =
      finished-Ends run (codes "failed") summary (ended_text end) (inr refl)
  consume_events-Ends store run (p ∷ ps) end summary w =
      consume_cons-Ends store run p ps end summary w
        (append_event redis run (convert_event p).kind (convert_event p).data_values w) refl
        (Silent-append_event redis run (convert_event p).kind (convert_event p).data_values w)
        (consume_events-Ends store run ps end (summary ++ streamed p))

  consume_opened-Ends :
      (store : Store W) (run : Text) (opened : Result Text (List Payload × Text)) (w : W)
      → Ends run (consume_opened redis store run opened w).1
  unfolding consume_opened finish_run ◌>>=◌
  consume_opened-Ends store run (err e) w = finished-Ends run (codes "failed") [] e (inr refl)
  consume_opened-Ends store run (ok (ps, end)) w = consume_events-Ends store run ps end [] w

  -- Whatever the gateway sends and the event store answers, `consumeRun` ends its run in the database
  -- exactly once, as completed or failed, and after all that it stores.
  pub consume_run-Ends :
      (store : Store W) (gateway : Gateway W) (r : AgentRun) (a : AgentSpec) (w : W)
      → Ends r.run_id (consume_run redis store gateway r a w).1
  unfolding consume_run ◌>>=◌
  consume_run-Ends store gateway r a w = consume_opened-Ends store r.run_id _ _
