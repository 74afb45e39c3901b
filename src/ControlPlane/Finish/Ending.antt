-- ===== src/ControlPlane/Finish/Ending.antt =====
-- How a run ends in the database, by what its stream reports.

use ai_agent_cloud_runtime.Prelude.{
  ◌≡◌, sym, ap, ◌∙◌, inl, inr, none, some, List, [], ◌∷◌, ◌++◌, map, append-nil, append_assoc, ok,
  err, arith,
}
use ai_agent_cloud_runtime.Prelude.Text.{Text, codes}
use ai_agent_cloud_runtime.Prelude.Maps.{TextMap}
use ai_agent_cloud_runtime.Prelude.Act.{◌>>=◌}
use ai_agent_cloud_runtime.ControlPlane.Types.{AgentSpec, AgentRun}
use ai_agent_cloud_runtime.ControlPlane.Service.{Store, ServiceEffect, stored, finished}
use ai_agent_cloud_runtime.ControlPlane.Runs.{
  Payload, Value, UiEvent, EventRedis, Gateway, convert_event, append_event, finish_run, ended_text,
  consume_events, consume_opened, consume_run,
}
use ai_agent_cloud_runtime.ControlPlane.Finish.{
  streamed, joined, reported_end, until_end, end_of, verdict, kind_of, converted_end,
  consume-stored, consume-refused, finish-event,
}

-- What is stored of a stream, and how it ends the run.
abbrev pub ending : (run : Text) → List Payload → (end summary : Text) → List ServiceEffect
ending run ps end summary =
    let v = verdict (end_of ps) end in
    map (λ p. stored (kind_of p)) (until_end ps)
    ++ finished run v.0 (summary ++ joined (until_end ps)) v.1 ∷ []

ending-none :
    (run : Text) (p : Payload) (ps : List Payload) (end summary : Text)
    → reported_end p ≡ none
    → ending run (p ∷ ps) end summary
      ≡ stored (kind_of p) ∷ ending run ps end (summary ++ streamed p)
ending-none run p ps end summary e =
    ground (arith, e, append_assoc summary (streamed p) (joined (until_end ps)))

ending-some :
    (run : Text) (p : Payload) (ps : List Payload) (end summary s : Text)
    → reported_end p ≡ some s
    → ending run (p ∷ ps) end summary
      ≡ stored (kind_of p) ∷ finished run s (summary ++ streamed p) [] ∷ []
ending-some run p ps end summary s e = ground (arith, e, append-nil (streamed p))

module _ {W : Type 0} (redis : EventRedis W) where
  -- the event store answers every `Append`
  abbrev pub Stores : Type 0
  Stores =
      (run kind : Text) (data_values : TextMap Value) (w : W)
      → (ev : UiEvent) × (v : W) × (append_event redis run kind data_values w ≡ (ok ev, [], v))

  -- the event store answers none
  abbrev pub Refuses : Type 0
  Refuses =
      (run kind : Text) (data_values : TextMap Value) (w : W)
      → (e : Text) × (v : W) × (append_event redis run kind data_values w ≡ (err e, [], v))

  consume_events-ending :
      (store : Store W) (run : Text) (ps : List Payload) (end summary : Text) (w : W)
      → Stores
      → (consume_events redis store run ps end summary w).1 ≡ ending run ps end summary
  unfolding consume_events finish_run ◌>>=◌
  consume_events-ending store run [] end summary w h =
      ap (λ t. finished run (codes "failed") t (ended_text end) ∷ []) (sym (append-nil summary))
  consume_events-ending store run (p ∷ ps) end summary w h =
      let (ev, v, e) = h run (convert_event p).kind (convert_event p).data_values w in
      let summary' = summary ++ streamed p in
      consume-stored redis store run p ps end summary ev w v e ∙ elim (converted_end p) [
        | inl x ↦ rw x.1 (
            ap (λ t. stored (kind_of p) ∷ t) (consume_events-ending store run ps end summary' v h)
            ∙ sym (ending-none run p ps end summary x.0))
        | inr x ↦ rw x.0 (
            ap (λ t. stored (kind_of p) ∷ t)
              (finish-event redis store run (convert_event p).status summary' [] v)
            ∙ sym (ending-some run p ps end summary (convert_event p).status x.1))
      ]

  -- Where the event store answers and the gateway sends `ps` and then fails with `end`, `consumeRun`
  -- stores the events up to the first that reports an end, and ends the run as that one says, with
  -- the text streamed so far; if none does, the run has failed.
  pub consume_run-ending :
      (store : Store W) (gateway : Gateway W) (r : AgentRun) (a : AgentSpec) (ps : List Payload)
      (end : Text) (w w' : W)
      → Stores
      → gateway.run_agent r a w ≡ (ok (ps, end), w')
      → (consume_run redis store gateway r a w).1 ≡ ending r.run_id ps end []
  unfolding consume_run consume_opened ◌>>=◌
  consume_run-ending store gateway r a ps end w w' h e =
      rw e (consume_events-ending store r.run_id ps end [] w' h)

  consume_events_refused :
      (store : Store W) (run : Text) (ps : List Payload) (end summary : Text) (w : W)
      → Refuses
      → (consume_events redis store run ps end summary w).1
        ≡ finished run (codes "failed") (summary ++ joined ps) (ended_text end) ∷ []
  unfolding consume_events finish_run ◌>>=◌
  consume_events_refused store run [] end summary w h =
      ap (λ t. finished run (codes "failed") t (ended_text end) ∷ []) (sym (append-nil summary))
  consume_events_refused store run (p ∷ ps) end summary w h =
      let (x, v, e) = h run (convert_event p).kind (convert_event p).data_values w in
      consume-refused redis store run p ps end summary x w v e
      ∙ consume_events_refused store run ps end (summary ++ streamed p) v h
      ∙ ap (λ t. finished run (codes "failed") t (ended_text end) ∷ [])
          (append_assoc summary (streamed p) (joined ps))

  -- Where the event store answers no `Append`, every run that the gateway opens ends as failed, also
  -- one whose stream reports that it is completed, with the text of the whole stream.
  pub consume_run_refused :
      (store : Store W) (gateway : Gateway W) (r : AgentRun) (a : AgentSpec) (ps : List Payload)
      (end : Text) (w w' : W)
      → Refuses
      → gateway.run_agent r a w ≡ (ok (ps, end), w')
      → (consume_run redis store gateway r a w).1
        ≡ finished r.run_id (codes "failed") (joined ps) (ended_text end) ∷ []
  unfolding consume_run consume_opened ◌>>=◌
  consume_run_refused store gateway r a ps end w w' h e =
      rw e (consume_events_refused store r.run_id ps end [] w' h)
