-- ===== src/Agent/Trace/Apart.antt =====
-- A walk that leaves its first state cannot start anywhere else.
use ai_agent_cloud_runtime.Prelude.{
  ◌≡◌, refl, sym, ◌∙◌, true, false, Option, none, some, List, [], ◌∷◌, arith, ◌⊎◌, Bool-cases,
  Option-cases, inl, inr,
}
use ai_agent_cloud_runtime.Prelude.Text.{Text, text_eq}
use ai_agent_cloud_runtime.Queue.Event.{
  Event, Kind, state_event, token_event, done_event, error_event, tool_event,
}
use ai_agent_cloud_runtime.Agent.State.{State, state_eq}
use ai_agent_cloud_runtime.Agent.Trace.{follow, follow_event, follow_kind}

state_eq_apart : (a b c : State) → state_eq a b ≡ true → state_eq b c ≡ false → state_eq a c ≡ false
state_eq_apart a b c e n = ground arith

-- An event that the walk from `s` takes stops the walk from another state, or moves neither.
abbrev Apart : (o o' : Option State) → State → State → Type 0
Apart o o' s s' = (o' ≡ none) ⊎ ((o ≡ some s) × (o' ≡ some s'))

follow_kind-Apart :
    (s s' u : State) (k : Kind State)
    → follow_kind s k ≡ some u
    → state_eq s s' ≡ false
    → Apart (follow_kind s k) (follow_kind s' k) s s'
unfolding follow_kind
follow_kind-Apart s s' u (state_event from to) h n = inl (ground (arith, state_eq_apart from s s'))
follow_kind-Apart s s' u (token_event text index) h n = inr (refl, refl)
follow_kind-Apart s s' u (done_event total) h n = inr (refl, refl)
follow_kind-Apart s s' u (error_event code message) h n = inr (refl, refl)
follow_kind-Apart s s' u (tool_event _ _ _ _ _ _ _) h n = inr (refl, refl)

follow_event-Apart :
    (rid : Text) (s s' u : State) (e : Event State)
    → follow_event rid s e ≡ some u
    → state_eq s s' ≡ false
    → Apart (follow_event rid s e) (follow_event rid s' e) s s'
unfolding follow_event
follow_event-Apart rid s s' u e h n = elim (Bool-cases (text_eq e.run_id rid)) [
  | inl same ↦ rw same (follow_kind-Apart s s' u e.kind (ground (arith)) n)
  | inr other ↦ rw other (inr (refl, refl))
]

follow-stop :
    (rid : Text) (s : State) (e : Event State) (es : List (Event State))
    → follow_event rid s e ≡ none
    → follow rid s (e ∷ es) ≡ none
unfolding follow
follow-stop rid s e es h = rw (follow, h) refl

follow-step :
    (rid : Text) (s u : State) (e : Event State) (es : List (Event State))
    → follow_event rid s e ≡ some u
    → follow rid s (e ∷ es) ≡ follow rid u es
unfolding follow
follow-step rid s u e es h = rw (follow, h) refl

-- A walk that leaves `s` cannot start anywhere else.
pub follow-apart :
    (rid : Text) (s s' u : State) (es : List (Event State))
    → follow rid s es ≡ some u
    → state_eq s u ≡ false
    → state_eq s s' ≡ false
    → follow rid s' es ≡ none
unfolding follow
follow-apart rid s s' u [] h n n' = ground arith
follow-apart rid s s' u (e ∷ es) h n n' = elim (Option-cases (follow_event rid s e)) [
  | inl absent ↦ ground (arith, follow-stop rid s e es)
  | inr (v, taken) ↦ elim (follow_event-Apart rid s s' v e taken n') [
    | inl stops ↦ follow-stop rid s' e es stops
    | inr (stays, stays') ↦
        follow-step rid s' s' e es stays'
        ∙ follow-apart rid s s' u es (sym (follow-step rid s s e es stays) ∙ h) n n'
  ]
]
