-- ===== src/Agent/Trace.antt =====
-- The events of a run as a walk through the states of internal/agent/state.go: `follow` replays the
-- state events of one run, and stops where one does not start where the last one ended, or is not a
-- legal transition.
pub mod Rules
pub mod Quiet
pub mod Walk
pub mod Child
pub mod Compaction
pub mod Run
pub mod Apart
pub mod Stuck
use ai_agent_cloud_runtime.Prelude.{
  ◌≡◌, refl, Bool, true, false, Option, none, some, List, [], ◌∷◌, ◌++◌, Result, ok, err, ◌&&◌,
  arith, if◌then◌else◌,
}
use ai_agent_cloud_runtime.Prelude.Text.{Text, text_eq}
use ai_agent_cloud_runtime.Queue.Event.{Event, Kind, state_event}
use ai_agent_cloud_runtime.Agent.State.{State, failed, state_eq, can_transit}

unfoldable pub follow_kind : State → Kind State → Option State
follow_kind s (state_event from to) =
    if state_eq from s && can_transit from to then some to else none
follow_kind s _ = some s

unfoldable pub follow_event : Text → State → Event State → Option State
unfolding follow_kind
follow_event rid s e = if text_eq e.run_id rid then follow_kind s e.kind else some s

unfoldable pub follow : Text → State → List (Event State) → Option State
follow rid s [] = some s
follow rid s (e ∷ es) = elim (follow_event rid s e) [ none ↦ none | some u ↦ follow rid u es ]

-- one step of the next lemma
follow-append_step :
    (rid : Text) (u : State) (o : Option State) (es fs : List (Event State))
    → ((v : State) → follow rid v es ≡ some u → follow rid v (es ++ fs) ≡ follow rid u fs)
    → (elim o [ none ↦ none | some v ↦ follow rid v es ]) ≡ some u
    → (elim o [ none ↦ none | some v ↦ follow rid v (es ++ fs) ]) ≡ follow rid u fs
follow-append_step rid u none es fs ih h = cc
follow-append_step rid u (some v) es fs ih h = ih v h

pub follow-append :
    (rid : Text) (s u : State) (es fs : List (Event State))
    → follow rid s es ≡ some u
    → follow rid s (es ++ fs) ≡ follow rid u fs
unfolding follow
follow-append rid s u [] fs h = ground arith
follow-append rid s u (e ∷ es) fs h =
    follow-append_step rid u (follow_event rid s e) es fs (λ v. follow-append rid v u es fs) h

-- Where the walk stands after a result: at `u`, or at `failed` after an error.
abbrev pub Lands : {A : Type 0} → Option State → Result Text A → State → Type 0
Lands o (ok a) u = o ≡ some u
Lands o (err e) u = o ≡ some failed
