-- ===== src/Agent/State.antt =====
-- internal/agent/state.go: the states of a run and the legal transitions.
use ai_agent_cloud_runtime.Prelude.{ℕ, Bool, true, false, Option, none, some, ◌==◌, if◌then◌else◌}

pub data State : Type 0 where
  pending running waiting_tool compacting done failed : State

abbrev index : State → ℕ
index pending = 0
index running = 1
index waiting_tool = 2
index compacting = 3
index done = 4
index failed = 5

abbrev pub state_eq : State → State → Bool
state_eq a b = index a == index b

-- `validTransitions`: an absent entry reads as false.
abbrev pub valid_transitions : State → State → Bool
valid_transitions pending running = true
valid_transitions pending failed = true
valid_transitions running waiting_tool = true
valid_transitions running compacting = true
valid_transitions running done = true
valid_transitions running failed = true
valid_transitions waiting_tool running = true
valid_transitions waiting_tool failed = true
valid_transitions compacting running = true
valid_transitions compacting failed = true
valid_transitions _ _ = false

unfoldable pub can_transit : State → State → Bool
can_transit from to = if state_eq from to then false else valid_transitions from to

-- `MustTransit`: the error names the two states.
unfoldable pub must_transit : State → State → Option (State × State)
unfolding can_transit
must_transit from to = if can_transit from to then none else some (from, to)
