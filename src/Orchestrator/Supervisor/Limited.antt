-- ===== src/Orchestrator/Supervisor/Limited.antt =====
-- The limits of `Supervisor.Dispatch`.
use ai_agent_cloud_runtime.Prelude.{
  ℕ, suc, ◌+◌, ◌≤◌, ◌<◌, ◌≡◌, refl, ap, ◌∙◌, ◌⊎◌, Option, some, [], ok, leb, if◌then◌else◌,
  Bool-cases, inl, inr, arith,
}
use ai_agent_cloud_runtime.Prelude.Int.{default_pos}
use ai_agent_cloud_runtime.Prelude.Text.{Text, text_eq, text_eq_iff}
use ai_agent_cloud_runtime.Prelude.Maps.{lookup_or, insert, lookup_or-insert}
use ai_agent_cloud_runtime.Prelude.Act.{Act, ◌>>=◌}
use ai_agent_cloud_runtime.Orchestrator.Supervisor.{
  SubagentRequest, SubagentResult, ChildRunRequest, Limits, Supervised, refused, err_max_depth,
  err_max_children, launch, dispatch,
}

-- No run has dispatched more than `n` children.
abbrev pub IsLimited : {W : Type 0} → ℕ → Supervised W → Type 0
IsLimited n s = (run : Text) → lookup_or 0 run s.children ≤ n

module _ {V W : Type 0} (new_run_id : W → Text × W)
    (run_child : ChildRunRequest → Act V (Supervised W) SubagentResult) where
  pub launch-children :
      (parent trace user model : Text) (depth : ℕ) (req : SubagentRequest) (s : Supervised W)
      → ((r : ChildRunRequest) (s' : Supervised W) → (run_child r s').2.children ≡ s'.children)
      → (launch new_run_id run_child parent trace user model depth req s).2.children
        ≡ insert parent (suc (lookup_or 0 parent s.children)) s.children
  unfolding launch ◌>>=◌
  launch-children parent trace user model depth req s keeps = keeps _ _

  abbrev pub Dispatching : Type 0
  Dispatching = Act V (Supervised W) (SubagentResult × Option Text)

  -- One of the limits is reached, and the dispatch only says so: nothing is done or counted.
  abbrev pub Refuses :
      Limits → (parent : Text) (depth : ℕ) → SubagentRequest → Supervised W → Dispatching → Type 0
  Refuses limits parent depth req s m =
      ((default_pos limits.max_depth 2 ≤ depth)
        ⊎ (default_pos limits.max_children 4 ≤ lookup_or 0 parent s.children))
      × (message : Text) × (m s ≡ (ok (refused req.role message, some message), [], s))

  -- Both limits leave room, and afterwards the parent, and no other run, has one child more.
  abbrev pub Counts : Limits → (parent : Text) (depth : ℕ) → (s s' : Supervised W) → Type 0
  Counts limits parent depth s s' =
      (depth < default_pos limits.max_depth 2)
      × (lookup_or 0 parent s.children < default_pos limits.max_children 4)
      × ((run : Text)
          → lookup_or 0 run s'.children
            ≡ lookup_or 0 run s.children + (if text_eq parent run then 1 else 0))

  launch-Counts :
      (parent trace user model : Text) (depth : ℕ) (req : SubagentRequest) (s : Supervised W)
      → ((r : ChildRunRequest) (s' : Supervised W) → (run_child r s').2.children ≡ s'.children)
      → (run : Text)
      → lookup_or 0 run (launch new_run_id run_child parent trace user model depth req s).2.children
        ≡ lookup_or 0 run s.children + (if text_eq parent run then 1 else 0)
  launch-Counts parent trace user model depth req s keeps run =
      ap (lookup_or 0 run) (launch-children parent trace user model depth req s keeps)
      ∙ ground (
        arith,
        lookup_or-insert 0 parent run (suc (lookup_or 0 parent s.children)) s.children,
        text_eq_iff parent run,
      )

  -- A supervisor whose runs have at most `n` children keeps to that, where `n` is the limit of
  -- `Dispatch` and `RunChild` dispatches none itself; and a dispatch either is refused at a limit,
  -- calling nothing and changing nothing, or is made below both limits and adds one to the count of
  -- its parent and to no other.
  pub dispatch-IsLimited :
      (limits : Limits) (parent trace user model : Text) (depth : ℕ) (req : SubagentRequest)
      (s : Supervised W)
      → ((r : ChildRunRequest) (s' : Supervised W) → (run_child r s').2.children ≡ s'.children)
      → IsLimited (default_pos limits.max_children 4) s
      → let m = dispatch new_run_id (some run_child) limits parent trace user model depth req in
        IsLimited (default_pos limits.max_children 4) (m s).2
        × (Refuses limits parent depth req s m ⊎ Counts limits parent depth s (m s).2)
  unfolding dispatch
  dispatch-IsLimited limits parent trace user model depth req s keeps limited =
      let n = default_pos limits.max_children 4 in
      elim (Bool-cases (leb (default_pos limits.max_depth 2) depth)) [
        | inl deep ↦ rw deep (limited, inl (inl (ground arith), err_max_depth, refl))
        | inr shallow ↦ elim (Bool-cases (leb n (lookup_or 0 parent s.children))) [
          | inl many ↦
              rw (shallow, many) (limited, inl (inr (ground arith), err_max_children, refl))
          | inr few ↦
              let counts = launch-Counts parent trace user model depth req s keeps in
              rw (shallow, few)
                (
                  λ run.
                      ground
                        (arith, counts run, limited run, limited parent, text_eq_iff parent run),
                  inr (ground arith, ground arith, counts),
                )
        ]
      ]
