-- ===== src/Orchestrator/Pipeline/Invariant.antt =====
-- The invariant of the loop of `TopologicalOrder` where no two steps have the same id.
use ai_agent_cloud_runtime.Prelude.{
  ℕ, ◌+◌, ◌<◌, ◌≡◌, refl, ap, ◌∙◌, Option, none, some, List, [], ◌∷◌, ◌++◌, append-nil,
  append_assoc, All, All-append, length, ◌==◌, if◌then◌else◌, Option-cases, inl, inr, arith,
}
use ai_agent_cloud_runtime.Prelude.Int.{pos, is_zero}
use ai_agent_cloud_runtime.Prelude.Text.{Text, text_eq_iff, text_eq_refl}
use ai_agent_cloud_runtime.Prelude.Maps.{lookup, lookup_or}
use ai_agent_cloud_runtime.Prelude.Counts.{count, count-append, count-sort_strings}
use ai_agent_cloud_runtime.Orchestrator.Pipeline.{
  PipelineStep, Pipeline, Work, degrees, links, roots, release_all, start, ids,
}
use ai_agent_cloud_runtime.Orchestrator.Pipeline.Release.{
  step_of, deps_of, IsDistinct, lookup-degrees, lookup-links, degrees-IsMap, count-roots,
  count-targets, release_all-counts,
}

-- how many of the dependencies have not been emitted
abbrev pub missing : List Text → List Text → ℕ
missing [] done = 0
missing (d ∷ ds) done = (if count d done == 0 then 1 else 0) + missing ds done

missing-snoc :
    (ds done : List Text) (id : Text)
    → count id done ≡ 0
    → missing ds done ≡ missing ds (done ++ id ∷ []) + count id ds
missing-snoc [] done id h = refl
missing-snoc (d ∷ ds) done id h = ground (
  arith,
  missing-snoc ds done id h,
  text_eq_iff d id,
  text_eq_iff id d,
  count-append d done (id ∷ []),
)

-- Every step comes after its dependencies.
abbrev pub Ordered : List Text → List PipelineStep → Type 0
Ordered done [] = Unit
Ordered done (st ∷ sts) =
    All (λ d. 0 < count d done) st.depends_on × Ordered (done ++ st.id ∷ []) sts

pub All_of_missing : (ds done : List Text) → missing ds done ≡ 0 → All (λ d. 0 < count d done) ds
All_of_missing [] done h = tt
All_of_missing (d ∷ ds) done h = ground (arith, All_of_missing ds done)

pub missing_of_All : (ds done : List Text) → All (λ d. 0 < count d done) ds → missing ds done ≡ 0
missing_of_All [] done h = refl
missing_of_All (d ∷ ds) done h = ground (arith, missing_of_All ds done)

pub ids-append : (xs ys : List PipelineStep) → ids (xs ++ ys) ≡ ids xs ++ ids ys
unfolding ids
ids-append [] ys = refl
ids-append (x ∷ xs) ys = ap (λ r. x.id ∷ r) (ids-append xs ys)

Ordered-snoc :
    (done : List Text) (sts : List PipelineStep) (st : PipelineStep)
    → Ordered done sts
    → All (λ d. 0 < count d (done ++ ids sts)) st.depends_on
    → Ordered done (sts ++ st ∷ [])
unfolding ids
Ordered-snoc done [] st h a = (rw (← append-nil done) a, tt)
Ordered-snoc done (s ∷ sts) st h a = (
  h.0,
  Ordered-snoc (done ++ s.id ∷ []) sts st h.1 (rw (append_assoc done (s.id ∷ []) (ids sts)) a),
)

-- 1 for a step whose dependencies have all been emitted
abbrev pub is_due : Option PipelineStep → List Text → ℕ
is_due none done = 0
is_due (some st) done = if missing st.depends_on done == 0 then 1 else 0

pub record Inv (sts out : List PipelineStep) (w : Work) : Type 0 where
  pub counted :
      (x : Text) → lookup_or (pos 0) x w.indeg ≡ pos (missing (deps_of (step_of x sts)) (ids out))
  pub emitted : (x : Text) → count x w.ready + count x (ids out) ≡ is_due (step_of x sts) (ids out)
  pub ordered : Ordered [] out
  pub taken : All (λ st. step_of st.id sts ≡ some st) out

missing-nil : (ds : List Text) → missing ds [] ≡ length ds
missing-nil [] = refl
missing-nil (d ∷ ds) = omega (arith, missing-nil ds)

pub start-Inv : (p : Pipeline) → Inv p.steps [] (start p)
unfolding ids lookup lookup_or is_zero
start-Inv p = record {
  counted =
      λ x. ground (arith, lookup-degrees x p.steps [], missing-nil (deps_of (step_of x p.steps)));
  emitted = λ x. ground (
    arith,
    count-sort_strings x (roots (degrees p.steps [])),
    count-roots x (degrees p.steps []) (degrees-IsMap p.steps [] tt),
    lookup-degrees x p.steps [],
    missing-nil (deps_of (step_of x p.steps)),
  );
  ordered = tt;
  taken = tt;
}

-- the state of the loop after `id` has been taken from `ready`
abbrev pub pop : List PipelineStep → Text → List Text → Work → Work
pop sts id rest w = release_all (lookup_or [] id (links sts [])) (record w { ready = rest })

step_of-id :
    (x : Text) (sts : List PipelineStep) {st : PipelineStep} → step_of x sts ≡ some st → st.id ≡ x
step_of-id x [] h = cc
step_of-id x (s ∷ sts) {st} h = ground (arith, step_of-id x sts {st = st}, text_eq_iff s.id x)

module _ (sts out : List PipelineStep) (id : Text) (rest : List Text) (w : Work)
    (distinct : IsDistinct sts) (inv : Inv sts out w) (popped : w.ready ≡ id ∷ rest) where
  -- A ready id belongs to a step whose dependencies have been emitted, and which has not.
  pub ready-step :
      (st : PipelineStep) × (step_of id sts ≡ some st)
      × (missing st.depends_on (ids out) ≡ 0)
      × (count id (ids out) ≡ 0)
      × (count id rest ≡ 0)
  ready-step = elim (Option-cases (step_of id sts)) [
    | inl e ↦ ground (arith, inv.emitted id, text_eq_refl id)
    | inr (st, e) ↦ (
      st,
      e,
      ground (arith, inv.emitted id, text_eq_refl id),
      ground (arith, inv.emitted id, text_eq_refl id),
      ground (arith, inv.emitted id, text_eq_refl id),
    )
  ]

  module _ (st : PipelineStep) (found : step_of id sts ≡ some st)
      (due : missing st.depends_on (ids out) ≡ 0) (fresh : count id (ids out) ≡ 0)
      (once : count id rest ≡ 0) where
    ids-snoc : ids (out ++ st ∷ []) ≡ ids out ++ id ∷ []
    unfolding ids
    ids-snoc = ids-append out (st ∷ []) ∙ ap (λ i. ids out ++ i ∷ []) (step_of-id id sts found)

    pop-counts :
        (x : Text)
        → (lookup_or (pos 0) x (pop sts id rest w).indeg
            ≡ pos (missing (deps_of (step_of x sts)) (ids (out ++ st ∷ []))))
          × (count x (pop sts id rest w).ready + count x (ids (out ++ st ∷ []))
              ≡ is_due (step_of x sts) (ids (out ++ st ∷ [])))
    unfolding lookup_or lookup
    pop-counts x =
        let deps = deps_of (step_of x sts) in
        let children = lookup_or [] id (links sts []) in
        rw ids-snoc (
          ground (
            arith,
            lookup-links id sts [],
            count-targets x id sts distinct,
            missing-snoc deps (ids out) id fresh,
            inv.counted x,
            inv.emitted x,
            popped,
            found,
            due,
            fresh,
            once,
            release_all-counts x (missing deps (ids out ++ id ∷ [])) children
                (record w { ready = rest }),
            count-append x (ids out) (id ∷ []),
            text_eq_iff id x,
          ))

    pub pop-Inv : Inv sts (out ++ st ∷ []) (pop sts id rest w)
    pop-Inv = record {
      counted = λ x. (pop-counts x).0;
      emitted = λ x. (pop-counts x).1;
      ordered = Ordered-snoc [] out st inv.ordered (All_of_missing st.depends_on (ids out) due);
      taken =
          All-append _ out (st ∷ []) inv.taken
            (ap (λ i. step_of i sts) (step_of-id id sts found) ∙ found, tt);
    }
