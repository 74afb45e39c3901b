-- ===== src/Orchestrator/Pipeline/Release.antt =====
-- What the maps of `TopologicalOrder` hold, and how the loop changes the counts of one step.
use ai_agent_cloud_runtime.Prelude.{
  ℕ, suc, ◌+◌, ◌≡◌, refl, ◌&&◌, Option, none, some, List, [], ◌∷◌, ◌++◌, length, ltb, ◌==◌,
  if◌then◌else◌, append-nil, append_assoc, sym, arith,
}
use ai_agent_cloud_runtime.Prelude.Int.{ℤ, pos, decrement, is_zero}
use ai_agent_cloud_runtime.Prelude.Text.{Text, text_eq, text_eq_iff}
use ai_agent_cloud_runtime.Prelude.Maps.{
  TextMap, lookup, lookup_or, insert, lookup-insert, lookup_or-insert,
}
use ai_agent_cloud_runtime.Prelude.Counts.{count, count-append, count-sort_strings}
use ai_agent_cloud_runtime.Orchestrator.Pipeline.{
  PipelineStep, Work, by_id, degrees, link, links, roots, release, release_all, ids,
}

-- the last step of an id
abbrev pub step_of : Text → List PipelineStep → Option PipelineStep
step_of x [] = none
step_of x (st ∷ sts) = elim (step_of x sts) [
  | some s ↦ some s
  | none ↦ if text_eq st.id x then some st else none
]

abbrev pub or_old : {V : Type 0} → (PipelineStep → V) → Option PipelineStep → Option V → Option V
or_old f (some st) old = some (f st)
or_old f none old = old

pub lookup-by_id :
    (x : Text) (sts : List PipelineStep) (m : TextMap PipelineStep)
    → lookup x (by_id sts m) ≡ or_old (λ st. st) (step_of x sts) (lookup x m)
unfolding by_id
lookup-by_id x [] m = refl
lookup-by_id x (st ∷ sts) m =
    ground (arith, lookup-by_id x sts (insert st.id st m), lookup-insert st.id x st m)

pub lookup-degrees :
    (x : Text) (sts : List PipelineStep) (m : TextMap ℤ)
    → lookup x (degrees sts m)
      ≡ or_old (λ st. pos (length st.depends_on)) (step_of x sts) (lookup x m)
unfolding degrees
lookup-degrees x [] m = refl
lookup-degrees x (st ∷ sts) m =
    let n = pos (length st.depends_on) in
    ground (arith, lookup-degrees x sts (insert st.id n m), lookup-insert st.id x n m)

-- No key twice.
abbrev pub IsMap : {V : Type 0} → TextMap V → Type 0
IsMap [] = Unit
IsMap ((k, v) ∷ m) = (lookup k m ≡ none) × IsMap m

insert-IsMap : {V : Type 0} (k : Text) (v : V) (m : TextMap V) → IsMap m → IsMap (insert k v m)
unfolding insert lookup
insert-IsMap k v [] h = (refl, tt)
insert-IsMap k v ((j, w) ∷ m) h =
    ground (arith, text_eq_iff j k, text_eq_iff k j, lookup-insert k j v m, insert-IsMap k v m)

pub degrees-IsMap : (sts : List PipelineStep) (m : TextMap ℤ) → IsMap m → IsMap (degrees sts m)
unfolding degrees
degrees-IsMap [] m h = h
degrees-IsMap (st ∷ sts) m h = degrees-IsMap sts _ (insert-IsMap st.id _ m h)

abbrev pub is_root : Option ℤ → ℕ
is_root none = 0
is_root (some n) = if is_zero n then 1 else 0

pub count-roots : (x : Text) (m : TextMap ℤ) → IsMap m → count x (roots m) ≡ is_root (lookup x m)
unfolding roots lookup
count-roots x [] h = refl
count-roots x ((k, n) ∷ m) h = ground (arith, text_eq_iff k x, count-roots x m)

-- the children of `id` among the steps, once for each time it is named
abbrev pub dep_targets : Text → Text → List Text → List Text
dep_targets id child [] = []
dep_targets id child (d ∷ ds) =
    if text_eq d id then child ∷ dep_targets id child ds else dep_targets id child ds

abbrev pub targets : Text → List PipelineStep → List Text
targets id [] = []
targets id (st ∷ sts) = dep_targets id st.id st.depends_on ++ targets id sts

lookup-link :
    (id child : Text) (deps : List Text) (m : TextMap (List Text))
    → lookup_or [] id (link child deps m) ≡ lookup_or [] id m ++ dep_targets id child deps
unfolding link
lookup-link id child [] m = sym (append-nil (lookup_or [] id m))
lookup-link id child (d ∷ ds) m = ground (
  arith,
  lookup-link id child ds (insert d (lookup_or [] d m ++ child ∷ []) m),
  lookup_or-insert [] d id (lookup_or [] d m ++ child ∷ []) m,
  text_eq_iff d id,
  append_assoc (lookup_or [] id m) (child ∷ []) (dep_targets id child ds),
)

pub lookup-links :
    (id : Text) (sts : List PipelineStep) (m : TextMap (List Text))
    → lookup_or [] id (links sts m) ≡ lookup_or [] id m ++ targets id sts
unfolding links
lookup-links id [] m = sym (append-nil (lookup_or [] id m))
lookup-links id (st ∷ sts) m = ground (
  arith,
  lookup-links id sts (link st.id st.depends_on m),
  lookup-link id st.id st.depends_on m,
  append_assoc (lookup_or [] id m) (dep_targets id st.id st.depends_on) (targets id sts),
)

count-dep_targets :
    (x id child : Text) (ds : List Text)
    → count x (dep_targets id child ds) ≡ (if text_eq child x then count id ds else 0)
count-dep_targets x id child [] = ground arith
count-dep_targets x id child (d ∷ ds) = ground (arith, count-dep_targets x id child ds)

-- No two steps have the same id.
abbrev pub IsDistinct : List PipelineStep → Type 0
IsDistinct [] = Unit
IsDistinct (st ∷ sts) = (count st.id (ids sts) ≡ 0) × IsDistinct sts

pub step_of-none :
    (x : Text) (sts : List PipelineStep) → count x (ids sts) ≡ 0 → step_of x sts ≡ none
unfolding ids
step_of-none x [] h = refl
step_of-none x (st ∷ sts) h = ground (arith, step_of-none x sts)

count-targets_none :
    (x id : Text) (sts : List PipelineStep) → count x (ids sts) ≡ 0 → count x (targets id sts) ≡ 0
unfolding ids
count-targets_none x id [] h = refl
count-targets_none x id (st ∷ sts) h = ground (
  arith,
  count-targets_none x id sts,
  count-dep_targets x id st.id st.depends_on,
  count-append x (dep_targets id st.id st.depends_on) (targets id sts),
)

abbrev pub deps_of : Option PipelineStep → List Text
deps_of none = []
deps_of (some st) = st.depends_on

pub count-targets :
    (x id : Text) (sts : List PipelineStep)
    → IsDistinct sts
    → count x (targets id sts) ≡ count id (deps_of (step_of x sts))
unfolding ids
count-targets x id [] h = refl
count-targets x id (st ∷ sts) h = ground (
  arith,
  count-targets x id sts,
  count-targets_none x id sts,
  step_of-none x sts,
  text_eq_iff st.id x,
  count-dep_targets x id st.id st.depends_on,
  count-append x (dep_targets id st.id st.depends_on) (targets id sts),
)

release-value :
    (x c : Text) (w : Work)
    → lookup_or (pos 0) x (release c w).indeg ≡ (
        if text_eq c x
        then decrement (lookup_or (pos 0) c w.indeg)
        else lookup_or (pos 0) x w.indeg)
unfolding release
release-value x c w = lookup_or-insert (pos 0) c x _ w.indeg

release-ready :
    (x c : Text) (w : Work)
    → count x (release c w).ready
      ≡ count x w.ready
        + (if text_eq c x && is_zero (decrement (lookup_or (pos 0) c w.indeg)) then 1 else 0)
unfolding release
release-ready x c w =
    ground (arith, count-sort_strings x (w.ready ++ c ∷ []), count-append x w.ready (c ∷ []))

decrement-suc : (n : ℕ) → decrement (pos (suc n)) ≡ pos n
unfolding decrement
decrement-suc n = refl

-- `release_all` lowers the count of a step by the number of times it is released, and makes it
-- ready where this takes the count to zero.
pub release_all-counts :
    (x : Text) (n : ℕ) (cs : List Text) (w : Work)
    → lookup_or (pos 0) x w.indeg ≡ pos (n + count x cs)
    → (lookup_or (pos 0) x (release_all cs w).indeg ≡ pos n)
      × (count x (release_all cs w).ready
          ≡ count x w.ready + (if ltb 0 (count x cs) && n == 0 then 1 else 0))
unfolding release_all is_zero
release_all-counts x n [] w h = ground arith
release_all-counts x n (c ∷ cs) w h = ground (
  arith,
  release_all-counts x n cs (release c w),
  release-value x c w,
  release-ready x c w,
  decrement-suc (n + count x cs),
  text_eq_iff c x,
)
