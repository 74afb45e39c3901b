-- ===== src/Hook/Merge.antt =====
-- `mergeResponse` of internal/hook/engine.go: the names of the hooks that matched.
use ai_agent_cloud_runtime.Prelude.{
  ◌≡◌, refl, Bool, true, false, List, [], ◌∷◌, ◌++◌, not, ◌&&◌, ◌||◌, Bool-cases, inl, inr, arith,
}
use ai_agent_cloud_runtime.Prelude.Text.{Text, text_eq, text_eq_iff, text_eq_refl, is_empty}
use ai_agent_cloud_runtime.Agent.Types.{HookResponse}
use ai_agent_cloud_runtime.Hook.Engine.{mem, append_unique, append_all_unique, merge_response}

abbrev pub unique : List Text → Bool
unique [] = true
unique (x ∷ xs) = not (mem x xs) && unique xs

text_eq_sym : (s t : Text) → text_eq s t ≡ text_eq t s
text_eq_sym s t = ground (arith, text_eq_iff s t, text_eq_iff t s)

mem-append : (x v : Text) (xs : List Text) → mem x (xs ++ (v ∷ [])) ≡ (mem x xs || text_eq v x)
mem-append x v [] = ground arith
mem-append x v (y ∷ xs) = ground (arith, mem-append x v xs)

unique-append :
    (v : Text) (xs : List Text)
    → mem v xs ≡ false
    → unique xs ≡ true
    → unique (xs ++ (v ∷ [])) ≡ true
unique-append v [] h u = refl
unique-append v (x ∷ xs) h u =
    ground (arith, mem-append x v xs, text_eq_sym x v, unique-append v xs)

unique-append_unique :
    (v : Text) (xs : List Text) → unique xs ≡ true → unique (append_unique xs v) ≡ true
unfolding append_unique
unique-append_unique v xs u = ground (arith, unique-append v xs)

unique-append_all_unique :
    (vs xs : List Text) → unique xs ≡ true → unique (append_all_unique xs vs) ≡ true
unfolding append_all_unique
unique-append_all_unique [] xs u = u
unique-append_all_unique (v ∷ vs) xs u =
    unique-append_all_unique vs (append_unique xs v) (unique-append_unique v xs u)

mem-append_unique-old :
    (x v : Text) (xs : List Text) → mem x xs ≡ true → mem x (append_unique xs v) ≡ true
unfolding append_unique
mem-append_unique-old x v xs h = ground (arith, mem-append x v xs)

mem-append_unique-new :
    (v : Text) (xs : List Text) → is_empty v ≡ false → mem v (append_unique xs v) ≡ true
unfolding append_unique
mem-append_unique-new v xs h = ground (arith, mem-append v v xs, text_eq_refl v)

mem-append_all_unique-old :
    (x : Text) (vs xs : List Text) → mem x xs ≡ true → mem x (append_all_unique xs vs) ≡ true
unfolding append_all_unique
mem-append_all_unique-old x [] xs h = h
mem-append_all_unique-old x (v ∷ vs) xs h =
    mem-append_all_unique-old x vs (append_unique xs v) (mem-append_unique-old x v xs h)

mem-append_all_unique-new :
    (x : Text) (vs xs : List Text)
    → is_empty x ≡ false
    → mem x vs ≡ true
    → mem x (append_all_unique xs vs) ≡ true
unfolding append_all_unique
mem-append_all_unique-new x [] xs h m = cc
mem-append_all_unique-new x (v ∷ vs) xs h m = elim (Bool-cases (text_eq v x)) [
  | inl same ↦
      mem-append_all_unique-old x vs (append_unique xs v)
        (ground (arith, text_eq_iff v x, mem-append_unique-new x xs h))
  | inr other ↦ mem-append_all_unique-new x vs (append_unique xs v) h (ground arith)
]

-- Merging the response of a module into a response whose matched hooks are all different: they are
-- still all different, none is lost, and the hook itself and every hook the module names are among
-- them, unless their names are empty.
pub merge_response-unique :
    (base next : HookResponse) (hook_id : Text)
    → unique base.matched_hooks ≡ true
    → let merged = (merge_response base next hook_id).matched_hooks in
      (unique merged ≡ true)
      × ((x : Text) → mem x base.matched_hooks ≡ true → mem x merged ≡ true)
      × (is_empty hook_id ≡ false → mem hook_id merged ≡ true)
      × ((x : Text) → is_empty x ≡ false → mem x next.matched_hooks ≡ true → mem x merged ≡ true)
unfolding merge_response
merge_response-unique base next hook_id u =
    let own = append_unique base.matched_hooks hook_id in
    (
      unique-append_all_unique next.matched_hooks own (unique-append_unique hook_id _ u),
      λ x m.
          mem-append_all_unique-old x next.matched_hooks own
            (mem-append_unique-old x hook_id base.matched_hooks m),
      λ h.
          mem-append_all_unique-old hook_id next.matched_hooks own
            (mem-append_unique-new hook_id base.matched_hooks h),
      λ x h m. mem-append_all_unique-new x next.matched_hooks own h m,
    )
