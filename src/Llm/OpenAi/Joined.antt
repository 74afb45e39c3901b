-- ===== src/Llm/OpenAi/Joined.antt =====
-- The joined tool calls against a description of each: of the fragments with its index the last id,
-- type and name that are not empty, and all arguments, one after the other.
use ai_agent_cloud_runtime.Prelude.{
  ◌≡◌, ◌↔◌, refl, sym, ap, ◌∙◌, Bool, true, false, ◌||◌, Option, none, some, List, [], ◌∷◌, ◌++◌,
  map, append-nil, append_assoc, ==_iff, if◌then◌else◌, Bool-cases, inl, inr, arith,
}
use ai_agent_cloud_runtime.Prelude.Int.{ℤ, pos, negsuc}
use ai_agent_cloud_runtime.Prelude.Text.{Text}
use ai_agent_cloud_runtime.Agent.Types.{ToolCall}
use ai_agent_cloud_runtime.Llm.OpenAi.Calls.{
  ToolDelta, int_eq, CallBuilders, no_calls, builder_at, set_builder, new_or, add_fragment,
  blank_call, add_to, add_deltas, typed_call, build_each, built_calls,
}

int_eq_iff : (m n : ℤ) → (int_eq m n ≡ true) ↔ (m ≡ n)
unfolding int_eq
int_eq_iff (pos m) (pos n) = ground (arith, ==_iff m n)
int_eq_iff (negsuc m) (negsuc n) = ground (arith, ==_iff m n)
int_eq_iff (pos m) (negsuc n) = ground arith
int_eq_iff (negsuc m) (pos n) = ground arith

if_true : {A : Type 0} (x y : A) (b : Bool) → b ≡ true → (if b then x else y) ≡ x
if_true x y b e = rw e refl

if_false : {A : Type 0} (x y : A) (b : Bool) → b ≡ false → (if b then x else y) ≡ y
if_false x y b e = rw e refl

-- the fragments with an index
abbrev pub with_index : ℤ → List ToolDelta → List ToolDelta
with_index i [] = []
with_index i (d ∷ ds) = if int_eq d.index i then d ∷ with_index i ds else with_index i ds

abbrev pub last_of : Text → List Text → Text
last_of old [] = old
last_of old (new ∷ news) = last_of (new_or old new) news

abbrev pub all_arguments : List ToolDelta → Text
all_arguments [] = []
all_arguments (d ∷ ds) = d.arguments ++ all_arguments ds

-- the call that some fragments make of one
abbrev pub grown : ToolCall → List ToolDelta → ToolCall
grown b ds = record {
  id = last_of b.id (map (λ d. d.id) ds);
  type = last_of b.type (map (λ d. d.type) ds);
  name = last_of b.name (map (λ d. d.name) ds);
  arguments = b.arguments ++ all_arguments ds;
}

abbrev pub has_index : ℤ → List ℤ → Bool
has_index i [] = false
has_index i (j ∷ js) = int_eq j i || has_index i js

-- the indices that are not seen, in the order in which they come first
abbrev pub first_indices : List ℤ → List ToolDelta → List ℤ
first_indices seen [] = []
first_indices seen (d ∷ ds) =
    let skip = first_indices seen ds in
    let go = first_indices (seen ++ d.index ∷ []) ds in
    if has_index d.index seen then skip else d.index ∷ go

abbrev pub joined_call : List ToolDelta → ℤ → ToolCall
joined_call ds i = typed_call (grown blank_call (with_index i ds))

builder_at-set_builder :
    (i j : ℤ) (b : ToolCall) (bs : List (ℤ × ToolCall))
    → builder_at j (set_builder i b bs) ≡ (if int_eq i j then some b else builder_at j bs)
unfolding builder_at set_builder
builder_at-set_builder i j b [] = refl
builder_at-set_builder i j b ((k, c) ∷ bs) =
    ground (arith, int_eq_iff i j, int_eq_iff k i, int_eq_iff k j, builder_at-set_builder i j b bs)

abbrev grown_from : Option ToolCall → List ToolDelta → Option ToolCall
grown_from (some b) ds = some (grown b ds)
grown_from none [] = none
grown_from none (d ∷ ds) = some (grown (add_fragment d blank_call) ds)

grown-nil : (b : ToolCall) → grown b [] ≡ b
grown-nil b = ap (λ s. record b { arguments = s }) (append-nil b.arguments)

grown-cons :
    (b : ToolCall) (d : ToolDelta) (ds : List ToolDelta)
    → grown (add_fragment d b) ds ≡ grown b (d ∷ ds)
unfolding add_fragment
grown-cons b d ds =
    ap (λ s. record (grown b (d ∷ ds)) { arguments = s })
      (append_assoc b.arguments d.arguments (all_arguments ds))

grown_from-nil : (o : Option ToolCall) → o ≡ grown_from o []
grown_from-nil none = refl
grown_from-nil (some b) = ap some (sym (grown-nil b))

-- the builder after one of its fragments
abbrev with_fragment : ToolDelta → Option ToolCall → ToolCall
with_fragment d none = add_fragment d blank_call
with_fragment d (some b) = add_fragment d b

grown_from-cons :
    (o : Option ToolCall) (d : ToolDelta) (ds : List ToolDelta)
    → grown_from (some (with_fragment d o)) ds ≡ grown_from o (d ∷ ds)
grown_from-cons none d ds = refl
grown_from-cons (some b) d ds = ap some (grown-cons b d ds)

builder_at-add_to :
    (i : ℤ) (d : ToolDelta) (o : Option ToolCall) (c : CallBuilders)
    → builder_at i (add_to d o c).builders
      ≡ (if int_eq d.index i then some (with_fragment d o) else builder_at i c.builders)
unfolding add_to
builder_at-add_to i d none c =
    builder_at-set_builder d.index i (add_fragment d blank_call) c.builders
builder_at-add_to i d (some b) c = builder_at-set_builder d.index i (add_fragment d b) c.builders

-- What the builders hold after some fragments.
builder_at-add_deltas :
    (i : ℤ) (ds : List ToolDelta) (c : CallBuilders)
    → builder_at i (add_deltas ds c).builders
      ≡ grown_from (builder_at i c.builders) (with_index i ds)
unfolding add_deltas
builder_at-add_deltas i [] c = grown_from-nil (builder_at i c.builders)
builder_at-add_deltas i (d ∷ ds) c =
    let o = builder_at d.index c.builders in
    let later = builder_at-add_deltas i ds (add_to d o c) in
    let now = builder_at-add_to i d o c in
    elim (Bool-cases (int_eq d.index i)) [
      | inl e ↦
          later
          ∙ ap (λ x. grown_from x (with_index i ds))
              (now
                ∙ if_true (some (with_fragment d o)) (builder_at i c.builders) (int_eq d.index i) e)
          ∙ grown_from-cons o d (with_index i ds)
          ∙ ap (λ j. grown_from (builder_at j c.builders) (d ∷ with_index i ds))
              ((int_eq_iff d.index i).0 e)
          ∙ ap (grown_from (builder_at i c.builders))
              (sym (if_true (d ∷ with_index i ds) (with_index i ds) (int_eq d.index i) e))
      | inr e ↦
          later
          ∙ ap (λ x. grown_from x (with_index i ds))
              (now
                ∙ if_false (some (with_fragment d o)) (builder_at i c.builders) (int_eq d.index i)
                    e)
          ∙ ap (grown_from (builder_at i c.builders))
              (sym (if_false (d ∷ with_index i ds) (with_index i ds) (int_eq d.index i) e))
    ]

abbrev is_held : Option ToolCall → Bool
is_held none = false
is_held (some b) = true

-- The order has just the indices that have builders.
abbrev Held : CallBuilders → Type 0
Held c = (i : ℤ) → has_index i c.order ≡ is_held (builder_at i c.builders)

has_index-append :
    (j i : ℤ) (is : List ℤ) → has_index j (is ++ i ∷ []) ≡ (has_index j is || int_eq i j)
has_index-append j i [] = ground arith
has_index-append j i (k ∷ is) = ground (arith, has_index-append j i is)

add_to-Held :
    (d : ToolDelta) (o : Option ToolCall) (c : CallBuilders)
    → builder_at d.index c.builders ≡ o
    → Held c
    → Held (add_to d o c)
unfolding add_to
add_to-Held d none c e h i = ground (
  arith,
  h i,
  builder_at-set_builder d.index i (add_fragment d blank_call) c.builders,
  has_index-append i d.index c.order,
)
add_to-Held d (some b) c e h i = ground (
  arith,
  h i,
  e,
  int_eq_iff d.index i,
  builder_at-set_builder d.index i (add_fragment d b) c.builders,
)

first_indices-add_to :
    (d : ToolDelta) (ds : List ToolDelta) (o : Option ToolCall) (c : CallBuilders)
    → builder_at d.index c.builders ≡ o
    → Held c
    → (add_to d o c).order ++ first_indices (add_to d o c).order ds
      ≡ c.order ++ first_indices c.order (d ∷ ds)
unfolding add_to
first_indices-add_to d ds none c e h =
    append_assoc c.order (d.index ∷ []) (first_indices (c.order ++ d.index ∷ []) ds)
    ∙ ap (λ t. c.order ++ t)
        (sym (
          if_false (first_indices c.order ds) (d.index ∷ first_indices (c.order ++ d.index ∷ []) ds)
            (has_index d.index c.order) (h d.index ∙ ap is_held e)))
first_indices-add_to d ds (some b) c e h =
    ap (λ t. c.order ++ t)
      (sym (
        if_true (first_indices c.order ds) (d.index ∷ first_indices (c.order ++ d.index ∷ []) ds)
          (has_index d.index c.order) (h d.index ∙ ap is_held e)))

-- After some fragments the order has their indices, and still just those of the builders.
add_deltas-Held :
    (ds : List ToolDelta) (c : CallBuilders)
    → Held c
    → ((add_deltas ds c).order ≡ c.order ++ first_indices c.order ds) × Held (add_deltas ds c)
unfolding add_deltas
add_deltas-Held [] c h = (sym (append-nil c.order), h)
add_deltas-Held (d ∷ ds) c h =
    let o = builder_at d.index c.builders in
    let (e, k) = add_deltas-Held ds (add_to d o c) (add_to-Held d o c refl h) in
    (e ∙ first_indices-add_to d ds o c refl h, k)

build_each-map :
    (f : ℤ → ToolCall) (is : List ℤ) (builders : List (ℤ × ToolCall))
    → ((i : ℤ)
        → has_index i is ≡ true
        → (b : ToolCall) × (builder_at i builders ≡ some b) × (typed_call b ≡ f i))
    → build_each is builders ≡ map f is
unfolding build_each
build_each-map f [] builders h = refl
build_each-map f (i ∷ is) builders h =
    let (b, e, same) = h i (ground (arith, int_eq_iff i i)) in
    let rest : build_each is builders ≡ map f is =
      build_each-map f is builders (λ j m. h j (ground (arith, m))) in
    ground (arith, e, same, rest)

grown_from-held :
    (ds : List ToolDelta)
    → is_held (grown_from none ds) ≡ true
    → grown_from none ds ≡ some (grown blank_call ds)
grown_from-held [] h = cc
grown_from-held (d ∷ ds) h = ap some (grown-cons blank_call d ds)

-- The calls that are built from some fragments: one for each index, in the order in which the indices
-- come first, each made of its own fragments.
pub built_calls-joined_call :
    (ds : List ToolDelta)
    → built_calls (add_deltas ds no_calls) ≡ map (joined_call ds) (first_indices [] ds)
unfolding built_calls builder_at
built_calls-joined_call ds =
    let c = add_deltas ds no_calls in
    let (order, held) = add_deltas-Held ds no_calls (λ i. refl) in
    build_each-map (joined_call ds) c.order c.builders (λ i m.
      let at = builder_at-add_deltas i ds no_calls in
      (
        grown blank_call (with_index i ds),
        at ∙ grown_from-held (with_index i ds) (sym (ap is_held at) ∙ (sym (held i) ∙ m)),
        refl,
      ))
    ∙ ap (map (joined_call ds)) order
