-- ===== src/Tool/Paths/Inside.antt =====
-- `safePath` stays in the workspace.
use mathlib.Core.Path.{subst}
use ai_agent_cloud_runtime.Prelude.{
  ℕ, ◌≡◌, refl, sym, ap, ◌∙◌, ◌⊎◌, inl, inr, Bool, true, false, ◌||◌, List, [], ◌∷◌, ◌++◌, Result,
  ok, err, if◌then◌else◌, ◌==◌, All, All-append, Bool-cases, arith,
}
use ai_agent_cloud_runtime.Prelude.Text.{Text, codes, is_empty, text_eq, text_eq_iff, has_prefix}
use ai_agent_cloud_runtime.Prelude.Cuts.{mem, split, push}
use ai_agent_cloud_runtime.Tool.Paths.{
  dot_dot, up, push_element, push_elements, path_of, or_dot, clean, join_paths, is_within,
  safe_path,
}

-- an element that leads up
abbrev pub IsDown : Text → Type 0
IsDown s = text_eq s dot_dot ≡ false

abbrev HasNoSlash : Text → Type 0
HasNoSlash s = mem 47 s ≡ false

push-HasNoSlash :
    (c : ℕ) (ss : List Text) → (c == 47) ≡ false → All HasNoSlash ss → All HasNoSlash (push c ss)
unfolding push mem
push-HasNoSlash c [] e h = (ground (arith, e), tt)
push-HasNoSlash c (s ∷ ss) e h = (ground (arith, e, h.0), h.1)

choose-HasNoSlash :
    (b : Bool) (c : ℕ) (ss : List Text)
    → (c == 47) ≡ b
    → All HasNoSlash ss
    → All HasNoSlash (if b then [] ∷ ss else push c ss)
unfolding mem
choose-HasNoSlash true c ss e h = (refl, h)
choose-HasNoSlash false c ss e h = push-HasNoSlash c ss e h

split-HasNoSlash : (p : Text) → All HasNoSlash (split 47 p)
unfolding split mem
split-HasNoSlash [] = (refl, tt)
split-HasNoSlash (c ∷ p) = choose-HasNoSlash (c == 47) c (split 47 p) refl (split-HasNoSlash p)

choose-append :
    (b : Bool) (c : ℕ) (ss ts us : List Text)
    → ss ≡ us ++ ts
    → (s : Text) × (rest : List Text) × (us ≡ s ∷ rest)
    → (if b then [] ∷ ss else push c ss) ≡ (if b then [] ∷ us else push c us) ++ ts
unfolding push
choose-append true c ss ts us e u = ap (λ t. [] ∷ t) e
choose-append false c ss ts us e (s, rest, u) =
    ap (push c) (e ∙ ap (λ t. t ++ ts) u) ∙ ap (λ t. push c t ++ ts) (sym u)

choose-cons :
    (b : Bool) (c : ℕ) (ss : List Text)
    → (s : Text) × (rest : List Text) × ((if b then [] ∷ ss else push c ss) ≡ s ∷ rest)
unfolding push
choose-cons true c ss = ([], ss, refl)
choose-cons false c [] = (c ∷ [], [], refl)
choose-cons false c (s ∷ ss) = (c ∷ s, ss, refl)

split-cons : (p : Text) → (s : Text) × (ss : List Text) × (split 47 p ≡ s ∷ ss)
unfolding split
split-cons [] = ([], [], refl)
split-cons (c ∷ p) = choose-cons (c == 47) c (split 47 p)

split_single : (s : Text) → HasNoSlash s → split 47 s ≡ s ∷ []
unfolding split push mem
split_single [] h = refl
split_single (c ∷ s) h = ground (arith, split_single s)

split-append : (a b : Text) → split 47 (a ++ codes "/" ++ b) ≡ split 47 a ++ split 47 b
unfolding split
split-append [] b = refl
split-append (c ∷ a) b =
    choose-append (c == 47) c (split 47 (a ++ codes "/" ++ b)) (split 47 b) (split 47 a)
      (split-append a b) (split-cons a)

-- an element of a path that leads neither up nor further down
IsElement : Text → Type 0
IsElement s = IsDown s × HasNoSlash s

up-rooted : (stack : List Text) → All IsElement stack → All IsElement (up true stack)
unfolding up IsElement
up-rooted [] h = tt
up-rooted (s ∷ ss) h =
    subst (λ b. All IsElement (if b then dot_dot ∷ s ∷ ss else ss)) (sym h.0.0) h.1

choose-IsElement :
    (b c : Bool) (stack : List Text) (s : Text)
    → All IsElement stack
    → (c ≡ false → IsElement s)
    → All IsElement (if b then stack else if c then up true stack else s ∷ stack)
choose-IsElement true c stack s h e = h
choose-IsElement false true stack s h e = up-rooted stack h
choose-IsElement false false stack s h e = (e refl, h)

push_element-rooted :
    (stack : List Text) (s : Text)
    → All IsElement stack
    → HasNoSlash s
    → All IsElement (push_element true stack s)
unfolding push_element IsElement
push_element-rooted stack s h e =
    choose-IsElement (is_empty s || text_eq s (codes ".")) (text_eq s dot_dot) stack s h
      (λ d. (d, e))

push_elements-rooted :
    (stack ss : List Text)
    → All IsElement stack
    → All HasNoSlash ss
    → All IsElement (push_elements true stack ss)
unfolding push_elements
push_elements-rooted stack [] h e = h
push_elements-rooted stack (s ∷ ss) h e =
    push_elements-rooted (push_element true stack s) ss (push_element-rooted stack s h e.0) e.1

split-path_of : (stack : List Text) → All IsElement stack → All IsDown (split 47 (path_of stack))
unfolding path_of IsElement split text_eq
split-path_of [] h = (refl, tt)
split-path_of (s ∷ []) h = subst (All IsDown) (sym (split_single s h.0.1)) (h.0.0, tt)
split-path_of (s ∷ t ∷ ss) h = subst (All IsDown) (sym (split-append (path_of (t ∷ ss)) s)) (
    All-append IsDown (split 47 (path_of (t ∷ ss))) (split 47 s) (split-path_of (t ∷ ss) h.1)
      (subst (All IsDown) (sym (split_single s h.0.1)) (h.0.0, tt)))

-- No element of a cleaned path from the root leads up.
pub clean-root :
    (p : Text)
    → has_prefix p (codes "/") ≡ true
    → (x : Text) × (clean p ≡ 47 ∷ x) × All IsDown (split 47 x)
unfolding clean is_empty
clean-root p e = (
  path_of (push_elements true [] (split 47 p)),
  ap (λ b. or_dot ((if b then codes "/" else []) ++ path_of (push_elements b [] (split 47 p)))) e,
  split-path_of (push_elements true [] (split 47 p))
      (push_elements-rooted [] (split 47 p) tt (split-HasNoSlash p)),
)

clean-rooted : (p : Text) → has_prefix p (codes "/") ≡ true → All IsDown (split 47 (clean p))
unfolding split text_eq
clean-rooted p e =
    let (x, c, h) = clean-root p e in subst (λ t. All IsDown (split 47 t)) (sym c) (refl, h)

clean-has_prefix :
    (p : Text) → has_prefix p (codes "/") ≡ true → has_prefix (clean p) (codes "/") ≡ true
unfolding clean is_empty has_prefix
clean-has_prefix p e =
    subst
      (λ b.
        has_prefix
          (or_dot ((if b then codes "/" else []) ++ path_of (push_elements b [] (split 47 p))))
          (codes "/")
        ≡ true)
      (sym e) refl

join_paths-has_prefix :
    (root p : Text)
    → has_prefix root (codes "/") ≡ true
    → has_prefix (join_paths root p) (codes "/") ≡ true
unfolding join_paths has_prefix is_empty
join_paths-has_prefix [] p e = cc
join_paths-has_prefix (c ∷ root) [] e = clean-has_prefix (c ∷ root) e
join_paths-has_prefix (c ∷ root) (d ∷ p) e =
    clean-has_prefix ((c ∷ root) ++ codes "/" ++ d ∷ p) (ground (arith, e))

has_prefix-append : (q s : Text) → has_prefix q s ≡ true → (rest : Text) × (q ≡ s ++ rest)
unfolding has_prefix
has_prefix-append q [] e = (q, refl)
has_prefix-append [] (y ∷ s) e = cc
has_prefix-append (x ∷ q) (y ∷ s) e =
    let (rest, h) = has_prefix-append q s (ground (arith, e)) in (rest, ground (arith, e, h))

All-right : (ss ts : List Text) → All IsDown (ss ++ ts) → All IsDown ts
All-right [] ts h = h
All-right (s ∷ ss) ts h = All-right ss ts h.1

-- The workspace itself, or a path below it of which no element leads up.
abbrev pub IsInside : (root path : Text) → Type 0
IsInside root q =
    (q ≡ root) ⊎ ((rest : Text) × (q ≡ root ++ codes "/" ++ rest) × All IsDown (split 47 rest))

is_within-IsInside :
    (root q : Text) → is_within root q ≡ true → All IsDown (split 47 q) → IsInside root q
unfolding is_within
is_within-IsInside root q e h = elim (Bool-cases (text_eq q root)) [
  | inl same ↦ inl ((text_eq_iff q root).0 same)
  | inr other ↦
      let (rest, r) = has_prefix-append q (root ++ codes "/") (ground (arith, e, other)) in
      inr (
        rest,
        r,
        All-right (split 47 root) (split 47 rest) (
            subst (All IsDown) (split-append root rest) (subst (λ t. All IsDown (split 47 t)) r h)),
      )
]

checked-IsInside :
    (b : Bool) (root c q message : Text)
    → is_within root c ≡ b
    → All IsDown (split 47 c)
    → (if b then ok c else err message) ≡ ok q
    → IsInside root q
checked-IsInside true root c q message e h r =
    subst (IsInside root) (ground (arith, r)) (is_within-IsInside root c e h)
checked-IsInside false root c q message e h r = cc

choose-IsInside :
    (b c : Bool) (root q : Text) (here absolute relative : Result Text Text)
    → (here ≡ ok q → IsInside root q)
    → (c ≡ true → absolute ≡ ok q → IsInside root q)
    → (relative ≡ ok q → IsInside root q)
    → (if b then here else if c then absolute else relative) ≡ ok q
    → IsInside root q
choose-IsInside true c root q here absolute relative f g h e = f e
choose-IsInside false true root q here absolute relative f g h e = g refl e
choose-IsInside false false root q here absolute relative f g h e = h e

-- Where the workspace is an absolute path, a path that `safePath` returns is the workspace, or a path
-- below it of which no element leads up, whatever it is given.
pub safe_path-IsInside :
    (root p q : Text)
    → has_prefix root (codes "/") ≡ true
    → safe_path root p ≡ ok q
    → IsInside root q
unfolding safe_path
safe_path-IsInside root p q rooted =
    choose-IsInside (is_empty p || text_eq p (codes ".")) (has_prefix p (codes "/")) root q
      (ok root) _ _ (λ e. inl (ground (arith, e)))
      (λ absolute.
        checked-IsInside (is_within root (clean p)) root (clean p) q _ refl
          (clean-rooted p absolute))
      (checked-IsInside (is_within root (clean (join_paths root p))) root
        (clean (join_paths root p)) q _ refl
        (clean-rooted (join_paths root p) (join_paths-has_prefix root p rooted)))
