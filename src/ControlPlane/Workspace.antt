-- ===== src/ControlPlane/Workspace.antt =====
-- `safeWorkspacePath` of internal/controlplane/docker.go: the paths of the preview of a workspace.
use mathlib.Core.Path.{subst}
use ai_agent_cloud_runtime.Prelude.{
  ◌≡◌, refl, sym, ap, ◌∙◌, Bool, true, false, ◌||◌, List, [], ◌∷◌, ◌++◌, Result, ok, err,
  if◌then◌else◌, ◌==◌, All, arith,
}
use ai_agent_cloud_runtime.Prelude.Text.{Text, codes, text_eq, has_prefix}
use ai_agent_cloud_runtime.Prelude.Cuts.{split, trim_prefix}
use ai_agent_cloud_runtime.Tool.Paths.{clean}
use ai_agent_cloud_runtime.Tool.Paths.Inside.{IsDown, clean-root}

-- the fields between slashes of either kind, of which empty ones do not count
slashed : Text → Text
slashed [] = []
slashed (c ∷ s) = (if c == 92 then 47 else c) ∷ slashed s

any_up : List Text → Bool
any_up [] = false
any_up (s ∷ ss) = text_eq s (codes "..") || any_up ss

abbrev no_dot : Text → Text
no_dot p = if text_eq p (codes ".") then [] else p

unfoldable pub safe_workspace_path : Text → Result Text Text
unfolding any_up slashed
safe_workspace_path p =
    if any_up (split 47 (slashed p))
    then err (codes "invalid workspace path")
    else ok (no_dot (trim_prefix (clean (codes "/" ++ p)) (codes "/")))

no_dot-IsDown : (p : Text) → All IsDown (split 47 p) → All IsDown (split 47 (no_dot p))
unfolding split text_eq
no_dot-IsDown p h = go (text_eq p (codes "."))
  where
    go : (b : Bool) → All IsDown (split 47 (if b then [] else p))
    go true = (refl, tt)
    go false = h

trim-root : (x : Text) → trim_prefix (47 ∷ x) (codes "/") ≡ x
unfolding trim_prefix has_prefix
trim-root x = refl

kept-IsDown :
    (p : Text) → All IsDown (split 47 (no_dot (trim_prefix (clean (codes "/" ++ p)) (codes "/"))))
unfolding has_prefix
kept-IsDown p =
    let (x, e, h) = clean-root (codes "/" ++ p) refl in
    no_dot-IsDown (trim_prefix (clean (codes "/" ++ p)) (codes "/")) (
      subst (λ t. All IsDown (split 47 t))
        (sym (ap (λ t. trim_prefix t (codes "/")) e ∙ trim-root x)) h)

checked-IsDown :
    (b : Bool) (p q : Text)
    → (if b
        then err (codes "invalid workspace path")
        else ok (no_dot (trim_prefix (clean (codes "/" ++ p)) (codes "/"))))
      ≡ ok q
    → All IsDown (split 47 q)
checked-IsDown true p q e = cc
checked-IsDown false p q e =
    subst (λ t. All IsDown (split 47 t)) (ground (arith, e)) (kept-IsDown p)

-- No element of a path that `safeWorkspacePath` returns leads up, whatever it is given.
pub safe_workspace_path-IsDown :
    (p q : Text) → safe_workspace_path p ≡ ok q → All IsDown (split 47 q)
unfolding safe_workspace_path
safe_workspace_path-IsDown p q = checked-IsDown (any_up (split 47 (slashed p))) p q
