-- ===== src/ControlPlane/Deletes.antt =====
-- Lists of ids for `DeleteAgents`: how often an id stands in them, and is to be answered for.
pub mod Removed
pub mod Each
use mathlib.Core.Path.{subst}
use ai_agent_cloud_runtime.Prelude.{
  ℕ, zero, suc, ◌+◌, ◌≡◌, refl, sym, ap, ◌∙◌, Bool, true, false, ◌||◌, Option, none, some, List, [],
  ◌∷◌, ◌++◌, map, Result, ok, err, if◌then◌else◌, Bool-cases, inl, inr, arith,
}
use ai_agent_cloud_runtime.Prelude.Text.{
  Text, codes, is_empty, text_eq, text_eq_refl, text_eq_iff, trim_space,
}
use ai_agent_cloud_runtime.Prelude.Counts.{count, count-append}
use ai_agent_cloud_runtime.Prelude.Act.{Act, pure, raise, call, emit, try, continue, ◌>>=◌, ◌>>◌}
use ai_agent_cloud_runtime.Hook.Engine.{mem}
use ai_agent_cloud_runtime.ControlPlane.Types.{AgentSpec}
use ai_agent_cloud_runtime.ControlPlane.Docker.{DockerClient, fail_if, delete_container}
use ai_agent_cloud_runtime.ControlPlane.Service.{
  Store, ServiceEffect, deleting, consuming, stored, finished, BatchDeleteFailure,
  BatchDeleteResult, get_agent, delete_agent, add_outcome, delete_each, delete_agents,
}
use ai_agent_cloud_runtime.ControlPlane.Silent.{
  Silent, Silent-bind, Silent-call, Silent-fail_if, Silent-get_agent, Silent-delete_container,
}

-- the deletions that were begun
abbrev pub begun : List ServiceEffect → List Text
begun [] = []
begun (deleting id ∷ es) = id ∷ begun es
begun (consuming r a ∷ es) = begun es
begun (stored kind ∷ es) = begun es
begun (finished id status summary error ∷ es) = begun es

pub begun-append : (es fs : List ServiceEffect) → begun (es ++ fs) ≡ begun es ++ begun fs
begun-append [] fs = refl
begun-append (deleting id ∷ es) fs = ap (λ t. id ∷ t) (begun-append es fs)
begun-append (consuming r a ∷ es) fs = begun-append es fs
begun-append (stored kind ∷ es) fs = begun-append es fs
begun-append (finished id status summary error ∷ es) fs = begun-append es fs

abbrev pub failed_ids : BatchDeleteResult → List Text
failed_ids r = map (λ f. f.agent_id) r.failed

abbrev pub trimmed : List Text → List Text
trimmed = map trim_space

-- how often an id is to be answered for: a blank one each time, any other once, if it is not seen
abbrev pub due : Text → List Text → List Text → ℕ
due x seen ids =
    if is_empty x then count x ids else if mem x seen then 0 else if mem x ids then 1 else 0

pub due-blank :
    (x id : Text) (seen ids : List Text)
    → is_empty id ≡ true
    → due x seen (id ∷ ids) ≡ count x ([] ∷ []) + due x seen ids
unfolding is_empty text_eq
due-blank [] [] seen ids e = ground arith
due-blank (c ∷ x) [] seen ids e = ground arith
due-blank x (c ∷ id) seen ids e = cc

pub due-seen :
    (x id : Text) (seen ids : List Text)
    → is_empty id ≡ false
    → mem id seen ≡ true
    → due x seen (id ∷ ids) ≡ due x seen ids
unfolding is_empty text_eq
due-seen x [] seen ids e m = cc
due-seen [] (c ∷ id) seen ids e m = omega arith
due-seen (d ∷ x) (c ∷ id) seen ids e m = ground (arith, text_eq_iff (c ∷ id) (d ∷ x))

pub due-fresh :
    (x id : Text) (seen ids : List Text)
    → is_empty id ≡ false
    → mem id seen ≡ false
    → due x seen (id ∷ ids) ≡ count x (id ∷ []) + due x (id ∷ seen) ids
unfolding is_empty text_eq
due-fresh x [] seen ids e m = cc
due-fresh [] (c ∷ id) seen ids e m = refl
due-fresh (d ∷ x) (c ∷ id) seen ids e m = ground (arith, text_eq_iff (c ∷ id) (d ∷ x))

pub due_named-blank :
    (x id : Text) (seen ids : List Text)
    → is_empty id ≡ true
    → (if is_empty x then 0 else due x seen ids) ≡ (if is_empty x then 0 else due x seen (id ∷ ids))
unfolding is_empty text_eq
due_named-blank [] id seen ids e = refl
due_named-blank (c ∷ x) [] seen ids e = ground arith
due_named-blank (c ∷ x) (d ∷ id) seen ids e = cc

pub due_named-fresh :
    (x id : Text) (seen ids : List Text)
    → is_empty id ≡ false
    → mem id seen ≡ false
    → count x (id ∷ []) + (if is_empty x then 0 else due x (id ∷ seen) ids)
      ≡ (if is_empty x then 0 else due x seen (id ∷ ids))
unfolding is_empty text_eq
due_named-fresh x [] seen ids e m = cc
due_named-fresh [] (c ∷ id) seen ids e m = omega arith
due_named-fresh (d ∷ x) (c ∷ id) seen ids e m = sym (due-fresh (d ∷ x) (c ∷ id) seen ids e m)

pub count_failed-append :
    (x : Text) (r : BatchDeleteResult) (id e : Text)
    → count x (failed_ids (add_outcome id (err e) r)) ≡ count x (failed_ids r) + count x (id ∷ [])
count_failed-append x r id e = go r.failed
  where
    go :
        (fs : List BatchDeleteFailure)
        → count x (map (λ f. f.agent_id) (fs ++ record { agent_id = id; message = e } ∷ []))
          ≡ count x (map (λ f. f.agent_id) fs) + count x (id ∷ [])
    go [] = omega arith
    go (f ∷ fs) = omega (arith, go fs)
