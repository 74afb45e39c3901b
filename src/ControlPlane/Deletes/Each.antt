-- ===== src/ControlPlane/Deletes/Each.antt =====
-- What `DeleteAgents` does with a list of ids: each once.
use mathlib.Core.Path.{subst}
use ai_agent_cloud_runtime.Prelude.{
  append_assoc, append-nil, ◌+◌, ◌≡◌, refl, sym, ap, ◌∙◌, Bool, true, false, List, [], ◌∷◌, ◌++◌,
  Result, ok, err, if◌then◌else◌, arith,
}
use ai_agent_cloud_runtime.Prelude.Text.{Text, codes, is_empty, trim_space}
use ai_agent_cloud_runtime.Prelude.Counts.{count, count-append}
use ai_agent_cloud_runtime.Prelude.Act.{Act, try, ◌>>=◌}
use ai_agent_cloud_runtime.Hook.Engine.{mem}
use ai_agent_cloud_runtime.ControlPlane.Docker.{DockerClient}
use ai_agent_cloud_runtime.ControlPlane.Service.{
  Store, ServiceEffect, deleting, BatchDeleteResult, delete_agent, add_outcome, delete_each,
  delete_agents,
}
use ai_agent_cloud_runtime.ControlPlane.Deletes.Removed.{
  Deletions, none_left, removed, kept, Attempt, delete_agent-Attempt,
}
use ai_agent_cloud_runtime.ControlPlane.Deletes.{
  begun, failed_ids, trimmed, due, due-blank, due-seen, due-fresh, due_named-blank, due_named-fresh,
  count_failed-append,
}

module _ {W : Type 0} (store : Store W) (client : DockerClient W) where
  -- What the loop answers, for the ids that it has still to see.
  record Answers (ids seen : List Text) (before : BatchDeleteResult) (w : W)
      (out : Result Text BatchDeleteResult × List ServiceEffect × W) : Type 0 where
    result : BatchDeleteResult
    returned : out.0 ≡ ok result
    once :
        (x : Text)
        → count x result.deleted_ids + count x (failed_ids result)
          ≡ count x before.deleted_ids + count x (failed_ids before) + due x seen ids
    begun_once : (x : Text) → count x (begun out.1) ≡ (if is_empty x then 0 else due x seen ids)
    fresh : List Text
    deleted_fresh : result.deleted_ids ≡ before.deleted_ids ++ fresh
    deletions : Deletions store client (begun out.1) w fresh out.2

  Answers-blank :
      (id : Text) (ids seen : List Text) (before : BatchDeleteResult) (e : Text) (w : W)
      (out : Result Text BatchDeleteResult × List ServiceEffect × W)
      → is_empty id ≡ true
      → Answers ids seen (add_outcome [] (err e) before) w out
      → Answers (id ∷ ids) seen before w out
  Answers-blank id ids seen before e w out blank h = record {
    result = h.result;
    returned = h.returned;
    once = λ x.
        omega (arith, h.once x, due-blank x id seen ids blank, count_failed-append x before [] e);
    begun_once = λ x. h.begun_once x ∙ due_named-blank x id seen ids blank;
    fresh = h.fresh;
    deleted_fresh = h.deleted_fresh;
    deletions = h.deletions;
  }

  Answers-seen :
      (id : Text) (ids seen : List Text) (before : BatchDeleteResult) (w : W)
      (out : Result Text BatchDeleteResult × List ServiceEffect × W)
      → is_empty id ≡ false
      → mem id seen ≡ true
      → Answers ids seen before w out
      → Answers (id ∷ ids) seen before w out
  Answers-seen id ids seen before w out named known h = record {
    result = h.result;
    returned = h.returned;
    once = λ x. omega (arith, h.once x, due-seen x id seen ids named known);
    begun_once = λ x.
        h.begun_once x
        ∙ ap (λ n. if is_empty x then 0 else n) (sym (due-seen x id seen ids named known));
    fresh = h.fresh;
    deleted_fresh = h.deleted_fresh;
    deletions = h.deletions;
  }

  Answers-fresh :
      (id : Text) (ids seen : List Text) (before : BatchDeleteResult) (o : Result Text (Unit {0}))
      (w v : W) (out : Result Text BatchDeleteResult × List ServiceEffect × W)
      → is_empty id ≡ false
      → mem id seen ≡ false
      → Attempt store client id w o v
      → Answers ids (id ∷ seen) (add_outcome id o before) v out
      → Answers (id ∷ ids) seen before w (out.0, deleting id ∷ out.1, out.2)
  Answers-fresh id ids seen before (ok u) w v out named new attempt h = record {
    result = h.result;
    returned = h.returned;
    once = λ x. omega (
      arith,
      h.once x,
      due-fresh x id seen ids named new,
      count-append x before.deleted_ids (id ∷ []),
    );
    begun_once = λ x. omega (arith, h.begun_once x, due_named-fresh x id seen ids named new);
    fresh = id ∷ h.fresh;
    deleted_fresh = h.deleted_fresh ∙ append_assoc before.deleted_ids (id ∷ []) h.fresh;
    deletions = removed attempt h.deletions;
  }
  Answers-fresh id ids seen before (err e) w v out named new attempt h = record {
    result = h.result;
    returned = h.returned;
    once = λ x.
        omega
          (arith, h.once x, due-fresh x id seen ids named new, count_failed-append x before id e);
    begun_once = λ x. omega (arith, h.begun_once x, due_named-fresh x id seen ids named new);
    fresh = h.fresh;
    deleted_fresh = h.deleted_fresh;
    deletions = kept attempt h.deletions;
  }

  delete_fresh-Answers :
      (id : Text) (ids raws seen : List Text) (before : BatchDeleteResult) (w : W)
      → is_empty id ≡ false
      → mem id seen ≡ false
      → ((r : BatchDeleteResult) (v : W)
          → Answers ids (id ∷ seen) r v (delete_each store client raws (id ∷ seen) r v))
      → Answers (id ∷ ids) seen before w (
          (try (delete_agent store client id) >>= λ outcome.
          delete_each store client raws (id ∷ seen) (add_outcome id outcome before))
            w)
  unfolding ◌>>=◌
  delete_fresh-Answers id ids raws seen before w named new later =
      let m = delete_agent store client id w in
      let out = delete_each store client raws (id ∷ seen) (add_outcome id m.0 before) m.2 in
      let (said, attempt) = delete_agent-Attempt store client id w in
      subst (λ es. Answers (id ∷ ids) seen before w (out.0, es ++ out.1, out.2)) (sym said)
        (Answers-fresh id ids seen before m.0 w m.2 out named new attempt
          (later (add_outcome id m.0 before) m.2))

  choose-Answers :
      (ids seen : List Text) (before : BatchDeleteResult) (b c : Bool)
      (blank known new : Act ServiceEffect W BatchDeleteResult) (w : W)
      → (b ≡ true → Answers ids seen before w (blank w))
      → (b ≡ false → c ≡ true → Answers ids seen before w (known w))
      → (b ≡ false → c ≡ false → Answers ids seen before w (new w))
      → Answers ids seen before w ((if b then blank else if c then known else new) w)
  choose-Answers ids seen before true c blank known new w p q r = p refl
  choose-Answers ids seen before false true blank known new w p q r = q refl refl
  choose-Answers ids seen before false false blank known new w p q r = r refl refl

  delete_each-Answers :
      (raws seen : List Text) (before : BatchDeleteResult) (w : W)
      → Answers (trimmed raws) seen before w (delete_each store client raws seen before w)
  unfolding delete_each
  delete_each-Answers [] seen before w = record {
    result = before;
    returned = refl;
    once = λ x. ground arith;
    begun_once = λ x. ground arith;
    fresh = [];
    deleted_fresh = sym (append-nil before.deleted_ids);
    deletions = none_left;
  }
  delete_each-Answers (raw ∷ raws) seen before w =
      let id = trim_space raw in
      choose-Answers (id ∷ trimmed raws) seen before (is_empty id) (mem id seen)
        (delete_each store client raws seen
          (add_outcome [] (err (codes "agent id is required")) before))
        (delete_each store client raws seen before)
        (try (delete_agent store client id) >>= λ outcome.
          delete_each store client raws (id ∷ seen) (add_outcome id outcome before))
        w
        (λ blank.
          Answers-blank id (trimmed raws) seen before (codes "agent id is required") w _ blank
            (delete_each-Answers raws seen _ w))
        (λ named known.
          Answers-seen id (trimmed raws) seen before w _ named known
            (delete_each-Answers raws seen before w))
        (λ named new.
          delete_fresh-Answers id (trimmed raws) raws seen before w named new
            (λ r v. delete_each-Answers raws (id ∷ seen) r v))

  -- `DeleteAgents` of at least one id answers for each blank id with a failure, and once for every other
  -- id, whatever the store and Docker answer: it begins the deletion of each such id exactly once, and
  -- reports as deleted just those whose deletion succeeded, that is which the store has deleted after
  -- their container and, by their policy, their volume were gone; every other deletion has stopped at
  -- an error of the store or of Docker.
  pub delete_agents-each :
      (raw : Text) (raws : List Text) (w : W)
      → let (answer, es, w') = delete_agents store client (raw ∷ raws) w in
        (r : BatchDeleteResult) × (answer ≡ ok r)
        × ((x : Text)
            → count x r.deleted_ids + count x (failed_ids r) ≡ due x [] (trimmed (raw ∷ raws)))
        × ((x : Text)
            → count x (begun es) ≡ (if is_empty x then 0 else due x [] (trimmed (raw ∷ raws))))
        × Deletions store client (begun es) w r.deleted_ids w'
  unfolding delete_agents
  delete_agents-each raw raws w =
      let none_yet : BatchDeleteResult = record { deleted_ids = []; failed = [] } in
      let out = delete_each store client (raw ∷ raws) [] none_yet w in
      let h = delete_each-Answers (raw ∷ raws) [] none_yet w in
      (
        h.result,
        h.returned,
        λ x. omega (arith, h.once x),
        h.begun_once,
        subst (λ ids. Deletions store client (begun out.1) w ids out.2) (sym h.deleted_fresh)
            h.deletions,
      )
