-- ===== src/ControlPlane/Deletes/Removed.antt =====
-- What one deletion of internal/controlplane/service.go asks the database and Docker for, and what
-- stands for a number of them.
use ai_agent_cloud_runtime.Prelude.{
  ◌≡◌, refl, ap, ◌∙◌, Bool, true, false, not, Option, none, some, List, [], ◌∷◌, ◌⊎◌, inl, inr,
  Result, ok, err, Bool-cases,
}
use ai_agent_cloud_runtime.Prelude.Text.{Text, codes, is_empty, text_eq}
use ai_agent_cloud_runtime.Prelude.Act.{Act, call, ◌>>=◌, ◌>>◌, >>=-ok}
use ai_agent_cloud_runtime.ControlPlane.Types.{AgentSpec}
use ai_agent_cloud_runtime.ControlPlane.Docker.{
  DockerError, DockerClient, fail_if, fail_unless_missing, from_result, remove_container,
  remove_workspace, delete_container,
}
use ai_agent_cloud_runtime.ControlPlane.Service.{
  Store, ServiceEffect, deleting, get_agent, delete_agent,
}
use ai_agent_cloud_runtime.ControlPlane.Silent.{Silent-delete_container}

-- Docker has removed something, or it was not there.
abbrev pub is_gone : Option DockerError → Bool
is_gone none = true
is_gone (some e) = e.is_not_found

-- A call that removes something, unless it is not to be made.
abbrev pub Gone : {W : Type 0} → Bool → (W → Option DockerError × W) → W → W → Type 0
Gone true op w w' = w ≡ w'
Gone false op w w' = (e : Option DockerError) × (op w ≡ (e, w')) × (is_gone e ≡ true)

-- The container of an agent is gone if it has one, and its volume if its policy says so.
abbrev pub IsCleaned : {W : Type 0} → DockerClient W → AgentSpec → W → W → Type 0
IsCleaned {W} client a w w' =
    (v : W) × Gone (is_empty a.container_id) (client.remove_container a.container_id) w v
    × Gone (not (text_eq a.workspace_policy (codes "delete"))) (client.remove_volume a.volume_name)
        v w'

fail_unless_missing-is_gone :
    {V W : Type 0} (prefix : Text) (e : Option DockerError) (w w' : W) (es : List V)
    → fail_unless_missing prefix e w ≡ (ok tt, es, w')
    → (is_gone e ≡ true) × (w ≡ w')
unfolding fail_unless_missing
fail_unless_missing-is_gone prefix none w w' es h = (refl, ap (λ r. r.2) h)
fail_unless_missing-is_gone prefix (some e) w w' es h = elim (Bool-cases e.is_not_found) [
  | inl missing ↦ (missing, ap (λ r. r.2) (rw missing at h))
  | inr failed ↦ let no = rw failed at h in cc
]

called-Gone :
    {V W : Type 0} (prefix : Text) (op : W → Option DockerError × W) (w w' : W) (es : List V)
    → (call op >>= λ e. fail_unless_missing prefix e) w ≡ (ok tt, es, w')
    → Gone false op w w'
unfolding ◌>>=◌
called-Gone prefix op w w' es h =
    let (gone, same) = fail_unless_missing-is_gone prefix (op w).0 (op w).1 w' es h in
    ((op w).0, ap (λ v. ((op w).0, v)) same, gone)

module _ {V W : Type 0} (client : DockerClient W) where
  remove_container-Gone :
      (id : Text) (w w' : W) (es : List V)
      → remove_container client id w ≡ (ok tt, es, w')
      → Gone (is_empty id) (client.remove_container id) w w'
  unfolding remove_container is_empty
  remove_container-Gone [] w w' es h = ap (λ r. r.2) h
  remove_container-Gone (c ∷ id) w w' es h =
      called-Gone (codes "remove agent container: ") (client.remove_container (c ∷ id)) w w' es h

  remove_workspace-Gone :
      (policy volume : Text) (w w' : W) (es : List V)
      → remove_workspace client policy volume w ≡ (ok tt, es, w')
      → Gone (not (text_eq policy (codes "delete"))) (client.remove_volume volume) w w'
  unfolding remove_workspace
  remove_workspace-Gone policy volume w w' es h =
      elim (Bool-cases (text_eq policy (codes "delete"))) [
        | inl removes ↦ rw removes (
            called-Gone (codes "remove agent workspace: ") (client.remove_volume volume) w w' es
              (rw removes at h))
        | inr keeps ↦ rw keeps (ap (λ r. r.2) (rw keeps at h))
      ]

  pub delete_container-IsCleaned :
      (a : AgentSpec) (w w' : W) (es : List V)
      → delete_container client a w ≡ (ok tt, es, w')
      → IsCleaned client a w w'
  unfolding delete_container
  delete_container-IsCleaned a w w' es h =
      let (u, fs, v, gs, first, second) =
        >>=-ok (remove_container client a.container_id)
          (λ _. remove_workspace client a.workspace_policy a.volume_name) w h in
      (
        v,
        remove_container-Gone a.container_id w v fs first,
        remove_workspace-Gone a.workspace_policy a.volume_name v w' gs second,
      )

module _ {W : Type 0} (store : Store W) (client : DockerClient W) where
  -- The agent was found, what it had in Docker is gone, and after that the store has deleted it.
  abbrev pub IsRemoved : Text → W → W → Type 0
  IsRemoved id w w' =
      (a : AgentSpec) × (w1 w2 : W) × (store.get id w ≡ (ok a, w1))
      × IsCleaned client a w1 w2
      × (store.delete id w2 ≡ (none, w'))

  -- The agent was not found, or Docker or the store has refused, with this error.
  abbrev pub IsKept : Text → Text → W → W → Type 0
  IsKept id e w w' =
      (store.get id w ≡ (err e, w'))
      ⊎ ((a : AgentSpec) × (w1 : W) × (store.get id w ≡ (ok a, w1))
          × (delete_container {V = ServiceEffect} client a w1 ≡ (err e, [], w')))
      ⊎ ((a : AgentSpec) × (w1 w2 : W) × (store.get id w ≡ (ok a, w1))
          × IsCleaned client a w1 w2
          × (store.delete id w2 ≡ (some e, w')))

  -- Deletions one after the other, and the ids of those that succeeded.
  pub data Deletions : List Text → W → List Text → W → Type 0 where
    none_left : {w : W} → Deletions [] w [] w
    removed :
        {id : Text} {ids done : List Text} {w v w' : W}
        → IsRemoved id w v
        → Deletions ids v done w'
        → Deletions (id ∷ ids) w (id ∷ done) w'
    kept :
        {id e : Text} {ids done : List Text} {w v w' : W}
        → IsKept id e w v
        → Deletions ids v done w'
        → Deletions (id ∷ ids) w done w'

  abbrev pub Attempt : Text → W → Result Text (Unit {0}) → W → Type 0
  Attempt id w (ok u) w' = IsRemoved id w w'
  Attempt id w (err e) w' = IsKept id e w w'

  -- Nothing is said, and the result is that of an attempt which began in `w`.
  abbrev Attempts : Text → W → Result Text (Unit {0}) × List ServiceEffect × W → Type 0
  Attempts id w out = (out.1 ≡ []) × Attempt id w out.0 out.2

  bind-Attempts :
      {A : Type 0} (id : Text) (w v v' : W) (m : Act ServiceEffect W A)
      (f : A → Act ServiceEffect W (Unit {0})) (r : Result Text A)
      → m v ≡ (r, [], v')
      → ((e : Text) → r ≡ err e → IsKept id e w v')
      → ((a : A) → r ≡ ok a → Attempts id w (f a v'))
      → Attempts id w ((m >>= f) v)
  unfolding ◌>>=◌
  bind-Attempts id w v v' m f (err e) h bad good = rw h (refl, bad e refl)
  bind-Attempts id w v v' m f (ok a) h bad good = rw h (good a refl)

  row-Attempts :
      (id : Text) (a : AgentSpec) (w w1 w2 w' : W) (x : Option Text)
      → store.get id w ≡ (ok a, w1)
      → IsCleaned client a w1 w2
      → store.delete id w2 ≡ (x, w')
      → Attempts id w ((call (store.delete id) >>= λ e. fail_if [] e) w2)
  unfolding fail_if ◌>>=◌
  row-Attempts id a w w1 w2 w' none found cleaned h = rw h (refl, (a, w1, w2, found, cleaned, h))
  row-Attempts id a w w1 w2 w' (some e) found cleaned h =
      rw h (refl, inr (inr (a, w1, w2, found, cleaned, h)))

  get_agent-result :
      (id : Text) (w w1 : W) (r : Result Text AgentSpec)
      → store.get id w ≡ (r, w1)
      → get_agent store id w ≡ (r, [], w1)
  unfolding get_agent from_result ◌>>=◌
  get_agent-result id w w1 (ok a) h = rw h refl
  get_agent-result id w w1 (err e) h = rw h refl

  -- One deletion.
  pub delete_agent-Attempt :
      (id : Text) (w : W)
      → ((delete_agent store client id w).1 ≡ deleting id ∷ [])
        × Attempt id w (delete_agent store client id w).0 (delete_agent store client id w).2
  unfolding delete_agent ◌>>=◌
  delete_agent-Attempt id w =
      let row = call (store.delete id) >>= λ e. fail_if [] e in
      let w1 = (store.get id w).1 in
      let (silent, attempt) =
        bind-Attempts id w w w1 (get_agent store id) (λ a. delete_container client a >> row)
          (store.get id w).0 (get_agent-result id w w1 (store.get id w).0 refl)
          (λ e bad. inl (ap (λ r. (r, w1)) bad))
          (λ a good.
            let found : store.get id w ≡ (ok a, w1) = ap (λ r. (r, w1)) good in
            let out = delete_container {V = ServiceEffect} client a w1 in
            let done : out ≡ (out.0, [], out.2) =
              ap (λ es. (out.0, es, out.2)) (Silent-delete_container client a w1) in
            bind-Attempts id w w1 out.2 (delete_container client a) (λ _. row) out.0 done
              (λ e bad. inr (inl (a, w1, found, done ∙ ap (λ r. (r, [], out.2)) bad)))
              (λ u good'.
                row-Attempts id a w w1 out.2 (store.delete id out.2).1 (store.delete id out.2).0
                  found
                  (delete_container-IsCleaned client a w1 out.2 []
                    (done ∙ ap (λ r. (r, [], out.2)) good'))
                  refl)) in
      (ap (λ es. deleting id ∷ es) silent, attempt)
