-- ===== src/Queue/Consumer/Retries.antt =====
-- How often a task is delivered, where Redis delivers each entry of the stream once and JSON gives a
-- task back.
use mathlib.Core.Path.{subst}
use ai_agent_cloud_runtime.Prelude.{
  ℕ, zero, suc, ◌+◌, ◌≤◌, ◌<◌, ◌≡◌, refl, ap, Bool, true, false, ◌||◌, Option, none, some, List, [],
  ◌∷◌, ◌⊎◌, ok, inl, inr, arith,
}
use ai_agent_cloud_runtime.Prelude.Text.{Text}
use ai_agent_cloud_runtime.Prelude.Act.{◌>>=◌}
use ai_agent_cloud_runtime.Queue.Consumer.{
  Effect, handled, requeued, buried, acked, TaskType, Streams, is_ok, consume_field,
}
use ai_agent_cloud_runtime.Queue.Consumer.Acks.{
  Settles, ignored, malformed, done, retried, given_up, consume_field-Settles,
}

-- the payload that was put back into the stream, if one was
abbrev pub next_payload : {T : Type 0} → List (Effect T) → Option Text
next_payload [] = none
next_payload (requeued p true ∷ es) = some p
next_payload (requeued p false ∷ es) = next_payload es
next_payload (handled id t a ∷ es) = next_payload es
next_payload (buried raw e id b ∷ es) = next_payload es
next_payload (acked id ∷ es) = next_payload es

abbrev one_more : {A : Type 0} → Option (ℕ × A) → Option (ℕ × A)
one_more none = none
one_more (some (k, a)) = some (suc k, a)

module _ {T W : Type 0} (tasks : TaskType T) (streams : Streams W) (max_retry : ℕ)
    (handler : Text → T → W → Option Text × W) (ids : ℕ → Text) where
  -- Follows a task through its deliveries, `ids n` the id of its entry: their number, and the effects
  -- of the last. `none` if it is in the stream after `n` of them.
  pub deliveries : ℕ → Text → W → Option (ℕ × List (Effect T))
  deliveries zero raw w = none
  deliveries (suc n) raw w =
      let (_, es, w') = consume_field tasks streams max_retry handler (ids n) (some raw) w in
      elim (next_payload es) [ none ↦ some (1, es) | some p ↦ one_more (deliveries n p w') ]

  module _ (gives_back : (t : T) → tasks.unmarshal (tasks.marshal t) ≡ ok t)
      (counts : (a : ℕ) (t : T) → tasks.attempt (tasks.set_attempt a t) ≡ a) where
    abbrev again : T → T
    again t = tasks.set_attempt (tasks.attempt t + 1) t

    next-Settles :
        (id : Text) (field : Option Text) (t : T) (es : List (Effect T))
        → field ≡ some (tasks.marshal t)
        → Settles tasks max_retry handler id field es
        → (next_payload es ≡ none)
          ⊎ ((next_payload es ≡ some (tasks.marshal (again t))) × (tasks.attempt t + 1 < max_retry))
    next-Settles id field t es f ignored = inl refl
    next-Settles id field t es f (malformed e) = inl refl
    next-Settles id field t es f (done e a) = inl refl
    next-Settles id field t es f (given_up e a h) = inl refl
    next-Settles id field t es f (retried {stored = false} e a h) = inl refl
    next-Settles id field t es f (retried {raw = raw} {t = t'} {stored = true} e a h) =
        let same : t' ≡ t = ground (arith, f, e, gives_back t) in
        inr (
          ap (λ u. some (tasks.marshal (again u))) same,
          subst (λ u. tasks.attempt u + 1 < max_retry) same h,
        )

    -- Whatever the handler and Redis answer, a task with `a` attempts behind it has left the stream
    -- after at most `maxRetry - a` deliveries, or after one.
    pub deliveries_bounded :
        (n : ℕ) (t : T) (w : W)
        → 0 < n
        → max_retry ≤ tasks.attempt t + n
        → (k : ℕ) × (es : List (Effect T)) × (deliveries n (tasks.marshal t) w ≡ some (k, es))
          × (k ≤ n)
    unfolding deliveries
    deliveries_bounded zero t w pos h = absurd (omega arith)
    deliveries_bounded (suc n) t w pos h =
        let consumed =
          consume_field tasks streams max_retry handler (ids n) (some (tasks.marshal t)) w in
        let settled =
          (consume_field-Settles tasks max_retry handler streams (ids n) (some (tasks.marshal t))
            w).1 in
        elim (next-Settles (ids n) (some (tasks.marshal t)) t consumed.1 refl settled) [
          | inl over ↦ (1, consumed.1, ground (arith, over), omega arith)
          | inr (more, few) ↦
              let (k, es, e, le) =
                deliveries_bounded n (again t) consumed.2 (omega arith)
                  (omega (arith, counts (tasks.attempt t + 1) t)) in
              (suc k, es, ground (arith, more, e), omega arith)
        ]

    -- The task after a number of failures.
    abbrev pub aged : ℕ → T → T
    aged zero t = t
    aged (suc n) t = aged n (again t)

    -- The handler has refused the task of an entry, which is in the dead letter stream after that.
    abbrev pub IsBuried : Text → T → List (Effect T) → Type 0
    IsBuried id t es =
        (e : Text) × (es
          ≡ handled id t (some e) ∷ buried (tasks.marshal t) e id true ∷ acked id ∷ [])

    module _ (fails : (id : Text) (t : T) (w : W) → (e : Text) × ((handler id t w).0 ≡ some e))
        (adds : (p : Text) (w : W) → is_ok (streams.add_task p w).0 ≡ true)
        (buries : (raw e id : Text) (w : W) → is_ok (streams.add_dead raw e id w).0 ≡ true) where
      failing-again :
          (id : Text) (t : T) (w : W)
          → tasks.attempt t + 1 < max_retry
          → (e : Text) × ((consume_field tasks streams max_retry handler id
                (some (tasks.marshal t))
                w).1
              ≡ handled id t (some e) ∷ requeued (tasks.marshal (again t)) true ∷ acked id ∷ [])
      unfolding consume_field ◌>>=◌
      failing-again id t w few =
          let (e, failed) = fails id t w in
          let w' = (handler id t w).1 in
          (e, ground (arith, gives_back t, failed, few, adds (tasks.marshal (again t)) w'))

      failing-last :
          (id : Text) (t : T) (w : W)
          → tasks.attempt t + 1 ≡ max_retry
          → IsBuried id t
              (consume_field tasks streams max_retry handler id (some (tasks.marshal t)) w).1
      unfolding consume_field ◌>>=◌
      failing-last id t w all =
          let (e, failed) = fails id t w in
          let w' = (handler id t w).1 in
          (e, ground (arith, gives_back t, failed, all, buries (tasks.marshal t) e id w'))

      -- A task whose handler always fails is delivered until its attempts are `maxRetry`; then it is in
      -- the dead letter stream with its last attempts, and its entry is acknowledged, if Redis takes
      -- what is added to either stream.
      pub deliveries-IsBuried :
          (n : ℕ) (t : T) (w : W)
          → tasks.attempt t + suc n ≡ max_retry
          → (es : List (Effect T)) × (deliveries (suc n) (tasks.marshal t) w ≡ some (suc n, es))
            × IsBuried (ids 0) (aged n t) es
      unfolding deliveries
      deliveries-IsBuried zero t w h =
          let (e, b) = failing-last (ids 0) t w (omega arith) in
          (
            (consume_field tasks streams max_retry handler (ids 0) (some (tasks.marshal t)) w).1,
            ground (arith, ap next_payload b),
            (e, b),
          )
      deliveries-IsBuried (suc n) t w h =
          let consumed =
            consume_field tasks streams max_retry handler (ids (suc n)) (some (tasks.marshal t))
              w in
          let (x, more) = failing-again (ids (suc n)) t w (omega arith) in
          let (es, e, b) =
            deliveries-IsBuried n (again t) consumed.2
              (omega (arith, counts (tasks.attempt t + 1) t)) in
          (es, ground (arith, ap next_payload more, e), b)

-- whether the task is in a stream after the effects
abbrev pub is_kept : {T : Type 0} → List (Effect T) → Bool
is_kept [] = false
is_kept (requeued p b ∷ es) = b || is_kept es
is_kept (buried raw e id b ∷ es) = b || is_kept es
is_kept (handled id t a ∷ es) = is_kept es
is_kept (acked id ∷ es) = is_kept es

abbrev pub acks : {T : Type 0} → List (Effect T) → List Text
acks [] = []
acks (acked id ∷ es) = id ∷ acks es
acks (handled id t a ∷ es) = acks es
acks (requeued p b ∷ es) = acks es
acks (buried raw e id b ∷ es) = acks es

-- Where the handler fails and Redis refuses to add to a stream, the entry is acknowledged, though its
-- task is in no stream any more.
pub consume_field-lost :
    {T W : Type 0} (tasks : TaskType T) (streams : Streams W) (max_retry : ℕ)
    (handler : Text → T → W → Option Text × W) (id raw e : Text) (t : T) (w : W)
    → tasks.unmarshal raw ≡ ok t
    → (handler id t w).0 ≡ some e
    → ((p : Text) (v : W) → is_ok (streams.add_task p v).0 ≡ false)
    → ((r x f : Text) (v : W) → is_ok (streams.add_dead r x f v).0 ≡ false)
    → let es = (consume_field tasks streams max_retry handler id (some raw) w).1 in
      (is_kept es ≡ false) × (acks es ≡ id ∷ [])
unfolding consume_field ◌>>=◌
consume_field-lost tasks streams max_retry handler id raw e t w good failed no_add no_dead =
    let w' = (handler id t w).1 in
    let payload = tasks.marshal (tasks.set_attempt (tasks.attempt t + 1) t) in
    ground (arith, good, failed, no_add payload w', no_dead raw e id w')
