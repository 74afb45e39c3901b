-- ===== src/Queue/Consumer/Acks.antt =====
-- What a consumer does with the entries that it has read, whatever Redis and the handler answer.
use ai_agent_cloud_runtime.Prelude.{
  ℕ, ◌+◌, ◌≤◌, ◌<◌, ◌≡◌, refl, Bool, Option, none, some, List, [], ◌∷◌, ◌++◌, Result, ok, err, leb,
  Bool-cases, inl, inr, arith,
}
use ai_agent_cloud_runtime.Prelude.Text.{Text}
use ai_agent_cloud_runtime.Prelude.Act.{Act, ◌>>=◌}
use ai_agent_cloud_runtime.Queue.Consumer.{
  Entry, Effect, handled, requeued, buried, acked, TaskType, Streams, ack_entry, dead_letter, retry,
  after_handler, consume_raw, consume_field,
}

abbrev pub concat_all : List (List Entry) → List Entry
concat_all [] = []
concat_all (s ∷ ss) = s ++ concat_all ss

module _ {T W : Type 0} (tasks : TaskType T) (max_retry : ℕ)
    (handler : Text → T → W → Option Text × W) where
  -- An answer of the handler to a task.
  abbrev pub Answers : Text → T → Option Text → Type 0
  Answers id t answer = (w : W) × ((handler id t w).0 ≡ answer)

  -- What may happen to an entry: it is acknowledged once, last of all.
  pub data Settles (id : Text) : Option Text → List (Effect T) → Type 0 where
    -- without the field `task`
    ignored : Settles id none (acked id ∷ [])
    malformed :
        {raw e : Text} {stored : Bool}
        → tasks.unmarshal raw ≡ err e
        → Settles id (some raw) (buried raw e id stored ∷ acked id ∷ [])
    done :
        {raw : Text} {t : T}
        → tasks.unmarshal raw ≡ ok t
        → Answers id t none
        → Settles id (some raw) (handled id t none ∷ acked id ∷ [])
    retried :
        {raw e : Text} {t : T} {stored : Bool}
        → tasks.unmarshal raw ≡ ok t
        → Answers id t (some e)
        → tasks.attempt t + 1 < max_retry
        → Settles id (some raw) (
            handled id t (some e)
            ∷ requeued (tasks.marshal (tasks.set_attempt (tasks.attempt t + 1) t)) stored
            ∷ acked id
            ∷ [])
    given_up :
        {raw e : Text} {t : T} {stored : Bool}
        → tasks.unmarshal raw ≡ ok t
        → Answers id t (some e)
        → max_retry ≤ tasks.attempt t + 1
        → Settles id (some raw) (handled id t (some e) ∷ buried raw e id stored ∷ acked id ∷ [])

  -- Entry by entry.
  pub data AllSettle : List Entry → List (Effect T) → Type 0 where
    none_left : AllSettle [] []
    one_more :
        {e : Entry} {rest : List Entry} {es fs gs : List (Effect T)}
        → Settles e.id e.task es
        → AllSettle rest fs
        → gs ≡ es ++ fs
        → AllSettle (e ∷ rest) gs

  module _ (streams : Streams W) where
    -- The action raises no error, and its events are such.
    abbrev Does : (List (Effect T) → Type 0) → Act (Effect T) W (Unit {0}) → Type 0
    Does P m = (w : W) → ((m w).0 ≡ ok tt) × P (m w).1

    retry-Settles :
        (id raw error : Text) (t : T)
        → tasks.unmarshal raw ≡ ok t
        → Answers id t (some error)
        → Does
            (λ es. Settles id (some raw) (handled id t (some error) ∷ es))
            (retry tasks streams max_retry id raw error t)
    unfolding retry ◌>>=◌
    retry-Settles id raw error t e failed w =
        elim (Bool-cases (leb max_retry (tasks.attempt t + 1))) [
          | inl enough ↦ rw enough (refl, given_up e failed (ground arith))
          | inr again ↦ rw again (refl, retried e failed (ground arith))
        ]

    after_handler-Settles :
        (id raw : Text) (t : T) (answer : Option Text)
        → tasks.unmarshal raw ≡ ok t
        → Answers id t answer
        → Does
            (λ es. Settles id (some raw) (handled id t answer ∷ es))
            (after_handler tasks streams max_retry handler id raw t answer)
    unfolding after_handler ack_entry ◌>>=◌
    after_handler-Settles id raw t none e a w = (refl, done e a)
    after_handler-Settles id raw t (some error) e a w = retry-Settles id raw error t e a w

    consume_raw-Settles :
        (id raw : Text) (r : Result Text T)
        → tasks.unmarshal raw ≡ r
        → Does (Settles id (some raw)) (consume_raw tasks streams max_retry handler id raw r)
    unfolding consume_raw dead_letter ◌>>=◌
    consume_raw-Settles id raw (err e) bad w = (refl, malformed bad)
    consume_raw-Settles id raw (ok t) good w =
        let (answer, w') = handler id t w in
        let (fine, s) = after_handler-Settles id raw t answer good (w, refl) w' in
        ground (arith, fine, s)

    pub consume_field-Settles :
        (id : Text) (field : Option Text)
        → Does (Settles id field) (consume_field tasks streams max_retry handler id field)
    unfolding consume_field ack_entry ◌>>=◌
    consume_field-Settles id none w = (refl, ignored)
    consume_field-Settles id (some raw) w = consume_raw-Settles id raw (tasks.unmarshal raw) refl w
