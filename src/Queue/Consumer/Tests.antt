-- ===== src/Queue/Consumer/Tests.antt =====
-- A task that is its count of attempts, in a Redis that counts the entries added.
use ai_agent_cloud_runtime.Prelude.{
  ℕ, suc, ◌≤◌, ◌≡◌, refl, Bool, true, false, Option, none, some, List, [], ◌∷◌, Result, ok, err,
  if◌then◌else◌, arith,
}
use ai_agent_cloud_runtime.Prelude.Text.{Text, codes}
use ai_agent_cloud_runtime.Prelude.Act.{◌>>=◌}
use ai_agent_cloud_runtime.Queue.Consumer.{
  Entry, Effect, handled, requeued, buried, acked, TaskType, Streams, failed, consume_field,
  consume_entry, consume_entries, consume_streams,
}
use ai_agent_cloud_runtime.Queue.Consumer.Retries.{
  deliveries, deliveries_bounded, IsBuried, deliveries-IsBuried, is_kept, acks, consume_field-lost,
}

abbrev parse : Text → Result Text ℕ
parse [] = err (codes "empty")
parse (n ∷ s) = ok n

abbrev attempts : TaskType ℕ
attempts = record {
  marshal = λ n. n ∷ [];
  unmarshal = parse;
  attempt = λ n. n;
  set_attempt = λ a n. a;
}

abbrev redis : Bool → Streams ℕ
redis up = record {
  read = λ w. (err failed, w);
  add_task = λ p w. (if up then ok (w ∷ []) else err (codes "down"), suc w);
  add_dead = λ r e f w. (if up then ok (w ∷ []) else err (codes "down"), suc w);
  ack = λ id w. (true, w);
  is_done = λ w. (false, w);
  backoff = λ w. (false, w);
}

-- A handler that always fails.
abbrev failing : Text → ℕ → ℕ → Option Text × ℕ
failing id t w = (some (codes "boom"), w)

abbrev entries : List (List Entry)
entries =
    (record { id = codes "1"; task = some (0 ∷ []) } ∷ record { id = codes "2"; task = none } ∷ [])
    ∷ (record { id = codes "3"; task = some (2 ∷ []) } ∷ [])
    ∷ []

entries_effects :
    (consume_streams attempts (redis true) 3 failing entries 0).1
    ≡ handled (codes "1") 0 (some (codes "boom"))
      ∷ requeued (1 ∷ []) true
      ∷ acked (codes "1")
      ∷ acked (codes "2")
      ∷ handled (codes "3") 2 (some (codes "boom"))
      ∷ buried (2 ∷ []) (codes "boom") (codes "3") true
      ∷ acked (codes "3")
      ∷ []
unfolding consume_streams consume_entries consume_entry ◌>>=◌
entries_effects = refl

abbrev settled : Result Text (Unit {0}) × List (Effect ℕ) × ℕ
settled = consume_streams attempts (redis true) 3 failing entries 0

abbrev ids : ℕ → Text
ids n = n ∷ []

deliveries_bounded_example :
    (k : ℕ) × (es : List (Effect ℕ)) × (deliveries attempts (redis true) 3 failing ids 2 (1 ∷ []) 0
      ≡ some (k, es))
    × (k ≤ 2)
deliveries_bounded_example =
    deliveries_bounded attempts (redis true) 3 failing ids (λ t. refl) (λ a t. refl) 2 1 0
      (omega arith) (omega arith)

deliveries-IsBuried_example :
    (es : List (Effect ℕ)) × (deliveries attempts (redis true) 3 failing ids 3 (0 ∷ []) 0
      ≡ some (3, es))
    × IsBuried attempts (redis true) 3 failing ids (λ t. refl) (λ a t. refl) (ids 0) 2 es
deliveries-IsBuried_example =
    deliveries-IsBuried attempts (redis true) 3 failing ids (λ t. refl) (λ a t. refl)
      (λ id t w. (codes "boom", refl)) (λ p w. refl) (λ r e f w. refl) 2 0 0 (omega arith)

abbrev dropped : List (Effect ℕ)
dropped = (consume_field attempts (redis false) 3 failing (codes "1") (some (0 ∷ [])) 0).1

consume_field-lost_example : (is_kept dropped ≡ false) × (acks dropped ≡ codes "1" ∷ [])
consume_field-lost_example =
    consume_field-lost attempts (redis false) 3 failing (codes "1") (0 ∷ []) (codes "boom") 0 0 refl
      refl (λ p v. refl) (λ r x f v. refl)
