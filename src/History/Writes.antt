-- ===== src/History/Writes.antt =====
-- What the transactions of `RedisStore` make of the list of messages of a run.
use mathlib.Core.Path.{subst}
use ai_agent_cloud_runtime.Prelude.{◌≡◌, refl, ap, sym, ◌∙◌, Option, some, List, [], ◌∷◌, ◌++◌}
use ai_agent_cloud_runtime.Prelude.Text.{Text, text_eq_refl}
use ai_agent_cloud_runtime.Agent.Types.{HistoryMessage}
use ai_agent_cloud_runtime.History.Redis.{
  Command, View, apply, apply_all, update, insert_member, in_range, history_msgs, history_order,
}
use ai_agent_cloud_runtime.History.Store.{Json, save, save_all, save_new}
use ai_agent_cloud_runtime.History.Messages.{
  JsonLaws, put, modify, hide_range, message_of, entries, entries-put,
}
use ai_agent_cloud_runtime.History.Changes.{written, hidden_of, entries-modify, entries-hide_range}
use ai_agent_cloud_runtime.History.Keeps.{Inv, loaded-id, put-Inv, change-Inv, hidden-Inv}

update_self : {A : Type 0} (k : Text) (a : A) (f : Text → A) → update k a f k ≡ a
unfolding update
update_self k a f = rw (text_eq_refl k)

apply_all-append :
    (cs ds : List Command) (v : View) → apply_all (cs ++ ds) v ≡ apply_all ds (apply_all cs v)
unfolding apply_all
apply_all-append [] ds v = refl
apply_all-append (c ∷ cs) ds v = apply_all-append cs ds (apply c v)

module _ (json : Json) (run : Text) where
  abbrev pub hash_of : View → Text → Option Text
  hash_of v = v.hash (history_msgs run)

  abbrev pub order_of : View → List Text
  order_of v = v.order (history_order run)

  -- The messages of the run.
  abbrev pub messages : View → List HistoryMessage
  messages v = entries json (hash_of v) (order_of v)

  abbrev pub IsGood : View → Type 0
  IsGood v = Inv json (hash_of v) (order_of v)

  hash-save :
      (m : HistoryMessage) (v : View)
      → hash_of (apply (save json run m) v) ≡ update m.id (some (json.marshal m)) (hash_of v)
  unfolding save apply
  hash-save m v = update_self (history_msgs run) _ v.hash

  order-save : (m : HistoryMessage) (v : View) → order_of (apply (save json run m) v) ≡ order_of v
  unfolding save apply
  order-save m v = refl

  hash-save_all :
      (ms : List HistoryMessage) (v : View)
      → hash_of (apply_all (save_all json run ms) v) ≡ written json ms (hash_of v)
  unfolding save_all apply_all
  hash-save_all [] v = refl
  hash-save_all (m ∷ ms) v =
      hash-save_all ms (apply (save json run m) v) ∙ ap (written json ms) (hash-save m v)

  order-save_all :
      (ms : List HistoryMessage) (v : View)
      → order_of (apply_all (save_all json run ms) v) ≡ order_of v
  unfolding save_all apply_all
  order-save_all [] v = refl
  order-save_all (m ∷ ms) v = order-save_all ms (apply (save json run m) v) ∙ order-save m v

  hash-save_new :
      (m : HistoryMessage) (v : View)
      → hash_of (apply_all (save_new json run m) v)
        ≡ update m.id (some (json.marshal m)) (hash_of v)
  unfolding save_new apply_all apply
  hash-save_new m v = hash-save m v

  order-save_new :
      (m : HistoryMessage) (v : View)
      → order_of (apply_all (save_new json run m) v) ≡ insert_member m.id (order_of v)
  unfolding save_new apply_all apply save
  order-save_new m v = update_self (history_order run) _ v.order

  Inv-cong :
      {g h : Text → Option Text} {o p : List Text} → g ≡ h → o ≡ p → Inv json h p → Inv json g o
  Inv-cong {g} {h} {o} {p} e f inv =
      subst (λ o. Inv json g o) (sym f) (subst (λ g. Inv json g p) (sym e) inv)

  entries-eq :
      {g h : Text → Option Text} {o p : List Text}
      → g ≡ h
      → o ≡ p
      → entries json g o ≡ entries json h p
  entries-eq {g} {h} {o} {p} e f = ap (λ g. entries json g o) e ∙ ap (entries json h) f

  -- A later view is good, and its messages are those given.
  abbrev pub Becomes : View → List HistoryMessage → Type 0
  Becomes v ms = IsGood v × (messages v ≡ ms)

  module _ {Clean : HistoryMessage → Type 0} (laws : JsonLaws json Clean) (v : View)
      (good : IsGood v) where
    pub save_new-Becomes :
        (m : HistoryMessage)
        → Clean m
        → Becomes (apply_all (save_new json run m) v) (put m (messages v))
    save_new-Becomes m clean = (
      Inv-cong (hash-save_new m v) (order-save_new m v)
          (put-Inv json laws (hash_of v) (order_of v) good m clean),
      entries-eq (hash-save_new m v) (order-save_new m v)
          ∙ entries-put json laws m clean (hash_of v) (order_of v) good.sorted good.held,
    )

    pub save-Becomes :
        (id : Text) (m : HistoryMessage) (f : HistoryMessage → HistoryMessage)
        → Clean (f m)
        → message_of json (hash_of v id) ≡ some m
        → (f m).id ≡ m.id
        → Becomes (apply_all (save json run (f m) ∷ []) v) (modify id f (messages v))
    unfolding apply_all
    save-Becomes id m f clean e same =
        let named = same ∙ loaded-id json laws (hash_of v) (order_of v) good id m e in
        let wrote =
          hash-save (f m) v ∙ ap (λ x. update x (some (json.marshal (f m))) (hash_of v)) named in
        (
          Inv-cong wrote (order-save (f m) v)
              (change-Inv json laws (hash_of v) (order_of v) good id m (f m) clean e named),
          entries-eq wrote (order-save (f m) v)
              ∙ entries-modify json laws (hash_of v) f id m (order_of v) clean e good.held,
        )

    pub save_all-Becomes :
        (lo hi : Text)
        → Becomes
            (apply_all
              (save_all json run (hidden_of json (hash_of v) (in_range lo hi (order_of v))))
              v)
            (hide_range lo hi (messages v))
    save_all-Becomes lo hi =
        let ms = hidden_of json (hash_of v) (in_range lo hi (order_of v)) in
        (
          Inv-cong (hash-save_all ms v) (order-save_all ms v)
              (hidden-Inv json laws (hash_of v) (order_of v) good lo hi),
          entries-eq (hash-save_all ms v) (order-save_all ms v)
              ∙ entries-hide_range json laws (hash_of v) lo hi (order_of v) (order_of v) good.held
                  (λ y c. c),
        )

  -- The transaction of `Fold`.
  pub fold-Becomes :
      {Clean : HistoryMessage → Type 0} (laws : JsonLaws json Clean) (v : View) (lo hi : Text)
      (m : HistoryMessage)
      → Clean m
      → IsGood v
      → Becomes
          (apply_all
            (save_all json run (hidden_of json (hash_of v) (in_range lo hi (order_of v)))
              ++ save_new json run m)
            v)
          (put m (hide_range lo hi (messages v)))
  fold-Becomes laws v lo hi m clean good =
      let ms = hidden_of json (hash_of v) (in_range lo hi (order_of v)) in
      let (good', hid) = save_all-Becomes laws v good lo hi in
      let (good'', saved) =
        save_new-Becomes laws (apply_all (save_all json run ms) v) good' m clean in
      rw (apply_all-append (save_all json run ms) (save_new json run m) v)
        (good'', saved ∙ ap (put m) hid)
