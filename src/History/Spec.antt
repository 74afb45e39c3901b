-- ===== src/History/Spec.antt =====
-- The contract of `history.Store` (internal/history/store.go) on the list of messages of a run, and
-- `RedisStore` as an implementation of it.
use mathlib.Core.Path.{subst}
use ai_agent_cloud_runtime.Prelude.{
  ◌++◌, ◌+◌, ◌%◌, ◌^◌, ◌≡◌, refl, ap, sym, ◌∙◌, true, false, ◌==◌, Option, List, [], ◌∷◌, map, ok,
  if◌then◌else◌, Bool-cases, Option-cases, Result-cases, inl, inr, arith,
}
use ai_agent_cloud_runtime.Prelude.Text.{Text, codes, text_lt, is_empty}
use ai_agent_cloud_runtime.Prelude.Act.{Act, pure, call, ◌>>◌, >>=-ok, pure-ok}
use ai_agent_cloud_runtime.Agent.Types.{HistoryMessage}
use ai_agent_cloud_runtime.History.Redis.{View, Redis, Obeys, history_msgs, history_order}
use ai_agent_cloud_runtime.History.Store.{
  Json, command, append, appended, patch, patched, hide, hidden, append_as, save_new, change, fold,
  folded, load, visible_messages, render, render_ids,
}
use ai_agent_cloud_runtime.History.Messages.{
  JsonLaws, is_last, put-last, put, modify, hide_range, visible_of, entries,
}
use ai_agent_cloud_runtime.History.Writes.{hash_of, messages, IsGood, Becomes}
use ai_agent_cloud_runtime.History.Refines.{
  command-ok, load-ok, append_as-ok, change-ok, fold_range-ok,
}

pub data Operation : Type 0 where
  append_op : HistoryMessage → Operation
  patch_op : (id content : Text) → Operation
  hide_op : (id : Text) → Operation
  fold_op : (from to summary : Text) → Operation

-- The message that stands for a range.
abbrev pub summary_of : (id lo hi summary : Text) → HistoryMessage
summary_of id lo hi summary = record {
  id = id;
  role = codes "assistant";
  content = summary;
  visible = true;
  version = 1;
  parent_id = [];
  tags = (codes "compacted", codes "true") ∷ (codes "fold_from", lo) ∷ (codes "fold_to", hi) ∷ [];
}

-- What an operation that returns `id` makes of the messages. A message is appended behind the others,
-- since new ids are above all old ones; one whose id is not gets the place of its id.
abbrev pub outcome : Operation → Text → List HistoryMessage → List HistoryMessage
outcome (append_op m) id ms =
    let m' = record m {
      id = id;
      visible = true;
      version = if m.version == 0 then 1 else m.version;
    } in
    if is_last id ms then ms ++ m' ∷ [] else put m' ms
outcome (patch_op x content) id ms =
    modify x (λ m. record m { content = content; version = (m.version + 1) % 2 ^ 32 }) ms
outcome (hide_op x) id ms =
    modify x (λ m. record m { visible = false; version = (m.version + 1) % 2 ^ 32 }) ms
outcome (fold_op from to summary) id ms =
    if text_lt to from
    then put (summary_of id to from summary) (hide_range to from ms)
    else put (summary_of id from to summary) (hide_range from to ms)

-- What an operation that returns `id` writes is clean, if what it changes was.
abbrev pub WritesClean : (HistoryMessage → Type 0) → Operation → Text → Type 0
WritesClean Clean (append_op m) id =
    Clean (record m { id = id; visible = true; version = if m.version == 0 then 1 else m.version })
WritesClean Clean (patch_op x content) id =
    (m : HistoryMessage)
    → Clean m
    → Clean (record m { content = content; version = (m.version + 1) % 2 ^ 32 })
WritesClean Clean (hide_op x) id = Unit
WritesClean Clean (fold_op from to summary) id =
    Clean (summary_of id from to summary) × Clean (summary_of id to from summary)

visible-entries :
    (json : Json) (h : Text → Option Text) (ids : List Text)
    → visible_messages json (map h ids) ≡ visible_of (entries json h ids)
unfolding visible_messages
visible-entries json h [] = refl
visible-entries json h (id ∷ ids) = elim (Option-cases (h id)) [
  | inl e ↦ ground (arith, e, visible-entries json h ids)
  | inr (raw, e) ↦ elim (Result-cases (json.unmarshal raw)) [
    | inl (m, d) ↦ ground (arith, e, d, visible-entries json h ids)
    | inr (x, d) ↦ ground (arith, e, d, visible-entries json h ids)
  ]
]

module _ {V W : Type 0} (json : Json) (redis : Redis W) (new_run_id : W → Text × W)
    (run : Text) where
  -- `Patch` and `Hide` return no id.
  abbrev pub perform : Operation → Act V W Text
  perform (append_op m) = append json redis new_run_id run m
  perform (patch_op id content) = patch json redis new_run_id run id content >> pure []
  perform (hide_op id) = hide json redis new_run_id run id >> pure []
  perform (fold_op from to summary) = fold json redis new_run_id run from to summary

  module _ (view : W → View) (obeys : Obeys redis view) {Clean : HistoryMessage → Type 0}
      (laws : JsonLaws json Clean) (keeps : (w : W) → view (new_run_id w).1 ≡ view w) where
    append_as-id :
        (m : HistoryMessage) (w w' : W) (id : Text) (es : List V)
        → append_as json redis new_run_id run m w ≡ (ok id, es, w')
        → id ≡ m.id
    unfolding append_as
    append_as-id m w w' id es h =
        let (t, fs, v, gs, wrote, last) =
          >>=-ok (command (codes "append: ") (redis.exec (save_new json run (appended m)))) _ w h in
        cc last

    append-put :
        (m : HistoryMessage) (w w' : W) (id : Text) (es : List V)
        → Clean (appended (record m { id = id }))
        → IsGood json run (view w)
        → append json redis new_run_id run m w ≡ (ok id, es, w')
        → Becomes json run
            (view w')
            (put (appended (record m { id = id })) (messages json run (view w)))
    unfolding append
    append-put m w w' id es clean good h = elim (Bool-cases (is_empty m.id)) [
      | inr named ↦
          let (same, b) =
            append_as-ok json redis new_run_id view obeys run laws keeps m w w' id es
              (subst (λ i. Clean (appended (record m { id = i })))
                (append_as-id m w w' id es (rw named at h)) clean)
              good (rw named at h) in
          subst
            (λ i.
              Becomes json run (view w')
                (put (appended (record m { id = i })) (messages json run (view w))))
            (sym same) b
      | inl unnamed ↦
          let (new, es1, v, es2, called, rest) = >>=-ok (call new_run_id) _ w (rw unnamed at h) in
          let unread : view v ≡ view w = ap (λ r. view r.2) (sym called) ∙ keeps w in
          let (same, b) =
            append_as-ok json redis new_run_id view obeys run laws keeps (record m { id = new }) v
              w' id es2
              (subst (λ i. Clean (appended (record m { id = i })))
                (append_as-id (record m { id = new }) v w' id es2 rest) clean)
              (subst (IsGood json run) (sym unread) good) rest in
          subst
            (λ i.
              Becomes json run (view w')
                (put (appended (record m { id = i })) (messages json run (view w))))
            (sym same)
            (subst
              (λ u.
                Becomes json run (view w')
                  (put (appended (record m { id = new })) (messages json run u)))
              unread b)
    ]

    append-outcome :
        (m : HistoryMessage) (w w' : W) (id : Text) (es : List V)
        → Clean (appended (record m { id = id }))
        → IsGood json run (view w)
        → append json redis new_run_id run m w ≡ (ok id, es, w')
        → let ms = messages json run (view w) in
          let m' = appended (record m { id = id }) in
          Becomes json run (view w') (if is_last id ms then ms ++ m' ∷ [] else put m' ms)
    unfolding appended
    append-outcome m w w' id es clean good h =
        let ms = messages json run (view w) in
        let m' = appended (record m { id = id }) in
        let (good', is_put) = append-put m w w' id es clean good h in
        elim (Bool-cases (is_last id ms)) [
          | inl last ↦ rw last (good', is_put ∙ put-last m' ms last)
          | inr inside ↦ rw inside (good', is_put)
        ]

    changed-outcome :
        (id : Text) (f : HistoryMessage → HistoryMessage) (w w' : W) (r : Text) (es : List V)
        → ((m : HistoryMessage) → Clean m → Clean (f m))
        → ((m : HistoryMessage) → (f m).id ≡ m.id)
        → IsGood json run (view w)
        → (change json redis new_run_id run id f >> pure []) w ≡ (ok r, es, w')
        → Becomes json run (view w') (modify id f (messages json run (view w)))
    changed-outcome id f w w' r es cleans same good h =
        let (t, fs, v, gs, changed, last) = >>=-ok (change json redis new_run_id run id f) _ w h in
        let (_, stays) = pure-ok [] r v w' gs last in
        subst (λ u. Becomes json run (view u) (modify id f (messages json run (view w)))) stays
          (change-ok json redis new_run_id view obeys run laws keeps id f w v fs cleans same good
            changed)

    fold-outcome :
        (from to summary : Text) (w w' : W) (id : Text) (es : List V)
        → Clean (folded id from to summary) × Clean (folded id to from summary)
        → IsGood json run (view w)
        → fold json redis new_run_id run from to summary w ≡ (ok id, es, w')
        → Becomes json run (view w') (
            if text_lt to from
            then put (folded id to from summary) (hide_range to from (messages json run (view w)))
            else put (folded id from to summary) (hide_range from to (messages json run (view w))))
    unfolding fold
    fold-outcome from to summary w w' id es clean good h =
        let (m1, es1, w1, es2, loaded1, h1) = >>=-ok (load json redis new_run_id run from) _ w h in
        let (m2, es3, w2, es4, loaded2, h2) = >>=-ok (load json redis new_run_id run to) _ w1 h1 in
        let unread : view w2 ≡ view w =
          (load-ok json redis new_run_id view obeys run to w1 w2 m2 es3 loaded2).1
          ∙ (load-ok json redis new_run_id view obeys run from w w1 m1 es1 loaded1).1 in
        let good2 = subst (IsGood json run) (sym unread) good in
        subst
          (λ u. Becomes json run (view w') (
            if text_lt to from
            then put (folded id to from summary) (hide_range to from (messages json run u))
            else put (folded id from to summary) (hide_range from to (messages json run u))))
          unread
          (elim (Bool-cases (text_lt to from)) [
            | inl swapped ↦ rw swapped (
                fold_range-ok json redis new_run_id view obeys run laws keeps to from summary w2 w'
                  id es4 clean.1 good2 (rw swapped at h2))
            | inr straight ↦ rw straight (
                fold_range-ok json redis new_run_id view obeys run laws keeps from to summary w2 w'
                  id es4 clean.0 good2 (rw straight at h2))
          ])

    -- Every operation that succeeds, and writes only messages that JSON gives back, leaves a good hash
    -- and order, and does to the messages of the run what the contract says.
    pub perform-outcome :
        (op : Operation) (w w' : W) (id : Text) (es : List V)
        → WritesClean Clean op id
        → IsGood json run (view w)
        → perform op w ≡ (ok id, es, w')
        → Becomes json run (view w') (outcome op id (messages json run (view w)))
    unfolding patch hide patched hidden folded appended
    perform-outcome (append_op m) w w' id es clean good h = append-outcome m w w' id es clean good h
    perform-outcome (patch_op x content) w w' id es clean good h =
        changed-outcome x (patched content) w w' id es clean (λ m. refl) good h
    perform-outcome (hide_op x) w w' id es clean good h =
        changed-outcome x hidden w w' id es laws.hidden_clean (λ m. refl) good h
    perform-outcome (fold_op from to summary) w w' id es clean good h =
        fold-outcome from to summary w w' id es clean good h

  render_ids-visible :
      (view : W → View)
      → Obeys redis view
      → (ids : List Text) (w w' : W) (ms : List HistoryMessage) (es : List V)
      → render_ids json redis new_run_id run ids w ≡ (ok ms, es, w')
      → (ms ≡ visible_of (entries json (hash_of json run (view w)) ids)) × (view w' ≡ view w)
  unfolding render_ids
  render_ids-visible view obeys [] w w' ms es h =
      let (same, stays) = pure-ok [] ms w w' es h in (sym same, ap view (sym stays))
  render_ids-visible view obeys (id ∷ ids) w w' ms es h =
      let read = redis.hmget (history_msgs run) (id ∷ ids) in
      let (raws, es1, v, es2, done, last) = >>=-ok (command [] read) _ w h in
      let (value, unread) =
        obeys.hmget_reads (history_msgs run) (id ∷ ids) w (command-ok [] read w v raws es1 done) in
      let (same, stays) = pure-ok (visible_messages json raws) ms v w' es2 last in
      (
        sym same
            ∙ (ap (visible_messages json) value
                ∙ visible-entries json (hash_of json run (view w)) (id ∷ ids)),
        ap view (sym stays) ∙ unread,
      )

  -- `Render` returns the visible messages of the run in order, and changes nothing.
  pub render-visible :
      (view : W → View)
      → Obeys redis view
      → (w w' : W) (ms : List HistoryMessage) (es : List V)
      → render json redis new_run_id run w ≡ (ok ms, es, w')
      → (ms ≡ visible_of (messages json run (view w))) × (view w' ≡ view w)
  unfolding render
  render-visible view obeys w w' ms es h =
      let (ids, es1, v, es2, done, rest) =
        >>=-ok (command [] (redis.zrange_all (history_order run))) _ w h in
      let (value, unread) =
        obeys.zrange_all_reads (history_order run) w
          (command-ok [] (redis.zrange_all (history_order run)) w v ids es1 done) in
      let (shown, unread') = render_ids-visible view obeys ids v w' ms es2 rest in
      (
        shown
            ∙ (ap (λ u. visible_of (entries json (hash_of json run u) ids)) unread
                ∙ ap (λ x. visible_of (entries json (hash_of json run (view w)) x)) value),
        unread' ∙ unread,
      )
