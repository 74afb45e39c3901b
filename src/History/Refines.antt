-- ===== src/History/Refines.antt =====
-- Each operation of `RedisStore` that succeeds is the operation on the list of messages, where Redis
-- obeys its documentation and JSON gives a message back.
use mathlib.Core.Path.{subst}
use ai_agent_cloud_runtime.Prelude.{
  ◌≡◌, ap, sym, ◌∙◌, Option, none, some, List, [], ◌∷◌, ◌++◌, Result, ok, err, arith,
}
use ai_agent_cloud_runtime.Prelude.Text.{Text, codes}
use ai_agent_cloud_runtime.Prelude.Act.{call, >>=-ok, pure-ok}
use ai_agent_cloud_runtime.Agent.Types.{HistoryMessage}
use ai_agent_cloud_runtime.History.Redis.{
  View, Redis, Obeys, apply_all, in_range, history_msgs, history_order,
}
use ai_agent_cloud_runtime.History.Store.{
  Json, command, answered, save, save_all, save_new, decoded, load, append_as, appended, change,
  load_hidden, fold_save, fold_range, found, folded,
}
use ai_agent_cloud_runtime.History.Messages.{
  JsonLaws, message_of-clean, put, modify, hide_range, message_of,
}
use ai_agent_cloud_runtime.History.Changes.{hidden_of}
use ai_agent_cloud_runtime.History.Writes.{
  hash_of, order_of, messages, IsGood, Becomes, save_new-Becomes, save-Becomes, fold-Becomes,
}

pub command-ok :
    {V W A : Type 0} (prefix : Text) (op : W → Result Text A × W) (w w' : W) (a : A) (es : List V)
    → command prefix op w ≡ (ok a, es, w')
    → op w ≡ (ok a, w')
unfolding command
command-ok {V} {W} {A} prefix op w w' a es h = go (op w) h
  where
    go : (r : Result Text A × W) → answered {V = V} prefix r ≡ (ok a, es, w') → r ≡ (ok a, w')
    go (ok b, v) k = cc
    go (err e, v) k = cc

found-ok :
    {V W : Type 0} (ids : List Text) (w w' : W) (es : List V)
    → found ids w ≡ (ok tt, es, w')
    → w' ≡ w
unfolding found
found-ok [] w w' es h = cc
found-ok (id ∷ ids) w w' es h = ap (λ r. r.2) (sym h)

decoded-ok :
    {V W : Type 0} (json : Json) (raw : Option Text) (m : HistoryMessage) (w w' : W) (es : List V)
    → decoded json raw w ≡ (ok m, es, w')
    → (message_of json raw ≡ some m) × (w' ≡ w)
unfolding decoded
decoded-ok json none m w w' es h = cc
decoded-ok {V} {W} json (some raw) m w w' es h = ground arith

module _ (json : Json) (run : Text) where
  fold_saved :
      {Clean : HistoryMessage → Type 0} (laws : JsonLaws json Clean) (lo hi summary : Text)
      (ms : List HistoryMessage) (new id : Text) (v v' : View)
      → Clean (folded id lo hi summary)
      → IsGood json run v
      → ms ≡ hidden_of json (hash_of json run v) (in_range lo hi (order_of json run v))
      → new ≡ id
      → v' ≡ apply_all (save_all json run ms ++ save_new json run (folded new lo hi summary)) v
      → Becomes json run v' (put (folded id lo hi summary) (hide_range lo hi (messages json run v)))
  unfolding folded
  fold_saved laws lo hi summary ms new id v v' clean good is_ms same applied =
      let target = put (folded id lo hi summary) (hide_range lo hi (messages json run v)) in
      let one : v'
          ≡ apply_all
              (save_all json run
                  (hidden_of json (hash_of json run v) (in_range lo hi (order_of json run v)))
                ++ save_new json run (folded id lo hi summary))
              v =
        applied
        ∙ (ap
              (λ i.
                apply_all (save_all json run ms ++ save_new json run (folded i lo hi summary)) v)
              same
            ∙ ap
                (λ x.
                  apply_all (save_all json run x ++ save_new json run (folded id lo hi summary)) v)
                is_ms) in
      subst (λ u. Becomes json run u target) (sym one)
        (fold-Becomes json run laws v lo hi (folded id lo hi summary) clean good)

  fold_loaded :
      (lo hi summary : Text) (ids : List Text) (ms : List HistoryMessage) (v v2 v3 v' : View)
      (id : Text)
      → IsGood json run v
      → ids ≡ in_range lo hi (order_of json run v)
      → v2 ≡ v
      → v3 ≡ v
      → ms ≡ hidden_of json (hash_of json run v2) ids
      → (IsGood json run v3
          → ms ≡ hidden_of json (hash_of json run v3) (in_range lo hi (order_of json run v3))
          → Becomes json run v'
              (put (folded id lo hi summary) (hide_range lo hi (messages json run v3))))
      → Becomes json run v' (put (folded id lo hi summary) (hide_range lo hi (messages json run v)))
  fold_loaded lo hi summary ids ms v v2 v3 v' id good value e2 e3 is_ms saved =
      subst
        (λ u.
          Becomes json run v'
            (put (folded id lo hi summary) (hide_range lo hi (messages json run u))))
        e3
        (saved (subst (IsGood json run) (sym e3) good) (
          is_ms
          ∙ (ap (λ u. hidden_of json (hash_of json run u) ids) (e2 ∙ sym e3)
              ∙ (ap (hidden_of json (hash_of json run v3))
                  (value ∙ ap (λ u. in_range lo hi (order_of json run u)) (sym e3))))))

module _ {V W : Type 0} (json : Json) (redis : Redis W) (new_run_id : W → Text × W)
    (view : W → View) (obeys : Obeys redis view) (run : Text) where
  pub load-ok :
      (id : Text) (w w' : W) (m : HistoryMessage) (es : List V)
      → load json redis new_run_id run id w ≡ (ok m, es, w')
      → (message_of json (hash_of json run (view w) id) ≡ some m) × (view w' ≡ view w)
  unfolding load
  load-ok id w w' m es h =
      let (raw, fs, v, gs, read, dec) =
        >>=-ok (command [] (redis.hget (history_msgs run) id)) (decoded json) w h in
      let (value, same) =
        obeys.hget_reads (history_msgs run) id w
          (command-ok [] (redis.hget (history_msgs run) id) w v raw fs read) in
      let (is_m, stays) = decoded-ok json raw m v w' gs dec in
      (subst (λ r. message_of json r ≡ some m) value is_m, ap view stays ∙ same)

  load_hidden-ok :
      (ids : List Text) (w w' : W) (ms : List HistoryMessage) (es : List V)
      → load_hidden json redis new_run_id run ids w ≡ (ok ms, es, w')
      → (ms ≡ hidden_of json (hash_of json run (view w)) ids) × (view w' ≡ view w)
  unfolding load_hidden
  load_hidden-ok [] w w' ms es h = ground arith
  load_hidden-ok (id ∷ ids) w w' ms es h =
      let (m, fs, v, gs, loaded, rest) = >>=-ok (load json redis new_run_id run id) _ w h in
      let (is_m, same) = load-ok id w v m fs loaded in
      let (ns, ks, u, ls, others, last) =
        >>=-ok (load_hidden json redis new_run_id run ids) _ v rest in
      let (hid, same') = load_hidden-ok ids v u ns ks others in
      let hid' = hid ∙ ap (λ x. hidden_of json (hash_of json run x) ids) same in
      (ground (arith, is_m, hid'), ground (arith, ap view (ap (λ r. r.2) last)))

  module _ {Clean : HistoryMessage → Type 0} (laws : JsonLaws json Clean)
      (keeps : (w : W) → view (new_run_id w).1 ≡ view w) where
    pub append_as-ok :
        (m : HistoryMessage) (w w' : W) (id : Text) (es : List V)
        → Clean (appended m)
        → IsGood json run (view w)
        → append_as json redis new_run_id run m w ≡ (ok id, es, w')
        → (id ≡ m.id) × Becomes json run (view w') (put (appended m) (messages json run (view w)))
    unfolding append_as appended
    append_as-ok m w w' id es clean good h =
        let cs = save_new json run (appended m) in
        let (t, fs, v, gs, wrote, last) =
          >>=-ok (command (codes "append: ") (redis.exec cs)) _ w h in
        let applied =
          obeys.exec_applies cs w (command-ok (codes "append: ") (redis.exec cs) w v tt fs wrote) in
        let same : v ≡ w' = ap (λ r. r.2) last in
        (
          cc last,
          subst (λ u. Becomes json run u (put (appended m) (messages json run (view w))))
              (sym applied ∙ ap view same)
              (save_new-Becomes json run laws (view w) good (appended m) clean),
        )

    pub change-ok :
        (id : Text) (f : HistoryMessage → HistoryMessage) (w w' : W) (es : List V)
        → ((m : HistoryMessage) → Clean m → Clean (f m))
        → ((m : HistoryMessage) → (f m).id ≡ m.id)
        → IsGood json run (view w)
        → change json redis new_run_id run id f w ≡ (ok tt, es, w')
        → Becomes json run (view w') (modify id f (messages json run (view w)))
    unfolding change
    change-ok id f w w' es cleans same good h =
        let (m, fs, v, gs, loaded, rest) = >>=-ok (load json redis new_run_id run id) _ w h in
        let (is_m, stays) = load-ok id w v m fs loaded in
        let cs = save json run (f m) ∷ [] in
        let applied = obeys.exec_applies cs v (command-ok [] (redis.exec cs) v w' tt gs rest) in
        subst (λ u. Becomes json run u (modify id f (messages json run (view w))))
          (sym (applied ∙ ap (apply_all cs) stays))
          (save-Becomes json run laws (view w) good id m f
            (cleans m (message_of-clean json laws (hash_of json run (view w) id) m is_m)) is_m
            (same m))

    fold_save-ok :
        (lo hi summary : Text) (ms : List HistoryMessage) (w w' : W) (id : Text) (es : List V)
        → Clean (folded id lo hi summary)
        → IsGood json run (view w)
        → ms
          ≡ hidden_of json (hash_of json run (view w)) (in_range lo hi (order_of json run (view w)))
        → fold_save json redis new_run_id run lo hi summary ms w ≡ (ok id, es, w')
        → Becomes json run
            (view w')
            (put (folded id lo hi summary) (hide_range lo hi (messages json run (view w))))
    unfolding fold_save
    fold_save-ok lo hi summary ms w w' id es clean good is_ms h =
        let (new, es1, v, es2, called, h1) = >>=-ok (call new_run_id) _ w h in
        let cs = save_all json run ms ++ save_new json run (folded new lo hi summary) in
        let (t, es3, u, es4, wrote, last) =
          >>=-ok (command (codes "fold: ") (redis.exec cs)) _ v h1 in
        let applied =
          obeys.exec_applies cs v (command-ok (codes "fold: ") (redis.exec cs) v u tt es3 wrote) in
        let (same, stays) = pure-ok new id u w' es4 last in
        let unread : view v ≡ view w = ap (λ r. view r.2) (sym called) ∙ keeps w in
        fold_saved json run laws lo hi summary ms new id (view w) (view w') clean good is_ms same
          (ap view (sym stays) ∙ (applied ∙ ap (apply_all cs) unread))

    pub fold_range-ok :
        (lo hi summary : Text) (w w' : W) (id : Text) (es : List V)
        → Clean (folded id lo hi summary)
        → IsGood json run (view w)
        → fold_range json redis new_run_id run lo hi summary w ≡ (ok id, es, w')
        → Becomes json run
            (view w')
            (put (folded id lo hi summary) (hide_range lo hi (messages json run (view w))))
    unfolding fold_range
    fold_range-ok lo hi summary w w' id es clean good h =
        let range = redis.zrange (history_order run) lo hi in
        let (ids, es1, w1, es2, read, h1) = >>=-ok (command [] range) _ w h in
        let (value, same1) =
          obeys.zrange_reads (history_order run) lo hi w (command-ok [] range w w1 ids es1 read) in
        let (t, es3, w2, es4, some_ids, h2) = >>=-ok (found ids) _ w1 h1 in
        let same2 = ap view (found-ok ids w1 w2 es3 some_ids) ∙ same1 in
        let (ms, es5, w3, es6, loaded, h3) =
          >>=-ok (load_hidden json redis new_run_id run ids) _ w2 h2 in
        let (is_ms, same3) = load_hidden-ok ids w2 w3 ms es5 loaded in
        fold_loaded json run lo hi summary ids ms (view w) (view w2) (view w3) (view w') id good
          value same2 (same3 ∙ same2) is_ms
          (λ good3 ms3. fold_save-ok lo hi summary ms w3 w' id es6 clean good3 ms3 h3)
