-- ===== src/History/Tests.antt =====
-- A concrete Redis with a concrete encoding of messages, and runs on it.
use ai_agent_cloud_runtime.Prelude.{
  ℕ, zero, suc, ◌+◌, ◌≡◌, refl, ap, sym, ◌∙◌, Bool, true, false, none, List, [], ◌∷◌, ◌++◌, map,
  Result, ok, err, length, take, drop, take-length_append, drop-length_append, arith, ◌==◌,
}
use ai_agent_cloud_runtime.Prelude.Text.{Text, codes, text_eq, text_lt, is_empty}
use ai_agent_cloud_runtime.Prelude.Maps.{TextMap}
use ai_agent_cloud_runtime.Prelude.Act.{◌>>=◌}
use ai_agent_cloud_runtime.Agent.Types.{HistoryMessage, history_message}
use ai_agent_cloud_runtime.History.Redis.{
  View, Redis, Obeys, apply, apply_all, update, insert_member, in_range,
}
use ai_agent_cloud_runtime.History.Messages.{JsonLaws}
use ai_agent_cloud_runtime.History.Store.{
  Json, command, append, append_as, appended, hidden, fold, fold_range, fold_save, folded, found,
  load, load_hidden, save, save_all, save_new, visible_messages, render, render_ids,
}
use ai_agent_cloud_runtime.History.Messages.{visible_of}
use ai_agent_cloud_runtime.History.Writes.{messages, IsGood, Becomes}
use ai_agent_cloud_runtime.History.Spec.{
  Operation, append_op, fold_op, outcome, perform, perform-outcome, render-visible,
}

put_text : Text → Text → Text
put_text s rest = length s ∷ (s ++ rest)

get_text : Text → Text × Text
get_text [] = ([], [])
get_text (n ∷ r) = (take n r, drop n r)

get_text-put_text : (s rest : Text) → get_text (put_text s rest) ≡ (s, rest)
unfolding get_text put_text
get_text-put_text s rest = rw (take-length_append s rest, drop-length_append s rest)

put_tags : TextMap Text → Text
put_tags [] = []
put_tags ((k, v) ∷ tags) = put_text k (put_text v (put_tags tags))

get_tags : ℕ → Text → TextMap Text
get_tags zero s = []
get_tags (suc n) s =
    let (k, s') = get_text s in let (v, s'') = get_text s' in (k, v) ∷ get_tags n s''

get_tags-put_tags : (tags : TextMap Text) → get_tags (length tags) (put_tags tags) ≡ tags
unfolding get_tags put_tags
get_tags-put_tags [] = refl
get_tags-put_tags ((k, v) ∷ tags) =
    rw (get_text-put_text k (put_text v (put_tags tags)), get_text-put_text v (put_tags tags))
      (ap (λ r. (k, v) ∷ r) (get_tags-put_tags tags))

flag : Bool → ℕ
flag true = 1
flag false = 0

encode : HistoryMessage → Text
unfolding flag
encode m =
    flag m.visible
    ∷ m.version
    ∷ length m.tags
    ∷ put_text m.id (put_text m.role (put_text m.content (put_text m.parent_id (put_tags m.tags))))

decode_fields : Bool → ℕ → ℕ → Text → HistoryMessage
decode_fields visible version tags s =
    let (id, s1) = get_text s in
    let (role, s2) = get_text s1 in
    let (content, s3) = get_text s2 in
    let (parent, s4) = get_text s3 in
    record {
      id = id;
      role = role;
      content = content;
      visible = visible;
      version = version;
      parent_id = parent;
      tags = get_tags tags s4;
    }

decode : Text → Result Text HistoryMessage
unfolding decode_fields
decode (shown ∷ version ∷ tags ∷ s) = ok (decode_fields (shown == 1) version tags s)
decode _ = err (codes "short")

decode_fields-encode :
    (visible : Bool) (version : ℕ) (id role content parent : Text) (tags : TextMap Text)
    → decode_fields visible version
        (length tags)
        (put_text id (put_text role (put_text content (put_text parent (put_tags tags)))))
      ≡ record {
        id = id;
        role = role;
        content = content;
        visible = visible;
        version = version;
        parent_id = parent;
        tags = tags;
      }
unfolding decode_fields
decode_fields-encode visible version id role content parent tags =
    simp (get_text-put_text, get_tags-put_tags)

flag-back : (b : Bool) → (flag b == 1) ≡ b
unfolding flag
flag-back true = refl
flag-back false = refl

gives_back : (m : HistoryMessage) → decode (encode m) ≡ ok m
unfolding decode encode
gives_back m = ap ok (
    ap
      (λ b. decode_fields b m.version (length m.tags) (
        put_text m.id
          (put_text m.role (put_text m.content (put_text m.parent_id (put_tags m.tags))))))
      (flag-back m.visible)
    ∙ decode_fields-encode m.visible m.version m.id m.role m.content m.parent_id m.tags)

abbrev json : Json
json = record { marshal = encode; unmarshal = decode }

laws : JsonLaws json (λ m. Unit)
laws = record {
  gives_back = λ m clean. gives_back m;
  decoded_clean = λ raw m e. tt;
  hidden_clean = λ m clean. tt;
}

-- Redis, and the number of the next id.
record World : Type 0 where
  stored : View
  next : ℕ

abbrev redis : Redis World
redis = record {
  exec = λ cs w. (ok tt, record w { stored = apply_all cs w.stored });
  hget = λ k f w. (ok (w.stored.hash k f), w);
  hmget = λ k fs w. (ok (map (w.stored.hash k) fs), w);
  zrange_all = λ k w. (ok (w.stored.order k), w);
  zrange = λ k lo hi w. (ok (in_range lo hi (w.stored.order k)), w);
}

abbrev view : World → View
view w = w.stored

obeys : Obeys redis view
obeys = record {
  exec_applies = λ cs w h. ap view (ap (λ r. r.1) (sym h));
  hget_reads = λ k f w h. ground arith;
  hmget_reads = λ k fs w h. ground arith;
  zrange_all_reads = λ k w h. ground arith;
  zrange_reads = λ k lo hi w h. ground arith;
}

-- ids 109, 110, ...
abbrev new_id : World → Text × World
new_id w = ((109 + w.next) ∷ [], record w { next = suc w.next })

abbrev run : Text
run = codes "r"

abbrev empty : World
empty = record { stored = record { hash = λ k f. none; order = λ k. [] }; next = 0 }

empty-IsGood : IsGood json run (view empty)
empty-IsGood = record { sorted = tt; held = λ x c. absurd (omega arith); listed = λ x m e. cc }

abbrev do_op : Operation → World → Result Text Text × List (Unit {0}) × World
do_op op = perform json redis new_id run op

abbrev first : Operation
first = append_op (history_message (codes "user") (codes "hi") [] [])

abbrev summing : Operation
summing = fold_op (codes "m") (codes "m") (codes "short")

abbrev one : World
one = (do_op first empty).2

one_appended : do_op first empty ≡ (ok (codes "m"), [], one)
unfolding append append_as command is_empty ◌>>=◌
one_appended = refl

one-IsGood : IsGood json run (view one)
one-IsGood =
    (perform-outcome json redis new_id run view obeys laws (λ w. refl) first empty one (codes "m")
      [] tt empty-IsGood one_appended).0

abbrev two : World
two = (do_op summing one).2

one_folded : do_op summing one ≡ (ok (codes "n"), [], two)
unfolding fold append append_as command is_empty ◌>>=◌ load apply_all save_new apply update text_eq
    appended decode encode text_lt fold_range found in_range insert_member load_hidden fold_save
one_folded = refl

perform-outcome_example :
    Becomes json run (view two) (outcome summing (codes "n") (messages json run (view one)))
perform-outcome_example =
    perform-outcome json redis new_id run view obeys laws (λ w. refl) summing one two (codes "n") []
      (tt, tt) one-IsGood one_folded

abbrev shown : List HistoryMessage
shown = folded (codes "n") (codes "m") (codes "m") (codes "short") ∷ []

-- After the fold only the summary is visible.
two_rendered : render json {V = Unit {0}} redis new_id run two ≡ (ok shown, [], two)
unfolding fold append append_as command is_empty ◌>>=◌ load apply_all save_new apply update text_eq
    appended decode encode text_lt fold_range found in_range insert_member load_hidden fold_save
    save_all save hidden get_text put_text put_tags get_tags render render_ids visible_messages
    decode_fields folded
two_rendered = refl

render-visible_example : (shown ≡ visible_of (messages json run (view two))) × (view two ≡ view two)
render-visible_example =
    render-visible json redis new_id run view obeys two two shown [] two_rendered
