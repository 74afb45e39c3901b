-- ===== src/History/Messages.antt =====
-- The messages of a run as one list in the order of their ids: what internal/history promises of each
-- operation, and how a hash and a sorted set stand for such a list.
use ai_agent_cloud_runtime.Prelude.{
  ◌++◌, Result-cases, inl, inr, ◌+◌, ◌%◌, ◌^◌, ◌<◌, ◌≡◌, refl, ◌⊎◌, Bool, true, false, not, ◌&&◌,
  Option, none, some, List, [], ◌∷◌, All, ok, err, if◌then◌else◌, arith,
}
use ai_agent_cloud_runtime.Prelude.Text.{Text, text_eq, text_eq_iff, text_lt, text_eq_refl}
use ai_agent_cloud_runtime.Prelude.TextOrder.{text_lt_irrefl, text_lt_trans, text_lt_total}
use ai_agent_cloud_runtime.Prelude.Counts.{count}
use ai_agent_cloud_runtime.Agent.Types.{HistoryMessage}
use ai_agent_cloud_runtime.History.Redis.{insert_member, update, in_range}
use ai_agent_cloud_runtime.History.Store.{Json, hidden}

-- The list with a message in its place; a message with its id is replaced.
abbrev pub put : HistoryMessage → List HistoryMessage → List HistoryMessage
put m [] = m ∷ []
put m (x ∷ xs) =
    if text_eq x.id m.id then m ∷ xs else if text_lt x.id m.id then x ∷ put m xs else m ∷ x ∷ xs

-- An id is above those of all messages, as new ids are.
abbrev pub is_last : Text → List HistoryMessage → Bool
is_last id [] = true
is_last id (x ∷ xs) = text_lt x.id id && is_last id xs

pub put-last :
    (m : HistoryMessage) (xs : List HistoryMessage)
    → is_last m.id xs ≡ true
    → put m xs ≡ xs ++ m ∷ []
put-last m [] h = refl
put-last m (x ∷ xs) h = ground (arith, h, text_eq_iff x.id m.id, text_lt_irrefl x.id, put-last m xs)

-- The list with the message of an id changed.
abbrev pub modify :
    Text → (HistoryMessage → HistoryMessage) → List HistoryMessage → List HistoryMessage
modify id f [] = []
modify id f (x ∷ xs) = (if text_eq id x.id then f x else x) ∷ modify id f xs

abbrev pub within : Text → Text → Text → Bool
within lo hi x = not (text_lt x lo) && not (text_lt hi x)

abbrev pub hide_visible : HistoryMessage → HistoryMessage
hide_visible m =
    if m.visible then record m { visible = false; version = (m.version + 1) % 2 ^ 32 } else m

-- The list with the visible messages of a range hidden.
abbrev pub hide_range : Text → Text → List HistoryMessage → List HistoryMessage
hide_range lo hi [] = []
hide_range lo hi (x ∷ xs) = (if within lo hi x.id then hide_visible x else x) ∷ hide_range lo hi xs

abbrev pub visible_of : List HistoryMessage → List HistoryMessage
visible_of [] = []
visible_of (x ∷ xs) = let rest = visible_of xs in if x.visible then x ∷ rest else rest

-- Ids in strictly increasing order.
abbrev pub Sorted : List Text → Type 0
Sorted [] = Unit
Sorted (x ∷ xs) = All (λ y. text_lt x y ≡ true) xs × Sorted xs

count_above :
    (x z : Text) (ys : List Text)
    → All (λ y. text_lt x y ≡ true) ys
    → text_lt x z ≡ false
    → count z ys ≡ 0
count_above x z [] a h = refl
count_above x z (y ∷ ys) a h = ground (arith, count_above x z ys, text_eq_iff y z)

pub count-insert_member :
    (a m : Text) (xs : List Text)
    → (0 < count a (insert_member m xs))
    → (text_eq m a ≡ true) ⊎ (0 < count a xs)
unfolding insert_member
count-insert_member a m [] h = ground arith
count-insert_member a m (x ∷ xs) h = ground (arith, count-insert_member a m xs)

pub count-insert_member_self : (m : Text) (xs : List Text) → 0 < count m (insert_member m xs)
unfolding insert_member
count-insert_member_self m [] = ground (arith, text_eq_refl m)
count-insert_member_self m (x ∷ xs) = ground (arith, count-insert_member_self m xs, text_eq_refl m)

pub count-insert_member_le :
    (a m : Text) (xs : List Text) → 0 < count a xs → 0 < count a (insert_member m xs)
unfolding insert_member
count-insert_member_le a m [] h = absurd (omega arith)
count-insert_member_le a m (x ∷ xs) h = ground (arith, count-insert_member_le a m xs)

All-insert_member :
    (x m : Text) (ys : List Text)
    → text_lt x m ≡ true
    → All (λ y. text_lt x y ≡ true) ys
    → All (λ y. text_lt x y ≡ true) (insert_member m ys)
unfolding insert_member
All-insert_member x m [] h a = (h, tt)
All-insert_member x m (y ∷ ys) h a = ground (arith, All-insert_member x m ys)

All_lt_trans :
    (m x : Text) (ys : List Text)
    → text_lt m x ≡ true
    → All (λ y. text_lt x y ≡ true) ys
    → All (λ y. text_lt m y ≡ true) ys
All_lt_trans m x [] h a = tt
All_lt_trans m x (y ∷ ys) h a = (text_lt_trans m x y h a.0, All_lt_trans m x ys h a.1)

pub insert_member-Sorted : (m : Text) (xs : List Text) → Sorted xs → Sorted (insert_member m xs)
unfolding insert_member
insert_member-Sorted m [] s = (tt, tt)
insert_member-Sorted m (x ∷ xs) s = ground (
  arith,
  insert_member-Sorted m xs,
  All-insert_member x m xs,
  All_lt_trans m x xs,
  text_lt_total x m,
)

pub count-in_range :
    (a lo hi : Text) (xs : List Text)
    → count a (in_range lo hi xs) ≡ (if within lo hi a then count a xs else 0)
unfolding in_range
count-in_range a lo hi [] = ground arith
count-in_range a lo hi (x ∷ xs) = ground (arith, count-in_range a lo hi xs, text_eq_iff x a)

-- What the store relies on of `encoding/json`, which replaces bytes that are no UTF-8 and sorts the keys of
-- maps: a clean message is read back as it was, and what is read is clean, also hidden.
pub record JsonLaws (json : Json) (Clean : HistoryMessage → Type 0) : Type 0 where
  pub gives_back : (m : HistoryMessage) → Clean m → json.unmarshal (json.marshal m) ≡ ok m
  pub decoded_clean : (raw : Text) (m : HistoryMessage) → json.unmarshal raw ≡ ok m → Clean m
  pub hidden_clean : (m : HistoryMessage) → Clean m → Clean (hidden m)

module _ (json : Json) where
  abbrev pub message_of : Option Text → Option HistoryMessage
  message_of none = none
  message_of (some raw) = elim (json.unmarshal raw) [ ok m ↦ some m | err e ↦ none ]

  pub message_of-clean :
      {Clean : HistoryMessage → Type 0} (laws : JsonLaws json Clean) (o : Option Text)
      (m : HistoryMessage)
      → message_of o ≡ some m
      → Clean m
  message_of-clean laws none m e = absurd (cc)
  message_of-clean {Clean} laws (some raw) m e = elim (Result-cases (json.unmarshal raw)) [
    | inl (m', d) ↦ laws.decoded_clean raw m (ground (arith, d, e))
    | inr (x, d) ↦ absurd (ground (arith, d, e))
  ]

  abbrev pub push : Option HistoryMessage → List HistoryMessage → List HistoryMessage
  push none ms = ms
  push (some m) ms = m ∷ ms

  -- The messages that a hash holds under some ids.
  abbrev pub entries : (Text → Option Text) → List Text → List HistoryMessage
  entries h [] = []
  entries h (id ∷ ids) = push (message_of (h id)) (entries h ids)

  -- The field of an id holds a message with this id.
  abbrev pub IsKeyed : (Text → Option Text) → Text → Type 0
  IsKeyed h id = (m : HistoryMessage) × (message_of (h id) ≡ some m) × (m.id ≡ id)

  pub entries-cong :
      (g h : Text → Option Text) (ids : List Text)
      → ((x : Text) → 0 < count x ids → g x ≡ h x)
      → entries g ids ≡ entries h ids
  entries-cong g h [] e = refl
  entries-cong g h (x ∷ ids) e =
      let head : g x ≡ h x = e x (ground (arith, text_eq_refl x)) in
      rw (head, entries-cong g h ids (λ y k. e y (omega arith)))

  module _ {Clean : HistoryMessage → Type 0} (laws : JsonLaws json Clean) (m : HistoryMessage)
      (clean : Clean m) (h : Text → Option Text) where
    abbrev saved : Text → Option Text
    saved = update m.id (some (json.marshal m)) h

    message_of-saved : message_of (saved m.id) ≡ some m
    unfolding update
    message_of-saved = ground (arith, text_eq_refl m.id, laws.gives_back m clean)

    saved-other : (x : Text) → text_eq m.id x ≡ false → saved x ≡ h x
    unfolding update
    saved-other x e = rw e

    -- behind the place of the id nothing changes
    entries-saved_above :
        (x : Text) (ids : List Text)
        → All (λ y. text_lt x y ≡ true) ids
        → text_lt x m.id ≡ false
        → entries saved ids ≡ entries h ids
    entries-saved_above x ids above e = entries-cong saved h ids λ y k. saved-other y (
        ground (arith, text_eq_iff m.id y, count_above x y ids above, count_above x m.id ids above))

    -- A message saved with its place in the order is put into the list.
    pub entries-put :
        (ids : List Text)
        → Sorted ids
        → ((x : Text) → 0 < count x ids → IsKeyed h x)
        → entries saved (insert_member m.id ids) ≡ put m (entries h ids)
    unfolding insert_member
    entries-put [] s k = ground (arith, message_of-saved)
    entries-put (x ∷ ids) s k =
        let (mx, held, same) = k x (ground (arith, text_eq_refl x)) in
        ground (
          arith,
          held,
          same,
          message_of-saved,
          saved-other x,
          text_eq_iff x m.id,
          text_eq_iff m.id x,
          text_lt_irrefl x,
          text_lt_total x m.id,
          entries-saved_above x ids s.0,
          entries-put ids s.1 (λ y c. k y (omega arith)),
        )
