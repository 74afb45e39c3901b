-- ===== src/History/Keeps.antt =====
-- The invariant of the hash and the sorted set of a run, and the writes that keep it.
use ai_agent_cloud_runtime.Prelude.{
  ◌<◌, ◌≡◌, refl, ap, sym, ◌∙◌, ◌⊎◌, true, ◌&&◌, ltb, Option, some, List, Bool-cases, inl, inr,
  arith,
}
use mathlib.Core.Path.{subst}
use ai_agent_cloud_runtime.Prelude.Text.{Text, text_eq, text_eq_iff}
use ai_agent_cloud_runtime.Prelude.Counts.{count}
use ai_agent_cloud_runtime.Agent.Types.{HistoryMessage}
use ai_agent_cloud_runtime.History.Redis.{update, in_range, insert_member}
use ai_agent_cloud_runtime.History.Store.{Json, hidden}
use ai_agent_cloud_runtime.History.Messages.{
  JsonLaws, message_of-clean, Sorted, message_of, IsKeyed, insert_member-Sorted,
  count-insert_member, count-insert_member_self, count-insert_member_le, count-in_range,
}
use ai_agent_cloud_runtime.History.Changes.{written, hidden_of, written-hidden_of, written-other}

-- The ids stand once and in order, each has a message with this id, and no other field has one.
pub record Inv (json : Json) (h : Text → Option Text) (order : List Text) : Type 0 where
  pub sorted : Sorted order
  pub held : (x : Text) → 0 < count x order → IsKeyed json h x
  pub listed : (x : Text) (m : HistoryMessage) → message_of json (h x) ≡ some m → 0 < count x order

module _ (json : Json) {Clean : HistoryMessage → Type 0} (laws : JsonLaws json Clean)
    (h : Text → Option Text) (order : List Text) (inv : Inv json h order) where
  -- the message of an id has this id
  pub loaded-id : (x : Text) (m : HistoryMessage) → message_of json (h x) ≡ some m → m.id ≡ x
  loaded-id x m e =
      let (m', held, same) = inv.held x (inv.listed x m e) in ground (arith, e, held, same)

  saved-IsKeyed :
      (id : Text) (m : HistoryMessage) (x : Text)
      → Clean m
      → m.id ≡ id
      → (text_eq id x ≡ true) ⊎ IsKeyed json h x
      → IsKeyed json (update id (some (json.marshal m)) h) x
  unfolding update
  saved-IsKeyed id m x clean named k = elim (Bool-cases (text_eq id x)) [
    | inl same ↦
        (m, ground (arith, same, laws.gives_back m clean), named ∙ (text_eq_iff id x).0 same)
    | inr other ↦ elim k [
      | inl same ↦ absurd (cc)
      | inr (mx, held, same) ↦ (mx, ground (arith, other, held), same)
    ]
  ]

  saved-listed :
      (id raw x : Text) (m : HistoryMessage)
      → message_of json (update id (some raw) h x) ≡ some m
      → (id ≡ x) ⊎ (0 < count x order)
  unfolding update
  saved-listed id raw x m e = elim (Bool-cases (text_eq id x)) [
    | inl same ↦ inl ((text_eq_iff id x).0 same)
    | inr other ↦ inr (inv.listed x m (rw other at e))
  ]

  -- `Append` and the summary of `Fold`
  pub put-Inv :
      (m : HistoryMessage)
      → Clean m
      → Inv json (update m.id (some (json.marshal m)) h) (insert_member m.id order)
  put-Inv m clean = record {
    sorted = insert_member-Sorted m.id order inv.sorted;
    held = λ x c. saved-IsKeyed m.id m x clean refl (elim (count-insert_member x m.id order c) [
      | inl same ↦ inl same
      | inr old ↦ inr (inv.held x old)
    ]);
    listed = λ x m' e. elim (saved-listed m.id (json.marshal m) x m' e) [
      | inl same ↦
          subst (λ y. 0 < count y (insert_member m.id order)) same
            (count-insert_member_self m.id order)
      | inr old ↦ count-insert_member_le x m.id order old
    ];
  }

  -- `Patch` and `Hide`
  pub change-Inv :
      (id : Text) (m m' : HistoryMessage)
      → Clean m'
      → message_of json (h id) ≡ some m
      → m'.id ≡ id
      → Inv json (update id (some (json.marshal m')) h) order
  change-Inv id m m' clean e same = record {
    sorted = inv.sorted;
    held = λ x c. saved-IsKeyed id m' x clean same (inr (inv.held x c));
    listed = λ x mx ex. elim (saved-listed id (json.marshal m') x mx ex) [
      | inl this ↦ subst (λ y. 0 < count y order) this (inv.listed id m e)
      | inr old ↦ old
    ];
  }

  module _ (lo hi : Text) where
    abbrev chosen : List Text
    chosen = in_range lo hi order

    chosen-IsKeyed : (y : Text) → 0 < count y chosen → IsKeyed json h y
    chosen-IsKeyed y c = inv.held y (ground (arith, count-in_range y lo hi order))

    hidden-IsKeyed :
        (x : Text) (m : HistoryMessage)
        → message_of json (h x) ≡ some m
        → m.id ≡ x
        → IsKeyed json (written json (hidden_of json h chosen) h) x
    unfolding hidden
    hidden-IsKeyed x m e same =
        let hidden_too = laws.hidden_clean m (message_of-clean json laws (h x) m e) in
        let wrote = written-hidden_of json laws h chosen h x m e same chosen-IsKeyed in
        elim (Bool-cases (ltb 0 (count x chosen) && m.visible)) [
          | inl hides ↦
              (hidden m, ground (arith, wrote, hides, laws.gives_back (hidden m) hidden_too), same)
          | inr keeps ↦ (m, ground (arith, wrote, keeps, e), same)
        ]

    -- the hidden messages of `Fold`
    pub hidden-Inv : Inv json (written json (hidden_of json h chosen) h) order
    hidden-Inv = record {
      sorted = inv.sorted;
      held = λ x c. let (m, held, same) = inv.held x c in hidden-IsKeyed x m held same;
      listed = λ x m e. elim (Bool-cases (ltb 0 (count x chosen))) [
        | inl inside ↦ ground (arith, count-in_range x lo hi order)
        | inr outside ↦ inv.listed x m (
            ap (message_of json)
              (sym (written-other json laws h chosen h x (ground arith) chosen-IsKeyed))
            ∙ e)
      ];
    }
