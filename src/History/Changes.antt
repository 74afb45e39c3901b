-- ===== src/History/Changes.antt =====
-- How writes to the hash of a run change the list of its messages.
use ai_agent_cloud_runtime.Prelude.{
  ◌<◌, ◌≡◌, refl, ◌&&◌, ltb, Option, none, some, List, [], ◌∷◌, if◌then◌else◌, arith,
}
use ai_agent_cloud_runtime.Prelude.Text.{Text, text_eq_iff, text_eq_refl}
use ai_agent_cloud_runtime.Prelude.Counts.{count}
use ai_agent_cloud_runtime.Agent.Types.{HistoryMessage}
use ai_agent_cloud_runtime.History.Redis.{update, in_range}
use ai_agent_cloud_runtime.History.Store.{Json, hidden}
use ai_agent_cloud_runtime.History.Messages.{
  JsonLaws, message_of-clean, modify, hide_range, message_of, entries, IsKeyed, count-in_range,
}

module _ (json : Json) where
  -- the fields of some messages, written one after the other
  abbrev pub written : List HistoryMessage → (Text → Option Text) → Text → Option Text
  written [] h = h
  written (m ∷ ms) h = written ms (update m.id (some (json.marshal m)) h)

  abbrev pub push_hidden : Option HistoryMessage → List HistoryMessage → List HistoryMessage
  push_hidden none ms = ms
  push_hidden (some m) ms = if m.visible then hidden m ∷ ms else ms

  -- the visible messages of some ids, hidden
  abbrev pub hidden_of : (Text → Option Text) → List Text → List HistoryMessage
  hidden_of h [] = []
  hidden_of h (id ∷ ids) = push_hidden (message_of json (h id)) (hidden_of h ids)

  module _ {Clean : HistoryMessage → Type 0} (laws : JsonLaws json Clean)
      (h : Text → Option Text) where
    -- A message that is changed in place is changed in the list.
    pub entries-modify :
        (f : HistoryMessage → HistoryMessage) (id : Text) (m : HistoryMessage) (ids : List Text)
        → Clean (f m)
        → message_of json (h id) ≡ some m
        → ((x : Text) → 0 < count x ids → IsKeyed json h x)
        → entries json (update id (some (json.marshal (f m))) h) ids
          ≡ modify id f (entries json h ids)
    unfolding update
    entries-modify f id m [] clean e k = refl
    entries-modify f id m (x ∷ ids) clean e k =
        let (mx, held, same) = k x (ground (arith, text_eq_refl x)) in
        ground (
          arith,
          e,
          held,
          same,
          text_eq_iff id x,
          laws.gives_back (f m) clean,
          entries-modify f id m ids clean e (λ y c. k y (omega arith)),
        )

    -- what the field of `x` holds after the writes of `Fold`
    pub written-hidden_of :
        (ids : List Text) (g : Text → Option Text) (x : Text) (m : HistoryMessage)
        → message_of json (h x) ≡ some m
        → m.id ≡ x
        → ((y : Text) → 0 < count y ids → IsKeyed json h y)
        → written (hidden_of h ids) g x
          ≡ (if ltb 0 (count x ids) && m.visible then some (json.marshal (hidden m)) else g x)
    unfolding update hidden
    written-hidden_of [] g x m e i k = refl
    written-hidden_of (y ∷ ids) g x m e i k =
        let (my, held, same) = k y (ground (arith, text_eq_refl y)) in
        let g' = update y (some (json.marshal (hidden my))) g in
        ground (
          arith,
          e,
          i,
          held,
          same,
          text_eq_iff y x,
          written-hidden_of ids g x m e i (λ z c. k z (omega arith)),
          written-hidden_of ids g' x m e i (λ z c. k z (omega arith)),
        )

    -- The writes of `Fold` hide the visible messages of the range.
    pub entries-hide_range :
        (lo hi : Text) (order ids : List Text)
        → ((y : Text) → 0 < count y order → IsKeyed json h y)
        → ((y : Text) → 0 < count y ids → 0 < count y order)
        → entries json (written (hidden_of h (in_range lo hi order)) h) ids
          ≡ hide_range lo hi (entries json h ids)
    unfolding hidden
    entries-hide_range lo hi order [] k sub = refl
    entries-hide_range lo hi order (x ∷ ids) k sub =
        let inside : 0 < count x order = sub x (ground (arith, text_eq_refl x)) in
        let (mx, held, same) = k x inside in
        let chosen = in_range lo hi order in
        let keyed : (y : Text) → 0 < count y chosen → IsKeyed json h y =
          λ y c. k y (ground (arith, count-in_range y lo hi order)) in
        ground (
          arith,
          held,
          same,
          inside,
          count-in_range x lo hi order,
          written-hidden_of chosen h x mx held same keyed,
          laws.gives_back (hidden mx)
              (laws.hidden_clean mx (message_of-clean json laws (h x) mx held)),
          entries-hide_range lo hi order ids k (λ y c. sub y (omega arith)),
        )

    pub written-other :
        (ids : List Text) (g : Text → Option Text) (x : Text)
        → count x ids ≡ 0
        → ((y : Text) → 0 < count y ids → IsKeyed json h y)
        → written (hidden_of h ids) g x ≡ g x
    unfolding update hidden
    written-other [] g x c k = refl
    written-other (y ∷ ids) g x c k =
        let (my, held, same) = k y (ground (arith, text_eq_refl y)) in
        let g' = update y (some (json.marshal (hidden my))) g in
        ground (
          arith,
          held,
          same,
          written-other ids g x (omega arith) (λ z e. k z (omega arith)),
          written-other ids g' x (omega arith) (λ z e. k z (omega arith)),
        )
