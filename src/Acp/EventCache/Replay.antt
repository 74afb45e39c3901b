-- ===== src/Acp/EventCache/Replay.antt =====
-- What a replay reads back, whatever the payloads are.
use ai_agent_cloud_runtime.Prelude.{
  suc, ◌≤◌, Option, none, if◌then◌else◌, ℕ, ◌<◌, ◌^◌, ◌-◌, ◌≡◌, refl, ap, some, List, [], ◌∷◌, ◌++◌,
  map, length, length-append, take-length_append, drop-length_append, All, false, ltb, ok, arith,
}
use ai_agent_cloud_runtime.Acp.Codec.{put_uint64}
use ai_agent_cloud_runtime.Acp.Codec.RoundTrip.{uint64_be-put_uint64}
use ai_agent_cloud_runtime.Prelude.Text.{Text}
use ai_agent_cloud_runtime.Acp.EventCache.{
  CachedEvent, SortedSets, cache_key, encode_member, decode_member, decode_members, append_event,
  replay,
}

length-put_uint64 : (v : ℕ) → length (put_uint64 v) ≡ 8
unfolding put_uint64
length-put_uint64 v = refl

length-less_eight :
    (v : ℕ) (payload : List ℕ) → length (payload ++ put_uint64 v) - 8 ≡ length payload
length-less_eight v payload =
    omega (arith, length-append payload (put_uint64 v), length-put_uint64 v)

decode_member-encode_member :
    (ev : CachedEvent) → ev.seq < 2 ^ 64 → decode_member (encode_member ev.seq ev.payload) ≡ some ev
unfolding decode_member encode_member
decode_member-encode_member ev h =
    let v = ev.seq in
    let enough : ltb (length (ev.payload ++ put_uint64 v)) 8 ≡ false =
      ground (arith, length-append ev.payload (put_uint64 v), length-put_uint64 v) in
    rw
      (
        enough,
        length-less_eight v ev.payload,
        drop-length_append ev.payload (put_uint64 v),
        take-length_append ev.payload (put_uint64 v),
        uint64_be-put_uint64 v h,
      )
      refl

abbrev pub encode_event : CachedEvent → List ℕ
encode_event ev = encode_member ev.seq ev.payload

decode_members-encode_member :
    (evs : List CachedEvent)
    → All (λ ev. ev.seq < 2 ^ 64) evs
    → decode_members (map encode_event evs) ≡ evs
unfolding decode_members
decode_members-encode_member [] h = refl
decode_members-encode_member (ev ∷ evs) h =
    rw (decode_members, decode_member-encode_member ev h.0)
      (ap (λ r. ev ∷ r) (decode_members-encode_member evs h.1))

-- Where Redis answers with the members that `Append` made from some events, in their order, and
-- their sequence numbers are uint64s, `Replay` returns exactly those events: no payload, not even
-- an empty one or one that ends like a sequence number, is mistaken.
pub replay-encode_member :
    {W : Type 0} (sets : SortedSets W) (run_id : Text) (since_seq : ℕ) (w : W)
    (evs : List CachedEvent)
    → All (λ ev. ev.seq < 2 ^ 64) evs
    → (sets.zrangebyscore (cache_key run_id) since_seq w).0 ≡ ok (map encode_event evs)
    → (replay sets run_id since_seq w).0 ≡ ok evs
unfolding replay
replay-encode_member sets run_id since_seq w evs u64 answer =
    rw answer (ap ok (decode_members-encode_member evs u64))

abbrev pub or_failed : {W : Type 0} → Option Text → W → Option Text × W → Option Text × W
or_failed none w rest = rest
or_failed (some e) w rest = (some e, w)

-- `Append` of some events, up to the first error
unfoldable pub append_all :
    {W : Type 0} → SortedSets W → (run_id : Text) → List CachedEvent → W → Option Text × W
append_all sets run_id [] w = (none, w)
append_all sets run_id (ev ∷ evs) w =
    let (e, w') = append_event sets run_id ev.seq ev.payload w in
    or_failed e w' (append_all sets run_id evs w')

-- Rising sequence numbers from a bound on, which a float64 holds exactly.
abbrev pub Rising : ℕ → List CachedEvent → Type 0
Rising low [] = Unit
Rising low (ev ∷ evs) = (low ≤ ev.seq) × (ev.seq ≤ 2 ^ 53) × Rising (suc ev.seq) evs

-- The events after a sequence number.
abbrev pub later_events : ℕ → List CachedEvent → List CachedEvent
later_events since [] = []
later_events since (ev ∷ evs) =
    let rest = later_events since evs in if ltb since ev.seq then ev ∷ rest else rest

abbrev pub members_above : ℕ → List (ℕ × Text) → List Text
members_above above [] = []
members_above above ((score, member) ∷ ms) =
    let rest = members_above above ms in if ltb above score then member ∷ rest else rest

-- What the cache relies on: `members` are those of a key with their scores, in their order; `ZADD` puts
-- one with a score above all others last, and `ZRANGEBYSCORE` returns those above a bound.
pub record SortedSetLaws {W : Type 0} (sets : SortedSets W) : Type 0 where
  pub members : Text → W → List (ℕ × Text)
  pub zadd_last :
      (key : Text) (score : ℕ) (member : Text) (w : W)
      → All (λ x. x.0 < score) (members key w)
      → (sets.zadd key score member w).0 ≡ none
      → members key (sets.zadd key score member w).1 ≡ members key w ++ (score, member) ∷ []
  pub zrangebyscore_above :
      (key : Text) (above : ℕ) (w : W) (ms : List Text)
      → (sets.zrangebyscore key above w).0 ≡ ok ms
      → ms ≡ members_above above (members key w)

scored : List CachedEvent → List (ℕ × Text)
scored = map (λ ev. (ev.seq, encode_event ev))

module _ {W : Type 0} (sets : SortedSets W) (laws : SortedSetLaws sets) (run_id : Text) where
  abbrev held : W → List (ℕ × Text)
  held = laws.members (cache_key run_id)
