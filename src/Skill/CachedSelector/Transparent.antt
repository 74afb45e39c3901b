-- ===== src/Skill/CachedSelector/Transparent.antt =====
-- The cache answers what the selector behind it answers, or answered shortly before, and keeps to its
-- capacity.
use mathlib.Core.Path.{subst}
use ai_agent_cloud_runtime.Prelude.{
  ℕ, zero, suc, ◌+◌, ◌≤◌, ◌<◌, ◌≡◌, refl, ◌⊎◌, inl, inr, Option, none, some, List, [], ◌∷◌, Result,
  ok, err, length, ltb, ◌==◌, Bool-cases, arith,
}
use ai_agent_cloud_runtime.Prelude.Text.{Text, text_eq, text_eq_iff, text_eq_refl}
use ai_agent_cloud_runtime.Prelude.Maps.{
  TextMap, lookup, insert, delete, lookup-insert, lookup-delete,
}
use ai_agent_cloud_runtime.Skill.CachedSelector.{
  Skill, CacheEntry, oldest_from, oldest_key, evict, evict_locked, remember, ask, answer, select,
}

-- Every entry fulfils a condition.
abbrev pub Valid : (Text → CacheEntry → Type 0) → TextMap CacheEntry → Type 0
Valid R m = (k : Text) (e : CacheEntry) → lookup k m ≡ some e → R k e

module _ (R : Text → CacheEntry → Type 0) where
  delete-Valid : (k : Text) (m : TextMap CacheEntry) → Valid R m → Valid R (delete k m)
  delete-Valid k m v j e h = v j e (ground (arith, lookup-delete k j m, h))

  insert-Valid :
      (k : Text) (e : CacheEntry) (m : TextMap CacheEntry)
      → R k e
      → Valid R m
      → Valid R (insert k e m)
  insert-Valid k e m r v j e' h = elim (Bool-cases (text_eq k j)) [
    | inl same ↦
        let here : e ≡ e' = ground (arith, lookup-insert k j e m, h, same) in
        subst (λ x. R x e') ((text_eq_iff k j).0 same) (subst (R k) here r)
    | inr other ↦ v j e' (ground (arith, lookup-insert k j e m, h, other))
  ]

  evict-Valid : (fuel n : ℕ) (m : TextMap CacheEntry) → Valid R m → Valid R (evict fuel n m)
  unfolding evict
  evict-Valid zero n m v = v
  evict-Valid (suc fuel) n m v = elim (Bool-cases (ltb n (length m))) [
    | inl more ↦ rw more (evict-Valid fuel n _ (delete-Valid (oldest_key m) m v))
    | inr fits ↦ rw fits v
  ]

absent : (k : Text) (m : TextMap CacheEntry) → length (delete k m) ≤ length m
unfolding delete
absent k [] = omega arith
absent k ((j, e) ∷ m) = ground (arith, absent k m)

delete-cons :
    (k j : Text) (e : CacheEntry) (m : TextMap CacheEntry)
    → length (delete k ((j, e) ∷ m)) ≤ suc (length (delete k m))
unfolding delete
delete-cons k j e m = ground arith

delete-head :
    (k j : Text) (e : CacheEntry) (m : TextMap CacheEntry)
    → k ≡ j
    → length (delete k ((j, e) ∷ m)) ≤ length m
unfolding delete
delete-head k j e m h = ground (arith, absent k m, text_eq_refl j)

abbrev Removes : Text → TextMap CacheEntry → Type 0
Removes k m = length (delete k m) < length m

oldest_from-key :
    (key : Text) (oldest : ℕ) (m : TextMap CacheEntry)
    → (oldest_from key oldest m ≡ key) ⊎ Removes (oldest_from key oldest m) m
unfolding oldest_from
oldest_from-key key oldest [] = inl refl
oldest_from-key key oldest ((k, ent) ∷ m) = elim (Bool-cases (ltb ent.hit_at oldest)) [
  | inl older ↦ rw older (inr (newer (oldest_from-key k ent.hit_at m)))
  | inr younger ↦ rw younger (same (oldest_from-key key oldest m))
]
  where
    newer :
        (oldest_from k ent.hit_at m ≡ k) ⊎ Removes (oldest_from k ent.hit_at m) m
        → Removes (oldest_from k ent.hit_at m) ((k, ent) ∷ m)
    newer (inl e) = omega (arith, delete-head (oldest_from k ent.hit_at m) k ent m e)
    newer (inr r) = omega (arith, delete-cons (oldest_from k ent.hit_at m) k ent m)

    same :
        (oldest_from key oldest m ≡ key) ⊎ Removes (oldest_from key oldest m) m
        → (oldest_from key oldest m ≡ key) ⊎ Removes (oldest_from key oldest m) ((k, ent) ∷ m)
    same (inl e) = inl e
    same (inr r) = inr (omega (arith, delete-cons (oldest_from key oldest m) k ent m))

oldest_key-Removes : (m : TextMap CacheEntry) → 0 < length m → Removes (oldest_key m) m
unfolding oldest_key
oldest_key-Removes [] h = absurd (omega arith)
oldest_key-Removes ((k, ent) ∷ m) h = go (oldest_from-key k ent.hit_at m)
  where
    go :
        (oldest_from k ent.hit_at m ≡ k) ⊎ Removes (oldest_from k ent.hit_at m) m
        → Removes (oldest_from k ent.hit_at m) ((k, ent) ∷ m)
    go (inl e) = omega (arith, delete-head (oldest_from k ent.hit_at m) k ent m e)
    go (inr r) = omega (arith, delete-cons (oldest_from k ent.hit_at m) k ent m)

evict-length :
    (fuel n : ℕ) (m : TextMap CacheEntry) → length m ≤ n + fuel → length (evict fuel n m) ≤ n
unfolding evict
evict-length zero n m h = omega arith
evict-length (suc fuel) n m h = elim (Bool-cases (ltb n (length m))) [
  | inl more ↦
      rw more (evict-length fuel n (delete (oldest_key m) m) (ground (arith, oldest_key-Removes m)))
  | inr fits ↦ rw fits (ground arith)
]

insert-length :
    (k : Text) (e e' : CacheEntry) (m : TextMap CacheEntry)
    → lookup k m ≡ some e'
    → length (insert k e m) ≡ length m
unfolding insert lookup
insert-length k e e' [] h = cc
insert-length k e e' ((j, e'') ∷ m) h = ground (arith, insert-length k e e' m)

-- What is claimed of a cache with room for `n` entries.
abbrev pub IsCache : (Text → CacheEntry → Type 0) → ℕ → TextMap CacheEntry → Type 0
IsCache R n m = Valid R m × (length m ≤ n)

evict_locked-IsCache :
    (R : Text → CacheEntry → Type 0) (n : ℕ) (m : TextMap CacheEntry)
    → Valid R m
    → IsCache R n (evict_locked n m)
unfolding evict_locked
evict_locked-IsCache R n m v =
    (evict-Valid R (length m) n m v, evict-length (length m) n m (omega arith))

hit-IsCache :
    (R : Text → CacheEntry → Type 0) (n : ℕ) (k : Text) (e ent : CacheEntry)
    (m : TextMap CacheEntry)
    → R k e
    → IsCache R n m
    → lookup k m ≡ some ent
    → IsCache R n (insert k e m)
hit-IsCache R n k e ent m r c h =
    (insert-Valid R k e m r c.0, omega (arith, insert-length k e ent m h, c.1))

module _ {W : Type 0} (next : Text → W → Result Text (List Skill) × W) (now : W → ℕ × W)
    (cache_key : Text → Text) (ttl capacity : ℕ) where
  -- `Next` has answered with these skills to a query with this key, when the clock had shown this time.
  abbrev pub Gave : Text → List Skill → ℕ → Type 0
  Gave key skills time =
      (query : Text) × (w : W) × (cache_key query ≡ key)
      × ((now w).0 ≡ time)
      × ((next query (now w).1).0 ≡ ok skills)

  -- The entry holds such an answer, and expires one `TTL` after it.
  abbrev pub IsEntry : Text → CacheEntry → Type 0
  IsEntry key ent = (time : ℕ) × (ent.expires ≡ time + ttl) × Gave key ent.skills time

  abbrev pub Selected : Type 0
  Selected = Result Text (List Skill) × TextMap CacheEntry × W

  -- What `Select` does with a query, a cache and a world.
  pub data Selects (query : Text) (m : TextMap CacheEntry) (w : W) : Selected → Type 0 where
    -- without a cache: the answer of `Next`
    bypassed :
        {out : Selected}
        → (ttl ≡ 0) ⊎ (capacity ≡ 0)
        → out ≡ ((next query w).0, m, (next query w).1)
        → Selects query m w out
    -- with an entry that has not expired: its skills, which `Next` gave less than one `TTL` ago, and
    -- `Next` is not asked
    cached :
        {out : Selected} (ent : CacheEntry) (time : ℕ)
        → lookup (cache_key query) m ≡ some ent
        → (now w).0 < time + ttl
        → Gave (cache_key query) ent.skills time
        → out.0 ≡ ok ent.skills
        → out.2 ≡ (now w).1
        → Selects query m w out
    -- otherwise: the answer of `Next`, and an error changes nothing in the cache
    asked :
        {out : Selected}
        → ((ent : CacheEntry) → lookup (cache_key query) m ≡ some ent → ent.expires ≤ (now w).0)
        → out.0 ≡ (next query (now w).1).0
        → out.2 ≡ (next query (now w).1).1
        → ((e : Text) → out.0 ≡ err e → out.1 ≡ m)
        → Selects query m w out

  abbrev pub Answers : Text → TextMap CacheEntry → W → Selected → Type 0
  Answers query m w out = Selects query m w out × IsCache IsEntry capacity out.1

  remember-IsCache :
      (query : Text) (w : W) (r : Result Text (List Skill)) (m : TextMap CacheEntry)
      → (next query (now w).1).0 ≡ r
      → IsCache IsEntry capacity m
      → IsCache IsEntry capacity
          (remember next now cache_key ttl capacity (cache_key query) (now w).0 r m)
        × ((e : Text)
            → r ≡ err e
            → remember next now cache_key ttl capacity (cache_key query) (now w).0 r m ≡ m)
  unfolding remember
  remember-IsCache query w (err e) m h c = (c, λ e' same. refl)
  remember-IsCache query w (ok skills) m h c = (
    evict_locked-IsCache IsEntry capacity _ (
        insert-Valid IsEntry (cache_key query) _ m ((now w).0, refl, (query, w, refl, refl, h))
          c.0),
    λ e same. absurd (cc),
  )

  ask-Answers :
      (query : Text) (m : TextMap CacheEntry) (w : W)
      → ((ent : CacheEntry) → lookup (cache_key query) m ≡ some ent → ent.expires ≤ (now w).0)
      → IsCache IsEntry capacity m
      → Answers query m w
          (ask next now cache_key ttl capacity (cache_key query) query (now w).0 m (now w).1)
  unfolding ask
  ask-Answers query m w old c =
      let (kept, unchanged) = remember-IsCache query w (next query (now w).1).0 m refl c in
      (asked old refl refl unchanged, kept)

  answer-Answers :
      (o : Option CacheEntry) (query : Text) (m : TextMap CacheEntry) (w : W)
      → lookup (cache_key query) m ≡ o
      → IsCache IsEntry capacity m
      → Answers query m w
          (answer next now cache_key ttl capacity o (cache_key query) query (now w).0 m (now w).1)
  unfolding answer
  answer-Answers none query m w h c = ask-Answers query m w (λ ent e. absurd (cc)) c
  answer-Answers (some ent) query m w h c =
      let (time, expires, gave) = c.0 (cache_key query) ent h in
      elim (Bool-cases (ltb (now w).0 ent.expires)) [
        | inl current ↦ rw current (
          cached ent time h (ground (arith, expires)) gave refl refl,
          hit-IsCache IsEntry capacity (cache_key query) (record ent { hit_at = (now w).0 }) ent m
              (time, expires, gave) c h,
        )
        | inr expired ↦ rw expired (ask-Answers query m w (λ ent' e. ground (arith, h, e)) c)
      ]

  -- Where every entry of the cache was given by `Next` and expires one `TTL` after that, `Select`
  -- returns what `Next` answers now, an error included, or, from an entry that has not expired, what
  -- `Next` gave to the same key less than one `TTL` ago; the entries are such again afterwards, an
  -- error leaves them as they are, and they are no more than the capacity if they were no more before.
  pub select-Answers :
      (query : Text) (m : TextMap CacheEntry) (w : W)
      → IsCache IsEntry capacity m
      → Answers query m w (select next now cache_key ttl capacity query m w)
  unfolding select
  select-Answers query m w c = elim (Bool-cases (ttl == 0)) [
    | inl off ↦ rw off (bypassed (inl (ground arith)) refl, c)
    | inr on ↦ elim (Bool-cases (capacity == 0)) [
      | inl empty ↦ rw (on, empty) (bypassed (inr (ground arith)) refl, c)
      | inr room ↦ rw (on, room) (answer-Answers (lookup (cache_key query) m) query m w refl c)
    ]
  ]
