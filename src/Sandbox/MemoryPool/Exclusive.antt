-- ===== src/Sandbox/MemoryPool/Exclusive.antt =====
-- Where each sandbox is released at most once, no slot is in two places at once, and the pool never has
-- more slots than it was made with.
use ai_agent_cloud_runtime.Prelude.{
  ℕ, zero, suc, ◌+◌, ◌≤◌, ◌<◌, ◌≡◌, refl, Bool, true, false, some, List, [], ◌∷◌, ◌++◌, length,
  ◌==◌, length-append, if◌then◌else◌, Bool-cases, inl, inr, arith,
}
use ai_agent_cloud_runtime.Sandbox.MemoryPool.{
  occurrences, remove, is_in, Pool, first_slots, new_pool, Move, acquire, release, destroy, refill,
  discard, close_pool, drain, acquire_move, release_move, respawn, destroy_move, refill_move,
  discard_move, drain_move, step, Steps, stop, move, IsHeld, ReleasesOnce,
}

occurrences-append :
    (id x : ℕ) (xs : List ℕ)
    → occurrences id (xs ++ (x ∷ [])) ≡ occurrences id xs + (if x == id then 1 else 0)
occurrences-append id x [] = ground arith
occurrences-append id x (y ∷ xs) = ground (arith, occurrences-append id x xs)

occurrences-remove :
    (id x : ℕ) (xs : List ℕ)
    → is_in x xs ≡ true
    → occurrences id (remove x xs) + (if x == id then 1 else 0) ≡ occurrences id xs
occurrences-remove id x [] h = ground arith
occurrences-remove id x (y ∷ xs) h = ground (arith, occurrences-remove id x xs)

length-remove : (x : ℕ) (xs : List ℕ) → is_in x xs ≡ true → suc (length (remove x xs)) ≡ length xs
length-remove x [] h = ground arith
length-remove x (y ∷ xs) h = ground (arith, length-remove x xs)

abbrev places : ℕ → Pool → ℕ
places id p =
    occurrences id p.ready
    + occurrences id p.in_flight
    + occurrences id p.destroying
    + occurrences id p.spawned

abbrev pub slots : Pool → ℕ
slots p = length p.ready + length p.in_flight + length p.destroying + length p.spawned

record IsPool (n : ℕ) (p : Pool) : Type 0 where
  exclusive : (id : ℕ) → places id p ≤ 1
  fresh : (id : ℕ) → p.spawn_count < id → places id p ≡ 0
  bounded : slots p ≤ n

acquire_move-IsPool :
    (n : ℕ) (q : List ℕ) (made : Bool) (p p' : Pool)
    → p.ready ≡ q
    → acquire_move q made p ≡ some p'
    → IsPool n p
    → IsPool n p'
unfolding acquire_move
acquire_move-IsPool n [] made p p' e h s = absurd (ground arith)
acquire_move-IsPool n (x ∷ xs) true p p' e h s = record {
  exclusive = λ id. ground (arith, s.exclusive id);
  fresh = λ id lt. ground (arith, s.fresh id);
  bounded = ground (arith, s.bounded);
}
acquire_move-IsPool n (x ∷ xs) false p p' e h s = record {
  exclusive = λ id. ground (arith, s.exclusive id);
  fresh = λ id lt. ground (arith, s.fresh id);
  bounded = ground (arith, s.bounded);
}

release_move-IsPool :
    (n x : ℕ) (p p' : Pool)
    → is_in x p.in_flight ≡ true
    → release_move x p ≡ some p'
    → IsPool n p
    → IsPool n p'
unfolding release_move
release_move-IsPool n x p p' held h s = record {
  exclusive = λ id. ground (arith, s.exclusive id, occurrences-remove id x p.in_flight);
  fresh = λ id lt. ground (arith, s.fresh id, occurrences-remove id x p.in_flight);
  bounded = ground (arith, s.bounded, length-remove x p.in_flight);
}

-- A pool with room for a slot gets the next one.
respawn-IsPool :
    (n : ℕ) (made : Bool) (p : Pool) → IsPool n p → slots p < n → IsPool n (respawn made p)
unfolding respawn
respawn-IsPool n true p s room = record {
  exclusive = λ id. ground (arith, s.exclusive id, s.fresh id);
  fresh = λ id lt. ground (arith, s.fresh id);
  bounded = ground (arith, s.bounded);
}
respawn-IsPool n false p s room = record {
  exclusive = λ id. s.exclusive id;
  fresh = λ id lt. s.fresh id (omega (arith, lt));
  bounded = s.bounded;
}

destroyed-IsPool :
    (n x : ℕ) (p : Pool)
    → is_in x p.destroying ≡ true
    → IsPool n p
    → IsPool n
        (record p { destroying = remove x p.destroying; destroy_count = suc p.destroy_count })
destroyed-IsPool n x p h s = record {
  exclusive = λ id. ground (arith, s.exclusive id, occurrences-remove id x p.destroying);
  fresh = λ id lt. ground (arith, s.fresh id, occurrences-remove id x p.destroying);
  bounded = ground (arith, s.bounded, length-remove x p.destroying);
}

destroy_move-IsPool :
    (n x : ℕ) (made : Bool) (p p' : Pool)
    → destroy_move x made p ≡ some p'
    → IsPool n p
    → IsPool n p'
unfolding destroy_move
destroy_move-IsPool n x made p p' h s = elim (Bool-cases (is_in x p.destroying)) [
  | inl there ↦
      let p1 = record p {
        destroying = remove x p.destroying;
        destroy_count = suc p.destroy_count;
      } in
      let s1 : IsPool n p1 = destroyed-IsPool n x p there s in
      let room : slots p1 < n = ground (arith, s.bounded, length-remove x p.destroying) in
      let s2 : IsPool n (respawn made p1) = respawn-IsPool n made p1 s1 room in
      elim (Bool-cases p.closing) [
        | inl shut ↦ ground (arith, s1)
        | inr running ↦ ground (arith, s2)
      ]
  | inr absent ↦ absurd (ground arith)
]

refill_move-IsPool : (n x : ℕ) (p p' : Pool) → refill_move x p ≡ some p' → IsPool n p → IsPool n p'
unfolding refill_move
refill_move-IsPool n x p p' h s = record {
  exclusive = λ id.
      ground
        (arith, s.exclusive id, occurrences-remove id x p.spawned, occurrences-append id x p.ready);
  fresh = λ id lt.
      ground
        (arith, s.fresh id, occurrences-remove id x p.spawned, occurrences-append id x p.ready);
  bounded = ground (arith, s.bounded, length-remove x p.spawned, length-append p.ready (x ∷ []));
}

discard_move-IsPool :
    (n x : ℕ) (p p' : Pool) → discard_move x p ≡ some p' → IsPool n p → IsPool n p'
unfolding discard_move
discard_move-IsPool n x p p' h s = record {
  exclusive = λ id. ground (arith, s.exclusive id, occurrences-remove id x p.spawned);
  fresh = λ id lt. ground (arith, s.fresh id, occurrences-remove id x p.spawned);
  bounded = ground (arith, s.bounded, length-remove x p.spawned);
}

drain_move-IsPool :
    (n : ℕ) (q : List ℕ) (c : Bool) (p p' : Pool)
    → p.ready ≡ q
    → drain_move q c p ≡ some p'
    → IsPool n p
    → IsPool n p'
unfolding drain_move
drain_move-IsPool n [] c p p' e h s = absurd (ground arith)
drain_move-IsPool n (x ∷ xs) false p p' e h s = absurd (ground arith)
drain_move-IsPool n (x ∷ xs) true p p' e h s = record {
  exclusive = λ id. ground (arith, s.exclusive id);
  fresh = λ id lt. ground (arith, s.fresh id);
  bounded = ground (arith, s.bounded);
}

step-IsPool :
    (n : ℕ) (m : Move) (p p' : Pool) → IsHeld m p → step m p ≡ some p' → IsPool n p → IsPool n p'
unfolding step
step-IsPool n (acquire made) p p' held h s = acquire_move-IsPool n p.ready made p p' refl h s
step-IsPool n (release id) p p' held h s = release_move-IsPool n id p p' held h s
step-IsPool n (destroy id made) p p' held h s = destroy_move-IsPool n id made p p' h s
step-IsPool n (refill id) p p' held h s = refill_move-IsPool n id p p' h s
step-IsPool n (discard id) p p' held h s = discard_move-IsPool n id p p' h s
step-IsPool n close_pool p p' held h s = record {
  exclusive = λ id. ground (arith, s.exclusive id);
  fresh = λ id lt. ground (arith, s.fresh id);
  bounded = ground (arith, s.bounded);
}
step-IsPool n drain p p' held h s = drain_move-IsPool n p.ready p.closing p p' refl h s

Steps-IsPool :
    (n : ℕ) (p p' : Pool) (steps : Steps p p') → ReleasesOnce steps → IsPool n p → IsPool n p'
Steps-IsPool n p p' stop once s = s
Steps-IsPool n p p' (move m p1 h rest) once s =
    Steps-IsPool n p1 p' rest once.1 (step-IsPool n m p p1 once.0 h s)

first_slots-fresh : (n id : ℕ) → n < id → occurrences id (first_slots n) ≡ 0
first_slots-fresh zero id h = refl
first_slots-fresh (suc n) id h = ground (arith, first_slots-fresh n id)

first_slots-exclusive : (n id : ℕ) → occurrences id (first_slots n) ≤ 1
first_slots-exclusive zero id = omega arith
first_slots-exclusive (suc n) id =
    ground (arith, first_slots-exclusive n id, first_slots-fresh n id)

length-first_slots : (n : ℕ) → length (first_slots n) ≡ n
length-first_slots zero = refl
length-first_slots (suc n) = omega (arith, length-first_slots n)

new_pool-IsPool : (n : ℕ) → IsPool n (new_pool n)
new_pool-IsPool n = record {
  exclusive = λ id. omega (arith, first_slots-exclusive n id);
  fresh = λ id lt. omega (arith, first_slots-fresh n id lt);
  bounded = omega (arith, length-first_slots n);
}

-- Whatever the callers and the goroutines of a driver with `n` slots have done so far, where every
-- `Release` was of a sandbox then in flight: no slot stands twice in the pool, in flight, or in the
-- hands of the goroutines, nor in two of these, so that no two runs share one; and there are at most
-- `n`.
pub reachable-exclusive :
    (n : ℕ) (p : Pool) (reached : Steps (new_pool n) p)
    → ReleasesOnce reached
    → ((id : ℕ)
        → occurrences id p.ready
            + occurrences id p.in_flight
            + occurrences id p.destroying
            + occurrences id p.spawned
          ≤ 1)
      × (slots p ≤ n)
reachable-exclusive n p reached once =
    let s = Steps-IsPool n (new_pool n) p reached once (new_pool-IsPool n) in
    (s.exclusive, s.bounded)
