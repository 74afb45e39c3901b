-- ===== src/Sandbox/MemoryPool.antt =====
-- internal/sandbox/memory.go: the pool of `MemoryDriver`, between the callers of `Acquire`, `Release`
-- and `Close` and the goroutines of `destroyAndRefill`. A slot is the number that `spawn` gives it. A
-- move is what one goroutine does at once; the check of `closing` in `Acquire` is not a move, since
-- `Close` may come between it and the receive.
pub mod Exclusive
use ai_agent_cloud_runtime.Prelude.{
  ℕ, zero, suc, ◌+◌, ◌≡◌, Bool, true, false, Option, none, some, List, [], ◌∷◌, ◌++◌, length, ltb,
  leb, ◌==◌, if◌then◌else◌,
}

-- How often a slot stands in a list.
abbrev pub occurrences : ℕ → List ℕ → ℕ
occurrences id [] = 0
occurrences id (x ∷ xs) = (if x == id then 1 else 0) + occurrences id xs

abbrev pub remove : ℕ → List ℕ → List ℕ
remove id [] = []
remove id (x ∷ xs) = if x == id then xs else x ∷ remove id xs

abbrev pub is_in : ℕ → List ℕ → Bool
is_in id xs = leb 1 (occurrences id xs)

pub record Pool : Type 0 where
  pub pool_size : ℕ
  -- the channel `pool`
  pub ready : List ℕ
  pub in_flight : List ℕ
  -- the slots that `destroyAndRefill` has still to remove, and those that it has made and has still
  -- to put into the channel
  pub destroying : List ℕ
  pub spawned : List ℕ
  pub closing : Bool
  pub spawn_count : ℕ
  pub destroy_count : ℕ

abbrev pub first_slots : ℕ → List ℕ
first_slots zero = []
first_slots (suc n) = suc n ∷ first_slots n

-- `NewMemoryDriver`, where every slot could be made.
abbrev pub new_pool : ℕ → Pool
new_pool n = record {
  pool_size = n;
  ready = first_slots n;
  in_flight = [];
  destroying = [];
  spawned = [];
  closing = false;
  spawn_count = n;
  destroy_count = 0;
}

pub data Move : Type 0 where
  -- `Acquire` takes a slot, and could or could not make the directory of the run.
  acquire : (made : Bool) → Move
  -- `Release` of a sandbox
  release : (id : ℕ) → Move
  -- `destroyAndRefill` up to `spawn`, which could or could not make a slot
  destroy : (id : ℕ) (made : Bool) → Move
  -- its last `select`
  refill : (id : ℕ) → Move
  discard : (id : ℕ) → Move
  -- `Close`: the channel `closing` is closed, and the pool is drained
  close_pool : Move
  drain : Move

unfoldable pub acquire_move : List ℕ → Bool → Pool → Option Pool
acquire_move [] made p = none
acquire_move (x ∷ xs) true p = some (record p { ready = xs; in_flight = x ∷ p.in_flight })
acquire_move (x ∷ xs) false p = some (record p { ready = xs; destroying = x ∷ p.destroying })

-- `delete` of a slot that is not in flight changes nothing, and the slot is destroyed all the same.
unfoldable pub release_move : ℕ → Pool → Option Pool
release_move id p =
    some (record p { in_flight = remove id p.in_flight; destroying = id ∷ p.destroying })

-- `spawn` counts also where it fails.
unfoldable pub respawn : Bool → Pool → Pool
respawn true p = record p {
  spawn_count = suc p.spawn_count;
  spawned = suc p.spawn_count ∷ p.spawned;
}
respawn false p = record p { spawn_count = suc p.spawn_count }

unfoldable pub destroy_move : ℕ → Bool → Pool → Option Pool
unfolding respawn
destroy_move id made p =
    if is_in id p.destroying
    then (let p' = record p {
      destroying = remove id p.destroying;
      destroy_count = suc p.destroy_count;
    } in
        some (if p.closing then p' else respawn made p'))
    else none

unfoldable pub refill_move : ℕ → Pool → Option Pool
refill_move id p =
    if is_in id p.spawned
    then (if ltb (length p.ready) p.pool_size
        then some (record p { spawned = remove id p.spawned; ready = p.ready ++ (id ∷ []) })
        else none)
    else none

unfoldable pub discard_move : ℕ → Pool → Option Pool
discard_move id p =
    if is_in id p.spawned
    then (if p.closing then some (record p { spawned = remove id p.spawned }) else none)
    else none

unfoldable pub drain_move : List ℕ → Bool → Pool → Option Pool
drain_move (x ∷ xs) true p = some (record p { ready = xs })
drain_move _ _ p = none

-- What a move does, where it can be made.
unfoldable pub step : Move → Pool → Option Pool
step (acquire made) p = acquire_move p.ready made p
step (release id) p = release_move id p
step (destroy id made) p = destroy_move id made p
step (refill id) p = refill_move id p
step (discard id) p = discard_move id p
step close_pool p = some (record p { closing = true })
step drain p = drain_move p.ready p.closing p

pub data Steps : Pool → Pool → Type 0 where
  stop : {p : Pool} → Steps p p
  move : {p p'' : Pool} (m : Move) (p' : Pool) → step m p ≡ some p' → Steps p' p'' → Steps p p''

-- A move releases no sandbox that is not in flight.
abbrev pub IsHeld : Move → Pool → Type 0
IsHeld (acquire made) p = Unit
IsHeld (release id) p = is_in id p.in_flight ≡ true
IsHeld (destroy id made) p = Unit
IsHeld (refill id) p = Unit
IsHeld (discard id) p = Unit
IsHeld close_pool p = Unit
IsHeld drain p = Unit

-- The callers release each sandbox that they have acquired at most once, and no other.
abbrev pub ReleasesOnce : {p p' : Pool} → Steps p p' → Type 0
ReleasesOnce stop = Unit
ReleasesOnce (move {p = p} m p' e rest) = IsHeld m p × ReleasesOnce rest
