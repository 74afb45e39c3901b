-- ===== src/Sandbox/Tests.antt =====
-- A concrete output, and a concrete use of a pool.
use ai_agent_cloud_runtime.Prelude.{
  ℕ, ◌+◌, ◌≤◌, ◌≡◌, refl, true, false, List, [], ◌∷◌, length, take, ltb, All, arith,
}
use ai_agent_cloud_runtime.Prelude.Int.{pos, clamp_zero}
use ai_agent_cloud_runtime.Sandbox.CapWriter.{
  write_all, all_bytes, NonEmpty, write_all-take, CapWriter,
}
use ai_agent_cloud_runtime.Sandbox.MemoryPool.{
  occurrences, Pool, new_pool, acquire, release, destroy, refill, acquire_move, release_move,
  respawn, destroy_move, refill_move, step, Steps, stop, move,
}
use ai_agent_cloud_runtime.Sandbox.MemoryPool.Exclusive.{slots, reachable-exclusive}

abbrev pieces : List (List ℕ)
pieces = (1 ∷ 2 ∷ []) ∷ (3 ∷ 4 ∷ []) ∷ (5 ∷ []) ∷ []

abbrev written : CapWriter
written = write_all pieces (record { buf = []; max = pos 3; truncated = false })

pieces-NonEmpty : All NonEmpty pieces
pieces-NonEmpty = ground arith

write_all-take_example :
    (written.buf ≡ take (clamp_zero (pos 3)) (all_bytes pieces))
    × (written.truncated ≡ ltb (clamp_zero (pos 3)) (length (all_bytes pieces)))
write_all-take_example = write_all-take (pos 3) pieces pieces-NonEmpty

-- The first slot is acquired, released, destroyed and replaced by the third, which is ready.
abbrev used : Pool
used = record (new_pool 2) { ready = 1 ∷ 3 ∷ []; spawn_count = 3; destroy_count = 1 }

used-Steps : Steps (new_pool 2) used
unfolding step acquire_move release_move destroy_move respawn refill_move
used-Steps =
    move (acquire true) (record (new_pool 2) { ready = 1 ∷ []; in_flight = 2 ∷ [] }) refl
      (move (release 2) (record (new_pool 2) { ready = 1 ∷ []; destroying = 2 ∷ [] }) refl
        (move (destroy 2 true)
          (record (new_pool 2) {
            ready = 1 ∷ [];
            spawned = 3 ∷ [];
            spawn_count = 3;
            destroy_count = 1;
          })
          refl (move (refill 3) used refl stop)))

reachable-exclusive_example :
    ((id : ℕ)
      → occurrences id used.ready
          + occurrences id used.in_flight
          + occurrences id used.destroying
          + occurrences id used.spawned
        ≤ 1)
    × (slots used ≤ 2)
unfolding used-Steps
reachable-exclusive_example = reachable-exclusive 2 used used-Steps (tt, (refl, (tt, (tt, tt))))
