-- ===== src/Tests/Memory.antt =====
-- A pool of one chunk, and an array that holds itself.
use bread_lang.Prelude.{
  ℕ, ◌≡◌, refl, true, false, not, none, some, List, [], ◌∷◌, ◌==◌, length, replicate,
}
use bread_lang.Prelude.Int.{pos}
use bread_lang.Values.{array}
use bread_lang.Memory.Pool.{MemoryPool, pool_alloc}
use bread_lang.Memory.Pool.Blocks.{count_free}
use bread_lang.Memory.Pool.Taking.{Allocates, pool_alloc-Allocates}
use bread_lang.Memory.Objects.{Object, array_body, obj_array, Node, Memory, initial, ensure_init}
use bread_lang.Memory.Collector.{collect_cycles, mark_loop, mark_fuel}
use bread_lang.Memory.Allocating.{Answers, check_leaks}
use bread_lang.Memory.Marks.{is_tracked}
use bread_lang.Memory.Collecting.{mark_loop_lem, collect_cycles-tracked}
use bread_lang.Memory.Keeping.{IsConsistent}
use bread_lang.Memory.Sessions.{
  Request, collect, allocate, retain, release, reallocate, threshold, requests, requests_lem,
}

abbrev pool : MemoryPool
pool = record {
  chunks = record { start = 4096; free_bitmap = false ∷ replicate 255 true; free_count = 255 } ∷ [];
  total_chunks = 1;
}

pool_alloc-second : (pool_alloc none pool).0 ≡ some 4160
unfolding pool_alloc
pool_alloc-second = refl

pool_alloc-Allocates_example : Allocates none pool (pool_alloc none pool)
unfolding count_free
pool_alloc-Allocates_example =
    pool_alloc-Allocates none pool (record { size = refl; counted = refl }, tt) tt

abbrev looped : ℕ → Object
looped = λ a. record { body = array_body (array (some 64) ∷ []); refcount = 1 }

abbrev unused : Memory
unused = record (initial looped) { initialized = false }

abbrev nodes : List Node
nodes = record { object = 64; size = 40; kind = obj_array; marked = false } ∷ []

mark_loop_lem_example : (mark_loop (mark_fuel nodes) looped nodes (64 ∷ [])).1 ≡ []
mark_loop_lem_example = mark_loop_lem looped 64 nodes

abbrev holding : Memory
holding = record (initial looped) { objects = nodes; cycle_collection_enabled = true }

collect_cycles-tracked_example :
    is_tracked (collect_cycles (λ r. true) holding).objects 64
    ≡ is_tracked (ensure_init holding).objects 64
collect_cycles-tracked_example = collect_cycles-tracked (λ r. true) holding 64 refl

abbrev answers : Answers
answers = record { chunk = some 4096; block = none; node = true; stack = λ r. true }

abbrev calls : List Request
calls =
    threshold (pos 1)
    ∷ allocate answers 40 obj_array
    ∷ retain (some 4096)
    ∷ reallocate answers (some 4096) 56
    ∷ collect
    ∷ release (some 4096)
    ∷ []

requests_lem_example :
    IsConsistent (requests (λ r. true) calls unused)
    × (check_leaks (requests (λ r. true) calls unused)
        ≡ not (length (requests (λ r. true) calls unused).objects == 0))
requests_lem_example = requests_lem (λ r. true) calls unused (refl, refl)
