-- ===== src/Memory/Allocating.antt =====
-- Allocation, reallocation, reference counts, roots and settings (src/runtime/memory.c). An object's bytes
-- move with it as one value, so that a size that cuts its header or its fields is outside the model.
use bread_lang.Prelude.{
  ℕ, suc, ◌+◌, ◌-◌, ◌*◌, ◌^◌, Bool, true, false, not, ◌&&◌, ◌||◌, Option, none, some, List, [], ◌∷◌,
  ◌++◌, ltb, leb, ◌==◌, if◌then◌else◌, length, set, take,
}
use bread_lang.Prelude.Int.{ℤ, pos}
use bread_lang.Values.{Outcome, memory_allocation}
use bread_lang.Memory.Pool.{MemoryPool, block_size, pool_alloc, pool_free, pool_cleanup}
use bread_lang.Memory.Objects.{
  ObjKind, obj_string, zeroed, Node, Memory, ensure_init, find_node, write_object, track, untrack,
}
use bread_lang.Memory.Collector.{collect_cycles}

-- What `calloc` and `malloc` answer: for a chunk, for the object, for its node and for the stack of a root.
pub record Answers : Type 0 where
  pub chunk : Option ℕ
  pub block : Option ℕ
  pub node : Bool
  pub stack : ℕ → Bool

-- `bread_memory_should_trigger_gc`
unfoldable pub should_trigger_gc : Memory → Bool
should_trigger_gc m =
    m.auto_gc_enabled
    && m.cycle_collection_enabled
    && (leb m.gc_threshold m.allocations_since_gc || leb m.bytes_threshold m.bytes_since_gc)

abbrev pub done : {A : Type 0} → A → Memory → Outcome Memory A
done r m = record { result = r; state = m; calls = []; failure = none }

abbrev pub failed : {A : Type 0} → A → Memory → Outcome Memory A
failed r m = record { result = r; state = m; calls = []; failure = some memory_allocation }

-- The pool for small sizes, else `malloc`.
unfoldable pub small_block : Option ℕ → ℕ → MemoryPool → Option ℕ × MemoryPool
unfolding pool_alloc
small_block fresh size p = if leb size block_size then pool_alloc fresh p else (none, p)

abbrev pub or_block : Option ℕ → Option ℕ → Option ℕ
or_block none b = b
or_block (some a) b = some a

-- The new object, tracked.
unfoldable pub created : Bool → ℕ → ObjKind → ℕ → Memory → Memory
unfolding zeroed track
created node_granted size kind a m = track node_granted a size kind (record m {
  heap = write_object m.heap a (record { body = zeroed kind; refcount = 1 });
  stats = record m.stats { bytes_allocated = m.stats.bytes_allocated + size };
  allocations_since_gc = m.allocations_since_gc + 1;
  bytes_since_gc = m.bytes_since_gc + size;
})

unfoldable pub maybe_collect : (ℕ → Bool) → Memory → Memory
unfolding should_trigger_gc collect_cycles
maybe_collect granted m = if should_trigger_gc m then collect_cycles granted m else m

abbrev pub alloc_given : Answers → ℕ → ObjKind → Memory → Option ℕ → Outcome Memory (Option ℕ)
alloc_given ans size kind m none = failed none m
alloc_given ans size kind m (some a) =
    done (some a) (maybe_collect ans.stack (created ans.node size kind a m))

-- `bread_memory_alloc`
unfoldable pub alloc : Answers → ℕ → ObjKind → Memory → Outcome Memory (Option ℕ)
unfolding ensure_init small_block created maybe_collect
alloc ans size kind m0 =
    let m = ensure_init m0 in
    let (got, pool) = small_block ans.chunk size m.pool in
    alloc_given ans size kind (record m { pool = pool }) (or_block got ans.block)

abbrev pub size_of : Option Node → ℕ
size_of none = 0
size_of (some n) = n.size

-- The first node of the object at `a` takes the new address and size.
unfoldable pub move_node : List Node → ℕ → ℕ → ℕ → List Node
move_node [] a b size = []
move_node (n ∷ ns) a b size =
    let rest = move_node ns a b size in
    if n.object == a then record n { object = b; size = size } ∷ ns else n ∷ rest

-- The statistics of a size that changes.
unfoldable pub count_resized : ℕ → ℕ → Memory → Memory
count_resized old new m =
    if ltb old new
    then record m {
      stats = record m.stats { bytes_allocated = m.stats.bytes_allocated + (new - old) };
      bytes_since_gc = m.bytes_since_gc + (new - old);
    }
    else record m { stats = record m.stats { bytes_freed = m.stats.bytes_freed + (old - new) } }

unfoldable pub moved : ℕ → ℕ → ℕ → Memory → Memory
unfolding count_resized move_node
moved a size b m =
    let counted = count_resized (size_of (find_node m.objects a)) size m in
    record counted {
      objects = move_node m.objects a b size;
      heap = write_object m.heap b (m.heap a);
    }

abbrev pub realloc_given : ℕ → ℕ → Memory → Option ℕ → Outcome Memory (Option ℕ)
realloc_given a size m none = failed none m
realloc_given a size m (some b) = done (some b) (moved a size b m)

abbrev pub realloc_at : Answers → ℕ → ℕ → Memory → Outcome Memory (Option ℕ)
realloc_at ans a size m =
    let freed = (pool_free a m.pool).1 in
    let (got, pool) = small_block ans.chunk size freed in
    realloc_given a size (record m { pool = pool }) (or_block got ans.block)

-- `bread_memory_realloc`
unfoldable pub realloc : Answers → Option ℕ → ℕ → Memory → Outcome Memory (Option ℕ)
unfolding alloc ensure_init pool_free small_block moved find_node
realloc ans none size m = alloc ans size obj_string (ensure_init m)
realloc ans (some a) size m = realloc_at ans a size (ensure_init m)

-- `bread_memory_free` of a pointer that is not NULL
unfoldable pub free : ℕ → Memory → Memory
unfolding untrack pool_free
free a m = let u = untrack a m in record u { pool = (pool_free a u.pool).1 }

abbrev pub set_refcount : Memory → ℕ → ℕ → Memory
set_refcount m a n = record m { heap = write_object m.heap a (record (m.heap a) { refcount = n }) }

-- `bread_object_retain`
unfoldable pub object_retain : Option ℕ → Memory → Outcome Memory Unit
object_retain none m = done tt m
object_retain (some a) m =
    if (m.heap a).refcount == 2 ^ 32 - 1
    then failed tt m
    else done tt (set_refcount m a ((m.heap a).refcount + 1))

-- `bread_object_release`
unfoldable pub object_release : Option ℕ → Memory → Outcome Memory Unit
unfolding free
object_release none m = done tt m
object_release (some a) m =
    let less = set_refcount m a ((m.heap a).refcount - 1) in
    if (m.heap a).refcount == 0
    then failed tt m
    else if (m.heap a).refcount == 1
    then done tt (free a less)
    else done tt less

-- `bread_memory_add_root` of a pointer that is not NULL, if the array can grow
unfoldable pub add_root : Bool → ℕ → Memory → Outcome Memory Bool
unfolding ensure_init
add_root granted a m0 =
    let m = ensure_init m0 in
    let full = leb m.gc_root_capacity (length m.gc_roots) in
    if full && not granted
    then done false m
    else done true (record m {
      gc_roots = m.gc_roots ++ a ∷ [];
      gc_root_capacity =
          if full
          then (if m.gc_root_capacity == 0 then 16 else m.gc_root_capacity * 2)
          else m.gc_root_capacity;
    })

-- The last root takes the place of the first that is `a`.
abbrev pub next_index : Option ℕ → Option ℕ
next_index none = none
next_index (some i) = some (suc i)

unfoldable pub root_index : List ℕ → ℕ → Option ℕ
root_index [] a = none
root_index (r ∷ rs) a = let rest = next_index (root_index rs a) in if r == a then some 0 else rest

unfoldable pub last_root : List ℕ → ℕ → ℕ
last_root [] r = r
last_root (x ∷ xs) r = last_root xs x

abbrev pub drop_root : List ℕ → Option ℕ → List ℕ
drop_root rs none = rs
drop_root rs (some i) = take (length rs - 1) (set rs i (last_root rs 0))

-- `bread_memory_remove_root` of a pointer that is not NULL
unfoldable pub remove_root : ℕ → Memory → Memory
unfolding root_index last_root
remove_root a m =
    if m.initialized
    then record m { gc_roots = drop_root m.gc_roots (root_index m.gc_roots a) }
    else m

-- `bread_memory_set_cycle_collection_threshold`
unfoldable pub set_cycle_collection_threshold : ℤ → Memory → Memory
unfolding ensure_init
set_cycle_collection_threshold (pos (suc n)) m = record (ensure_init m) {
  cycle_collection_enabled = true;
  gc_threshold = suc n;
}
set_cycle_collection_threshold n m = record (ensure_init m) {
  cycle_collection_enabled = false;
  gc_threshold = 0;
}

-- `bread_memory_enable_auto_gc`
unfoldable pub enable_auto_gc : Bool → Memory → Memory
unfolding ensure_init
enable_auto_gc on m = record (ensure_init m) { auto_gc_enabled = on }

-- `bread_memory_set_bytes_threshold`
unfoldable pub set_bytes_threshold : ℕ → Memory → Memory
unfolding ensure_init
set_bytes_threshold n m = record (ensure_init m) { bytes_threshold = n }

-- `bread_memory_check_leaks`
unfoldable pub check_leaks : Memory → Bool
check_leaks m = m.initialized && not (m.stats.current_objects == 0)

-- `bread_memory_cleanup`
unfoldable pub cleanup : Memory → Memory
cleanup m =
    if m.initialized
    then record m {
      initialized = false;
      objects = [];
      pool = pool_cleanup m.pool;
      gc_roots = [];
      gc_root_capacity = 0;
    }
    else m
