-- ===== src/Memory/Objects.antt =====
-- Objects, their list and the statistics (src/runtime/memory.c, include/runtime/memory.h).
use bread_lang.Prelude.{
  ℕ, ◌+◌, ◌-◌, ◌*◌, Bool, true, false, Option, none, some, List, [], ◌∷◌, ltb, ◌==◌, if◌then◌else◌,
}
use bread_lang.Values.{Value}
use bread_lang.Dicts.{Entry}
use bread_lang.Memory.Pool.{MemoryPool}

-- `BreadObjKind`
pub data ObjKind : Type 0 where
  obj_unknown obj_string obj_array obj_dict obj_optional obj_struct obj_class : ObjKind

-- What the collector reads of an object: its kind and reference count, and the values that it holds, none
-- where the pointer to them is NULL.
pub data Body : Type 0 where
  unknown_body string_body : Body
  array_body struct_body class_body : List Value → Body
  dict_body : List Entry → Body
  optional_body : Option Value → Body

pub record Object : Type 0 where
  pub body : Body
  pub refcount : ℕ

-- An object of a kind whose other bytes are zero.
unfoldable pub zeroed : ObjKind → Body
zeroed obj_unknown = unknown_body
zeroed obj_string = string_body
zeroed obj_array = array_body []
zeroed obj_dict = dict_body []
zeroed obj_optional = optional_body none
zeroed obj_struct = struct_body []
zeroed obj_class = class_body []

-- `BreadObjectNode`
pub record Node : Type 0 where
  pub object : ℕ
  pub size : ℕ
  pub kind : ObjKind
  pub marked : Bool

-- `BreadMemoryStats`
pub record Stats : Type 0 where
  pub total_allocations : ℕ
  pub total_deallocations : ℕ
  pub current_objects : ℕ
  pub peak_objects : ℕ
  pub bytes_allocated : ℕ
  pub bytes_freed : ℕ

-- `BreadMemoryManager`, whether it is initialised, and memory
pub record Memory : Type 0 where
  pub initialized : Bool
  pub objects : List Node
  pub pool : MemoryPool
  pub cycle_collection_enabled : Bool
  pub gc_threshold : ℕ
  pub allocations_since_gc : ℕ
  pub bytes_threshold : ℕ
  pub bytes_since_gc : ℕ
  pub stats : Stats
  pub auto_gc_enabled : Bool
  pub gc_roots : List ℕ
  pub gc_root_capacity : ℕ
  pub heap : ℕ → Object

abbrev pub no_stats : Stats
no_stats = record {
  total_allocations = 0;
  total_deallocations = 0;
  current_objects = 0;
  peak_objects = 0;
  bytes_allocated = 0;
  bytes_freed = 0;
}

abbrev pub initial : (ℕ → Object) → Memory
initial heap = record {
  initialized = true;
  objects = [];
  pool = record { chunks = []; total_chunks = 0 };
  cycle_collection_enabled = false;
  gc_threshold = 1000;
  allocations_since_gc = 0;
  bytes_threshold = 1024 * 1024;
  bytes_since_gc = 0;
  stats = no_stats;
  auto_gc_enabled = true;
  gc_roots = [];
  gc_root_capacity = 0;
  heap = heap;
}

-- `bread_memory_ensure_init`
unfoldable pub ensure_init : Memory → Memory
ensure_init m = if m.initialized then m else initial m.heap

-- `bread_memory_find_node`
unfoldable pub find_node : List Node → ℕ → Option Node
find_node [] a = none
find_node (n ∷ ns) a = let rest = find_node ns a in if n.object == a then some n else rest

-- A write to memory.
abbrev pub write_object : (ℕ → Object) → ℕ → Object → ℕ → Object
write_object heap a o = λ b. if a == b then o else heap b

-- The statistics of one more object.
unfoldable pub count_tracked : Stats → Stats
count_tracked s = record s {
  total_allocations = s.total_allocations + 1;
  current_objects = s.current_objects + 1;
  peak_objects =
      if ltb s.peak_objects (s.current_objects + 1) then s.current_objects + 1 else s.peak_objects;
}

-- The statistics of one object less; the count stays at zero.
unfoldable pub count_untracked : ℕ → Stats → Stats
count_untracked size s = record s {
  bytes_freed = s.bytes_freed + size;
  total_deallocations = s.total_deallocations + 1;
  current_objects = s.current_objects - 1;
}

-- `bread_memory_track_object_internal`, if there is memory for the node
unfoldable pub track : Bool → ℕ → ℕ → ObjKind → Memory → Memory
unfolding count_tracked
track granted a size kind m =
    if granted
    then record m {
      objects = record { object = a; size = size; kind = kind; marked = false } ∷ m.objects;
      stats = count_tracked m.stats;
    }
    else m

-- The list without the first node of the object.
unfoldable pub drop_node : List Node → ℕ → List Node
drop_node [] a = []
drop_node (n ∷ ns) a = let rest = drop_node ns a in if n.object == a then ns else n ∷ rest

abbrev pub untrack_found : Memory → ℕ → Option Node → Memory
untrack_found m a none = m
untrack_found m a (some n) = record m {
  objects = drop_node m.objects a;
  stats = count_untracked n.size m.stats;
}

-- `bread_memory_untrack_object_internal`
unfoldable pub untrack : ℕ → Memory → Memory
unfolding find_node drop_node count_untracked
untrack a m = untrack_found m a (find_node m.objects a)
