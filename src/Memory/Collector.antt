-- ===== src/Memory/Collector.antt =====
-- The mark and sweep collector (src/runtime/memory.c). The objects that are found and not yet scanned stand
-- on a stack of at most 8192, the last first; a node is that of the first match of its object. The loop
-- runs on fuel.
use bread_lang.Prelude.{
  ℕ, zero, suc, ◌-◌, ◌*◌, ◌/◌, Bool, true, false, not, ◌&&◌, Option, none, some, List, [], ◌∷◌,
  ◌++◌, ltb, leb, ◌==◌, if◌then◌else◌, length,
}
use bread_lang.Values.{Value, ref}
use bread_lang.Dicts.{Entry}
use bread_lang.Memory.Pool.{MemoryPool, pool_free}
use bread_lang.Memory.Objects.{
  Body, unknown_body, string_body, array_body, struct_body, class_body, dict_body, optional_body,
  Object, Node, Stats, Memory, ensure_init, find_node, count_untracked,
}

abbrev pub max_stack_depth : ℕ
max_stack_depth = 8192

unfoldable pub entry_values : List Entry → List Value
entry_values [] = []
entry_values (e ∷ es) =
    let rest = entry_values es in
    if e.is_occupied && not e.is_deleted then e.key ∷ e.value ∷ rest else rest

-- The values that the switch on the kind passes to `bread_memory_mark_value`, in their order.
unfoldable pub held_values : Body → List Value
unfolding entry_values
held_values unknown_body = []
held_values string_body = []
held_values (array_body vs) = vs
held_values (struct_body vs) = vs
held_values (class_body vs) = vs
held_values (dict_body es) = entry_values es
held_values (optional_body none) = []
held_values (optional_body (some v)) = v ∷ []

abbrev pub awaits : Option Node → Bool
awaits none = false
awaits (some n) = not n.marked

-- Whether an object is tracked and not marked.
unfoldable pub is_unmarked : List Node → ℕ → Bool
unfolding find_node
is_unmarked ns a = awaits (find_node ns a)

-- `bread_memory_mark_value`
abbrev pub push_child : List Node → Option ℕ → List ℕ → List ℕ
push_child ns none stack = stack
push_child ns (some a) stack = if is_unmarked ns a then a ∷ stack else stack

unfoldable pub mark_value : List Node → Value → List ℕ → List ℕ
unfolding ref is_unmarked
mark_value ns v stack =
    if leb max_stack_depth (length stack) then stack else push_child ns (ref v) stack

unfoldable pub mark_values : List Node → List Value → List ℕ → List ℕ
unfolding mark_value
mark_values ns [] stack = stack
mark_values ns (v ∷ vs) stack = mark_values ns vs (mark_value ns v stack)

-- `cur->marked = 1`
unfoldable pub set_marked : List Node → ℕ → List Node
set_marked [] a = []
set_marked (n ∷ ns) a =
    let rest = set_marked ns a in
    if n.object == a then record n { marked = true } ∷ ns else n ∷ rest

-- The loop of `bread_memory_mark_reachable`, with what it leaves on the stack when the fuel ends.
unfoldable pub mark_loop : ℕ → (ℕ → Object) → List Node → List ℕ → List Node × List ℕ
unfolding is_unmarked set_marked mark_values held_values
mark_loop zero heap ns stack = (ns, stack)
mark_loop (suc fuel) heap ns [] = (ns, [])
mark_loop (suc fuel) heap ns (a ∷ stack) =
    let new = is_unmarked ns a in
    let marked = if new then set_marked ns a else ns in
    mark_loop fuel heap marked
      (if new then mark_values marked (held_values (heap a).body) stack else stack)

-- As many rounds as suffice: see the theorem on the loop.
abbrev pub mark_fuel : List Node → ℕ
mark_fuel ns = suc (length ns) * 8193

-- `bread_memory_mark_reachable`, if there is memory for the stack
unfoldable pub mark_reachable : Bool → (ℕ → Object) → ℕ → List Node → List Node
unfolding is_unmarked mark_loop
mark_reachable granted heap root ns =
    if is_unmarked ns root && granted then (mark_loop (mark_fuel ns) heap ns (root ∷ [])).0 else ns

unfoldable pub clear_marks : List Node → List Node
clear_marks [] = []
clear_marks (n ∷ ns) = record n { marked = false } ∷ clear_marks ns

-- The roots that `bread_memory_collect_cycles` marks from: first the objects with references.
unfoldable pub referenced : (ℕ → Object) → List Node → List ℕ
referenced heap [] = []
referenced heap (n ∷ ns) =
    let rest = referenced heap ns in if (heap n.object).refcount == 0 then rest else n.object ∷ rest

unfoldable pub mark_all : (ℕ → Bool) → (ℕ → Object) → List ℕ → List Node → List Node
unfolding mark_reachable
mark_all granted heap [] ns = ns
mark_all granted heap (r ∷ rs) ns = mark_all granted heap rs (mark_reachable (granted r) heap r ns)

-- The loop of `bread_memory_sweep_unreachable`.
abbrev pub is_garbage : (ℕ → Object) → Node → Bool
is_garbage heap n = not n.marked && (heap n.object).refcount == 0

pub record Swept : Type 0 where
  pub nodes : List Node
  pub pool : MemoryPool
  pub stats : Stats

unfoldable pub sweep : (ℕ → Object) → List Node → MemoryPool → Stats → Swept
unfolding pool_free count_untracked
sweep heap [] p s = record { nodes = []; pool = p; stats = s }
sweep heap (n ∷ ns) p s =
    let dead = is_garbage heap n in
    let rest =
      sweep heap ns (if dead then (pool_free n.object p).1 else p)
        (if dead then count_untracked n.size s else s) in
    if dead then rest else record rest { nodes = n ∷ rest.nodes }

abbrev pub put_swept : Memory → Swept → Memory
put_swept m s = record m { objects = s.nodes; pool = s.pool; stats = s.stats }

-- `bread_memory_sweep_unreachable`
unfoldable pub sweep_unreachable : Memory → Memory
unfolding ensure_init sweep
sweep_unreachable m0 = let m = ensure_init m0 in put_swept m (sweep m.heap m.objects m.pool m.stats)

-- The threshold grows when few objects were freed.
unfoldable pub next_threshold : ℕ → ℕ → ℕ → ℕ
next_threshold t before after = if ltb (before - after) (t / 10) then t * 3 / 2 else t

unfoldable pub marked_memory : (ℕ → Bool) → Memory → Memory
unfolding clear_marks referenced mark_all
marked_memory granted m =
    let clear = clear_marks m.objects in
    record m { objects = mark_all granted m.heap (referenced m.heap clear ++ m.gc_roots) clear }

unfoldable pub collect_ready : (ℕ → Bool) → Memory → Memory
unfolding marked_memory sweep_unreachable next_threshold
collect_ready granted m =
    let swept = sweep_unreachable (marked_memory granted m) in
    if m.cycle_collection_enabled
    then record swept {
      allocations_since_gc = 0;
      bytes_since_gc = 0;
      gc_threshold =
          next_threshold m.gc_threshold m.stats.current_objects swept.stats.current_objects;
    }
    else m

-- `bread_memory_collect_cycles`
unfoldable pub collect_cycles : (ℕ → Bool) → Memory → Memory
unfolding ensure_init collect_ready
collect_cycles granted m = collect_ready granted (ensure_init m)
