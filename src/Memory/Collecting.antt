-- ===== src/Memory/Collecting.antt =====
-- What a collection ends with: the marking loop ends, and objects with references are kept.
use bread_lang.Prelude.{
  ℕ, zero, suc, ◌+◌, ◌*◌, ◌≤◌, ◌<◌, ◌≡◌, refl, sym, ap, ◌∙◌, subst, Bool, true, false, not, Option,
  none, some, List, [], ◌∷◌, leb, ◌==◌, if◌then◌else◌, inl, inr, Bool-cases, length, arith,
}
use bread_lang.Values.{Value, ref}
use bread_lang.Memory.Pool.{MemoryPool, pool_free}
use bread_lang.Memory.Objects.{Object, Node, Stats, Memory, ensure_init, find_node, count_untracked}
use bread_lang.Memory.Collector.{
  is_unmarked, held_values, mark_values, set_marked, mark_value, push_child, mark_loop, mark_fuel,
  is_garbage, sweep, sweep_unreachable, marked_memory, collect_ready, collect_cycles,
}
use bread_lang.Memory.Marks.{is_tracked, is_tracked_step, mark_loop_step, marked_memory-SameNodes}

unfoldable pub count_unmarked : List Node → ℕ
count_unmarked [] = 0
count_unmarked (n ∷ ns) = let rest = count_unmarked ns in if n.marked then rest else suc rest

count_unmarked-le : (ns : List Node) → count_unmarked ns ≤ length ns
unfolding count_unmarked
count_unmarked-le [] = omega arith
count_unmarked-le (n ∷ ns) = elim (Bool-cases n.marked) [
  | inl e ↦ let ih = count_unmarked-le ns in rw e (omega arith)
  | inr e ↦ let ih = count_unmarked-le ns in rw e (omega arith)
]

is_unmarked_step :
    (n : Node) (ns : List Node) (a : ℕ)
    → is_unmarked (n ∷ ns) a ≡ (if n.object == a then not n.marked else is_unmarked ns a)
unfolding is_unmarked find_node
is_unmarked_step n ns a = elim (Bool-cases (n.object == a)) [
  | inl hit ↦ rw hit refl
  | inr miss ↦ rw miss refl
]

-- A mark on an unmarked object leaves one object less without a mark.
count_unmarked-set_marked :
    (ns : List Node) (a : ℕ)
    → is_unmarked ns a ≡ true
    → count_unmarked ns ≡ suc (count_unmarked (set_marked ns a))
unfolding count_unmarked set_marked
count_unmarked-set_marked [] a e = unfold is_unmarked find_node in cc
count_unmarked-set_marked (n ∷ ns) a e = elim (Bool-cases (n.object == a)) [
  | inl hit ↦
      let new : n.marked ≡ false = not-true (rw (is_unmarked_step n ns a, hit) at e) in
      rw (hit, new) refl
  | inr miss ↦
      let ih = count_unmarked-set_marked ns a (rw (is_unmarked_step n ns a, miss) at e) in
      elim (Bool-cases n.marked) [
        | inl old ↦ rw (miss, old) ih
        | inr new ↦ rw (miss, new) (ap suc ih)
      ]
]
  where
    not-true : {b : Bool} → not b ≡ true → b ≡ false
    not-true h = ground arith

push_child-length :
    (ns : List Node) (p : Option ℕ) (stack : List ℕ)
    → length (push_child ns p stack) ≤ suc (length stack)
push_child-length ns none stack = omega arith
push_child-length ns (some a) stack = elim (Bool-cases (is_unmarked ns a)) [
  | inl new ↦ rw new (omega arith)
  | inr old ↦ rw old (omega arith)
]

mark_values-bound :
    (ns : List Node) (vs : List Value) (stack : List ℕ)
    → length stack ≤ 8192
    → length (mark_values ns vs stack) ≤ 8192
unfolding mark_values mark_value
mark_values-bound ns [] stack h = h
mark_values-bound ns (v ∷ vs) stack h =
    mark_values-bound ns vs (mark_value ns v stack) (one (leb 8192 (length stack)) refl)
  where
    one : (b : Bool) → leb 8192 (length stack) ≡ b → length (mark_value ns v stack) ≤ 8192
    one true full = rw full h
    one false room = rw room (omega (arith, push_child-length ns (ref v) stack, below room))
      where
        below : leb 8192 (length stack) ≡ false → length stack < 8192
        below e = ground arith

mark_loop-ends :
    (fuel : ℕ) (heap : ℕ → Object) (ns : List Node) (stack : List ℕ)
    → length stack ≤ 8192
    → count_unmarked ns * 8193 + length stack ≤ fuel
    → (mark_loop fuel heap ns stack).1 ≡ []
unfolding mark_loop
mark_loop-ends zero heap ns [] small enough = refl
mark_loop-ends zero heap ns (a ∷ stack) small enough = absurd (omega arith)
mark_loop-ends (suc fuel) heap ns [] small enough = refl
mark_loop-ends (suc fuel) heap ns (a ∷ stack) small enough = elim (Bool-cases (is_unmarked ns a)) [
  | inr old ↦
      rw (mark_loop_step fuel heap ns a stack, old)
        (mark_loop-ends fuel heap ns stack (omega arith) (omega arith))
  | inl new ↦
      let bound =
        mark_values-bound (set_marked ns a) (held_values (heap a).body) stack (omega arith) in
      rw (mark_loop_step fuel heap ns a stack, new)
        (mark_loop-ends fuel heap (set_marked ns a)
          (mark_values (set_marked ns a) (held_values (heap a).body) stack) bound
          (omega (arith, bound, count_unmarked-set_marked ns a new)))
]

-- With the fuel of the model, the loop of `bread_memory_mark_reachable` ends with an empty stack, whatever
-- objects refer to each other.
pub mark_loop_lem :
    (heap : ℕ → Object) (root : ℕ) (ns : List Node)
    → (mark_loop (mark_fuel ns) heap ns (root ∷ [])).1 ≡ []
mark_loop_lem heap root ns =
    mark_loop-ends (mark_fuel ns) heap ns (root ∷ []) (omega arith)
      (omega (arith, count_unmarked-le ns))

sweep-tracked :
    (heap : ℕ → Object) (a : ℕ) (ns : List Node) (p : MemoryPool) (s : Stats)
    → ((heap a).refcount == 0) ≡ false
    → is_tracked (sweep heap ns p s).nodes a ≡ is_tracked ns a
unfolding sweep
sweep-tracked heap a [] p s h = refl
sweep-tracked heap a (n ∷ ns) p s h = elim (Bool-cases (is_garbage heap n)) [
  | inr kept ↦ rw kept (
      is_tracked_step n (sweep heap ns p s).nodes a
      ∙ ap (λ (u : Bool). if n.object == a then true else u) (sweep-tracked heap a ns p s h)
      ∙ sym (is_tracked_step n ns a))
  | inl dead ↦
      let other = elsewhere (n.object == a) refl dead in
      rw dead (
        sweep-tracked heap a ns (pool_free n.object p).1 (count_untracked n.size s) h
        ∙ sym
            (is_tracked_step n ns a ∙ ap (λ (b : Bool). if b then true else is_tracked ns a) other))
]
  where
    elsewhere :
        (b : Bool) → (n.object == a) ≡ b → is_garbage heap n ≡ true → (n.object == a) ≡ false
    elsewhere false e dead = e
    elsewhere true e dead =
        let count : (heap a).refcount ≡ (heap n.object).refcount =
          ap (λ (k : ℕ). (heap k).refcount) (sym (same e)) in
        ground arith
      where
        same : (n.object == a) ≡ true → n.object ≡ a
        same e = ground arith

ensure_init-started : (m : Memory) → m.initialized ≡ true → ensure_init m ≡ m
unfolding ensure_init
ensure_init-started m e = rw e refl

started-ensure_init : (m : Memory) → (ensure_init m).initialized ≡ true
unfolding ensure_init
started-ensure_init m = elim (Bool-cases m.initialized) [ inl e ↦ simp e refl | inr e ↦ rw e refl ]

module _ (granted : ℕ → Bool) (m : Memory) (a : ℕ) (live : ((m.heap a).refcount == 0) ≡ false) where
  swept-tracked :
      m.initialized ≡ true
      → is_tracked (sweep_unreachable (marked_memory granted m)).objects a ≡ is_tracked m.objects a
  unfolding sweep_unreachable
  swept-tracked on =
      let marked = marked_memory granted m in
      subst
        (λ (n : Memory).
          is_tracked (sweep n.heap n.objects n.pool n.stats).nodes a ≡ is_tracked m.objects a)
        (sym (ensure_init-started marked (marked-started on)))
        (sweep-tracked marked.heap a marked.objects marked.pool marked.stats (marked-heap live)
          ∙ (marked_memory-SameNodes granted m).tracked a)
    where
      marked-started : m.initialized ≡ true → (marked_memory granted m).initialized ≡ true
      marked-started e = unfold marked_memory in e

      marked-heap :
          ((m.heap a).refcount == 0) ≡ false
          → (((marked_memory granted m).heap a).refcount == 0) ≡ false
      marked-heap e = unfold marked_memory in e

  ready-tracked :
      m.initialized ≡ true → is_tracked (collect_ready granted m).objects a ≡ is_tracked m.objects a
  unfolding collect_ready
  ready-tracked on = by_setting m.cycle_collection_enabled _ (swept-tracked on)
    where
      by_setting :
          (b : Bool) (n : Memory)
          → is_tracked n.objects a ≡ is_tracked m.objects a
          → is_tracked (if b then n else m).objects a ≡ is_tracked m.objects a
      by_setting true n e = e
      by_setting false n e = refl

heap-ensure_init : (m : Memory) → (ensure_init m).heap ≡ m.heap
unfolding ensure_init
heap-ensure_init m = elim (Bool-cases m.initialized) [ inl e ↦ rw e refl | inr e ↦ rw e refl ]

-- Of the objects whose reference count is not zero, reachable or not, bread_memory_collect_cycles
-- untracks none and tracks none anew; a manager that is not initialised is initialised first.
pub collect_cycles-tracked :
    (granted : ℕ → Bool) (m : Memory) (a : ℕ)
    → ((m.heap a).refcount == 0) ≡ false
    → is_tracked (collect_cycles granted m).objects a ≡ is_tracked (ensure_init m).objects a
unfolding collect_cycles
collect_cycles-tracked granted m a live =
    ready-tracked granted (ensure_init m) a
      (ap (λ (h : ℕ → Object). (h a).refcount == 0) (heap-ensure_init m) ∙ live)
      (started-ensure_init m)
