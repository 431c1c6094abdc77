-- ===== src/Memory/Marks.antt =====
-- Marking changes marks alone, and ends.
use bread_lang.Prelude.{
  ℕ, zero, suc, ◌+◌, ◌≡◌, refl, sym, ap, ◌∙◌, Bool, true, false, ◌&&◌, Option, none, some, List, [],
  ◌∷◌, ◌++◌, ◌==◌, if◌then◌else◌, inl, inr, Bool-cases, length,
}
use bread_lang.Memory.Objects.{Object, Node, Memory, find_node}
use bread_lang.Memory.Collector.{
  is_unmarked, held_values, mark_values, set_marked, mark_loop, mark_fuel, mark_reachable,
  clear_marks, referenced, mark_all, marked_memory,
}
use bread_lang.Memory.Accounts.{total_size}

-- Whether an object is tracked.
abbrev pub is_node : Option Node → Bool
is_node none = false
is_node (some n) = true

unfoldable pub is_tracked : List Node → ℕ → Bool
is_tracked ns a = is_node (find_node ns a)

pub is_tracked_step :
    (n : Node) (ns : List Node) (a : ℕ)
    → is_tracked (n ∷ ns) a ≡ (if n.object == a then true else is_tracked ns a)
unfolding is_tracked find_node
is_tracked_step n ns a = elim (Bool-cases (n.object == a)) [
  | inl hit ↦ rw hit refl
  | inr miss ↦ rw miss refl
]

-- What marks do not change: how many objects there are, their sizes, and which.
pub record SameNodes (ns ms : List Node) : Type 0 where
  pub count : length ms ≡ length ns
  pub size : total_size ms ≡ total_size ns
  pub tracked : (a : ℕ) → is_tracked ms a ≡ is_tracked ns a

SameNodes-refl : (ns : List Node) → SameNodes ns ns
SameNodes-refl ns = record { count = refl; size = refl; tracked = λ a. refl }

SameNodes-trans : {ns ms ks : List Node} → SameNodes ns ms → SameNodes ms ks → SameNodes ns ks
SameNodes-trans p q = record {
  count = q.count ∙ p.count;
  size = q.size ∙ p.size;
  tracked = λ a. q.tracked a ∙ p.tracked a;
}

set_marked-SameNodes : (ns : List Node) (a : ℕ) → SameNodes ns (set_marked ns a)
unfolding set_marked total_size
set_marked-SameNodes [] a = SameNodes-refl []
set_marked-SameNodes (n ∷ ns) a = elim (Bool-cases (n.object == a)) [
  | inl hit ↦ rw hit (record {
    count = refl;
    size = refl;
    tracked = λ b. is_tracked_step (record n { marked = true }) ns b ∙ sym (is_tracked_step n ns b);
  })
  | inr miss ↦
      let ih = set_marked-SameNodes ns a in
      rw miss (record {
        count = ap suc ih.count;
        size = ap (λ (k : ℕ). n.size + k) ih.size;
        tracked = λ b.
            is_tracked_step n (set_marked ns a) b
            ∙ ap (λ (u : Bool). if n.object == b then true else u) (ih.tracked b)
            ∙ sym (is_tracked_step n ns b);
      })
]

clear_marks-SameNodes : (ns : List Node) → SameNodes ns (clear_marks ns)
unfolding clear_marks total_size
clear_marks-SameNodes [] = SameNodes-refl []
clear_marks-SameNodes (n ∷ ns) =
    let ih = clear_marks-SameNodes ns in
    record {
      count = ap suc ih.count;
      size = ap (λ (k : ℕ). n.size + k) ih.size;
      tracked = λ b.
          is_tracked_step (record n { marked = false }) (clear_marks ns) b
          ∙ ap (λ (u : Bool). if n.object == b then true else u) (ih.tracked b)
          ∙ sym (is_tracked_step n ns b);
    }

pub mark_loop_step :
    (fuel : ℕ) (heap : ℕ → Object) (ns : List Node) (a : ℕ) (stack : List ℕ)
    → mark_loop (suc fuel) heap ns (a ∷ stack)
      ≡ mark_loop fuel heap (if is_unmarked ns a then set_marked ns a else ns) (
          if is_unmarked ns a
          then mark_values (set_marked ns a) (held_values (heap a).body) stack
          else stack)
unfolding mark_loop
mark_loop_step fuel heap ns a stack = elim (Bool-cases (is_unmarked ns a)) [
  | inl new ↦ rw (mark_loop, new)
  | inr old ↦ rw (mark_loop, old)
]

mark_loop-SameNodes :
    (fuel : ℕ) (heap : ℕ → Object) (ns : List Node) (stack : List ℕ)
    → SameNodes ns (mark_loop fuel heap ns stack).0
unfolding mark_loop
mark_loop-SameNodes zero heap ns stack = SameNodes-refl ns
mark_loop-SameNodes (suc fuel) heap ns [] = SameNodes-refl ns
mark_loop-SameNodes (suc fuel) heap ns (a ∷ stack) = elim (Bool-cases (is_unmarked ns a)) [
  | inl new ↦
      rw (mark_loop_step fuel heap ns a stack, new)
        (SameNodes-trans (set_marked-SameNodes ns a) (
          mark_loop-SameNodes fuel heap (set_marked ns a)
            (mark_values (set_marked ns a) (held_values (heap a).body) stack)))
  | inr old ↦ rw (mark_loop_step fuel heap ns a stack, old) (mark_loop-SameNodes fuel heap ns stack)
]

mark_reachable-SameNodes :
    (granted : Bool) (heap : ℕ → Object) (root : ℕ) (ns : List Node)
    → SameNodes ns (mark_reachable granted heap root ns)
unfolding mark_reachable
mark_reachable-SameNodes granted heap root ns = elim (Bool-cases (is_unmarked ns root && granted)) [
  | inl go ↦ rw go (mark_loop-SameNodes (mark_fuel ns) heap ns (root ∷ []))
  | inr stay ↦ rw stay (SameNodes-refl ns)
]

mark_all-SameNodes :
    (granted : ℕ → Bool) (heap : ℕ → Object) (rs : List ℕ) (ns : List Node)
    → SameNodes ns (mark_all granted heap rs ns)
unfolding mark_all
mark_all-SameNodes granted heap [] ns = SameNodes-refl ns
mark_all-SameNodes granted heap (r ∷ rs) ns =
    SameNodes-trans (mark_reachable-SameNodes (granted r) heap r ns)
      (mark_all-SameNodes granted heap rs (mark_reachable (granted r) heap r ns))

pub marked_memory-SameNodes :
    (granted : ℕ → Bool) (m : Memory) → SameNodes m.objects (marked_memory granted m).objects
unfolding marked_memory
marked_memory-SameNodes granted m = SameNodes-trans (clear_marks-SameNodes m.objects) (
    mark_all-SameNodes granted m.heap (referenced m.heap (clear_marks m.objects) ++ m.gc_roots)
      (clear_marks m.objects))
