-- ===== src/Memory/Resizing.antt =====
-- Reallocation keeps the statistics in step.
use bread_lang.Prelude.{
  ℕ, suc, ◌+◌, ◌-◌, ◌≤◌, ◌≡◌, refl, sym, ap, ◌∙◌, subst, Option, none, some, List, [], ◌∷◌, ltb,
  ltb→lt, ◌==◌, if◌then◌else◌, inl, inr, Bool-cases, length, arith,
}
use bread_lang.Memory.Pool.{pool_free}
use bread_lang.Memory.Objects.{obj_string, Node, Stats, Memory, ensure_init, find_node}
use bread_lang.Memory.Accounts.{total_size, Counts, Counts-eq}
use bread_lang.Memory.Allocating.{
  Answers, small_block, or_block, size_of, move_node, count_resized, moved, realloc_given, realloc,
}
use bread_lang.Memory.Keeping.{
  IsReady, IsConsistent, ready-IsConsistent, ensure_init-IsReady, alloc-IsReady, pool-IsReady,
}

move_node-length : (ns : List Node) (a b size : ℕ) → length (move_node ns a b size) ≡ length ns
unfolding move_node
move_node-length [] a b size = refl
move_node-length (n ∷ ns) a b size = elim (Bool-cases (n.object == a)) [
  | inl hit ↦ rw hit refl
  | inr miss ↦ rw miss (ap suc (move_node-length ns a b size))
]

move_node-total_size :
    (ns : List Node) (a b size : ℕ)
    → total_size (move_node ns a b size) + size_of (find_node ns a) ≤ total_size ns + size
unfolding move_node total_size find_node
move_node-total_size [] a b size = omega arith
move_node-total_size (n ∷ ns) a b size = elim (Bool-cases (n.object == a)) [
  | inl hit ↦ rw hit (omega arith)
  | inr miss ↦ rw miss (omega (arith, move_node-total_size ns a b size))
]

resized-Counts :
    (s : Stats) (n b c old new : ℕ)
    → Counts s n b
    → c + old ≤ b + new
    → Counts
        (if ltb old new
          then record s { bytes_allocated = s.bytes_allocated + (new - old) }
          else record s { bytes_freed = s.bytes_freed + (old - new) })
        n
        c
resized-Counts s n b c old new h k = elim (Bool-cases (ltb old new)) [
  | inl more ↦ rw more (record {
    current = h.current;
    total = h.total;
    peak = h.peak;
    size = omega (arith, h.size, ltb→lt old new more);
  })
  | inr less ↦
      let le : new ≤ old = ground arith in
      rw less (record {
        current = h.current;
        total = h.total;
        peak = h.peak;
        size = omega (arith, h.size);
      })
]

count_resized-stats :
    (old new : ℕ) (m : Memory)
    → ((count_resized old new m).stats ≡ (
        if ltb old new
        then record m.stats { bytes_allocated = m.stats.bytes_allocated + (new - old) }
        else record m.stats { bytes_freed = m.stats.bytes_freed + (old - new) }))
      × ((count_resized old new m).initialized ≡ m.initialized)
unfolding count_resized
count_resized-stats old new m = elim (Bool-cases (ltb old new)) [
  | inl more ↦ rw more (refl, refl)
  | inr less ↦ rw less (refl, refl)
]

moved-IsReady : (a size b : ℕ) {m : Memory} → IsReady m → IsReady (moved a size b m)
unfolding moved
moved-IsReady a size b {m} h =
    let old = size_of (find_node m.objects a) in
    let (stats, started) = count_resized-stats old size m in
    record {
      accounts =
          subst
            (λ (s : Stats).
              Counts s (length (move_node m.objects a b size))
                (total_size (move_node m.objects a b size)))
            (sym stats)
            (Counts-eq (sym (move_node-length m.objects a b size)) refl (
              resized-Counts m.stats (length m.objects) (total_size m.objects)
                (total_size (move_node m.objects a b size)) old size h.accounts
                (move_node-total_size m.objects a b size)));
      started = started ∙ h.started;
    }

realloc_given-IsReady :
    (a size : ℕ) {m : Memory} (got : Option ℕ)
    → IsReady m
    → IsReady (realloc_given a size m got).state
realloc_given-IsReady a size none h = h
realloc_given-IsReady a size (some b) h = moved-IsReady a size b h

pub realloc-IsReady :
    (ans : Answers) (p : Option ℕ) (size : ℕ) {m : Memory}
    → IsConsistent m
    → IsReady (realloc ans p size m).state
unfolding realloc
realloc-IsReady ans none size h =
    alloc-IsReady ans size obj_string (ready-IsConsistent (ensure_init-IsReady h))
realloc-IsReady ans (some a) size {m} h =
    let (got, pool) = small_block ans.chunk size (pool_free a (ensure_init m).pool).1 in
    realloc_given-IsReady a size (or_block got ans.block)
      (pool-IsReady pool (ensure_init-IsReady h))
