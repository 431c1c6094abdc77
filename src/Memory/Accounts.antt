-- ===== src/Memory/Accounts.antt =====
-- The statistics against the list of objects.
use bread_lang.Prelude.{
  ℕ, suc, ◌+◌, ◌≤◌, ◌≡◌, refl, ap, subst, some, List, [], ◌∷◌, ◌==◌, inl, inr, Bool-cases,
  Option-cases, length, arith,
}
use bread_lang.Memory.Pool.{MemoryPool, pool_free}
use bread_lang.Memory.Objects.{
  Object, Node, Stats, Memory, find_node, count_tracked, count_untracked, drop_node, untrack,
}
use bread_lang.Memory.Collector.{is_garbage, sweep}

-- The sizes of the objects, added up.
unfoldable pub total_size : List Node → ℕ
total_size [] = 0
total_size (n ∷ ns) = n.size + total_size ns

-- The statistics of so many objects of so many bytes.
pub record Counts (s : Stats) (objects bytes : ℕ) : Type 0 where
  pub current : s.current_objects ≡ objects
  pub total : s.total_allocations ≡ s.total_deallocations + s.current_objects
  pub peak : s.current_objects ≤ s.peak_objects
  pub size : s.bytes_freed + bytes ≤ s.bytes_allocated

abbrev pub Accounted : Memory → Type 0
Accounted m = Counts m.stats (length m.objects) (total_size m.objects)

pub Counts-eq : {s : Stats} {n k b j : ℕ} → n ≡ k → b ≡ j → Counts s n b → Counts s k j
Counts-eq {s} {n} {k} {b} {j} e d h =
    subst (λ (x : ℕ). Counts s x j) e (subst (λ (y : ℕ). Counts s n y) d h)

pub count_tracked-Counts :
    (s : Stats) (n b size : ℕ)
    → Counts s n b
    → Counts
        (count_tracked (record s { bytes_allocated = s.bytes_allocated + size }))
        (suc n)
        (size + b)
unfolding count_tracked
count_tracked-Counts s n b size h = record {
  current = omega (arith, h.current);
  total = omega (arith, h.total);
  peak = ground (arith, h.peak);
  size = omega (arith, h.size);
}

pub count_untracked-Counts :
    (s : Stats) (n b size : ℕ) → Counts s (suc n) (size + b) → Counts (count_untracked size s) n b
unfolding count_untracked
count_untracked-Counts s n b size h = record {
  current = omega (arith, h.current);
  total = omega (arith, h.total, h.current);
  peak = omega (arith, h.peak);
  size = omega (arith, h.size);
}

-- More bytes are allocated.
pub more_bytes-Counts :
    (s : Stats) (n b k : ℕ)
    → Counts s n b
    → Counts (record s { bytes_allocated = s.bytes_allocated + k }) n b
more_bytes-Counts s n b k h = record {
  current = h.current;
  total = h.total;
  peak = h.peak;
  size = omega (arith, h.size);
}

pub drop_node-found :
    (ns : List Node) (a : ℕ) (n : Node)
    → find_node ns a ≡ some n
    → (length ns ≡ suc (length (drop_node ns a)))
      × (total_size ns ≡ n.size + total_size (drop_node ns a))
unfolding find_node drop_node total_size
drop_node-found [] a n e = cc
drop_node-found (m ∷ ns) a n e = elim (Bool-cases (m.object == a)) [
  | inl hit ↦
      let same : m ≡ n = cc (rw hit at e) in
      rw hit (refl, ap (λ (k : Node). k.size + total_size ns) same)
  | inr miss ↦
      let (l, t) = drop_node-found ns a n (rw miss at e) in rw miss (ap suc l, omega (arith, t))
]

pub untrack-Accounted : (a : ℕ) (m : Memory) → Accounted m → Accounted (untrack a m)
unfolding untrack
untrack-Accounted a m h = elim (Option-cases (find_node m.objects a)) [
  | inl e ↦ rw e h
  | inr (n, e) ↦
      let (l, t) = drop_node-found m.objects a n e in
      rw e (
        count_untracked-Counts m.stats (length (drop_node m.objects a))
          (total_size (drop_node m.objects a)) n.size (Counts-eq l t h))
]

-- The sweep takes out of the list what it counts.
pub sweep-Counts :
    (heap : ℕ → Object) (ns : List Node) (p : MemoryPool) (s : Stats) (k j : ℕ)
    → Counts s (length ns + k) (total_size ns + j)
    → Counts
        (sweep heap ns p s).stats
        (length (sweep heap ns p s).nodes + k)
        (total_size (sweep heap ns p s).nodes + j)
unfolding sweep total_size
sweep-Counts heap [] p s k j h = h
sweep-Counts heap (n ∷ ns) p s k j h = elim (Bool-cases (is_garbage heap n)) [
  | inl dead ↦ rw dead (
      sweep-Counts heap ns (pool_free n.object p).1 (count_untracked n.size s) k j (
        count_untracked-Counts s (length ns + k) (total_size ns + j) n.size
          (Counts-eq (omega arith) (omega arith) h)))
  | inr kept ↦ rw kept (
      Counts-eq (omega arith) (omega arith)
        (sweep-Counts heap ns p s (suc k) (n.size + j) (Counts-eq (omega arith) (omega arith) h)))
]
