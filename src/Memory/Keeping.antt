-- ===== src/Memory/Keeping.antt =====
-- Every operation keeps the statistics in step with the list of objects.
use bread_lang.Prelude.{
  ℕ, ◌≡◌, refl, sym, Bool, true, false, Option, none, some, [], if◌then◌else◌, length, arith,
}
use bread_lang.Memory.Pool.{MemoryPool}
use bread_lang.Memory.Objects.{ObjKind, Object, Memory, initial, ensure_init, track}
use bread_lang.Memory.Collector.{sweep_unreachable, marked_memory, collect_ready, collect_cycles}
use bread_lang.Memory.Accounts.{
  total_size, Counts, Counts-eq, Accounted, count_tracked-Counts, more_bytes-Counts, sweep-Counts,
}
use bread_lang.Memory.Marks.{marked_memory-SameNodes}
use bread_lang.Memory.Allocating.{
  Answers, small_block, or_block, alloc_given, created, should_trigger_gc, maybe_collect, alloc,
}

-- A manager that is initialised, with statistics in step.
pub record IsReady (m : Memory) : Type 0 where
  pub accounts : Accounted m
  pub started : m.initialized ≡ true

-- The invariant: before the initialisation and after the clean-up there is no object.
pub record IsConsistent (m : Memory) : Type 0 where
  pub accounts : m.initialized ≡ true → Accounted m
  pub emptied : m.initialized ≡ false → m.objects ≡ []

pub ready-IsConsistent : {m : Memory} → IsReady m → IsConsistent m
ready-IsConsistent h = record { accounts = λ e. h.accounts; emptied = λ e. cc (e, h.started) }

initial-IsReady : (heap : ℕ → Object) → IsReady (initial heap)
unfolding total_size
initial-IsReady heap = record {
  accounts = record { current = refl; total = refl; peak = omega arith; size = omega arith };
  started = refl;
}

if-IsReady :
    (b : Bool) {m n : Memory}
    → (b ≡ true → IsReady m)
    → (b ≡ false → IsReady n)
    → IsReady (if b then m else n)
if-IsReady true h k = h refl
if-IsReady false h k = k refl

pub if-IsConsistent :
    (b : Bool) {m n : Memory}
    → (b ≡ true → IsConsistent m)
    → (b ≡ false → IsConsistent n)
    → IsConsistent (if b then m else n)
if-IsConsistent true h k = h refl
if-IsConsistent false h k = k refl

pub ensure_init-IsReady : {m : Memory} → IsConsistent m → IsReady (ensure_init m)
unfolding ensure_init
ensure_init-IsReady {m} h =
    if-IsReady m.initialized (λ e. record { accounts = h.accounts e; started = e })
      (λ e. initial-IsReady m.heap)

pub sweep-IsReady : {m : Memory} → IsConsistent m → IsReady (sweep_unreachable m)
unfolding sweep_unreachable
sweep-IsReady {m} c =
    let h = ensure_init-IsReady c in
    record {
      accounts = Counts-eq (omega arith) (omega arith) (
          sweep-Counts (ensure_init m).heap (ensure_init m).objects (ensure_init m).pool
            (ensure_init m).stats 0 0 (Counts-eq (omega arith) (omega arith) h.accounts));
      started = h.started;
    }

marked-IsReady : (granted : ℕ → Bool) {m : Memory} → IsReady m → IsReady (marked_memory granted m)
marked-IsReady granted {m} h =
    let same = marked_memory-SameNodes granted m in
    record {
      accounts = Counts-eq (sym same.count) (sym same.size) (stats_kept h.accounts);
      started = started_kept h.started;
    }
  where
    stats_kept :
        Accounted m
        → Counts (marked_memory granted m).stats (length m.objects) (total_size m.objects)
    stats_kept k = unfold marked_memory in k

    started_kept : m.initialized ≡ true → (marked_memory granted m).initialized ≡ true
    started_kept k = unfold marked_memory in k

collect_ready-IsReady :
    (granted : ℕ → Bool) {m : Memory} → IsReady m → IsReady (collect_ready granted m)
unfolding collect_ready
collect_ready-IsReady granted {m} h =
    let k = sweep-IsReady (ready-IsConsistent (marked-IsReady granted h)) in
    if-IsReady m.cycle_collection_enabled
      (λ e. record { accounts = k.accounts; started = k.started }) (λ e. h)

pub collect-IsReady :
    (granted : ℕ → Bool) {m : Memory} → IsConsistent m → IsReady (collect_cycles granted m)
unfolding collect_cycles
collect-IsReady granted h = collect_ready-IsReady granted (ensure_init-IsReady h)

maybe_collect-IsReady :
    (granted : ℕ → Bool) {m : Memory} → IsReady m → IsReady (maybe_collect granted m)
unfolding maybe_collect
maybe_collect-IsReady granted {m} h =
    if-IsReady (should_trigger_gc m) (λ e. collect-IsReady granted (ready-IsConsistent h)) (λ e. h)

created-IsReady :
    (node_granted : Bool) (size : ℕ) (kind : ObjKind) (a : ℕ) {m : Memory}
    → IsReady m
    → IsReady (created node_granted size kind a m)
unfolding created track total_size
created-IsReady true size kind a {m} h = record {
  accounts = count_tracked-Counts m.stats (length m.objects) (total_size m.objects) size h.accounts;
  started = h.started;
}
created-IsReady false size kind a {m} h = record {
  accounts = more_bytes-Counts m.stats (length m.objects) (total_size m.objects) size h.accounts;
  started = h.started;
}

pub pool-IsReady : {m : Memory} (p : MemoryPool) → IsReady m → IsReady (record m { pool = p })
pool-IsReady p h = record { accounts = h.accounts; started = h.started }

alloc_given-IsReady :
    (ans : Answers) (size : ℕ) (kind : ObjKind) {m : Memory} (got : Option ℕ)
    → IsReady m
    → IsReady (alloc_given ans size kind m got).state
alloc_given-IsReady ans size kind none h = h
alloc_given-IsReady ans size kind (some a) h =
    maybe_collect-IsReady ans.stack (created-IsReady ans.node size kind a h)

pub alloc-IsReady :
    (ans : Answers) (size : ℕ) (kind : ObjKind) {m : Memory}
    → IsConsistent m
    → IsReady (alloc ans size kind m).state
unfolding alloc
alloc-IsReady ans size kind {m} h =
    let (got, pool) = small_block ans.chunk size (ensure_init m).pool in
    alloc_given-IsReady ans size kind (or_block got ans.block)
      (pool-IsReady pool (ensure_init-IsReady h))
