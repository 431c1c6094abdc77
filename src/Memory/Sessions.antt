-- ===== src/Memory/Sessions.antt =====
-- Sequences of the calls of the memory manager, and the invariant that they keep.
use bread_lang.Prelude.{
  ℕ, zero, suc, ◌≡◌, Bool, false, not, Option, List, [], ◌∷◌, ◌==◌, inl, inr, Bool-cases, length,
}
use bread_lang.Memory.Objects.{ObjKind, Memory, ensure_init}
use bread_lang.Memory.Collector.{sweep_unreachable, collect_cycles}
use bread_lang.Prelude.Int.{ℤ, pos, negsuc}
use bread_lang.Memory.Allocating.{
  Answers, alloc, realloc, free, object_retain, object_release, add_root, remove_root,
  set_cycle_collection_threshold, enable_auto_gc, set_bytes_threshold, cleanup, check_leaks,
}
use bread_lang.Memory.Keeping.{
  IsConsistent, ready-IsConsistent, ensure_init-IsReady, collect-IsReady, sweep-IsReady,
  alloc-IsReady,
}
use bread_lang.Memory.Resizing.{realloc-IsReady}
use bread_lang.Memory.Releasing.{
  free-IsConsistent, retain-IsConsistent, release-IsConsistent, add_root-IsConsistent,
  remove_root-IsConsistent, cleanup-IsConsistent,
}

-- The calls, with what the C allocator answers.
pub data Request : Type 0 where
  start collect sweep_now clean : Request
  allocate : Answers → ℕ → ObjKind → Request
  reallocate : Answers → Option ℕ → ℕ → Request
  give_back forget_root : ℕ → Request
  retain release : Option ℕ → Request
  remember_root : Bool → ℕ → Request
  threshold : ℤ → Request
  automatic : Bool → Request
  bytes : ℕ → Request

unfoldable pub request : (ℕ → Bool) → Request → Memory → Memory
unfolding ensure_init collect_cycles sweep_unreachable cleanup alloc realloc free remove_root
    object_retain object_release add_root set_cycle_collection_threshold enable_auto_gc
    set_bytes_threshold
request stack start m = ensure_init m
request stack collect m = collect_cycles stack m
request stack sweep_now m = sweep_unreachable m
request stack clean m = cleanup m
request stack (allocate ans size kind) m = (alloc ans size kind m).state
request stack (reallocate ans p size) m = (realloc ans p size m).state
request stack (give_back a) m = free a m
request stack (forget_root a) m = remove_root a m
request stack (retain p) m = (object_retain p m).state
request stack (release p) m = (object_release p m).state
request stack (remember_root granted a) m = (add_root granted a m).state
request stack (threshold n) m = set_cycle_collection_threshold n m
request stack (automatic on) m = enable_auto_gc on m
request stack (bytes n) m = set_bytes_threshold n m

unfoldable pub requests : (ℕ → Bool) → List Request → Memory → Memory
unfolding request
requests stack [] m = m
requests stack (r ∷ rs) m = requests stack rs (request stack r m)

threshold-IsConsistent :
    (n : ℤ) {m : Memory} → IsConsistent m → IsConsistent (set_cycle_collection_threshold n m)
unfolding set_cycle_collection_threshold
threshold-IsConsistent (pos zero) h =
    let k = ready-IsConsistent (ensure_init-IsReady h) in
    record { accounts = k.accounts; emptied = k.emptied }
threshold-IsConsistent (pos (suc n)) h =
    let k = ready-IsConsistent (ensure_init-IsReady h) in
    record { accounts = k.accounts; emptied = k.emptied }
threshold-IsConsistent (negsuc n) h =
    let k = ready-IsConsistent (ensure_init-IsReady h) in
    record { accounts = k.accounts; emptied = k.emptied }

request-IsConsistent :
    (stack : ℕ → Bool) (r : Request) {m : Memory}
    → IsConsistent m
    → IsConsistent (request stack r m)
unfolding request
request-IsConsistent stack start h = ready-IsConsistent (ensure_init-IsReady h)
request-IsConsistent stack collect h = ready-IsConsistent (collect-IsReady stack h)
request-IsConsistent stack sweep_now h = ready-IsConsistent (sweep-IsReady h)
request-IsConsistent stack clean h = cleanup-IsConsistent h
request-IsConsistent stack (allocate ans size kind) h =
    ready-IsConsistent (alloc-IsReady ans size kind h)
request-IsConsistent stack (reallocate ans p size) h =
    ready-IsConsistent (realloc-IsReady ans p size h)
request-IsConsistent stack (give_back a) h = free-IsConsistent a h
request-IsConsistent stack (forget_root a) h = remove_root-IsConsistent a h
request-IsConsistent stack (retain p) h = retain-IsConsistent p h
request-IsConsistent stack (release p) h = release-IsConsistent p h
request-IsConsistent stack (remember_root granted a) h = add_root-IsConsistent granted a h
request-IsConsistent stack (threshold n) h = threshold-IsConsistent n h
request-IsConsistent stack (automatic on) h =
    let k = ready-IsConsistent (ensure_init-IsReady h) in
    record { accounts = k.accounts; emptied = k.emptied }
request-IsConsistent stack (bytes n) h =
    let k = ready-IsConsistent (ensure_init-IsReady h) in
    record { accounts = k.accounts; emptied = k.emptied }

requests-IsConsistent :
    (stack : ℕ → Bool) (rs : List Request) {m : Memory}
    → IsConsistent m
    → IsConsistent (requests stack rs m)
unfolding requests
requests-IsConsistent stack [] h = h
requests-IsConsistent stack (r ∷ rs) h =
    requests-IsConsistent stack rs (request-IsConsistent stack r h)

check_leaks-IsConsistent :
    (m : Memory) → IsConsistent m → check_leaks m ≡ not (length m.objects == 0)
unfolding check_leaks
check_leaks-IsConsistent m h = elim (Bool-cases m.initialized) [
  | inl on ↦ rw (on, (h.accounts on).current)
  | inr off ↦ rw (off, h.emptied off)
]

-- Memory before any call.
abbrev pub IsUnused : Memory → Type 0
IsUnused m = (m.initialized ≡ false) × (m.objects ≡ [])

-- After any sequence of the calls of the manager, from memory before any call, whatever the C allocator
-- answers: while the manager is initialised, the number of current objects is that of the list, the
-- allocations are the deallocations and the current objects, the peak is not below them, and the bytes
-- freed and those of the objects in the list are at most those allocated; while it is not, the list is
-- empty. And `bread_memory_check_leaks` says yes exactly when the list is not empty.
pub requests_lem :
    (stack : ℕ → Bool) (rs : List Request) (m : Memory)
    → IsUnused m
    → IsConsistent (requests stack rs m)
      × (check_leaks (requests stack rs m) ≡ not (length (requests stack rs m).objects == 0))
requests_lem stack rs m (off, empty) =
    let h = requests-IsConsistent stack rs (record { accounts = λ e. cc; emptied = λ e. empty }) in
    (h, check_leaks-IsConsistent (requests stack rs m) h)
