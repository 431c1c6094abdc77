-- ===== src/Memory/Releasing.antt =====
-- Releases, roots and the clean-up keep the statistics in step.
use bread_lang.Prelude.{
  ℕ, ◌+◌, ◌-◌, ◌≡◌, refl, sym, ◌∙◌, Bool, true, false, not, ◌&&◌, Option, none, some, List, [], leb,
  ◌^◌, ◌==◌, if◌then◌else◌, inl, inr, Option-cases, length,
}
use bread_lang.Memory.Objects.{Memory, ensure_init, find_node, drop_node, untrack}
use bread_lang.Values.{Outcome}
use bread_lang.Memory.Accounts.{untrack-Accounted}
use bread_lang.Memory.Allocating.{
  done, failed, free, set_refcount, object_retain, object_release, add_root, remove_root, cleanup,
}
use bread_lang.Memory.Keeping.{
  IsConsistent, ready-IsConsistent, if-IsConsistent, ensure_init-IsReady,
}

untrack-kept :
    (a : ℕ) (m : Memory)
    → ((untrack a m).initialized ≡ m.initialized) × (m.objects ≡ [] → (untrack a m).objects ≡ [])
unfolding untrack
untrack-kept a m = elim (Option-cases (find_node m.objects a)) [
  | inl e ↦ rw e (refl, λ h. h)
  | inr (n, e) ↦ rw e (refl, λ h. unfold drop_node in rw h refl)
]

pub free-IsConsistent : (a : ℕ) {m : Memory} → IsConsistent m → IsConsistent (free a m)
unfolding free
free-IsConsistent a {m} h =
    let (started, none_left) = untrack-kept a m in
    record {
      accounts = λ e. untrack-Accounted a m (h.accounts (sym started ∙ e));
      emptied = λ e. none_left (h.emptied (sym started ∙ e));
    }

refcount-IsConsistent : {m : Memory} (a n : ℕ) → IsConsistent m → IsConsistent (set_refcount m a n)
refcount-IsConsistent a n h = record { accounts = h.accounts; emptied = h.emptied }

if-state :
    (b : Bool) (f g : Outcome Memory Unit)
    → IsConsistent f.state
    → IsConsistent g.state
    → IsConsistent (if b then f else g).state
if-state true f g h k = h
if-state false f g h k = k

pub retain-IsConsistent :
    (p : Option ℕ) {m : Memory} → IsConsistent m → IsConsistent (object_retain p m).state
unfolding object_retain
retain-IsConsistent none h = h
retain-IsConsistent (some a) {m} h =
    if-state ((m.heap a).refcount == 2 ^ 32 - 1) (failed tt m)
      (done tt (set_refcount m a ((m.heap a).refcount + 1))) h
      (refcount-IsConsistent a ((m.heap a).refcount + 1) h)

pub release-IsConsistent :
    (p : Option ℕ) {m : Memory} → IsConsistent m → IsConsistent (object_release p m).state
unfolding object_release
release-IsConsistent none h = h
release-IsConsistent (some a) {m} h =
    let less = set_refcount m a ((m.heap a).refcount - 1) in
    let k = refcount-IsConsistent a ((m.heap a).refcount - 1) h in
    if-state ((m.heap a).refcount == 0) (failed tt m)
      (if (m.heap a).refcount == 1 then done tt (free a less) else done tt less) h
      (if-state ((m.heap a).refcount == 1) (done tt (free a less)) (done tt less)
        (free-IsConsistent a k) k)

pub add_root-IsConsistent :
    (granted : Bool) (a : ℕ) {m : Memory}
    → IsConsistent m
    → IsConsistent (add_root granted a m).state
unfolding add_root
add_root-IsConsistent granted a {m} h =
    let k = ready-IsConsistent (ensure_init-IsReady h) in
    by_room (leb (ensure_init m).gc_root_capacity (length (ensure_init m).gc_roots) && not granted)
      _ _ k
  where
    by_room :
        (b : Bool) {n : Memory} (f : List ℕ) (c : ℕ)
        → IsConsistent n
        → IsConsistent
            (if b
              then done false n
              else done true (record n { gc_roots = f; gc_root_capacity = c })).state
    by_room true f c k = k
    by_room false f c k = record { accounts = k.accounts; emptied = k.emptied }

pub remove_root-IsConsistent :
    (a : ℕ) {m : Memory} → IsConsistent m → IsConsistent (remove_root a m)
unfolding remove_root
remove_root-IsConsistent a {m} h =
    if-IsConsistent m.initialized (λ e. record { accounts = h.accounts; emptied = h.emptied })
      (λ e. h)

pub cleanup-IsConsistent : {m : Memory} → IsConsistent m → IsConsistent (cleanup m)
unfolding cleanup
cleanup-IsConsistent {m} h =
    if-IsConsistent m.initialized (λ e. record { accounts = λ k. cc; emptied = λ k. refl }) (λ e. h)
