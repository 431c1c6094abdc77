-- ===== src/Arrays/Validity.antt =====
-- Every operation keeps an array within its capacity, and its items of the array's type if it has one.
use bread_lang.Prelude.{
  ℕ, suc, ◌≤◌, ◌<◌, ◌≡◌, refl, ap, Bool, false, inl, inr, none, some, List, [], ◌∷◌, if◌then◌else◌,
  Bool-cases, Option-cases, take, drop, length, length-append, length-take, length-drop, length-set,
  arith,
}
use bread_lang.Prelude.Int.{ℤ}
use bread_lang.Values.{Value, type_mismatch}
use bread_lang.Arrays.{
  Array, count, failed, mismatched, adopt_type, reserve, append_ready, append, replace, set_found,
  set_safe, insert_ready, insert_found, insert, remove_found, remove_at, position, negative_index,
}
use bread_lang.Arrays.Room.{
  IsValid, AllOf-insert, AllOf-append, AllOf-remove, AllOf-set, matched, Suits, adopt_type-Suits,
  reserve-Suits,
}
use bread_lang.Arrays.Shifting.{insert_items_lem, remove_items_lem}

pub position-lt : (bound i : ℕ) (x : ℤ) → position bound x ≡ some i → i < bound
unfolding position
position-lt bound i x h = ground arith

Suits-IsValid : {a c : Array} {v : Value} → IsValid a → Suits a v c → IsValid c
Suits-IsValid {a} {c} h s =
    let same = ap (λ (xs : List Value). length xs) s.items in
    let capacity = s.capacity in
    let fits = h.fits in record { fits = omega arith; typed = λ t. rw s.items (s.typed t) }

append_ready-IsValid :
    (alloc : ℕ → Bool) {a c : Array} (v : Value)
    → IsValid a
    → Suits a v c
    → IsValid (append_ready c v (reserve alloc c)).state
unfolding append_ready
append_ready-IsValid alloc {a} {c} v h s = elim (Option-cases (reserve alloc c)) [
  | inl e ↦ rw e (Suits-IsValid h s)
  | inr (b, e) ↦
      let r = reserve-Suits alloc v h s e in
      let room = r.room in
      rw (e, r.items)
        (record {
          fits = omega (arith, length-append a.items (v ∷ []));
          typed = λ t. AllOf-append b.element_type a.items v (r.typed t) (r.suits t);
        })
]

insert_ready-IsValid :
    (alloc : ℕ → Bool) {a c : Array} (i : ℕ) (v : Value)
    → IsValid a
    → Suits a v c
    → i ≤ count a
    → IsValid (insert_ready c i v (reserve alloc c)).state
unfolding insert_ready
insert_ready-IsValid alloc {a} {c} i v h s le = elim (Option-cases (reserve alloc c)) [
  | inl e ↦ rw e (Suits-IsValid h s)
  | inr (b, e) ↦
      let r = reserve-Suits alloc v h s e in
      let room = r.room in
      rw (e, r.items, insert_items_lem a.items i v le)
        (record {
          fits = omega (
            arith,
            length-append (take i a.items) (v ∷ drop i a.items),
            length-take i a.items,
            length-drop i a.items,
          );
          typed = λ t. AllOf-insert b.element_type a.items i v (r.typed t) (r.suits t);
        })
]

pub append_step :
    (alloc : ℕ → Bool) (a : Array) (v : Value)
    → append alloc a v ≡ (
        if mismatched a v
        then failed false a none
        else append_ready (adopt_type a v) v (reserve alloc (adopt_type a v)))
unfolding append
append_step alloc a v = refl

append-IsValid :
    (alloc : ℕ → Bool) {a : Array} (v : Value) → IsValid a → IsValid (append alloc a v).state
append-IsValid alloc {a} v h = elim (Bool-cases (mismatched a v)) [
  | inl bad ↦ rw (append_step, bad) h
  | inr good ↦ rw (append_step, good) (append_ready-IsValid alloc v h (adopt_type-Suits a v h good))
]

pub insert_found_step :
    (alloc : ℕ → Bool) (a : Array) (v : Value) (i : ℕ)
    → insert_found alloc a v (some i) ≡ (
        if mismatched a v
        then failed false a (some type_mismatch)
        else insert_ready (adopt_type a v) i v (reserve alloc (adopt_type a v)))
unfolding insert_found
insert_found_step alloc a v i = refl

insert-IsValid :
    (alloc : ℕ → Bool) {a : Array} (v : Value) (idx : ℤ)
    → IsValid a
    → IsValid (insert alloc a v idx).state
unfolding insert insert_found
insert-IsValid alloc {a} v idx h =
    elim (Option-cases (position (suc (count a)) (negative_index (count a) idx))) [
      | inl e ↦ rw e h
      | inr (i, e) ↦
          let lt = position-lt (suc (count a)) i (negative_index (count a) idx) e in
          rw e (elim (Bool-cases (mismatched a v)) [
            | inl bad ↦ rw (insert_found_step alloc a v i, bad) h
            | inr good ↦
                rw (insert_found_step alloc a v i, good)
                  (insert_ready-IsValid alloc i v h (adopt_type-Suits a v h good) (omega arith))
          ])
    ]

set_safe-IsValid : {a : Array} (idx : ℤ) (v : Value) → IsValid a → IsValid (set_safe a idx v).state
unfolding set_safe set_found replace
set_safe-IsValid {a} idx v h =
    elim (Option-cases (position (count a) (negative_index (count a) idx))) [
      | inl e ↦ rw e h
      | inr (i, e) ↦ rw e (elim (Bool-cases (mismatched a v)) [
        | inl bad ↦ rw bad h
        | inr good ↦
            let fits = h.fits in
            rw good (record {
              fits = omega (arith, length-set a.items i v);
              typed = λ t. AllOf-set a.element_type a.items i v (h.typed t) (matched a v good t);
            })
      ])
    ]

remove_at-IsValid : {a : Array} (idx : ℤ) → IsValid a → IsValid (remove_at a idx).state
unfolding remove_at remove_found
remove_at-IsValid {a} idx h =
    elim (Option-cases (position (count a) (negative_index (count a) idx))) [
      | inl e ↦ rw e h
      | inr (i, e) ↦
          let lt = position-lt (count a) i (negative_index (count a) idx) e in
          let fits = h.fits in
          rw (e, remove_items_lem a.items i lt)
            (record {
              fits = omega (
                arith,
                length-append (take i a.items) (drop (suc i) a.items),
                length-take i a.items,
                length-drop (suc i) a.items,
              );
              typed = λ t. AllOf-remove a.element_type a.items i (h.typed t);
            })
    ]

-- An append, an insertion, a write or a removal keeps an array valid.
pub operations-IsValid :
    (alloc : ℕ → Bool) {a : Array} (idx : ℤ) (v : Value)
    → IsValid a
    → IsValid (append alloc a v).state
      × IsValid (insert alloc a v idx).state
      × IsValid (set_safe a idx v).state
      × IsValid (remove_at a idx).state
operations-IsValid alloc idx v h = (
  append-IsValid alloc v h,
  insert-IsValid alloc v idx h,
  set_safe-IsValid idx v h,
  remove_at-IsValid idx h,
)
