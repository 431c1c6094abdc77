-- ===== src/Arrays/OneType.antt =====
-- The items of an array that is given no `nil` are of one type (src/core/value_array.c).
use bread_lang.Prelude.{
  ℕ, ◌≡◌, ◌<◌, ◌++◌, [], refl, ap, ◌∙◌, Bool, true, false, inl, inr, none, some, ◌∷◌, ◌==◌, Option,
  Bool-cases, Option-cases, length-set, arith,
}
use bread_lang.Prelude.Int.{ℤ}
use bread_lang.Values.{Value, type_of, is_nil_type}
use bread_lang.Arrays.{
  Array, count, mismatched, adopt_type, reserve, append_ready, append, replace, set_found, set_safe,
  insert_ready, insert_items, insert_found, insert, remove_found, remove_at, position,
  negative_index,
}
use bread_lang.Arrays.Room.{IsValid}
use bread_lang.Arrays.Validity.{position-lt, append_step, insert_found_step, operations-IsValid}

-- The array has a type, unless it is empty.
abbrev pub HasType : Array → Type 0
HasType a = is_nil_type a.element_type ≡ true → count a ≡ 0

-- A valid array that has a type unless it is empty: all its items are of that type.
pub record IsOfOneType (a : Array) : Type 0 where
  pub valid : IsValid a
  pub typed : HasType a

HasType-known : (a : Array) → is_nil_type a.element_type ≡ false → HasType a
HasType-known a e h = absurd (cc)

adopt_type-typed :
    (a : Array) (v : Value)
    → HasType a
    → is_nil_type (type_of v) ≡ false
    → is_nil_type (adopt_type a v).element_type ≡ false
unfolding adopt_type
adopt_type-typed a v h e = elim (Bool-cases (is_nil_type a.element_type)) [
  | inl untyped ↦
      let z = h untyped in
      let none_yet : (count a == 0) ≡ true = ground arith in rw (untyped, none_yet) e
  | inr typed ↦ rw (typed, typed) refl
]

reserve-element_type :
    (alloc : ℕ → Bool) (a b : Array) → reserve alloc a ≡ some b → b.element_type ≡ a.element_type
unfolding reserve
reserve-element_type alloc a b e = ground arith

module _ (alloc : ℕ → Bool) (a : Array) (v : Value) (h : HasType a)
    (known : is_nil_type (type_of v) ≡ false) where
  reserved-typed :
      (b : Array) → reserve alloc (adopt_type a v) ≡ some b → is_nil_type b.element_type ≡ false
  reserved-typed b e =
      ap (λ t. is_nil_type t) (reserve-element_type alloc (adopt_type a v) b e)
      ∙ adopt_type-typed a v h known

  append-HasType : HasType (append alloc a v).state
  unfolding append_ready
  append-HasType = elim (Bool-cases (mismatched a v)) [
    | inl bad ↦ rw (append_step, bad) h
    | inr good ↦ elim (Option-cases (reserve alloc (adopt_type a v))) [
      | inl e ↦
          rw (append_step, good, e) (HasType-known (adopt_type a v) (adopt_type-typed a v h known))
      | inr (b, e) ↦
          rw (append_step, good, e)
            (HasType-known (record b { items = b.items ++ v ∷ [] }) (reserved-typed b e))
    ]
  ]

  insert_found-HasType : (p : Option ℕ) → HasType (insert_found alloc a v p).state
  unfolding insert_ready insert_found
  insert_found-HasType none = h
  insert_found-HasType (some i) = elim (Bool-cases (mismatched a v)) [
    | inl bad ↦ rw (insert_found_step, bad) h
    | inr good ↦ elim (Option-cases (reserve alloc (adopt_type a v))) [
      | inl e ↦
          rw (insert_found_step, good, e)
            (HasType-known (adopt_type a v) (adopt_type-typed a v h known))
      | inr (b, e) ↦
          rw (insert_found_step, good, e)
            (HasType-known (record b { items = insert_items b.items i v }) (reserved-typed b e))
    ]
  ]

  set_found-HasType : (p : Option ℕ) → HasType (set_found a v p).state
  unfolding set_found replace
  set_found-HasType none = h
  set_found-HasType (some i) = elim (Bool-cases (mismatched a v)) [
    | inl bad ↦ rw bad h
    | inr good ↦ rw good (λ e. length-set a.items i v ∙ h e)
  ]

remove_found-HasType :
    (a : Array) (p : Option ℕ)
    → ((i : ℕ) → p ≡ some i → i < count a)
    → HasType a
    → HasType (remove_found a p).state
unfolding remove_found
remove_found-HasType a none lt h = h
remove_found-HasType a (some i) lt h = λ e. let z = h e in absurd (let l = lt i refl in omega arith)

-- An array whose items fit into its capacity, which has a type unless it is empty, and whose items are
-- all of that type, is still such an array after an append, an insertion or a write of a value that is
-- not `nil`, and after a removal, at any index, whether the operation succeeds or fails and whether an
-- allocation is granted or refused.
pub operations-IsOfOneType :
    (alloc : ℕ → Bool) {a : Array} (idx : ℤ) (v : Value)
    → IsOfOneType a
    → is_nil_type (type_of v) ≡ false
    → IsOfOneType (append alloc a v).state
      × IsOfOneType (insert alloc a v idx).state
      × IsOfOneType (set_safe a idx v).state
      × IsOfOneType (remove_at a idx).state
unfolding insert set_safe remove_at
operations-IsOfOneType alloc {a} idx v h known =
    let (appended, inserted, written, removed) = operations-IsValid alloc idx v h.valid in
    let t = h.typed in
    let p = position (count a) (negative_index (count a) idx) in
    (
      record { valid = appended; typed = append-HasType alloc a v t known },
      record { valid = inserted; typed = insert_found-HasType alloc a v t known _ },
      record { valid = written; typed = set_found-HasType alloc a v t known p },
      record {
        valid = removed;
        typed =
            remove_found-HasType a p
              (λ i e. position-lt (count a) i (negative_index (count a) idx) e) t;
      },
    )
