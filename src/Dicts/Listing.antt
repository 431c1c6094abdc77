-- ===== src/Dicts/Listing.antt =====
-- `bread_dict_keys` and `bread_dict_values`: the live entries as an array.
use mathlib.Core.List.{append_assoc, append-nil}
use bread_lang.Prelude.{
  ℕ, ◌*◌, ◌≡◌, refl, sym, ap, ◌∙◌, Bool, true, false, ◌&&◌, Option, none, some, List, [], ◌∷◌, ◌++◌,
  leb, ◌==◌, if◌then◌else◌, length, inl, inr, Bool-cases, arith,
}
use bread_lang.Types.{VarType}
use bread_lang.Values.{Value, type_of, is_nil_type}
use bread_lang.Arrays.{Array, count, new_typed, append, append_ready, adopt_type, reserve}
use bread_lang.Arrays as Arrays
use bread_lang.Arrays.Room.{type_eq_refl}
use bread_lang.Arrays.Validity.{append_step}
use bread_lang.Dicts.{Entry, Dict, is_live}
use bread_lang.Dicts.Stored.{IsValid, live_count}

-- What the live entries hold, in the order of the slots.
unfoldable pub live_values : (Entry → Value) → List Entry → List Value
unfolding is_live
live_values pick [] = []
live_values pick (e ∷ es) =
    let rest = live_values pick es in if is_live e then pick e ∷ rest else rest

-- The appends of the loop; `none` if one of them fails.
unfoldable pub append_all : (ℕ → Bool) → Array → List Value → Option Array
unfolding append
append_all alloc a [] = some a
append_all alloc a (v ∷ vs) =
    let rest = append_all alloc (append alloc a v).state vs in
    if (append alloc a v).result then rest else none

-- `bread_dict_keys` and `bread_dict_values` on a dictionary that is not NULL
unfoldable pub keys : (ℕ → Bool) → Dict → Option Array
unfolding live_values append_all
keys alloc d = append_all alloc (new_typed d.key_type) (live_values (λ e. e.key) d.entries)

unfoldable pub values : (ℕ → Bool) → Dict → Option Array
unfolding live_values append_all
values alloc d = append_all alloc (new_typed d.value_type) (live_values (λ e. e.value) d.entries)

-- All the values are of the type.
abbrev pub Typed : VarType → List Value → Type 0
Typed t [] = Unit
Typed t (v ∷ vs) = (type_of v ≡ t) × Typed t vs

not_mismatched :
    (a : Array) (v : Value) → type_of v ≡ a.element_type → Arrays.mismatched a v ≡ false
unfolding Arrays.mismatched
not_mismatched a v e = rw (e, type_eq_refl a.element_type) (ground arith)

adopt_type-same : (a : Array) (v : Value) → type_of v ≡ a.element_type → adopt_type a v ≡ a
unfolding adopt_type
adopt_type-same a v e = elim (Bool-cases (is_nil_type a.element_type && count a == 0)) [
  | inl h ↦ rw h (ap (λ (t : VarType). record a { element_type = t }) e)
  | inr h ↦ rw h
]

-- The buffer with room, which holds the same.
reserve-same :
    (alloc : ℕ → Bool) (a : Array)
    → ((n : ℕ) → alloc n ≡ true)
    → (c : ℕ) × (reserve alloc a ≡ some (record a { capacity = c }))
unfolding reserve
reserve-same alloc a granted = elim (Bool-cases (leb a.capacity (count a))) [
  | inl tight ↦ (
    if a.capacity == 0 then 8 else a.capacity * 2,
    rw (tight, granted (if a.capacity == 0 then 8 else a.capacity * 2)),
  )
  | inr roomy ↦ (a.capacity, rw roomy)
]

-- An append of a value of the array's type, where memory is granted.
append-same :
    (alloc : ℕ → Bool) (a : Array) (v : Value)
    → ((n : ℕ) → alloc n ≡ true)
    → type_of v ≡ a.element_type
    → (c : ℕ) × ((append alloc a v).result ≡ true)
      × ((append alloc a v).state ≡ record a { items = a.items ++ v ∷ []; capacity = c })
unfolding append_ready
append-same alloc a v granted e =
    let (c, room) = reserve-same alloc a granted in
    (
      c,
      rw (append_step alloc a v, not_mismatched a v e, adopt_type-same a v e, room),
      rw (append_step alloc a v, not_mismatched a v e, adopt_type-same a v e, room),
    )

append_all-items :
    (alloc : ℕ → Bool) (vs : List Value) (a : Array)
    → ((n : ℕ) → alloc n ≡ true)
    → Typed a.element_type vs
    → (c : ℕ) × (append_all alloc a vs ≡ some (record a { items = a.items ++ vs; capacity = c }))
unfolding append_all
append_all-items alloc [] a granted typed = (
  a.capacity,
  ap (λ (xs : List Value). some (record a { items = xs })) (sym (append-nil a.items)),
)
append_all-items alloc (v ∷ vs) a granted typed =
    let (c, done, state) = append-same alloc a v granted typed.0 in
    let (m, rest) =
      append_all-items alloc vs (record a { items = a.items ++ v ∷ []; capacity = c }) granted
        typed.1 in
    (
      m,
      rw (done, state)
          (rest
            ∙ ap (λ (xs : List Value). some (record a { items = xs; capacity = m }))
                (append_assoc a.items (v ∷ []) vs)),
    )

length-live_values :
    (pick : Entry → Value) (es : List Entry) → length (live_values pick es) ≡ live_count es
unfolding live_values live_count
length-live_values pick [] = refl
length-live_values pick (e ∷ es) = elim (Bool-cases (is_live e)) [
  | inl live ↦ rw live (omega (arith, length-live_values pick es))
  | inr dead ↦ rw dead (omega (arith, length-live_values pick es))
]

-- The array lists what is picked from the live entries, as many as the table counts.
pub record Lists (d : Dict) (pick : Entry → Value) (a : Array) : Type 0 where
  pub listed : a.items ≡ live_values pick d.entries
  pub counted : count a ≡ d.count

listed-Lists :
    {d : Dict} (pick : Entry → Value) (t : VarType) (c : ℕ)
    → IsValid d
    → Lists d pick (record { items = live_values pick d.entries; capacity = c; element_type = t })
listed-Lists {d} pick t c v = record {
  listed = refl;
  counted = length-live_values pick d.entries ∙ sym v.counted;
}

-- Where memory is granted, `bread_dict_keys` and `bread_dict_values` of a valid table whose keys and
-- values are of its types return arrays of the live entries' keys and values in the order of the slots,
-- each as long as the count of the table.
pub keys_and_values :
    (alloc : ℕ → Bool) {d : Dict}
    → ((n : ℕ) → alloc n ≡ true)
    → IsValid d
    → Typed d.key_type (live_values (λ e. e.key) d.entries)
    → Typed d.value_type (live_values (λ e. e.value) d.entries)
    → ((a : Array) × (keys alloc d ≡ some a) × Lists d (λ e. e.key) a)
      × ((a : Array) × (values alloc d ≡ some a) × Lists d (λ e. e.value) a)
unfolding keys values
keys_and_values alloc {d} granted v kt vt =
    let (c, ks) =
      append_all-items alloc (live_values (λ e. e.key) d.entries) (new_typed d.key_type) granted
        kt in
    let (m, vs) =
      append_all-items alloc (live_values (λ e. e.value) d.entries) (new_typed d.value_type) granted
        vt in
    (
      (_, ks, listed-Lists (λ e. e.key) d.key_type c v),
      (_, vs, listed-Lists (λ e. e.value) d.value_type m v),
    )
