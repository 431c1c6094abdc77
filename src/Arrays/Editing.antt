-- ===== src/Arrays/Editing.antt =====
-- What an insertion leaves in an array, and a removal after it.
use bread_lang.Prelude.{
  ℕ, zero, suc, ◌≤◌, ◌<◌, ◌≡◌, refl, ap, ◌∙◌, Bool, true, false, inl, inr, none, some, List, [],
  ◌∷◌, ◌++◌, ltb, if◌then◌else◌, Bool-cases, Option-cases, take, drop, get_or, leb, ◌==◌, ◌*◌,
  length, length-append, length-take, length-drop, arith,
}
use bread_lang.Prelude.Int.{ℤ, pos}
use bread_lang.Values.{Value, nil, Outcome}
use bread_lang.Arrays.{
  Array, count, mismatched, adopt_type, reserve, insert_ready, insert_found, insert, remove_found,
  remove_at, position, negative_index,
}
use bread_lang.Arrays.Room.{IsValid, adopt_type-Suits, Suits, reserve-Suits}
use bread_lang.Arrays.Validity.{position-lt}
use bread_lang.Arrays.Shifting.{insert_items_lem, remove_items_lem}

-- The item in the middle, and the items around it.
get_or-middle :
    (xs ys : List Value) (i : ℕ) (v : Value) → length xs ≡ i → get_or (xs ++ v ∷ ys) i nil ≡ v
get_or-middle [] ys zero v h = refl
get_or-middle [] ys (suc i) v h = absurd (omega arith)
get_or-middle (x ∷ xs) ys zero v h = absurd (omega arith)
get_or-middle (x ∷ xs) ys (suc i) v h = get_or-middle xs ys i v (omega arith)

remove-middle :
    (xs : List Value) (i : ℕ) (v : Value)
    → i ≤ length xs
    → take i (take i xs ++ v ∷ drop i xs) ++ drop (suc i) (take i xs ++ v ∷ drop i xs) ≡ xs
remove-middle xs zero v h = refl
remove-middle [] (suc i) v h = absurd (omega arith)
remove-middle (x ∷ xs) (suc i) v h = ap (λ t. x ∷ t) (remove-middle xs i v (omega arith))

middle-long :
    (xs : List Value) (i : ℕ) (v : Value) → i ≤ length xs → i < length (take i xs ++ v ∷ drop i xs)
middle-long xs i v h =
    omega (arith, length-append (take i xs) (v ∷ drop i xs), length-take i xs, length-drop i xs)

reserve_granted :
    (alloc : ℕ → Bool) (c : Array) → ((n : ℕ) → alloc n ≡ true) → reserve alloc c ≡ none → ⊥
unfolding reserve
reserve_granted alloc c h e = elim (Bool-cases (leb c.capacity (count c))) [
  | inl tight ↦ cc (rw (tight, h (if c.capacity == 0 then 8 else c.capacity * 2)) at e)
  | inr roomy ↦ cc (rw roomy at e)
]

-- An insertion that succeeds, and puts `v` at position `i`.
pub record Inserted (a : Array) (i : ℕ) (v : Value) (o : Outcome Array Bool) : Type 0 where
  pub done : o.result ≡ true
  pub whole : o.state.items ≡ take i a.items ++ v ∷ drop i a.items

insert_ready-Inserted :
    (alloc : ℕ → Bool) {a c : Array} (i : ℕ) (v : Value)
    → ((n : ℕ) → alloc n ≡ true)
    → IsValid a
    → Suits a v c
    → i ≤ count a
    → Inserted a i v (insert_ready c i v (reserve alloc c))
unfolding insert_ready
insert_ready-Inserted alloc {a} {c} i v granted h s le = elim (Option-cases (reserve alloc c)) [
  | inl e ↦ absurd (reserve_granted alloc c granted e)
  | inr (b, e) ↦
      let r = reserve-Suits alloc v h s e in
      rw (e, r.items) (record { done = refl; whole = insert_items_lem a.items i v le })
]

insert_step :
    (alloc : ℕ → Bool) (a : Array) (v : Value) (idx : ℤ) (i : ℕ)
    → position (suc (count a)) (negative_index (count a) idx) ≡ some i
    → mismatched a v ≡ false
    → insert alloc a v idx ≡ insert_ready (adopt_type a v) i v (reserve alloc (adopt_type a v))
unfolding insert insert_found
insert_step alloc a v idx i e good = rw (e, good)

-- The outcome of a removal at a position below the count.
removed :
    (b : Array) (i : ℕ)
    → i < count b
    → ((remove_at b (pos i)).result ≡ get_or b.items i nil)
      × ((remove_at b (pos i)).state.items ≡ take i b.items ++ drop (suc i) b.items)
unfolding remove_at remove_found position negative_index
removed b i lt =
    let here : ltb i (count b) ≡ true = ground arith in
    rw here (refl, remove_items_lem b.items i lt)

-- The value comes back, and the items are those before.
abbrev pub UndoneBy : Array → Value → Outcome Array Value → Type 0
UndoneBy a v o = (o.result ≡ v) × (o.state.items ≡ a.items)

undo :
    (a b : Array) (i : ℕ) (v : Value)
    → i ≤ count a
    → b.items ≡ take i a.items ++ v ∷ drop i a.items
    → UndoneBy a v (remove_at b (pos i))
undo a b i v le e =
    let long = middle-long a.items i v le in
    let same = ap (λ (xs : List Value). length xs) e in
    let (value, items) = removed b i (omega arith) in
    let prefix : length (take i a.items) ≡ i = omega (arith, length-take i a.items) in
    (
      value
          ∙ ap (λ xs. get_or xs i nil) e
          ∙ get_or-middle (take i a.items) (drop i a.items) i v prefix,
      items ∙ ap (λ xs. take i xs ++ drop (suc i) xs) e ∙ remove-middle a.items i v le,
    )

-- With memory granted, on a valid array that the value's type suits and at an index, counted from
-- the end if it is negative, that is a position `i` up to the count, an insertion succeeds, puts the
-- value before the items from `i` on, and a removal at `i` then returns the value and leaves the
-- items as they were.
pub remove_at-insert :
    (alloc : ℕ → Bool) {a : Array} (v : Value) (idx : ℤ) (i : ℕ)
    → ((n : ℕ) → alloc n ≡ true)
    → IsValid a
    → position (suc (count a)) (negative_index (count a) idx) ≡ some i
    → mismatched a v ≡ false
    → Inserted a i v (insert alloc a v idx)
      × UndoneBy a v (remove_at (insert alloc a v idx).state (pos i))
remove_at-insert alloc {a} v idx i granted h e good =
    let lt = position-lt (suc (count a)) i (negative_index (count a) idx) e in
    let le : i ≤ count a = omega arith in
    let done = insert_ready-Inserted alloc i v granted h (adopt_type-Suits a v h good) le in
    rw (insert_step alloc a v idx i e good) (done, undo a _ i v le done.whole)
