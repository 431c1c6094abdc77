-- ===== src/Arrays/Searching.antt =====
-- `bread_array_contains` and `bread_array_index_of`.
use bread_lang.Prelude.{
  ℕ, zero, suc, ◌+◌, ◌-◌, ◌≤◌, ◌<◌, ◌≡◌, refl, Bool, true, false, inl, inr, Option, none, some,
  List, [], ◌∷◌, Bool-cases, get_or, length, arith,
}
use bread_lang.Values.{Value, nil, same_value}
use bread_lang.Arrays.{Array, contains_items, contains, index_from, index_of}

abbrev pub is_some : Option ℕ → Bool
is_some none = false
is_some (some i) = true

-- `i` is the first index, counted from `n`, whose item compares equal.
pub record FirstAt (n : ℕ) (xs : List Value) (v : Value) (i : ℕ) : Type 0 where
  pub low : n ≤ i
  pub high : i < n + length xs
  pub here : same_value (get_or xs (i - n) nil) v ≡ true
  pub none_before : (j : ℕ) → j < i - n → same_value (get_or xs j nil) v ≡ false

contains-index_from :
    (n : ℕ) (xs : List Value) (v : Value) → contains_items xs v ≡ is_some (index_from n xs v)
unfolding contains_items index_from
contains-index_from n [] v = refl
contains-index_from n (x ∷ xs) v = elim (Bool-cases (same_value x v)) [
  | inl e ↦ rw e
  | inr e ↦ rw e (contains-index_from (suc n) xs v)
]

before :
    (x : Value) (xs : List Value) (v : Value) (m : ℕ)
    → same_value x v ≡ false
    → ((j : ℕ) → j < m → same_value (get_or xs j nil) v ≡ false)
    → (j : ℕ) → j < suc m
    → same_value (get_or (x ∷ xs) j nil) v ≡ false
before x xs v m e h zero lt = e
before x xs v m e h (suc j) lt = h j (omega arith)

index_from-FirstAt :
    (n : ℕ) (xs : List Value) (v : Value) (i : ℕ) → index_from n xs v ≡ some i → FirstAt n xs v i
unfolding index_from
index_from-FirstAt n [] v i h = absurd (cc)
index_from-FirstAt n (x ∷ xs) v i h = elim (Bool-cases (same_value x v)) [
  | inl e ↦
      let eq : n ≡ i = ground arith in
      let z : i - n ≡ 0 = omega arith in
      record {
        low = omega arith;
        high = omega arith;
        here = rw z e;
        none_before = λ j lt. absurd (omega arith);
      }
  | inr e ↦
      let rest : index_from (suc n) xs v ≡ some i = ground arith in
      let r = index_from-FirstAt (suc n) xs v i rest in
      let low = r.low in
      let high = r.high in
      let z : i - n ≡ suc (i - suc n) = omega arith in
      record {
        low = omega arith;
        high = omega arith;
        here = rw z r.here;
        none_before = λ j lt. before x xs v (i - suc n) e r.none_before j (omega arith);
      }
]

-- `bread_array_contains` agrees with `bread_array_index_of`, whose index is that of the first
-- item that compares equal.
pub index_of-FirstAt :
    (a : Array) (v : Value)
    → (contains (some a) v ≡ is_some (index_of (some a) v))
      × ((i : ℕ) → index_of (some a) v ≡ some i → FirstAt 0 a.items v i)
unfolding contains index_of
index_of-FirstAt a v = (contains-index_from 0 a.items v, index_from-FirstAt 0 a.items v)
