-- ===== src/Objects/Inheritance/Methods.antt =====
-- `bread_class_find_method_defining_class` (src/core/value_class.c): the nearest class with a method of the
-- name.
use bread_lang.Prelude.{
  ℕ, zero, suc, ◌+◌, ◌≤◌, ◌<◌, ◌≡◌, ◌≢◌, refl, ap, ◌∙◌, false, Option, none, some, List, [], ◌∷◌,
  inl, inr, Bool-cases, get_elem?, length, Text, text_eq, text_eq_refl, text_eq→eq, subst,
  Option-cases, arith,
}
use bread_lang.Objects.{Class}
use bread_lang.Objects.Inheritance.{index_of_method, found_or_up, method_from, find_method}
use bread_lang.Objects.Inheritance.Chains.{Ancestors, top, above}

-- A list of names without the name.
abbrev pub Lacks : List (Option Text) → Text → Type 0
Lacks xs n = (j : ℕ) → get_elem? xs j ≢ some (some n)

-- The name stands at the index, and at none before it.
pub record FirstAt (xs : List (Option Text)) (n : Text) (i : ℕ) : Type 0 where
  pub here : get_elem? xs i ≡ some (some n)
  pub first : (j : ℕ) → j < i → get_elem? xs j ≢ some (some n)

-- The method of the nearest class on the line that has one of the name: the address of the class and the
-- first index of the name in it. There is none if all classes lack the name.
pub data Nearest (n : Text) : List (ℕ × Class) → Option (ℕ × ℕ) → Type 0 where
  nowhere : Nearest n [] none
  in_class :
      {a i : ℕ} {c : Class} {line : List (ℕ × Class)}
      → FirstAt c.method_names n i
      → Nearest n ((a, c) ∷ line) (some (a, i))
  farther :
      {a : ℕ} {c : Class} {line : List (ℕ × Class)} {r : Option (ℕ × ℕ)}
      → Lacks c.method_names n
      → Nearest n line r
      → Nearest n ((a, c) ∷ line) r

-- What the loop that starts to count at `i` gives.
data Located (i : ℕ) (xs : List (Option Text)) (n : Text) (o : Option ℕ) : Type 0 where
  absent : o ≡ none → Lacks xs n → Located i xs n o
  found : (d : ℕ) → o ≡ some (i + d) → FirstAt xs n d → Located i xs n o

module _ (x : Option Text) (xs : List (Option Text)) (n : Text) (other : x ≢ some n) where
  Lacks-cons : Lacks xs n → Lacks (x ∷ xs) n
  Lacks-cons h zero e = other (cc)
  Lacks-cons h (suc j) e = h j e

  before-cons :
      {d : ℕ} → FirstAt xs n d → (j : ℕ) → j < suc d → get_elem? (x ∷ xs) j ≢ some (some n)
  before-cons h zero lt e = other (cc)
  before-cons h (suc j) lt e = h.first j (omega arith) e

  Located-cons : {i : ℕ} {o : Option ℕ} → Located (suc i) xs n o → Located i (x ∷ xs) n o
  Located-cons (absent e h) = absent e (Lacks-cons h)
  Located-cons {i} (found d e h) =
      let shifted : suc i + d ≡ i + suc d = omega arith in
      found (suc d) (e ∙ ap some shifted) (record { here = h.here; first = before-cons h })

index_of_method-Located :
    (i : ℕ) (xs : List (Option Text)) (n : Text) → Located i xs n (index_of_method i xs n)
unfolding index_of_method
index_of_method-Located i [] n = absent refl (λ j e. cc)
index_of_method-Located i (none ∷ xs) n =
    Located-cons none xs n (λ e. cc) (index_of_method-Located (suc i) xs n)
index_of_method-Located i (some x ∷ xs) n = elim (Bool-cases (text_eq x n)) [
  | inl same ↦
      let is_n = text_eq→eq x n same in
      rw same (
        found 0 (ap some (omega arith))
          (record { here = ap (λ m. some (some m)) is_n; first = λ j lt. absurd (omega arith) }))
  | inr other ↦
      rw other (Located-cons (some x) xs n (differs other) (index_of_method-Located (suc i) xs n))
]
  where
    differs : text_eq x n ≡ false → some x ≢ some n
    differs e same = let is_n : x ≡ n = cc in let eq = text_eq_refl n in cc

Located-found :
    {xs : List (Option Text)} {n : Text} {i : ℕ} → Located 0 xs n (some i) → FirstAt xs n i
Located-found (absent e h) = absurd (cc)
Located-found {xs} {n} {i} (found d e h) =
    let is_d : d ≡ i = ground arith in subst (λ k. FirstAt xs n k) is_d h

Located-absent : {xs : List (Option Text)} {n : Text} → Located 0 xs n none → Lacks xs n
Located-absent (absent e h) = h
Located-absent (found d e h) = absurd (cc)

-- The step at a class: the method is there, or is that which is found farther up.
module _ (a : ℕ) (c : Class) (n : Text) (up : ℕ → Option (Option (ℕ × ℕ))) where
  Answer : List (ℕ × Class) → Type 0
  Answer line =
      (r : Option (ℕ × ℕ)) × (method_from n a (some c) up ≡ some r) × Nearest n ((a, c) ∷ line) r

  Answer-found :
      (i : ℕ) (line : List (ℕ × Class)) → index_of_method 0 c.method_names n ≡ some i → Answer line
  unfolding method_from found_or_up Answer
  Answer-found i line e =
      let at_i : Located 0 c.method_names n (some i) =
        rw (← e) (index_of_method-Located 0 c.method_names n) in
      (some (a, i), rw e refl, in_class (Located-found at_i))

  Answer-up :
      (q : Option ℕ) (r : Option (ℕ × ℕ)) (line : List (ℕ × Class))
      → index_of_method 0 c.method_names n ≡ none
      → c.parent_class ≡ q
      → elim q [ none ↦ some none | some p ↦ up p ] ≡ some r
      → Nearest n line r
      → Answer line
  unfolding method_from found_or_up Answer
  Answer-up none r line e p h near =
      let lacking : Located 0 c.method_names n none =
        rw (← e) (index_of_method-Located 0 c.method_names n) in
      (r, rw (e, p) h, farther (Located-absent lacking) near)
  Answer-up (some q) r line e p h near =
      let lacking : Located 0 c.method_names n none =
        rw (← e) (index_of_method-Located 0 c.method_names n) in
      (r, rw (e, p) h, farther (Located-absent lacking) near)

-- With fuel for the ancestors, `bread_class_find_method_defining_class` ends, and finds the method of the
-- nearest class that has one of the name, at the first index of the name in that class, or none if
-- no class on the way has one.
pub find_method-Nearest :
    (f : ℕ) {cs : List Class} {a : ℕ} {line : List (ℕ × Class)} (n : Text)
    → Ancestors cs a line
    → length line ≤ f
    → (r : Option (ℕ × ℕ)) × (find_method f cs n a ≡ some r) × Nearest n line r
unfolding find_method Answer
find_method-Nearest zero n (top e p) le = absurd (omega arith)
find_method-Nearest zero n (above e p up) le = absurd (omega arith)
find_method-Nearest (suc f) {cs} {a} n (top {c} e p) le =
    let up : ℕ → Option (Option (ℕ × ℕ)) = λ q. find_method f cs n q in
    rw e (elim (Option-cases (index_of_method 0 c.method_names n)) [
      | inl z ↦ Answer-up a c n up none none [] z p refl nowhere
      | inr (i, z) ↦ Answer-found a c n up i [] z
    ])
find_method-Nearest (suc f) {cs} {a} n (above {q} {c} {line} e p more) le =
    let up : ℕ → Option (Option (ℕ × ℕ)) = λ q. find_method f cs n q in
    rw e (elim (Option-cases (index_of_method 0 c.method_names n)) [
      | inl z ↦
          let (r, h, near) = find_method-Nearest f n more (omega arith) in
          Answer-up a c n up (some q) r line z p h near
      | inr (i, z) ↦ Answer-found a c n up i line z
    ])
