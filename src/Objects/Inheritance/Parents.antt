-- ===== src/Objects/Inheritance/Parents.antt =====
-- The parents that `bread_class_resolve_inheritance` gives (src/core/value_class.c).
use bread_lang.Prelude.{
  ℕ, ◌≡◌, refl, ap, true, false, Option, none, some, List, [], ◌∷◌, inl, inr, Bool-cases,
  Option-cases, get_elem?, Text, text_eq_refl, text_eq→eq, subst,
}
use bread_lang.Objects.{Class, Classes, has_name, find_in, find_definition}
use bread_lang.Objects.Inheritance.{parent_for, resolved, resolve_inheritance}
use bread_lang.Objects.Inheritance.Resolving.{listed, resolve_inheritance_lem}

-- There is a class of the name at the address.
abbrev pub IsNamed : List Class → Text → ℕ → Type 0
IsNamed cs n a = (c : Class) × (get_elem? cs a ≡ some c) × (c.class_name ≡ n)

-- The first of the addresses with a class of the name, or none.
pub data Finds (cs : List Class) (n : Text) : List ℕ → Option ℕ → Type 0 where
  nowhere : Finds cs n [] none
  at_first : {a : ℕ} {rest : List ℕ} → IsNamed cs n a → Finds cs n (a ∷ rest) (some a)
  later :
      {a : ℕ} {rest : List ℕ} {o : Option ℕ}
      → ¬ IsNamed cs n a
      → Finds cs n rest o
      → Finds cs n (a ∷ rest) o

-- What becomes of the class `c` at the address `b`.
pub data Parented (st : Classes) (b : ℕ) (c : Class) : Class → Type 0 where
  unregistered : listed b st.registry ≡ false → Parented st b c c
  has_parent : {q : ℕ} → c.parent_class ≡ some q → Parented st b c c
  names_none : c.parent_name ≡ none → Parented st b c c
  unknown :
      {p : Text} → c.parent_name ≡ some p → Finds st.objects p st.registry none → Parented st b c c
  gets :
      {p : Text} {q : ℕ}
      → listed b st.registry ≡ true
      → c.parent_class ≡ none
      → c.parent_name ≡ some p
      → Finds st.objects p st.registry (some q)
      → Parented st b c (record c { parent_class = some q })

has_name-IsNamed : (cs : List Class) (n : Text) (a : ℕ) → has_name cs n a ≡ true → IsNamed cs n a
unfolding has_name
has_name-IsNamed cs n a h = elim (Option-cases (get_elem? cs a)) [
  | inl e ↦ absurd (cc (rw e at h))
  | inr (c, e) ↦ (c, e, text_eq→eq c.class_name n (rw e at h))
]

IsNamed-has_name : (cs : List Class) (n : Text) (a : ℕ) → IsNamed cs n a → has_name cs n a ≡ true
unfolding has_name
IsNamed-has_name cs n a (c, e, same) = rw (e, same) (text_eq_refl n)

find_in-Finds : (cs : List Class) (n : Text) (rs : List ℕ) → Finds cs n rs (find_in cs n rs)
unfolding find_in
find_in-Finds cs n [] = nowhere
find_in-Finds cs n (a ∷ rs) = elim (Bool-cases (has_name cs n a)) [
  | inl hit ↦ rw hit (at_first (has_name-IsNamed cs n a hit))
  | inr miss ↦
      rw miss
        (later (λ named. let hit = IsNamed-has_name cs n a named in cc) (find_in-Finds cs n rs))
]

resolved_kept :
    (find : Text → Option ℕ) (c : Class)
    → parent_for find c.parent_class c.parent_name ≡ c.parent_class
    → resolved find c ≡ c
unfolding resolved
resolved_kept find c e = ap (λ (q : Option ℕ). record c { parent_class = q }) e

resolved_given :
    (find : Text → Option ℕ) (c : Class) (q : Option ℕ)
    → parent_for find c.parent_class c.parent_name ≡ q
    → resolved find c ≡ record c { parent_class = q }
unfolding resolved
resolved_given find c q e = ap (λ (p : Option ℕ). record c { parent_class = p }) e

module _ (st : Classes) (b : ℕ) (c : Class) (at_b : listed b st.registry ≡ true) where
  found : (p : Text) → Finds st.objects p st.registry (find_definition st p)
  unfolding find_definition
  found p = find_in-Finds st.objects p st.registry

  resolved-named :
      (p : Text)
      → c.parent_class ≡ none
      → c.parent_name ≡ some p
      → Parented st b c (resolved (find_definition st) c)
  unfolding parent_for
  resolved-named p without named = elim (Option-cases (find_definition st p)) [
    | inl e ↦
        rw (resolved_kept (find_definition st) c (rw (without, named, e)))
          (unknown named (subst (λ o. Finds st.objects p st.registry o) e (found p)))
    | inr (q, e) ↦
        rw (resolved_given (find_definition st) c (some q) (rw (without, named, e)))
          (gets at_b without named (subst (λ o. Finds st.objects p st.registry o) e (found p)))
  ]

  resolved-Parented : Parented st b c (resolved (find_definition st) c)
  unfolding parent_for
  resolved-Parented = elim (Option-cases c.parent_class) [
    | inr (q, e) ↦ rw (resolved_kept (find_definition st) c (rw e)) (has_parent e)
    | inl without ↦ elim (Option-cases c.parent_name) [
      | inl e ↦ rw (resolved_kept (find_definition st) c (rw (without, e))) (names_none e)
      | inr (p, named) ↦ resolved-named p without named
    ]
  ]

-- `bread_class_resolve_inheritance` gives a class that is registered, has no parent and names one the
-- first registered class of that name as its parent, if there is one, and changes nothing else of it.
-- It leaves every other class as it is, and `bread_class_find_definition` finds what it found before.
pub resolve_inheritance-Parented :
    (st : Classes) (b : ℕ) (c : Class)
    → get_elem? st.objects b ≡ some c
    → ((d : Class) × (get_elem? (resolve_inheritance st).0.objects b ≡ some d) × Parented st b c d)
      × ((n : Text) → find_definition (resolve_inheritance st).0 n ≡ find_definition st n)
resolve_inheritance-Parented st b c e =
    let (at_each, finds) = resolve_inheritance_lem st in
    (
      elim (Bool-cases (listed b st.registry)) [
        | inl inside ↦ (
          resolved (find_definition st) c,
          rw (at_each b, inside, e) refl,
          resolved-Parented st b c inside,
        )
        | inr outside ↦ (c, rw (at_each b, outside, e) refl, unregistered outside)
      ],
      finds,
    )
