-- ===== src/Objects/Inheritance/Resolving.antt =====
-- `bread_class_resolve_inheritance`: what the loop makes of the classes.
use mathlib.Core.Path.{fun_ext}
use native.Mathlib.Decide.{ℕ_discrete}
use bread_lang.Prelude.{
  ℕ, ◌≡◌, refl, sym, ap, ◌∙◌, Bool, true, false, ◌||◌, Option, none, some, List, [], ◌∷◌, ◌<◌, ◌==◌,
  if◌then◌else◌, inl, inr, Bool-cases, Option-cases, get_elem?, set, length, Text,
  get_elem?-set_self, get_elem?-set_ne, arith, zero, suc,
}
use bread_lang.Objects.{Class, Classes, is_named, has_name, find_in, find_definition}
use bread_lang.Objects.Inheritance.{
  parent_for, resolved, update_class, resolve_loop, resolve_inheritance,
}

abbrev pub listed : ℕ → List ℕ → Bool
listed b [] = false
listed b (a ∷ rest) = a == b || listed b rest

abbrev pub on_class : (Class → Class) → Option Class → Option Class
on_class g none = none
on_class g (some c) = some (g c)

inside : (cs : List Class) (a : ℕ) (c : Class) → get_elem? cs a ≡ some c → a < length cs
inside [] a c e = absurd (cc)
inside (x ∷ xs) zero c e = omega arith
inside (x ∷ xs) (suc a) c e = let lt = inside xs a c e in omega arith

-- One round changes the class at its address.
update_class-at :
    (g : Class → Class) (cs : List Class) (a b : ℕ)
    → get_elem? (update_class g cs a (get_elem? cs a)) b
      ≡ (if a == b then on_class g (get_elem? cs b) else get_elem? cs b)
update_class-at g cs a b = elim (ℕ_discrete a b) [
  | yes same ↦
      let hit : (a == b) ≡ true = ground arith in
      elim (Option-cases (get_elem? cs a)) [
        | inl e ↦
            let e_b : get_elem? cs b ≡ none = sym (ap (λ i. get_elem? cs i) same) ∙ e in
            rw (e, hit, e_b)
        | inr (c, e) ↦
            let e_b : get_elem? cs b ≡ some c = sym (ap (λ i. get_elem? cs i) same) ∙ e in
            rw (e, hit, e_b)
              (sym (ap (λ i. get_elem? (set cs a (g c)) i) same)
                ∙ get_elem?-set_self cs a (g c) (inside cs a c e))
      ]
  | no other ↦
      let miss : (a == b) ≡ false = ground arith in
      elim (Option-cases (get_elem? cs a)) [
        | inl e ↦ rw (e, miss)
        | inr (c, e) ↦ rw (e, miss) (get_elem?-set_ne cs (g c) other)
      ]
]

parent_for-parent_for :
    (find : Text → Option ℕ) (q : Option ℕ) (p : Option Text)
    → parent_for find (parent_for find q p) p ≡ parent_for find q p
unfolding parent_for
parent_for-parent_for find (some q) p = refl
parent_for-parent_for find none none = refl
parent_for-parent_for find none (some p) = elim (Option-cases (find p)) [
  | inl e ↦ rw e e
  | inr (q, e) ↦ rw e
]

resolved-resolved :
    (find : Text → Option ℕ) (c : Class) → resolved find (resolved find c) ≡ resolved find c
unfolding resolved
resolved-resolved find c =
    ap (λ (q : Option ℕ). record c { parent_class = q })
      (parent_for-parent_for find c.parent_class c.parent_name)

-- A round keeps the names.
is_named-resolved :
    (find : Text → Option ℕ) (n : Text) (o : Option Class)
    → is_named n (on_class (resolved find) o) ≡ is_named n o
unfolding resolved
is_named-resolved find n none = refl
is_named-resolved find n (some c) = refl

has_name-update_class :
    (find : Text → Option ℕ) (cs : List Class) (a : ℕ) (n : Text) (b : ℕ)
    → has_name (update_class (resolved find) cs a (get_elem? cs a)) n b ≡ has_name cs n b
unfolding has_name
has_name-update_class find cs a n b = elim (Bool-cases (a == b)) [
  | inl e ↦
      rw (update_class-at (resolved find) cs a b, e) (is_named-resolved find n (get_elem? cs b))
  | inr e ↦ rw (update_class-at (resolved find) cs a b, e)
]

find_in-update_class :
    (find : Text → Option ℕ) (cs : List Class) (a : ℕ) (n : Text) (rs : List ℕ)
    → find_in (update_class (resolved find) cs a (get_elem? cs a)) n rs ≡ find_in cs n rs
unfolding find_in
find_in-update_class find cs a n [] = refl
find_in-update_class find cs a n (b ∷ rs) =
    rw (has_name-update_class find cs a n b, find_in-update_class find cs a n rs)

-- The search that the loop makes in each of its rounds.
abbrev search_in : List ℕ → List Class → Text → Option ℕ
search_in registry cs p = find_in cs p registry

search_in-update_class :
    (registry : List ℕ) (find : Text → Option ℕ) (cs : List Class) (a : ℕ)
    → search_in registry (update_class (resolved find) cs a (get_elem? cs a))
      ≡ search_in registry cs
search_in-update_class registry find cs a = fun_ext (λ p. find_in-update_class find cs a p registry)

resolve_loop_step :
    (registry : List ℕ) (cs : List Class) (a : ℕ) (rest : List ℕ)
    → (resolve_loop registry cs (a ∷ rest)).0
      ≡ (resolve_loop registry
          (update_class (resolved (search_in registry cs)) cs a (get_elem? cs a))
          rest).0
unfolding resolve_loop
resolve_loop_step registry cs a rest = refl

on_class-twice :
    (find : Text → Option ℕ) (o : Option Class)
    → on_class (resolved find) (on_class (resolved find) o) ≡ on_class (resolved find) o
on_class-twice find none = refl
on_class-twice find (some c) = ap some (resolved-resolved find c)

-- The class at an address after rounds for the addresses of a list.
after : (Text → Option ℕ) → Bool → Option Class → Option Class
after find true o = on_class (resolved find) o
after find false o = o

after-after :
    (find : Text → Option ℕ) (x y : Bool) (o : Option Class)
    → after find y (after find x o) ≡ after find (x || y) o
unfolding after
after-after find true true o = on_class-twice find o
after-after find true false o = refl
after-after find false y o = refl

if-after :
    (find : Text → Option ℕ) (x : Bool) (o : Option Class)
    → (if x then on_class (resolved find) o else o) ≡ after find x o
unfolding after
if-after find true o = refl
if-after find false o = refl

resolve_loop-at :
    (registry rest : List ℕ) (cs : List Class) (b : ℕ)
    → get_elem? (resolve_loop registry cs rest).0 b
      ≡ after (search_in registry cs) (listed b rest) (get_elem? cs b)
unfolding resolve_loop after
resolve_loop-at registry [] cs b = refl
resolve_loop-at registry (a ∷ rest) cs b =
    let find = search_in registry cs in
    resolve_loop-at registry rest (update_class (resolved find) cs a (get_elem? cs a)) b
    ∙ ap
        (λ g.
          after g (listed b rest)
            (get_elem? (update_class (resolved find) cs a (get_elem? cs a)) b))
        (search_in-update_class registry find cs a)
    ∙ ap (after find (listed b rest))
        (update_class-at (resolved find) cs a b ∙ if-after find (a == b) (get_elem? cs b))
    ∙ after-after find (a == b) (listed b rest) (get_elem? cs b)

find_in-resolve_loop :
    (registry rest : List ℕ) (cs : List Class) (n : Text) (rs : List ℕ)
    → find_in (resolve_loop registry cs rest).0 n rs ≡ find_in cs n rs
unfolding resolve_loop
find_in-resolve_loop registry [] cs n rs = refl
find_in-resolve_loop registry (a ∷ rest) cs n rs =
    find_in-resolve_loop registry rest _ n rs
    ∙ find_in-update_class (search_in registry cs) cs a n rs

-- `resolved` is applied to the class at each address of the registry, and no name changes what it finds.
pub resolve_inheritance_lem :
    (st : Classes)
    → ((b : ℕ)
        → get_elem? (resolve_inheritance st).0.objects b ≡ (
            if listed b st.registry
            then on_class (resolved (find_definition st)) (get_elem? st.objects b)
            else get_elem? st.objects b))
      × ((n : Text) → find_definition (resolve_inheritance st).0 n ≡ find_definition st n)
unfolding resolve_inheritance find_definition
resolve_inheritance_lem st = (
  λ b.
      resolve_loop-at st.registry st.registry st.objects b
      ∙ sym (
          if-after (search_in st.registry st.objects) (listed b st.registry)
            (get_elem? st.objects b)),
  λ n. find_in-resolve_loop st.registry st.registry st.objects n st.registry,
)
