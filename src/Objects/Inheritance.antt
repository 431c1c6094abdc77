-- ===== src/Objects/Inheritance.antt =====
-- Parents of classes (src/core/value_class.c): their resolution, the walks from a class to its ancestors,
-- and instances. A walk runs on fuel for the number of classes on its way; `none` means that it ran out.
pub mod Chains
pub mod Methods
pub mod Parents
pub mod Resolving
use bread_lang.Prelude.{
  ℕ, zero, suc, ◌+◌, Bool, true, false, Option, none, some, List, [], ◌∷◌, ◌++◌, map, ◌==◌,
  if◌then◌else◌, get_elem?, get_or, set, length, Text, text_eq,
}
use bread_lang.Types.{◌>>=◌}
use bread_lang.Values.{Call, retain}
use bread_lang.Objects.{Class, Classes, find_in, find_definition, new_class}

-- The body of the loop in `bread_class_resolve_inheritance`: what a class gets as its parent.
unfoldable pub parent_for : (Text → Option ℕ) → Option ℕ → Option Text → Option ℕ
parent_for find (some q) p = some q
parent_for find none none = none
parent_for find none (some p) = find p

unfoldable pub resolved : (Text → Option ℕ) → Class → Class
unfolding parent_for
resolved find c = record c { parent_class = parent_for find c.parent_class c.parent_name }

-- The reference that it takes.
unfoldable pub parent_calls : (Text → Option ℕ) → Option ℕ → Option Text → List Call
parent_calls find (some q) p = []
parent_calls find none none = []
parent_calls find none (some p) = elim (find p) [ none ↦ [] | some q ↦ retain q ∷ [] ]

abbrev pub update_class : (Class → Class) → List Class → ℕ → Option Class → List Class
update_class g cs a none = cs
update_class g cs a (some c) = set cs a (g c)

unfoldable pub class_calls : (Text → Option ℕ) → Option Class → List Call
unfolding parent_calls
class_calls find none = []
class_calls find (some c) = parent_calls find c.parent_class c.parent_name

-- The loop of `bread_class_resolve_inheritance` over the addresses `rest` of the registry
unfoldable pub resolve_loop : List ℕ → List Class → List ℕ → List Class × List Call
unfolding resolved class_calls find_in
resolve_loop registry cs [] = (cs, [])
resolve_loop registry cs (a ∷ rest) =
    let find : Text → Option ℕ = λ p. find_in cs p registry in
    let next = update_class (resolved find) cs a (get_elem? cs a) in
    let (last, calls) = resolve_loop registry next rest in
    (last, class_calls find (get_elem? cs a) ++ calls)

unfoldable pub resolve_inheritance : Classes → Classes × List Call
unfolding resolve_loop
resolve_inheritance st =
    let (cs, calls) = resolve_loop st.registry st.objects st.registry in
    (record st { objects = cs }, calls)

-- The loop of `bread_class_find_method_index`, which passes over names that are NULL; -1 is `none`
unfoldable pub index_of_method : ℕ → List (Option Text) → Text → Option ℕ
index_of_method i [] n = none
index_of_method i (none ∷ xs) n = index_of_method (suc i) xs n
index_of_method i (some x ∷ xs) n =
    let rest = index_of_method (suc i) xs n in if text_eq x n then some i else rest

-- `bread_class_find_method_defining_class`: the address of the class and the index of the method
unfoldable pub found_or_up :
    ℕ → Option ℕ → Option ℕ → (ℕ → Option (Option (ℕ × ℕ))) → Option (Option (ℕ × ℕ))
found_or_up a (some i) p up = some (some (a, i))
found_or_up a none none up = some none
found_or_up a none (some q) up = up q

unfoldable pub method_from :
    Text → ℕ → Option Class → (ℕ → Option (Option (ℕ × ℕ))) → Option (Option (ℕ × ℕ))
unfolding index_of_method found_or_up
method_from n a none up = some none
method_from n a (some c) up = found_or_up a (index_of_method 0 c.method_names n) c.parent_class up

unfoldable pub find_method : ℕ → List Class → Text → ℕ → Option (Option (ℕ × ℕ))
unfolding method_from
find_method zero cs n a = none
find_method (suc f) cs n a = method_from n a (get_elem? cs a) (λ q. find_method f cs n q)

-- The first loop of `bread_class_collect_all_fields`: how many names there is room for.
unfoldable pub count_from : Option Class → (ℕ → Option ℕ) → Option ℕ
count_from none up = some 0
count_from (some c) up = elim c.parent_class [
  | none ↦ some (length c.field_names)
  | some q ↦ up q >>= λ n. some (length c.field_names + n)
]

unfoldable pub total_count : ℕ → List Class → ℕ → Option ℕ
unfolding count_from
total_count zero cs a = none
total_count (suc f) cs a = count_from (get_elem? cs a) (λ q. total_count f cs q)

-- `bread_class_collect_all_fields`, where its allocations succeed: the names in their order.
unfoldable pub names_from : Option Class → (ℕ → Option (List Text)) → Option (List Text)
names_from none up = some []
names_from (some c) up = elim c.parent_class [
  | none ↦ some c.field_names
  | some q ↦ up q >>= λ names. some (names ++ c.field_names)
]

unfoldable pub collect_all_fields : ℕ → List Class → ℕ → Option (List Text)
unfolding total_count names_from
collect_all_fields zero cs a = none
collect_all_fields (suc f) cs a =
    let names = names_from (get_elem? cs a) (λ q. collect_all_fields f cs q) in
    total_count (suc f) cs a >>= λ n. if n == 0 then some [] else names

-- The compiled function of an instance's method: that of the definition's method of the name.
unfoldable pub compiled_for : Class → Option Text → Option ℕ
unfolding index_of_method
compiled_for d none = none
compiled_for d (some n) = elim (index_of_method 0 d.method_names n) [
  | none ↦ none
  | some j ↦ get_or d.compiled_methods j none
]

unfoldable pub instance_of : Class → List (Option Text) → Class → Class
unfolding compiled_for
instance_of d methods c = record c {
  parent_class = d.parent_class;
  compiled_methods = map (compiled_for d) methods;
  compiled_constructor = d.compiled_constructor;
}

abbrev pub made_from : Class → List (Option Text) → Option Class → Option Class
made_from d methods none = none
made_from d methods (some c) = some (instance_of d methods c)

-- `bread_class_create_instance` on the definition at an address, and on none that is registered.
unfoldable pub create_of :
    ℕ
    → Bool
    → List Class
    → Text
    → Option Text
    → List (Option Text)
    → ℕ
    → Option Class
    → Option (Option Class)
unfolding collect_all_fields new_class instance_of
create_of f granted cs n parent methods a none = some none
create_of f granted cs n parent methods a (some d) = collect_all_fields f cs a >>= λ all.
    some (made_from d methods (new_class granted (some n) parent all methods))

unfoldable pub create_from :
    ℕ
    → Bool
    → List Class
    → Text
    → Option Text
    → List Text
    → List (Option Text)
    → Option ℕ
    → Option (Option Class)
unfolding create_of new_class
create_from f granted cs n parent names methods none =
    some (new_class granted (some n) parent names methods)
create_from f granted cs n parent names methods (some a) =
    create_of f granted cs n parent methods a (get_elem? cs a)

unfoldable pub create_instance :
    ℕ → Bool → Classes → Text → Option Text → List Text → List (Option Text) → Option (Option Class)
unfolding create_from find_definition
create_instance f granted st n parent names methods =
    create_from f granted st.objects n parent names methods (find_definition st n)
