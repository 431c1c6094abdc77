-- ===== src/Objects.antt =====
-- Structs, optionals and classes (src/core/value_struct.c, value_optional.c, value_class.c): objects with
-- named fields, and the registry of class definitions. Names are C strings. A class is known by its
-- address, its position in the list of all classes; none is taken away, and the reference counting
-- calls are recorded. A Boolean says whether the allocations of an operation succeed. Field names are
-- not NULL, and the methods by C function, which compiled programs do not have, are left out.
pub mod Fields
pub mod Registry
pub mod Inheritance
use bread_lang.Prelude.{
  ℕ, zero, suc, ◌+◌, Bool, true, false, Option, none, some, List, [], ◌∷◌, ◌++◌, map, ltb,
  if◌then◌else◌, get_elem?, get_or, set, replicate, length, Text, text_eq,
}
use bread_lang.Values.{Value, nil, Call, retain, release, clone_calls, release_calls}

-- The loop of `bread_struct_find_field_index` and `bread_class_find_field_index`; -1 is `none`
unfoldable pub index_of_name : ℕ → List Text → Text → Option ℕ
index_of_name i [] n = none
index_of_name i (x ∷ xs) n =
    let rest = index_of_name (suc i) xs n in if text_eq x n then some i else rest

-- The value of a field, and the values with one replaced: `bread_struct_get_field` and `…_set_field`,
-- and the functions of that name for classes, on a name that is not NULL.
unfoldable pub field_at : List Value → Option ℕ → Option Value
field_at vs none = none
field_at vs (some i) = get_elem? vs i

unfoldable pub replace_at : List Value → Value → Option ℕ → List Value × List Call
replace_at vs v none = (vs, [])
replace_at vs v (some i) = (set vs i v, release_calls (get_or vs i nil) ++ clone_calls v)

unfoldable pub read_field : List Text → List Value → Text → Option Value
unfolding index_of_name field_at
read_field names vs n = field_at vs (index_of_name 0 names n)

unfoldable pub write_field : List Text → List Value → Text → Value → List Value × List Call
unfolding index_of_name replace_at
write_field names vs n v = replace_at vs v (index_of_name 0 names n)

-- `struct BreadStruct`; its `field_count` is the number of names.
pub record Struct : Type 0 where
  pub type_name : Text
  pub field_names : List Text
  pub field_values : List Value

-- `bread_struct_new`
unfoldable pub new_struct : Bool → Option Text → List Text → Option Struct
new_struct granted none names = none
new_struct granted (some n) names =
    if granted
    then some
        (record { type_name = n; field_names = names; field_values = replicate (length names) nil })
    else none

unfoldable pub struct_get_field : Struct → Option Text → Option Value
unfolding read_field
struct_get_field s none = none
struct_get_field s (some n) = read_field s.field_names s.field_values n

unfoldable pub struct_set_field : Struct → Option Text → Value → Struct × List Call
unfolding write_field
struct_set_field s none v = (s, [])
struct_set_field s (some n) v =
    let (vs, calls) = write_field s.field_names s.field_values n v in
    (record s { field_values = vs }, calls)

-- `bread_optional_new_none` and `bread_optional_new_some`: the value that is there, and the calls made
unfoldable pub optional_new_none : Bool → Option (Option Value)
optional_new_none granted = if granted then some none else none

unfoldable pub optional_new_some : Bool → Value → Option (Option Value) × List Call
optional_new_some granted v = if granted then (some (some v), clone_calls v) else (none, [])

-- `struct BreadClass`; a compiled function is its address.
pub record Class : Type 0 where
  pub class_name : Text
  pub parent_name : Option Text
  pub parent_class : Option ℕ
  pub field_names : List Text
  pub field_values : List Value
  pub method_names : List (Option Text)
  pub compiled_methods : List (Option ℕ)
  pub compiled_constructor : Option ℕ

-- `bread_class_new_with_methods`, and `bread_class_new` on no methods.
unfoldable pub new_class :
    Bool → Option Text → Option Text → List Text → List (Option Text) → Option Class
new_class granted none parent names methods = none
new_class granted (some n) parent names methods =
    if granted
    then some (record {
      class_name = n;
      parent_name = parent;
      parent_class = none;
      field_names = names;
      field_values = replicate (length names) nil;
      method_names = methods;
      compiled_methods = replicate (length methods) none;
      compiled_constructor = none;
    })
    else none

unfoldable pub class_get_field : Class → Option Text → Option Value
unfolding read_field
class_get_field c none = none
class_get_field c (some n) = read_field c.field_names c.field_values n

unfoldable pub class_set_field : Class → Option Text → Value → Class × List Call
unfolding write_field
class_set_field c none v = (c, [])
class_set_field c (some n) v =
    let (vs, calls) = write_field c.field_names c.field_values n v in
    (record c { field_values = vs }, calls)

-- All classes, and the addresses of the registered definitions.
pub record Classes : Type 0 where
  pub objects : List Class
  pub registry : List ℕ

-- The test of a registered definition's name.
abbrev pub is_named : Text → Option Class → Bool
is_named n none = false
is_named n (some c) = text_eq c.class_name n

unfoldable pub has_name : List Class → Text → ℕ → Bool
has_name cs n a = is_named n (get_elem? cs a)

-- The loop of `bread_class_find_definition`
unfoldable pub find_in : List Class → Text → List ℕ → Option ℕ
unfolding has_name
find_in cs n [] = none
find_in cs n (a ∷ rs) = let rest = find_in cs n rs in if has_name cs n a then some a else rest

unfoldable pub find_definition : Classes → Text → Option ℕ
unfolding find_in
find_definition st n = find_in st.objects n st.registry

-- The loop and the addition of `bread_class_register_definition`: the addresses, and the calls.
unfoldable pub register_in : Bool → List Class → Text → ℕ → List ℕ → List ℕ × List Call
unfolding has_name
register_in granted cs n a [] = if granted then (a ∷ [], retain a ∷ []) else ([], [])
register_in granted cs n a (b ∷ bs) =
    let (rest, calls) = register_in granted cs n a bs in
    if has_name cs n b then (a ∷ bs, release b ∷ retain a ∷ []) else (b ∷ rest, calls)

-- `bread_class_register_definition` on a class with this address and name
unfoldable pub register_definition : Bool → Classes → Text → ℕ → Classes × List Call
unfolding register_in
register_definition granted st n a =
    let (rs, calls) = register_in granted st.objects n a st.registry in
    (record st { registry = rs }, calls)
