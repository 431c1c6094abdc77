-- ===== src/Objects/Inheritance/Chains.antt =====
-- The walks to the ancestors of a class.
use bread_lang.Prelude.{
  ℕ, zero, suc, ◌+◌, ◌≤◌, ◌≡◌, refl, ap, true, Option, none, some, List, [], ◌∷◌, ◌++◌, ◌==◌,
  if◌then◌else◌, get_elem?, length, length-append, length-replicate, replicate, Text, arith,
}
use bread_lang.Values.{nil}
use bread_lang.Objects.{Class, Classes, find_definition, new_class}
use bread_lang.Objects.Inheritance.{
  count_from, total_count, names_from, collect_all_fields, instance_of, create_of, create_from,
  create_instance,
}

-- A class, its parent, and so on to a class without one: their addresses and contents.
pub data Ancestors (cs : List Class) : ℕ → List (ℕ × Class) → Type 0 where
  top :
      {a : ℕ} {c : Class}
      → get_elem? cs a ≡ some c
      → c.parent_class ≡ none
      → Ancestors cs a ((a, c) ∷ [])
  above :
      {a q : ℕ} {c : Class} {line : List (ℕ × Class)}
      → get_elem? cs a ≡ some c
      → c.parent_class ≡ some q
      → Ancestors cs q line
      → Ancestors cs a ((a, c) ∷ line)

-- The fields of the line, those of the farthest ancestor first.
pub all_fields : List (ℕ × Class) → List Text
all_fields [] = []
all_fields ((a, c) ∷ line) = all_fields line ++ c.field_names

total_count-length :
    (f : ℕ) {cs : List Class} {a : ℕ} {line : List (ℕ × Class)}
    → Ancestors cs a line
    → length line ≤ f
    → total_count f cs a ≡ some (length (all_fields line))
unfolding total_count count_from all_fields
total_count-length zero (top e p) le = absurd (omega arith)
total_count-length zero (above e p up) le = absurd (omega arith)
total_count-length (suc f) (top {c} e p) le = rw (e, p)
total_count-length (suc f) (above {c} {line} e p up) le =
    let more = length-append (all_fields line) c.field_names in
    let sum : length c.field_names + length (all_fields line)
        ≡ length (all_fields line ++ c.field_names) =
      omega arith in
    rw (e, p, total_count-length f up (omega arith)) (ap some sum)

empty_or : (xs : List Text) → (if length xs == 0 then some [] else some xs) ≡ some xs
empty_or [] = refl
empty_or (x ∷ xs) = ground arith

collect :
    (f : ℕ) {cs : List Class} {a : ℕ} {line : List (ℕ × Class)}
    → Ancestors cs a line
    → length line ≤ f
    → collect_all_fields f cs a ≡ some (all_fields line)
unfolding collect_all_fields names_from all_fields
collect zero (top e p) le = absurd (omega arith)
collect zero (above e p up) le = absurd (omega arith)
collect (suc f) (top {c} e p) le =
    rw (total_count-length (suc f) (top e p) le, e, p) (empty_or c.field_names)
collect (suc f) (above {c} {line} e p up) le =
    rw (total_count-length (suc f) (above e p up) le, e, p, collect f up (omega arith))
      (empty_or (all_fields line ++ c.field_names))

-- With fuel for the ancestors, `bread_class_collect_all_fields` ends with the fields of the farthest
-- ancestor first and the class's own last, which are as many as the buffer has room for.
pub collect_all_fields-all_fields :
    (f : ℕ) {cs : List Class} {a : ℕ} {line : List (ℕ × Class)}
    → Ancestors cs a line
    → length line ≤ f
    → (collect_all_fields f cs a ≡ some (all_fields line))
      × (total_count f cs a ≡ some (length (all_fields line)))
collect_all_fields-all_fields f up le = (collect f up le, total_count-length f up le)

-- An instance of the definition `d`, whose ancestors are those of the line.
pub record InstanceOf (d : Class) (line : List (ℕ × Class)) (n : Text) (c : Class) : Type 0 where
  pub named : c.class_name ≡ n
  pub fields : c.field_names ≡ all_fields line
  pub values : length c.field_values ≡ length c.field_names
  pub parent : c.parent_class ≡ d.parent_class
  pub constructor : c.compiled_constructor ≡ d.compiled_constructor

-- Where allocations succeed and with fuel for the ancestors, `bread_class_create_instance` under the name
-- of a registered definition makes an instance with all inherited fields and a value for each, whatever
-- fields the caller passes.
pub create_instance-InstanceOf :
    (f : ℕ) (st : Classes) (n : Text) (parent : Option Text) (names : List Text)
    (methods : List (Option Text)) {a : ℕ} {d : Class} {line : List (ℕ × Class)}
    → find_definition st n ≡ some a
    → get_elem? st.objects a ≡ some d
    → Ancestors st.objects a line
    → length line ≤ f
    → (c : Class) × (create_instance f true st n parent names methods ≡ some (some c))
      × InstanceOf d line n c
unfolding create_instance create_from create_of new_class instance_of
create_instance-InstanceOf f st n parent names methods {a} {d} {line} found here up le = (
  instance_of d methods (record {
    class_name = n;
    parent_name = parent;
    parent_class = none;
    field_names = all_fields line;
    field_values = replicate (length (all_fields line)) nil;
    method_names = methods;
    compiled_methods = replicate (length methods) none;
    compiled_constructor = none;
  }),
  rw (found, here, collect f up le),
  record {
    named = refl;
    fields = refl;
    values = length-replicate (length (all_fields line)) nil;
    parent = refl;
    constructor = refl;
  },
)
