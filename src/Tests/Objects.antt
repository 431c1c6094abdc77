-- ===== src/Tests/Objects.antt =====
-- A struct, and two classes of which one has the other as its parent.
use bread_lang.Prelude.{
  ℕ, ◌≡◌, refl, true, Option, none, some, List, [], ◌∷◌, get_elem?, Text, text_eq, arith,
}
use bread_lang.Prelude.Int.{pos}
use bread_lang.Values.{int, nil}
use bread_lang.Objects.{Struct, Class, Classes, find_definition, find_in, has_name}
use bread_lang.Objects.Inheritance.{resolve_inheritance, find_method, create_instance}
use bread_lang.Objects.Inheritance.Chains.{
  Ancestors, top, above, InstanceOf, create_instance-InstanceOf,
}
use bread_lang.Objects.Inheritance.Methods.{Nearest, find_method-Nearest}
use bread_lang.Objects.Inheritance.Parents.{Parented, resolve_inheritance-Parented}

abbrev x_name : Text
x_name = 120 ∷ []

abbrev y_name : Text
y_name = 121 ∷ []

abbrev point : Struct
point = record {
  type_name = 80 ∷ [];
  field_names = x_name ∷ y_name ∷ [];
  field_values = int (pos 1) ∷ int (pos 2) ∷ [];
}

abbrev animal : Class
animal = record {
  class_name = 65 ∷ [];
  parent_name = none;
  parent_class = none;
  field_names = x_name ∷ [];
  field_values = nil ∷ [];
  method_names = some (109 ∷ []) ∷ [];
  compiled_methods = some 7 ∷ [];
  compiled_constructor = none;
}

abbrev dog : Class
dog = record {
  class_name = 68 ∷ [];
  parent_name = some (65 ∷ []);
  parent_class = some 0;
  field_names = y_name ∷ [];
  field_values = nil ∷ [];
  method_names = none ∷ [];
  compiled_methods = none ∷ [];
  compiled_constructor = none;
}

abbrev both : Classes
both = record { objects = animal ∷ dog ∷ []; registry = 0 ∷ 1 ∷ [] }

abbrev line : List (ℕ × Class)
line = (1, dog) ∷ (0, animal) ∷ []

dog-Ancestors : Ancestors both.objects 1 line
dog-Ancestors = above refl refl (top refl refl)

-- A dog without its parent, which names the animal.
abbrev stray : Class
stray = record dog { parent_class = none }

abbrev unresolved : Classes
unresolved = record { objects = animal ∷ stray ∷ []; registry = 0 ∷ 1 ∷ [] }

resolve_inheritance-Parented_example :
    ((d : Class) × (get_elem? (resolve_inheritance unresolved).0.objects 1 ≡ some d)
      × Parented unresolved 1 stray d)
    × ((n : Text)
        → find_definition (resolve_inheritance unresolved).0 n ≡ find_definition unresolved n)
resolve_inheritance-Parented_example = resolve_inheritance-Parented unresolved 1 stray refl

find_method-Nearest_example :
    (r : Option (ℕ × ℕ)) × (find_method 2 both.objects (109 ∷ []) 1 ≡ some r)
    × Nearest (109 ∷ []) line r
find_method-Nearest_example = find_method-Nearest 2 (109 ∷ []) dog-Ancestors (omega arith)

create_instance-InstanceOf_example :
    (c : Class) × (create_instance 2 true both dog.class_name none [] [] ≡ some (some c))
    × InstanceOf dog line dog.class_name c
unfolding find_definition find_in has_name text_eq
create_instance-InstanceOf_example =
    create_instance-InstanceOf 2 both dog.class_name none [] [] {a = 1} {d = dog} {line = line} refl
      refl dog-Ancestors (omega arith)
