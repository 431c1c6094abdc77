-- ===== src/Tests/Types.antt =====
-- Descriptors and values at concrete inputs.
use bread_lang.Prelude.{◌≡◌, refl, ◌↔◌, true, some, none, [], ◌∷◌, text_eq}
use bread_lang.Types.{
  TypeDescriptor, primitive, array, optional, struct_type, class_type, field, end, int, nil, equals,
  compatible,
}
use bread_lang.Types.Equality.{skeleton, equals_iff}
use bread_lang.Types.Assignable.{Assignable, compatible_iff}
use bread_lang.Values.{Value, same_value, hash_key, str_eq, c_str}
use bread_lang.Values.Keys.{key_congr}

abbrev point : TypeDescriptor
point = struct_type (80 ∷ []) (field (120 ∷ []) (primitive int) end)

abbrev animal : TypeDescriptor
animal = class_type (65 ∷ []) none end

abbrev dog : TypeDescriptor
dog = class_type (65 ∷ []) (some (66 ∷ [])) (field (120 ∷ []) (primitive int) end)

classes_by_name : equals dog animal ≡ true
unfolding equals text_eq
classes_by_name = refl

equals_iff_example :
    (equals (array dog) (array animal) ≡ true) ↔ (skeleton (array dog) ≡ skeleton (array animal))
equals_iff_example = equals_iff (array dog) (array animal)

compatible_iff_example :
    (compatible (array (primitive nil)) (optional (array point)) ≡ true)
    ↔ Assignable (array (primitive nil)) (optional (array point))
compatible_iff_example = compatible_iff (array (primitive nil)) (optional (array point))

-- Two strings of the same bytes at different addresses.
abbrev first_ab : Value
first_ab = Value.string (some (record { address = 1; chars = 97 ∷ 98 ∷ [] }))

abbrev second_ab : Value
second_ab = Value.string (some (record { address = 2; chars = 97 ∷ 98 ∷ [] }))

key_congr_example :
    (hash_key first_ab ≡ hash_key second_ab)
    × ((x : Value) → same_value x first_ab ≡ same_value x second_ab)
unfolding same_value str_eq c_str text_eq
key_congr_example = key_congr first_ab second_ab refl refl refl
