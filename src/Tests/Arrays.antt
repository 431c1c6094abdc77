-- ===== src/Tests/Arrays.antt =====
-- An array of three integers.
use bread_lang.Prelude.{ℕ, ◌≡◌, refl, Bool, true, some, [], ◌∷◌, arith}
use bread_lang.Prelude.Int.{pos, negsuc}
use bread_lang.Types.{t_int}
use bread_lang.Values.{Value, int, nil, type_of, type_eq, type_code, is_nil_type}
use bread_lang.Arrays.{
  Array, new, append, insert, set_safe, remove_at, position, negative_index, mismatched, contains,
  index_of,
}
use bread_lang.Arrays.Room.{IsValid}
use bread_lang.Arrays.OneType.{IsOfOneType, operations-IsOfOneType}
use bread_lang.Arrays.Editing.{Inserted, UndoneBy, remove_at-insert}
use bread_lang.Arrays.Searching.{FirstAt, is_some, index_of-FirstAt}

abbrev granted : ℕ → Bool
granted _ = true

abbrev one : Value
one = int (pos 1)

abbrev two : Value
two = int (pos 2)

abbrev four : Value
four = int (pos 4)

abbrev three_items : Array
three_items = record { items = one ∷ two ∷ four ∷ []; capacity = 3; element_type = t_int }

three_items-IsValid : IsValid three_items
unfolding type_eq type_code type_of is_nil_type
three_items-IsValid = record { fits = omega arith; typed = λ _. (refl, (refl, (refl, tt))) }

operations-IsOfOneType_example :
    IsOfOneType (append granted three_items (int (pos 3))).state
    × IsOfOneType (insert granted three_items (int (pos 3)) (negsuc 0)).state
    × IsOfOneType (set_safe three_items (negsuc 0) (int (pos 3))).state
    × IsOfOneType (remove_at three_items (negsuc 0)).state
unfolding type_eq type_code type_of is_nil_type
operations-IsOfOneType_example =
    operations-IsOfOneType granted (negsuc 0) (int (pos 3))
      (record { valid = three_items-IsValid; typed = λ e. absurd (cc) }) refl

-- An array that was given nil takes an item of any type afterwards.
append-nil :
    (append granted (append granted new nil).state (int (pos 3))).state.items
    ≡ nil ∷ int (pos 3) ∷ []
unfolding append mismatched type_eq type_code type_of is_nil_type
append-nil = refl

-- The index -1 is that of the last item.
remove_at-insert_example :
    Inserted three_items 2 (int (pos 3)) (insert granted three_items (int (pos 3)) (negsuc 0))
    × UndoneBy three_items
        (int (pos 3))
        (remove_at (insert granted three_items (int (pos 3)) (negsuc 0)).state (pos 2))
unfolding position negative_index mismatched type_eq type_code type_of is_nil_type
remove_at-insert_example =
    remove_at-insert granted (int (pos 3)) (negsuc 0) 2 (λ _. refl) three_items-IsValid refl refl

index_of-FirstAt_example :
    (contains (some three_items) two ≡ is_some (index_of (some three_items) two))
    × ((i : ℕ) → index_of (some three_items) two ≡ some i → FirstAt 0 three_items.items two i)
index_of-FirstAt_example = index_of-FirstAt three_items two
