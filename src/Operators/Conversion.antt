-- ===== src/Operators/Conversion.antt =====
-- Conversion of a value to a type, and equality (src/runtime/value_ops.c).
use bread_lang.Prelude.{
  ℕ, ◌≡◌, refl, Bool, true, false, not, ◌&&◌, Option, none, some, List, [], ◌∷◌, ◌++◌,
  if◌then◌else◌, text_eq, inl, inr, Bool-cases, arith, sym,
}
use bread_lang.Prelude.Int.{ℤ}
use bread_lang.Types.{VarType, t_int, t_float, t_double, t_optional}
use bread_lang.Values.{
  Value, nil, bool, int, float, double, string, array, dict, optional, struct, class, type_of,
  type_eq, int_eq, bool_eq, Call, retain, release, clone_calls,
}
use bread_lang.Scopes.Coercion.{Casts}
use bread_lang.Operators.{Error, mismatched_types, out_of_memory, chars_of, pointer_eq}

-- `bread_eq`, where two floats or doubles that are close are equal.
pub record Closeness : Type 0 where
  pub floats : ℕ → ℕ → Bool
  pub doubles : ℕ → ℕ → Bool

unfoldable pub eq : Closeness → Value → Value → Bool
unfolding int_eq
eq c nil nil = true
eq c (bool a) (bool b) = bool_eq a b
eq c (int a) (int b) = int_eq a b
eq c (float a) (float b) = c.floats a b
eq c (double a) (double b) = c.doubles a b
eq c (string a) (string b) = text_eq (chars_of a) (chars_of b)
eq c (array a) (array b) = pointer_eq a b
eq c (dict a) (dict b) = pointer_eq a b
eq c (optional a) (optional b) = pointer_eq a b
eq c (struct a) (struct b) = pointer_eq a b
eq c (class a) (class b) = pointer_eq a b
eq c v w = false

-- The casts to `int64_t`.
pub record WideCasts : Type 0 where
  pub casts : Casts
  pub double_to_int64 : ℕ → ℤ
  pub float_to_int64 : ℕ → ℤ

pub data Converted : Type 0 where
  converts : Value → List Call → Converted
  refuses : Error → Converted

-- The switch on the target.
unfoldable pub convert_number : WideCasts → VarType → Value → Converted
convert_number c t_double (int n) = converts (double (c.casts.int_to_double n)) []
convert_number c t_double (float w) = converts (double (c.casts.float_to_double w)) []
convert_number c t_float (int n) = converts (float (c.casts.int_to_float n)) []
convert_number c t_float (double w) = converts (float (c.casts.double_to_float w)) []
convert_number c t_int (double w) = converts (int (c.double_to_int64 w)) []
convert_number c t_int (float w) = converts (int (c.float_to_int64 w)) []
convert_number c t v = refuses mismatched_types

-- A new optional, retained by the value that is set and then released.
abbrev pub wrapped : Option ℕ → Value → Converted
wrapped none v = refuses out_of_memory
wrapped (some a) v = converts (optional (some a)) (clone_calls v ++ retain a ∷ release a ∷ [])

-- `bread_coerce_value`
unfoldable pub coerce_value : WideCasts → Option ℕ → VarType → Value → Converted
unfolding type_eq type_of convert_number
coerce_value c fresh t v =
    if type_eq t t_optional && not (type_eq (type_of v) t_optional)
    then wrapped fresh v
    else if type_eq t (type_of v)
    then converts v (clone_calls v)
    else convert_number c t v

-- A conversion that succeeds gives the type, and one that fails changes a type that is not convertible, or
-- finds no memory.
abbrev pub IsOfType : VarType → Value → Option ℕ → Converted → Type 0
IsOfType t v fresh (converts w calls) = type_of w ≡ t
IsOfType t v fresh (refuses out_of_memory) = (t ≡ t_optional) × (fresh ≡ none)
IsOfType t v fresh (refuses e) = (e ≡ mismatched_types) × (type_eq t (type_of v) ≡ false)

type_eq→eq : (t u : VarType) → type_eq t u ≡ true → t ≡ u
unfolding type_eq
type_eq→eq t u e = ground arith

numbers-IsOfType :
    (c : WideCasts) (fresh : Option ℕ) (t : VarType) (v : Value)
    → type_eq t (type_of v) ≡ false
    → IsOfType t v fresh (convert_number c t v)
unfolding convert_number type_of
numbers-IsOfType c fresh t_double (int n) e = refl
numbers-IsOfType c fresh t_double (float w) e = refl
numbers-IsOfType c fresh t_float (int n) e = refl
numbers-IsOfType c fresh t_float (double w) e = refl
numbers-IsOfType c fresh t_int (double w) e = refl
numbers-IsOfType c fresh t_int (float w) e = refl
numbers-IsOfType c fresh t v e = (refl, e)

wrapped-IsOfType :
    (fresh : Option ℕ) (t : VarType) (v : Value)
    → t ≡ t_optional
    → IsOfType t v fresh (wrapped fresh v)
unfolding type_of
wrapped-IsOfType none t v e = (e, refl)
wrapped-IsOfType (some a) t v e = sym e

-- `bread_coerce_value` gives a value of the target type, or fails: with a type mismatch if the types
-- differ, or for want of memory if the target is an optional.
pub coerce_value-IsOfType :
    (c : WideCasts) (fresh : Option ℕ) (t : VarType) (v : Value)
    → IsOfType t v fresh (coerce_value c fresh t v)
unfolding coerce_value
coerce_value-IsOfType c fresh t v =
    elim (Bool-cases (type_eq t t_optional && not (type_eq (type_of v) t_optional))) [
      | inl new ↦ rw new (wrapped-IsOfType fresh t v (is_optional new))
      | inr rest ↦ elim (Bool-cases (type_eq t (type_of v))) [
        | inl same ↦ rw (rest, same) (sym (type_eq→eq t (type_of v) same))
        | inr other ↦ rw (rest, other) (numbers-IsOfType c fresh t v other)
      ]
    ]
  where
    is_optional :
        (type_eq t t_optional && not (type_eq (type_of v) t_optional)) ≡ true → t ≡ t_optional
    is_optional h = type_eq→eq t t_optional (ground arith)
