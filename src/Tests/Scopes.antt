-- ===== src/Tests/Scopes.antt =====
-- An outer scope with a constant and a variable, and a block in it.
use bread_lang.Prelude.{
  ◌≡◌, refl, ◌&&◌, true, false, none, some, List, [], ◌∷◌, if◌then◌else◌, length, Text, text_eq,
  bytes, arith,
}
use bread_lang.Prelude.Int.{pos}
use bread_lang.Types.{t_string}
use bread_lang.Values.{int, double, bool, type_of}
use bread_lang.Scopes.{
  Scopes, get_variable, declare_variable_raw, retained, pop_scope, init_variables,
}
use bread_lang.Scopes.Coercion.{Casts, coerce_and_assign}
use bread_lang.Scopes.Assigning.{assign_variable}
use bread_lang.Scopes.Commands.{parse_type, execute_variable_declaration, Machine}
use bread_lang.Scopes.Writing.{assigned, on_found, get_variable-assign_variable}
use bread_lang.Scopes.Declaring.{declared, on_retained, get_variable-declare_variable_raw}
use bread_lang.Scopes.Retyping.{MayBecome, coerce_and_assign-MayBecome}
use bread_lang.Scopes.Validity.{IsValid}
use bread_lang.Scopes.Sessions.{
  Command, push, pop, declare, assign, line_declaration, run, run-IsValid,
}
use bread_lang.Scopes.Retaining.{RetainsScopes}
use bread_lang.Scopes.Nesting.{Inside, enter, declares, assigns, Inside-RetainsScopes}

-- Casts to and from the bit patterns of a few numbers.
abbrev casts : Casts
casts = record {
  int_to_double = λ n. 4607182418800017408;
  float_to_double = λ w. 4607182418800017408;
  int_to_float = λ n. 1065353216;
  double_to_float = λ w. 1065353216;
  double_to_int = λ w. pos 1;
  float_to_int = λ w. pos 1;
}

abbrev machine : Machine
machine = record {
  casts = casts;
  evaluate = λ e. some (int (pos (length e)));
  name_granted = true;
  declared_at = some 8;
  assigned_at = some 16;
}

abbrev size : Text
size = bytes "size"

abbrev limit : Text
limit = bytes "limit"

abbrev scopes : Scopes
scopes = (declared limit (int (pos 9)) true ∷ declared size (double 0) false ∷ []) ∷ []

abbrev block : Scopes
block = [] ∷ scopes

parse_type-string : parse_type (bytes "String") ≡ some t_string
unfolding parse_type text_eq
parse_type-string = refl

execute_variable_declaration-int :
    (execute_variable_declaration machine scopes (bytes " let count: Int = 1234 ")).state ≡ (
      (declared limit (int (pos 9)) true
        ∷ declared size (double 0) false
        ∷ declared (bytes "count") (int (pos 4)) false
        ∷ [])
      ∷ [])
unfolding execute_variable_declaration text_eq
execute_variable_declaration-int = refl

get_variable-assign_variable_example :
    get_variable (assign_variable casts none scopes size (some (int (pos 1)))).state (some limit)
    ≡ (if text_eq size limit
        then on_found (assigned casts none (some (int (pos 1)))) (get_variable scopes (some limit))
        else get_variable scopes (some limit))
get_variable-assign_variable_example =
    get_variable-assign_variable casts none scopes size limit (some (int (pos 1)))

get_variable-declare_variable_raw_example :
    get_variable
      (declare_variable_raw true none block (some size) (bool true) false).state
      (some size)
    ≡ (if (declare_variable_raw true none block (some size) (bool true) false).result
          && text_eq size size
        then on_retained size false (retained none (bool true))
        else get_variable block (some size))
get_variable-declare_variable_raw_example =
    get_variable-declare_variable_raw true none block size size (bool true) false refl

coerce_and_assign-MayBecome_example :
    MayBecome
      (type_of (double 0))
      (type_of (coerce_and_assign casts none (double 0) (int (pos 1))).value)
      (type_of (int (pos 1)))
coerce_and_assign-MayBecome_example =
    coerce_and_assign-MayBecome casts none (double 0) (int (pos 1))

abbrev session : List Command
session =
    declare true none (some size) (double 0) true
    ∷ push
    ∷ line_declaration machine (bytes "let a: Int = 1")
    ∷ assign casts none size (some (int (pos 1)))
    ∷ pop
    ∷ pop
    ∷ []

run-IsValid_example : IsValid (run session (init_variables []))
run-IsValid_example = run-IsValid session []

abbrev inside :
    Inside scopes
      (assign_variable casts none
        (declare_variable_raw true none ([] ∷ scopes) (some size) (bool true) false).state
        limit
        (some (int (pos 1)))).state
inside =
    assigns casts none limit (some (int (pos 1)))
      (declares true none (some size) (bool true) false enter)

Inside-RetainsScopes_example :
    RetainsScopes scopes
      (pop_scope
        (assign_variable casts none
          (declare_variable_raw true none ([] ∷ scopes) (some size) (bool true) false).state
          limit
          (some (int (pos 1)))).state).state
unfolding declare_variable_raw assign_variable text_eq
Inside-RetainsScopes_example = Inside-RetainsScopes inside (omega arith) refl
