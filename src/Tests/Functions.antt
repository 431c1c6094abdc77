-- ===== src/Tests/Functions.antt =====
-- A function of two parameters, of which the second has a default.
use bread_lang.Prelude.{◌+◌, ◌≡◌, refl, true, none, some, [], ◌∷◌, length, bytes}
use bread_lang.Prelude.Int.{pos}
use bread_lang.Types.{t_int, t_double, t_nil}
use bread_lang.Values.{Value, int}
use bread_lang.Scopes.Coercion.{Casts, coerce}
use bread_lang.Functions.{
  FunctionParameter, Function, get_function, registered, register_function, coerce_value,
  get_required_params, leading_required, defaults, apply_defaults,
}
use bread_lang.Functions.Parameters.{
  Agree, coerce_value-Agree, last_ones, completed, apply_defaults-completed,
}

abbrev first : FunctionParameter
first = record { name = bytes "a"; default_value = none }

abbrev second : FunctionParameter
second = record { name = bytes "b"; default_value = some (int (pos 2)) }

abbrev power : Function
power = record {
  name = bytes "power";
  param_names = bytes "a" ∷ bytes "b" ∷ [];
  param_types = t_int ∷ t_int ∷ [];
  parameters = some (first ∷ second ∷ []);
  return_type = t_int;
  body = none;
  body_is_ast = true;
}

abbrev main_function : Function
main_function = record {
  name = bytes "main";
  param_names = [];
  param_types = [];
  parameters = none;
  return_type = t_nil;
  body = none;
  body_is_ast = true;
}

abbrev number_casts : Casts
number_casts = record {
  int_to_double = λ n. 4607182418800017408;
  float_to_double = λ w. 4607182418800017408;
  int_to_float = λ n. 1065353216;
  double_to_float = λ w. 1065353216;
  double_to_int = λ w. pos 1;
  float_to_int = λ w. pos 1;
}

coerce_value-Agree_example :
    Agree t_double
      (coerce_value number_casts (some 8) t_double (int (pos 1)))
      (coerce number_casts (some 8) t_double (int (pos 1)))
unfolding bread_lang.Functions.type_compatible bread_lang.Values.type_of
coerce_value-Agree_example = coerce_value-Agree number_casts 8 t_double (int (pos 1)) refl

apply_defaults-completed_example :
    (apply_defaults true power (int (pos 5) ∷ [])
      ≡ completed power (int (pos 2) ∷ []) (int (pos 5) ∷ []))
    × (get_required_params power + length {A = Value} (int (pos 2) ∷ []) ≡ length power.param_names)
unfolding leading_required defaults
apply_defaults-completed_example =
    apply_defaults-completed power (int (pos 5) ∷ []) {ds = int (pos 2) ∷ []}
      (last_ones (first ∷ second ∷ []) refl refl refl)
