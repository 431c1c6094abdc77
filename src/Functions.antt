-- ===== src/Functions.antt =====
-- Functions (src/core/function.c, include/core/function.h): their table, and the types and defaults of
-- their parameters. The number of parameters is that of their names; the fields of the JIT compiler are
-- left out. Whether all of a call's requests for memory are granted is a parameter.
pub mod Table
pub mod Parameters
use bread_lang.Prelude.{
  ℕ, suc, ◌+◌, ◌-◌, Bool, true, false, not, ◌&&◌, ◌||◌, Option, none, some, List, [], ◌∷◌, ◌++◌,
  ltb, leb, ◌==◌, if◌then◌else◌, length, get_elem?, drop, Text, text_eq,
}
use bread_lang.Prelude.Int.{ℤ, pos, negsuc}
use bread_lang.Types.{VarType, t_int, t_float, t_double, t_optional, t_nil}
use bread_lang.Values.{
  Value, nil, int, float, double, optional, type_of, type_eq, Call, clone_calls, release_calls,
}
use bread_lang.Scopes.Coercion.{Casts}

abbrev pub max_functions : ℕ
max_functions = 256

-- `FunctionParameter`
pub record FunctionParameter : Type 0 where
  pub name : Text
  pub default_value : Option Value

-- `Function`
pub record Function : Type 0 where
  pub name : Text
  pub param_names : List Text
  pub param_types : List VarType
  pub parameters : Option (List FunctionParameter)
  pub return_type : VarType
  pub body : Option ℕ
  pub body_is_ast : Bool

-- The functions in the order of their registration.
abbrev pub Functions : Type 0
Functions = List Function

-- `same_name`, where a NULL name is empty
abbrev pub or_empty : Option Text → Text
or_empty none = []
or_empty (some n) = n

-- `get_function`
unfoldable pub find_function : Functions → Text → Option Function
find_function [] n = none
find_function (f ∷ fs) n =
    let rest = find_function fs n in if text_eq f.name n then some f else rest

unfoldable pub get_function : Functions → Option Text → Option Function
unfolding find_function
get_function fs none = none
get_function fs (some n) = find_function fs n

-- `get_function_at`
unfoldable pub get_function_at : Functions → ℤ → Option Function
get_function_at fs (pos i) = get_elem? fs i
get_function_at fs (negsuc i) = none

-- The copy of the parameters, with the calls that copying the defaults makes.
abbrev pub without_default : Text → FunctionParameter
without_default n = record { name = n; default_value = none }

unfoldable pub named_only : List Text → List FunctionParameter
named_only [] = []
named_only (n ∷ ns) = without_default n ∷ named_only ns

abbrev pub default_calls : Option Value → List Call
default_calls none = []
default_calls (some v) = clone_calls v

unfoldable pub copy_calls : List FunctionParameter → List Call
copy_calls [] = []
copy_calls (p ∷ ps) = default_calls p.default_value ++ copy_calls ps

abbrev pub copied : Function → List FunctionParameter
copied f = elim f.parameters [ none ↦ named_only f.param_names | some ps ↦ ps ]

-- What `register_function` stores: without parameters there is no list of them.
unfoldable pub registered : Function → Function
unfolding named_only
registered f = record f { parameters = if length f.param_names == 0 then none else some (copied f) }

unfoldable pub registered_calls : Function → List Call
unfolding copy_calls named_only
registered_calls f = if length f.param_names == 0 then [] else copy_calls (copied f)

abbrev pub is_registered : Option Function → Bool
is_registered none = false
is_registered (some f) = true

-- `register_function` of a function that has a name
unfoldable pub register_function : Bool → Functions → Function → Bool × Functions × List Call
unfolding find_function registered registered_calls
register_function granted fs f =
    if leb max_functions (length fs)
    then (false, fs, [])
    else if is_registered (find_function fs f.name)
    then (false, fs, [])
    else if not granted
    then (false, fs, [])
    else (true, fs ++ registered f ∷ [], registered_calls f)

-- `free_function`, its reference counting calls, and `cleanup_functions`
abbrev pub released_default : Option Value → List Call
released_default none = []
released_default (some v) = release_calls v

unfoldable pub release_defaults : List FunctionParameter → List Call
release_defaults [] = []
release_defaults (p ∷ ps) = released_default p.default_value ++ release_defaults ps

unfoldable pub free_function : Function → List Call
unfolding release_defaults
free_function f = elim f.parameters [ none ↦ [] | some ps ↦ release_defaults ps ]

unfoldable pub cleanup_functions : Functions → Functions × List Call
unfolding free_function
cleanup_functions [] = ([], [])
cleanup_functions (f ∷ fs) =
    let (none_left, calls) = cleanup_functions fs in (none_left, free_function f ++ calls)

-- `type_compatible`
unfoldable pub type_compatible : VarType → VarType → Bool
unfolding type_eq
type_compatible expected actual =
    type_eq expected actual
    || (type_eq expected t_optional && type_eq actual t_nil)
    || (type_eq expected t_optional && not (type_eq actual t_optional))
    || (type_eq expected t_double && (type_eq actual t_int || type_eq actual t_float))
    || (type_eq expected t_float && type_eq actual t_int)
    || (type_eq expected t_int && (type_eq actual t_float || type_eq actual t_double))

-- `coerce_value`: the member of the union that is set, `optional none` for NULL.
unfoldable pub coerce_number : Casts → VarType → Value → Value
coerce_number c t_double (int n) = double (c.int_to_double n)
coerce_number c t_double (float w) = double (c.float_to_double w)
coerce_number c t_float (int n) = float (c.int_to_float n)
coerce_number c t_int (double w) = int (c.double_to_int w)
coerce_number c t_int (float w) = int (c.float_to_int w)
coerce_number c t v = v

unfoldable pub coerce_value : Casts → Option ℕ → VarType → Value → Value
unfolding type_eq type_of coerce_number
coerce_value c fresh t v =
    if type_eq t t_optional && not (type_eq (type_of v) t_optional)
    then optional fresh
    else coerce_number c t v

-- `function_get_required_params`: the parameters before the first that has a default.
unfoldable pub leading_required : List FunctionParameter → ℕ
leading_required [] = 0
leading_required (p ∷ ps) =
    let rest = leading_required ps in elim p.default_value [ none ↦ suc rest | some v ↦ 0 ]

unfoldable pub get_required_params : Function → ℕ
unfolding leading_required
get_required_params f = elim f.parameters [
  | none ↦ length f.param_names
  | some ps ↦ leading_required ps
]

-- The loop over the parameters that are not provided.
abbrev pub and_default : Option Value → Option (List Value) → Option (List Value)
and_default (some v) (some vs) = some (v ∷ vs)
and_default none vs = none
and_default (some v) none = none

unfoldable pub defaults : List FunctionParameter → Option (List Value)
defaults [] = some []
defaults (p ∷ ps) = and_default p.default_value (defaults ps)

abbrev pub after_arguments : List Value → Option (List Value) → Option (List Value)
after_arguments args none = none
after_arguments args (some vs) = some (args ++ vs)

unfoldable pub fill_arguments : List Value → Function → Option (List Value)
unfolding defaults
fill_arguments args f = elim f.parameters [
  | none ↦ if length args == length f.param_names then some args else none
  | some ps ↦ after_arguments args (defaults (drop (length args) ps))
]

-- `function_apply_defaults`
unfoldable pub apply_defaults : Bool → Function → List Value → Option (List Value)
unfolding get_required_params fill_arguments
apply_defaults granted f args =
    if ltb (length args) (get_required_params f)
    then none
    else if ltb (length f.param_names) (length args)
    then none
    else if granted
    then fill_arguments args f
    else none
