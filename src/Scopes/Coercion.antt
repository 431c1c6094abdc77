-- ===== src/Scopes/Coercion.antt =====
-- The coercions of an assignment (src/core/var.c). The conversions between C's number types are
-- parameters; floats and doubles are their bit patterns.
use bread_lang.Prelude.{
  ℕ, Bool, true, false, Option, none, some, List, [], ◌++◌, ◌||◌, if◌then◌else◌,
}
use bread_lang.Prelude.Int.{ℤ}
use bread_lang.Types.{VarType, t_int, t_float, t_double, t_optional, t_struct, t_nil}
use bread_lang.Values.{
  Value, nil, int, float, double, string, optional, class, type_of, type_eq, Call, clone_calls,
  release_calls,
}

-- The C casts, `int` the 32-bit one.
pub record Casts : Type 0 where
  pub int_to_double : ℤ → ℕ
  pub float_to_double : ℕ → ℕ
  pub int_to_float : ℤ → ℕ
  pub double_to_float : ℕ → ℕ
  pub double_to_int : ℕ → ℤ
  pub float_to_int : ℕ → ℤ

-- `try_numeric_coercion`
unfoldable pub try_numeric_coercion : Casts → VarType → Value → Option Value
try_numeric_coercion c t_double (int n) = some (double (c.int_to_double n))
try_numeric_coercion c t_double (float w) = some (double (c.float_to_double w))
try_numeric_coercion c t_float (int n) = some (float (c.int_to_float n))
try_numeric_coercion c t_float (double w) = some (float (c.double_to_float w))
try_numeric_coercion c t_int (double w) = some (int (c.double_to_int w))
try_numeric_coercion c t_int (float w) = some (int (c.float_to_int w))
try_numeric_coercion c t v = none

-- `bread_optional_new_none` for nil, `bread_optional_new_some`, which copies, for any other value; the
-- address of the new object is a parameter. Its content is the value that is not nil.
unfoldable pub try_optional_coercion : Option ℕ → VarType → Value → Option (Value × List Call)
try_optional_coercion none t v = none
try_optional_coercion (some a) t_optional (optional p) = none
try_optional_coercion (some a) t_optional v = some (optional (some a), clone_calls v)
try_optional_coercion (some a) t v = none

-- What `coerce_and_assign` stores: a value, the calls that made it, and whether one reference to it is
-- dropped at the end.
pub record Coerced : Type 0 where
  pub value : Value
  pub calls : List Call
  pub needs_optional_cleanup : Bool

abbrev pub kept : Value → Coerced
kept v = record { value = v; calls = []; needs_optional_cleanup = false }

-- A class may be stored where a struct is expected.
unfoldable pub class_for_struct : VarType → Value → Option Coerced
class_for_struct t_struct (class p) = some (kept (class p))
class_for_struct t v = none

abbrev pub or_optional : Option (Value × List Call) → Option Coerced → Option Coerced
or_optional none rest = rest
or_optional (some (v, calls)) rest =
    some (record { value = v; calls = calls; needs_optional_cleanup = true })

abbrev pub or_numeric : Option Value → Option Coerced → Option Coerced
or_numeric none rest = rest
or_numeric (some v) rest = some (kept v)

unfoldable pub coerce : Casts → Option ℕ → VarType → Value → Option Coerced
unfolding type_of type_eq try_numeric_coercion try_optional_coercion class_for_struct
coerce c fresh t v =
    if type_eq t t_nil || type_eq t (type_of v)
    then some (kept v)
    else or_numeric (try_numeric_coercion c t v)
        (or_optional (try_optional_coercion fresh t v) (class_for_struct t v))

-- What a variable holds after `coerce_and_assign`, with its result and the calls that it made.
pub record Stored : Type 0 where
  pub done : Bool
  pub value : Value
  pub calls : List Call

abbrev pub rejected : Value → Stored
rejected old = record { done = false; value = old; calls = [] }

-- What is left if no empty string can be made: a variable of the nil type is of the string type then.
abbrev pub retyped : Value → Value
retyped nil = string none
retyped v = v

-- The value that is stored over `old`: a string is retained before the old one is released, all other
-- objects after, and a string that is NULL becomes a new empty one.
unfoldable pub stored : Option ℕ → Value → Value → Stored
stored none old (string none) = rejected (retyped old)
stored (some a) old (string none) = record {
  done = true;
  value = string (some (record { address = a; chars = [] }));
  calls = release_calls old;
}
stored fresh old (string (some s)) = record {
  done = true;
  value = string (some s);
  calls = clone_calls (string (some s)) ++ release_calls old;
}
stored fresh old v = record { done = true; value = v; calls = release_calls old ++ clone_calls v }

abbrev pub cleanup_calls : Bool → Value → List Call
cleanup_calls false v = []
cleanup_calls true v = release_calls v

abbrev pub store_coerced : Option ℕ → Value → Option Coerced → Stored
store_coerced fresh old none = rejected old
store_coerced fresh old (some k) =
    let s = stored fresh old k.value in
    record s { calls = k.calls ++ s.calls ++ cleanup_calls k.needs_optional_cleanup k.value }

-- `coerce_and_assign` on a variable that holds `old`
unfoldable pub coerce_and_assign : Casts → Option ℕ → Value → Value → Stored
unfolding coerce stored type_of
coerce_and_assign c fresh old v = store_coerced fresh old (coerce c fresh (type_of old) v)
