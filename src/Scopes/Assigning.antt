-- ===== src/Scopes/Assigning.antt =====
-- Assignment to variables by name (src/core/var.c), as the compiled code calls it.
use bread_lang.Prelude.{Bool, ℕ, Option, none, some, if◌then◌else◌, Text}
use bread_lang.Values.{Value, Outcome}
use bread_lang.Scopes.{Variable, Scopes, refused, get_variable, write_out}
use bread_lang.Scopes.Coercion.{Casts, Stored, coerce_and_assign}

-- `ExprResult`: its value unless `is_error`
abbrev pub ExprResult : Type 0
ExprResult = Option Value

-- The variable holds what was stored.
abbrev pub put_back : Scopes → Text → Variable → Stored → Outcome Scopes Bool
put_back s n x st = record {
  result = st.done;
  state = write_out s n (record x { value = st.value });
  calls = st.calls;
  failure = none;
}

-- `set_variable_value_from_expr_result`
unfoldable pub set_variable_value_from_expr_result :
    Casts → Option ℕ → Scopes → Text → Variable → ExprResult → Outcome Scopes Bool
unfolding coerce_and_assign write_out
set_variable_value_from_expr_result c fresh s n x none = refused s none
set_variable_value_from_expr_result c fresh s n x (some v) =
    put_back s n x (coerce_and_assign c fresh x.value v)

-- The variable that was found is initialised.
unfoldable pub init_found :
    Casts → Option ℕ → Scopes → Text → Option Variable → ExprResult → Outcome Scopes Bool
unfolding set_variable_value_from_expr_result
init_found c fresh s n none r = refused s none
init_found c fresh s n (some x) r = set_variable_value_from_expr_result c fresh s n x r

-- `bread_init_variable_from_expr_result` on a name and a result that are not NULL
unfoldable pub init_variable : Casts → Option ℕ → Scopes → Text → ExprResult → Outcome Scopes Bool
unfolding init_found get_variable
init_variable c fresh s n r = init_found c fresh s n (get_variable s (some n)) r

-- The variable that was found is assigned to, unless it is a constant.
unfoldable pub assign_found :
    Casts → Option ℕ → Scopes → Text → Option Variable → ExprResult → Outcome Scopes Bool
unfolding set_variable_value_from_expr_result
assign_found c fresh s n none r = refused s none
assign_found c fresh s n (some x) r =
    if x.is_const then refused s none else set_variable_value_from_expr_result c fresh s n x r

-- `bread_assign_variable_from_expr_result` on a name and a result that are not NULL
unfoldable pub assign_variable : Casts → Option ℕ → Scopes → Text → ExprResult → Outcome Scopes Bool
unfolding assign_found get_variable
assign_variable c fresh s n r = assign_found c fresh s n (get_variable s (some n)) r
