-- ===== src/Scopes/Commands.antt =====
-- Declarations and assignments as lines of text (src/core/var.c). The evaluation of an expression, which
-- is that of src/compiler/parser/expr.c, is the parameter `evaluate`. Its buffers of 1024 bytes are
-- taken to be long enough, and the characters are bytes of the C locale.
use mathlib.Core.List.{reverse}
use bread_lang.Prelude.{
  ℕ, zero, suc, Bool, true, false, ◌&&◌, ◌||◌, Option, none, some, [], ◌∷◌, ◌++◌, leb, ◌==◌,
  if◌then◌else◌, length, Text, text_eq, bytes,
}
use bread_lang.Prelude.Int.{ℤ, pos, negsuc}
use bread_lang.Types.{
  VarType, t_string, t_int, t_bool, t_float, t_double, t_array, t_dict, t_optional, t_struct,
  t_class, t_nil,
}
use bread_lang.Values.{
  Value, nil, bool, int, float, double, string, array, dict, optional, struct, class, Outcome,
  release_calls,
}
use bread_lang.Scopes.{Variable, Scopes, refused, get_variable, declare_variable_raw}
use bread_lang.Scopes.Coercion.{Casts}
use bread_lang.Scopes.Assigning.{ExprResult, set_variable_value_from_expr_result}

-- `isspace`
unfoldable pub is_space : ℕ → Bool
is_space c = c == 32 || (leb 9 c && leb c 13)

unfoldable pub skip_spaces : Text → Text
unfolding is_space
skip_spaces [] = []
skip_spaces (c ∷ cs) = if is_space c then skip_spaces cs else c ∷ cs

-- `trim_var`
unfoldable pub trim_var : Text → Text
unfolding skip_spaces
trim_var s = reverse (skip_spaces (reverse (skip_spaces s)))

-- `strchr`: what stands before and after the first byte `c`.
abbrev pub and_before : ℕ → Option (Text × Text) → Option (Text × Text)
and_before x none = none
and_before x (some (a, b)) = some (x ∷ a, b)

unfoldable pub split_at : ℕ → Text → Option (Text × Text)
split_at c [] = none
split_at c (x ∷ xs) =
    let rest = and_before x (split_at c xs) in if x == c then some ([], xs) else rest

-- `strrchr`: what stands before the last byte `c`.
abbrev pub before_rest : ℕ → Option Text → Bool → Option Text
before_rest x (some a) is_c = some (x ∷ a)
before_rest x none true = some []
before_rest x none false = none

unfoldable pub before_last : ℕ → Text → Option Text
before_last c [] = none
before_last c (x ∷ xs) = before_rest x (before_last c xs) (x == c)

abbrev pub up : ℤ → ℤ
up (pos n) = pos (suc n)
up (negsuc zero) = pos 0
up (negsuc (suc n)) = negsuc n

abbrev pub down : ℤ → ℤ
down (pos zero) = negsuc 0
down (pos (suc n)) = pos n
down (negsuc n) = negsuc (suc n)

abbrev pub is_zero_depth : ℤ → Bool
is_zero_depth (pos zero) = true
is_zero_depth _ = false

-- The loop over a type in brackets: whether a colon stands outside all inner brackets.
unfoldable pub has_colon : ℤ → Text → Bool
has_colon d [] = false
has_colon d (c ∷ cs) =
    let rest = has_colon (if c == b'[' then up d else if c == b']' then down d else d) cs in
    if c == b':' && is_zero_depth d then true else rest

abbrev pub bracketed : Option Text → Option VarType
bracketed none = none
bracketed (some inner) = some (if has_colon (pos 0) inner then t_dict else t_array)

unfoldable pub named_type : Text → Option VarType
named_type s =
    if text_eq s (bytes "String")
    then some t_string
    else if text_eq s (bytes "Int")
    then some t_int
    else if text_eq s (bytes "Bool")
    then some t_bool
    else if text_eq s (bytes "Float")
    then some t_float
    else if text_eq s (bytes "Double")
    then some t_double
    else none

unfoldable pub base_type_of : Text → Option VarType
unfolding has_colon before_last named_type
base_type_of [] = named_type []
base_type_of (c ∷ cs) = if c == b'[' then bracketed (before_last b']' cs) else named_type (c ∷ cs)

abbrev pub made_optional : Option VarType → Option VarType
made_optional none = none
made_optional (some t) = some t_optional

-- `parse_type` on the reversed text, of which it takes off question marks.
unfoldable pub parse_type_from : Text → Option VarType
unfolding base_type_of
parse_type_from [] = base_type_of []
parse_type_from (c ∷ cs) =
    let rest = made_optional (parse_type_from cs) in
    if c == b'?' then rest else base_type_of (reverse (c ∷ cs))

unfoldable pub parse_type : Text → Option VarType
unfolding parse_type_from
parse_type s = parse_type_from (reverse s)

-- The value of a type whose bytes are zero.
unfoldable pub zero_value : VarType → Value
zero_value t_string = string none
zero_value t_int = int (pos 0)
zero_value t_bool = bool false
zero_value t_float = float 0
zero_value t_double = double 0
zero_value t_array = array none
zero_value t_dict = dict none
zero_value t_optional = optional none
zero_value t_struct = struct none
zero_value t_class = class none
zero_value t_nil = nil

-- What the line is evaluated with: the casts, the expressions, and the allocator's answers for the name,
-- for the declared string and for the assigned value.
pub record Machine : Type 0 where
  pub casts : Casts
  pub evaluate : Text → ExprResult
  pub name_granted : Bool
  pub declared_at : Option ℕ
  pub assigned_at : Option ℕ

abbrev pub released : ExprResult → Outcome Scopes Bool → Outcome Scopes Bool
released none o = o
released (some v) o = record o { calls = o.calls ++ release_calls v }

-- `set_variable_value`
unfoldable pub set_variable_value : Machine → Scopes → Text → Variable → Text → Outcome Scopes Bool
unfolding set_variable_value_from_expr_result
set_variable_value m s n x raw =
    released (m.evaluate raw)
      (set_variable_value_from_expr_result m.casts m.assigned_at s n x (m.evaluate raw))

abbrev pub set_declared : Machine → Scopes → Text → Option Variable → Text → Outcome Scopes Bool
set_declared m s n none raw = refused s none
set_declared m s n (some x) raw = set_variable_value m s n x raw

-- The end of `execute_variable_declaration`: what the declaration left is initialised, if it succeeded.
unfoldable pub declare_typed :
    Machine → Scopes → Text → Option VarType → Text → Bool → Outcome Scopes Bool
unfolding zero_value declare_variable_raw get_variable set_variable_value
declare_typed m s n none raw k = refused s none
declare_typed m s n (some t) raw k =
    let o = declare_variable_raw m.name_granted m.declared_at s (some n) (zero_value t) k in
    let set = set_declared m o.state n (get_variable o.state (some n)) raw in
    if o.result then record set { calls = o.calls ++ set.calls } else o

-- The parts of a declaration: the name before the colon, the type before the equals sign, the value.
abbrev pub declare_rest :
    Machine → Scopes → Text → Option (Text × Text) → Bool → Outcome Scopes Bool
declare_rest m s name none k = refused s none
declare_rest m s name (some (type, value)) k =
    declare_typed m s (trim_var name) (parse_type (trim_var type)) (trim_var value) k

abbrev pub declare_parts : Machine → Scopes → Option (Text × Text) → Bool → Outcome Scopes Bool
declare_parts m s none k = refused s none
declare_parts m s (some (name, rest)) k = declare_rest m s name (split_at b'=' rest) k

-- `strncmp(s, prefix, strlen(prefix)) == 0`, and what follows.
unfoldable pub strip : Text → Text → Option Text
strip [] s = some s
strip (p ∷ ps) [] = none
strip (p ∷ ps) (c ∷ cs) = let rest = strip ps cs in if p == c then rest else none

abbrev pub declare_const : Machine → Scopes → Option Text → Outcome Scopes Bool
declare_const m s none = refused s none
declare_const m s (some start) = declare_parts m s (split_at b':' start) true

abbrev pub declare_line : Machine → Scopes → Option Text → Text → Outcome Scopes Bool
declare_line m s none line = declare_const m s (strip (bytes "const ") line)
declare_line m s (some start) line = declare_parts m s (split_at b':' start) false

-- `execute_variable_declaration`
unfoldable pub execute_variable_declaration : Machine → Scopes → Text → Outcome Scopes Bool
unfolding trim_var strip split_at parse_type declare_typed
execute_variable_declaration m s line =
    declare_line m s (strip (bytes "let ") (trim_var line)) (trim_var line)

-- The variable that the line names, and its value.
unfoldable pub assign_line : Machine → Scopes → Text → Option Variable → Text → Outcome Scopes Bool
unfolding set_variable_value
assign_line m s n none raw = refused s none
assign_line m s n (some x) raw =
    if x.is_const
    then refused s none
    else if length raw == 0
    then refused s none
    else set_variable_value m s n x raw

abbrev pub assign_parts : Machine → Scopes → Option (Text × Text) → Outcome Scopes Bool
assign_parts m s none = refused s none
assign_parts m s (some (name, value)) =
    if length (trim_var name) == 0
    then refused s none
    else assign_line m s (trim_var name) (get_variable s (some (trim_var name))) (trim_var value)

-- `execute_variable_assignment`
unfoldable pub execute_variable_assignment : Machine → Scopes → Text → Outcome Scopes Bool
unfolding trim_var split_at assign_line get_variable
execute_variable_assignment m s line = assign_parts m s (split_at b'=' line)
