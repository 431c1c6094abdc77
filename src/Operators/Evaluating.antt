-- ===== src/Operators/Evaluating.antt =====
-- The operators of the evaluator that runs lines of text (src/compiler/parser/expr_ops.c), beside those
-- of the compiled code (src/runtime/value_ops.c).
use bread_lang.Prelude.{
  ℕ, not, ◌&&◌, ◌||◌, Option, none, some, List, [], ◌++◌, ◌==◌, ◌≡◌, if◌then◌else◌, arith,
}
use bread_lang.Prelude.Int.{ℤ, ◌+ℤ◌, ◌-ℤ◌, ◌*ℤ◌, ltb_ℤ}
use bread_lang.Values.{
  Value, bool, int, float, double, string, Call, release_calls, is_zero, double_eq, int_eq, bool_eq,
}
use bread_lang.Operators.{
  Floats, Answer, gives, fails, concat, wrap_64, int_div, int_mod, magnitude, tested, tested_sign,
  strcmp, cstr, binary_op, add, arithmetic_op, int_arithmetic, compare_values, logical, as_double,
  double_arithmetic,
}
use bread_lang.Operators.Indexing.{wrap_32}

-- An `ExprResult`, which is an error or a value, with the reference counting calls that were made.
pub record Evaluated : Type 0 where
  pub result : Option Value
  pub calls : List Call

abbrev pub evaluated : Option Value → Evaluated
evaluated r = record { result = r; calls = [] }

-- The concatenation of two strings, which releases them.
abbrev pub concatenated : Answer → Value → Value → Evaluated
concatenated (gives v) a b = record { result = some v; calls = release_calls a ++ release_calls b }
concatenated (fails e) a b = evaluated none

-- The conversions before an operation on two numbers of different types.
unfoldable pub promote : Floats → Value → Value → Value × Value
promote f (int a) (double b) = (double (f.casts.int_to_double a), double b)
promote f (double a) (int b) = (double a, double (f.casts.int_to_double b))
promote f (int a) (float b) = (double (f.casts.int_to_double a), double (f.casts.float_to_double b))
promote f (float a) (int b) = (double (f.casts.float_to_double a), double (f.casts.int_to_double b))
promote f (float a) (double b) = (double (f.casts.float_to_double a), double b)
promote f (double a) (float b) = (double a, double (f.casts.float_to_double b))
promote f v w = (v, w)

unfoldable pub evaluate_doubles : Floats → ℕ → ℕ → ℕ → Option Value
unfolding is_zero
evaluate_doubles f op a b =
    if op == b'+'
    then some (double (f.add a b))
    else if op == b'-'
    then some (double (f.sub a b))
    else if op == b'*'
    then some (double (f.mul a b))
    else if op == b'/'
    then (if is_zero b then none else some (double (f.div a b)))
    else none

-- The result has 64 bits, and `ops_create_int_result` takes an `int`.
abbrev pub narrowed : ℤ → Option Value
narrowed n = some (int (wrap_32 (wrap_64 n)))

unfoldable pub evaluate_ints : ℕ → ℤ → ℤ → Option Value
unfolding int_div int_mod wrap_64 wrap_32 ◌+ℤ◌ ◌-ℤ◌ ◌*ℤ◌
evaluate_ints op a b =
    if (op == b'/' || op == b'%') && magnitude b == 0
    then none
    else if op == b'+'
    then narrowed (a +ℤ b)
    else if op == b'-'
    then narrowed (a -ℤ b)
    else if op == b'*'
    then narrowed (a *ℤ b)
    else if op == b'/'
    then narrowed (int_div a b)
    else if op == b'%'
    then narrowed (int_mod a b)
    else none

abbrev pub evaluate_arithmetic : Floats → ℕ → Value × Value → Option Value
evaluate_arithmetic f op (double a, double b) = evaluate_doubles f op a b
evaluate_arithmetic f op (int a, int b) = evaluate_ints op a b
evaluate_arithmetic f op p = none

abbrev pub value_of : Answer → Option Value
value_of (gives v) = some v
value_of (fails e) = none

abbrev pub evaluate_comparison : Floats → ℕ → Value × Value → Option Value
evaluate_comparison f op (double a, double b) =
    value_of (tested op (double_eq a b) (f.less a b) (f.less b a) (f.at_most a b) (f.at_most b a))
evaluate_comparison f op (int a, int b) =
    value_of (tested op (int_eq a b) (ltb_ℤ a b) (ltb_ℤ b a) (not (ltb_ℤ b a)) (not (ltb_ℤ a b)))
evaluate_comparison f op (bool a, bool b) =
    value_of (tested op (bool_eq a b) (not a && b) (a && not b) (not a || b) (a || not b))
evaluate_comparison f op (string a, string b) = value_of (tested_sign op (strcmp (cstr a) (cstr b)))
evaluate_comparison f op p = none

abbrev pub evaluate_logical : ℕ → Value × Value → Option Value
evaluate_logical op (bool a, bool b) = some (bool (if op == b'&' then a && b else a || b))
evaluate_logical op p = none

-- The operation after the conversions.
unfoldable pub evaluate_promoted : Floats → ℕ → Value × Value → Option Value
unfolding evaluate_doubles evaluate_ints tested strcmp int_eq double_eq
evaluate_promoted f op p =
    if op == b'+' || op == b'-' || op == b'*' || op == b'/' || op == b'%'
    then evaluate_arithmetic f op p
    else if op == b'=' || op == b'!' || op == b'<' || op == b'>' || op == b'l' || op == b'g'
    then evaluate_comparison f op p
    else if op == b'&' || op == b'|'
    then evaluate_logical op p
    else none

-- The case `op == '+'` with a string, for memory at an address.
abbrev pub evaluate_plus : Floats → Option ℕ → Value → Value → Evaluated
evaluate_plus f fresh (string a) (string b) = concatenated (concat fresh a b) (string a) (string b)
evaluate_plus f fresh (string a) w = evaluated none
evaluate_plus f fresh v (string b) = evaluated none
evaluate_plus f fresh v w = evaluated (evaluate_promoted f b'+' (promote f v w))

-- `evaluate_binary_op`
unfoldable pub evaluate_binary_op : Floats → Option ℕ → Value → Value → ℕ → Evaluated
unfolding promote evaluate_promoted
evaluate_binary_op f fresh v w op =
    if op == b'+'
    then evaluate_plus f fresh v w
    else evaluated (evaluate_promoted f op (promote f v w))

-- `evaluate_unary_op`
unfoldable pub evaluate_unary_op : Value → ℕ → Option Value
evaluate_unary_op (bool b) op = if op == b'!' then some (bool (not b)) else none
evaluate_unary_op v op = none

-- The answer of the compiled operator, with an integer narrowed to 32 bits.
abbrev pub narrow : Option Value → Option Value
narrow (some (int n)) = some (int (wrap_32 n))
narrow v = v

-- Two integers, two doubles, two Booleans or two strings.
abbrev pub SameKind : Value → Value → Type 0
SameKind (int a) (int b) = Unit
SameKind (double a) (double b) = Unit
SameKind (bool a) (bool b) = Unit
SameKind (string a) (string b) = Unit
SameKind v w = ⊥

-- On operands of one kind, the evaluator and the compiled code agree, but that an integer result is
-- narrowed to 32 bits.
pub evaluate_binary_op-binary_op :
    (f : Floats) (fresh : Option ℕ) (v w : Value) (op : ℕ)
    → SameKind v w
    → (evaluate_binary_op f fresh v w op).result ≡ narrow (value_of (binary_op f fresh op v w))
unfolding evaluate_binary_op binary_op evaluate_promoted evaluate_ints evaluate_doubles promote add
    arithmetic_op int_arithmetic double_arithmetic compare_values logical tested as_double
evaluate_binary_op-binary_op f fresh (int a) (int b) op h = ground arith
evaluate_binary_op-binary_op f fresh (double a) (double b) op h = ground arith
evaluate_binary_op-binary_op f fresh (bool a) (bool b) op h = ground arith
evaluate_binary_op-binary_op f none (string a) (string b) op h = ground arith
evaluate_binary_op-binary_op f (some p) (string a) (string b) op h = ground arith
evaluate_binary_op-binary_op f fresh v w op h = elim h [ ]
