-- ===== src/Tests/Operators.antt =====
-- Operators on small integers and strings.
use bread_lang.Prelude.{
  ◌≡◌, refl, ◌==◌, ◌∷◌, [], none, some, Option, if◌then◌else◌, leb, ltb, bytes, arith,
}
use bread_lang.Prelude.Int.{pos, negsuc}
use bread_lang.Types.{t_int}
use bread_lang.Values.{int, string, Str}
use bread_lang.Scopes.Coercion.{Casts}
use bread_lang.Arrays.{Array}
use bread_lang.Operators.Indexing.{wrap_32}
use bread_lang.Operators.{
  Floats, fails, gives, division_by_zero, magnitude, int_div, int_mod, binary_op,
}
use bread_lang.Operators.Evaluating.{evaluate_binary_op, evaluate_binary_op-binary_op}
use bread_lang.Operators.Order.{Laws, strings, binary_op-Laws}
use bread_lang.Operators.Division.{Divides, binary_op-Divides}
use bread_lang.Operators.Conversion.{WideCasts}

abbrev some_casts : Casts
some_casts = record {
  int_to_double = λ n. 4607182418800017408;
  float_to_double = λ w. 4607182418800017408;
  int_to_float = λ n. 1065353216;
  double_to_float = λ w. 1065353216;
  double_to_int = λ w. pos 1;
  float_to_int = λ w. pos 1;
}

abbrev floats : Floats
floats = record {
  casts = some_casts;
  add = λ a b. a;
  sub = λ a b. a;
  mul = λ a b. a;
  div = λ a b. a;
  less = ltb;
  at_most = leb;
  float_equal = λ a b. a == b;
  float_less = ltb;
  float_at_most = leb;
}

abbrev loaf : Option Str
loaf = some (record { address = 8; chars = bytes "loaf" })

abbrev rye : Option Str
rye = some (record { address = 16; chars = bytes "rye" })

-- Division rounds towards zero.
binary_op-int_div :
    binary_op floats none b'/' (int (negsuc 6)) (int (pos 2)) ≡ gives (int (negsuc 2))
unfolding binary_op
binary_op-int_div = refl

binary_op-Laws_example : Laws floats (string loaf) (string rye)
binary_op-Laws_example = binary_op-Laws floats (strings loaf rye)

binary_op-Divides_example :
    if magnitude (pos 2) == 0
    then (binary_op floats none b'/' (int (negsuc 6)) (int (pos 2)) ≡ fails division_by_zero)
      × (binary_op floats none b'%' (int (negsuc 6)) (int (pos 2)) ≡ fails division_by_zero)
    else Divides floats (negsuc 6) (pos 2) (int_div (negsuc 6) (pos 2)) (int_mod (negsuc 6) (pos 2))
unfolding int_div
binary_op-Divides_example = binary_op-Divides floats (negsuc 6) (pos 2) (omega arith) (omega arith)

abbrev wide : WideCasts
wide = record { casts = some_casts; double_to_int64 = λ w. pos 1; float_to_int64 = λ w. pos 1 }

abbrev slices : Array
slices = record { items = int (pos 1) ∷ int (pos 2) ∷ []; capacity = 8; element_type = t_int }

-- The sum is 2147483648 in the compiled code, and negative in the evaluator.
evaluate_binary_op-binary_op_example :
    (evaluate_binary_op floats none (int (pos 2147483647)) (int (pos 1)) b'+').result
    ≡ some (int (negsuc 2147483647))
unfolding binary_op wrap_32
evaluate_binary_op-binary_op_example =
    evaluate_binary_op-binary_op floats none (int (pos 2147483647)) (int (pos 1)) b'+' tt
