-- ===== src/Operators.antt =====
-- The operators on values that the compiled code calls (src/runtime/value_ops.c). Floats and doubles are
-- bit patterns, whose arithmetic and order are parameters. An overflow of the 64-bit integers, which C
-- leaves undefined, is taken to wrap around. Pointers to values are not NULL.
pub mod Order
pub mod Division
pub mod Conversion
pub mod Indexing
pub mod Evaluating
use bread_lang.Prelude.{
  ℕ, zero, suc, ◌+◌, ◌-◌, ◌*◌, ◌/◌, ◌%◌, ◌^◌, Bool, true, false, not, ◌&&◌, ◌||◌, Option, none,
  some, List, [], ◌∷◌, ◌++◌, ltb, leb, ◌==◌, if◌then◌else◌, Text,
}
use bread_lang.Prelude.Int.{ℤ, pos, negsuc, pos_part, neg_part, ◌+ℤ◌, ◌-ℤ◌, ◌*ℤ◌, ltb_ℤ}
use bread_lang.Types.{VarType, t_float}
use bread_lang.Values.{
  Value, nil, bool, int, float, double, string, array, dict, optional, struct, class, Str, type_of,
  type_eq, c_str, is_zero, double_eq, int_eq, bool_eq,
}
use bread_lang.Scopes.Coercion.{Casts}

-- What C does with floats and doubles.
pub record Floats : Type 0 where
  pub casts : Casts
  pub add : ℕ → ℕ → ℕ
  pub sub : ℕ → ℕ → ℕ
  pub mul : ℕ → ℕ → ℕ
  pub div : ℕ → ℕ → ℕ
  pub less : ℕ → ℕ → Bool
  pub at_most : ℕ → ℕ → Bool
  pub float_equal : ℕ → ℕ → Bool
  pub float_less : ℕ → ℕ → Bool
  pub float_at_most : ℕ → ℕ → Bool

-- `int64_t`
unfoldable pub wrap_64 : ℤ → ℤ
wrap_64 (pos n) = let r = n % 2 ^ 64 in if ltb r (2 ^ 63) then pos r else negsuc (2 ^ 64 - 1 - r)
wrap_64 (negsuc n) = let r = n % 2 ^ 64 in if ltb r (2 ^ 63) then negsuc r else pos (2 ^ 64 - 1 - r)

abbrev pub magnitude : ℤ → ℕ
magnitude a = pos_part a + neg_part a

abbrev pub is_negative : ℤ → Bool
is_negative (pos n) = false
is_negative (negsuc n) = true

abbrev pub signed : Bool → ℕ → ℤ
signed negative zero = pos 0
signed true (suc n) = negsuc n
signed false (suc n) = pos (suc n)

abbrev pub differ : Bool → Bool → Bool
differ true b = not b
differ false b = b

-- `/` and `%` on integers, which round towards zero
unfoldable pub int_div : ℤ → ℤ → ℤ
int_div a b = signed (differ (is_negative a) (is_negative b)) (magnitude a / magnitude b)

unfoldable pub int_mod : ℤ → ℤ → ℤ
int_mod a b = signed (is_negative a) (magnitude a % magnitude b)

-- The error that an operator sets, if it sets one.
pub data Error : Type 0 where
  mismatched_types division_by_zero out_of_memory unknown_operator no_message : Error

pub data Answer : Type 0 where
  gives : Value → Answer
  fails : Error → Answer

-- `bread_value_is_number`, and `bread_value_as_double` of a number
unfoldable pub as_double : Floats → Value → Option ℕ
as_double f (int n) = some (f.casts.int_to_double n)
as_double f (float w) = some (f.casts.float_to_double w)
as_double f (double w) = some w
as_double f v = none

-- `bread_string_concat`, for memory at an address
abbrev pub chars_of : Option Str → List ℕ
chars_of none = []
chars_of (some s) = s.chars

abbrev pub concat : Option ℕ → Option Str → Option Str → Answer
concat none a b = fails out_of_memory
concat (some p) a b =
    gives (string (some (record { address = p; chars = chars_of a ++ chars_of b })))

abbrev pub add_doubles : Floats → Option ℕ → Option ℕ → Answer
add_doubles f (some a) (some b) = gives (double (f.add a b))
add_doubles f (some a) none = fails mismatched_types
add_doubles f none b = fails mismatched_types

-- `bread_add`
unfoldable pub add : Floats → Option ℕ → Value → Value → Answer
unfolding as_double wrap_64 ◌+ℤ◌
add f fresh (string a) (string b) = concat fresh a b
add f fresh (string a) v = fails mismatched_types
add f fresh (int a) (int b) = gives (int (wrap_64 (a +ℤ b)))
add f fresh v w = add_doubles f (as_double f v) (as_double f w)

-- `bread_arithmetic_op` on two integers
unfoldable pub int_arithmetic : ℕ → ℤ → ℤ → Answer
unfolding int_div int_mod wrap_64 ◌-ℤ◌ ◌*ℤ◌
int_arithmetic op a b =
    if (op == b'/' || op == b'%') && magnitude b == 0
    then fails division_by_zero
    else if op == b'-'
    then gives (int (wrap_64 (a -ℤ b)))
    else if op == b'*'
    then gives (int (wrap_64 (a *ℤ b)))
    else if op == b'/'
    then gives (int (wrap_64 (int_div a b)))
    else if op == b'%'
    then gives (int (wrap_64 (int_mod a b)))
    else fails no_message

-- `bread_arithmetic_op` on other numbers
unfoldable pub double_arithmetic : Floats → ℕ → Option ℕ → Option ℕ → Answer
unfolding is_zero
double_arithmetic f op none b = fails mismatched_types
double_arithmetic f op (some a) none = fails mismatched_types
double_arithmetic f op (some a) (some b) =
    if op == b'%'
    then fails mismatched_types
    else if op == b'/' && is_zero b
    then fails division_by_zero
    else if op == b'-'
    then gives (double (f.sub a b))
    else if op == b'*'
    then gives (double (f.mul a b))
    else if op == b'/'
    then gives (double (f.div a b))
    else fails no_message

-- `bread_arithmetic_op`
unfoldable pub arithmetic_op : Floats → ℕ → Value → Value → Answer
unfolding int_arithmetic double_arithmetic as_double
arithmetic_op f op (int a) (int b) = int_arithmetic op a b
arithmetic_op f op v w = double_arithmetic f op (as_double f v) (as_double f w)

-- `strcmp`, by its sign
pub data Sign : Type 0 where
  less equal greater : Sign

unfoldable pub strcmp : Text → Text → Sign
strcmp [] [] = equal
strcmp [] (b ∷ bs) = less
strcmp (a ∷ xs) [] = greater
strcmp (a ∷ xs) (b ∷ bs) =
    let rest = strcmp xs bs in if ltb a b then less else if ltb b a then greater else rest

abbrev pub cstr : Option Str → Text
cstr none = []
cstr (some s) = c_str s.chars

abbrev pub is_less : Sign → Bool
is_less less = true
is_less _ = false

abbrev pub is_equal : Sign → Bool
is_equal equal = true
is_equal _ = false

abbrev pub is_greater : Sign → Bool
is_greater greater = true
is_greater _ = false

-- The switch on the operator, for the comparisons of a type.
unfoldable pub tested : ℕ → Bool → Bool → Bool → Bool → Bool → Answer
tested op eq lt gt le ge =
    if op == b'='
    then gives (bool eq)
    else if op == b'!'
    then gives (bool (not eq))
    else if op == b'<'
    then gives (bool lt)
    else if op == b'>'
    then gives (bool gt)
    else if op == b'l'
    then gives (bool le)
    else if op == b'g'
    then gives (bool ge)
    else fails no_message

-- The comparison of two pointers.
abbrev pub pointer_eq : Option ℕ → Option ℕ → Bool
pointer_eq none none = true
pointer_eq (some a) (some b) = a == b
pointer_eq none (some b) = false
pointer_eq (some a) none = false

unfoldable pub same_object : ℕ → Option ℕ → Option ℕ → Answer
same_object op p q =
    if op == b'='
    then gives (bool (pointer_eq p q))
    else if op == b'!'
    then gives (bool (not (pointer_eq p q)))
    else fails mismatched_types

abbrev pub tested_sign : ℕ → Sign → Answer
tested_sign op s =
    tested op (is_equal s) (is_less s) (is_greater s) (not (is_greater s)) (not (is_less s))

-- `bread_compare_values`
unfoldable pub compare_values : Floats → ℕ → Value → Value → Answer
unfolding tested strcmp same_object int_eq double_eq
compare_values f op (int a) (int b) =
    tested op (int_eq a b) (ltb_ℤ a b) (ltb_ℤ b a) (not (ltb_ℤ b a)) (not (ltb_ℤ a b))
compare_values f op (double a) (double b) =
    tested op (double_eq a b) (f.less a b) (f.less b a) (f.at_most a b) (f.at_most b a)
compare_values f op (float a) (float b) =
    tested op (f.float_equal a b) (f.float_less a b) (f.float_less b a) (f.float_at_most a b)
      (f.float_at_most b a)
compare_values f op (bool a) (bool b) =
    tested op (bool_eq a b) (not a && b) (a && not b) (not a || b) (a || not b)
compare_values f op (string a) (string b) = tested_sign op (strcmp (cstr a) (cstr b))
compare_values f op (array a) (array b) = same_object op a b
compare_values f op (dict a) (dict b) = same_object op a b
compare_values f op (optional a) (optional b) = same_object op a b
compare_values f op (struct a) (struct b) = same_object op a b
compare_values f op (class a) (class b) = same_object op a b
compare_values f op v w = fails mismatched_types

-- The Boolean operators
unfoldable pub logical : ℕ → Value → Value → Answer
logical op (bool a) (bool b) = gives (bool (if op == b'&' then a && b else a || b))
logical op v w = fails mismatched_types

-- `bread_binary_op`
unfoldable pub binary_op : Floats → Option ℕ → ℕ → Value → Value → Answer
unfolding add arithmetic_op compare_values logical
binary_op f fresh op v w =
    if op == b'+'
    then add f fresh v w
    else if op == b'-' || op == b'*' || op == b'/' || op == b'%'
    then arithmetic_op f op v w
    else if op == b'=' || op == b'!' || op == b'<' || op == b'>' || op == b'l' || op == b'g'
    then compare_values f op v w
    else if op == b'&' || op == b'|'
    then logical op v w
    else fails unknown_operator

-- `bread_unary_not`
unfoldable pub unary_not : Value → Answer
unary_not (bool b) = gives (bool (not b))
unary_not v = fails mismatched_types

-- `bread_is_truthy`, where `is_some` reads an optional
abbrev pub has_chars : List ℕ → Bool
has_chars [] = false
has_chars (c ∷ cs) = true

abbrev pub has_object : Option ℕ → Bool
has_object none = false
has_object (some p) = true

abbrev pub some_content : (ℕ → Bool) → Option ℕ → Bool
some_content is_some none = false
some_content is_some (some p) = is_some p

unfoldable pub is_truthy : (ℕ → Bool) → Value → Bool
unfolding is_zero
is_truthy is_some nil = false
is_truthy is_some (bool b) = b
is_truthy is_some (int n) = not (magnitude n == 0)
is_truthy is_some (float w) = not (w % 0x8000_0000 == 0)
is_truthy is_some (double w) = not (is_zero w)
is_truthy is_some (string s) = has_chars (chars_of s)
is_truthy is_some (optional p) = some_content is_some p
is_truthy is_some (array p) = has_object p
is_truthy is_some (dict p) = has_object p
is_truthy is_some (struct p) = has_object p
is_truthy is_some (class p) = has_object p
