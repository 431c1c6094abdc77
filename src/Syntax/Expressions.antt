-- ===== src/Syntax/Expressions.antt =====
-- The levels of the grammar in src/compiler/ast/ast_expr_parser.c, from `parse_primary` to
-- `parse_expression`. A function takes the parser of whole expressions, on which the nesting of
-- brackets recurses, as an argument; the loops run on fuel, one more than the length of the text.
use bread_lang.Prelude.{
  ℕ, zero, suc, Bool, true, false, ◌&&◌, ◌||◌, Option, none, some, [], ◌∷◌, ◌==◌, if◌then◌else◌,
  length, Text, text_eq, bytes,
}
use bread_lang.Syntax.{
  Expr, null, nil, bool, var, self, super, binary, unary, call, index, member, method_call,
  struct_literal, Parsed, ok, failed, stuck, ◌>>=◌, Parser, Libc,
}
use bread_lang.Syntax.Lexing.{
  is_digit, is_ident_start, is_ident_char, at_byte, at_class, skip_whitespace, after_byte, expect,
  identifier,
}
use bread_lang.Syntax.Literals.{parse_string_literal, parse_number}
use bread_lang.Syntax.Sequences.{parse_argument_list, parse_fields, parse_array_or_dict}

-- What follows a name: a structure literal, a call, or nothing.
abbrev pub after_name : Parser → Text → Text → Parsed Expr
after_name expression name s = elim (after_byte b'{' s) [
  | some r ↦ parse_fields expression r >>= λ fs r1. ok (struct_literal name fs) r1
  | none ↦ elim (after_byte b'(' s) [
    | some r ↦ parse_argument_list expression r >>= λ es r1. ok (call name es) r1
    | none ↦ ok (var name) s
  ]
]

-- The two words that are no names, which are left where they end.
abbrev pub self_or_super : Bool → Bool → Parser → Text → Text → Parsed Expr
self_or_super true is_super expression name s = ok self s
self_or_super false true expression name s = ok super s
self_or_super false false expression name s = after_name expression name (skip_whitespace s)

abbrev pub named : Parser → Text → Text → Parsed Expr
named expression name s =
    self_or_super (text_eq name (bytes "self")) (text_eq name (bytes "super")) expression name s

-- `parse_identifier_expr`
unfoldable pub parse_identifier_expr : Parser → Text → Parsed Expr
unfolding identifier after_byte parse_fields parse_argument_list
parse_identifier_expr expression s = elim (identifier (skip_whitespace s)) [
  | none ↦ failed (skip_whitespace s)
  | some taken ↦ named expression taken.0 taken.1
]

-- `strncmp(s, word, n) == 0 && !is_ident_char(s[n])`, and what follows.
unfoldable pub keyword : Text → Text → Option Text
unfolding is_ident_char
keyword [] s = if at_class is_ident_char s then none else some s
keyword (w ∷ ws) [] = none
keyword (w ∷ ws) (c ∷ cs) = let rest = keyword ws cs in if c == w then rest else none

-- What a primary expression begins with.
pub data Primary : Type 0 where
  constant : Expr → Text → Primary
  parenthesis : Text → Primary
  string_quote : Text → Primary
  number bracket word other : Primary

abbrev pub starts_number : ℕ → Text → Bool
starts_number c cs = is_digit c || (c == b'.' && at_class is_digit cs)

abbrev pub primary_byte : Text → Primary
primary_byte [] = other
primary_byte (c ∷ cs) =
    if c == b'('
    then parenthesis cs
    else if c == b'"'
    then string_quote cs
    else if starts_number c cs
    then number
    else if c == b'['
    then bracket
    else if is_ident_start c
    then word
    else other

abbrev pub or_constant : Option Text → Expr → Primary → Primary
or_constant none e p = p
or_constant (some r) e p = constant e r

unfoldable pub primary_at : Text → Primary
unfolding keyword is_ident_start
primary_at s = or_constant (keyword (bytes "nil") s) nil (
    or_constant (keyword (bytes "true") s) (bool true)
      (or_constant (keyword (bytes "false") s) (bool false) (primary_byte s)))

-- The text after the byte at the cursor.
abbrev pub advanced : Text → Text
advanced [] = []
advanced (c ∷ cs) = cs

-- `parse_primary`
unfoldable pub parse_primary : Libc → Parser → Text → Parsed Expr
unfolding primary_at parse_string_literal parse_number parse_array_or_dict parse_identifier_expr
parse_primary c expression s = elim (primary_at (skip_whitespace s)) [
  | constant e r ↦ ok e r
  | parenthesis r ↦ expression r >>= λ e r1. expect b')' r1 >>= λ _ r2. ok e r2
  | string_quote r ↦ parse_string_literal expression r
  | number ↦ parse_number c (skip_whitespace s)
  | bracket ↦ parse_array_or_dict expression (advanced (skip_whitespace s))
  | word ↦ parse_identifier_expr expression s
  | other ↦ failed (skip_whitespace s)
]

-- What the loop of `parse_postfix` meets: an index, a member with the flag of `?.`, or its end.
pub data Suffix : Type 0 where
  index_bracket : Text → Suffix
  member_dot : Bool → Text → Suffix
  no_suffix : Suffix

unfoldable pub suffix_at : Text → Suffix
suffix_at [] = no_suffix
suffix_at (c ∷ cs) =
    if c == b'['
    then index_bracket cs
    else if c == b'?' && at_byte b'.' cs
    then member_dot true (advanced cs)
    else if c == b'.'
    then member_dot false cs
    else no_suffix

-- A member or the call of a method, after the dot.
abbrev pub named_member : Parser → Expr → Bool → Text → Text → Parsed Expr
named_member expression base chain name s = elim (after_byte b'(' s) [
  | some r ↦ parse_argument_list expression r >>= λ es r1. ok (method_call base name es chain) r1
  | none ↦ ok (member base name chain) s
]

unfoldable pub parse_member : Parser → Expr → Bool → Text → Parsed Expr
unfolding identifier after_byte parse_argument_list
parse_member expression base chain s = elim (identifier (skip_whitespace s)) [
  | none ↦ failed (skip_whitespace s)
  | some taken ↦ named_member expression base chain taken.0 (skip_whitespace taken.1)
]

-- The base when the loop ends: a null pointer is a failure for the caller.
abbrev pub pointer : Expr → Text → Parsed Expr
pointer null s = failed s
pointer e s = ok e s

-- The loop of `parse_postfix`, with the base so far.
unfoldable pub postfix_from : Parser → ℕ → Expr → Text → Parsed Expr
unfolding suffix_at parse_member
postfix_from expression zero base s = stuck
postfix_from expression (suc k) base s = elim (suffix_at (skip_whitespace s)) [
  | no_suffix ↦ pointer base (skip_whitespace s)
  | index_bracket r ↦ expression r >>= λ e r1.
      expect b']' r1 >>= λ _ r2. postfix_from expression k (index base e) r2
  | member_dot chain r ↦
      parse_member expression base chain r >>= λ e r1. postfix_from expression k e r1
]

-- `parse_postfix(expr, parse_primary(expr))`: the loop also runs after a failure.
unfoldable pub parse_postfix : Parser → Parsed Expr → Parsed Expr
unfolding postfix_from
parse_postfix expression (ok e s) = postfix_from expression (suc (length s)) e s
parse_postfix expression (failed s) = postfix_from expression (suc (length s)) null s
parse_postfix expression stuck = stuck

-- The byte of a prefix operator, and the text after it.
unfoldable pub prefix_at : Text → Option (ℕ × Text)
prefix_at [] = none
prefix_at (c ∷ cs) = if c == b'!' || c == b'-' then some (c, cs) else none

-- `parse_unary`, with fuel for the run of prefix operators.
unfoldable pub unary_from : Libc → Parser → ℕ → Text → Parsed Expr
unfolding prefix_at parse_primary parse_postfix
unary_from c expression zero s = stuck
unary_from c expression (suc k) s = elim (prefix_at (skip_whitespace s)) [
  | some op ↦ unary_from c expression k op.1 >>= λ e r. ok (unary op.0 e) r
  | none ↦ parse_postfix expression (parse_primary c expression (skip_whitespace s))
]

unfoldable pub parse_unary : Libc → Parser → Text → Parsed Expr
unfolding unary_from
parse_unary c expression s = unary_from c expression (suc (length s)) s

-- The loop that `parse_factor`, `parse_term`, `parse_logical_and` and `parse_logical_or` share: the
-- operator at the cursor, and the parser of an operand.
unfoldable pub binary_from : (Text → Option (ℕ × Text)) → Parser → ℕ → Expr → Text → Parsed Expr
binary_from operator operand zero left s = stuck
binary_from operator operand (suc k) left s = elim (operator (skip_whitespace s)) [
  | none ↦ ok left (skip_whitespace s)
  | some op ↦ operand op.1 >>= λ right r. binary_from operator operand k (binary op.0 left right) r
]

unfoldable pub chain : (Text → Option (ℕ × Text)) → Parser → Text → Parsed Expr
unfolding binary_from
chain operator operand s =
    operand s >>= λ left r. binary_from operator operand (suc (length r)) left r

unfoldable pub factor_at : Text → Option (ℕ × Text)
factor_at [] = none
factor_at (c ∷ cs) = if c == b'*' || c == b'/' || c == b'%' then some (c, cs) else none

-- `parse_factor`
unfoldable pub parse_factor : Libc → Parser → Text → Parsed Expr
unfolding chain factor_at parse_unary
parse_factor c expression = chain factor_at (parse_unary c expression)

unfoldable pub term_at : Text → Option (ℕ × Text)
term_at [] = none
term_at (c ∷ cs) = if c == b'+' || c == b'-' then some (c, cs) else none

-- `parse_term`
unfoldable pub parse_term : Libc → Parser → Text → Parsed Expr
unfolding chain term_at parse_factor
parse_term c expression = chain term_at (parse_factor c expression)

-- The operators of two bytes, and those of one. `<=` is the byte `l`, `>=` is `g`.
abbrev pub two_bytes : ℕ → Option ℕ
two_bytes c =
    if c == b'<'
    then some b'l'
    else if c == b'>'
    then some b'g'
    else if c == b'=' || c == b'!'
    then some c
    else none

abbrev pub one_byte : ℕ → Option ℕ
one_byte c = if c == b'<' || c == b'>' then some c else none

abbrev pub operator_then : Option ℕ → Text → Option (ℕ × Text)
operator_then none s = none
operator_then (some op) s = some (op, s)

unfoldable pub comparison_at : Text → Option (ℕ × Text)
comparison_at [] = none
comparison_at (c ∷ cs) =
    if at_byte b'=' cs
    then operator_then (two_bytes c) (advanced cs)
    else operator_then (one_byte c) cs

-- `parse_comparison` after its left operand, which does not loop.
unfoldable pub compare_from : Libc → Parser → Expr → Text → Parsed Expr
unfolding comparison_at parse_term
compare_from c expression left r = elim (comparison_at (skip_whitespace r)) [
  | none ↦ ok left (skip_whitespace r)
  | some op ↦ parse_term c expression op.1 >>= λ right r1. ok (binary op.0 left right) r1
]

-- `parse_comparison`
unfoldable pub parse_comparison : Libc → Parser → Text → Parsed Expr
unfolding compare_from parse_term
parse_comparison c expression s =
    parse_term c expression s >>= λ left r. compare_from c expression left r

-- An operator that doubles its byte.
abbrev pub doubled_at : ℕ → Text → Option (ℕ × Text)
doubled_at b [] = none
doubled_at b (c ∷ cs) = if c == b && at_byte b cs then some (b, advanced cs) else none

unfoldable pub and_at : Text → Option (ℕ × Text)
and_at s = doubled_at b'&' s

-- `parse_logical_and`
unfoldable pub parse_logical_and : Libc → Parser → Text → Parsed Expr
unfolding chain and_at parse_comparison
parse_logical_and c expression = chain and_at (parse_comparison c expression)

unfoldable pub or_at : Text → Option (ℕ × Text)
or_at s = doubled_at b'|' s

-- `parse_logical_or`
unfoldable pub parse_logical_or : Libc → Parser → Text → Parsed Expr
unfolding chain or_at parse_logical_and
parse_logical_or c expression = chain or_at (parse_logical_and c expression)

-- `parse_expression`, with fuel for the nesting of brackets.
unfoldable pub parse_expression : Libc → ℕ → Text → Parsed Expr
unfolding parse_logical_or
parse_expression c zero s = stuck
parse_expression c (suc n) s = parse_logical_or c (parse_expression c n) s
