-- ===== src/Syntax/Literals.antt =====
-- `parse_string_literal` and `parse_number` of src/compiler/ast/ast_expr_parser.c. The growing buffer of
-- a string is a list.
use bread_lang.Prelude.{
  ℕ, zero, suc, Bool, true, false, not, ◌&&◌, ◌||◌, Option, none, some, [], ◌∷◌, ◌++◌, leb, ◌==◌,
  if◌then◌else◌, length, Text, bytes,
}
use bread_lang.Syntax.{
  Expr, int, double, binary, call, string_literal, no_exprs, more_exprs, Parsed, ok, failed, stuck,
  ◌>>=◌, Parser, Libc,
}
use bread_lang.Syntax.Lexing.{is_digit, expect}

-- The bytes that an escape sequence stands for; an unknown one keeps its backslash.
unfoldable pub unescape : ℕ → Text
unescape c =
    if c == b'n'
    then 10 ∷ []
    else if c == b't'
    then 9 ∷ []
    else if c == b'r'
    then 13 ∷ []
    else if c == b'b'
    then 8 ∷ []
    else if c == b'f'
    then 12 ∷ []
    else if c == b'"' || c == b'\\' || c == b'/' || c == b'('
    then c ∷ []
    else b'\\' ∷ c ∷ []

-- What stands at the cursor in a string: its end, an interpolation, or bytes of it.
pub data StringPart : Type 0 where
  unfinished : StringPart
  quote : Text → StringPart
  interpolation : Text → StringPart
  plain : Text → Text → StringPart

unfoldable pub string_escape : Text → StringPart
unfolding unescape
string_escape [] = plain (b'\\' ∷ []) []
string_escape (c ∷ cs) = if c == b'(' then interpolation cs else plain (unescape c) cs

unfoldable pub string_part : Text → StringPart
unfolding string_escape
string_part [] = unfinished
string_part (c ∷ cs) =
    if c == b'"' then quote cs else if c == b'\\' then string_escape cs else plain (c ∷ []) cs

-- The node so far and the next part, joined by `+`.
abbrev pub joined : Option Expr → Expr → Expr
joined none e = e
joined (some left) e = binary b'+' left e

-- The bytes in the buffer, if there are any, as a part of the literal.
abbrev pub flushed : Option Expr → Text → Option Expr
flushed result [] = result
flushed result (c ∷ cs) = some (joined result (string_literal (c ∷ cs)))

-- The final segment, which is there when nothing else is.
abbrev pub string_end : Option Expr → Text → Expr
string_end none buffer = string_literal buffer
string_end (some e) [] = e
string_end (some e) (c ∷ cs) = joined (some e) (string_literal (c ∷ cs))

-- The node `str(e)` of an interpolated expression.
abbrev pub str_call : Expr → Expr
str_call e = call (bytes "str") (more_exprs e no_exprs)

-- The loop of `parse_string_literal`, with the node so far and the buffer.
unfoldable pub string_from : Parser → ℕ → Option Expr → Text → Text → Parsed Expr
unfolding string_part
string_from expression zero result buffer s = stuck
string_from expression (suc k) result buffer s = elim (string_part s) [
  | unfinished ↦ failed []
  | quote r ↦ ok (string_end result buffer) r
  | plain added r ↦ string_from expression k result (buffer ++ added) r
  | interpolation r ↦ expression r >>= λ e r1. expect b')' r1 >>= λ _ r2.
      string_from expression k (some (joined (flushed result buffer) (str_call e))) [] r2
]

-- `parse_string_literal`, after the opening quote.
unfoldable pub parse_string_literal : Parser → Text → Parsed Expr
unfolding string_from
parse_string_literal expression s = string_from expression (suc (length s)) none [] s

-- The loop of `parse_number`: digits, and one dot. The flag is `has_dot`; `none` ends the loop.
unfoldable pub number_step : Bool → ℕ → Option Bool
number_step has_dot c =
    if is_digit c then some has_dot else if c == b'.' && not has_dot then some true else none

pub record Numeral : Type 0 where
  pub digits : Text
  pub has_dot : Bool
  pub rest : Text

unfoldable pub span_number : Bool → Text → Numeral
unfolding number_step
span_number dot [] = record { digits = []; has_dot = dot; rest = [] }
span_number dot (c ∷ cs) = elim (number_step dot c) [
  | none ↦ record { digits = []; has_dot = dot; rest = c ∷ cs }
  | some seen ↦
      let n = span_number seen cs in
      record { digits = c ∷ n.digits; has_dot = n.has_dot; rest = n.rest }
]

-- `MAX_TOKEN_LEN`
abbrev pub max_token_len : ℕ
max_token_len = 1024

-- `parse_number`
unfoldable pub parse_number : Libc → Text → Parsed Expr
unfolding span_number
parse_number c s =
    let n = span_number false s in
    if length n.digits == 0 || leb max_token_len (length n.digits)
    then failed n.rest
    else ok (if n.has_dot then double (c.strtod n.digits) else int (c.atoi n.digits)) n.rest
