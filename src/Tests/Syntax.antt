-- ===== src/Tests/Syntax.antt =====
-- Runs of the parsers of expressions and of types on concrete texts.
use bread_lang.Prelude.{
  inl, ℕ, ◌+◌, ◌*◌, ◌-◌, ◌≡◌, true, false, [], ◌∷◌, refl, Text, text_eq, bytes, arith,
}
use bread_lang.Prelude.Int.{pos}
use bread_lang.Types.{TypeDescriptor, int, array, optional, struct_type, end}
use bread_lang.Syntax.{
  Expr, int, var, unary, binary, index, member, call, method_call, string_literal, more_exprs,
  no_exprs, ok, Libc,
}
use bread_lang.Syntax.Expressions.{parse_expression}
use bread_lang.Syntax.Ending.{Ends}
use bread_lang.Syntax.Ending.Levels.{parse_expression-Ends}
use bread_lang.Syntax.Grammar.{add, mul, rank, sign, operator_byte, at_end}
use bread_lang.Syntax.Grammar.Comments.{at_once, blank, comment, parse_expression-AfterBlanks}
use bread_lang.Syntax.Grammar.Terms.{
  Term, term, name, whole, quoted, prefixed, call_of, no_suffixes, index_suffix, member_suffix,
  method_suffix, no_terms, more_terms, put, tree, Good, is_name, all_bytes,
}
use bread_lang.Syntax.Grammar.Terms.Reading.{parse_expression-put, parse_expression-put_three}
use bread_lang.Syntax.Lexing.{skip_from, is_ident_start, is_ident_char}
use bread_lang.Syntax.Source.{
  LeavesEnd, parse_expression_str_as_ast, parse_expression_str_as_ast-LeavesEnd,
}
use bread_lang.Syntax.TypeNames.{parse_type_descriptor, type_descriptor_to_string}
use bread_lang.Syntax.TypeNames.Ending.{parse_type_descriptor-Ends}
use bread_lang.Syntax.TypeNames.Reading.{put_type, IsReadable}
use bread_lang.Syntax.TypeNames.RoundTrip.{parse_type_descriptor-type_descriptor_to_string}

-- `atoi` on digits.
abbrev decimal : ℕ → Text → ℕ
decimal acc [] = acc
decimal acc (c ∷ cs) = decimal (acc * 10 + (c - 48)) cs

abbrev libc : Libc
libc = record { atoi = λ s. pos (decimal 0 s); strtod = λ s. 0 }

abbrev named_term : Text → Term
named_term x = term (name x) no_suffixes

-- `f( a, "q")[ 12]?.m( ( - b)).z`
abbrev long_term : Term
long_term =
    term
      (call_of (bytes "f") (
        more_terms (named_term (bytes "a"))
          (more_terms (term (quoted (bytes "q\"")) no_suffixes) no_terms)))
      (index_suffix (term (whole (bytes "12")) no_suffixes) (
        method_suffix true (bytes "m")
          (more_terms (term (prefixed false (named_term (bytes "b"))) no_suffixes) no_terms)
          (member_suffix false (bytes "z") no_suffixes)))

abbrev long_text : Text
long_text = bytes "f( a, \"q\\\"\")[ 12]?.m( ( - b)).z"

long_put : put long_term [] ≡ long_text
unfolding put
long_put = refl

long_Good : Good long_term
unfolding Good is_name all_bytes is_ident_start is_ident_char text_eq
long_Good = (
  ((refl, refl, refl), (((refl, refl, refl), tt, tt), ((tt, tt, tt), tt))),
  tt,
  (
    (((refl, omega arith), omega arith), refl, tt),
    (refl, ((((refl, refl, refl), tt, tt), tt, tt), tt), (refl, tt)),
  ),
)

abbrev long_tree : Expr
long_tree =
    member
      (method_call
        (index
          (call (bytes "f")
            (more_exprs (var (bytes "a")) (more_exprs (string_literal (bytes "q\"")) no_exprs)))
          (int (pos 12)))
        (bytes "m") (more_exprs (unary b'-' (var (bytes "b"))) no_exprs) true)
      (bytes "z") false

parse_expression-put_example : parse_expression libc 40 long_text ≡ ok long_tree []
unfolding put tree skip_from
parse_expression-put_example =
    parse_expression-put libc 40 long_term [] long_Good at_end (omega arith)

abbrev x : Term
x = named_term (bytes "x")

x-Good : Good x
unfolding Good is_name all_bytes is_ident_start is_ident_char text_eq
x-Good = ((refl, refl, refl), tt, tt)

parse_expression-put_three_example :
    parse_expression libc 20 (bytes " x + x * x")
    ≡ ok (binary b'+' (var (bytes "x")) (binary b'*' (var (bytes "x")) (var (bytes "x")))) []
unfolding put tree skip_from sign rank operator_byte
parse_expression-put_three_example =
    parse_expression-put_three libc 20 x x x add mul [] x-Good x-Good x-Good
      (λ e. absurd (ground (arith, e))) at_end (omega arith)

parse_expression-Ends_example : Ends 4 (parse_expression libc 5 (bytes "[1, "))
parse_expression-Ends_example = parse_expression-Ends libc 5 (bytes "[1, ") (omega arith)

parse_expression-AfterBlanks_example :
    parse_expression libc 9 (bytes " // c\n x") ≡ parse_expression libc 9 (bytes "x")
parse_expression-AfterBlanks_example =
    parse_expression-AfterBlanks libc 9 {s = bytes " // c\n x"} {t = bytes "x"} (
      blank (inl refl) (
        comment (bytes " c") (bytes " x") ((λ e. omega arith), ((λ e. omega arith), tt))
          (blank (inl refl) at_once)))

-- The expression of a condition ends before the block.
parse_expression_str_as_ast-LeavesEnd_example :
    LeavesEnd (bytes "a[1] { b }") (parse_expression_str_as_ast libc (bytes "a[1] { b }"))
parse_expression_str_as_ast-LeavesEnd_example =
    parse_expression_str_as_ast-LeavesEnd libc (bytes "a[1] { b }")

abbrev points : TypeDescriptor
points = optional (array (optional (struct_type (bytes "Point") end)))

parse_type_descriptor-type_descriptor_to_string_example :
    parse_type_descriptor 256 (bytes "[Point?]?") ≡ ok points []
unfolding type_descriptor_to_string IsReadable put_type is_name all_bytes is_ident_start
    is_ident_char text_eq
parse_type_descriptor-type_descriptor_to_string_example =
    parse_type_descriptor-type_descriptor_to_string points (refl, refl, omega arith) (omega arith)

parse_type_descriptor-Ends_example : Ends 7 (parse_type_descriptor 8 (bytes "[Int: ["))
parse_type_descriptor-Ends_example = parse_type_descriptor-Ends 8 (bytes "[Int: [") (omega arith)
