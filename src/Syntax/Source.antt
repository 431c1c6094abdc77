-- ===== src/Syntax/Source.antt =====
-- `parse_expression_str_as_ast` and `is_expression_brace` of src/compiler/ast/ast_expr_parser.c: the
-- expression at the cursor of a statement is cut out of the source and then parsed.
use mathlib.Core.List.{reverse}
use bread_lang.Prelude.{
  ℕ, suc, ◌+◌, ◌-◌, Bool, true, false, not, ◌&&◌, ◌||◌, ◌==◌, if◌then◌else◌, Option, none, some, [],
  ◌∷◌, ◌++◌, ◌≡◌, refl, ap, inl, inr, Option-cases, Text, length, arith,
}
use bread_lang.Syntax.{Expr, Parsed, ok, failed, stuck, Libc}
use bread_lang.Syntax.Ending.Levels.{parse_expression-Ends}
use bread_lang.Syntax.Ending.{Ends}
use bread_lang.Syntax.Expressions.{parse_expression}
use bread_lang.Syntax.Lexing.{is_whitespace, is_ident_start, at_byte, skip_whitespace, span_ident}

-- The blanks that `is_expression_brace` passes over on a line.
abbrev pub is_line_blank : ℕ → Bool
is_line_blank c = c == b' ' || c == b'\t' || c == b'\r'

unfoldable pub skip_line_blanks : Text → Text
skip_line_blanks [] = []
skip_line_blanks (c ∷ cs) =
    let rest = skip_line_blanks cs in if is_line_blank c then rest else c ∷ cs

-- The text behind a string literal, whose bytes are passed over two at a time after a backslash.
abbrev pub string_turn : Bool → ℕ → Option Bool
string_turn escaped c =
    if escaped
    then some false
    else if c == b'\\'
    then some true
    else if c == b'"'
    then none
    else some false

unfoldable pub after_string : Bool → Text → Option Text
after_string escaped [] = none
after_string escaped (c ∷ cs) = elim (string_turn escaped c) [
  | none ↦ some cs
  | some e ↦ after_string e cs
]

abbrev pub before_colon : Option Text → Bool
before_colon none = false
before_colon (some s) = at_byte b':' (skip_line_blanks s)

abbrev pub brace_entry : Text → Bool
brace_entry [] = false
brace_entry (c ∷ cs) =
    if c == b'}'
    then true
    else if is_ident_start c
    then before_colon (some (span_ident cs).1)
    else if c == b'"'
    then before_colon (after_string false cs)
    else false

-- `is_expression_brace`, on what follows the brace.
unfoldable pub is_expression_brace : Text → Bool
unfolding skip_line_blanks after_string is_ident_start span_ident
is_expression_brace s = brace_entry (skip_line_blanks s)

pub record Scan : Type 0 where
  pub parens : ℕ
  pub braces : ℕ
  pub brackets : ℕ
  pub in_string : Bool
  pub escape : Bool

abbrev pub scan_start : Scan
scan_start = record { parens = 0; braces = 0; brackets = 0; in_string = false; escape = false }

abbrev pub is_top : Scan → Bool
is_top m = m.parens == 0 && m.braces == 0 && m.brackets == 0

-- One byte of a string.
abbrev pub scan_string : Scan → ℕ → Scan
scan_string m c =
    if m.escape
    then record m { escape = false }
    else if c == b'\\'
    then record m { escape = true }
    else if c == b'"'
    then record m { in_string = false }
    else m

-- One byte outside strings, with what follows it; `none` ends the expression.
abbrev pub scan_code : Scan → ℕ → Text → Option Scan
scan_code m c after =
    if c == b'"'
    then some (record m { in_string = true })
    else if is_top m && c == b'{' && not (is_expression_brace after)
    then none
    else if c == b'('
    then some (record m { parens = m.parens + 1 })
    else if c == b')'
    then (if m.parens == 0 then none else some (record m { parens = m.parens - 1 }))
    else if c == b'{'
    then some (record m { braces = m.braces + 1 })
    else if c == b'}'
    then (if m.braces == 0 then none else some (record m { braces = m.braces - 1 }))
    else if c == b'['
    then some (record m { brackets = m.brackets + 1 })
    else if c == b']'
    then some (record m { brackets = m.brackets - 1 })
    else if is_top m && (c == b'\n' || c == b';' || c == b',')
    then none
    else some m

unfoldable pub scan_step : Scan → ℕ → Text → Option Scan
unfolding is_expression_brace
scan_step m c after = if m.in_string then some (scan_string m c) else scan_code m c after

-- The bytes before the end of the expression, and the rest of the source.
abbrev pub and_scanned : ℕ → Text × Text → Text × Text
and_scanned c (a, b) = (c ∷ a, b)

unfoldable pub scan_source : Scan → Text → Text × Text
unfolding scan_step
scan_source m [] = ([], [])
scan_source m (c ∷ cs) = elim (scan_step m c cs) [
  | none ↦ ([], c ∷ cs)
  | some k ↦ and_scanned c (scan_source k cs)
]

unfoldable pub skip_spaces_at : Text → Text
skip_spaces_at [] = []
skip_spaces_at (c ∷ cs) = let rest = skip_spaces_at cs in if is_whitespace c then rest else c ∷ cs

-- The spaces at both ends are taken off.
unfoldable pub trimmed : Text → Text
unfolding skip_spaces_at
trimmed s = skip_spaces_at (reverse (skip_spaces_at (reverse s)))

-- The whole of the text must be an expression.
abbrev pub parsed_whole : Text → Parsed Expr → Parsed Expr
parsed_whole rest (ok e []) = ok e rest
parsed_whole rest (ok e (c ∷ cs)) = failed rest
parsed_whole rest (failed s) = failed rest
parsed_whole rest stuck = stuck

abbrev pub blanks_skipped : Parsed Expr → Parsed Expr
blanks_skipped (ok e s) = ok e (skip_whitespace s)
blanks_skipped (failed s) = failed s
blanks_skipped stuck = stuck

-- `parse_expression_str_as_ast`
unfoldable pub parse_expression_str_as_ast : Libc → Text → Parsed Expr
unfolding scan_source trimmed parse_expression
parse_expression_str_as_ast c s =
    let found = scan_source scan_start s in
    let source = trimmed found.0 in
    parsed_whole found.1 (blanks_skipped (parse_expression c (suc (length source)) source))

-- The bytes at which the source of an expression can end.
abbrev pub is_end : ℕ → Bool
is_end c = c == b'{' || c == b')' || c == b'}' || c == b'\n' || c == b';' || c == b','

abbrev pub EndsAt : Text → Type 0
EndsAt [] = Unit
EndsAt (c ∷ cs) = is_end c ≡ true

scan_step-none : (m : Scan) (c : ℕ) (cs : Text) → scan_step m c cs ≡ none → is_end c ≡ true
unfolding scan_step
scan_step-none m c cs h = ground (arith, h)

scan_source-EndsAt : (m : Scan) (s : Text) → EndsAt (scan_source m s).1
unfolding scan_source
scan_source-EndsAt m [] = tt
scan_source-EndsAt m (c ∷ cs) = elim (Option-cases (scan_step m c cs)) [
  | inl e ↦ rw (e, scan_source) (scan_step-none m c cs e)
  | inr (k, e) ↦ rw (e, scan_source) (scan_source-EndsAt k cs)
]

scan_source-append : (m : Scan) (s : Text) → (scan_source m s).0 ++ (scan_source m s).1 ≡ s
unfolding scan_source
scan_source-append m [] = refl
scan_source-append m (c ∷ cs) = elim (Option-cases (scan_step m c cs)) [
  | inl e ↦ rw (e, scan_source) refl
  | inr (k, e) ↦ rw (e, scan_source) (ap (λ x. c ∷ x) (scan_source-append k cs))
]

-- The outcome, and what it says of the text that is left.
abbrev pub LeavesEnd : Text → Parsed Expr → Type 0
LeavesEnd s (ok e r) = EndsAt r × ((a : Text) × (a ++ r ≡ s))
LeavesEnd s (failed r) = EndsAt r × ((a : Text) × (a ++ r ≡ s))
LeavesEnd s stuck = ⊥

read_LeavesEnd :
    (s r a : Text) (e : Expr) (t : Text)
    → EndsAt r
    → a ++ r ≡ s
    → LeavesEnd s (parsed_whole r (ok e t))
read_LeavesEnd s r a e [] h g = (h, (a, g))
read_LeavesEnd s r a e (c ∷ t) h g = (h, (a, g))

whole-LeavesEnd :
    (s r a : Text) (x : Parsed Expr) (k : ℕ)
    → EndsAt r
    → a ++ r ≡ s
    → Ends k x
    → LeavesEnd s (parsed_whole r (blanks_skipped x))
unfolding Ends
whole-LeavesEnd s r a (ok e t) k h g n = read_LeavesEnd s r a e (skip_whitespace t) h g
whole-LeavesEnd s r a (failed t) k h g n = (h, (a, g))
whole-LeavesEnd s r a stuck k h g n = n

-- The parser of a statement's expression always answers, and leaves the source at its end or at a byte
-- that ends the expression.
pub parse_expression_str_as_ast-LeavesEnd :
    (c : Libc) (s : Text) → LeavesEnd s (parse_expression_str_as_ast c s)
unfolding parse_expression_str_as_ast
parse_expression_str_as_ast-LeavesEnd c s =
    let source = trimmed (scan_source scan_start s).0 in
    whole-LeavesEnd s (scan_source scan_start s).1 (scan_source scan_start s).0
      (parse_expression c (suc (length source)) source) (length source)
      (scan_source-EndsAt scan_start s) (scan_source-append scan_start s)
      (parse_expression-Ends c (suc (length source)) source (omega arith))
