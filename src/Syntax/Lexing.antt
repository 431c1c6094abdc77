-- ===== src/Syntax/Lexing.antt =====
-- The characters and the blanks that src/compiler/ast/ast_expr_parser.c tells apart. The characters
-- are bytes of the C locale, none of which is NUL.
use bread_lang.Prelude.{
  ℕ, Bool, true, false, not, ◌&&◌, ◌||◌, Option, none, some, [], ◌∷◌, leb, ◌==◌, if◌then◌else◌,
  Text,
}
use bread_lang.Syntax.{Parsed, ok, failed}

-- `isspace`
abbrev pub is_whitespace : ℕ → Bool
is_whitespace c = c == 32 || (leb 9 c && leb c 13)

-- `isdigit`
abbrev pub is_digit : ℕ → Bool
is_digit c = leb b'0' c && leb c b'9'

-- `isalpha`
abbrev pub is_alpha : ℕ → Bool
is_alpha c = (leb b'a' c && leb c b'z') || (leb b'A' c && leb c b'Z')

unfoldable pub is_ident_start : ℕ → Bool
is_ident_start c = is_alpha c || c == b'_'

unfoldable pub is_ident_char : ℕ → Bool
is_ident_char c = (is_alpha c || is_digit c) || c == b'_'

-- Whether the text begins with a byte, and whether with one that satisfies a test.
abbrev pub at_byte : ℕ → Text → Bool
at_byte b [] = false
at_byte b (c ∷ cs) = c == b

abbrev pub at_class : (ℕ → Bool) → Text → Bool
at_class p [] = false
at_class p (c ∷ cs) = p c

-- `skip_whitespace`. The flag says that the cursor is in a comment; `none` ends the loop.
unfoldable pub skip_step : Bool → ℕ → Text → Option Bool
skip_step comment c cs =
    if comment
    then some (not (c == b'\n'))
    else if is_whitespace c
    then some false
    else if c == b'/' && at_byte b'/' cs
    then some true
    else none

unfoldable pub skip_from : Bool → Text → Text
unfolding skip_step
skip_from comment [] = []
skip_from comment (c ∷ cs) = elim (skip_step comment c cs) [
  | none ↦ c ∷ cs
  | some inside ↦ skip_from inside cs
]

abbrev pub skip_whitespace : Text → Text
skip_whitespace s = skip_from false s

-- The loop over the bytes of an identifier: those bytes, and what follows.
abbrev pub and_taken : ℕ → Text × Text → Text × Text
and_taken c (a, b) = (c ∷ a, b)

unfoldable pub span_ident : Text → Text × Text
unfolding is_ident_char
span_ident [] = ([], [])
span_ident (c ∷ cs) =
    let rest = and_taken c (span_ident cs) in if is_ident_char c then rest else ([], c ∷ cs)

-- An identifier at the cursor, by `dup_range`.
unfoldable pub identifier : Text → Option (Text × Text)
unfolding is_ident_start span_ident
identifier [] = none
identifier (c ∷ cs) = if is_ident_start c then some (and_taken c (span_ident cs)) else none

-- The blanks, and then a byte that must stand there.
unfoldable pub after_byte : ℕ → Text → Option Text
after_byte b [] = none
after_byte b (c ∷ cs) = if c == b then some cs else none

abbrev pub expect : ℕ → Text → Parsed Bool
expect b s = elim (after_byte b (skip_whitespace s)) [
  | none ↦ failed (skip_whitespace s)
  | some r ↦ ok true r
]
