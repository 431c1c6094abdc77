-- ===== src/Syntax/Grammar/Comments.antt =====
-- Blanks and line comments before an expression (`skip_whitespace` of src/compiler/ast/ast_expr_parser.c).
use bread_lang.Prelude.{
  ℕ, ◌≤◌, ◌≡◌, ◌≢◌, ◌⊎◌, refl, sym, ap, ◌∙◌, true, false, [], ◌∷◌, ◌++◌, ◌==◌, Text, arith,
}
use bread_lang.Syntax.{Libc}
use bread_lang.Syntax.Lexing.{is_whitespace, skip_from, skip_whitespace}
use bread_lang.Syntax.Expressions.{parse_expression}
use bread_lang.Syntax.Grammar.Blanks.{parse_expression-skip_whitespace}

-- A space, or one of the control characters from the tab to the carriage return.
abbrev pub IsBlank : ℕ → Type 0
IsBlank c = (c ≡ 32) ⊎ ((9 ≤ c) × (c ≤ 13))

-- A text without a line feed.
abbrev pub IsLine : Text → Type 0
IsLine [] = Unit
IsLine (c ∷ cs) = (c ≢ 10) × IsLine cs

-- `t` stands in the text after blanks and comments, which go from two slashes to the end of the line or
-- of the text.
pub data AfterBlanks (t : Text) : Text → Type 0 where
  at_once : AfterBlanks t t
  blank : {c : ℕ} {s : Text} → IsBlank c → AfterBlanks t s → AfterBlanks t (c ∷ s)
  comment :
      (line s : Text) → IsLine line → AfterBlanks t s → AfterBlanks t (b'/' ∷ b'/' ∷ line ++ 10 ∷ s)
  last_comment : (line : Text) → IsLine line → t ≡ [] → AfterBlanks t (b'/' ∷ b'/' ∷ line)

IsBlank-is_whitespace : (c : ℕ) → IsBlank c → is_whitespace c ≡ true
IsBlank-is_whitespace c h = ground arith

other_byte : (c : ℕ) → c ≢ 10 → (c == 10) ≡ false
other_byte c h = ground arith

skip_from-line : (line s : Text) → IsLine line → skip_from true (line ++ 10 ∷ s) ≡ skip_whitespace s
unfolding skip_from
skip_from-line [] s h = refl
skip_from-line (c ∷ line) s h = rw (other_byte c h.0) (skip_from-line line s h.1)

skip_from-last : (line : Text) → IsLine line → skip_from true line ≡ []
unfolding skip_from
skip_from-last [] h = refl
skip_from-last (c ∷ line) h = rw (other_byte c h.0) (skip_from-last line h.1)

skip_from-blank : (c : ℕ) (s : Text) → IsBlank c → skip_from false (c ∷ s) ≡ skip_from false s
unfolding skip_from
skip_from-blank c s h = rw (skip_from, IsBlank-is_whitespace c h) refl

AfterBlanks-skip_whitespace : {t s : Text} → AfterBlanks t s → skip_whitespace s ≡ skip_whitespace t
unfolding skip_from
AfterBlanks-skip_whitespace at_once = refl
AfterBlanks-skip_whitespace (blank {c} {s} b h) =
    skip_from-blank c s b ∙ AfterBlanks-skip_whitespace h
AfterBlanks-skip_whitespace (comment line s l h) =
    skip_from-line line s l ∙ AfterBlanks-skip_whitespace h
AfterBlanks-skip_whitespace (last_comment line l e) =
    skip_from-last line l ∙ ap skip_whitespace (sym e)

-- `parse_expression` reads a text as it reads what stands in it after blanks and comments, which are
-- spaces, control characters from the tab to the carriage return, and two slashes with the rest
-- of the line or of the text.
pub parse_expression-AfterBlanks :
    (c : Libc) (n : ℕ) {s t : Text}
    → AfterBlanks t s
    → parse_expression c n s ≡ parse_expression c n t
parse_expression-AfterBlanks c n {s} {t} h =
    parse_expression-skip_whitespace c n s t (AfterBlanks-skip_whitespace h)
