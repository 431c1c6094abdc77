-- ===== src/Syntax/Grammar/Terms/Strings.antt =====
-- `parse_string_literal` of src/compiler/ast/ast_expr_parser.c on the escaped form of a text.
use mathlib.Core.List.{append-nil, append_assoc}
use bread_lang.Prelude.{
  ℕ, zero, suc, ◌<◌, ◌||◌, ◌==◌, ◌≡◌, none, [], ◌∷◌, ◌++◌, Text, length, inl, inr, refl, ◌∙◌,
  Bool-cases, arith,
}
use bread_lang.Syntax.{string_literal, ok, Parser}
use bread_lang.Syntax.Literals.{
  plain, unescape, string_escape, string_part, string_from, parse_string_literal,
}
use bread_lang.Syntax.Grammar.Terms.{put_string}

string_part-put :
    (c : ℕ) (cs s : Text) → string_part (put_string (c ∷ cs) s) ≡ plain (c ∷ []) (put_string cs s)
unfolding string_part string_escape unescape put_string
string_part-put c cs s = ground arith

pub length-put_string : (x s : Text) → length s < length (put_string x s)
unfolding put_string
length-put_string [] s = omega arith
length-put_string (c ∷ cs) s = elim (Bool-cases (c == b'"' || c == b'\\')) [
  | inl e ↦ rw e (omega (arith, length-put_string cs s))
  | inr e ↦ rw e (omega (arith, length-put_string cs s))
]

length-put_cons : (c : ℕ) (cs s : Text) → length (put_string cs s) < length (put_string (c ∷ cs) s)
unfolding put_string
length-put_cons c cs s = elim (Bool-cases (c == b'"' || c == b'\\')) [
  | inl e ↦ rw e (omega arith)
  | inr e ↦ rw e (omega arith)
]

string_from-put :
    (p : Parser) (k : ℕ) (buffer x s : Text)
    → length (put_string x s) < k
    → string_from p k none buffer (put_string x s) ≡ ok (string_literal (buffer ++ x)) s
unfolding string_from string_part put_string
string_from-put p zero buffer x s l = elim l [ ]
string_from-put p (suc k) buffer [] s l = rw append-nil refl
string_from-put p (suc k) buffer (c ∷ cs) s l =
    rw (string_part-put c cs s, string_from)
      (string_from-put p k (buffer ++ (c ∷ [])) cs s (omega (arith, l, length-put_cons c cs s))
        ∙ rw append_assoc refl)

pub parse_string_literal-put :
    (p : Parser) (x s : Text) → parse_string_literal p (put_string x s) ≡ ok (string_literal x) s
unfolding parse_string_literal
parse_string_literal-put p x s =
    string_from-put p (suc (length (put_string x s))) [] x s (omega arith)
