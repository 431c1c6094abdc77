-- ===== src/Syntax/Ending/Tokens.antt =====
-- The text that the pieces of src/compiler/ast/ast_expr_parser.c below the loops leave.
use bread_lang.Prelude.{
  ℕ, ◌≤◌, ◌<◌, Bool, false, some, [], ◌∷◌, ◌≡◌, inl, inr, Bool-cases, Option-cases, Text, length,
  arith,
}
use bread_lang.Syntax.Lexing.{
  skip_step, skip_from, skip_whitespace, span_ident, identifier, is_ident_char, after_byte, expect,
}
use bread_lang.Syntax.Ending.{Ends}

pub length-skip_from : (b : Bool) (s : Text) → length (skip_from b s) ≤ length s
unfolding skip_from
length-skip_from b [] = omega arith
length-skip_from b (c ∷ cs) = elim (Option-cases (skip_step b c cs)) [
  | inl e ↦ rw (e, skip_from, length) (omega arith)
  | inr (x, e) ↦ rw (e, skip_from, length) (omega (arith, length-skip_from x cs))
]

pub length-after_byte :
    (b : ℕ) (s : Text) {r : Text} → after_byte b s ≡ some r → length r < length s
unfolding after_byte
length-after_byte b [] h = ground arith
length-after_byte b (c ∷ cs) h = ground arith

pub length-span_ident : (s : Text) → length (span_ident s).1 ≤ length s
unfolding span_ident
length-span_ident [] = omega arith
length-span_ident (c ∷ cs) = elim (Bool-cases (is_ident_char c)) [
  | inl e ↦ rw e (omega (arith, length-span_ident cs))
  | inr e ↦ rw e (omega arith)
]

pub length-identifier : (s : Text) {t : Text × Text} → identifier s ≡ some t → length t.1 < length s
unfolding identifier
length-identifier [] h = ground arith
length-identifier (c ∷ cs) h = ground (arith, length-span_ident cs)

pub expect-Ends : (b : ℕ) (s : Text) {k : ℕ} → length s ≤ k → Ends k (expect b s)
unfolding Ends
expect-Ends b s h = elim (Option-cases (after_byte b (skip_whitespace s))) [
  | inl e ↦ rw (e, Ends) (omega (arith, h, length-skip_from false s))
  | inr (x, e) ↦
      rw (e, Ends)
        (omega (arith, h, length-skip_from false s, length-after_byte b (skip_whitespace s) e))
]
