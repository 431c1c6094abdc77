-- ===== src/Syntax/Grammar/Blanks.antt =====
-- Blanks and comments before an expression (src/compiler/ast/ast_expr_parser.c), and the fuel of a run of
-- prefix operators.
use bread_lang.Prelude.{
  ℕ, zero, suc, ◌<◌, false, ◌≡◌, none, some, inl, inr, refl, ap, ◌∙◌, sym, Option-cases, Text,
  length, arith,
}
use bread_lang.Syntax.{unary, ok, ◌>>=◌, Parser, Libc}
use bread_lang.Syntax.Lexing.{skip_whitespace}
use bread_lang.Syntax.Expressions.{
  prefix_at, parse_primary, parse_postfix, unary_from, parse_unary, chain, parse_factor, parse_term,
  parse_comparison, parse_logical_and, parse_logical_or, parse_expression,
}
use bread_lang.Syntax.Ending.Tokens.{length-skip_from}
use bread_lang.Syntax.Ending.Starts.{prefix_at-Advances}

module _ (c : Libc) (p : Parser) where
  pub unary_from-some :
      (k : ℕ) (s : Text) (o : ℕ × Text)
      → prefix_at (skip_whitespace s) ≡ some o
      → unary_from c p (suc k) s ≡ (unary_from c p k o.1 >>= λ e r. ok (unary o.0 e) r)
  unfolding unary_from
  unary_from-some k s o e = rw (e, unary_from) refl

  pub unary_from-none :
      (k : ℕ) (s : Text)
      → prefix_at (skip_whitespace s) ≡ none
      → unary_from c p (suc k) s ≡ parse_postfix p (parse_primary c p (skip_whitespace s))
  unfolding unary_from
  unary_from-none k s e = rw (e, unary_from) refl

  pub unary_from-skip_whitespace :
      (j k : ℕ) (s t : Text)
      → skip_whitespace s ≡ skip_whitespace t
      → length (skip_whitespace s) < j
      → length (skip_whitespace s) < k
      → unary_from c p j s ≡ unary_from c p k t
  unary_from-skip_whitespace zero k s t e l m = elim l [ ]
  unary_from-skip_whitespace (suc j) zero s t e l m = elim m [ ]
  unary_from-skip_whitespace (suc j) (suc k) s t e l m =
      elim (Option-cases (prefix_at (skip_whitespace s))) [
        | inl x ↦
            unary_from-none j s x
            ∙ ap (λ z. parse_postfix p (parse_primary c p z)) e
            ∙ sym (unary_from-none k t (ap prefix_at (sym e) ∙ x))
        | inr (o, x) ↦
            let less = prefix_at-Advances (skip_whitespace s) o x in
            let skipped = length-skip_from false o.1 in
            unary_from-some j s o x
            ∙ ap (λ z. z >>= λ a r. ok (unary o.0 a) r)
                (unary_from-skip_whitespace j k o.1 o.1 refl (omega (arith, less, skipped, l))
                  (omega (arith, less, skipped, m)))
            ∙ sym (unary_from-some k t o (ap prefix_at (sym e) ∙ x))
      ]

  parse_unary-skip_whitespace :
      (s t : Text) → skip_whitespace s ≡ skip_whitespace t → parse_unary c p s ≡ parse_unary c p t
  unfolding parse_unary
  parse_unary-skip_whitespace s t e =
      unary_from-skip_whitespace (suc (length s)) (suc (length t)) s t e
        (omega (arith, length-skip_from false s))
        (omega (arith, ap length e, length-skip_from false t))

  parse_term-skip_whitespace :
      (s t : Text) → skip_whitespace s ≡ skip_whitespace t → parse_term c p s ≡ parse_term c p t
  unfolding parse_term parse_factor chain
  parse_term-skip_whitespace s t e = rw (parse_unary-skip_whitespace s t e) refl

  parse_logical_or-skip_whitespace :
      (s t : Text)
      → skip_whitespace s ≡ skip_whitespace t
      → parse_logical_or c p s ≡ parse_logical_or c p t
  unfolding parse_logical_or parse_logical_and chain parse_comparison
  parse_logical_or-skip_whitespace s t e = rw (parse_term-skip_whitespace s t e) refl

-- Two texts with the same text behind their blanks and comments are read alike.
pub parse_expression-skip_whitespace :
    (c : Libc) (n : ℕ) (s t : Text)
    → skip_whitespace s ≡ skip_whitespace t
    → parse_expression c n s ≡ parse_expression c n t
unfolding parse_expression
parse_expression-skip_whitespace c zero s t e = refl
parse_expression-skip_whitespace c (suc n) s t e =
    parse_logical_or-skip_whitespace c (parse_expression c n) s t e
