-- ===== src/Syntax/Ending/Levels.antt =====
-- The levels of the grammar in src/compiler/ast/ast_expr_parser.c, their fuel, and the text they leave.
use bread_lang.Prelude.{
  ℕ, zero, suc, ◌≤◌, ◌<◌, Bool, false, Option, ◌≡◌, inl, inr, refl, Option-cases, Text, length,
  arith,
}
use bread_lang.Syntax.{Expr, null, index, binary, Parsed, ok, failed, stuck, Parser, Libc}
use bread_lang.Syntax.Lexing.{skip_whitespace, after_byte, expect, identifier}
use bread_lang.Syntax.Sequences.{parse_argument_list}
use bread_lang.Syntax.Expressions.{
  parse_primary, Suffix, index_bracket, member_dot, no_suffix, suffix_at, named_member,
  parse_member, pointer, postfix_from, parse_postfix, prefix_at, unary_from, parse_unary,
  binary_from, chain, factor_at, parse_factor, term_at, parse_term, comparison_at, compare_from,
  parse_comparison, and_at, parse_logical_and, or_at, parse_logical_or, parse_expression,
}
use bread_lang.Syntax.Ending.{Ends, Consumes, Ends-weaken, Ends-bind}
use bread_lang.Syntax.Ending.Tokens.{
  length-skip_from, length-after_byte, length-identifier, expect-Ends,
}
use bread_lang.Syntax.Ending.Lists.{parse_argument_list-Ends}
use bread_lang.Syntax.Ending.Starts.{
  Shorter, suffix_at-Shorter, Advances, prefix_at-Advances, factor_at-Advances, term_at-Advances,
  comparison_at-Advances, doubled_at-Advances,
}
use bread_lang.Syntax.Ending.Primaries.{parse_primary-Ends}

module _ (p : Parser) (n : ℕ) (h : Consumes n p) where
  named_member-Ends :
      (base : Expr) (b : Bool) (x s : Text)
      → length s < n
      → Ends (length s) (named_member p base b x s)
  unfolding Ends
  named_member-Ends base b x s m = elim (Option-cases (after_byte b'(' s)) [
    | inr (r, c) ↦
        let l = length-after_byte b'(' s c in
        rw (c, named_member, Ends)
          (Ends-bind (parse_argument_list p r) _
            (parse_argument_list-Ends p n h r (omega (arith, l, m))) (omega (arith, l))
            (λ fs r1 g. omega (arith, g, l)))
    | inl c ↦ rw (c, Ends, named_member) (omega arith)
  ]

  parse_member-Ends :
      (base : Expr) (b : Bool) (s : Text)
      → length s < suc n
      → Ends (length s) (parse_member p base b s)
  unfolding parse_member Ends
  parse_member-Ends base b s m =
      let less = length-skip_from false s in
      elim (Option-cases (identifier (skip_whitespace s))) [
        | inl e ↦ rw (e, Ends, parse_member) less
        | inr (t, e) ↦
            let l = length-identifier (skip_whitespace s) e in
            let after = length-skip_from false t.1 in
            rw (e, parse_member, Ends)
              (Ends-weaken (named_member p base b t.0 (skip_whitespace t.1))
                (omega (arith, l, less, after))
                (named_member-Ends base b t.0 (skip_whitespace t.1)
                  (omega (arith, l, less, after, m))))
      ]

  pointer-Ends : (base : Expr) (s : Text) {k : ℕ} → length s ≤ k → Ends k (pointer base s)
  unfolding Ends
  pointer-Ends null s l = l
  pointer-Ends _ s l = l

  postfix_turn-Ends :
      (k : ℕ) (base : Expr) (s : Text)
      → length s < suc n
      → ((e : Expr) (t : Text) → length t < length s → Ends (length t) (postfix_from p k e t))
      → (x : Suffix) → suffix_at (skip_whitespace s) ≡ x
      → Shorter (length (skip_whitespace s)) x
      → Ends (length s) (postfix_from p (suc k) base s)
  unfolding Ends postfix_from
  postfix_turn-Ends k base s m more no_suffix e g =
      rw (e, postfix_from, Ends) (pointer-Ends base (skip_whitespace s) (length-skip_from false s))
  postfix_turn-Ends k base s m more (index_bracket r) e g =
      let less = length-skip_from false s in
      rw (e, postfix_from, Ends)
        (Ends-bind (p r) _ (h r (omega (arith, g, less, m))) (omega (arith, g, less)) (λ a r1 l1.
          Ends-bind (expect b']' r1) _ (expect-Ends b']' r1 l1) (omega (arith, g, less)) (λ _ r2 l2.
            Ends-weaken (postfix_from p k (index base a) r2) (omega (arith, g, less, l2))
              (more (index base a) r2 (omega (arith, g, less, l2))))))
  postfix_turn-Ends k base s m more (member_dot b r) e g =
      let less = length-skip_from false s in
      rw (e, postfix_from, Ends)
        (Ends-bind (parse_member p base b r) _
          (parse_member-Ends base b r (omega (arith, g, less, m))) (omega (arith, g, less))
          (λ a r1 l1.
            Ends-weaken (postfix_from p k a r1) (omega (arith, g, less, l1))
              (more a r1 (omega (arith, g, less, l1)))))

  postfix_from-Ends :
      (k : ℕ) (base : Expr) (s : Text)
      → length s < k
      → length s < suc n
      → Ends (length s) (postfix_from p k base s)
  postfix_from-Ends zero base s l m = elim l [ ]
  postfix_from-Ends (suc k) base s l m =
      postfix_turn-Ends k base s m
        (λ e t g. postfix_from-Ends k e t (omega (arith, g, l)) (omega (arith, g, m)))
        (suffix_at (skip_whitespace s)) refl (suffix_at-Shorter (skip_whitespace s))

  parse_postfix-Ends : (x : Parsed Expr) (k : ℕ) → k < suc n → Ends k x → Ends k (parse_postfix p x)
  unfolding Ends parse_postfix
  parse_postfix-Ends (ok e s) k m l =
      Ends-weaken (postfix_from p (suc (length s)) e s) l
        (postfix_from-Ends (suc (length s)) e s (omega arith) (omega (arith, l, m)))
  parse_postfix-Ends (failed s) k m l =
      Ends-weaken (postfix_from p (suc (length s)) null s) l
        (postfix_from-Ends (suc (length s)) null s (omega arith) (omega (arith, l, m)))
  parse_postfix-Ends stuck k m l = l

  unary_from-Ends :
      (c : Libc) (k : ℕ) (s : Text)
      → length s < k
      → length s < suc n
      → Ends (length s) (unary_from c p k s)
  unfolding Ends unary_from
  unary_from-Ends c zero s l m = elim l [ ]
  unary_from-Ends c (suc k) s l m =
      let less = length-skip_from false s in
      elim (Option-cases (prefix_at (skip_whitespace s))) [
        | inl e ↦
            rw (e, unary_from, Ends)
              (Ends-weaken (parse_postfix p (parse_primary c p (skip_whitespace s))) less (
                parse_postfix-Ends (parse_primary c p (skip_whitespace s)) _
                  (omega (arith, less, m))
                  (parse_primary-Ends p n h c (skip_whitespace s) (omega (arith, less, m)))))
        | inr (o, e) ↦
            let g = prefix_at-Advances (skip_whitespace s) o e in
            rw (e, unary_from, Ends)
              (Ends-bind (unary_from c p k o.1) _
                (unary_from-Ends c k o.1 (omega (arith, g, less, l)) (omega (arith, g, less, m)))
                (omega (arith, g, less)) (λ a r l1. omega (arith, g, less, l1)))
      ]

  parse_unary-Consumes : (c : Libc) → Consumes (suc n) (parse_unary c p)
  unfolding parse_unary
  parse_unary-Consumes c s m = unary_from-Ends c (suc (length s)) s (omega arith) m

module _ (operator : Text → Option (ℕ × Text)) (operand : Parser) (n : ℕ) (a : Advances operator)
    (h : Consumes n operand) where
  binary_from-Ends :
      (k : ℕ) (left : Expr) (s : Text)
      → length s < k
      → length s < n
      → Ends (length s) (binary_from operator operand k left s)
  unfolding Ends binary_from
  binary_from-Ends zero left s l m = elim l [ ]
  binary_from-Ends (suc k) left s l m =
      let less = length-skip_from false s in
      elim (Option-cases (operator (skip_whitespace s))) [
        | inl e ↦ rw (e, binary_from, Ends) less
        | inr (o, e) ↦
            let g = a (skip_whitespace s) o e in
            rw (e, binary_from, Ends)
              (Ends-bind (operand o.1) _ (h o.1 (omega (arith, g, less, m)))
                (omega (arith, g, less))
                (λ right r l1.
                  Ends-weaken (binary_from operator operand k (binary o.0 left right) r)
                    (omega (arith, g, less, l1))
                    (binary_from-Ends k (binary o.0 left right) r (omega (arith, g, less, l1, l))
                      (omega (arith, g, less, l1, m)))))
      ]

  chain-Consumes : Consumes n (chain operator operand)
  unfolding chain
  chain-Consumes s m = Ends-bind (operand s) _ (h s m) (omega arith) (λ left r l.
      Ends-weaken (binary_from operator operand (suc (length r)) left r) l
        (binary_from-Ends (suc (length r)) left r (omega arith) (omega (arith, l, m))))

module _ (c : Libc) (p : Parser) (n : ℕ) (h : Consumes n p) where
  parse_term-Consumes : Consumes (suc n) (parse_term c p)
  unfolding parse_term parse_factor
  parse_term-Consumes = chain-Consumes term_at (parse_factor c p) (suc n) term_at-Advances (
      chain-Consumes factor_at (parse_unary c p) (suc n) factor_at-Advances
        (parse_unary-Consumes p n h c))

  compare_from-Ends :
      (left : Expr) (r : Text) → length r < suc n → Ends (length r) (compare_from c p left r)
  unfolding Ends compare_from
  compare_from-Ends left r m =
      let less = length-skip_from false r in
      elim (Option-cases (comparison_at (skip_whitespace r))) [
        | inl e ↦ rw (e, compare_from, Ends) less
        | inr (o, e) ↦
            let g = comparison_at-Advances (skip_whitespace r) o e in
            rw (e, compare_from, Ends)
              (Ends-bind (parse_term c p o.1) _
                (parse_term-Consumes o.1 (omega (arith, g, less, m))) (omega (arith, g, less))
                (λ right r1 l1. omega (arith, g, less, l1)))
      ]

  parse_comparison-Consumes : Consumes (suc n) (parse_comparison c p)
  unfolding parse_comparison
  parse_comparison-Consumes s m =
      Ends-bind (parse_term c p s) _ (parse_term-Consumes s m) (omega arith) (λ left r l.
        Ends-weaken (compare_from c p left r) l (compare_from-Ends left r (omega (arith, l, m))))

  parse_logical_or-Consumes : Consumes (suc n) (parse_logical_or c p)
  unfolding parse_logical_or parse_logical_and or_at and_at
  parse_logical_or-Consumes =
      chain-Consumes or_at (parse_logical_and c p) (suc n) (doubled_at-Advances b'|') (
        chain-Consumes and_at (parse_comparison c p) (suc n) (doubled_at-Advances b'&')
          parse_comparison-Consumes)

-- With fuel greater than the length of the text, every expression is parsed or refused, and no more
-- text is left than was given.
pub parse_expression-Ends :
    (c : Libc) (n : ℕ) (s : Text) → length s < n → Ends (length s) (parse_expression c n s)
unfolding parse_expression
parse_expression-Ends c zero s l = elim l [ ]
parse_expression-Ends c (suc n) s l =
    parse_logical_or-Consumes c (parse_expression c n) n (λ t m. parse_expression-Ends c n t m) s l
