-- ===== src/Syntax/Ending/Primaries.antt =====
-- `parse_primary` of src/compiler/ast/ast_expr_parser.c, and the text that it leaves.
use bread_lang.Prelude.{
  ℕ, suc, ◌<◌, Bool, true, false, ◌≡◌, inl, inr, refl, Option-cases, Text, length, arith,
}
use bread_lang.Syntax.{Parser, Libc}
use bread_lang.Syntax.Lexing.{skip_whitespace, after_byte, expect, identifier}
use bread_lang.Syntax.Literals.{parse_string_literal, parse_number}
use bread_lang.Syntax.Sequences.{parse_argument_list, parse_fields, parse_array_or_dict}
use bread_lang.Syntax.Expressions.{
  after_name, named, self_or_super, parse_identifier_expr, Primary, constant, parenthesis,
  string_quote, number, bracket, word, other, primary_at, advanced, parse_primary,
}
use bread_lang.Syntax.Ending.{Ends, Consumes, Ends-weaken, Ends-bind}
use bread_lang.Syntax.Ending.Tokens.{
  length-skip_from, length-after_byte, length-identifier, expect-Ends,
}
use bread_lang.Syntax.Ending.Lists.{
  parse_argument_list-Ends, parse_fields-Ends, parse_array_or_dict-Ends,
}
use bread_lang.Syntax.Ending.Starts.{Leaves, primary_at-Leaves}
use bread_lang.Syntax.Ending.Strings.{parse_string_literal-Ends, parse_number-Ends}

module _ (p : Parser) (n : ℕ) (h : Consumes n p) where
  after_name-Ends : (x s : Text) → length s < n → Ends (length s) (after_name p x s)
  unfolding Ends
  after_name-Ends x s m = elim (Option-cases (after_byte b'{' s)) [
    | inr (r, e) ↦
        let l = length-after_byte b'{' s e in
        rw (e, after_name, Ends)
          (Ends-bind (parse_fields p r) _ (parse_fields-Ends p n h r (omega (arith, l, m)))
            (omega (arith, l)) (λ fs r1 g. omega (arith, g, l)))
    | inl e ↦ elim (Option-cases (after_byte b'(' s)) [
      | inr (r, c) ↦
          let l = length-after_byte b'(' s c in
          rw (e, c, after_name, Ends)
            (Ends-bind (parse_argument_list p r) _
              (parse_argument_list-Ends p n h r (omega (arith, l, m))) (omega (arith, l))
              (λ fs r1 g. omega (arith, g, l)))
      | inl c ↦ rw (e, c, Ends, after_name) (omega arith)
    ]
  ]

  self_or_super-Ends :
      (a b : Bool) (x s : Text) → length s < n → Ends (length s) (self_or_super a b p x s)
  unfolding Ends
  self_or_super-Ends true b x s m = omega arith
  self_or_super-Ends false true x s m = omega arith
  self_or_super-Ends false false x s m =
      Ends-weaken (after_name p x (skip_whitespace s)) (length-skip_from false s)
        (after_name-Ends x (skip_whitespace s) (omega (arith, m, length-skip_from false s)))

  parse_identifier_expr-Ends :
      (s : Text) → length s < suc n → Ends (length s) (parse_identifier_expr p s)
  unfolding parse_identifier_expr Ends
  parse_identifier_expr-Ends s m =
      let less = length-skip_from false s in
      elim (Option-cases (identifier (skip_whitespace s))) [
        | inl e ↦ rw (e, Ends, parse_identifier_expr) less
        | inr (t, e) ↦
            let l = length-identifier (skip_whitespace s) e in
            rw (e, parse_identifier_expr, Ends)
              (Ends-weaken (named p t.0 t.1) (omega (arith, l, less))
                (self_or_super-Ends _ _ t.0 t.1 (omega (arith, l, less, m))))
      ]

  -- `parse_primary` on each thing that it can meet.
  parse_primary_turn-Ends :
      (c : Libc) (s : Text)
      → length s < suc n
      → (x : Primary) → primary_at (skip_whitespace s) ≡ x
      → Leaves (skip_whitespace s) x
      → Ends (length s) (parse_primary c p s)
  unfolding Ends parse_primary
  parse_primary_turn-Ends c s m (constant a r) e g =
      rw (e, Ends, parse_primary) (omega (arith, g, length-skip_from false s))
  parse_primary_turn-Ends c s m (parenthesis r) e g =
      let less = length-skip_from false s in
      rw (e, parse_primary, Ends)
        (Ends-bind (p r) _ (h r (omega (arith, g, less, m))) (omega (arith, g, less)) (λ a r1 l1.
          Ends-bind (expect b')' r1) _ (expect-Ends b')' r1 l1) (omega (arith, g, less))
            (λ _ r2 l2. omega (arith, g, less, l2))))
  parse_primary_turn-Ends c s m (string_quote r) e g =
      let less = length-skip_from false s in
      rw (e, parse_primary, Ends)
        (Ends-weaken (parse_string_literal p r) (omega (arith, g, less))
          (parse_string_literal-Ends p n h r (omega (arith, g, less, m))))
  parse_primary_turn-Ends c s m number e g =
      rw (e, parse_primary, Ends)
        (Ends-weaken (parse_number c (skip_whitespace s)) (length-skip_from false s)
          (parse_number-Ends c (skip_whitespace s)))
  parse_primary_turn-Ends c s m bracket e g =
      let less = length-skip_from false s in
      rw (e, parse_primary, Ends)
        (Ends-weaken (parse_array_or_dict p (advanced (skip_whitespace s))) (omega (arith, g, less))
          (parse_array_or_dict-Ends p n h (advanced (skip_whitespace s))
            (omega (arith, g, less, m))))
  parse_primary_turn-Ends c s m word e g =
      rw (e, parse_primary, Ends) (parse_identifier_expr-Ends s m)
  parse_primary_turn-Ends c s m other e g = rw (e, Ends, parse_primary) (length-skip_from false s)

  pub parse_primary-Ends :
      (c : Libc) (s : Text) → length s < suc n → Ends (length s) (parse_primary c p s)
  unfolding Ends
  parse_primary-Ends c s m =
      parse_primary_turn-Ends c s m (primary_at (skip_whitespace s)) refl
        (primary_at-Leaves (skip_whitespace s))
