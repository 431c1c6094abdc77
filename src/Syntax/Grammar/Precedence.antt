-- ===== src/Syntax/Grammar/Precedence.antt =====
-- The parser of each rank in src/compiler/ast/ast_expr_parser.c, the phrases that it reads, and how two
-- operators in a row are nested.
use bread_lang.Prelude.{
  ℕ, zero, suc, ◌≤◌, ◌<◌, ltb, ◌==◌, ==_iff, subst, false, ◌≡◌, none, some, [], ◌∷◌, refl, ap, ◌∙◌,
  Text, length, arith, if◌then◌else◌, inl, inr, Bool-cases, ◌≢◌,
}
use bread_lang.Syntax.{Expr, binary, ok, ◌>>=◌, Parser, Libc}
use bread_lang.Syntax.Lexing.{skip_whitespace}
use bread_lang.Syntax.Expressions.{
  parse_unary, factor_at, parse_factor, term_at, parse_term, comparison_at, compare_from,
  parse_comparison, and_at, parse_logical_and, or_at, parse_logical_or,
}
use bread_lang.Syntax.Grammar.{
  Operator, or_op, rank, sign, length-sign, operator_byte, Stops, at_operator, Phrase, Reads, Links,
  put_links, left_tree, AreLinks, chained,
}
use bread_lang.Syntax.Grammar.Operators.{
  skip_from-skip_from, skip_blank, IsTest-Stops, Stops-suc, factor_at-IsTest, term_at-IsTest,
  comparison_at-IsTest, comparison_at-rank, and_at-IsTest, or_at-IsTest,
}
use bread_lang.Syntax.Grammar.Operands.{chain-Reads}

-- Two phrases with an operator between them.
abbrev pub between : Phrase → Operator → Phrase → Phrase
between x o y = chained x ((o, y) ∷ [])

-- The parser of the phrases whose operators have rank `r` or more.
unfoldable pub parser_at : Libc → Parser → ℕ → Parser
parser_at c p zero = parse_logical_or c p
parser_at c p (suc zero) = parse_logical_and c p
parser_at c p (suc (suc zero)) = parse_comparison c p
parser_at c p (suc (suc (suc zero))) = parse_term c p
parser_at c p (suc (suc (suc (suc zero)))) = parse_factor c p
parser_at c p _ = parse_unary c p

module _ (c : Libc) (p : Parser) (n : ℕ) where
  compare_from-none :
      (left : Expr) (r : Text)
      → comparison_at (skip_whitespace r) ≡ none
      → compare_from c p left r ≡ ok left (skip_whitespace r)
  unfolding compare_from
  compare_from-none left r e = rw (e, compare_from) refl

  compare_from-some :
      (left : Expr) (r : Text) (o : ℕ × Text)
      → comparison_at (skip_whitespace r) ≡ some o
      → compare_from c p left r ≡ (parse_term c p o.1 >>= λ right r1. ok (binary o.0 left right) r1)
  unfolding compare_from
  compare_from-some left r o e = rw (e, compare_from) refl

  comparison_alone :
      (x : Phrase) → Reads n 3 (parse_term c p) x → Reads n 2 (parse_comparison c p) x
  unfolding parse_comparison
  comparison_alone x reads s d m = rw (reads s (Stops-suc d) m) (
      compare_from-none x.tree (skip_whitespace s) (
        ap comparison_at (skip_from-skip_from false s)
        ∙ IsTest-Stops comparison_at comparison_at-IsTest d)
      ∙ ap (ok x.tree) (skip_from-skip_from false s))

  comparison_between :
      (x : Phrase) (o : Operator) (y : Phrase)
      → rank o ≡ 2
      → Reads n 3 (parse_term c p) x
      → Reads n 3 (parse_term c p) y
      → Reads n 2 (parse_comparison c p) (between x o y)
  unfolding parse_comparison put_links left_tree
  comparison_between x o y e reads_x reads_y s d m =
      let rest = 32 ∷ sign o (32 ∷ y.put s) in
      rw (reads_x rest (at_operator o (y.put s) (omega (arith, e))) m) (
        compare_from-some x.tree (skip_whitespace rest) (operator_byte o, 32 ∷ y.put s)
          (ap comparison_at (skip_from-skip_from false rest ∙ skip_blank o (y.put s))
            ∙ comparison_at-rank o (y.put s) e)
        ∙ rw
            (reads_y s (Stops-suc d) (omega (arith, m, x.grows rest, length-sign o (32 ∷ y.put s))))
            refl)

  -- A phrase is read at the next lower rank too.
  pub lower-Reads :
      (r : ℕ) (x : Phrase)
      → r < 5
      → Reads n (suc r) (parser_at c p (suc r)) x
      → Reads n r (parser_at c p r) x
  unfolding parser_at parse_logical_or parse_logical_and parse_term parse_factor put_links left_tree
      AreLinks
  lower-Reads zero x l reads =
      chain-Reads or_at 0 or_at-IsTest (parse_logical_and c p) n x [] reads tt
  lower-Reads (suc zero) x l reads =
      chain-Reads and_at 1 and_at-IsTest (parse_comparison c p) n x [] reads tt
  lower-Reads (suc (suc zero)) x l reads = comparison_alone x reads
  lower-Reads (suc (suc (suc zero))) x l reads =
      chain-Reads term_at 3 term_at-IsTest (parse_factor c p) n x [] reads tt
  lower-Reads (suc (suc (suc (suc zero)))) x l reads =
      chain-Reads factor_at 4 factor_at-IsTest (parse_unary c p) n x [] reads tt
  lower-Reads (suc (suc (suc (suc (suc r))))) x l reads = absurd (omega (arith, l))

  pub below-Reads :
      (k r : ℕ) (x : Phrase)
      → r ≤ k
      → k < 6
      → Reads n k (parser_at c p k) x
      → Reads n r (parser_at c p r) x
  below-Reads zero zero x l m reads = reads
  below-Reads zero (suc r) x l m reads = absurd (omega (arith, l))
  below-Reads (suc k) r x l m reads = elim (Bool-cases (r == suc k)) [
    | inl e ↦ subst (λ i. Reads n i (parser_at c p i) x) (ground (arith, e)) reads
    | inr e ↦
        below-Reads k r x (ground (arith, e, l)) (omega (arith, m))
          (lower-Reads k x (omega (arith, m)) reads)
  ]

  -- The chains of the four ranks whose loops take any number of operators.
  chain_at-Reads :
      (r : ℕ) (x : Phrase) (ls : Links)
      → r < 5
      → r ≢ 2
      → Reads n (suc r) (parser_at c p (suc r)) x
      → AreLinks n r (parser_at c p (suc r)) ls
      → Reads n r (parser_at c p r) (chained x ls)
  unfolding parser_at parse_logical_or parse_logical_and parse_term parse_factor
  chain_at-Reads zero x ls l m reads h =
      chain-Reads or_at 0 or_at-IsTest (parse_logical_and c p) n x ls reads h
  chain_at-Reads (suc zero) x ls l m reads h =
      chain-Reads and_at 1 and_at-IsTest (parse_comparison c p) n x ls reads h
  chain_at-Reads (suc (suc zero)) x ls l m reads h = absurd (m refl)
  chain_at-Reads (suc (suc (suc zero))) x ls l m reads h =
      chain-Reads term_at 3 term_at-IsTest (parse_factor c p) n x ls reads h
  chain_at-Reads (suc (suc (suc (suc zero)))) x ls l m reads h =
      chain-Reads factor_at 4 factor_at-IsTest (parse_unary c p) n x ls reads h
  chain_at-Reads (suc (suc (suc (suc (suc r))))) x ls l m reads h = absurd (omega (arith, l))

  -- Two operands with an operator between them, at its rank.
  pub between-Reads :
      (r : ℕ) (x : Phrase) (o : Operator) (y : Phrase)
      → rank o ≡ r
      → r < 5
      → Reads n (suc r) (parser_at c p (suc r)) x
      → Reads n (suc r) (parser_at c p (suc r)) y
      → Reads n r (parser_at c p r) (between x o y)
  unfolding parser_at AreLinks
  between-Reads (suc (suc zero)) x o y e l reads_x reads_y =
      comparison_between x o y e reads_x reads_y
  between-Reads zero x o y e l reads_x reads_y =
      chain_at-Reads zero x ((o, y) ∷ []) l (λ z. ground (arith, z)) reads_x (e, reads_y, tt)
  between-Reads (suc zero) x o y e l reads_x reads_y =
      chain_at-Reads (suc zero) x ((o, y) ∷ []) l (λ z. ground (arith, z)) reads_x (e, reads_y, tt)
  between-Reads (suc (suc (suc r))) x o y e l reads_x reads_y =
      chain_at-Reads (suc (suc (suc r))) x ((o, y) ∷ []) l (λ z. ground (arith, z)) reads_x
        (e, reads_y, tt)

pub rank_lt : (o : Operator) → rank o < 5
unfolding rank
rank_lt or_op = omega arith
rank_lt _ = omega arith

-- How two operators in a row are nested.
abbrev pub nested : Phrase → Operator → Phrase → Operator → Phrase → Expr
nested a o b q d =
    if ltb (rank o) (rank q)
    then binary (operator_byte o) a.tree (binary (operator_byte q) b.tree d.tree)
    else binary (operator_byte q) (binary (operator_byte o) a.tree b.tree) d.tree

-- The text of three operands with two operators, before `s`.
abbrev pub put_three : Phrase → Operator → Phrase → Operator → Phrase → Text → Text
put_three a o b q d s = a.put (32 ∷ sign o (32 ∷ b.put (32 ∷ sign q (32 ∷ d.put s))))

module _ (c : Libc) (p : Parser) (n : ℕ) where
  module _ (a b d : Phrase) (o q : Operator) (ra : Reads n 5 (parse_unary c p) a)
      (rb : Reads n 5 (parse_unary c p) b) (rd : Reads n 5 (parse_unary c p) d) where
    below :
        (x : Phrase) (i : Operator)
        → Reads n 5 (parse_unary c p) x
        → Reads n (suc (rank i)) (parser_at c p (suc (rank i))) x
    unfolding parser_at
    below x i reads =
        below-Reads c p n 5 (suc (rank i)) x (omega (arith, rank_lt i)) (omega arith) reads

    tighter_right : rank o < rank q → Reads n 0 (parse_logical_or c p) (between a o (between b q d))
    unfolding parser_at
    tighter_right l =
        below-Reads c p n (rank o) 0 (between a o (between b q d)) (omega arith)
          (omega (arith, rank_lt o))
          (between-Reads c p n (rank o) a o (between b q d) refl (rank_lt o) (below a o ra) (
            below-Reads c p n (rank q) (suc (rank o)) (between b q d) (omega (arith, l))
              (omega (arith, rank_lt q))
              (between-Reads c p n (rank q) b q d refl (rank_lt q) (below b q rb) (below d q rd))))

    tighter_left : rank q < rank o → Reads n 0 (parse_logical_or c p) (between (between a o b) q d)
    unfolding parser_at
    tighter_left l =
        below-Reads c p n (rank q) 0 (between (between a o b) q d) (omega arith)
          (omega (arith, rank_lt q))
          (between-Reads c p n (rank q) (between a o b) q d refl (rank_lt q)
            (below-Reads c p n (rank o) (suc (rank q)) (between a o b) (omega (arith, l))
              (omega (arith, rank_lt o))
              (between-Reads c p n (rank o) a o b refl (rank_lt o) (below a o ra) (below b o rb)))
            (below d q rd))

    same_rank :
        rank o ≡ rank q
        → rank q ≢ 2
        → Reads n 0 (parse_logical_or c p) (chained a ((o, b) ∷ (q, d) ∷ []))
    unfolding parser_at AreLinks
    same_rank e ne =
        below-Reads c p n (rank q) 0 (chained a ((o, b) ∷ (q, d) ∷ [])) (omega arith)
          (omega (arith, rank_lt q))
          (chain_at-Reads c p n (rank q) a ((o, b) ∷ (q, d) ∷ []) (rank_lt q) ne (below a q ra)
            (e, below b q rb, (refl, below d q rd, tt)))

    -- Of two operators in a row the one that binds tighter is nested in the other, and operators of one
    -- rank, save the comparisons, bind to the left.
    pub precedence :
        (s : Text)
        → (rank o ≡ rank q → rank q ≢ 2)
        → Stops 0 s
        → length (put_three a o b q d s) < n
        → parse_logical_or c p (32 ∷ put_three a o b q d s)
          ≡ ok (nested a o b q d) (skip_whitespace s)
    unfolding put_links left_tree
    precedence s free stop l = elim (Bool-cases (ltb (rank o) (rank q))) [
      | inl e ↦ rw e (tighter_right (ground (arith, e)) s stop l)
      | inr e ↦ elim (Bool-cases (rank o == rank q)) [
        | inl f ↦
            let same = (==_iff (rank o) (rank q)).0 f in rw e (same_rank same (free same) s stop l)
        | inr f ↦ rw e (tighter_left (ground (arith, e, f)) s stop l)
      ]
    ]
