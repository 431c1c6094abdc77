-- ===== src/Syntax/Grammar/Operands.antt =====
-- The levels of src/compiler/ast/ast_expr_parser.c between `parse_unary` and `parse_logical_or`, on chains
-- of their operators.
use bread_lang.Prelude.{
  ℕ, zero, suc, false, ◌<◌, ◌≡◌, Option, none, some, [], ◌∷◌, refl, ap, ◌∙◌, Text, length, arith,
}
use bread_lang.Syntax.{Expr, binary, ok, ◌>>=◌, Parser}
use bread_lang.Syntax.Lexing.{skip_whitespace}
use bread_lang.Syntax.Expressions.{binary_from, chain}
use bread_lang.Syntax.Ending.Tokens.{length-skip_from}
use bread_lang.Syntax.Grammar.{
  Operator, rank, sign, length-sign, operator_byte, Stops, at_operator, Phrase, Reads, Links,
  put_links, left_tree, AreLinks, chained,
}
use bread_lang.Syntax.Grammar.Operators.{
  skip_from-skip_from, skip_blank, IsTest, IsTest-Stops, Stops-suc,
}

-- What stands behind an operand of a chain stops at the next rank.
put_links-Stops :
    (n r : ℕ) (operand : Parser) (ls : Links) (s : Text)
    → AreLinks n r operand ls
    → Stops r s
    → Stops (suc r) (put_links ls s)
unfolding put_links AreLinks
put_links-Stops n r operand [] s h d = Stops-suc d
put_links-Stops n r operand ((o, x) ∷ ls) s (e, reads, h) d =
    at_operator o (x.put (put_links ls s)) (omega (arith, e))

module _ (test : Text → Option (ℕ × Text)) (r : ℕ) (t : IsTest r test) (operand : Parser)
    (n : ℕ) where
  binary_from-some :
      (k : ℕ) (left : Expr) (s : Text) (o : ℕ × Text)
      → test (skip_whitespace s) ≡ some o
      → binary_from test operand (suc k) left s
        ≡ (operand o.1 >>= λ right rest. binary_from test operand k (binary o.0 left right) rest)
  unfolding binary_from
  binary_from-some k left s o e = rw (e, binary_from) refl

  binary_from-none :
      (k : ℕ) (left : Expr) (s : Text)
      → test (skip_whitespace s) ≡ none
      → binary_from test operand (suc k) left s ≡ ok left (skip_whitespace s)
  unfolding binary_from
  binary_from-none k left s e = rw (e, binary_from) refl

  binary_from_end :
      (k : ℕ) (left : Expr) (s : Text)
      → Stops r s
      → binary_from test operand (suc k) left (skip_whitespace s) ≡ ok left (skip_whitespace s)
  binary_from_end k left s d =
      binary_from-none k left (skip_whitespace s)
        (ap test (skip_from-skip_from false s) ∙ IsTest-Stops test t d)
      ∙ ap (ok left) (skip_from-skip_from false s)

  binary_from_link :
      (k : ℕ) (left : Expr) (o : Operator) (s : Text)
      → rank o ≡ r
      → binary_from test operand (suc k) left (skip_whitespace (32 ∷ sign o (32 ∷ s))) ≡ (
          operand (32 ∷ s) >>= λ right rest.
          binary_from test operand k (binary (operator_byte o) left right) rest)
  binary_from_link k left o s e =
      binary_from-some k left (skip_whitespace (32 ∷ sign o (32 ∷ s))) (operator_byte o, 32 ∷ s)
        (ap test (skip_from-skip_from false (32 ∷ sign o (32 ∷ s)) ∙ skip_blank o s)
          ∙ t.takes o s e)

  binary_from-put_links :
      (k : ℕ) (left : Expr) (ls : Links) (s : Text)
      → AreLinks n r operand ls
      → Stops r s
      → length (skip_whitespace (put_links ls s)) < k
      → length (put_links ls s) < n
      → binary_from test operand k left (skip_whitespace (put_links ls s))
        ≡ ok (left_tree left ls) (skip_whitespace s)
  unfolding put_links AreLinks left_tree
  binary_from-put_links zero left ls s h d l m = elim l [ ]
  binary_from-put_links (suc k) left [] s h d l m = binary_from_end k left s d
  binary_from-put_links (suc k) left ((o, x) ∷ ls) s (e, reads, h) d l m =
      let rest = put_links ls s in
      let longer = length-sign o (32 ∷ x.put rest) in
      let grown = x.grows rest in
      let skipped = ap length (skip_blank o (x.put rest)) in
      let less = length-skip_from false rest in
      binary_from_link k left o (x.put rest) e
      ∙ rw (reads rest (put_links-Stops n r operand ls s h d) (omega (arith, longer, m))) (
          binary_from-put_links k (binary (operator_byte o) left x.tree) ls s h d
            (omega (arith, longer, grown, skipped, less, l)) (omega (arith, longer, grown, m)))

  pub chain-Reads :
      (x : Phrase) (ls : Links)
      → Reads n (suc r) operand x
      → AreLinks n r operand ls
      → Reads n r (chain test operand) (chained x ls)
  unfolding chain
  chain-Reads x ls reads h s d m =
      let rest = put_links ls s in
      rw (reads rest (put_links-Stops n r operand ls s h d) m) (
        binary_from-put_links (suc (length (skip_whitespace rest))) x.tree ls s h d (omega arith)
          (omega (arith, m, x.grows rest)))
