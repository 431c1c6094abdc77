-- ===== src/Syntax/Grammar.antt =====
-- A description of the texts of expressions, apart from the parser of
-- src/compiler/ast/ast_expr_parser.c: the operators with their ranks, and chains of operands between
-- them, each put before the text that follows it.
pub mod Operators
pub mod Operands
pub mod Blanks
pub mod Comments
pub mod Precedence
pub mod Terms
use bread_lang.Prelude.{
  ℕ, suc, ◌≤◌, ◌<◌, ◌||◌, ◌≡◌, true, Option, none, some, List, [], ◌∷◌, ◌==◌, Bool, Text, length,
  arith,
}
use bread_lang.Syntax.{Expr, binary, unary, Parsed, ok, Parser}
use bread_lang.Syntax.Lexing.{skip_whitespace}

pub data Operator : Type 0 where
  or_op and_op eq ne lt gt le ge add sub mul div mod_op : Operator

-- How tightly an operator binds.
unfoldable pub rank : Operator → ℕ
rank or_op = 0
rank and_op = 1
rank add = 3
rank sub = 3
rank mul = 4
rank div = 4
rank mod_op = 4
rank _ = 2

-- The operator before a text.
unfoldable pub sign : Operator → Text → Text
sign or_op s = b'|' ∷ b'|' ∷ s
sign and_op s = b'&' ∷ b'&' ∷ s
sign eq s = b'=' ∷ b'=' ∷ s
sign ne s = b'!' ∷ b'=' ∷ s
sign lt s = b'<' ∷ s
sign gt s = b'>' ∷ s
sign le s = b'<' ∷ b'=' ∷ s
sign ge s = b'>' ∷ b'=' ∷ s
sign add s = b'+' ∷ s
sign sub s = b'-' ∷ s
sign mul s = b'*' ∷ s
sign div s = b'/' ∷ s
sign mod_op s = b'%' ∷ s

pub length-sign : (o : Operator) (s : Text) → length s < length (sign o s)
unfolding sign
length-sign or_op s = omega arith
length-sign _ s = omega arith

-- The byte of the operator in a node.
unfoldable pub operator_byte : Operator → ℕ
operator_byte or_op = b'|'
operator_byte and_op = b'&'
operator_byte eq = b'='
operator_byte ne = b'!'
operator_byte lt = b'<'
operator_byte gt = b'>'
operator_byte le = b'l'
operator_byte ge = b'g'
operator_byte add = b'+'
operator_byte sub = b'-'
operator_byte mul = b'*'
operator_byte div = b'/'
operator_byte mod_op = b'%'

-- The bytes that end an expression.
abbrev pub is_mark : ℕ → Bool
is_mark c = c == b')' || c == b']' || c == b'}' || c == b',' || c == b':'

-- The text goes on with nothing that binds at rank `r` or tighter.
pub data Stops (r : ℕ) : Text → Type 0 where
  at_end : Stops r []
  at_mark : (c : ℕ) (s : Text) → is_mark c ≡ true → Stops r (c ∷ s)
  at_operator : (o : Operator) (s : Text) → rank o < r → Stops r (32 ∷ sign o (32 ∷ s))

-- What is put before a text, and the node that it stands for.
pub record Phrase : Type 0 where
  pub put : Text → Text
  pub tree : Expr
  pub grows : (s : Text) → length s ≤ length (put s)

-- A parser reads a phrase, after a blank, when the text then stops, if it is shorter than `n`.
abbrev pub Reads : ℕ → ℕ → Parser → Phrase → Type 0
Reads n r parse x =
    (s : Text)
    → Stops r s
    → length (x.put s) < n
    → parse (32 ∷ x.put s) ≡ ok x.tree (skip_whitespace s)

-- Operands after their operators.
abbrev pub Links : Type 0
Links = List (Operator × Phrase)

unfoldable pub put_links : Links → Text → Text
unfolding sign
put_links [] s = s
put_links ((o, x) ∷ ls) s = 32 ∷ sign o (32 ∷ x.put (put_links ls s))

-- Operators of one rank bind to the left.
unfoldable pub left_tree : Expr → Links → Expr
unfolding operator_byte
left_tree e [] = e
left_tree e ((o, x) ∷ ls) = left_tree (binary (operator_byte o) e x.tree) ls

-- The operators have rank `r`, and a parser reads the operands.
unfoldable pub AreLinks : ℕ → ℕ → Parser → Links → Type 0
AreLinks n r parse [] = Unit
AreLinks n r parse ((o, x) ∷ ls) = (rank o ≡ r) × Reads n (suc r) parse x × AreLinks n r parse ls

pub length-put_links : (ls : Links) (s : Text) → length s ≤ length (put_links ls s)
unfolding put_links sign
length-put_links [] s = omega arith
length-put_links ((o, x) ∷ ls) s = omega (
  arith,
  length-put_links ls s,
  x.grows (put_links ls s),
  length-sign o (32 ∷ x.put (put_links ls s)),
)

-- A chain of operands as a phrase.
abbrev pub chained : Phrase → Links → Phrase
chained x ls = record {
  put = λ s. x.put (put_links ls s);
  tree = left_tree x.tree ls;
  grows = λ s. omega (arith, length-put_links ls s, x.grows (put_links ls s));
}
