-- ===== src/Syntax/Grammar/Operators.antt =====
-- What the tests for an operator in src/compiler/ast/ast_expr_parser.c say of a text that is described
-- by its operators.
use bread_lang.Prelude.{
  ℕ, suc, ◌<◌, ◌≡◌, true, false, Bool, Option, none, some, [], ◌∷◌, inl, inr, refl, Option-cases,
  Text, arith,
}
use bread_lang.Syntax.Lexing.{skip_step, skip_from, skip_whitespace}
use bread_lang.Syntax.Expressions.{factor_at, term_at, comparison_at, and_at, or_at}
use bread_lang.Syntax.Grammar.{
  Operator, or_op, and_op, add, sub, mul, div, mod_op, rank, sign, operator_byte, is_mark, Stops,
  at_end, at_mark, at_operator,
}

skip_from-none :
    (b : Bool) (c : ℕ) (cs : Text)
    → skip_step b c cs ≡ none
    → skip_from false (skip_from b (c ∷ cs)) ≡ skip_from b (c ∷ cs)
unfolding skip_from
skip_from-none false c cs e = rw (e, skip_from) (rw (e, skip_from) refl)
skip_from-none true c cs e = unfold skip_step in ground (arith, e)

pub skip_from-skip_from : (b : Bool) (s : Text) → skip_whitespace (skip_from b s) ≡ skip_from b s
unfolding skip_from
skip_from-skip_from b [] = refl
skip_from-skip_from b (c ∷ cs) = elim (Option-cases (skip_step b c cs)) [
  | inl e ↦ skip_from-none b c cs e
  | inr (x, e) ↦ rw (e, skip_from) (skip_from-skip_from x cs)
]

pub skip_sign : (o : Operator) (s : Text) → skip_whitespace (sign o (32 ∷ s)) ≡ sign o (32 ∷ s)
unfolding skip_from skip_step sign
skip_sign or_op s = refl
skip_sign _ s = refl

pub skip_blank :
    (o : Operator) (s : Text) → skip_whitespace (32 ∷ sign o (32 ∷ s)) ≡ sign o (32 ∷ s)
unfolding skip_from skip_step
skip_blank o s = skip_sign o s

pub factor_at-rank :
    (o : Operator) (s : Text)
    → rank o ≡ 4
    → factor_at (sign o (32 ∷ s)) ≡ some (operator_byte o, 32 ∷ s)
unfolding factor_at sign operator_byte rank
factor_at-rank mul s h = refl
factor_at-rank div s h = refl
factor_at-rank mod_op s h = refl
factor_at-rank _ s h = ground (arith, h)

pub factor_at_below : (o : Operator) (s : Text) → rank o < 4 → factor_at (sign o (32 ∷ s)) ≡ none
unfolding factor_at sign rank
factor_at_below mul s h = ground (arith, h)
factor_at_below div s h = ground (arith, h)
factor_at_below mod_op s h = ground (arith, h)
factor_at_below _ s h = refl

pub term_at-rank :
    (o : Operator) (s : Text)
    → rank o ≡ 3
    → term_at (sign o (32 ∷ s)) ≡ some (operator_byte o, 32 ∷ s)
unfolding term_at sign operator_byte rank
term_at-rank add s h = refl
term_at-rank sub s h = refl
term_at-rank _ s h = ground (arith, h)

pub term_at_below : (o : Operator) (s : Text) → rank o < 3 → term_at (sign o (32 ∷ s)) ≡ none
unfolding term_at sign rank
term_at_below add s h = ground (arith, h)
term_at_below sub s h = ground (arith, h)
term_at_below mul s h = ground (arith, h)
term_at_below div s h = ground (arith, h)
term_at_below mod_op s h = ground (arith, h)
term_at_below _ s h = refl

pub comparison_at-rank :
    (o : Operator) (s : Text)
    → rank o ≡ 2
    → comparison_at (sign o (32 ∷ s)) ≡ some (operator_byte o, 32 ∷ s)
unfolding comparison_at sign operator_byte rank
comparison_at-rank or_op s h = ground (arith, h)
comparison_at-rank and_op s h = ground (arith, h)
comparison_at-rank add s h = ground (arith, h)
comparison_at-rank sub s h = ground (arith, h)
comparison_at-rank mul s h = ground (arith, h)
comparison_at-rank div s h = ground (arith, h)
comparison_at-rank mod_op s h = ground (arith, h)
comparison_at-rank _ s h = refl

pub comparison_at_below :
    (o : Operator) (s : Text) → rank o < 2 → comparison_at (sign o (32 ∷ s)) ≡ none
unfolding comparison_at sign rank
comparison_at_below or_op s h = refl
comparison_at_below and_op s h = refl
comparison_at_below _ s h = ground (arith, h)

pub and_at-rank :
    (o : Operator) (s : Text)
    → rank o ≡ 1
    → and_at (sign o (32 ∷ s)) ≡ some (operator_byte o, 32 ∷ s)
unfolding and_at sign operator_byte rank
and_at-rank and_op s h = refl
and_at-rank _ s h = ground (arith, h)

pub and_at_below : (o : Operator) (s : Text) → rank o < 1 → and_at (sign o (32 ∷ s)) ≡ none
unfolding and_at sign rank
and_at_below or_op s h = refl
and_at_below _ s h = ground (arith, h)

pub or_at-rank :
    (o : Operator) (s : Text)
    → rank o ≡ 0
    → or_at (sign o (32 ∷ s)) ≡ some (operator_byte o, 32 ∷ s)
unfolding or_at sign operator_byte rank
or_at-rank or_op s h = refl
or_at-rank _ s h = ground (arith, h)

-- A test that takes the operators of rank `r` and none of a lower rank, and no mark.
pub record IsTest (r : ℕ) (test : Text → Option (ℕ × Text)) : Type 0 where
  pub takes :
      (o : Operator) (s : Text)
      → rank o ≡ r
      → test (sign o (32 ∷ s)) ≡ some (operator_byte o, 32 ∷ s)
  pub passes : (o : Operator) (s : Text) → rank o < r → test (sign o (32 ∷ s)) ≡ none
  pub ends : test [] ≡ none
  pub marked : (c : ℕ) (s : Text) → is_mark c ≡ true → test (c ∷ s) ≡ none

pub factor_at-IsTest : IsTest 4 factor_at
unfolding factor_at
factor_at-IsTest = record {
  takes = factor_at-rank;
  passes = factor_at_below;
  ends = refl;
  marked = λ c s h. ground (arith, h);
}

pub term_at-IsTest : IsTest 3 term_at
unfolding term_at
term_at-IsTest = record {
  takes = term_at-rank;
  passes = term_at_below;
  ends = refl;
  marked = λ c s h. ground (arith, h);
}

comparison_at_mark : (c : ℕ) (s : Text) → is_mark c ≡ true → comparison_at (c ∷ s) ≡ none
unfolding comparison_at
comparison_at_mark c [] h = ground (arith, h)
comparison_at_mark c (d ∷ s) h = ground (arith, h)

pub comparison_at-IsTest : IsTest 2 comparison_at
unfolding comparison_at
comparison_at-IsTest = record {
  takes = comparison_at-rank;
  passes = comparison_at_below;
  ends = refl;
  marked = comparison_at_mark;
}

pub and_at-IsTest : IsTest 1 and_at
unfolding and_at
and_at-IsTest = record {
  takes = and_at-rank;
  passes = and_at_below;
  ends = refl;
  marked = λ c s h. ground (arith, h);
}

pub or_at-IsTest : IsTest 0 or_at
unfolding or_at
or_at-IsTest = record {
  takes = or_at-rank;
  passes = λ o s h. elim h [ ];
  ends = refl;
  marked = λ c s h. ground (arith, h);
}

skip_mark : (c : ℕ) (s : Text) → is_mark c ≡ true → skip_whitespace (c ∷ s) ≡ c ∷ s
unfolding skip_from skip_step
skip_mark c s h = ground (arith, h)

-- Where the text stops at rank `r`, a test of that rank finds no operator.
pub IsTest-Stops :
    {r : ℕ} {s : Text} (test : Text → Option (ℕ × Text))
    → IsTest r test
    → Stops r s
    → test (skip_whitespace s) ≡ none
unfolding skip_from skip_step
IsTest-Stops test t at_end = t.ends
IsTest-Stops test t (at_mark c s h) = rw (skip_mark c s h) (t.marked c s h)
IsTest-Stops test t (at_operator o s h) = rw (skip_sign o s) (t.passes o s h)

-- What stops at a rank stops at the next.
pub Stops-suc : {r : ℕ} {s : Text} → Stops r s → Stops (suc r) s
Stops-suc at_end = at_end
Stops-suc (at_mark c s h) = at_mark c s h
Stops-suc (at_operator o s h) = at_operator o s (omega (arith, h))
