-- ===== src/Syntax/Ending/Strings.antt =====
-- The loops over string literals and numbers of src/compiler/ast/ast_expr_parser.c, and the text they leave.
use bread_lang.Prelude.{
  ℕ, zero, suc, ◌≤◌, ◌<◌, Bool, false, ◌||◌, ◌==◌, leb, Option, none, some, [], ◌∷◌, ◌++◌, ◌≡◌, inl,
  inr, refl, Bool-cases, Option-cases, Text, length, arith,
}
use bread_lang.Syntax.{Expr, Parser, Libc}
use bread_lang.Syntax.Lexing.{expect}
use bread_lang.Syntax.Literals.{
  StringPart, unfinished, quote, interpolation, plain, string_escape, string_part, string_from,
  parse_string_literal, joined, flushed, str_call, number_step, span_number, parse_number,
  max_token_len,
}
use bread_lang.Syntax.Ending.{Ends, Consumes, Ends-weaken, Ends-bind}
use bread_lang.Syntax.Ending.Tokens.{expect-Ends}

-- The text that a part leaves is shorter than `n`.
abbrev Leaves : ℕ → StringPart → Type 0
Leaves n unfinished = Unit
Leaves n (quote r) = length r < n
Leaves n (plain a r) = length r < n
Leaves n (interpolation r) = length r < n

string_part-Leaves : (s : Text) → Leaves (length s) (string_part s)
unfolding string_part string_escape
string_part-Leaves [] = tt
string_part-Leaves (c ∷ []) = ground arith
string_part-Leaves (c ∷ d ∷ cs) = ground arith

module _ (p : Parser) (n : ℕ) (h : Consumes n p) where
  -- One turn of the loop, on each kind of part.
  string_turn-Ends :
      (k : ℕ) (result : Option Expr) (buffer s : Text)
      → length s < n
      → ((o : Option Expr) (b t : Text)
          → length t < length s
          → Ends (length t) (string_from p k o b t))
      → (x : StringPart) → string_part s ≡ x
      → Leaves (length s) x
      → Ends (length s) (string_from p (suc k) result buffer s)
  unfolding Ends string_from
  string_turn-Ends k result buffer s m more unfinished e g = rw (e, string_from, Ends) (omega arith)
  string_turn-Ends k result buffer s m more (quote r) e g =
      rw (e, string_from, Ends) (omega (arith, g))
  string_turn-Ends k result buffer s m more (plain a r) e g =
      rw (e, string_from)
        (Ends-weaken (string_from p k result (buffer ++ a) r) (omega (arith, g))
          (more result (buffer ++ a) r g))
  string_turn-Ends k result buffer s m more (interpolation r) e g =
      rw (e, string_from)
        (Ends-bind (p r) _ (h r (omega (arith, g, m))) (omega (arith, g)) (λ a r1 l1.
          Ends-bind (expect b')' r1) _ (expect-Ends b')' r1 l1) (omega (arith, g)) (λ _ r2 l2.
            let result1 = some (joined (flushed result buffer) (str_call a)) in
            Ends-weaken (string_from p k result1 [] r2) (omega (arith, g, l2))
              (more result1 [] r2 (omega (arith, g, l2))))))

  string_from-Ends :
      (k : ℕ) (result : Option Expr) (buffer s : Text)
      → length s < k
      → length s < n
      → Ends (length s) (string_from p k result buffer s)
  string_from-Ends zero result buffer s l m = elim l [ ]
  string_from-Ends (suc k) result buffer s l m =
      string_turn-Ends k result buffer s m
        (λ o b t g. string_from-Ends k o b t (omega (arith, g, l)) (omega (arith, g, m)))
        (string_part s) refl (string_part-Leaves s)

  pub parse_string_literal-Ends :
      (s : Text) → length s < n → Ends (length s) (parse_string_literal p s)
  unfolding parse_string_literal
  parse_string_literal-Ends s m = string_from-Ends (suc (length s)) none [] s (omega arith) m

length-span_number : (d : Bool) (s : Text) → length (span_number d s).rest ≤ length s
unfolding span_number
length-span_number d [] = omega arith
length-span_number d (c ∷ cs) = elim (Option-cases (number_step d c)) [
  | inl e ↦ rw (e, span_number, length) (omega arith)
  | inr (x, e) ↦ rw (e, span_number, length) (omega (arith, length-span_number x cs))
]

pub parse_number-Ends : (c : Libc) (s : Text) → Ends (length s) (parse_number c s)
unfolding parse_number Ends
parse_number-Ends c s =
    elim (Bool-cases (
      length (span_number false s).digits == 0
      || leb max_token_len (length (span_number false s).digits))) [
        | inl e ↦ rw (e, Ends) (length-span_number false s)
        | inr e ↦ rw (e, Ends) (length-span_number false s)
      ]
