-- ===== src/Syntax/Grammar/Terms/Fields.antt =====
-- The fields of a literal in `parse_identifier_expr` of src/compiler/ast/ast_expr_parser.c, on their texts.
use bread_lang.Prelude.{
  ℕ, zero, suc, ◌<◌, true, false, ◌≡◌, inr, Option, none, some, ◌∷◌, ◌++◌, Text, length,
  length-append, refl, ap, ◌∙◌, arith,
}
use bread_lang.Syntax.{Expr, FieldValues, no_fields, more_fields, Parsed, ok, ◌>>=◌, Parser, Libc}
use bread_lang.Syntax.Lexing.{
  skip_step, skip_from, skip_whitespace, after_byte, expect, identifier, is_ident_char,
}
use bread_lang.Syntax.Sequences.{is_closed, after_comma, fields_from, parse_fields}
use bread_lang.Syntax.Expressions.{parse_expression}
use bread_lang.Syntax.Grammar.{Stops, at_mark}
use bread_lang.Syntax.Grammar.Terms.{
  Term, Members, no_members, more_members, put, put_members, put_more_members, tree, fields_of,
  is_name,
}
use bread_lang.Syntax.Grammar.Terms.Firsts.{Begins, skip-first, is_closed-first, name_first}
use bread_lang.Syntax.Grammar.Terms.Lists.{IsRead, after_comma-none, closing}
use bread_lang.Syntax.Grammar.Terms.Names.{identifier-append}

unfoldable pub MembersAreRead : Libc → ℕ → Members → Type 0
MembersAreRead c n no_members = Unit
MembersAreRead c n (more_members x t ms) = (is_name x ≡ true) × IsRead c n t × MembersAreRead c n ms

-- A colon and a value, which the loop reads behind a name.
abbrev read_value : Parser → Text → Parsed Expr
read_value p s = expect b':' s >>= λ _ r. p r

abbrev more_or_last : Parser → ℕ → Text → Expr → Text → Option Text → Parsed FieldValues
more_or_last p k name e r o = elim o [
  | none ↦ ok (more_fields name e no_fields) r
  | some t ↦ fields_from p k t >>= λ fs r1. ok (more_fields name e fs) r1
]

module _ (p : Parser) (k : ℕ) where
  field_step :
      (s x r : Text)
      → is_closed b'}' s ≡ false
      → identifier s ≡ some (x, b':' ∷ r)
      → fields_from p (suc k) s ≡ (p r >>= λ e r1. more_or_last p k x e r1 (after_comma r1))
  unfolding fields_from skip_from skip_step after_byte
  field_step s x r a i = rw (a, fields_from) (rw (i, fields_from) refl)

  field_read :
      (s x r r1 : Text) (e : Expr) (o : Option Text)
      → is_closed b'}' s ≡ false
      → identifier s ≡ some (x, b':' ∷ r)
      → p r ≡ ok e r1
      → after_comma r1 ≡ o
      → fields_from p (suc k) s ≡ more_or_last p k x e r1 o
  field_read s x r r1 e o a i h z =
      field_step s x r a i
      ∙ ap (λ q. q >>= λ e1 q1. more_or_last p k x e1 q1 (after_comma q1)) h
      ∙ ap (more_or_last p k x e r1) z

after_comma-next : (s : Text) → Begins s → after_comma (skip_whitespace (b',' ∷ s)) ≡ some s
unfolding skip_from skip_step after_byte
after_comma-next s h = ap some (skip-first s h)

put_more_members-Stops : (ms : Members) (s : Text) → Stops 0 (put_more_members ms (b'}' ∷ s))
unfolding put_more_members
put_more_members-Stops no_members s = at_mark b'}' s refl
put_more_members-Stops (more_members n t ms) s = at_mark b',' (n ++ _) refl

field-put :
    (c : Libc) (n k : ℕ) (x : Text) (t : Term) (ms : Members) (s : Text)
    → MembersAreRead c n (more_members x t ms)
    → length (x ++ b':' ∷ 32 ∷ put t (put_more_members ms (b'}' ∷ s))) < k
    → length (x ++ b':' ∷ 32 ∷ put t (put_more_members ms (b'}' ∷ s))) < n
    → fields_from (parse_expression c n) k (x ++ b':' ∷ 32 ∷ put t (put_more_members ms (b'}' ∷ s)))
      ≡ ok (fields_of c (more_members x t ms)) (b'}' ∷ s)
unfolding put_more_members fields_of MembersAreRead skip_from skip_step is_ident_char
field-put c n zero x t ms s h l m = elim l [ ]
field-put c n (suc k) x t no_members s (g, h, hs) l m =
    let last = b'}' ∷ s in
    let rest = b':' ∷ 32 ∷ put t last in
    field_read (parse_expression c n) k (x ++ rest) x (32 ∷ put t last) (skip_whitespace last)
      (tree c t) none (is_closed-first b'}' (x ++ rest) refl (name_first x rest g))
      (identifier-append x rest g refl)
      (h.reads last (at_mark b'}' s refl) (omega (arith, m, length-append x rest)))
      (after_comma-none b'}' s (inr (inr refl)))
field-put c n (suc k) x t (more_members y u ms) s (g, h, (gy, hu, hs)) l m =
    let after = b':' ∷ 32 ∷ put u (put_more_members ms (b'}' ∷ s)) in
    let next = y ++ after in
    let last = b',' ∷ next in
    let rest = b':' ∷ 32 ∷ put t last in
    let grown = h.grows last in
    let whole = length-append x rest in
    field_read (parse_expression c n) k (x ++ rest) x (32 ∷ put t last) (skip_whitespace last)
      (tree c t) (some next) (is_closed-first b'}' (x ++ rest) refl (name_first x rest g))
      (identifier-append x rest g refl)
      (h.reads last (put_more_members-Stops (more_members y u ms) s) (omega (arith, m, whole)))
      (after_comma-next next (name_first y after gy))
    ∙ rw
        (field-put c n k y u ms s (gy, hu, hs) (omega (arith, grown, whole, l))
          (omega (arith, grown, whole, m)))
        refl

parse_fields_step :
    (p : Parser) (s t r : Text) (fs : FieldValues)
    → skip_whitespace s ≡ t
    → fields_from p (suc (length t)) t ≡ ok fs (b'}' ∷ r)
    → parse_fields p s ≡ ok fs r
unfolding parse_fields skip_from skip_step after_byte
parse_fields_step p s t r fs e h =
    ap (λ z. closing b'}' (fields_from p (suc (length z)) z)) e ∙ ap (closing b'}') h

pub parse_fields-put :
    (c : Libc) (n : ℕ) (ms : Members) (s : Text)
    → MembersAreRead c n ms
    → length (put_members ms (b'}' ∷ s)) < n
    → parse_fields (parse_expression c n) (put_members ms (b'}' ∷ s)) ≡ ok (fields_of c ms) s
unfolding put_members MembersAreRead skip_from skip_step fields_of
parse_fields-put c n no_members s h m =
    parse_fields_step (parse_expression c n) (b'}' ∷ s) (b'}' ∷ s) s no_fields refl
      (unfold fields_from in refl)
parse_fields-put c n (more_members x t ms) s (g, h, hs) m =
    let rest = b':' ∷ 32 ∷ put t (put_more_members ms (b'}' ∷ s)) in
    parse_fields_step (parse_expression c n) (x ++ rest) (x ++ rest) s
      (fields_of c (more_members x t ms)) (skip-first (x ++ rest) (name_first x rest g))
      (field-put c n (suc (length (x ++ rest))) x t ms s (g, h, hs) (omega arith) m)
