-- ===== src/Syntax/Grammar/Terms/Lists.antt =====
-- The loop over arguments in src/compiler/ast/ast_expr_parser.c on the texts of lists of terms.
use bread_lang.Prelude.{
  ℕ, zero, suc, ◌≤◌, ◌<◌, true, false, ◌≡◌, ◌⊎◌, inl, inr, none, some, ◌∷◌, Text, length, refl, ap,
  ◌∙◌, arith,
}
use bread_lang.Syntax.{Expr, Exprs, no_exprs, more_exprs, Parsed, ok, ◌>>=◌, Parser, Libc}
use bread_lang.Syntax.Lexing.{skip_step, skip_from, skip_whitespace, after_byte, expect}
use bread_lang.Syntax.Sequences.{is_closed, after_comma, arguments_from, parse_argument_list}
use bread_lang.Syntax.Expressions.{parse_expression}
use bread_lang.Syntax.Grammar.{Stops, at_mark, is_mark}
use bread_lang.Syntax.Grammar.Blanks.{parse_expression-skip_whitespace}
use bread_lang.Syntax.Grammar.Terms.{
  Term, Terms, no_terms, more_terms, put, put_terms, put_more, tree, trees,
}
use bread_lang.Syntax.Grammar.Terms.Firsts.{Begins, skip-first, is_closed-first}

-- Whole expressions of less than `n` bytes are read: one term, and all terms of a list.
pub record IsRead (c : Libc) (n : ℕ) (t : Term) : Type 0 where
  pub begins : (s : Text) → Begins (put t s)
  pub grows : (s : Text) → length s ≤ length (put t s)
  pub reads :
      (s : Text)
      → Stops 0 s
      → length (put t s) < n
      → parse_expression c n (32 ∷ put t s) ≡ ok (tree c t) (skip_whitespace s)

unfoldable pub AreRead : Libc → ℕ → Terms → Type 0
AreRead c n no_terms = Unit
AreRead c n (more_terms t ts) = IsRead c n t × AreRead c n ts

-- A term without the blank before it.
pub reads_bare :
    (c : Libc) (n : ℕ) (t : Term) (s : Text)
    → IsRead c n t
    → Stops 0 s
    → length (put t s) < n
    → parse_expression c n (put t s) ≡ ok (tree c t) (skip_whitespace s)
unfolding skip_from skip_step
reads_bare c n t s h d l =
    parse_expression-skip_whitespace c n (put t s) (32 ∷ put t s) refl ∙ h.reads s d l

pub put_more-Stops :
    (b : ℕ) (ts : Terms) (s : Text) → is_mark b ≡ true → Stops 0 (put_more ts (b ∷ s))
unfolding put_more
put_more-Stops b no_terms s m = at_mark b s m
put_more-Stops b (more_terms t ts) s m = at_mark b',' (32 ∷ put t (put_more ts (b ∷ s))) refl

-- Behind an element: a comma before the next one, or the closing byte.
pub after_comma-some :
    (s : Text) → Begins s → after_comma (skip_whitespace (b',' ∷ 32 ∷ s)) ≡ some s
unfolding skip_from skip_step after_byte
after_comma-some s h = ap some (skip-first s h)

pub after_comma-none :
    (b : ℕ) (s : Text)
    → (b ≡ b')') ⊎ ((b ≡ b']') ⊎ (b ≡ b'}'))
    → after_comma (skip_whitespace (b ∷ s)) ≡ none
unfolding skip_from skip_step after_byte
after_comma-none b s (inl e) = rw e refl
after_comma-none b s (inr (inl e)) = rw e refl
after_comma-none b s (inr (inr e)) = rw e refl

module _ (p : Parser) (k : ℕ) where
  arguments_from_last :
      (s r : Text) (e : Expr)
      → is_closed b')' s ≡ false
      → p s ≡ ok e r
      → after_comma r ≡ none
      → arguments_from p (suc k) s ≡ ok (more_exprs e no_exprs) r
  unfolding arguments_from
  arguments_from_last s r e x y z = rw (x, arguments_from) (rw (y, ◌>>=◌) (rw (z, ◌>>=◌) refl))

  arguments_from_next :
      (s r t : Text) (e : Expr)
      → is_closed b')' s ≡ false
      → p s ≡ ok e r
      → after_comma r ≡ some t
      → arguments_from p (suc k) s ≡ (arguments_from p k t >>= λ es r2. ok (more_exprs e es) r2)
  unfolding arguments_from
  arguments_from_next s r t e x y z = rw (x, arguments_from) (rw (y, ◌>>=◌) (rw (z, ◌>>=◌) refl))

arguments_from-put :
    (c : Libc) (n k : ℕ) (t : Term) (ts : Terms) (s : Text)
    → IsRead c n t
    → AreRead c n ts
    → length (put t (put_more ts (b')' ∷ s))) < k
    → length (put t (put_more ts (b')' ∷ s))) < n
    → arguments_from (parse_expression c n) k (put t (put_more ts (b')' ∷ s)))
      ≡ ok (trees c (more_terms t ts)) (b')' ∷ s)
unfolding put_more trees AreRead skip_from skip_step
arguments_from-put c n zero t ts s h hs l m = elim l [ ]
arguments_from-put c n (suc k) t no_terms s h hs l m =
    let rest = b')' ∷ s in
    arguments_from_last (parse_expression c n) k (put t rest) (skip_whitespace rest) (tree c t)
      (is_closed-first b')' (put t rest) refl (h.begins rest))
      (reads_bare c n t rest h (at_mark b')' s refl) m) (after_comma-none b')' s (inl refl))
arguments_from-put c n (suc k) t (more_terms u us) s h (hu, hs) l m =
    let next = put u (put_more us (b')' ∷ s)) in
    let rest = b',' ∷ 32 ∷ next in
    let grown = h.grows rest in
    arguments_from_next (parse_expression c n) k (put t rest) (skip_whitespace rest) next (tree c t)
      (is_closed-first b')' (put t rest) refl (h.begins rest))
      (reads_bare c n t rest h (put_more-Stops b')' (more_terms u us) s refl) m)
      (after_comma-some next (hu.begins (put_more us (b')' ∷ s))))
    ∙ rw (arguments_from-put c n k u us s hu hs (omega (arith, grown, l)) (omega (arith, grown, m)))
        refl

-- After a loop, the closing byte.
abbrev pub closing {ℓ} : {A : Type ℓ} → ℕ → Parsed A → Parsed A
closing b x = x >>= λ a r. expect b r >>= λ _ r1. ok a r1

parse_argument_list_step :
    (p : Parser) (s t r : Text) (es : Exprs)
    → skip_whitespace s ≡ t
    → arguments_from p (suc (length t)) t ≡ ok es (b')' ∷ r)
    → parse_argument_list p s ≡ ok es r
unfolding parse_argument_list skip_from skip_step after_byte
parse_argument_list_step p s t r es e h =
    ap (λ z. closing b')' (arguments_from p (suc (length z)) z)) e ∙ ap (closing b')') h

pub parse_argument_list-put :
    (c : Libc) (n : ℕ) (ts : Terms) (s : Text)
    → AreRead c n ts
    → length (put_terms ts (b')' ∷ s)) < n
    → parse_argument_list (parse_expression c n) (put_terms ts (b')' ∷ s)) ≡ ok (trees c ts) s
unfolding put_terms AreRead trees skip_from skip_step
parse_argument_list-put c n no_terms s h m =
    parse_argument_list_step (parse_expression c n) (b')' ∷ s) (b')' ∷ s) s no_exprs refl
      (unfold arguments_from in refl)
parse_argument_list-put c n (more_terms t ts) s (h, hs) m =
    let inside = put t (put_more ts (b')' ∷ s)) in
    parse_argument_list_step (parse_expression c n) (32 ∷ inside) inside s
      (trees c (more_terms t ts)) (skip-first inside (h.begins (put_more ts (b')' ∷ s))))
      (arguments_from-put c n (suc (length inside)) t ts s h hs (omega arith) (omega (arith, m)))
