-- ===== src/Syntax/Grammar/Terms/Tails.antt =====
-- The loop of `parse_postfix` in src/compiler/ast/ast_expr_parser.c on the texts of suffixes.
use bread_lang.Prelude.{
  ℕ, zero, suc, ◌<◌, Bool, true, false, ◌≡◌, none, some, ◌∷◌, ◌++◌, Text, length, length-append,
  refl, ap, ◌∙◌, arith,
}
use bread_lang.Syntax.{Expr, null, index, member, method_call, Exprs, ok, ◌>>=◌, Parser, Libc}
use bread_lang.Syntax.Lexing.{
  skip_step, skip_from, skip_whitespace, at_class, after_byte, expect, identifier, is_ident_char,
}
use bread_lang.Syntax.Sequences.{parse_argument_list}
use bread_lang.Syntax.Expressions.{
  no_suffix, index_bracket, member_dot, suffix_at, named_member, parse_member, pointer,
  postfix_from, parse_expression,
}
use bread_lang.Syntax.Ending.Tokens.{length-skip_from}
use bread_lang.Syntax.Grammar.{Stops, at_mark}
use bread_lang.Syntax.Grammar.Operators.{skip_from-skip_from}
use bread_lang.Syntax.Grammar.Terms.{
  Suffixes, no_suffixes, index_suffix, member_suffix, method_suffix, put, put_suffixes, put_terms,
  tree, trees, suffixed, is_name, dot,
}
use bread_lang.Syntax.Grammar.Terms.Firsts.{
  skip-first, name_first, Stops-no_suffix, put_suffixes-IsBehind,
}
use bread_lang.Syntax.Grammar.Terms.Growing.{length-put_terms}
use bread_lang.Syntax.Grammar.Terms.Lists.{IsRead, AreRead, parse_argument_list-put}
use bread_lang.Syntax.Grammar.Terms.Names.{identifier-append}

unfoldable pub SuffixesAreRead : Libc → ℕ → Suffixes → Type 0
SuffixesAreRead c n no_suffixes = Unit
SuffixesAreRead c n (index_suffix t x) = IsRead c n t × SuffixesAreRead c n x
SuffixesAreRead c n (member_suffix b y x) = (is_name y ≡ true) × SuffixesAreRead c n x
SuffixesAreRead c n (method_suffix b y ts x) =
    (is_name y ≡ true) × AreRead c n ts × SuffixesAreRead c n x

-- The base is no null pointer.
abbrev pub is_node : Expr → Bool
is_node null = false
is_node _ = true

pointer-is_node : (e : Expr) (s : Text) → is_node e ≡ true → pointer e s ≡ ok e s
pointer-is_node null s h = ground (arith, h)
pointer-is_node _ s h = refl

module _ (p : Parser) (k : ℕ) (e : Expr) (r : Text) where
  postfix_end :
      suffix_at (skip_whitespace r) ≡ no_suffix
      → postfix_from p (suc k) e r ≡ pointer e (skip_whitespace r)
  unfolding postfix_from
  postfix_end h = rw (h, postfix_from) refl

  postfix_index :
      (t u w : Text) (i : Expr)
      → suffix_at (skip_whitespace r) ≡ index_bracket t
      → p t ≡ ok i u
      → expect b']' u ≡ ok true w
      → postfix_from p (suc k) e r ≡ postfix_from p k (index e i) w
  unfolding postfix_from
  postfix_index t u w i h x y =
      rw (h, postfix_from)
        (ap (λ q. q >>= λ a r1. expect b']' r1 >>= λ _ r2. postfix_from p k (index e a) r2) x
          ∙ ap (λ q. q >>= λ _ r2. postfix_from p k (index e i) r2) y)

  postfix_member :
      (b : Bool) (t u : Text) (m : Expr)
      → suffix_at (skip_whitespace r) ≡ member_dot b t
      → parse_member p e b t ≡ ok m u
      → postfix_from p (suc k) e r ≡ postfix_from p k m u
  unfolding postfix_from
  postfix_member b t u m h x =
      rw (h, postfix_from) (ap (λ q. q >>= λ a r1. postfix_from p k a r1) x)

module _ (p : Parser) (e : Expr) (b : Bool) (y s : Text) (h : is_name y ≡ true)
    (g : at_class is_ident_char s ≡ false) where
  member_name : parse_member p e b (y ++ s) ≡ named_member p e b y (skip_whitespace s)
  unfolding parse_member
  member_name =
      rw
        (
          ap identifier (skip-first (y ++ s) (name_first y s h)) ∙ identifier-append y s h g,
          parse_member,
        )
        refl

  member_alone :
      after_byte b'(' (skip_whitespace s) ≡ none
      → parse_member p e b (y ++ s) ≡ ok (member e y b) (skip_whitespace s)
  member_alone x = member_name ∙ rw (x, named_member) refl

  member_called :
      (t r : Text) (es : Exprs)
      → after_byte b'(' (skip_whitespace s) ≡ some t
      → parse_argument_list p t ≡ ok es r
      → parse_member p e b (y ++ s) ≡ ok (method_call e y es b) r
  member_called t r es x z = member_name ∙ rw (x, named_member) (rw (z, ◌>>=◌) refl)

suffix_at-dot : (b : Bool) (s : Text) → suffix_at (skip_whitespace (dot b s)) ≡ member_dot b s
unfolding skip_from skip_step suffix_at
suffix_at-dot true s = refl
suffix_at-dot false s = refl

length-dot : (b : Bool) (s : Text) → length s < length (skip_whitespace (dot b s))
unfolding skip_from skip_step
length-dot true s = omega arith
length-dot false s = omega arith

pub postfix_from-put :
    (c : Libc) (n k : ℕ) (x : Suffixes) (e : Expr) (r s : Text)
    → SuffixesAreRead c n x
    → is_node e ≡ true
    → skip_whitespace r ≡ skip_whitespace (put_suffixes x s)
    → length (skip_whitespace r) < k
    → length (put_suffixes x s) < suc n
    → Stops 5 s
    → postfix_from (parse_expression c n) k e r ≡ ok (suffixed c x e) (skip_whitespace s)
unfolding put_suffixes suffixed SuffixesAreRead skip_from skip_step suffix_at after_byte
    is_ident_char
postfix_from-put c n zero x e r s h i a l m d = elim l [ ]
postfix_from-put c n (suc k) no_suffixes e r s h i a l m d =
    postfix_end (parse_expression c n) k e r (ap suffix_at a ∙ Stops-no_suffix d)
    ∙ pointer-is_node e (skip_whitespace r) i
    ∙ ap (ok e) a
postfix_from-put c n (suc k) (index_suffix t x) e r s (h, hs) i a l m d =
    let rest = put_suffixes x s in
    let grown = h.grows (b']' ∷ rest) in
    let size = ap length a in
    postfix_index (parse_expression c n) k e r (32 ∷ put t (b']' ∷ rest))
      (skip_whitespace (b']' ∷ rest)) rest (tree c t) (ap suffix_at a)
      (h.reads (b']' ∷ rest) (at_mark b']' rest refl) (omega (arith, m))) refl
    ∙ postfix_from-put c n k x (index e (tree c t)) rest s hs refl refl
        (omega (arith, l, size, grown, length-skip_from false rest)) (omega (arith, m, grown)) d
postfix_from-put c n (suc k) (member_suffix b y x) e r s (h, hs) i a l m d =
    let rest = put_suffixes x s in
    let behind = put_suffixes-IsBehind x s d in
    let longer = length-dot b (y ++ rest) in
    let whole = length-append y rest in
    let size = ap length a in
    postfix_member (parse_expression c n) k e r b (y ++ rest) (skip_whitespace rest) (member e y b)
      (ap suffix_at a ∙ suffix_at-dot b (y ++ rest))
      (member_alone (parse_expression c n) e b y rest h behind.no_ident behind.no_paren)
    ∙ postfix_from-put c n k x (member e y b) (skip_whitespace rest) s hs refl
        (skip_from-skip_from false rest)
        (omega (
          arith,
          l,
          size,
          longer,
          whole,
          length-skip_from false rest,
          ap length (skip_from-skip_from false rest),
        ))
        (omega (arith, m, length-skip_from false (dot b (y ++ rest)), longer, whole)) d
postfix_from-put c n (suc k) (method_suffix b y ts x) e r s (h, ht, hs) i a l m d =
    let rest = put_suffixes x s in
    let listed = put_terms ts (b')' ∷ rest) in
    let longer = length-dot b (y ++ b'(' ∷ listed) in
    let whole = length-append y (b'(' ∷ listed) in
    let grown = length-put_terms ts (b')' ∷ rest) in
    let size = ap length a in
    let bound = length-skip_from false (dot b (y ++ b'(' ∷ listed)) in
    postfix_member (parse_expression c n) k e r b (y ++ b'(' ∷ listed) rest
      (method_call e y (trees c ts) b) (ap suffix_at a ∙ suffix_at-dot b (y ++ b'(' ∷ listed))
      (member_called (parse_expression c n) e b y (b'(' ∷ listed) h refl listed rest (trees c ts)
        refl (parse_argument_list-put c n ts rest ht (omega (arith, m, bound, longer, whole))))
    ∙ postfix_from-put c n k x (method_call e y (trees c ts) b) rest s hs refl refl
        (omega (arith, l, size, longer, whole, grown, length-skip_from false rest))
        (omega (arith, m, bound, longer, whole, grown)) d
