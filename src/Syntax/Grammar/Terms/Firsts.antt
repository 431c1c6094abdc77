-- ===== src/Syntax/Grammar/Terms/Firsts.antt =====
-- The first byte of a term, and what the tests at the cursor in src/compiler/ast/ast_expr_parser.c say of
-- it and of the text behind an operand.
use bread_lang.Prelude.{
  ℕ, Bool, true, false, ◌||◌, ◌==◌, ◌≡◌, ◌<◌, none, [], ◌∷◌, ◌++◌, Text, length, refl, arith,
}
use bread_lang.Syntax.Lexing.{
  is_digit, is_ident_start, is_ident_char, at_byte, at_class, skip_step, skip_from, skip_whitespace,
  after_byte,
}
use bread_lang.Syntax.Sequences.{is_closed}
use bread_lang.Syntax.Expressions.{prefix_at, suffix_at, no_suffix}
use bread_lang.Syntax.Grammar.{or_op, sign, is_mark, Stops, at_end, at_mark, at_operator}
use bread_lang.Syntax.Grammar.Terms.{
  Term, term, Atom, bool_word, whole, decimal, name, dict_of, no_pairs, more_pairs, call_of,
  literal_of, Suffixes, no_suffixes, index_suffix, member_suffix, method_suffix, put, put_atom,
  put_suffixes, Good, GoodAtom, all_bytes, is_name, no_dot,
}

unfoldable pub is_first : ℕ → Bool
is_first c = is_ident_start c || is_digit c || c == b'"' || c == b'(' || c == b'['

-- The text begins with such a byte.
abbrev pub Begins : Text → Type 0
Begins s = at_class is_first s ≡ true

pub skip-first : (s : Text) → Begins s → skip_whitespace s ≡ s
unfolding is_first skip_from skip_step is_ident_start
skip-first (c ∷ s) h = ground (arith, h)
skip-first [] h = ground (arith, h)

pub prefix_at-first : (s : Text) → Begins s → prefix_at s ≡ none
unfolding is_first prefix_at is_ident_start
prefix_at-first (c ∷ s) h = ground (arith, h)
prefix_at-first [] h = ground (arith, h)

-- No closing bracket and no colon begins a term.
pub is_closed-first : (b : ℕ) (s : Text) → is_mark b ≡ true → Begins s → is_closed b s ≡ false
unfolding is_first is_ident_start
is_closed-first b (c ∷ s) m h = ground (arith, h, m)
is_closed-first b [] m h = ground (arith, h)

pub after_byte-first : (b : ℕ) (s : Text) → is_mark b ≡ true → Begins s → after_byte b s ≡ none
unfolding is_first after_byte is_ident_start
after_byte-first b (c ∷ s) m h = ground (arith, h, m)
after_byte-first b [] m h = refl

pub name_first : (x s : Text) → is_name x ≡ true → Begins (x ++ s)
unfolding is_name is_first
name_first (c ∷ x) s h = ground (arith, h)
name_first [] s h = ground (arith, h)

pub digits_first : (a s : Text) → all_bytes is_digit a ≡ true → 0 < length a → Begins (a ++ s)
unfolding all_bytes is_first
digits_first (c ∷ a) s h l = ground (arith, h)
digits_first [] s h l = absurd (ground (arith, l))

pub atom_first : (a : Atom) (s : Text) → GoodAtom a → Begins (put_atom a s)
unfolding put_atom GoodAtom is_first is_ident_start
atom_first (name x) s (g, k, o) = name_first x s g
atom_first (call_of x ts) s ((g, k, o), h) = name_first x (b'(' ∷ _) g
atom_first (literal_of x ms) s ((g, k, o), h) = name_first x (b'{' ∷ _) g
atom_first (whole x) s ((g, l), m) = digits_first x s g l
atom_first (decimal x y) s ((g, l), h, m) = digits_first x (b'.' ∷ (y ++ s)) g l
atom_first (bool_word true) s g = refl
atom_first (bool_word false) s g = refl
atom_first (dict_of no_pairs) s g = refl
atom_first (dict_of (more_pairs k v ps)) s g = refl
atom_first _ s g = refl

pub put_first : (t : Term) (s : Text) → Good t → Begins (put t s)
unfolding put Good
put_first (term a x) s (g, f, h) = atom_first a (put_suffixes x s) g

-- Behind an operand the loop of `parse_postfix` ends.
pub Stops-no_suffix : {r : ℕ} {s : Text} → Stops r s → suffix_at (skip_whitespace s) ≡ no_suffix
unfolding skip_from skip_step suffix_at sign
Stops-no_suffix at_end = refl
Stops-no_suffix (at_mark c s h) = ground (arith, h)
Stops-no_suffix (at_operator or_op s h) = refl
Stops-no_suffix (at_operator _ s h) = refl

-- The text behind an atom: it goes on with no name, and opens no call and no literal.
pub record IsBehind (s : Text) : Type 0 where
  pub no_ident : at_class is_ident_char s ≡ false
  pub no_brace : after_byte b'{' (skip_whitespace s) ≡ none
  pub no_paren : after_byte b'(' (skip_whitespace s) ≡ none

Stops-IsBehind : {r : ℕ} {s : Text} → Stops r s → IsBehind s
unfolding skip_from skip_step is_ident_char after_byte sign
Stops-IsBehind at_end = record { no_ident = refl; no_brace = refl; no_paren = refl }
Stops-IsBehind (at_mark c s h) = record {
  no_ident = ground (arith, h);
  no_brace = ground (arith, h);
  no_paren = ground (arith, h);
}
Stops-IsBehind (at_operator or_op s h) = record {
  no_ident = refl;
  no_brace = refl;
  no_paren = refl;
}
Stops-IsBehind (at_operator _ s h) = record { no_ident = refl; no_brace = refl; no_paren = refl }

pub put_suffixes-IsBehind :
    {r : ℕ} (x : Suffixes) (s : Text) → Stops r s → IsBehind (put_suffixes x s)
unfolding skip_from skip_step is_ident_char after_byte put_suffixes
put_suffixes-IsBehind no_suffixes s d = Stops-IsBehind d
put_suffixes-IsBehind (index_suffix t x) s d = record {
  no_ident = refl;
  no_brace = refl;
  no_paren = refl;
}
put_suffixes-IsBehind (member_suffix true n x) s d = record {
  no_ident = refl;
  no_brace = refl;
  no_paren = refl;
}
put_suffixes-IsBehind (member_suffix false n x) s d = record {
  no_ident = refl;
  no_brace = refl;
  no_paren = refl;
}
put_suffixes-IsBehind (method_suffix true n ts x) s d = record {
  no_ident = refl;
  no_brace = refl;
  no_paren = refl;
}
put_suffixes-IsBehind (method_suffix false n ts x) s d = record {
  no_ident = refl;
  no_brace = refl;
  no_paren = refl;
}

Stops-no_dot : {r : ℕ} {s : Text} → Stops r s → at_byte b'.' s ≡ false
unfolding sign
Stops-no_dot at_end = refl
Stops-no_dot (at_mark c s h) = ground (arith, h)
Stops-no_dot (at_operator or_op s h) = refl
Stops-no_dot (at_operator _ s h) = refl

pub put_suffixes-no_dot :
    {r : ℕ} (x : Suffixes) (s : Text)
    → no_dot x ≡ true
    → Stops r s
    → at_byte b'.' (put_suffixes x s) ≡ false
unfolding put_suffixes
put_suffixes-no_dot no_suffixes s h d = Stops-no_dot d
put_suffixes-no_dot (index_suffix t x) s h d = refl
put_suffixes-no_dot (member_suffix true n x) s h d = refl
put_suffixes-no_dot (member_suffix false n x) s h d = ground (arith, h)
put_suffixes-no_dot (method_suffix true n ts x) s h d = refl
put_suffixes-no_dot (method_suffix false n ts x) s h d = ground (arith, h)
