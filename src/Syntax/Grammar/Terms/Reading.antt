-- ===== src/Syntax/Grammar/Terms/Reading.antt =====
-- `parse_expression` of src/compiler/ast/ast_expr_parser.c on the texts of terms.
use bread_lang.Prelude.{
  ℕ, zero, suc, ◌<◌, Bool, true, false, ◌≡◌, ◌≢◌, some, ◌∷◌, Text, length, refl, ap, ◌∙◌, subst,
  arith,
}
use bread_lang.Syntax.{Expr, unary, ok, ◌>>=◌, Libc}
use bread_lang.Syntax.Lexing.{skip_step, skip_from, skip_whitespace, at_byte}
use bread_lang.Syntax.Expressions.{
  parse_primary, parse_postfix, prefix_at, parse_unary, parse_expression,
}
use bread_lang.Syntax.Ending.Tokens.{length-skip_from}
use bread_lang.Syntax.Grammar.{
  Operator, rank, sign, Stops, at_mark, Phrase, Reads, put_links, left_tree,
}
use bread_lang.Syntax.Grammar.Blanks.{unary_from-none, unary_from-some, unary_from-skip_whitespace}
use bread_lang.Syntax.Grammar.Precedence.{
  between, below-Reads, between-Reads, rank_lt, parser_at, put_three, nested, precedence,
}
use bread_lang.Syntax.Grammar.Terms.{
  Term, term, Atom, nil_word, self_word, super_word, bool_word, whole, decimal, name, quoted, group,
  prefixed, array_of, dict_of, call_of, literal_of, Suffixes, no_suffixes, index_suffix,
  member_suffix, method_suffix, Terms, no_terms, more_terms, Pairs, no_pairs, more_pairs, Members,
  no_members, more_members, put, put_atom, put_suffixes, prefix, tree, atom_tree, Good, GoodAtom,
  GoodSuffixes, GoodTerms, GoodPairs, GoodMembers, Fits,
}
use bread_lang.Syntax.Grammar.Terms.Arrays.{PairsAreRead}
use bread_lang.Syntax.Grammar.Terms.Atoms.{IsInside, AtomIsRead, Gives, atom-put}
use bread_lang.Syntax.Grammar.Terms.Fields.{MembersAreRead}
use bread_lang.Syntax.Grammar.Terms.Firsts.{
  Begins, skip-first, prefix_at-first, put_first, put_suffixes-IsBehind, put_suffixes-no_dot,
}
use bread_lang.Syntax.Grammar.Terms.Growing.{length-put, length-put_atom}
use bread_lang.Syntax.Grammar.Terms.Lists.{IsRead, AreRead, reads_bare}
use bread_lang.Syntax.Grammar.Terms.Tails.{SuffixesAreRead, is_node, postfix_from-put}

-- A term as an operand.
abbrev pub phrase : Libc → Term → Phrase
phrase c t = record { put = put t; tree = tree c t; grows = length-put t }

abbrev prefixed_phrase : Libc → Bool → Term → Phrase
prefixed_phrase c b t = record {
  put = λ s. prefix b ∷ 32 ∷ put t s;
  tree = unary (prefix b) (tree c t);
  grows = λ s. omega (arith, length-put t s);
}

-- `parse_unary` reads the term, whatever fuel is left for the nesting.
abbrev pub Readable : Libc → Term → Type 0
Readable c t = (n : ℕ) → Reads (suc n) 5 (parse_unary c (parse_expression c n)) (phrase c t)

prefix_first :
    (b : Bool) (s : Text) → prefix_at (skip_whitespace (32 ∷ prefix b ∷ s)) ≡ some (prefix b, s)
unfolding skip_from skip_step prefix_at
prefix_first true s = refl
prefix_first false s = refl

atom_tree-is_node : (c : Libc) (a : Atom) → is_node (atom_tree c a) ≡ true
unfolding atom_tree
atom_tree-is_node c (name x) = refl
atom_tree-is_node c _ = refl

Fits-dot :
    (a : Atom) (x : Suffixes) (s : Text)
    → Fits a x
    → Stops 5 s
    → (y : Text) → a ≡ whole y
    → at_byte b'.' (put_suffixes x s) ≡ false
Fits-dot a x s f d y e = put_suffixes-no_dot x s (subst (λ b. Fits b x) e f) d

module _ (c : Libc) where
  unary_atom :
      (n : ℕ) (s : Text)
      → Begins s
      → parse_unary c (parse_expression c n) (32 ∷ s)
        ≡ parse_postfix (parse_expression c n) (parse_primary c (parse_expression c n) s)
  unfolding parse_unary skip_from skip_step
  unary_atom n s b =
      let skipped = skip-first s b in
      unary_from-none c (parse_expression c n) (length (32 ∷ s)) (32 ∷ s)
        (ap prefix_at skipped ∙ prefix_at-first s b)
      ∙ ap (λ z. parse_postfix (parse_expression c n) (parse_primary c (parse_expression c n) z))
          skipped

  atom_then :
      (n : ℕ) (a : Atom) (x : Suffixes) (s : Text)
      → SuffixesAreRead c n x
      → Stops 5 s
      → length (put_atom a (put_suffixes x s)) < suc n
      → Gives c n a (put_suffixes x s)
      → parse_postfix
          (parse_expression c n)
          (parse_primary c (parse_expression c n) (put_atom a (put_suffixes x s)))
        ≡ ok (tree c (term a x)) (skip_whitespace s)
  unfolding parse_postfix tree
  atom_then n a x s h d m (r, given, same, short) =
      ap (parse_postfix (parse_expression c n)) given
      ∙ postfix_from-put c n (suc (length r)) x (atom_tree c a) r s h (atom_tree-is_node c a) same
          (omega (arith, length-skip_from false r))
          (omega (arith, m, length-put_atom a (put_suffixes x s))) d

  term-Readable :
      (a : Atom) (x : Suffixes)
      → Good (term a x)
      → ((n : ℕ) → AtomIsRead c n a)
      → ((n : ℕ) → SuffixesAreRead c n x)
      → Readable c (term a x)
  unfolding put Good
  term-Readable a x (g, f, gs) h hs n s d m =
      unary_atom n (put_atom a (put_suffixes x s)) (put_first (term a x) s (g, f, gs))
      ∙ atom_then n a x s (hs n) d m (
          atom-put c n a (put_suffixes x s) g (h n) (put_suffixes-IsBehind x s d)
            (Fits-dot a x s f d) m)

  -- What `parse_unary` reads is a whole expression.
  operand_read :
      (n : ℕ) (x : Phrase) (s : Text)
      → ((j : ℕ) → Reads (suc j) 5 (parse_unary c (parse_expression c j)) x)
      → Stops 0 s
      → length (x.put s) < n
      → parse_expression c n (32 ∷ x.put s) ≡ ok x.tree (skip_whitespace s)
  unfolding parse_expression parser_at
  operand_read zero x s h d m = elim m [ ]
  operand_read (suc n) x s h d m =
      below-Reads c (parse_expression c n) (suc n) 5 0 x (omega arith) (omega arith) (h n) s d m

  pub Readable-IsRead : (t : Term) → Good t → Readable c t → (n : ℕ) → IsRead c n t
  Readable-IsRead t g h n = record {
    begins = λ s. put_first t s g;
    grows = length-put t;
    reads = λ s d m. operand_read n (phrase c t) s h d m;
  }

  group-IsInside :
      (l r : Term) (o : Operator)
      → Readable c l
      → Readable c r
      → (n : ℕ)
      → IsInside c n (λ s. 32 ∷ put l (32 ∷ sign o (32 ∷ put r s))) (atom_tree c (group l o r))
  unfolding parse_expression parser_at put_links left_tree atom_tree skip_from skip_step
  group-IsInside l r o hl hr zero = record { reads = λ s m. elim m [ ] }
  group-IsInside l r o hl hr (suc n) =
      let p = parse_expression c n in
      let x = phrase c l in
      let y = phrase c r in
      record {
        reads = λ s m.
            below-Reads c p (suc n) (rank o) 0 (between x o y) (omega arith)
              (omega (arith, rank_lt o))
              (between-Reads c p (suc n) (rank o) x o y refl (rank_lt o)
                (below-Reads c p (suc n) 5 (suc (rank o)) x (omega (arith, rank_lt o)) (omega arith)
                  (hl n))
                (below-Reads c p (suc n) 5 (suc (rank o)) y (omega (arith, rank_lt o)) (omega arith)
                  (hr n)))
              (b')' ∷ s) (at_mark b')' s refl) (omega (arith, m));
      }

  unary_prefix :
      (n : ℕ) (b : Bool) (s r : Text) (e : Expr)
      → parse_unary c (parse_expression c n) (32 ∷ s) ≡ ok e r
      → parse_unary c (parse_expression c n) (32 ∷ prefix b ∷ 32 ∷ s) ≡ ok (unary (prefix b) e) r
  unfolding parse_unary skip_from skip_step prefix_at
  unary_prefix n b s r e h =
      let p = parse_expression c n in
      let size = length-skip_from false s in
      unary_from-some c p (length (32 ∷ prefix b ∷ 32 ∷ s)) (32 ∷ prefix b ∷ 32 ∷ s)
        (prefix b, 32 ∷ s) (prefix_first b (32 ∷ s))
      ∙ ap (λ q. q >>= λ a r1. ok (unary (prefix b) a) r1)
          (unary_from-skip_whitespace c p (length (32 ∷ prefix b ∷ 32 ∷ s)) (suc (length (32 ∷ s)))
              (32 ∷ s) (32 ∷ s) refl (omega (arith, size)) (omega (arith, size))
            ∙ h)

  prefixed-IsInside :
      (b : Bool) (t : Term)
      → Readable c t
      → (n : ℕ) → IsInside c n (λ s. 32 ∷ prefix b ∷ 32 ∷ put t s) (atom_tree c (prefixed b t))
  unfolding parse_expression parser_at atom_tree skip_from skip_step
  prefixed-IsInside b t h zero = record { reads = λ s m. elim m [ ] }
  prefixed-IsInside b t h (suc n) = record {
    reads = λ s m.
        below-Reads c (parse_expression c n) (suc n) 5 0 (prefixed_phrase c b t) (omega arith)
          (omega arith)
          (λ u d l.
            unary_prefix n b (put t u) (skip_whitespace u) (tree c t) (h n u d (omega (arith, l))))
          (b')' ∷ s) (at_mark b')' s refl) (omega (arith, m));
  }

  mutual
    unfolding Good AtomIsRead SuffixesAreRead AreRead PairsAreRead MembersAreRead

    pub readable : (t : Term) → Good t → Readable c t
    readable (term a x) (g, f, gs) =
        term-Readable a x (g, f, gs) (λ n. atom_read a g n) (λ n. suffixes_read x gs n)

    atom_read : (a : Atom) → GoodAtom a → (n : ℕ) → AtomIsRead c n a
    atom_read nil_word g n = tt
    atom_read self_word g n = tt
    atom_read super_word g n = tt
    atom_read (bool_word b) g n = tt
    atom_read (whole y) g n = tt
    atom_read (decimal y z) g n = tt
    atom_read (name y) g n = tt
    atom_read (quoted y) g n = tt
    atom_read (group l o r) (gl, gr) n = group-IsInside l r o (readable l gl) (readable r gr) n
    atom_read (prefixed b t) g n = prefixed-IsInside b t (readable t g) n
    atom_read (array_of ts) g n = terms_read ts g n
    atom_read (dict_of ps) g n = pairs_read ps g n
    atom_read (call_of y ts) (g, gs) n = terms_read ts gs n
    atom_read (literal_of y ms) (g, gs) n = members_read ms gs n

    suffixes_read : (x : Suffixes) → GoodSuffixes x → (n : ℕ) → SuffixesAreRead c n x
    suffixes_read no_suffixes g n = tt
    suffixes_read (index_suffix t x) (g, gs) n =
        (Readable-IsRead t g (readable t g) n, suffixes_read x gs n)
    suffixes_read (member_suffix b y x) (g, gs) n = (g, suffixes_read x gs n)
    suffixes_read (method_suffix b y ts x) (g, gt, gs) n =
        (g, terms_read ts gt n, suffixes_read x gs n)

    terms_read : (ts : Terms) → GoodTerms ts → (n : ℕ) → AreRead c n ts
    terms_read no_terms g n = tt
    terms_read (more_terms t ts) (g, gs) n =
        (Readable-IsRead t g (readable t g) n, terms_read ts gs n)

    pairs_read : (ps : Pairs) → GoodPairs ps → (n : ℕ) → PairsAreRead c n ps
    pairs_read no_pairs g n = tt
    pairs_read (more_pairs k v ps) (g, h, gs) n = (
      Readable-IsRead k g (readable k g) n,
      Readable-IsRead v h (readable v h) n,
      pairs_read ps gs n,
    )

    members_read : (ms : Members) → GoodMembers ms → (n : ℕ) → MembersAreRead c n ms
    members_read no_members g n = tt
    members_read (more_members y t ms) (g, h, gs) n =
        (g, Readable-IsRead t h (readable t h) n, members_read ms gs n)

-- Every well-formed term is read back from its text.
pub parse_expression-put :
    (c : Libc) (n : ℕ) (t : Term) (s : Text)
    → Good t
    → Stops 0 s
    → length (put t s) < n
    → parse_expression c n (put t s) ≡ ok (tree c t) (skip_whitespace s)
parse_expression-put c n t s g d m =
    reads_bare c n t s (Readable-IsRead c t g (readable c t g) n) d m

-- Three terms with two operators between them are nested by the operators' ranks.
pub parse_expression-put_three :
    (c : Libc) (n : ℕ) (a b d : Term) (o q : Operator) (s : Text)
    → Good a
    → Good b
    → Good d
    → (rank o ≡ rank q → rank q ≢ 2)
    → Stops 0 s
    → length (put_three (phrase c a) o (phrase c b) q (phrase c d) s) < n
    → parse_expression c n (32 ∷ put_three (phrase c a) o (phrase c b) q (phrase c d) s)
      ≡ ok (nested (phrase c a) o (phrase c b) q (phrase c d)) (skip_whitespace s)
unfolding parse_expression
parse_expression-put_three c zero a b d o q s ga gb gd ne stop m = elim m [ ]
parse_expression-put_three c (suc n) a b d o q s ga gb gd ne stop m =
    precedence c (parse_expression c n) (suc n) (phrase c a) (phrase c b) (phrase c d) o q
      (readable c a ga n) (readable c b gb n) (readable c d gd n) s ne stop m
