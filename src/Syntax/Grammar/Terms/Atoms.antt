-- ===== src/Syntax/Grammar/Terms/Atoms.antt =====
-- `parse_primary` of src/compiler/ast/ast_expr_parser.c on the texts of atoms.
use bread_lang.Prelude.{
  ℕ, suc, ◌≤◌, ◌<◌, Bool, true, false, ◌||◌, ◌≡◌, none, some, ◌∷◌, ◌++◌, Text, text_eq, bytes,
  length, length-append, refl, ap, ◌∙◌, arith,
}
use bread_lang.Syntax.{
  Expr, var, self, super, call, struct_literal, Exprs, FieldValues, ok, ◌>>=◌, Parser, Libc,
}
use bread_lang.Syntax.Lexing.{
  skip_step, skip_from, skip_whitespace, at_byte, at_class, after_byte, expect, identifier,
  is_ident_start, is_ident_char,
}
use bread_lang.Syntax.Literals.{parse_string_literal, parse_number}
use bread_lang.Syntax.Sequences.{parse_argument_list, parse_fields, parse_array_or_dict}
use bread_lang.Syntax.Expressions.{
  constant, number, word, primary_at, after_name, named, self_or_super, parse_identifier_expr,
  keyword, parse_primary, parse_expression,
}
use bread_lang.Syntax.Ending.Tokens.{length-skip_from}
use bread_lang.Syntax.Grammar.{sign}
use bread_lang.Syntax.Grammar.Operators.{skip_from-skip_from}
use bread_lang.Syntax.Grammar.Terms.{
  no_pairs, more_pairs, Atom, nil_word, self_word, super_word, bool_word, whole, decimal, name,
  quoted, group, prefixed, array_of, dict_of, call_of, literal_of, put, put_atom, put_string,
  put_terms, put_members, put_more_pairs, prefix, atom_tree, trees, fields_of, IsFree, is_name,
  GoodAtom, all_bytes,
}
use bread_lang.Syntax.Grammar.Terms.Arrays.{PairsAreRead, array-put, dict-put}
use bread_lang.Syntax.Grammar.Terms.Fields.{MembersAreRead, parse_fields-put}
use bread_lang.Syntax.Grammar.Terms.Firsts.{
  Begins, skip-first, name_first, digits_first, atom_first, IsBehind,
}
use bread_lang.Syntax.Grammar.Terms.Lists.{AreRead, parse_argument_list-put}
use bread_lang.Syntax.Grammar.Terms.Names.{
  identifier-append, primary_at-name, primary_at-nil, primary_at-true, primary_at-false,
  primary_at-whole, parse_number-whole, parse_number-decimal,
}
use bread_lang.Syntax.Grammar.Terms.Strings.{parse_string_literal-put}

-- What stands in parentheses: its text before the closing one, and its node.
pub record IsInside (c : Libc) (n : ℕ) (text : Text → Text) (e : Expr) : Type 0 where
  pub reads :
      (s : Text)
      → length (text (b')' ∷ s)) < n
      → parse_expression c n (text (b')' ∷ s)) ≡ ok e (b')' ∷ s)

-- The expressions inside an atom are read.
unfoldable pub AtomIsRead : Libc → ℕ → Atom → Type 0
AtomIsRead c n (group l o r) =
    IsInside c n (λ s. 32 ∷ put l (32 ∷ sign o (32 ∷ put r s))) (atom_tree c (group l o r))
AtomIsRead c n (prefixed b t) =
    IsInside c n (λ s. 32 ∷ prefix b ∷ 32 ∷ put t s) (atom_tree c (prefixed b t))
AtomIsRead c n (array_of ts) = AreRead c n ts
AtomIsRead c n (dict_of ps) = PairsAreRead c n ps
AtomIsRead c n (call_of x ts) = AreRead c n ts
AtomIsRead c n (literal_of x ms) = MembersAreRead c n ms
AtomIsRead c n _ = Unit

module _ (c : Libc) (p : Parser) (s : Text) (b : Begins s) where
  at_word : primary_at s ≡ word → parse_primary c p s ≡ parse_identifier_expr p s
  unfolding parse_primary
  at_word h = rw (ap primary_at (skip-first s b) ∙ h, parse_primary) refl

  at_constant : (e : Expr) (r : Text) → primary_at s ≡ constant e r → parse_primary c p s ≡ ok e r
  unfolding parse_primary
  at_constant e r h = rw (ap primary_at (skip-first s b) ∙ h, parse_primary) refl

  at_number : primary_at s ≡ number → parse_primary c p s ≡ parse_number c s
  unfolding parse_primary
  at_number h =
      rw (ap primary_at (skip-first s b) ∙ h, parse_primary) (ap (parse_number c) (skip-first s b))

  identifier_named :
      (x r : Text) → identifier s ≡ some (x, r) → parse_identifier_expr p s ≡ named p x r
  unfolding parse_identifier_expr
  identifier_named x r h = rw (ap identifier (skip-first s b) ∙ h, parse_identifier_expr) refl

not_object_word :
    (a b : Bool) (p : Parser) (x s : Text)
    → (a || b) ≡ false
    → self_or_super a b p x s ≡ after_name p x (skip_whitespace s)
not_object_word true b p x s h = ground (arith, h)
not_object_word false true p x s h = ground (arith, h)
not_object_word false false p x s h = refl

module _ (c : Libc) (p : Parser) (x s : Text) (f : IsFree x)
    (g : at_class is_ident_char s ≡ false) where
  -- A free name is followed by fields, by arguments, or by neither.
  free_name : parse_primary c p (x ++ s) ≡ after_name p x (skip_whitespace s)
  free_name =
      let begins = name_first x s f.0 in
      at_word c p (x ++ s) begins (primary_at-name x s f g)
      ∙ identifier_named c p (x ++ s) begins x s (identifier-append x s f.0 g)
      ∙ not_object_word (text_eq x (bytes "self")) (text_eq x (bytes "super")) p x s f.2

  name_alone : IsBehind s → parse_primary c p (x ++ s) ≡ ok (var x) (skip_whitespace s)
  name_alone h = free_name ∙ rw (h.no_brace, h.no_paren, after_name) refl

  name_called :
      (t r : Text) (es : Exprs)
      → after_byte b'{' (skip_whitespace s) ≡ none
      → after_byte b'(' (skip_whitespace s) ≡ some t
      → parse_argument_list p t ≡ ok es r
      → parse_primary c p (x ++ s) ≡ ok (call x es) r
  name_called t r es a b h = free_name ∙ rw (a, b, after_name) (rw (h, ◌>>=◌) refl)

  name_literal :
      (t r : Text) (fs : FieldValues)
      → after_byte b'{' (skip_whitespace s) ≡ some t
      → parse_fields p t ≡ ok fs r
      → parse_primary c p (x ++ s) ≡ ok (struct_literal x fs) r
  name_literal t r fs a h = free_name ∙ rw (a, after_name) (rw (h, ◌>>=◌) refl)

module _ (c : Libc) (p : Parser) where
  at_quote : (s : Text) → parse_primary c p (b'"' ∷ s) ≡ parse_string_literal p s
  unfolding parse_primary primary_at keyword skip_from skip_step
  at_quote s = refl

  at_bracket : (s : Text) → parse_primary c p (b'[' ∷ s) ≡ parse_array_or_dict p s
  unfolding parse_primary primary_at keyword skip_from skip_step
  at_bracket s = refl

  at_parenthesis :
      (s r : Text) (e : Expr) → p s ≡ ok e (b')' ∷ r) → parse_primary c p (b'(' ∷ s) ≡ ok e r
  unfolding parse_primary primary_at keyword skip_from skip_step after_byte
  at_parenthesis s r e h = ap (λ q. q >>= λ e r1. expect b')' r1 >>= λ _ r2. ok e r2) h

  at_self :
      (s : Text)
      → at_class is_ident_char s ≡ false
      → parse_primary c p (bytes "self" ++ s) ≡ ok self s
  unfolding primary_at keyword is_name all_bytes is_ident_start is_ident_char text_eq
  at_self s e =
      let begins = name_first (bytes "self") s refl in
      at_word c p (bytes "self" ++ s) begins refl
      ∙ identifier_named c p (bytes "self" ++ s) begins (bytes "self") s
          (identifier-append (bytes "self") s refl e)

  at_super :
      (s : Text)
      → at_class is_ident_char s ≡ false
      → parse_primary c p (bytes "super" ++ s) ≡ ok super s
  unfolding primary_at keyword is_name all_bytes is_ident_start is_ident_char text_eq
  at_super s e =
      let begins = name_first (bytes "super") s refl in
      at_word c p (bytes "super" ++ s) begins refl
      ∙ identifier_named c p (bytes "super" ++ s) begins (bytes "super") s
          (identifier-append (bytes "super") s refl e)

-- What `parse_primary` gives on an atom.
abbrev pub Gives : Libc → ℕ → Atom → Text → Type 0
Gives c n a s =
    (r : Text) × (parse_primary c (parse_expression c n) (put_atom a s) ≡ ok (atom_tree c a) r)
    × (skip_whitespace r ≡ skip_whitespace s)
    × (length (skip_whitespace r) ≤ length s)

exactly :
    (c : Libc) (n : ℕ) (a : Atom) (s : Text)
    → parse_primary c (parse_expression c n) (put_atom a s) ≡ ok (atom_tree c a) s
    → Gives c n a s
exactly c n a s h = (s, h, refl, length-skip_from false s)

pub atom-put :
    (c : Libc) (n : ℕ) (a : Atom) (s : Text)
    → GoodAtom a
    → AtomIsRead c n a
    → IsBehind s
    → ((x : Text) → a ≡ whole x → at_byte b'.' s ≡ false)
    → length (put_atom a s) < suc n
    → Gives c n a s
unfolding put_atom atom_tree GoodAtom AtomIsRead after_byte skip_from skip_step is_ident_char
atom-put c n nil_word s g h b d m = exactly c n nil_word s (
    at_constant c _ (bytes "nil" ++ s) (atom_first nil_word s tt) _ s (primary_at-nil s b.no_ident))
atom-put c n (bool_word true) s g h b d m = exactly c n (bool_word true) s (
    at_constant c _ (bytes "true" ++ s) (atom_first (bool_word true) s tt) _ s
      (primary_at-true s b.no_ident))
atom-put c n (bool_word false) s g h b d m = exactly c n (bool_word false) s (
    at_constant c _ (bytes "false" ++ s) (atom_first (bool_word false) s tt) _ s
      (primary_at-false s b.no_ident))
atom-put c n self_word s g h b d m = exactly c n self_word s (at_self c _ s b.no_ident)
atom-put c n super_word s g h b d m = exactly c n super_word s (at_super c _ s b.no_ident)
atom-put c n (whole a) s (w, l) h b d m = exactly c n (whole a) s (
    at_number c _ (a ++ s) (digits_first a s w.0 w.1) (primary_at-whole a s w)
    ∙ parse_number-whole c a s w l b.no_ident (d a refl))
atom-put c n (decimal x y) s (w, g, l) h b d m =
    let rest = b'.' ∷ (y ++ s) in
    exactly c n (decimal x y) s (
      at_number c _ (x ++ rest) (digits_first x rest w.0 w.1) (primary_at-whole x rest w)
      ∙ parse_number-decimal c x y s w g l b.no_ident)
atom-put c n (name x) s g h b d m = (
  skip_whitespace s,
  name_alone c _ x s g b.no_ident b,
  skip_from-skip_from false s,
  omega (arith, length-skip_from false s, ap length (skip_from-skip_from false s)),
)
atom-put c n (quoted x) s g h b d m =
    exactly c n (quoted x) s (at_quote c _ (put_string x s) ∙ parse_string_literal-put _ x s)
atom-put c n (group l o r) s g h b d m = exactly c n (group l o r) s (
    at_parenthesis c _ (32 ∷ put l (32 ∷ sign o (32 ∷ put r (b')' ∷ s)))) s _
      (h.reads s (omega (arith, m))))
atom-put c n (prefixed y t) s g h b d m =
    exactly c n (prefixed y t) s (
      at_parenthesis c _ (32 ∷ prefix y ∷ 32 ∷ put t (b')' ∷ s)) s _ (h.reads s (omega (arith, m))))
atom-put c n (array_of ts) s g h b d m =
    exactly c n (array_of ts) s
      (at_bracket c _ (put_terms ts (b']' ∷ s)) ∙ array-put c n ts s h (omega (arith, m)))
atom-put c n (dict_of no_pairs) s g h b d m = exactly c n (dict_of no_pairs) s (
    at_bracket c _ (b':' ∷ b']' ∷ s)
    ∙ unfold parse_array_or_dict skip_from skip_step after_byte in refl)
atom-put c n (dict_of (more_pairs k v ps)) s g h b d m =
    exactly c n (dict_of (more_pairs k v ps)) s (
      at_bracket c _ (32 ∷ put k (b':' ∷ 32 ∷ put v (put_more_pairs ps (b']' ∷ s))))
      ∙ dict-put c n k v ps s h (omega (arith, m)))
atom-put c n (call_of x ts) s (g, gs) h b d m = exactly c n (call_of x ts) s (
    name_called c _ x (b'(' ∷ put_terms ts (b')' ∷ s)) g refl (put_terms ts (b')' ∷ s)) s
      (trees c ts) refl refl
      (parse_argument_list-put c n ts s h
        (omega (arith, m, length-append x (b'(' ∷ put_terms ts (b')' ∷ s))))))
atom-put c n (literal_of x ms) s (g, gs) h b d m = exactly c n (literal_of x ms) s (
    name_literal c _ x (b'{' ∷ put_members ms (b'}' ∷ s)) g refl (put_members ms (b'}' ∷ s)) s
      (fields_of c ms) refl
      (parse_fields-put c n ms s h
        (omega (arith, m, length-append x (b'{' ∷ put_members ms (b'}' ∷ s))))))
