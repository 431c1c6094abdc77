-- ===== src/Syntax/Grammar/Terms/Growing.antt =====
-- The lengths of the texts of the terms.
use bread_lang.Prelude.{◌≤◌, true, false, ◌∷◌, ◌++◌, Text, length, length-append, arith}
use bread_lang.Syntax.Grammar.{sign, length-sign}
use bread_lang.Syntax.Grammar.Terms.{
  Term, term, Atom, nil_word, self_word, super_word, bool_word, whole, decimal, name, quoted, group,
  prefixed, array_of, dict_of, call_of, literal_of, Suffixes, no_suffixes, index_suffix,
  member_suffix, method_suffix, Terms, no_terms, more_terms, Pairs, no_pairs, more_pairs, Members,
  no_members, more_members, put, put_atom, put_suffixes, put_terms, put_more, put_more_pairs,
  put_members, put_more_members,
}
use bread_lang.Syntax.Grammar.Terms.Strings.{length-put_string}

mutual
  unfolding put

  pub length-put : (t : Term) (s : Text) → length s ≤ length (put t s)
  length-put (term a x) s =
      omega (arith, length-put_atom a (put_suffixes x s), length-put_suffixes x s)

  pub length-put_atom : (a : Atom) (s : Text) → length s ≤ length (put_atom a s)
  length-put_atom nil_word s = omega arith
  length-put_atom self_word s = omega arith
  length-put_atom super_word s = omega arith
  length-put_atom (bool_word true) s = omega arith
  length-put_atom (bool_word false) s = omega arith
  length-put_atom (whole a) s = omega (arith, length-append a s)
  length-put_atom (decimal a b) s =
      omega (arith, length-append a (b'.' ∷ (b ++ s)), length-append b s)
  length-put_atom (name x) s = omega (arith, length-append x s)
  length-put_atom (quoted x) s = omega (arith, length-put_string x s)
  length-put_atom (group l o r) s = omega (
    arith,
    length-put l (32 ∷ sign o (32 ∷ put r (b')' ∷ s))),
    length-sign o (32 ∷ put r (b')' ∷ s)),
    length-put r (b')' ∷ s),
  )
  length-put_atom (prefixed b t) s = omega (arith, length-put t (b')' ∷ s))
  length-put_atom (array_of ts) s = omega (arith, length-put_terms ts (b']' ∷ s))
  length-put_atom (dict_of no_pairs) s = omega arith
  length-put_atom (dict_of (more_pairs k v ps)) s = omega (
    arith,
    length-put k (b':' ∷ 32 ∷ put v (put_more_pairs ps (b']' ∷ s))),
    length-put v (put_more_pairs ps (b']' ∷ s)),
    length-put_more_pairs ps (b']' ∷ s),
  )
  length-put_atom (call_of x ts) s =
      omega
        (arith, length-append x (b'(' ∷ put_terms ts (b')' ∷ s)), length-put_terms ts (b')' ∷ s))
  length-put_atom (literal_of x ms) s =
      omega (
        arith,
        length-append x (b'{' ∷ put_members ms (b'}' ∷ s)),
        length-put_members ms (b'}' ∷ s),
      )

  pub length-put_suffixes : (x : Suffixes) (s : Text) → length s ≤ length (put_suffixes x s)
  length-put_suffixes no_suffixes s = omega arith
  length-put_suffixes (index_suffix t x) s =
      omega (arith, length-put t (b']' ∷ put_suffixes x s), length-put_suffixes x s)
  length-put_suffixes (member_suffix true n x) s =
      omega (arith, length-append n (put_suffixes x s), length-put_suffixes x s)
  length-put_suffixes (member_suffix false n x) s =
      omega (arith, length-append n (put_suffixes x s), length-put_suffixes x s)
  length-put_suffixes (method_suffix true n ts x) s = omega (
    arith,
    length-append n (b'(' ∷ put_terms ts (b')' ∷ put_suffixes x s)),
    length-put_terms ts (b')' ∷ put_suffixes x s),
    length-put_suffixes x s,
  )
  length-put_suffixes (method_suffix false n ts x) s = omega (
    arith,
    length-append n (b'(' ∷ put_terms ts (b')' ∷ put_suffixes x s)),
    length-put_terms ts (b')' ∷ put_suffixes x s),
    length-put_suffixes x s,
  )

  pub length-put_terms : (ts : Terms) (s : Text) → length s ≤ length (put_terms ts s)
  length-put_terms no_terms s = omega arith
  length-put_terms (more_terms t ts) s =
      omega (arith, length-put t (put_more ts s), length-put_more ts s)

  pub length-put_more : (ts : Terms) (s : Text) → length s ≤ length (put_more ts s)
  length-put_more no_terms s = omega arith
  length-put_more (more_terms t ts) s =
      omega (arith, length-put t (put_more ts s), length-put_more ts s)

  pub length-put_more_pairs : (ps : Pairs) (s : Text) → length s ≤ length (put_more_pairs ps s)
  length-put_more_pairs no_pairs s = omega arith
  length-put_more_pairs (more_pairs k v ps) s = omega (
    arith,
    length-put k (b':' ∷ 32 ∷ put v (put_more_pairs ps s)),
    length-put v (put_more_pairs ps s),
    length-put_more_pairs ps s,
  )

  pub length-put_members : (ms : Members) (s : Text) → length s ≤ length (put_members ms s)
  length-put_members no_members s = omega arith
  length-put_members (more_members n t ms) s = omega (
    arith,
    length-append n (b':' ∷ 32 ∷ put t (put_more_members ms s)),
    length-put t (put_more_members ms s),
    length-put_more_members ms s,
  )

  pub length-put_more_members :
      (ms : Members) (s : Text) → length s ≤ length (put_more_members ms s)
  length-put_more_members no_members s = omega arith
  length-put_more_members (more_members n t ms) s = omega (
    arith,
    length-append n (b':' ∷ 32 ∷ put t (put_more_members ms s)),
    length-put t (put_more_members ms s),
    length-put_more_members ms s,
  )
