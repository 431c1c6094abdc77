-- ===== src/Syntax/Grammar/Terms/Arrays.antt =====
-- `parse_array_or_dict` of src/compiler/ast/ast_expr_parser.c on the texts of elements and entries.
use bread_lang.Prelude.{
  ℕ, zero, suc, ◌<◌, Bool, true, false, ◌||◌, ◌≡◌, inl, inr, none, some, ◌∷◌, Text, length, refl,
  ap, ◌∙◌, arith,
}
use bread_lang.Syntax.{Expr, no_exprs, no_entries, array_literal, dict, ok, ◌>>=◌, Parser, Libc}
use bread_lang.Syntax.Lexing.{skip_step, skip_from, skip_whitespace, at_byte, after_byte, expect}
use bread_lang.Syntax.Sequences.{
  is_closed, after_comma, Collected, nothing_more, with_elem, with_entry, parse_value, go_on,
  items_from, collected, parse_items, parse_array_or_dict,
}
use bread_lang.Syntax.Expressions.{parse_expression}
use bread_lang.Syntax.Grammar.{Stops, at_mark}
use bread_lang.Syntax.Grammar.Terms.{
  Term, Terms, no_terms, more_terms, Pairs, no_pairs, more_pairs, put, put_terms, put_more,
  put_more_pairs, tree, trees, entries_of,
}
use bread_lang.Syntax.Grammar.Terms.Firsts.{Begins, skip-first, is_closed-first, after_byte-first}
use bread_lang.Syntax.Grammar.Terms.Lists.{
  IsRead, AreRead, reads_bare, put_more-Stops, after_comma-some, after_comma-none,
}

unfoldable pub PairsAreRead : Libc → ℕ → Pairs → Type 0
PairsAreRead c n no_pairs = Unit
PairsAreRead c n (more_pairs k v ps) = IsRead c n k × IsRead c n v × PairsAreRead c n ps

module _ (p : Parser) (k : ℕ) where
  last_elem :
      (s r : Text) (e : Expr)
      → is_closed b']' s ≡ false
      → p s ≡ ok e r
      → at_byte b':' (skip_whitespace r) ≡ false
      → after_comma r ≡ none
      → items_from p (suc k) false s ≡ ok (with_elem e (nothing_more false)) r
  unfolding items_from
  last_elem s r e x y w z = rw (x, items_from) (rw (y, ◌>>=◌) (rw (w, ◌>>=◌) (rw (z, ◌>>=◌) refl)))

  next_elem :
      (s r t : Text) (e : Expr)
      → is_closed b']' s ≡ false
      → p s ≡ ok e r
      → at_byte b':' (skip_whitespace r) ≡ false
      → after_comma r ≡ some t
      → items_from p (suc k) false s ≡ (items_from p k false t >>= λ c r1. ok (with_elem e c) r1)
  unfolding items_from
  next_elem s r t e x y w z =
      rw (x, items_from) (rw (y, ◌>>=◌) (rw (w, ◌>>=◌) (rw (z, ◌>>=◌) refl)))

colon_or : (d : Bool) (b : Bool) → b ≡ true → (d || b) ≡ true
colon_or true b e = refl
colon_or false b e = e

module _ (p : Parser) (k : ℕ) (d : Bool) where
  last_entry :
      (s r r1 : Text) (e v : Expr)
      → is_closed b']' s ≡ false
      → p s ≡ ok e r
      → at_byte b':' (skip_whitespace r) ≡ true
      → parse_value p r ≡ ok v r1
      → after_comma r1 ≡ none
      → items_from p (suc k) d s ≡ ok (with_entry e v (nothing_more true)) r1
  unfolding items_from
  last_entry s r r1 e v x y w u z =
      rw (x, items_from)
        (rw (y, ◌>>=◌)
          (rw (colon_or d _ w, ◌>>=◌)
            (ap
                (λ q. q >>= λ v r1. go_on (after_comma r1) true r1 (items_from p k true) >>= λ c r2.
                  ok (with_entry e v c) r2)
                u
              ∙ ap (λ o. go_on o true r1 (items_from p k true) >>= λ c r2. ok (with_entry e v c) r2)
                  z)))

  next_entry :
      (s r r1 t : Text) (e v : Expr)
      → is_closed b']' s ≡ false
      → p s ≡ ok e r
      → at_byte b':' (skip_whitespace r) ≡ true
      → parse_value p r ≡ ok v r1
      → after_comma r1 ≡ some t
      → items_from p (suc k) d s ≡ (items_from p k true t >>= λ c r2. ok (with_entry e v c) r2)
  unfolding items_from
  next_entry s r r1 t e v x y w u z =
      rw (x, items_from)
        (rw (y, ◌>>=◌)
          (rw (colon_or d _ w, ◌>>=◌)
            (ap
                (λ q. q >>= λ v r1. go_on (after_comma r1) true r1 (items_from p k true) >>= λ c r2.
                  ok (with_entry e v c) r2)
                u
              ∙ ap (λ o. go_on o true r1 (items_from p k true) >>= λ c r2. ok (with_entry e v c) r2)
                  z)))

-- What the loop collects of the elements of an array.
abbrev elements : Libc → Terms → Collected
elements c ts = record { is_dict = false; elems = trees c ts; entries = no_entries }

elements-put :
    (c : Libc) (n k : ℕ) (t : Term) (ts : Terms) (s : Text)
    → IsRead c n t
    → AreRead c n ts
    → length (put t (put_more ts (b']' ∷ s))) < k
    → length (put t (put_more ts (b']' ∷ s))) < n
    → items_from (parse_expression c n) k false (put t (put_more ts (b']' ∷ s)))
      ≡ ok (elements c (more_terms t ts)) (b']' ∷ s)
unfolding put_more trees AreRead skip_from skip_step
elements-put c n zero t ts s h hs l m = elim l [ ]
elements-put c n (suc k) t no_terms s h hs l m =
    let rest = b']' ∷ s in
    last_elem (parse_expression c n) k (put t rest) (skip_whitespace rest) (tree c t)
      (is_closed-first b']' (put t rest) refl (h.begins rest))
      (reads_bare c n t rest h (at_mark b']' s refl) m) refl
      (after_comma-none b']' s (inr (inl refl)))
elements-put c n (suc k) t (more_terms u us) s h (hu, hs) l m =
    let next = put u (put_more us (b']' ∷ s)) in
    let rest = b',' ∷ 32 ∷ next in
    let grown = h.grows rest in
    next_elem (parse_expression c n) k (put t rest) (skip_whitespace rest) next (tree c t)
      (is_closed-first b']' (put t rest) refl (h.begins rest))
      (reads_bare c n t rest h (put_more-Stops b']' (more_terms u us) s refl) m) refl
      (after_comma-some next (hu.begins (put_more us (b']' ∷ s))))
    ∙ rw (elements-put c n k u us s hu hs (omega (arith, grown, l)) (omega (arith, grown, m))) refl

not_empty :
    (p : Parser) (s : Text)
    → after_byte b':' (skip_whitespace s) ≡ none
    → after_byte b']' (skip_whitespace s) ≡ none
    → parse_array_or_dict p s ≡ parse_items p (skip_whitespace s)
unfolding parse_array_or_dict
not_empty p s a b = rw (a, b, parse_array_or_dict) refl

closed_items :
    (p : Parser) (t r : Text) (x : Collected)
    → items_from p (suc (length t)) false t ≡ ok x (b']' ∷ r)
    → parse_items p t ≡ ok (collected x) r
unfolding skip_from skip_step after_byte
closed_items p t r x i = ap (λ z. z >>= λ c q. expect b']' q >>= λ _ q1. ok (collected c) q1) i

parse_array_or_dict_step :
    (p : Parser) (s t r : Text) (x : Collected)
    → skip_whitespace s ≡ t
    → Begins t
    → items_from p (suc (length t)) false t ≡ ok x (b']' ∷ r)
    → parse_array_or_dict p s ≡ ok (collected x) r
parse_array_or_dict_step p s t r x e h i =
    not_empty p s (ap (after_byte b':') e ∙ after_byte-first b':' t refl h)
      (ap (after_byte b']') e ∙ after_byte-first b']' t refl h)
    ∙ ap (parse_items p) e
    ∙ closed_items p t r x i

pub array-put :
    (c : Libc) (n : ℕ) (ts : Terms) (s : Text)
    → AreRead c n ts
    → length (put_terms ts (b']' ∷ s)) < n
    → parse_array_or_dict (parse_expression c n) (put_terms ts (b']' ∷ s))
      ≡ ok (array_literal (trees c ts)) s
unfolding put_terms AreRead trees skip_from skip_step
array-put c n no_terms s h m = unfold parse_array_or_dict after_byte in refl
array-put c n (more_terms t ts) s (h, hs) m =
    let inside = put t (put_more ts (b']' ∷ s)) in
    parse_array_or_dict_step (parse_expression c n) (32 ∷ inside) inside s
      (elements c (more_terms t ts)) (skip-first inside (h.begins (put_more ts (b']' ∷ s))))
      (h.begins (put_more ts (b']' ∷ s)))
      (elements-put c n (suc (length inside)) t ts s h hs (omega arith) (omega (arith, m)))

-- What the loop collects of the entries of a dictionary.
abbrev pairs : Libc → Pairs → Collected
pairs c ps = record { is_dict = true; elems = no_exprs; entries = entries_of c ps }

put_more_pairs-Stops : (ps : Pairs) (s : Text) → Stops 0 (put_more_pairs ps (b']' ∷ s))
unfolding put_more_pairs
put_more_pairs-Stops no_pairs s = at_mark b']' s refl
put_more_pairs-Stops (more_pairs k v ps) s = at_mark b',' (32 ∷ _) refl

-- A value behind its colon.
parse_value-put :
    (c : Libc) (n : ℕ) (v : Term) (s : Text)
    → IsRead c n v
    → Stops 0 s
    → length (put v s) < n
    → parse_value (parse_expression c n) (skip_whitespace (b':' ∷ 32 ∷ put v s))
      ≡ ok (tree c v) (skip_whitespace s)
unfolding skip_from skip_step after_byte
parse_value-put c n v s h d m = h.reads s d m

entries-put :
    (c : Libc) (n j : ℕ) (d : Bool) (k v : Term) (ps : Pairs) (s : Text)
    → IsRead c n k
    → IsRead c n v
    → PairsAreRead c n ps
    → length (put k (b':' ∷ 32 ∷ put v (put_more_pairs ps (b']' ∷ s)))) < j
    → length (put k (b':' ∷ 32 ∷ put v (put_more_pairs ps (b']' ∷ s)))) < n
    → items_from
        (parse_expression c n)
        j
        d
        (put k (b':' ∷ 32 ∷ put v (put_more_pairs ps (b']' ∷ s))))
      ≡ ok (pairs c (more_pairs k v ps)) (b']' ∷ s)
unfolding put_more_pairs entries_of PairsAreRead skip_from skip_step
entries-put c n zero d k v ps s hk hv hs l m = elim l [ ]
entries-put c n (suc j) d k v no_pairs s hk hv hs l m =
    let last = b']' ∷ s in
    let rest = b':' ∷ 32 ∷ put v last in
    last_entry (parse_expression c n) j d (put k rest) (skip_whitespace rest) (skip_whitespace last)
      (tree c k) (tree c v) (is_closed-first b']' (put k rest) refl (hk.begins rest))
      (reads_bare c n k rest hk (at_mark b':' (32 ∷ put v last) refl) m) refl
      (parse_value-put c n v last hv (at_mark b']' s refl) (omega (arith, m, hk.grows rest)))
      (after_comma-none b']' s (inr (inl refl)))
entries-put c n (suc j) d k v (more_pairs x y ps) s hk hv (hx, hy, hs) l m =
    let next = put x (b':' ∷ 32 ∷ put y (put_more_pairs ps (b']' ∷ s))) in
    let last = b',' ∷ 32 ∷ next in
    let rest = b':' ∷ 32 ∷ put v last in
    let grown = hk.grows rest in
    let grown_value = hv.grows last in
    next_entry (parse_expression c n) j d (put k rest) (skip_whitespace rest) (skip_whitespace last)
      next (tree c k) (tree c v) (is_closed-first b']' (put k rest) refl (hk.begins rest))
      (reads_bare c n k rest hk (at_mark b':' (32 ∷ put v last) refl) m) refl
      (parse_value-put c n v last hv (put_more_pairs-Stops (more_pairs x y ps) s)
        (omega (arith, m, grown)))
      (after_comma-some next (hx.begins (b':' ∷ 32 ∷ put y (put_more_pairs ps (b']' ∷ s)))))
    ∙ rw
        (entries-put c n j true x y ps s hx hy hs (omega (arith, grown, grown_value, l))
          (omega (arith, grown, grown_value, m)))
        refl

pub dict-put :
    (c : Libc) (n : ℕ) (k v : Term) (ps : Pairs) (s : Text)
    → PairsAreRead c n (more_pairs k v ps)
    → length (put k (b':' ∷ 32 ∷ put v (put_more_pairs ps (b']' ∷ s)))) < n
    → parse_array_or_dict
        (parse_expression c n)
        (32 ∷ put k (b':' ∷ 32 ∷ put v (put_more_pairs ps (b']' ∷ s))))
      ≡ ok (dict (entries_of c (more_pairs k v ps))) s
unfolding PairsAreRead skip_from skip_step
dict-put c n k v ps s (hk, hv, hs) m =
    let rest = b':' ∷ 32 ∷ put v (put_more_pairs ps (b']' ∷ s)) in
    let inside = put k rest in
    parse_array_or_dict_step (parse_expression c n) (32 ∷ inside) inside s
      (pairs c (more_pairs k v ps)) (skip-first inside (hk.begins rest)) (hk.begins rest)
      (entries-put c n (suc (length inside)) false k v ps s hk hv hs (omega arith) m)
