-- ===== src/Syntax/Ending/Starts.antt =====
-- What the tests at the cursor leave of the text.
use bread_lang.Prelude.{
  ℕ, ◌≤◌, ◌<◌, true, false, ◌==◌, Option, some, [], ◌∷◌, ◌≡◌, inl, inr, Bool-cases, Option-cases,
  Text, length, bytes, arith,
}
use bread_lang.Syntax.{Expr, nil, bool}
use bread_lang.Syntax.Lexing.{is_ident_start}
use bread_lang.Syntax.Expressions.{
  keyword, Primary, constant, parenthesis, string_quote, number, bracket, word, other, primary_byte,
  or_constant, primary_at, advanced, Suffix, index_bracket, member_dot, no_suffix, suffix_at,
  prefix_at, factor_at, term_at, comparison_at, doubled_at,
}

length-keyword : (w s : Text) {r : Text} → keyword w s ≡ some r → length r ≤ length s
unfolding keyword
length-keyword [] s h = ground arith
length-keyword (w ∷ ws) [] h = ground arith
length-keyword (w ∷ ws) (c ∷ cs) h = elim (Bool-cases (c == w)) [
  | inl e ↦ omega (arith, length-keyword ws cs (rw (e, keyword) at h))
  | inr e ↦ ground (arith, e, h)
]

-- The text that stands after what a primary expression begins with.
abbrev pub Leaves : Text → Primary → Type 0
Leaves s (constant e r) = length r ≤ length s
Leaves s (parenthesis r) = length r < length s
Leaves s (string_quote r) = length r < length s
Leaves s bracket = length (advanced s) < length s
Leaves s number = Unit
Leaves s word = Unit
Leaves s other = Unit

primary_byte-Leaves : (s : Text) → Leaves s (primary_byte s)
unfolding is_ident_start
primary_byte-Leaves [] = tt
primary_byte-Leaves (c ∷ cs) = ground arith

or_constant-Leaves :
    (s w : Text) (e : Expr) (x : Primary) → Leaves s x → Leaves s (or_constant (keyword w s) e x)
or_constant-Leaves s w e x h = elim (Option-cases (keyword w s)) [
  | inl k ↦ rw k h
  | inr (r, k) ↦ rw k (length-keyword w s k)
]

pub primary_at-Leaves : (s : Text) → Leaves s (primary_at s)
unfolding primary_at
primary_at-Leaves s = or_constant-Leaves s (bytes "nil") nil _ (
    or_constant-Leaves s (bytes "true") (bool true) _
      (or_constant-Leaves s (bytes "false") (bool false) _ (primary_byte-Leaves s)))

-- What a suffix leaves is shorter.
abbrev pub Shorter : ℕ → Suffix → Type 0
Shorter n (index_bracket r) = length r < n
Shorter n (member_dot b r) = length r < n
Shorter n no_suffix = Unit

pub suffix_at-Shorter : (s : Text) → Shorter (length s) (suffix_at s)
unfolding suffix_at
suffix_at-Shorter [] = tt
suffix_at-Shorter (c ∷ []) = ground arith
suffix_at-Shorter (c ∷ d ∷ cs) = ground arith

-- An operator takes at least a byte.
abbrev pub Advances : (Text → Option (ℕ × Text)) → Type 0
Advances operator = (s : Text) (o : ℕ × Text) → operator s ≡ some o → length o.1 < length s

pub prefix_at-Advances : Advances prefix_at
unfolding prefix_at
prefix_at-Advances [] o h = ground arith
prefix_at-Advances (c ∷ cs) o h = ground arith

pub factor_at-Advances : Advances factor_at
unfolding factor_at
factor_at-Advances [] o h = ground arith
factor_at-Advances (c ∷ cs) o h = ground arith

pub term_at-Advances : Advances term_at
unfolding term_at
term_at-Advances [] o h = ground arith
term_at-Advances (c ∷ cs) o h = ground arith

pub comparison_at-Advances : Advances comparison_at
unfolding comparison_at
comparison_at-Advances [] o h = ground arith
comparison_at-Advances (c ∷ []) o h = ground arith
comparison_at-Advances (c ∷ d ∷ cs) o h = ground arith

pub doubled_at-Advances : (b : ℕ) → Advances (doubled_at b)
doubled_at-Advances b [] o h = ground arith
doubled_at-Advances b (c ∷ []) o h = ground arith
doubled_at-Advances b (c ∷ d ∷ cs) o h = ground arith
