-- ===== src/Syntax/Grammar/Terms/Names.antt =====
-- What the tests at the cursor in src/compiler/ast/ast_expr_parser.c say of names, keywords and numbers.
use bread_lang.Prelude.{
  ℕ, ◌<◌, Bool, true, false, ◌||◌, ◌==◌, ◌≡◌, ◌⊎◌, none, some, [], ◌∷◌, ◌++◌, Text, text_eq, bytes,
  length, length-append, leb, inl, inr, refl, ap, ◌∙◌, Bool-cases, arith,
}
use mathlib.Core.List.{append-nil}
use bread_lang.Syntax.{nil, bool, int, double, ok, Libc}
use bread_lang.Syntax.Lexing.{
  is_digit, is_ident_start, is_ident_char, at_byte, at_class, span_ident, identifier,
}
use bread_lang.Syntax.Literals.{number_step, span_number, parse_number, max_token_len}
use bread_lang.Syntax.Expressions.{keyword, primary_byte, primary_at, constant, word, number}
use bread_lang.Syntax.Grammar.Terms.{all_bytes, is_name, IsFree, IsWhole}

span_ident-append :
    (x s : Text)
    → all_bytes is_ident_char x ≡ true
    → at_class is_ident_char s ≡ false
    → span_ident (x ++ s) ≡ (x, s)
unfolding span_ident all_bytes
span_ident-append [] [] h e = refl
span_ident-append [] (d ∷ s) h e = rw (e, span_ident) refl
span_ident-append (c ∷ x) s h e = elim (Bool-cases (is_ident_char c)) [
  | inl f ↦ rw (f, span_ident-append x s (rw f at h) e, span_ident) refl
  | inr f ↦ ground (arith, f, h)
]

-- A name before a text that does not go on with it.
pub identifier-append :
    (x s : Text)
    → is_name x ≡ true
    → at_class is_ident_char s ≡ false
    → identifier (x ++ s) ≡ some (x, s)
unfolding identifier is_name
identifier-append (c ∷ x) s h e = elim (Bool-cases (is_ident_start c)) [
  | inl f ↦ rw (f, span_ident-append x s (rw f at h) e, identifier) refl
  | inr f ↦ ground (arith, f, h)
]
identifier-append [] s h e = ground (arith, h)

keyword-append :
    (w x s : Text)
    → all_bytes is_ident_char w ≡ true
    → all_bytes is_ident_char x ≡ true
    → text_eq w x ≡ false
    → at_class is_ident_char s ≡ false
    → keyword w (x ++ s) ≡ none
unfolding keyword all_bytes text_eq
keyword-append [] [] s g h ne e = ground (arith, ne)
keyword-append [] (c ∷ x) s g h ne e = ground (arith, h)
keyword-append (w ∷ ws) [] [] g h ne e = refl
keyword-append (w ∷ ws) [] (d ∷ s) g h ne e = elim (Bool-cases (d == w)) [
  | inl f ↦ ground (arith, f, g, e)
  | inr f ↦ rw (f, keyword) refl
]
keyword-append (w ∷ ws) (c ∷ x) s g h ne e = elim (Bool-cases (c == w)) [
  | inl f ↦
      rw (f, keyword)
        (keyword-append ws x s (ground (arith, g)) (ground (arith, h)) (ground (arith, f, ne)) e)
  | inr f ↦ rw (f, keyword) refl
]

name_chars : (x : Text) → is_name x ≡ true → all_bytes is_ident_char x ≡ true
unfolding is_name all_bytes is_ident_start is_ident_char
name_chars [] h = refl
name_chars (c ∷ x) h = ground (arith, h)

primary_byte-name : (c : ℕ) (s : Text) → is_ident_start c ≡ true → primary_byte (c ∷ s) ≡ word
unfolding is_ident_start
primary_byte-name c s h = ground (arith, h)

-- A free name begins a primary expression with a name.
pub primary_at-name :
    (x s : Text) → IsFree x → at_class is_ident_char s ≡ false → primary_at (x ++ s) ≡ word
unfolding primary_at is_name
primary_at-name [] s (h, k, o) e = ground (arith, h)
primary_at-name (c ∷ x) s (h, k, o) e =
    let chars = name_chars (c ∷ x) h in
    rw
      (
        keyword-append (bytes "nil") (c ∷ x) s (unfold all_bytes is_ident_char in refl) chars
            (ground (arith, k)) e,
        keyword-append (bytes "true") (c ∷ x) s (unfold all_bytes is_ident_char in refl) chars
            (ground (arith, k)) e,
        keyword-append (bytes "false") (c ∷ x) s (unfold all_bytes is_ident_char in refl) chars
            (ground (arith, k)) e,
      )
      (primary_byte-name c (x ++ s) (ground (arith, h)))

pub primary_at-nil :
    (s : Text) → at_class is_ident_char s ≡ false → primary_at (bytes "nil" ++ s) ≡ constant nil s
unfolding primary_at keyword
primary_at-nil s e = rw e refl

pub primary_at-true :
    (s : Text)
    → at_class is_ident_char s ≡ false
    → primary_at (bytes "true" ++ s) ≡ constant (bool true) s
unfolding primary_at keyword
primary_at-true s e = rw e refl

pub primary_at-false :
    (s : Text)
    → at_class is_ident_char s ≡ false
    → primary_at (bytes "false" ++ s) ≡ constant (bool false) s
unfolding primary_at keyword
primary_at-false s e = rw e refl

pub primary_at-whole : (a s : Text) → IsWhole a → primary_at (a ++ s) ≡ number
unfolding primary_at keyword all_bytes
primary_at-whole [] s (h, l) = absurd (omega (arith, l))
primary_at-whole (c ∷ a) s (h, l) = ground (arith, h)

span_digits :
    (d : Bool) (a t : Text)
    → all_bytes is_digit a ≡ true
    → span_number d (a ++ t) ≡ record {
      digits = a ++ (span_number d t).digits;
      has_dot = (span_number d t).has_dot;
      rest = (span_number d t).rest;
    }
unfolding all_bytes span_number number_step
span_digits d [] t h = refl
span_digits d (c ∷ a) t h = elim (Bool-cases (is_digit c)) [
  | inl f ↦ rw (f, span_number) (rw (span_digits d a t (ground (arith, h))) refl)
  | inr f ↦ ground (arith, f, h)
]

number_stop :
    (d : Bool) (c : ℕ)
    → is_ident_char c ≡ false
    → (d ≡ true) ⊎ ((c == b'.') ≡ false)
    → number_step d c ≡ none
unfolding is_ident_char number_step
number_stop d c e (inl g) = ground (arith, e, g)
number_stop d c e (inr g) = ground (arith, e, g)

span_stop :
    (d : Bool) (s : Text)
    → at_class is_ident_char s ≡ false
    → (d ≡ true) ⊎ (at_byte b'.' s ≡ false)
    → span_number d s ≡ record { digits = []; has_dot = d; rest = s }
unfolding span_number
span_stop d [] e g = refl
span_stop d (c ∷ s) e g = rw (number_stop d c e g, span_number) refl

number_length :
    (a : Text)
    → 0 < length a
    → length a < max_token_len
    → (length a == 0 || leb max_token_len (length a)) ≡ false
number_length a l m = ground (arith, l, m)

-- A number without a dot, before a text that goes on with neither.
pub span_whole :
    (a s : Text)
    → all_bytes is_digit a ≡ true
    → at_class is_ident_char s ≡ false
    → at_byte b'.' s ≡ false
    → span_number false (a ++ s) ≡ record { digits = a ++ []; has_dot = false; rest = s }
unfolding span_number
span_whole a s h e g = span_digits false a s h ∙ rw (span_stop false s e (inr g)) refl

-- A number with its dot.
pub span_decimal :
    (a b s : Text)
    → all_bytes is_digit a ≡ true
    → all_bytes is_digit b ≡ true
    → at_class is_ident_char s ≡ false
    → span_number false (a ++ (b'.' ∷ (b ++ s)))
      ≡ record { digits = a ++ (b'.' ∷ (b ++ [])); has_dot = true; rest = s }
unfolding span_number number_step
span_decimal a b s h g e =
    span_digits false a (b'.' ∷ (b ++ s)) h
    ∙ ap (λ n. record { digits = a ++ (b'.' ∷ n.digits); has_dot = n.has_dot; rest = n.rest })
        (span_digits true b s g ∙ rw (span_stop true s e (inl refl)) refl)

pub parse_number-whole :
    (c : Libc) (a s : Text)
    → IsWhole a
    → length a < max_token_len
    → at_class is_ident_char s ≡ false
    → at_byte b'.' s ≡ false
    → parse_number c (a ++ s) ≡ ok (int (c.atoi a)) s
unfolding parse_number
parse_number-whole c a s (h, l) m e g =
    rw (span_whole a s h e g, append-nil) (rw (number_length a l m) refl)

pub parse_number-decimal :
    (c : Libc) (a b s : Text)
    → IsWhole a
    → all_bytes is_digit b ≡ true
    → length (a ++ b'.' ∷ b) < max_token_len
    → at_class is_ident_char s ≡ false
    → parse_number c (a ++ (b'.' ∷ (b ++ s))) ≡ ok (double (c.strtod (a ++ b'.' ∷ b))) s
unfolding parse_number
parse_number-decimal c a b s (h, l) g m e =
    rw (span_decimal a b s h g e, append-nil)
      (rw (number_length (a ++ b'.' ∷ b) (omega (arith, l, length-append a (b'.' ∷ b))) m) refl)
