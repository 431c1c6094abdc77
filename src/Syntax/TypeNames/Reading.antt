-- ===== src/Syntax/TypeNames/Reading.antt =====
-- `parse_type_descriptor` of src/compiler/ast/ast_types.c on a description of the texts of types.
use bread_lang.Prelude.{
  ℕ, zero, suc, ◌<◌, Bool, true, false, ◌||◌, ◌≡◌, leb, none, some, [], ◌∷◌, ◌++◌, Text, text_eq,
  bytes, length, refl, ap, ◌∙◌, arith,
}
use bread_lang.Types.{
  string, int, bool, float, double, nil, Primitive, TypeDescriptor, primitive, array, dict,
  optional, struct_type, class_type, end, field, create_primitive, create_array, create_dict,
  create_optional, create_struct, clone_fields,
}
use bread_lang.Syntax.{Parsed, ok, ◌>>=◌}
use bread_lang.Syntax.Lexing.{at_class, after_byte, is_ident_start, is_ident_char}
use bread_lang.Syntax.Literals.{max_token_len}
use bread_lang.Syntax.Grammar.Terms.{is_name, all_bytes}
use bread_lang.Syntax.Grammar.Terms.Names.{identifier-append}
use bread_lang.Syntax.TypeNames.{
  skip_blanks, type_name_to_vartype, type_of_name, created_type, close_bracket, parse_brackets,
  parse_named, mark_optional, parse_base, parse_type_descriptor,
}

-- The names that stand for no primitive type.
abbrev pub is_type_word : Text → Bool
is_type_word n =
    (text_eq n (bytes "Int") || text_eq n (bytes "String"))
    || ((text_eq n (bytes "Bool") || text_eq n (bytes "Float"))
        || (text_eq n (bytes "Double") || text_eq n (bytes "Nil")))

-- Integers, doubles, Booleans, strings, structures without fields, arrays, and optionals that are not
-- nested in one another: the flag says that an optional may stand here.
unfoldable pub IsReadable : Bool → TypeDescriptor → Type 0
unfolding is_name
IsReadable b (primitive int) = Unit
IsReadable b (primitive double) = Unit
IsReadable b (primitive bool) = Unit
IsReadable b (primitive string) = Unit
IsReadable b (array e) = IsReadable true e
IsReadable true (optional w) = IsReadable false w
IsReadable b (struct_type n end) =
    (is_name n ≡ true) × (is_type_word n ≡ false) × (length n < max_token_len)
IsReadable b _ = ⊥

-- The text of such a type, before a text.
unfoldable pub put_type : TypeDescriptor → Text → Text
put_type (primitive int) s = bytes "Int" ++ s
put_type (primitive double) s = bytes "Double" ++ s
put_type (primitive bool) s = bytes "Bool" ++ s
put_type (primitive string) s = bytes "String" ++ s
put_type (primitive float) s = s
put_type (primitive nil) s = s
put_type (array e) s = b'[' ∷ put_type e (b']' ∷ s)
put_type (optional w) s = put_type w (b'?' ∷ s)
put_type (struct_type n fs) s = n ++ s
put_type (dict k v) s = s
put_type (class_type n p fs) s = s

-- What may stand behind a type: nothing, a closing bracket, or a question mark.
pub data Behind : Text → Type 0 where
  nothing : Behind []
  bracket : (s : Text) → Behind (b']' ∷ s)
  question : (s : Text) → Behind (b'?' ∷ s)

Behind-blanks : {s : Text} → Behind s → skip_blanks s ≡ s
unfolding skip_blanks
Behind-blanks nothing = refl
Behind-blanks (bracket s) = refl
Behind-blanks (question s) = refl

Behind-ident : {s : Text} → Behind s → at_class is_ident_char s ≡ false
unfolding is_ident_char
Behind-ident nothing = refl
Behind-ident (bracket s) = refl
Behind-ident (question s) = refl

name_blanks : (n s : Text) → is_name n ≡ true → skip_blanks (n ++ s) ≡ n ++ s
unfolding is_name skip_blanks is_ident_start
name_blanks [] s h = ground (arith, h)
name_blanks (c ∷ n) s h = ground (arith, h)

name_bracket : (n s : Text) → is_name n ≡ true → after_byte b'[' (n ++ s) ≡ none
unfolding is_name after_byte is_ident_start
name_bracket [] s h = ground (arith, h)
name_bracket (c ∷ n) s h = ground (arith, h)

parse_named-append :
    (n s : Text) (t : TypeDescriptor)
    → is_name n ≡ true
    → length n < max_token_len
    → Behind s
    → type_of_name n ≡ some t
    → parse_named (n ++ s) ≡ ok t s
unfolding parse_named
parse_named-append n s t h l b e =
    rw (identifier-append n s h (Behind-ident b), parse_named)
      (rw (short_name n l) (ap (λ o. created_type o s) e))
  where
    short_name : (n : Text) → length n < max_token_len → leb max_token_len (length n) ≡ false
    short_name n l = ground (arith, l)

base_name :
    (inner : Text → Parsed TypeDescriptor) (n s : Text) (t : TypeDescriptor)
    → is_name n ≡ true
    → length n < max_token_len
    → Behind s
    → type_of_name n ≡ some t
    → parse_base inner (skip_blanks (n ++ s)) ≡ ok t s
base_name inner n s t h l b e =
    ap (parse_base inner) (name_blanks n s h)
    ∙ rw (name_bracket n s h, parse_base) (parse_named-append n s t h l b e)

struct_name : (n : Text) → is_type_word n ≡ false → type_of_name n ≡ some (struct_type n end)
unfolding type_of_name type_name_to_vartype create_struct clone_fields
struct_name n h = ground (arith, h)

array_step :
    (n : ℕ) (e : TypeDescriptor) (s r : Text)
    → parse_type_descriptor n s ≡ ok e (b']' ∷ r)
    → parse_base (parse_type_descriptor n) (skip_blanks (b'[' ∷ s)) ≡ ok (array e) r
unfolding parse_brackets skip_blanks after_byte create_array
array_step n e s r h =
    ap
      (λ q. q >>= λ first r. elim (after_byte b':' (skip_blanks r)) [
        | none ↦ close_bracket (create_array (some first)) r
        | some r1 ↦ parse_type_descriptor n r1 >>= λ second r2.
            close_bracket (create_dict (some first) (some second)) r2
      ])
      h

-- The types in brackets are read with fuel `n`.
abbrev Inner : ℕ → Type 0
Inner n =
    (e : TypeDescriptor) (r : Text)
    → IsReadable true e
    → length (put_type e (b']' ∷ r)) < n
    → parse_type_descriptor n (put_type e (b']' ∷ r)) ≡ ok e (b']' ∷ r)

-- A type without its question mark.
base-put :
    (n : ℕ) (t : TypeDescriptor) (s : Text)
    → Inner n
    → IsReadable false t
    → Behind s
    → length (put_type t s) < suc n
    → parse_base (parse_type_descriptor n) (skip_blanks (put_type t s)) ≡ ok t s
unfolding put_type IsReadable is_name all_bytes is_ident_start is_ident_char type_of_name
    type_name_to_vartype create_primitive text_eq
base-put n (primitive int) s ih h b m =
    base_name (parse_type_descriptor n) (bytes "Int") s (primitive int) refl (omega arith) b refl
base-put n (primitive double) s ih h b m =
    base_name (parse_type_descriptor n) (bytes "Double") s (primitive double) refl (omega arith) b
      refl
base-put n (primitive bool) s ih h b m =
    base_name (parse_type_descriptor n) (bytes "Bool") s (primitive bool) refl (omega arith) b refl
base-put n (primitive string) s ih h b m =
    base_name (parse_type_descriptor n) (bytes "String") s (primitive string) refl (omega arith) b
      refl
base-put n (array e) s ih h b m =
    array_step n e (put_type e (b']' ∷ s)) s (ih e s h (omega (arith, m)))
base-put n (struct_type x end) s ih (g, w, l) b m =
    base_name (parse_type_descriptor n) x s (struct_type x end) g l b (struct_name x w)
base-put n (struct_type x (field y u fs)) s ih h b m = elim h [ ]
base-put n (primitive float) s ih h b m = elim h [ ]
base-put n (primitive nil) s ih h b m = elim h [ ]
base-put n (dict k v) s ih h b m = elim h [ ]
base-put n (optional w) s ih h b m = elim h [ ]
base-put n (class_type x p fs) s ih h b m = elim h [ ]

marked :
    (n : ℕ) (t : TypeDescriptor) (x r : Text)
    → parse_base (parse_type_descriptor n) (skip_blanks x) ≡ ok t r
    → parse_type_descriptor (suc n) x ≡ mark_optional t r
unfolding parse_type_descriptor
marked n t x r h = ap (λ q. q >>= λ out r1. mark_optional out r1) h

-- What stands behind a whole type.
pub data IsClosed : Text → Type 0 where
  at_end : IsClosed []
  at_bracket : (s : Text) → IsClosed (b']' ∷ s)

closed-Behind : {s : Text} → IsClosed s → Behind s
closed-Behind at_end = nothing
closed-Behind (at_bracket s) = bracket s

no_mark : (t : TypeDescriptor) {s : Text} → IsClosed s → mark_optional t s ≡ ok t s
unfolding mark_optional skip_blanks after_byte
no_mark t at_end = refl
no_mark t (at_bracket s) = refl

one_mark : (t : TypeDescriptor) (s : Text) → mark_optional t (b'?' ∷ s) ≡ ok (optional t) s
unfolding mark_optional skip_blanks after_byte create_optional
one_mark t s = refl

primitive-IsReadable :
    (p : Primitive) → IsReadable true (primitive p) → IsReadable false (primitive p)
unfolding IsReadable
primitive-IsReadable string h = h
primitive-IsReadable int h = h
primitive-IsReadable bool h = h
primitive-IsReadable double h = h
primitive-IsReadable float h = elim h [ ]
primitive-IsReadable nil h = elim h [ ]

parse_type_descriptor-step :
    (n : ℕ) (t : TypeDescriptor) (s : Text)
    → Inner n
    → IsReadable true t
    → IsClosed s
    → length (put_type t s) < suc n
    → parse_type_descriptor (suc n) (put_type t s) ≡ ok t s
unfolding put_type IsReadable
parse_type_descriptor-step n (optional w) s ih h b m =
    marked n w (put_type w (b'?' ∷ s)) (b'?' ∷ s) (base-put n w (b'?' ∷ s) ih h (question s) m)
    ∙ one_mark w s
parse_type_descriptor-step n (struct_type x end) s ih h b m =
    marked n (struct_type x end) (x ++ s) s
      (base-put n (struct_type x end) s ih h (closed-Behind b) m)
    ∙ no_mark (struct_type x end) b
parse_type_descriptor-step n (struct_type x (field y u fs)) s ih h b m = elim h [ ]
parse_type_descriptor-step n (dict k v) s ih h b m = elim h [ ]
parse_type_descriptor-step n (class_type x p fs) s ih h b m = elim h [ ]
parse_type_descriptor-step n (array e) s ih h b m =
    marked n (array e) (b'[' ∷ put_type e (b']' ∷ s)) s
      (base-put n (array e) s ih h (closed-Behind b) m)
    ∙ no_mark (array e) b
parse_type_descriptor-step n (primitive p) s ih h b m =
    marked n (primitive p) (put_type (primitive p) s) s
      (base-put n (primitive p) s ih (primitive-IsReadable p h) (closed-Behind b) m)
    ∙ no_mark (primitive p) b

-- A readable type is read back from its text.
pub parse_type_descriptor-put :
    (n : ℕ) (t : TypeDescriptor) (s : Text)
    → IsReadable true t
    → IsClosed s
    → length (put_type t s) < n
    → parse_type_descriptor n (put_type t s) ≡ ok t s
parse_type_descriptor-put zero t s h b m = elim m [ ]
parse_type_descriptor-put (suc n) t s h b m =
    parse_type_descriptor-step n t s
      (λ e r g l. parse_type_descriptor-put n e (b']' ∷ r) g (at_bracket r) l) h b m
