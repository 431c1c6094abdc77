-- ===== src/Syntax/TypeNames/RoundTrip.antt =====
-- `type_descriptor_to_string` of src/core/type_descriptor.c, and what it prints into a buffer.
use mathlib.Core.List.{append-nil, append_assoc}
use bread_lang.Prelude.{
  ℕ, zero, suc, ◌-◌, ◌≤◌, ◌<◌, Bool, true, false, ◌≡◌, [], ◌∷◌, ◌++◌, Text, bytes, length,
  length-append, take, refl, ap, arith,
}
use bread_lang.Types.{
  string, int, bool, float, double, nil, TypeDescriptor, primitive, array, dict, optional,
  struct_type, class_type, end, field,
}
use bread_lang.Syntax.{ok}
use bread_lang.Syntax.TypeNames.{parse_type_descriptor, clip, type_descriptor_to_string}
use bread_lang.Syntax.TypeNames.Reading.{IsReadable, put_type, at_end, parse_type_descriptor-put}

put_type-append : (t : TypeDescriptor) (u s : Text) → put_type t (u ++ s) ≡ put_type t u ++ s
unfolding put_type
put_type-append (primitive int) u s = refl
put_type-append (primitive double) u s = refl
put_type-append (primitive bool) u s = refl
put_type-append (primitive string) u s = refl
put_type-append (primitive float) u s = refl
put_type-append (primitive nil) u s = refl
put_type-append (array e) u s = ap (λ x. b'[' ∷ x) (put_type-append e (b']' ∷ u) s)
put_type-append (optional w) u s = put_type-append w (b'?' ∷ u) s
put_type-append (struct_type n fs) u s = rw append_assoc refl
put_type-append (dict k v) u s = refl
put_type-append (class_type n p fs) u s = refl

take-short : (n : ℕ) (s : Text) → length s ≤ n → take n s ≡ s
take-short zero [] h = refl
take-short zero (c ∷ s) h = absurd (omega (arith, h))
take-short (suc n) [] h = refl
take-short (suc n) (c ∷ s) h = ap (λ x. c ∷ x) (take-short n s (omega (arith, h)))

clip-short : (size : ℕ) (s : Text) → length s < size → clip size s ≡ s
clip-short size s h = take-short (size - 1) s (omega (arith, h))

-- A text that fits the buffer is printed whole.
type_descriptor_to_string-put :
    (b : Bool) (size : ℕ) (t : TypeDescriptor)
    → IsReadable b t
    → size ≤ 256
    → length (put_type t []) < size
    → type_descriptor_to_string size t ≡ put_type t []
unfolding type_descriptor_to_string put_type IsReadable
type_descriptor_to_string-put b size (primitive int) h l m = clip-short size (bytes "Int") m
type_descriptor_to_string-put b size (primitive double) h l m = clip-short size (bytes "Double") m
type_descriptor_to_string-put b size (primitive bool) h l m = clip-short size (bytes "Bool") m
type_descriptor_to_string-put b size (primitive string) h l m = clip-short size (bytes "String") m
type_descriptor_to_string-put b size (primitive float) h l m = elim h [ ]
type_descriptor_to_string-put b size (primitive nil) h l m = elim h [ ]
type_descriptor_to_string-put b size (array e) h l m =
    let whole = put_type-append e [] (bytes "]") in
    let size_of = ap length whole in
    let added = length-append (put_type e []) (bytes "]") in
    rw
      (type_descriptor_to_string-put true 256 e h (omega arith)
        (omega (arith, l, m, size_of, added)))
      (rw (← whole) (clip-short size (b'[' ∷ put_type e (bytes "]")) m))
type_descriptor_to_string-put true size (optional w) h l m =
    let whole = put_type-append w [] (bytes "?") in
    let size_of = ap length whole in
    let added = length-append (put_type w []) (bytes "?") in
    rw
      (type_descriptor_to_string-put false 256 w h (omega arith)
        (omega (arith, l, m, size_of, added)))
      (rw (← whole) (clip-short size (put_type w (bytes "?")) m))
type_descriptor_to_string-put false size (optional w) h l m = elim h [ ]
type_descriptor_to_string-put b size (struct_type n end) h l m =
    rw append-nil (clip-short size n (omega (arith, m, length-append n [])))
type_descriptor_to_string-put b size (struct_type n (field y u fs)) h l m = elim h [ ]
type_descriptor_to_string-put b size (dict k v) h l m = elim h [ ]
type_descriptor_to_string-put b size (class_type n p fs) h l m = elim h [ ]

-- What is printed is parsed back, if it fits the buffer of 256 bytes.
pub parse_type_descriptor-type_descriptor_to_string :
    (t : TypeDescriptor)
    → IsReadable true t
    → length (put_type t []) < 256
    → parse_type_descriptor 256 (type_descriptor_to_string 256 t) ≡ ok t []
parse_type_descriptor-type_descriptor_to_string t h m =
    rw (type_descriptor_to_string-put true 256 t h (omega arith) m)
      (parse_type_descriptor-put 256 t [] h at_end m)
