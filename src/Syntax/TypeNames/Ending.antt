-- ===== src/Syntax/TypeNames/Ending.antt =====
-- The fuel of `parse_type_descriptor` of src/compiler/ast/ast_types.c, and the text that it leaves.
use bread_lang.Prelude.{
  ℕ, zero, suc, ◌≤◌, ◌<◌, leb, Option, none, some, [], ◌∷◌, Text, length, inl, inr, Bool-cases,
  Option-cases, arith,
}
use bread_lang.Types.{TypeDescriptor, create_array, create_dict, create_optional}
use bread_lang.Syntax.{Parsed}
use bread_lang.Syntax.Lexing.{is_whitespace, after_byte, identifier}
use bread_lang.Syntax.Literals.{max_token_len}
use bread_lang.Syntax.Ending.{Ends, Consumes, Ends-weaken, Ends-bind}
use bread_lang.Syntax.Ending.Tokens.{length-after_byte, length-identifier}
use bread_lang.Syntax.TypeNames.{
  skip_blanks, type_of_name, created_type, close_bracket, parse_brackets, parse_named,
  mark_optional, parse_base, parse_type_descriptor,
}

length-skip_blanks : (s : Text) → length (skip_blanks s) ≤ length s
unfolding skip_blanks
length-skip_blanks [] = omega arith
length-skip_blanks (c ∷ cs) = elim (Bool-cases (is_whitespace c)) [
  | inl e ↦ rw (e, skip_blanks) (omega (arith, length-skip_blanks cs))
  | inr e ↦ rw (e, skip_blanks) (omega arith)
]

created_type-Ends :
    (o : Option TypeDescriptor) (s : Text) {k : ℕ} → length s ≤ k → Ends k (created_type o s)
unfolding Ends
created_type-Ends none s h = h
created_type-Ends (some t) s h = h

close_bracket-Ends :
    (o : Option TypeDescriptor) (s : Text) (k : ℕ) → length s ≤ k → Ends k (close_bracket o s)
unfolding Ends
close_bracket-Ends o s k h =
    let less = length-skip_blanks s in
    elim (Option-cases (after_byte b']' (skip_blanks s))) [
      | inl e ↦ rw (e, close_bracket, Ends) (omega (arith, h, less))
      | inr (r, e) ↦
          rw (e, close_bracket, Ends)
            (created_type-Ends o r
              (omega (arith, h, less, length-after_byte b']' (skip_blanks s) e)))
    ]

parse_named-Ends : (s : Text) → Ends (length s) (parse_named s)
unfolding Ends parse_named
parse_named-Ends s = elim (Option-cases (identifier s)) [
  | inl e ↦ rw (e, parse_named, Ends) (omega arith)
  | inr (t, e) ↦
      let less = length-identifier s e in
      elim (Bool-cases (leb max_token_len (length t.0))) [
        | inl f ↦ rw (e, parse_named, Ends) (rw f (omega (arith, less)))
        | inr f ↦
            rw (e, parse_named, Ends)
              (rw f (created_type-Ends (type_of_name t.0) t.1 (omega (arith, less))))
      ]
]

mark_optional-Ends :
    (t : TypeDescriptor) (s : Text) (k : ℕ) → length s ≤ k → Ends k (mark_optional t s)
unfolding Ends mark_optional
mark_optional-Ends t s k h =
    let less = length-skip_blanks s in
    elim (Option-cases (after_byte b'?' (skip_blanks s))) [
      | inl e ↦ rw (e, mark_optional, Ends) (omega (arith, h, less))
      | inr (r, e) ↦
          rw (e, mark_optional, Ends)
            (created_type-Ends (create_optional (some t)) r
              (omega (arith, h, less, length-after_byte b'?' (skip_blanks s) e)))
    ]

module _ (inner : Text → Parsed TypeDescriptor) (n : ℕ) (h : Consumes n inner) where
  parse_brackets-Ends : (s : Text) → length s < n → Ends (length s) (parse_brackets inner s)
  unfolding Ends parse_brackets
  parse_brackets-Ends s m = Ends-bind (inner s) _ (h s m) (omega arith) (λ first r l.
      let less = length-skip_blanks r in
      elim (Option-cases (after_byte b':' (skip_blanks r))) [
        | inl e ↦ rw (e, Ends) (close_bracket-Ends (create_array (some first)) r (length s) l)
        | inr (r1, e) ↦
            let g = length-after_byte b':' (skip_blanks r) e in
            rw (e, Ends)
              (Ends-bind (inner r1) _ (h r1 (omega (arith, m, l, less, g)))
                (omega (arith, l, less, g))
                (λ second r2 l2.
                  close_bracket-Ends (create_dict (some first) (some second)) r2 (length s)
                    (omega (arith, l, less, g, l2))))
      ])

  parse_base-Ends : (s : Text) → length s < suc n → Ends (length s) (parse_base inner s)
  unfolding Ends
  parse_base-Ends s m = elim (Option-cases (after_byte b'[' s)) [
    | inl e ↦ rw (e, parse_base, Ends) (parse_named-Ends s)
    | inr (r, e) ↦
        let g = length-after_byte b'[' s e in
        rw (e, parse_base, Ends)
          (Ends-weaken (parse_brackets inner r) (omega (arith, g))
            (parse_brackets-Ends r (omega (arith, g, m))))
  ]

-- With fuel greater than the length of the text, the parser answers.
pub parse_type_descriptor-Ends :
    (n : ℕ) (s : Text) → length s < n → Ends (length s) (parse_type_descriptor n s)
unfolding parse_type_descriptor
parse_type_descriptor-Ends zero s m = elim m [ ]
parse_type_descriptor-Ends (suc n) s m =
    let less = length-skip_blanks s in
    Ends-bind (parse_base (parse_type_descriptor n) (skip_blanks s)) _
      (Ends-weaken (parse_base (parse_type_descriptor n) (skip_blanks s)) less (
        parse_base-Ends (parse_type_descriptor n) n (λ t l. parse_type_descriptor-Ends n t l)
          (skip_blanks s) (omega (arith, m, less))))
      (omega arith) (λ out r l. mark_optional-Ends out r (length s) l)
