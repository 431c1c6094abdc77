-- ===== src/Syntax/Ending/Lists.antt =====
-- The loops over the lists between brackets of src/compiler/ast/ast_expr_parser.c, and the text they leave.
use bread_lang.Prelude.{
  ℕ, zero, suc, ◌≤◌, ◌<◌, Bool, true, false, ◌||◌, some, ◌≡◌, inl, inr, Bool-cases, Option-cases,
  Text, length, arith,
}
use bread_lang.Syntax.{Parsed, ok, ◌>>=◌, Parser}
use bread_lang.Syntax.Lexing.{skip_whitespace, at_byte, after_byte, expect, identifier}
use bread_lang.Syntax.Sequences.{
  is_closed, after_comma, arguments_from, parse_argument_list, fields_from, parse_fields, Collected,
  with_elem, with_entry, go_on, items_from, parse_items, parse_array_or_dict,
}
use bread_lang.Syntax.Ending.{Ends, Consumes, Ends-weaken, Ends-bind}
use bread_lang.Syntax.Ending.Tokens.{
  length-skip_from, length-after_byte, length-identifier, expect-Ends,
}

length-after_comma :
    (s : Text) {r : Text} (m : ℕ) → length s ≤ m → after_comma s ≡ some r → length r < m
length-after_comma s m l h = elim (Option-cases (after_byte b',' (skip_whitespace s))) [
  | inl e ↦ ground (arith, e)
  | inr (x, e) ↦ ground (
    arith,
    e,
    length-skip_from false x,
    length-skip_from false s,
    length-after_byte b',' (skip_whitespace s) e,
  )
]

-- After the loop, the closing byte.
closing-Ends {ℓ} :
    {A : Type ℓ} (b m : ℕ) (p : Parsed A)
    → Ends m p
    → Ends m (p >>= λ a r. expect b r >>= λ _ r1. ok a r1)
unfolding Ends
closing-Ends b m p h =
    Ends-bind p _ h (omega arith)
      (λ a r l. Ends-bind (expect b r) _ (expect-Ends b r l) (omega arith) (λ _ r1 g. g))

-- What the loop of `parse_array_or_dict` does after an item.
go_on-Ends :
    (m : ℕ) (d : Bool) (r : Text) (more : Text → Parsed Collected) (f : Collected → Collected)
    → length r ≤ m
    → ((t : Text) → length t < m → Ends (length t) (more t))
    → Ends m (go_on (after_comma r) d r more >>= λ c r1. ok (f c) r1)
unfolding Ends
go_on-Ends m d r more f l h = elim (Option-cases (after_comma r)) [
  | inl c ↦ rw (c, Ends) l
  | inr (r1, c) ↦
      let less = length-after_comma r m l c in
      rw c
        (Ends-bind (more r1) _ (h r1 less) (omega (arith, less)) (λ x r2 g. omega (arith, g, less)))
]

module _ (p : Parser) (n : ℕ) (h : Consumes n p) where
  arguments_from-Ends :
      (k : ℕ) (s : Text) → length s < k → length s < n → Ends (length s) (arguments_from p k s)
  unfolding Ends arguments_from
  arguments_from-Ends zero s l m = elim l [ ]
  arguments_from-Ends (suc k) s l m = elim (Bool-cases (is_closed b')' s)) [
    | inl e ↦ rw (e, arguments_from, Ends) (omega arith)
    | inr e ↦
        rw (e, arguments_from)
          (Ends-bind (p s) _ (h s m) (omega arith) (λ a r shorter.
            elim (Option-cases (after_comma r)) [
              | inl c ↦ rw (c, Ends) shorter
              | inr (r1, c) ↦
                  let less = length-after_comma r (length s) shorter c in
                  rw c (
                    Ends-bind (arguments_from p k r1) _
                      (arguments_from-Ends k r1 (omega (arith, l, less)) (omega (arith, m, less)))
                      (omega (arith, less)) (λ es r2 g. omega (arith, g, less)))
            ]))
  ]

  pub parse_argument_list-Ends :
      (s : Text) → length s < n → Ends (length s) (parse_argument_list p s)
  unfolding parse_argument_list
  parse_argument_list-Ends s m =
      let less = length-skip_from false s in
      closing-Ends b')' (length s)
        (arguments_from p (suc (length (skip_whitespace s))) (skip_whitespace s))
        (Ends-weaken _ less (
          arguments_from-Ends (suc (length (skip_whitespace s))) (skip_whitespace s) (omega arith)
            (omega (arith, m, less))))

  fields_from-Ends :
      (k : ℕ) (s : Text) → length s < k → length s < n → Ends (length s) (fields_from p k s)
  unfolding Ends fields_from
  fields_from-Ends zero s l m = elim l [ ]
  fields_from-Ends (suc k) s l m = elim (Bool-cases (is_closed b'}' s)) [
    | inl e ↦ rw (e, fields_from, Ends) (omega arith)
    | inr e ↦ elim (Option-cases (identifier s)) [
      | inl i ↦ rw (e, i, fields_from, Ends) (omega arith)
      | inr (t, i) ↦
          let name = length-identifier s i in
          rw (e, i, fields_from)
            (Ends-bind {j = length t.1} (expect b':' t.1) _ (expect-Ends b':' t.1 (omega arith))
              (omega (arith, name))
              (λ _ r colon.
                Ends-bind (p r) _ (h r (omega (arith, m, name, colon))) (omega (arith, name, colon))
                  (λ a r1 value. elim (Option-cases (after_comma r1)) [
                    | inl c ↦ rw (c, Ends) (omega (arith, name, colon, value))
                    | inr (r2, c) ↦
                        let less =
                          length-after_comma r1 (length s) (omega (arith, name, colon, value)) c in
                        rw c (
                          Ends-bind (fields_from p k r2) _
                            (fields_from-Ends k r2 (omega (arith, l, less))
                              (omega (arith, m, less)))
                            (omega (arith, less)) (λ es r3 g. omega (arith, g, less)))
                  ])))
    ]
  ]

  pub parse_fields-Ends : (s : Text) → length s < n → Ends (length s) (parse_fields p s)
  unfolding parse_fields
  parse_fields-Ends s m =
      let less = length-skip_from false s in
      closing-Ends b'}' (length s)
        (fields_from p (suc (length (skip_whitespace s))) (skip_whitespace s))
        (Ends-weaken _ less (
          fields_from-Ends (suc (length (skip_whitespace s))) (skip_whitespace s) (omega arith)
            (omega (arith, m, less))))

  items_from-Ends :
      (k : ℕ) (d : Bool) (s : Text)
      → length s < k
      → length s < n
      → Ends (length s) (items_from p k d s)
  unfolding Ends items_from
  items_from-Ends zero d s l m = elim l [ ]
  items_from-Ends (suc k) d s l m = elim (Bool-cases (is_closed b']' s)) [
    | inl e ↦ rw (e, items_from, Ends) (omega arith)
    | inr e ↦
        rw (e, items_from)
          (Ends-bind (p s) _ (h s m) (omega arith) (λ a r shorter.
            elim (Bool-cases (d || at_byte b':' (skip_whitespace r))) [
              | inl c ↦ rw c (
                  Ends-bind (expect b':' r >>= λ _ r1. p r1) _
                    (Ends-bind {j = length r} (expect b':' r) _ (expect-Ends b':' r (omega arith))
                      (omega arith)
                      (λ _ r1 colon.
                        Ends-weaken (p r1) colon (h r1 (omega (arith, colon, shorter, m)))))
                    shorter
                    (λ v r1 value.
                      go_on-Ends (length s) true r1 _ (with_entry a v)
                        (omega (arith, value, shorter))
                        (λ t less.
                          items_from-Ends k true t (omega (arith, less, l))
                            (omega (arith, less, m)))))
              | inr c ↦ rw c (
                  go_on-Ends (length s) false r _ (with_elem a) shorter (λ t less.
                    items_from-Ends k false t (omega (arith, less, l)) (omega (arith, less, m))))
            ]))
  ]

  parse_items-Ends : (s : Text) → length s < n → Ends (length s) (parse_items p s)
  unfolding Ends
  parse_items-Ends s m =
      Ends-bind (items_from p (suc (length s)) false s) _
        (items_from-Ends (suc (length s)) false s (omega arith) m) (omega arith)
        (λ c r l. Ends-bind (expect b']' r) _ (expect-Ends b']' r l) (omega arith) (λ _ r1 g. g))

  pub parse_array_or_dict-Ends :
      (s : Text) → length s < n → Ends (length s) (parse_array_or_dict p s)
  unfolding Ends parse_array_or_dict
  parse_array_or_dict-Ends s m =
      let less = length-skip_from false s in
      elim (Option-cases (after_byte b':' (skip_whitespace s))) [
        | inr (r, e) ↦
            let l = length-after_byte b':' (skip_whitespace s) e in
            rw (e, parse_array_or_dict)
              (Ends-bind {j = length r} (expect b']' r) _ (expect-Ends b']' r (omega arith))
                (omega (arith, l, less)) (λ _ r1 g. omega (arith, g, l, less)))
        | inl e ↦ elim (Option-cases (after_byte b']' (skip_whitespace s))) [
          | inr (r, c) ↦
              rw (e, c, parse_array_or_dict, Ends)
                (omega (arith, less, length-after_byte b']' (skip_whitespace s) c))
          | inl c ↦
              rw (e, c, parse_array_or_dict)
                (Ends-weaken (parse_items p (skip_whitespace s)) less
                  (parse_items-Ends (skip_whitespace s) (omega (arith, less, m))))
        ]
      ]
