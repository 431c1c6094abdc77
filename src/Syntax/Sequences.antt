-- ===== src/Syntax/Sequences.antt =====
-- The lists between brackets: `parse_argument_list`, the fields of a literal in
-- `parse_identifier_expr`, and `parse_array_or_dict` of src/compiler/ast/ast_expr_parser.c.
use bread_lang.Prelude.{
  ℕ, zero, suc, Bool, true, false, ◌||◌, Option, none, some, [], ◌∷◌, ◌==◌, if◌then◌else◌, length,
  Text,
}
use bread_lang.Syntax.{
  Expr, dict, array_literal, Exprs, no_exprs, more_exprs, Entries, no_entries, more_entries,
  FieldValues, no_fields, more_fields, Parsed, ok, failed, stuck, ◌>>=◌, Parser,
}
use bread_lang.Syntax.Lexing.{skip_whitespace, at_byte, after_byte, expect, identifier}

-- The test of the three loops, `**expr && **expr != close`.
abbrev pub is_closed : ℕ → Text → Bool
is_closed close [] = true
is_closed close (c ∷ cs) = c == close

-- After an element: whether a comma lets the loop go on, and the text after it.
abbrev pub after_comma : Text → Option Text
after_comma s = elim (after_byte b',' (skip_whitespace s)) [
  | none ↦ none
  | some r ↦ some (skip_whitespace r)
]

-- The loop of `parse_argument_list`.
unfoldable pub arguments_from : Parser → ℕ → Text → Parsed Exprs
unfolding after_byte
arguments_from expression zero s = stuck
arguments_from expression (suc k) s = elim (is_closed b')' s) [
  | true ↦ ok no_exprs s
  | false ↦ expression s >>= λ e r. elim (after_comma r) [
    | none ↦ ok (more_exprs e no_exprs) r
    | some r1 ↦ arguments_from expression k r1 >>= λ es r2. ok (more_exprs e es) r2
  ]
]

-- `parse_argument_list`, after the opening parenthesis.
unfoldable pub parse_argument_list : Parser → Text → Parsed Exprs
unfolding arguments_from
parse_argument_list expression s =
    let t = skip_whitespace s in
    arguments_from expression (suc (length t)) t >>= λ es r. expect b')' r >>= λ _ r1. ok es r1

-- The loop over the fields of a literal.
unfoldable pub fields_from : Parser → ℕ → Text → Parsed FieldValues
unfolding identifier after_byte
fields_from expression zero s = stuck
fields_from expression (suc k) s = elim (is_closed b'}' s) [
  | true ↦ ok no_fields s
  | false ↦ elim (identifier s) [
    | none ↦ failed s
    | some taken ↦ expect b':' taken.1 >>= λ _ r. expression r >>= λ e r1. elim (after_comma r1) [
      | none ↦ ok (more_fields taken.0 e no_fields) r1
      | some r2 ↦ fields_from expression k r2 >>= λ fs r3. ok (more_fields taken.0 e fs) r3
    ]
  ]
]

-- The fields of a literal, after the opening brace.
unfoldable pub parse_fields : Parser → Text → Parsed FieldValues
unfolding fields_from
parse_fields expression s =
    let t = skip_whitespace s in
    fields_from expression (suc (length t)) t >>= λ fs r. expect b'}' r >>= λ _ r1. ok fs r1

-- What the loop of `parse_array_or_dict` collects.
pub record Collected : Type 0 where
  pub is_dict : Bool
  pub elems : Exprs
  pub entries : Entries

abbrev pub nothing_more : Bool → Collected
nothing_more is_dict = record { is_dict = is_dict; elems = no_exprs; entries = no_entries }

abbrev pub with_elem : Expr → Collected → Collected
with_elem e c = record c { elems = more_exprs e c.elems }

abbrev pub with_entry : Expr → Expr → Collected → Collected
with_entry key value c = record c { entries = more_entries key value c.entries }

-- A value after its key, when the literal is a dictionary.
abbrev pub parse_value : Parser → Text → Parsed Expr
parse_value expression s = expect b':' s >>= λ _ r. expression r

abbrev pub go_on : Option Text → Bool → Text → (Text → Parsed Collected) → Parsed Collected
go_on none is_dict r more = ok (nothing_more is_dict) r
go_on (some r1) is_dict r more = more r1

-- The loop of `parse_array_or_dict`. The first colon makes the literal a dictionary.
unfoldable pub items_from : Parser → ℕ → Bool → Text → Parsed Collected
unfolding after_byte
items_from expression zero is_dict s = stuck
items_from expression (suc k) is_dict s = elim (is_closed b']' s) [
  | true ↦ ok (nothing_more is_dict) s
  | false ↦ expression s >>= λ e r. elim (is_dict || at_byte b':' (skip_whitespace r)) [
    | true ↦ parse_value expression r >>= λ v r1.
        go_on (after_comma r1) true r1 (items_from expression k true) >>= λ c r2.
        ok (with_entry e v c) r2
    | false ↦ go_on (after_comma r) false r (items_from expression k false) >>= λ c r1.
        ok (with_elem e c) r1
  ]
]

-- The node: the elements before the first entry are freed.
abbrev pub collected : Collected → Expr
collected c = if c.is_dict then dict c.entries else array_literal c.elems

-- What stands after the opening bracket: an empty dictionary, an empty array, or items.
abbrev pub parse_items : Parser → Text → Parsed Expr
parse_items expression t = items_from expression (suc (length t)) false t >>= λ c r.
    expect b']' r >>= λ _ r1. ok (collected c) r1

-- `parse_array_or_dict`, after the opening bracket.
unfoldable pub parse_array_or_dict : Parser → Text → Parsed Expr
unfolding items_from after_byte
parse_array_or_dict expression s = elim (after_byte b':' (skip_whitespace s)) [
  | some r ↦ expect b']' r >>= λ _ r1. ok (dict no_entries) r1
  | none ↦ elim (after_byte b']' (skip_whitespace s)) [
    | some r ↦ ok (array_literal no_exprs) r
    | none ↦ parse_items expression (skip_whitespace s)
  ]
]
