-- ===== src/Syntax/TypeNames.antt =====
-- Types as texts: `parse_type_descriptor` (src/compiler/ast/ast_types.c) and
-- `type_descriptor_to_string` (src/core/type_descriptor.c). The characters are bytes of the C locale.
pub mod Reading
pub mod RoundTrip
pub mod Ending
use bread_lang.Prelude.{
  ℕ, zero, suc, ◌-◌, Bool, true, false, not, ◌&&◌, ◌||◌, ◌==◌, leb, if◌then◌else◌, Option, none,
  some, [], ◌∷◌, ◌++◌, Text, text_eq, bytes, length, take,
}
use bread_lang.Types.{
  VarType, t_string, t_int, t_bool, t_float, t_double, t_array, t_dict, t_optional, t_struct,
  t_class, t_nil, string, int, bool, float, double, nil, TypeDescriptor, primitive, array, dict,
  optional, struct_type, class_type, end, create_primitive, create_array, create_dict,
  create_optional, create_struct,
}
use bread_lang.Syntax.{Parsed, ok, failed, stuck, ◌>>=◌}
use bread_lang.Syntax.Lexing.{is_whitespace, after_byte, identifier}
use bread_lang.Syntax.Literals.{max_token_len}

-- `skip_whitespace` of this file, which knows no comments.
unfoldable pub skip_blanks : Text → Text
skip_blanks [] = []
skip_blanks (c ∷ cs) = let rest = skip_blanks cs in if is_whitespace c then rest else c ∷ cs

unfoldable pub type_name_to_vartype : Text → VarType
type_name_to_vartype name =
    if text_eq name (bytes "Int")
    then t_int
    else if text_eq name (bytes "String")
    then t_string
    else if text_eq name (bytes "Bool")
    then t_bool
    else if text_eq name (bytes "Float")
    then t_float
    else if text_eq name (bytes "Double")
    then t_double
    else t_nil

abbrev pub is_t_nil : VarType → Bool
is_t_nil t_nil = true
is_t_nil _ = false

-- The type of a name: a primitive, or a structure of that name without fields.
unfoldable pub type_of_name : Text → Option TypeDescriptor
unfolding type_name_to_vartype create_primitive create_struct
type_of_name name =
    if is_t_nil (type_name_to_vartype name) && not (text_eq name (bytes "Nil"))
    then create_struct some (some name) end
    else create_primitive (type_name_to_vartype name)

-- What a constructor gives, or the null pointer.
abbrev pub created_type : Option TypeDescriptor → Text → Parsed TypeDescriptor
created_type none s = failed s
created_type (some t) s = ok t s

-- The closing bracket of an array or a dictionary.
abbrev pub close_bracket : Option TypeDescriptor → Text → Parsed TypeDescriptor
close_bracket out s = elim (after_byte b']' (skip_blanks s)) [
  | none ↦ failed (skip_blanks s)
  | some r ↦ created_type out r
]

-- After the opening bracket, with the parser of the inner types.
unfoldable pub parse_brackets : (Text → Parsed TypeDescriptor) → Text → Parsed TypeDescriptor
unfolding skip_blanks after_byte create_array create_dict
parse_brackets inner s = inner s >>= λ first r. elim (after_byte b':' (skip_blanks r)) [
  | none ↦ close_bracket (create_array (some first)) r
  | some r1 ↦ inner r1 >>= λ second r2. close_bracket (create_dict (some first) (some second)) r2
]

-- A name of at most 1023 bytes.
unfoldable pub parse_named : Text → Parsed TypeDescriptor
unfolding identifier type_of_name
parse_named s = elim (identifier s) [
  | none ↦ failed s
  | some taken ↦
      if leb max_token_len (length taken.0)
      then failed taken.1
      else created_type (type_of_name taken.0) taken.1
]

-- One question mark makes the type optional.
unfoldable pub mark_optional : TypeDescriptor → Text → Parsed TypeDescriptor
unfolding skip_blanks after_byte create_optional
mark_optional out s = elim (after_byte b'?' (skip_blanks s)) [
  | none ↦ ok out (skip_blanks s)
  | some r ↦ created_type (create_optional (some out)) r
]

abbrev pub parse_base : (Text → Parsed TypeDescriptor) → Text → Parsed TypeDescriptor
parse_base inner s = elim (after_byte b'[' s) [
  | none ↦ parse_named s
  | some r ↦ parse_brackets inner r
]

-- `parse_type_descriptor`, with fuel for the nesting.
unfoldable pub parse_type_descriptor : ℕ → Text → Parsed TypeDescriptor
unfolding parse_brackets parse_named mark_optional skip_blanks after_byte
parse_type_descriptor zero s = stuck
parse_type_descriptor (suc n) s =
    parse_base (parse_type_descriptor n) (skip_blanks s) >>= λ out r. mark_optional out r

-- `snprintf` into a buffer of a size.
abbrev pub clip : ℕ → Text → Text
clip size s = take (size - 1) s

-- `type_descriptor_to_string` into a buffer of a size; the parts have buffers of their own.
unfoldable pub type_descriptor_to_string : ℕ → TypeDescriptor → Text
type_descriptor_to_string size (primitive int) = clip size (bytes "Int")
type_descriptor_to_string size (primitive double) = clip size (bytes "Double")
type_descriptor_to_string size (primitive bool) = clip size (bytes "Bool")
type_descriptor_to_string size (primitive string) = clip size (bytes "String")
type_descriptor_to_string size (primitive nil) = clip size (bytes "nil")
type_descriptor_to_string size (primitive float) = clip size (bytes "Unknown")
type_descriptor_to_string size (array e) =
    clip size (b'[' ∷ (type_descriptor_to_string 256 e ++ bytes "]"))
type_descriptor_to_string size (dict k v) = clip size (
    b'{'
    ∷ (type_descriptor_to_string 128 k ++ (b':' ∷ (type_descriptor_to_string 128 v ++ bytes "}"))))
type_descriptor_to_string size (optional w) =
    clip size (type_descriptor_to_string 256 w ++ bytes "?")
type_descriptor_to_string size (struct_type n fs) = clip size n
type_descriptor_to_string size (class_type n p fs) = clip size n
