-- ===== src/Syntax/Grammar/Terms.antt =====
-- The texts of the operands, with their nodes: constants, numbers, names, strings, brackets, calls,
-- indices and members, nested to any depth. A blank stands before each expression in brackets.
pub mod Firsts
pub mod Names
pub mod Strings
pub mod Lists
pub mod Arrays
pub mod Fields
pub mod Growing
pub mod Tails
pub mod Atoms
pub mod Reading
use bread_lang.Prelude.{
  ℕ, suc, ◌≤◌, ◌<◌, Bool, true, false, not, ◌&&◌, ◌||◌, if◌then◌else◌, ◌==◌, ◌≡◌, [], ◌∷◌, ◌++◌,
  Text, text_eq, bytes, length,
}
use bread_lang.Syntax.{
  Expr, nil, bool, int, double, var, self, super, binary, unary, call, dict, index, member,
  method_call, string_literal, array_literal, struct_literal, Exprs, no_exprs, more_exprs, Entries,
  no_entries, more_entries, FieldValues, no_fields, more_fields, Libc,
}
use bread_lang.Syntax.Lexing.{is_digit, is_ident_start, is_ident_char, at_byte}
use bread_lang.Syntax.Literals.{max_token_len}
use bread_lang.Syntax.Grammar.{Operator, sign, operator_byte}

mutual
  pub data Term : Type 0 where
    term : Atom → Suffixes → Term

  pub data Atom : Type 0 where
    nil_word self_word super_word : Atom
    bool_word : Bool → Atom
    whole : Text → Atom
    decimal : Text → Text → Atom
    name : Text → Atom
    quoted : Text → Atom
    group : Term → Operator → Term → Atom
    prefixed : Bool → Term → Atom
    array_of : Terms → Atom
    dict_of : Pairs → Atom
    call_of : Text → Terms → Atom
    literal_of : Text → Members → Atom

  pub data Suffixes : Type 0 where
    no_suffixes : Suffixes
    index_suffix : Term → Suffixes → Suffixes
    member_suffix : Bool → Text → Suffixes → Suffixes
    method_suffix : Bool → Text → Terms → Suffixes → Suffixes

  pub data Terms : Type 0 where
    no_terms : Terms
    more_terms : Term → Terms → Terms

  pub data Pairs : Type 0 where
    no_pairs : Pairs
    more_pairs : Term → Term → Pairs → Pairs

  pub data Members : Type 0 where
    no_members : Members
    more_members : Text → Term → Members → Members

-- A quote and a backslash are escaped.
unfoldable pub put_string : Text → Text → Text
put_string [] s = b'"' ∷ s
put_string (c ∷ cs) s =
    if c == b'"' || c == b'\\' then b'\\' ∷ c ∷ put_string cs s else c ∷ put_string cs s

abbrev pub dot : Bool → Text → Text
dot true s = b'?' ∷ b'.' ∷ s
dot false s = b'.' ∷ s

abbrev pub prefix : Bool → ℕ
prefix true = b'!'
prefix false = b'-'

-- A separator stands before each element but the first.
unfoldable mutual
  unfolding sign put_string

  pub put : Term → Text → Text
  put (term a x) s = put_atom a (put_suffixes x s)

  pub put_atom : Atom → Text → Text
  put_atom nil_word s = bytes "nil" ++ s
  put_atom self_word s = bytes "self" ++ s
  put_atom super_word s = bytes "super" ++ s
  put_atom (bool_word true) s = bytes "true" ++ s
  put_atom (bool_word false) s = bytes "false" ++ s
  put_atom (whole a) s = a ++ s
  put_atom (decimal a b) s = a ++ (b'.' ∷ (b ++ s))
  put_atom (name x) s = x ++ s
  put_atom (quoted x) s = b'"' ∷ put_string x s
  put_atom (group l o r) s = b'(' ∷ 32 ∷ put l (32 ∷ sign o (32 ∷ put r (b')' ∷ s)))
  put_atom (prefixed b t) s = b'(' ∷ 32 ∷ prefix b ∷ 32 ∷ put t (b')' ∷ s)
  put_atom (array_of ts) s = b'[' ∷ put_terms ts (b']' ∷ s)
  put_atom (dict_of no_pairs) s = b'[' ∷ b':' ∷ b']' ∷ s
  put_atom (dict_of (more_pairs k v ps)) s =
      b'[' ∷ 32 ∷ put k (b':' ∷ 32 ∷ put v (put_more_pairs ps (b']' ∷ s)))
  put_atom (call_of x ts) s = x ++ b'(' ∷ put_terms ts (b')' ∷ s)
  put_atom (literal_of x ms) s = x ++ b'{' ∷ put_members ms (b'}' ∷ s)

  pub put_suffixes : Suffixes → Text → Text
  put_suffixes no_suffixes s = s
  put_suffixes (index_suffix t x) s = b'[' ∷ 32 ∷ put t (b']' ∷ put_suffixes x s)
  put_suffixes (member_suffix b n x) s = dot b (n ++ put_suffixes x s)
  put_suffixes (method_suffix b n ts x) s =
      dot b (n ++ b'(' ∷ put_terms ts (b')' ∷ put_suffixes x s))

  pub put_terms : Terms → Text → Text
  put_terms no_terms s = s
  put_terms (more_terms t ts) s = 32 ∷ put t (put_more ts s)

  pub put_more : Terms → Text → Text
  put_more no_terms s = s
  put_more (more_terms t ts) s = b',' ∷ 32 ∷ put t (put_more ts s)

  pub put_more_pairs : Pairs → Text → Text
  put_more_pairs no_pairs s = s
  put_more_pairs (more_pairs k v ps) s = b',' ∷ 32 ∷ put k (b':' ∷ 32 ∷ put v (put_more_pairs ps s))

  pub put_members : Members → Text → Text
  put_members no_members s = s
  put_members (more_members n t ms) s = n ++ b':' ∷ 32 ∷ put t (put_more_members ms s)

  pub put_more_members : Members → Text → Text
  put_more_members no_members s = s
  put_more_members (more_members n t ms) s = b',' ∷ n ++ b':' ∷ 32 ∷ put t (put_more_members ms s)

-- The node of a term.
unfoldable mutual
  unfolding operator_byte

  pub tree : Libc → Term → Expr
  tree c (term a x) = suffixed c x (atom_tree c a)

  pub atom_tree : Libc → Atom → Expr
  atom_tree c nil_word = nil
  atom_tree c self_word = self
  atom_tree c super_word = super
  atom_tree c (bool_word b) = bool b
  atom_tree c (whole a) = int (c.atoi a)
  atom_tree c (decimal a b) = double (c.strtod (a ++ b'.' ∷ b))
  atom_tree c (name x) = var x
  atom_tree c (quoted x) = string_literal x
  atom_tree c (group l o r) = binary (operator_byte o) (tree c l) (tree c r)
  atom_tree c (prefixed b t) = unary (prefix b) (tree c t)
  atom_tree c (array_of ts) = array_literal (trees c ts)
  atom_tree c (dict_of ps) = dict (entries_of c ps)
  atom_tree c (call_of x ts) = call x (trees c ts)
  atom_tree c (literal_of x ms) = struct_literal x (fields_of c ms)

  pub suffixed : Libc → Suffixes → Expr → Expr
  suffixed c no_suffixes e = e
  suffixed c (index_suffix t x) e = suffixed c x (index e (tree c t))
  suffixed c (member_suffix b n x) e = suffixed c x (member e n b)
  suffixed c (method_suffix b n ts x) e = suffixed c x (method_call e n (trees c ts) b)

  pub trees : Libc → Terms → Exprs
  trees c no_terms = no_exprs
  trees c (more_terms t ts) = more_exprs (tree c t) (trees c ts)

  pub entries_of : Libc → Pairs → Entries
  entries_of c no_pairs = no_entries
  entries_of c (more_pairs k v ps) = more_entries (tree c k) (tree c v) (entries_of c ps)

  pub fields_of : Libc → Members → FieldValues
  fields_of c no_members = no_fields
  fields_of c (more_members n t ms) = more_fields n (tree c t) (fields_of c ms)

unfoldable pub all_bytes : (ℕ → Bool) → Text → Bool
all_bytes p [] = true
all_bytes p (c ∷ cs) = p c && all_bytes p cs

unfoldable pub is_name : Text → Bool
unfolding is_ident_start is_ident_char all_bytes
is_name [] = false
is_name (c ∷ cs) = is_ident_start c && all_bytes is_ident_char cs

abbrev pub is_keyword : Text → Bool
is_keyword x = text_eq (bytes "nil") x || text_eq (bytes "true") x || text_eq (bytes "false") x

abbrev pub is_object_word : Text → Bool
is_object_word x = text_eq x (bytes "self") || text_eq x (bytes "super")

-- A name of a variable, a function or a structure.
abbrev pub IsFree : Text → Type 0
IsFree x = (is_name x ≡ true) × (is_keyword x ≡ false) × (is_object_word x ≡ false)

abbrev pub IsWhole : Text → Type 0
IsWhole a = (all_bytes is_digit a ≡ true) × (0 < length a)

-- A number without a dot would take one that follows.
abbrev pub no_dot : Suffixes → Bool
no_dot (member_suffix false n x) = false
no_dot (method_suffix false n ts x) = false
no_dot _ = true

abbrev pub Fits : Atom → Suffixes → Type 0
Fits (whole a) x = no_dot x ≡ true
Fits _ x = Unit

-- The names are names, and a number has at most 1023 bytes.
unfoldable mutual
  unfolding is_name all_bytes

  pub Good : Term → Type 0
  Good (term a x) = GoodAtom a × Fits a x × GoodSuffixes x

  pub GoodAtom : Atom → Type 0
  GoodAtom (whole a) = IsWhole a × (length a < max_token_len)
  GoodAtom (decimal a b) =
      IsWhole a × (all_bytes is_digit b ≡ true) × (length (a ++ b'.' ∷ b) < max_token_len)
  GoodAtom (name x) = IsFree x
  GoodAtom (group l o r) = Good l × Good r
  GoodAtom (prefixed b t) = Good t
  GoodAtom (array_of ts) = GoodTerms ts
  GoodAtom (dict_of ps) = GoodPairs ps
  GoodAtom (call_of x ts) = IsFree x × GoodTerms ts
  GoodAtom (literal_of x ms) = IsFree x × GoodMembers ms
  GoodAtom _ = Unit

  pub GoodSuffixes : Suffixes → Type 0
  GoodSuffixes no_suffixes = Unit
  GoodSuffixes (index_suffix t x) = Good t × GoodSuffixes x
  GoodSuffixes (member_suffix b n x) = (is_name n ≡ true) × GoodSuffixes x
  GoodSuffixes (method_suffix b n ts x) = (is_name n ≡ true) × GoodTerms ts × GoodSuffixes x

  pub GoodTerms : Terms → Type 0
  GoodTerms no_terms = Unit
  GoodTerms (more_terms t ts) = Good t × GoodTerms ts

  pub GoodPairs : Pairs → Type 0
  GoodPairs no_pairs = Unit
  GoodPairs (more_pairs k v ps) = Good k × Good v × GoodPairs ps

  pub GoodMembers : Members → Type 0
  GoodMembers no_members = Unit
  GoodMembers (more_members n t ms) = (is_name n ≡ true) × Good t × GoodMembers ms
