-- ===== src/Syntax.antt =====
-- The syntax tree of expressions (include/compiler/ast/ast.h) and what the functions of
-- src/compiler/ast/ast_expr_parser.c return. Source locations, type tags and the analyses' pointers of
-- a node are left out, and `malloc` is taken to succeed.
pub mod Lexing
pub mod Literals
pub mod Sequences
pub mod Expressions
pub mod Source
pub mod TypeNames
pub mod Ending
pub mod Grammar
use bread_lang.Prelude.{ℕ, Bool, Option, Text}
use bread_lang.Prelude.Int.{ℤ}

-- `struct ASTExpr`, with the kinds that the parser makes. An operator is the byte that the node holds.
-- `null` is the null pointer, which the parser can store as a target. The elements of an array, the
-- entries of a dictionary and the fields of a structure are lists, the count being their length.
mutual
  pub data Expr : Type 0 where
    null : Expr
    nil : Expr
    bool : Bool → Expr
    int : ℤ → Expr
    double : ℕ → Expr
    var : Text → Expr
    self : Expr
    super : Expr
    binary : ℕ → Expr → Expr → Expr
    unary : ℕ → Expr → Expr
    call : Text → Exprs → Expr
    dict : Entries → Expr
    index : Expr → Expr → Expr
    member : Expr → Text → Bool → Expr
    method_call : Expr → Text → Exprs → Bool → Expr
    string_literal : Text → Expr
    array_literal : Exprs → Expr
    struct_literal : Text → FieldValues → Expr

  pub data Exprs : Type 0 where
    no_exprs : Exprs
    more_exprs : Expr → Exprs → Exprs

  -- `ASTDictEntry`, a key and a value.
  pub data Entries : Type 0 where
    no_entries : Entries
    more_entries : Expr → Expr → Entries → Entries

  pub data FieldValues : Type 0 where
    no_fields : FieldValues
    more_fields : Text → Expr → FieldValues → FieldValues

-- What a parser returns, with the text that is left at the cursor: a node, or the null pointer. The
-- model's own `stuck` says that the fuel of a loop or of the nesting has run out.
pub data Parsed {ℓ} (A : Type ℓ) : Type ℓ where
  ok : A → Text → Parsed A
  failed : Text → Parsed A
  stuck : Parsed A

infixl 5 ◌>>=◌
abbrev pub ◌>>=◌ {ℓ κ} : {A : Type ℓ} {B : Type κ} → Parsed A → (A → Text → Parsed B) → Parsed B
ok a s >>= f = f a s
failed s >>= f = failed s
stuck >>= f = stuck

-- A parser of the whole expressions, which the other functions call.
abbrev pub Parser : Type 0
Parser = Text → Parsed Expr

-- `atoi` and `strtod`, which the program takes from the C library. A double is its 64 bits.
pub record Libc : Type 0 where
  pub atoi : Text → ℤ
  pub strtod : Text → ℕ
