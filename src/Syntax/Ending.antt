-- ===== src/Syntax/Ending.antt =====
-- How much of the text the functions of src/compiler/ast/ast_expr_parser.c leave.
pub mod Tokens
pub mod Lists
pub mod Strings
pub mod Starts
pub mod Primaries
pub mod Levels
use bread_lang.Prelude.{ℕ, ◌≤◌, ◌<◌, Text, length, arith}
use bread_lang.Syntax.{Expr, Parsed, ok, failed, stuck, ◌>>=◌, Parser}

-- The parser has not run out of fuel, and leaves at most `k` bytes.
unfoldable pub Ends {ℓ} : {A : Type ℓ} → ℕ → Parsed A → Type 0
Ends k (ok a r) = length r ≤ k
Ends k (failed r) = length r ≤ k
Ends k stuck = ⊥

-- A parser that ends on each text of less than `n` bytes.
abbrev pub Consumes {ℓ} : {A : Type ℓ} → ℕ → (Text → Parsed A) → Type 0
Consumes n p = (s : Text) → length s < n → Ends (length s) (p s)

pub Ends-weaken {ℓ} : {A : Type ℓ} {j k : ℕ} (p : Parsed A) → j ≤ k → Ends j p → Ends k p
unfolding Ends
Ends-weaken (ok a r) h e = omega (arith, h, e)
Ends-weaken (failed r) h e = omega (arith, h, e)
Ends-weaken stuck h e = elim e [ ]

pub Ends-bind {ℓ κ} :
    {A : Type ℓ} {B : Type κ} {j k : ℕ} (p : Parsed A) (f : A → Text → Parsed B)
    → Ends j p
    → j ≤ k
    → ((a : A) (r : Text) → length r ≤ j → Ends k (f a r))
    → Ends k (p >>= f)
unfolding Ends
Ends-bind (ok a r) f e h next = next a r e
Ends-bind (failed r) f e h next = omega (arith, h, e)
Ends-bind stuck f e h next = elim e [ ]
