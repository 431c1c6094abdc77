-- ===== src/Scopes.antt =====
-- Variables and scopes (src/core/var.c): a stack of scopes, the innermost first, each a list of its
-- variables in the order of their declaration. A variable's type is that of its value. Names are C
-- strings; a pointer to a variable is modelled by the variable that it shows and by a write to the
-- first variable that the search finds. What `malloc` answers is a parameter: `granted` for a name,
-- and the address of a new object, or `none`.
pub mod Coercion
pub mod Assigning
pub mod Commands
pub mod Naming
pub mod Writing
pub mod Validity
pub mod Declaring
pub mod Retyping
pub mod Keeping
pub mod Lines
pub mod Sessions
pub mod Retaining
pub mod Nesting
use bread_lang.Prelude.{
  ℕ, zero, suc, ◌+◌, ◌-◌, Bool, true, false, not, ◌&&◌, ◌||◌, Option, none, some, List, [], ◌∷◌,
  ◌++◌, ltb, leb, ◌==◌, if◌then◌else◌, length, Text, text_eq,
}
use bread_lang.Prelude.Int.{ℤ, pos, negsuc}
use bread_lang.Values.{
  Value, string, Str, Call, clone_calls, release_calls, Failure, runtime, Outcome,
}

abbrev pub max_vars : ℕ
max_vars = 256

abbrev pub max_scopes : ℕ
max_scopes = 64

abbrev pub max_name : ℕ
max_name = 255

-- `Variable`
pub record Variable : Type 0 where
  pub name : Text
  pub value : Value
  pub is_const : Bool

-- `VarScope`, and the scopes below `scope_depth`
abbrev pub Scope : Type 0
Scope = List Variable

abbrev pub Scopes : Type 0
Scopes = List Scope

-- A call that fails, or succeeds, without reference counting calls.
abbrev pub refused : Scopes → Option Failure → Outcome Scopes Bool
refused s e = record { result = false; state = s; calls = []; failure = e }

-- `init_variables`
abbrev pub init_variables : Scopes → Scopes
init_variables s = [] ∷ []

-- `push_scope`; the result says whether there was an error
unfoldable pub push_scope : Scopes → Outcome Scopes Bool
push_scope s =
    if leb max_scopes (length s)
    then refused s (some runtime)
    else record { result = true; state = [] ∷ s; calls = []; failure = none }

-- `release_variable` on the variables of a scope
unfoldable pub release_scope : Scope → List Call
release_scope [] = []
release_scope (v ∷ vs) = release_calls v.value ++ release_scope vs

-- `pop_scope`
unfoldable pub pop_scope : Scopes → Outcome Scopes Bool
unfolding release_scope
pop_scope [] = refused [] (some runtime)
pop_scope (s ∷ []) = refused (s ∷ []) (some runtime)
pop_scope (s ∷ t ∷ ss) = record {
  result = true;
  state = t ∷ ss;
  calls = release_scope s;
  failure = none;
}

-- `can_pop_scope`
unfoldable pub can_pop_scope : Scopes → Bool
can_pop_scope s = ltb 1 (length s)

-- The loop of `pop_to_scope_depth`, in so many rounds
unfoldable pub pop_scopes : ℕ → Scopes → Scopes × List Call
unfolding pop_scope
pop_scopes zero s = (s, [])
pop_scopes (suc n) s =
    let (last, calls) = pop_scopes n (pop_scope s).state in (last, (pop_scope s).calls ++ calls)

-- `pop_to_scope_depth`
unfoldable pub pop_to_scope_depth : ℤ → Scopes → Outcome Scopes Bool
unfolding pop_scopes
pop_to_scope_depth (negsuc d) s = refused s (some runtime)
pop_to_scope_depth (pos d) s =
    if d == 0 || ltb (length s) d then refused s (some runtime) else record {
      result = true;
      state = (pop_scopes (length s - d) s).0;
      calls = (pop_scopes (length s - d) s).1;
      failure = none;
    }

-- The comparison of a variable's name, which reads 255 bytes of it at most.
unfoldable pub has_name : Text → Variable → Bool
has_name n v = ltb (length v.name) max_name && text_eq v.name n

-- The inner and the outer loop of `get_variable`
unfoldable pub find_in : Scope → Text → Option Variable
unfolding has_name
find_in [] n = none
find_in (v ∷ vs) n = let rest = find_in vs n in if has_name n v then some v else rest

abbrev pub or_else : Option Variable → Option Variable → Option Variable
or_else none b = b
or_else (some a) b = some a

unfoldable pub find_out : Scopes → Text → Option Variable
unfolding find_in
find_out [] n = none
find_out (s ∷ ss) n = or_else (find_in s n) (find_out ss n)

-- `get_variable`
unfoldable pub get_variable : Scopes → Option Text → Option Variable
unfolding find_out
get_variable s none = none
get_variable s (some n) = if length n == 0 || leb max_name (length n) then none else find_out s n

-- A write to the variable that `get_variable` found.
unfoldable pub write_in : Scope → Text → Variable → Scope
unfolding has_name
write_in [] n w = []
write_in (v ∷ vs) n w = let rest = write_in vs n w in if has_name n v then w ∷ vs else v ∷ rest

abbrev pub is_there : Option Variable → Bool
is_there none = false
is_there (some v) = true

unfoldable pub write_out : Scopes → Text → Variable → Scopes
unfolding write_in find_in
write_out [] n w = []
write_out (s ∷ ss) n w =
    let rest = write_out ss n w in if is_there (find_in s n) then write_in s n w ∷ ss else s ∷ rest

-- `retain_value_by_type`, where a string that is NULL becomes a new empty one.
unfoldable pub retained : Option ℕ → Value → Option (Value × List Call)
retained fresh (string none) = elim fresh [
  | none ↦ none
  | some a ↦ some (string (some (record { address = a; chars = [] })), [])
]
retained fresh v = some (v, clone_calls v)

-- The variable that is added, if it is retained.
unfoldable pub added :
    Scope → Scopes → Text → Bool → Option (Value × List Call) → Outcome Scopes Bool
added s ss n is_const none = refused (s ∷ ss) none
added s ss n is_const (some (v, calls)) = record {
  result = true;
  state = (s ++ record { name = n; value = v; is_const = is_const } ∷ []) ∷ ss;
  calls = calls;
  failure = none;
}

-- `declare_variable_raw`
unfoldable pub declare_in :
    Bool → Option ℕ → Scope → Scopes → Text → Value → Bool → Outcome Scopes Bool
unfolding find_in retained added
declare_in granted fresh s ss n v is_const =
    if is_there (find_in s n)
    then refused (s ∷ ss) (some runtime)
    else if leb max_vars (length s)
    then refused (s ∷ ss) (some runtime)
    else if leb max_name (length n)
    then refused (s ∷ ss) (some runtime)
    else if not granted
    then refused (s ∷ ss) none
    else added s ss n is_const (retained fresh v)

unfoldable pub declare_variable_raw :
    Bool → Option ℕ → Scopes → Option Text → Value → Bool → Outcome Scopes Bool
unfolding declare_in
declare_variable_raw granted fresh [] n v is_const = refused [] (some runtime)
declare_variable_raw granted fresh (s ∷ ss) none v is_const = refused (s ∷ ss) (some runtime)
declare_variable_raw granted fresh (s ∷ ss) (some n) v is_const =
    declare_in granted fresh s ss n v is_const

-- `cleanup_variables`
unfoldable pub cleanup_variables : Scopes → Scopes × List Call
unfolding release_scope
cleanup_variables [] = ([], [])
cleanup_variables (s ∷ ss) =
    let (last, calls) = cleanup_variables ss in (last, release_scope s ++ calls)
