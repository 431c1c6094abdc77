-- ===== src/Scopes/Declaring.antt =====
-- What a declaration leaves under every name.
use bread_lang.Prelude.{
  ℕ, ◌≡◌, ◌<◌, refl, sym, ap, ◌∙◌, Bool, true, false, not, ◌&&◌, Option, none, some, List, [], ◌∷◌,
  ◌++◌, ltb, leb, ◌==◌, if◌then◌else◌, inl, inr, Bool-cases, Option-cases, length, Text, text_eq,
  text_eq→eq, arith,
}
use bread_lang.Values.{Value, Call, Outcome, runtime}
use bread_lang.Scopes.{
  Variable, Scope, Scopes, max_name, max_vars, has_name, find_in, find_out, or_else, is_there,
  get_variable, retained, refused, added, declare_in, declare_variable_raw,
}
use bread_lang.Scopes.Writing.{unusable, get_variable_step}

pub find_in-concat :
    (s : Scope) (x : Variable) (m : Text)
    → find_in (s ++ x ∷ []) m ≡ or_else (find_in s m) (if has_name m x then some x else none)
unfolding find_in
find_in-concat [] x m = refl
find_in-concat (v ∷ vs) x m = elim (Bool-cases (has_name m v)) [
  | inl hit ↦ rw hit
  | inr miss ↦ rw (miss, find_in-concat vs x m)
]

-- The new variable, under its name.
abbrev pub declared : Text → Value → Bool → Variable
declared n v is_const = record { name = n; value = v; is_const = is_const }

pub has_name-declared :
    (n m : Text) (v : Value) (k : Bool)
    → leb max_name (length n) ≡ false
    → has_name m (declared n v k) ≡ text_eq n m
unfolding has_name
has_name-declared n m v k short = let h : ltb (length n) max_name ≡ true = ground arith in rw h

pub is_there-none : (o : Option Variable) → is_there o ≡ false → o ≡ none
is_there-none none h = refl
is_there-none (some x) h = cc

module _ (s : Scope) (ss : Scopes) (n m : Text) (v : Value) (k : Bool)
    (short : leb max_name (length n) ≡ false) (absent : is_there (find_in s n) ≡ false) where
  find_out-declared :
      find_out ((s ++ declared n v k ∷ []) ∷ ss) m
      ≡ (if text_eq n m then some (declared n v k) else find_out (s ∷ ss) m)
  unfolding find_out
  find_out-declared = elim (Bool-cases (text_eq n m)) [
    | inl e ↦
        let missed : find_in s m ≡ none =
          sym (ap (find_in s) (text_eq→eq n m e)) ∙ is_there-none (find_in s n) absent in
        rw (find_in-concat, has_name-declared n m v k short, e, missed)
    | inr e ↦
        rw (find_in-concat, has_name-declared n m v k short, e)
          (or_else-none (find_in s m) (find_out ss m))
  ]
    where
      or_else-none : (a b : Option Variable) → or_else (or_else a none) b ≡ or_else a b
      or_else-none none b = refl
      or_else-none (some x) b = refl

abbrev pub on_retained : Text → Bool → Option (Value × List Call) → Option Variable
on_retained n k none = none
on_retained n k (some (w, calls)) = some (declared n w k)

declare_in_step :
    (granted : Bool) (fresh : Option ℕ) (s : Scope) (ss : Scopes) (n : Text) (v : Value) (k : Bool)
    → declare_in granted fresh s ss n v k ≡ (
        if is_there (find_in s n)
        then refused (s ∷ ss) (some runtime)
        else if leb max_vars (length s)
        then refused (s ∷ ss) (some runtime)
        else if leb max_name (length n)
        then refused (s ∷ ss) (some runtime)
        else if not granted
        then refused (s ∷ ss) none
        else added s ss n k (retained fresh v))
unfolding declare_in
declare_in_step granted fresh s ss n v k = refl

-- A declaration is refused, and changes nothing, or adds the variable to the innermost scope.
pub data Declared (fresh : Option ℕ) (s : Scope) (ss : Scopes) (n : Text) (v : Value) (k : Bool)
    : Outcome Scopes Bool → Type 0 where
  unchanged :
      {o : Outcome Scopes Bool} → o.result ≡ false → o.state ≡ s ∷ ss → Declared fresh s ss n v k o
  one_more :
      {o : Outcome Scopes Bool} (w : Value) (calls : List Call)
      → retained fresh v ≡ some (w, calls)
      → is_there (find_in s n) ≡ false
      → length s < max_vars
      → leb max_name (length n) ≡ false
      → o.result ≡ true
      → o.state ≡ (s ++ declared n w k ∷ []) ∷ ss
      → Declared fresh s ss n v k o

pub declare_in-Declared :
    (granted : Bool) (fresh : Option ℕ) (s : Scope) (ss : Scopes) (n : Text) (v : Value) (k : Bool)
    → Declared fresh s ss n v k (declare_in granted fresh s ss n v k)
unfolding added
declare_in-Declared granted fresh s ss n v k = elim (Bool-cases (is_there (find_in s n))) [
  | inl old ↦ rw (declare_in_step, old) (unchanged refl refl)
  | inr new ↦ elim (Bool-cases (leb max_vars (length s))) [
    | inl full ↦ rw (declare_in_step, new, full) (unchanged refl refl)
    | inr room ↦ elim (Bool-cases (leb max_name (length n))) [
      | inl long ↦ rw (declare_in_step, new, room, long) (unchanged refl refl)
      | inr short ↦ elim (Bool-cases granted) [
        | inr no_name ↦ rw (declare_in_step, new, room, short, no_name) (unchanged refl refl)
        | inl given ↦ elim (Option-cases (retained fresh v)) [
          | inl lost ↦ rw (declare_in_step, new, room, short, given, lost) (unchanged refl refl)
          | inr ((w, calls), kept) ↦
              rw (declare_in_step, new, room, short, given, kept)
                (one_more w calls kept new (ground arith) short refl refl)
        ]
      ]
    ]
  ]
]

Declared-reads :
    (fresh : Option ℕ) (s : Scope) (ss : Scopes) (n m : Text) (v : Value) (k : Bool)
    {o : Outcome Scopes Bool}
    → (length n == 0) ≡ false
    → Declared fresh s ss n v k o
    → get_variable o.state (some m) ≡ (
        if o.result && text_eq n m
        then on_retained n k (retained fresh v)
        else get_variable (s ∷ ss) (some m))
Declared-reads fresh s ss n m v k named (unchanged failed same) = rw (failed, same)
Declared-reads fresh s ss n m v k named (one_more w calls kept new lt short done added) =
    rw (done, added, kept)
      (elim (Bool-cases (text_eq n m)) [
        | inr e ↦
            rw
              (e, get_variable_step, find_out-declared s ss n m w k short new, e, get_variable_step)
        | inl e ↦
            let eq = sym (text_eq→eq n m e) in
            let good : unusable n ≡ false = rw (named, short) in
            rw (
              e,
              get_variable_step,
              find_out-declared s ss n m w k short new,
              e,
              ap unusable eq,
              good,
            )
      ])

-- The declaration of a name that a search can find either is refused and changes nothing, or adds a
-- variable: under its name that variable is read, holding the retained value, and every other name
-- reads as before.
pub get_variable-declare_variable_raw :
    (granted : Bool) (fresh : Option ℕ) (s : Scopes) (n m : Text) (v : Value) (k : Bool)
    → (length n == 0) ≡ false
    → get_variable (declare_variable_raw granted fresh s (some n) v k).state (some m) ≡ (
        if (declare_variable_raw granted fresh s (some n) v k).result && text_eq n m
        then on_retained n k (retained fresh v)
        else get_variable s (some m))
unfolding declare_variable_raw
get_variable-declare_variable_raw granted fresh [] n m v k named = refl
get_variable-declare_variable_raw granted fresh (s ∷ ss) n m v k named =
    Declared-reads fresh s ss n m v k named (declare_in-Declared granted fresh s ss n v k)
