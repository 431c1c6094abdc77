-- ===== src/Scopes/Writing.antt =====
-- What an assignment by name leaves under every name.
use bread_lang.Prelude.{
  ℕ, ◌≡◌, refl, sym, ap, ◌∙◌, Bool, true, false, ◌||◌, Option, none, some, [], ◌∷◌, leb, ◌==◌,
  if◌then◌else◌, inl, inr, Bool-cases, Option-cases, subst, length, Text, text_eq, text_eq→eq,
}
use bread_lang.Values.{Value}
use bread_lang.Scopes.{
  Variable, Scope, Scopes, max_name, has_name, find_in, find_out, get_variable, write_out,
}
use bread_lang.Scopes.Coercion.{Casts, coerce_and_assign}
use bread_lang.Scopes.Assigning.{
  ExprResult, set_variable_value_from_expr_result, assign_found, assign_variable,
}
use bread_lang.Scopes.Naming.{find_out-write_out}

find_in-has_name :
    (s : Scope) (n : Text) (x : Variable) → find_in s n ≡ some x → has_name n x ≡ true
unfolding find_in
find_in-has_name [] n x e = cc
find_in-has_name (v ∷ vs) n x e = elim (Bool-cases (has_name n v)) [
  | inl hit ↦ let same : v ≡ x = cc (rw hit at e) in ap (has_name n) (sym same) ∙ hit
  | inr miss ↦ find_in-has_name vs n x (rw miss at e)
]

pub find_out-has_name :
    (s : Scopes) (n : Text) (x : Variable) → find_out s n ≡ some x → has_name n x ≡ true
unfolding find_out
find_out-has_name [] n x e = cc
find_out-has_name (s ∷ ss) n x e = elim (Option-cases (find_in s n)) [
  | inl miss ↦ find_out-has_name ss n x (rw miss at e)
  | inr (v, hit) ↦
      let same : v ≡ x = cc (rw hit at e) in ap (has_name n) (sym same) ∙ find_in-has_name s n v hit
]

abbrev pub unusable : Text → Bool
unusable n = length n == 0 || leb max_name (length n)

pub get_variable_step :
    (s : Scopes) (n : Text) → get_variable s (some n) ≡ (if unusable n then none else find_out s n)
unfolding get_variable
get_variable_step s n = refl

-- What is found is found by the search.
pub get_variable-found :
    (s : Scopes) (n : Text) (x : Variable)
    → get_variable s (some n) ≡ some x
    → (unusable n ≡ false) × (find_out s n ≡ some x)
get_variable-found s n x e = elim (Bool-cases (unusable n)) [
  | inl bad ↦ cc (rw (get_variable_step, bad) at e)
  | inr good ↦ (good, rw (get_variable_step, good) at e)
]

-- The variable after an assignment: the constant, and the target of a failed evaluation, as before.
unfoldable pub assigned : Casts → Option ℕ → ExprResult → Variable → Variable
assigned c fresh none x = x
assigned c fresh (some v) x =
    if x.is_const then x else record x { value = (coerce_and_assign c fresh x.value v).value }

abbrev pub on_found : (Variable → Variable) → Option Variable → Option Variable
on_found f none = none
on_found f (some x) = some (f x)

pub has_name-value :
    (n : Text) (x : Variable) (w : Value) → has_name n (record x { value = w }) ≡ has_name n x
unfolding has_name
has_name-value n x w = refl

-- The names that read as before, and the one that was written.
module _ (s : Scopes) (n m : Text) where
  reads_same :
      (f : Variable → Variable)
      → on_found f (get_variable s (some n)) ≡ get_variable s (some n)
      → get_variable s (some m)
        ≡ (if text_eq n m then on_found f (get_variable s (some m)) else get_variable s (some m))
  reads_same f h = elim (Bool-cases (text_eq n m)) [
    | inr e ↦ rw e
    | inl e ↦ rw e (
        sym (
          ap (λ k. on_found f (get_variable s (some k))) (sym (text_eq→eq n m e))
          ∙ h
          ∙ ap (λ k. get_variable s (some k)) (text_eq→eq n m e)))
  ]

  reads_written :
      (f : Variable → Variable) (x : Variable)
      → get_variable s (some n) ≡ some x
      → has_name n (f x) ≡ true
      → get_variable (write_out s n (f x)) (some m)
        ≡ (if text_eq n m then on_found f (get_variable s (some m)) else get_variable s (some m))
  unfolding get_variable
  reads_written f x e named =
      let (good, found) = get_variable-found s n x e in
      rw (find_out-write_out n m (f x) named s) (elim (Bool-cases (text_eq n m)) [
        | inr other ↦ rw other
        | inl same ↦
            let eq = sym (text_eq→eq n m same) in
            rw (same, ap unusable eq, good, ap (find_out s) eq, found)
      ])

assign_step :
    (c : Casts) (fresh : Option ℕ) (s : Scopes) (n : Text) (r : ExprResult)
    → assign_variable c fresh s n r ≡ assign_found c fresh s n (get_variable s (some n)) r
unfolding assign_variable
assign_step c fresh s n r = refl

assign_nowhere :
    (c : Casts) (fresh : Option ℕ) (s : Scopes) (n : Text) (r : ExprResult)
    → (assign_found c fresh s n none r).state ≡ s
unfolding assign_found
assign_nowhere c fresh s n r = refl

found_assigned :
    (c : Casts) (fresh : Option ℕ) (s : Scopes) (n m : Text) (x : Variable) (r : ExprResult)
    → get_variable s (some n) ≡ some x
    → get_variable (assign_found c fresh s n (some x) r).state (some m) ≡ (
        if text_eq n m
        then on_found (assigned c fresh r) (get_variable s (some m))
        else get_variable s (some m))
unfolding assign_found set_variable_value_from_expr_result assigned
found_assigned c fresh s n m x none e = elim (Bool-cases x.is_const) [
  | inl const ↦ rw const (reads_same s n m (λ y. y) (rw e))
  | inr free ↦ rw free (reads_same s n m (λ y. y) (rw e))
]
found_assigned c fresh s n m x (some v) e =
    let (good, found) = get_variable-found s n x e in
    elim (Bool-cases x.is_const) [
      | inl const ↦ rw const (reads_same s n m (assigned c fresh (some v)) (rw (e, const)))
      | inr free ↦ rw free (
          subst
            (λ (w : Variable). get_variable (write_out s n w) (some m) ≡ (
              if text_eq n m
              then on_found (assigned c fresh (some v)) (get_variable s (some m))
              else get_variable s (some m)))
            (rw free)
            (reads_written s n m (assigned c fresh (some v)) x e (
              rw free (
                has_name-value n x (coerce_and_assign c fresh x.value v).value
                ∙ find_out-has_name s n x found))))
    ]

-- After `bread_assign_variable_from_expr_result`, the name reads the coerced value, if it names a variable
-- that is not a constant and the expression had a value, and every other name reads as before; a
-- constant, a name that is not there and a failed expression change nothing.
pub get_variable-assign_variable :
    (c : Casts) (fresh : Option ℕ) (s : Scopes) (n m : Text) (r : ExprResult)
    → get_variable (assign_variable c fresh s n r).state (some m) ≡ (
        if text_eq n m
        then on_found (assigned c fresh r) (get_variable s (some m))
        else get_variable s (some m))
get_variable-assign_variable c fresh s n m r = elim (Option-cases (get_variable s (some n))) [
  | inl e ↦
      rw (assign_step c fresh s n r, e, assign_nowhere c fresh s n r)
        (reads_same s n m (assigned c fresh r) (rw e))
  | inr (x, e) ↦ rw (assign_step c fresh s n r, e) (found_assigned c fresh s n m x r e)
]
