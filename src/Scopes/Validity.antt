-- ===== src/Scopes/Validity.antt =====
-- The invariant of the scope stack: its bounds, and one variable to a name in a scope.
use bread_lang.Prelude.{
  suc, ◌≤◌, ◌≡◌, refl, sym, ap, ◌∙◌, true, none, [], ◌∷◌, ltb, inl, inr, Bool-cases, length, Text,
  text_eq, text_eq_refl, text_eq→eq, arith,
}
use bread_lang.Scopes.{
  Variable, Scope, Scopes, max_name, max_vars, max_scopes, has_name, find_in, is_there, write_in,
  write_out,
}
use bread_lang.Scopes.Naming.{find_in-write_in}

-- Every name is short enough to be compared, and is that of one variable.
abbrev pub Short : Scope → Type 0
Short [] = Unit
Short (v ∷ vs) = (ltb (length v.name) max_name ≡ true) × Short vs

abbrev pub Distinct : Scope → Type 0
Distinct [] = Unit
Distinct (v ∷ vs) = (find_in vs v.name ≡ none) × Distinct vs

pub record ScopeIsValid (s : Scope) : Type 0 where
  pub bound : length s ≤ max_vars
  pub short : Short s
  pub distinct : Distinct s

abbrev pub EachIsValid : Scopes → Type 0
EachIsValid [] = Unit
EachIsValid (s ∷ ss) = ScopeIsValid s × EachIsValid ss

pub record IsValid (s : Scopes) : Type 0 where
  pub depth : length s ≤ max_scopes
  pub each : EachIsValid s

self_named : (v : Variable) → ltb (length v.name) max_name ≡ true → has_name v.name v ≡ true
unfolding has_name
self_named v short = rw (short, text_eq_refl v.name)

has_name-short :
    (n : Text) (v : Variable) → has_name n v ≡ true → ltb (length v.name) max_name ≡ true
unfolding has_name
has_name-short n v h = ground arith

-- A write to a scope keeps its names.
module _ (n : Text) (w : Variable) (named : has_name n w ≡ true) where
  absent-write_in : (s : Scope) (k : Text) → find_in s k ≡ none → find_in (write_in s n w) k ≡ none
  absent-write_in s k e =
      find_in-write_in n k w named s
      ∙ elim (Bool-cases (text_eq n k)) [ inl h ↦ rw (h, e) | inr h ↦ rw (h, e) ]

  length-write_in : (s : Scope) → length (write_in s n w) ≡ length s
  unfolding write_in
  length-write_in [] = refl
  length-write_in (v ∷ vs) = elim (Bool-cases (has_name n v)) [
    | inl h ↦ rw h
    | inr h ↦ rw h (ap suc (length-write_in vs))
  ]

  Short-write_in : (s : Scope) → Short s → Short (write_in s n w)
  unfolding write_in
  Short-write_in [] h = tt
  Short-write_in (v ∷ vs) h = elim (Bool-cases (has_name n v)) [
    | inl e ↦ rw e (has_name-short n w named, h.1)
    | inr e ↦ rw e (h.0, Short-write_in vs h.1)
  ]

  same_named : (v : Variable) → has_name n v ≡ true → w.name ≡ v.name
  unfolding has_name
  same_named v h = text_eq→eq w.name n (ground arith) ∙ sym (text_eq→eq v.name n (ground arith))

  Distinct-write_in : (s : Scope) → Distinct s → Distinct (write_in s n w)
  unfolding write_in
  Distinct-write_in [] h = tt
  Distinct-write_in (v ∷ vs) h = elim (Bool-cases (has_name n v)) [
    | inl e ↦ rw e (ap (find_in vs) (same_named v e) ∙ h.0, h.1)
    | inr e ↦ rw e (absent-write_in vs v.name h.0, Distinct-write_in vs h.1)
  ]

  write_in-ScopeIsValid : (s : Scope) → ScopeIsValid s → ScopeIsValid (write_in s n w)
  write_in-ScopeIsValid s h = record {
    bound = let b = h.bound in omega (arith, length-write_in s);
    short = Short-write_in s h.short;
    distinct = Distinct-write_in s h.distinct;
  }

  EachIsValid-write_out : (s : Scopes) → EachIsValid s → EachIsValid (write_out s n w)
  unfolding write_out
  EachIsValid-write_out [] h = tt
  EachIsValid-write_out (s ∷ ss) h = elim (Bool-cases (is_there (find_in s n))) [
    | inl e ↦ rw e (write_in-ScopeIsValid s h.0, h.1)
    | inr e ↦ rw e (h.0, EachIsValid-write_out ss h.1)
  ]

  length-write_out : (s : Scopes) → length (write_out s n w) ≡ length s
  unfolding write_out
  length-write_out [] = refl
  length-write_out (s ∷ ss) = elim (Bool-cases (is_there (find_in s n))) [
    | inl e ↦ rw e
    | inr e ↦ rw e (ap suc (length-write_out ss))
  ]

  pub write_out-IsValid : {s : Scopes} → IsValid s → IsValid (write_out s n w)
  write_out-IsValid {s} h = record {
    depth = let d = h.depth in omega (arith, length-write_out s);
    each = EachIsValid-write_out s h.each;
  }
