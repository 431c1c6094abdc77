-- ===== src/Scopes/Keeping.antt =====
-- Each operation on variables keeps the invariant.
use bread_lang.Prelude.{
  ℕ, zero, suc, ◌-◌, ◌||◌, ◌≡◌, refl, ◌∙◌, Bool, true, false, Option, none, some, [], ◌∷◌, ◌++◌,
  ltb, leb, ◌==◌, if◌then◌else◌, inl, inr, Bool-cases, Option-cases, length, length-append, Text,
  text_eq, text_eq_symm, arith,
}
use bread_lang.Prelude.Int.{ℤ, pos, negsuc}
use bread_lang.Values.{Value, Outcome}
use bread_lang.Scopes.{
  Variable, Scope, Scopes, max_name, max_scopes, has_name, find_in, get_variable, refused,
  push_scope, pop_scope, pop_scopes, pop_to_scope_depth, cleanup_variables, declare_variable_raw,
}
use bread_lang.Scopes.Coercion.{Casts, coerce_and_assign}
use bread_lang.Scopes.Assigning.{
  ExprResult, set_variable_value_from_expr_result, init_found, init_variable, assign_found,
  assign_variable,
}
use bread_lang.Scopes.Writing.{find_out-has_name, get_variable-found, has_name-value}
use bread_lang.Scopes.Declaring.{
  declared, find_in-concat, is_there-none, Declared, unchanged, one_more, declare_in-Declared,
}
use bread_lang.Scopes.Validity.{Short, Distinct, IsValid, write_out-IsValid}

pub push-IsValid : {s : Scopes} → IsValid s → IsValid (push_scope s).state
unfolding push_scope
push-IsValid {s} h = elim (Bool-cases (leb max_scopes (length s))) [
  | inl full ↦ rw full h
  | inr room ↦ rw room (record {
    depth = ground arith;
    each = (record { bound = omega arith; short = tt; distinct = tt }, h.each);
  })
]

pub pop-IsValid : {s : Scopes} → IsValid s → IsValid (pop_scope s).state
unfolding pop_scope
pop-IsValid {s = []} h = h
pop-IsValid {s = s ∷ []} h = h
pop-IsValid {s = s ∷ t ∷ ss} h = record { depth = let d = h.depth in omega arith; each = h.each.1 }

-- One more variable in a scope.
Short-concat :
    (s : Scope) (x : Variable) → Short s → ltb (length x.name) max_name ≡ true → Short (s ++ x ∷ [])
Short-concat [] x h e = (e, tt)
Short-concat (v ∷ vs) x h e = (h.0, Short-concat vs x h.1 e)

missed :
    (v x : Variable) (vs : Scope)
    → ltb (length v.name) max_name ≡ true
    → ltb (length x.name) max_name ≡ true
    → find_in (v ∷ vs) x.name ≡ none
    → (has_name v.name x ≡ false) × (find_in vs x.name ≡ none)
unfolding find_in has_name
missed v x vs p q e = elim (Bool-cases (text_eq v.name x.name)) [
  | inl hit ↦ absurd (cc (rw (p, hit) at e))
  | inr miss ↦ (rw (q, text_eq_symm x.name v.name, miss), rw (p, miss) at e)
]

Distinct-concat :
    (s : Scope) (x : Variable)
    → Short s
    → ltb (length x.name) max_name ≡ true
    → find_in s x.name ≡ none
    → Distinct s
    → Distinct (s ++ x ∷ [])
Distinct-concat [] x h e absent d = (find_in-nil x.name, tt)
  where
    find_in-nil : (n : Text) → find_in [] n ≡ none
    find_in-nil n = unfold find_in in refl
Distinct-concat (v ∷ vs) x h e absent d =
    let (other, rest) = missed v x vs h.0 e absent in
    (rw (find_in-concat, d.0, other), Distinct-concat vs x h.1 e rest d.1)

Declared-IsValid :
    {s : Scope} {ss : Scopes} {fresh : Option ℕ} {n : Text} {v : Value} {k : Bool}
    {o : Outcome Scopes Bool}
    → IsValid (s ∷ ss)
    → Declared fresh s ss n v k o
    → IsValid o.state
Declared-IsValid h (unchanged failed same) = rw same h
Declared-IsValid {s} {ss} {n} {k} h (one_more w calls kept new lt short done added) =
    let x = declared n w k in
    let fits : ltb (length n) max_name ≡ true = ground arith in
    let scope = h.each.0 in
    rw added (record {
      depth = h.depth;
      each = (
        record {
          bound = omega (arith, length-append s (x ∷ []));
          short = Short-concat s x scope.short fits;
          distinct =
              Distinct-concat s x scope.short fits (is_there-none (find_in s n) new) scope.distinct;
        },
        h.each.1,
      );
    })

pub declare-IsValid :
    (granted : Bool) (fresh : Option ℕ) {s : Scopes} (n : Option Text) (v : Value) (k : Bool)
    → IsValid s
    → IsValid (declare_variable_raw granted fresh s n v k).state
unfolding declare_variable_raw
declare-IsValid granted fresh {s = []} n v k h = h
declare-IsValid granted fresh {s = s ∷ ss} none v k h = h
declare-IsValid granted fresh {s = s ∷ ss} (some n) v k h =
    Declared-IsValid h (declare_in-Declared granted fresh s ss n v k)

pub set-IsValid :
    (c : Casts) (fresh : Option ℕ) {s : Scopes} (n : Text) (x : Variable) (r : ExprResult)
    → get_variable s (some n) ≡ some x
    → IsValid s
    → IsValid (set_variable_value_from_expr_result c fresh s n x r).state
unfolding set_variable_value_from_expr_result
set-IsValid c fresh n x none e h = h
set-IsValid c fresh {s} n x (some v) e h =
    let st = coerce_and_assign c fresh x.value v in
    let (good, found) = get_variable-found s n x e in
    write_out-IsValid n (record x { value = st.value })
      (has_name-value n x st.value ∙ find_out-has_name s n x found) h

pub init-IsValid :
    (c : Casts) (fresh : Option ℕ) {s : Scopes} (n : Text) (r : ExprResult)
    → IsValid s
    → IsValid (init_variable c fresh s n r).state
unfolding init_variable init_found
init-IsValid c fresh {s} n r h = elim (Option-cases (get_variable s (some n))) [
  | inl e ↦ rw e h
  | inr (x, e) ↦ rw e (set-IsValid c fresh n x r e h)
]

pub unless-IsValid :
    (b : Bool) {s : Scopes} (o : Outcome Scopes Bool)
    → IsValid s
    → IsValid o.state
    → IsValid (if b then refused s none else o).state
unless-IsValid true o h k = h
unless-IsValid false o h k = k

pub assign-IsValid :
    (c : Casts) (fresh : Option ℕ) {s : Scopes} (n : Text) (r : ExprResult)
    → IsValid s
    → IsValid (assign_variable c fresh s n r).state
unfolding assign_variable assign_found
assign-IsValid c fresh {s} n r h = elim (Option-cases (get_variable s (some n))) [
  | inl e ↦ rw e h
  | inr (x, e) ↦ rw e (unless-IsValid x.is_const _ h (set-IsValid c fresh n x r e h))
]

pop_scopes-IsValid : (n : ℕ) {s : Scopes} → IsValid s → IsValid (pop_scopes n s).0
unfolding pop_scopes
pop_scopes-IsValid zero h = h
pop_scopes-IsValid (suc n) h = pop_scopes-IsValid n (pop-IsValid h)

pub pop_to-IsValid : (d : ℤ) {s : Scopes} → IsValid s → IsValid (pop_to_scope_depth d s).state
unfolding pop_to_scope_depth
pop_to-IsValid (negsuc d) h = h
pop_to-IsValid (pos d) {s} h = elim (Bool-cases (d == 0 || ltb (length s) d)) [
  | inl bad ↦ rw bad h
  | inr good ↦ rw good (pop_scopes-IsValid (length s - d) h)
]

pub cleanup-IsValid : (s : Scopes) → IsValid (cleanup_variables s).0
unfolding cleanup_variables
cleanup-IsValid [] = record { depth = omega arith; each = tt }
cleanup-IsValid (s ∷ ss) = cleanup-IsValid ss
