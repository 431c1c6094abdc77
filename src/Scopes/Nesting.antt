-- ===== src/Scopes/Nesting.antt =====
-- What a block does to the scopes around it.
use bread_lang.Prelude.{
  ℕ, suc, ◌<◌, ◌≡◌, refl, sym, ap, ◌∙◌, Bool, true, false, Option, none, some, [], ◌∷◌, ◌++◌, leb,
  if◌then◌else◌, ◌⊎◌, inl, inr, Bool-cases, Option-cases, length, length-append, subst, Text, arith,
}
use bread_lang.Values.{Value}
use bread_lang.Scopes.{
  Variable, Scope, Scopes, find_out, write_out, get_variable, max_scopes, refused, push_scope,
  pop_scope, declare_variable_raw,
}
use bread_lang.Scopes.Coercion.{Casts, coerce_and_assign}
use bread_lang.Scopes.Assigning.{
  ExprResult, set_variable_value_from_expr_result, assign_found, assign_variable,
}
use bread_lang.Scopes.Writing.{get_variable-found}
use bread_lang.Scopes.Declaring.{declared, unchanged, one_more, declare_in-Declared}
use bread_lang.Scopes.Retaining.{
  RetainsScopes, RetainsScopes-refl, RetainsScopes-trans, write_out-split,
}

-- What an assignment may do to the scopes.
Writes : Scopes → Text → Scopes → Type 0
Writes s n t =
    (x : Variable) × (v : Value) × (find_out s n ≡ some x)
    × (x.is_const ≡ false)
    × (t ≡ write_out s n (record x { value = v }))

set-Writes :
    (c : Casts) (fresh : Option ℕ) (s : Scopes) (n : Text) (x : Variable) (r : ExprResult)
    (b : Bool)
    → x.is_const ≡ b
    → find_out s n ≡ some x
    → ((if b then refused s none else set_variable_value_from_expr_result c fresh s n x r).state
        ≡ s)
      ⊎ Writes s n
          (if b then refused s none else set_variable_value_from_expr_result c fresh s n x r).state
unfolding set_variable_value_from_expr_result Writes
set-Writes c fresh s n x r true const found = inl refl
set-Writes c fresh s n x none false free found = inl refl
set-Writes c fresh s n x (some v) false free found =
    inr (x, (coerce_and_assign c fresh x.value v).value, found, free, refl)

assign-Writes :
    (c : Casts) (fresh : Option ℕ) (s : Scopes) (n : Text) (r : ExprResult)
    → ((assign_variable c fresh s n r).state ≡ s) ⊎ Writes s n (assign_variable c fresh s n r).state
unfolding assign_variable assign_found
assign-Writes c fresh s n r = elim (Option-cases (get_variable s (some n))) [
  | inl e ↦ rw e (inl refl)
  | inr (x, e) ↦ rw e (set-Writes c fresh s n x r x.is_const refl ((get_variable-found s n x e).1))
]

-- The states of a block that was entered on the scopes `base` and not left: pushes and pops of scopes of
-- its own, declarations and assignments.
pub data Inside (base : Scopes) : Scopes → Type 0 where
  enter : Inside base ([] ∷ base)
  pushed : {s : Scopes} → Inside base s → Inside base (push_scope s).state
  popped :
      {s : Scopes} → Inside base s → suc (length base) < length s → Inside base (pop_scope s).state
  declares :
      {s : Scopes} (granted : Bool) (fresh : Option ℕ) (n : Option Text) (v : Value) (k : Bool)
      → Inside base s
      → Inside base (declare_variable_raw granted fresh s n v k).state
  assigns :
      {s : Scopes} (c : Casts) (fresh : Option ℕ) (n : Text) (r : ExprResult)
      → Inside base s
      → Inside base (assign_variable c fresh s n r).state

-- The innermost scope, the block's others, and those around it.
record Around (base s : Scopes) : Type 0 where
  pub first : Scope
  pub inner : Scopes
  pub outer : Scopes
  pub parts : s ≡ first ∷ (inner ++ outer)
  pub kept : RetainsScopes base outer

length-RetainsScopes : (s t : Scopes) → RetainsScopes s t → length s ≡ length t
length-RetainsScopes [] [] h = refl
length-RetainsScopes (a ∷ s) (b ∷ t) h = ap suc (length-RetainsScopes s t h.1)
length-RetainsScopes [] (b ∷ t) h = absurd h
length-RetainsScopes (a ∷ s) [] h = absurd h

push-Around : {base s : Scopes} → Around base s → Around base (push_scope s).state
unfolding push_scope
push-Around {s} a = elim (Bool-cases (leb max_scopes (length s))) [
  | inl full ↦ rw full a
  | inr room ↦ rw room (record {
    first = [];
    inner = a.first ∷ a.inner;
    outer = a.outer;
    parts = ap (λ (t : Scopes). [] ∷ t) a.parts;
    kept = a.kept;
  })
]

pop-parts :
    {base : Scopes} (f : Scope) (inner outer : Scopes)
    → RetainsScopes base outer
    → suc (length base) < length (f ∷ (inner ++ outer))
    → Around base (pop_scope (f ∷ (inner ++ outer))).state
unfolding pop_scope
pop-parts {base} f [] outer kept deep = absurd (omega (arith, length-RetainsScopes base outer kept))
pop-parts f (i ∷ inner) outer kept deep = record {
  first = i;
  inner = inner;
  outer = outer;
  parts = refl;
  kept = kept;
}

pop-Around :
    {base s : Scopes}
    → Around base s
    → suc (length base) < length s
    → Around base (pop_scope s).state
pop-Around {base} {s} a deep =
    subst (λ t. Around base (pop_scope t).state) (sym a.parts)
      (pop-parts a.first a.inner a.outer a.kept
        (subst (λ (t : Scopes). suc (length base) < length t) a.parts deep))

declare-parts :
    {base : Scopes} (granted : Bool) (fresh : Option ℕ) (f : Scope) (inner outer : Scopes)
    (n : Option Text) (v : Value) (k : Bool)
    → RetainsScopes base outer
    → Around base (declare_variable_raw granted fresh (f ∷ (inner ++ outer)) n v k).state
unfolding declare_variable_raw
declare-parts granted fresh f inner outer none v k kept = record {
  first = f;
  inner = inner;
  outer = outer;
  parts = refl;
  kept = kept;
}
declare-parts granted fresh f inner outer (some n) v k kept =
    elim (declare_in-Declared granted fresh f (inner ++ outer) n v k) [
      | unchanged failed same ↦ record {
        first = f;
        inner = inner;
        outer = outer;
        parts = same;
        kept = kept;
      }
      | one_more w calls r new lt short done added ↦ record {
        first = f ++ declared n w k ∷ [];
        inner = inner;
        outer = outer;
        parts = added;
        kept = kept;
      }
    ]

declare-Around :
    {base s : Scopes} (granted : Bool) (fresh : Option ℕ) (n : Option Text) (v : Value) (k : Bool)
    → Around base s
    → Around base (declare_variable_raw granted fresh s n v k).state
declare-Around {base} granted fresh n v k a =
    subst (λ t. Around base (declare_variable_raw granted fresh t n v k).state) (sym a.parts)
      (declare-parts granted fresh a.first a.inner a.outer n v k a.kept)

-- The parts of a list of scopes of which the first part is not empty.
rejoined :
    {base : Scopes} (inside around s : Scopes) (n : ℕ)
    → s ≡ inside ++ around
    → length inside ≡ suc n
    → RetainsScopes base around
    → Around base s
rejoined [] around s n e size kept = absurd (omega arith)
rejoined (f ∷ inner) around s n e size kept = record {
  first = f;
  inner = inner;
  outer = around;
  parts = e;
  kept = kept;
}

write-Around :
    {base s : Scopes} (n : Text) {t : Scopes} → Around base s → Writes s n t → Around base t
unfolding Writes
write-Around {base} {s} n {t} a (x, v, found, free, same) =
    let (inside, around, eq, size, kept) =
      write_out-split n x v free (a.first ∷ a.inner) a.outer
        (subst (λ u. find_out u n ≡ some x) a.parts found) in
    rejoined inside around t (length a.inner)
      (same ∙ ap (λ u. write_out u n (record x { value = v })) a.parts ∙ eq) size
      (RetainsScopes-trans base a.outer around a.kept kept)

assign-Around :
    {base s : Scopes} (c : Casts) (fresh : Option ℕ) (n : Text) (r : ExprResult)
    → Around base s
    → Around base (assign_variable c fresh s n r).state
assign-Around {base} {s} c fresh n r a = elim (assign-Writes c fresh s n r) [
  | inl same ↦ subst (λ t. Around base t) (sym same) a
  | inr w ↦ write-Around n a w
]

Inside-Around : {base s : Scopes} → Inside base s → Around base s
Inside-Around {base} enter = record {
  first = [];
  inner = [];
  outer = base;
  parts = refl;
  kept = RetainsScopes-refl base;
}
Inside-Around (pushed i) = push-Around (Inside-Around i)
Inside-Around (popped i deep) = pop-Around (Inside-Around i) deep
Inside-Around (declares granted fresh n v k i) =
    declare-Around granted fresh n v k (Inside-Around i)
Inside-Around (assigns c fresh n r i) = assign-Around c fresh n r (Inside-Around i)

left :
    (base : Scopes) (f : Scope) (inner outer : Scopes)
    → 0 < length base
    → RetainsScopes base outer
    → length (f ∷ (inner ++ outer)) ≡ suc (length base)
    → RetainsScopes base (pop_scope (f ∷ (inner ++ outer))).state
unfolding pop_scope
left base f [] [] some_base kept size = absurd (omega (arith, length-RetainsScopes base [] kept))
left base f [] (o ∷ outer) some_base kept size = kept
left base f (i ∷ inner) outer some_base kept size =
    absurd (omega (arith, length-RetainsScopes base outer kept, length-append inner outer))

-- When a block is left whose own scope is the innermost, after any pushes, pops, declarations and
-- assignments in it, the scopes around it, at least one, hold the variables that they held, under
-- their names, and their constants hold the same values.
pub Inside-RetainsScopes :
    {base s : Scopes}
    → Inside base s
    → 0 < length base
    → length s ≡ suc (length base)
    → RetainsScopes base (pop_scope s).state
Inside-RetainsScopes {base} {s} i some_base size =
    let a = Inside-Around i in
    subst (λ t. RetainsScopes base (pop_scope t).state) (sym a.parts)
      (left base a.first a.inner a.outer some_base a.kept
        (ap (λ (t : Scopes). length t) (sym a.parts) ∙ size))
