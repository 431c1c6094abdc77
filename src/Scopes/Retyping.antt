-- ===== src/Scopes/Retyping.antt =====
-- The types of variables under assignment.
use bread_lang.Prelude.{
  ℕ, ◌≡◌, refl, ◌⊎◌, inl, inr, true, Option, none, some, List, ◌||◌, if◌then◌else◌, Bool-cases,
  Option-cases, arith, sym, ap, ◌∙◌, subst, ||-elim,
}
use bread_lang.Types.{VarType, t_int, t_float, t_double, t_optional, t_struct, t_class, t_nil}
use bread_lang.Values.{
  Value, nil, int, float, double, string, optional, class, type_of, type_eq, Call,
}
use bread_lang.Scopes.Coercion.{
  Casts, Coerced, kept, try_numeric_coercion, try_optional_coercion, class_for_struct, coerce,
  stored, coerce_and_assign, or_numeric, or_optional,
}

-- A variable of the first type may be of the second after an assignment of a value of the third.
abbrev pub MayBecome : VarType → VarType → VarType → Type 0
MayBecome t u source =
    (u ≡ t) ⊎ ((t ≡ t_nil) × (u ≡ source)) ⊎ ((t ≡ t_struct) × (u ≡ t_class) × (source ≡ t_class))

numeric-type_of :
    (c : Casts) (t : VarType) (v w : Value) → try_numeric_coercion c t v ≡ some w → type_of w ≡ t
unfolding try_numeric_coercion type_of
numeric-type_of c t_double (int n) w e = ground arith
numeric-type_of c t_double (float n) w e = ground arith
numeric-type_of c t_float (int n) w e = ground arith
numeric-type_of c t_float (double n) w e = ground arith
numeric-type_of c t_int (double n) w e = ground arith
numeric-type_of c t_int (float n) w e = ground arith
numeric-type_of c t v w e = cc

optional-type_of :
    (fresh : Option ℕ) (t : VarType) (v w : Value) (calls : List Call)
    → try_optional_coercion fresh t v ≡ some (w, calls)
    → type_of w ≡ t
unfolding try_optional_coercion type_of
optional-type_of none t v w calls e = cc
optional-type_of (some a) t_optional (optional p) w calls e = cc
optional-type_of (some a) t_optional v w calls e = ground arith
optional-type_of (some a) t v w calls e = cc

class-type_of :
    (t : VarType) (v : Value) (k : Coerced)
    → class_for_struct t v ≡ some k
    → (t ≡ t_struct) × (type_of k.value ≡ t_class) × (type_of v ≡ t_class)
unfolding class_for_struct type_of
class-type_of t_struct (class p) k e = ground arith
class-type_of t v k e = cc

type_eq→eq : (t u : VarType) → type_eq t u ≡ true → t ≡ u
unfolding type_eq
type_eq→eq t u e = ground arith

class-MayBecome :
    (t : VarType) (v : Value) (k : Coerced)
    → class_for_struct t v ≡ some k
    → MayBecome t (type_of k.value) (type_of v)
class-MayBecome t v k e = inr (inr (class-type_of t v k e))

optional-MayBecome :
    (fresh : Option ℕ) (t : VarType) (v : Value) (k : Coerced)
    → or_optional (try_optional_coercion fresh t v) (class_for_struct t v) ≡ some k
    → MayBecome t (type_of k.value) (type_of v)
optional-MayBecome fresh t v k e = elim (Option-cases (try_optional_coercion fresh t v)) [
  | inl z ↦ class-MayBecome t v k (rw z at e)
  | inr ((w, calls), z) ↦
      let same : type_of k.value ≡ type_of w = cc (rw z at e) in
      inl (same ∙ optional-type_of fresh t v w calls z)
]

numeric-MayBecome :
    (c : Casts) (fresh : Option ℕ) (t : VarType) (v : Value) (k : Coerced)
    → or_numeric
        (try_numeric_coercion c t v)
        (or_optional (try_optional_coercion fresh t v) (class_for_struct t v))
      ≡ some k
    → MayBecome t (type_of k.value) (type_of v)
numeric-MayBecome c fresh t v k e = elim (Option-cases (try_numeric_coercion c t v)) [
  | inl z ↦ optional-MayBecome fresh t v k (rw z at e)
  | inr (w, z) ↦
      let same : type_of k.value ≡ type_of w = cc (rw z at e) in
      inl (same ∙ numeric-type_of c t v w z)
]

coerce_step :
    (c : Casts) (fresh : Option ℕ) (t : VarType) (v : Value)
    → coerce c fresh t v ≡ (
        if type_eq t t_nil || type_eq t (type_of v)
        then some (kept v)
        else or_numeric
            (try_numeric_coercion c t v)
            (or_optional (try_optional_coercion fresh t v) (class_for_struct t v)))
unfolding coerce
coerce_step c fresh t v = refl

coerce-MayBecome :
    (c : Casts) (fresh : Option ℕ) (t : VarType) (v : Value) (k : Coerced)
    → coerce c fresh t v ≡ some k
    → MayBecome t (type_of k.value) (type_of v)
coerce-MayBecome c fresh t v k e = elim (Bool-cases (type_eq t t_nil || type_eq t (type_of v))) [
  | inr z ↦ numeric-MayBecome c fresh t v k (rw (coerce_step, z) at e)
  | inl z ↦
      let same : type_of k.value ≡ type_of v = cc (rw (coerce_step, z) at e) in
      elim (||-elim _ _ z) [
        | inl is_nil ↦ inr (inl (type_eq→eq t t_nil is_nil, same))
        | inr equal ↦ inl (same ∙ sym (type_eq→eq t (type_of v) equal))
      ]
]

stored-type_of :
    (fresh : Option ℕ) (old v : Value)
    → (type_of (stored fresh old v).value ≡ type_of v) ⊎ ((stored fresh old v).value ≡ old)
unfolding stored type_of
stored-type_of none nil (string none) = inl refl
stored-type_of none old (string none) = inr refl
stored-type_of (some a) old (string none) = inl refl
stored-type_of fresh old (string (some s)) = inl refl
stored-type_of fresh old v = inl refl

-- After `coerce_and_assign`, whether it succeeds or not, a variable is of the type that it had, but that
-- a variable of the nil type takes that of the value, and that one of a struct type may hold a class.
pub coerce_and_assign-MayBecome :
    (c : Casts) (fresh : Option ℕ) (old v : Value)
    → MayBecome (type_of old) (type_of (coerce_and_assign c fresh old v).value) (type_of v)
unfolding coerce_and_assign
coerce_and_assign-MayBecome c fresh old v = elim (Option-cases (coerce c fresh (type_of old) v)) [
  | inl e ↦ rw e (inl refl)
  | inr (k, e) ↦ rw e (elim (stored-type_of fresh old k.value) [
    | inr kept_old ↦ inl (ap type_of kept_old)
    | inl same ↦
        subst (λ u. MayBecome (type_of old) u (type_of v)) (sym same)
          (coerce-MayBecome c fresh (type_of old) v k e)
  ])
]
