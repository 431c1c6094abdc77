-- ===== src/Functions/Parameters.antt =====
-- The arguments of a call: their types and the defaults.
use bread_lang.Prelude.{
  ℕ, zero, suc, ◌+◌, ◌-◌, ◌≤◌, ◌≡◌, refl, sym, ap, ◌∙◌, inl, inr, Bool, true, false, ◌&&◌, Option,
  none, some, List, [], ◌∷◌, ◌++◌, leb, leb→le, ◌==◌, if◌then◌else◌, length, drop, Option-cases,
  arith,
}
use bread_lang.Types.{VarType, t_string}
use bread_lang.Values.{Value, nil, int, type_of}
use bread_lang.Scopes.Coercion.{Casts, Coerced, coerce}
use bread_lang.Functions.{
  FunctionParameter, Function, type_compatible, coerce_value, leading_required, get_required_params,
  defaults, after_arguments, fill_arguments, apply_defaults,
}

-- The result of both coercions is the same, and of the type.
abbrev pub Agree : VarType → Value → Option Coerced → Type 0
Agree t w none = ⊥
Agree t w (some k) = (k.value ≡ w) × (type_of w ≡ t)

-- Where memory for an optional is granted, what type_compatible admits for a parameter of a type, a
-- variable of that type admits, and coerce_value and the coercion of coerce_and_assign give the same
-- value, of that type.
pub coerce_value-Agree :
    (c : Casts) (a : ℕ) (t : VarType) (v : Value)
    → type_compatible t (type_of v) ≡ true
    → Agree t (coerce_value c (some a) t v) (coerce c (some a) t v)
unfolding type_compatible coerce_value coerce
coerce_value-Agree c a t nil h = ground arith
coerce_value-Agree c a t (int n) h = ground arith
coerce_value-Agree c a t_string v h = ground arith
coerce_value-Agree c a t v h = ground arith

-- The defaults of a function: those of its last parameters, each of which has one.
pub data HasDefaults (f : Function) : List Value → Type 0 where
  no_list : f.parameters ≡ none → HasDefaults f []
  last_ones :
      (ps : List FunctionParameter) {ds : List Value}
      → f.parameters ≡ some ps
      → length ps ≡ length f.param_names
      → defaults (drop (leading_required ps) ps) ≡ some ds
      → HasDefaults f ds

length-defaults :
    (ps : List FunctionParameter) (ds : List Value) → defaults ps ≡ some ds → length ds ≡ length ps
unfolding defaults
length-defaults [] ds e = let same : [] ≡ ds = cc in rw⁻¹ same refl
length-defaults (p ∷ ps) ds e = elim (Option-cases p.default_value) [
  | inl lost ↦ cc (rw lost at e)
  | inr (v, have) ↦ elim (Option-cases (defaults ps)) [
    | inl lost ↦ cc (rw (have, lost) at e)
    | inr (vs, rest) ↦
        let same : v ∷ vs ≡ ds = cc (rw (have, rest) at e) in
        rw⁻¹ same (ap suc (length-defaults ps vs rest))
  ]
]

defaults-drop :
    (k : ℕ) (ps : List FunctionParameter) (ds : List Value)
    → defaults ps ≡ some ds
    → defaults (drop k ps) ≡ some (drop k ds)
unfolding defaults
defaults-drop zero ps ds e = e
defaults-drop (suc k) [] ds e = let same : [] ≡ ds = cc in rw⁻¹ same refl
defaults-drop (suc k) (p ∷ ps) ds e = elim (Option-cases p.default_value) [
  | inl lost ↦ cc (rw lost at e)
  | inr (v, have) ↦ elim (Option-cases (defaults ps)) [
    | inl lost ↦ cc (rw (have, lost) at e)
    | inr (vs, rest) ↦
        let same : v ∷ vs ≡ ds = cc (rw (have, rest) at e) in rw⁻¹ same (defaults-drop k ps vs rest)
  ]
]

drop-drop : (k n : ℕ) (vs : List FunctionParameter) → k ≤ n → drop n vs ≡ drop (n - k) (drop k vs)
drop-drop zero n vs h = ap (λ (m : ℕ). drop m vs) (let e : n ≡ n - 0 = omega arith in e)
drop-drop (suc k) zero vs h = absurd (omega arith)
drop-drop (suc k) (suc n) [] h = sym (drop-nil (suc n - suc k))
  where
    drop-nil : (m : ℕ) → drop {A = FunctionParameter} m [] ≡ []
    drop-nil zero = refl
    drop-nil (suc m) = refl
drop-drop (suc k) (suc n) (v ∷ vs) h =
    drop-drop k n vs (omega arith)
    ∙ ap (λ (m : ℕ). drop m (drop k vs)) (let e : n - k ≡ suc n - suc k = omega arith in e)

leading_required-le : (ps : List FunctionParameter) → leading_required ps ≤ length ps
unfolding leading_required
leading_required-le [] = omega arith
leading_required-le (p ∷ ps) = elim (Option-cases p.default_value) [
  | inl e ↦ let ih = leading_required-le ps in rw e (omega arith)
  | inr (v, e) ↦ rw e (omega arith)
]

-- What `function_apply_defaults` is to give: the arguments, and the defaults of the other parameters.
abbrev pub completed : Function → List Value → List Value → Option (List Value)
completed f ds args =
    if leb (get_required_params f) (length args) && leb (length args) (length f.param_names)
    then some (args ++ drop (length args - get_required_params f) ds)
    else none

apply_step :
    (f : Function) (args : List Value)
    → apply_defaults true f args ≡ (
        if leb (get_required_params f) (length args) && leb (length args) (length f.param_names)
        then fill_arguments args f
        else none)
unfolding apply_defaults
apply_step f args = ground arith

required_unlisted :
    (f : Function) → f.parameters ≡ none → get_required_params f ≡ length f.param_names
unfolding get_required_params
required_unlisted f e = rw e refl

required_listed :
    (f : Function) (ps : List FunctionParameter)
    → f.parameters ≡ some ps
    → get_required_params f ≡ leading_required ps
unfolding get_required_params
required_listed f ps e = rw e refl

fill_listed :
    (f : Function) (args : List Value) (ps : List FunctionParameter)
    → f.parameters ≡ some ps
    → fill_arguments args f ≡ after_arguments args (defaults (drop (length args) ps))
unfolding fill_arguments
fill_listed f args ps e = rw e refl

length-drop-parameters : (k : ℕ) (ps : List FunctionParameter) → length (drop k ps) ≡ length ps - k
length-drop-parameters zero ps = omega arith
length-drop-parameters (suc k) [] = omega arith
length-drop-parameters (suc k) (p ∷ ps) = omega (arith, length-drop-parameters k ps)

fill_arguments-completed :
    (f : Function) (args : List Value) {ds : List Value}
    → HasDefaults f ds
    → get_required_params f ≤ length args
    → length args ≤ length f.param_names
    → fill_arguments args f ≡ some (args ++ drop (length args - get_required_params f) ds)
fill_arguments-completed f args (no_list e) lo hi =
    let all : (length args == length f.param_names) ≡ true =
      ground (arith, required_unlisted f e) in
    fill_unlisted ∙ rw all (ap some (sym (concat-drop args (length args - get_required_params f))))
  where
    fill_unlisted :
        fill_arguments args f ≡ (if length args == length f.param_names then some args else none)
    fill_unlisted = unfold fill_arguments in rw e refl

    concat-drop : (vs : List Value) (m : ℕ) → vs ++ drop m [] ≡ vs
    concat-drop [] zero = refl
    concat-drop [] (suc m) = refl
    concat-drop (v ∷ vs) m = ap (λ (l : List Value). v ∷ l) (concat-drop vs m)
fill_arguments-completed f args (last_ones ps {ds} e l d) lo hi =
    let r = required_listed f ps e in
    fill_listed f args ps e
    ∙ ap (λ (qs : List FunctionParameter). after_arguments args (defaults qs))
        (drop-drop (get_required_params f) (length args) ps lo)
    ∙ ap (after_arguments args) (
        defaults-drop (length args - get_required_params f) (drop (get_required_params f) ps) ds
          (ap (λ (k : ℕ). defaults (drop k ps)) r ∙ d))

required-count :
    (f : Function) {ds : List Value}
    → HasDefaults f ds
    → get_required_params f + length ds ≡ length f.param_names
required-count f (no_list e) = omega (arith, required_unlisted f e)
required-count f (last_ones ps {ds} e l d) = omega (
  arith,
  required_listed f ps e,
  length-defaults (drop (leading_required ps) ps) ds d,
  length-drop-parameters (leading_required ps) ps,
  leading_required-le ps,
  l,
)

-- Where memory is granted and the parameters from the first with a default on all have one,
-- `function_apply_defaults` gives the arguments and after them the defaults of the other parameters, if
-- there are at least as many arguments as required parameters and at most as many as parameters, and
-- fails otherwise; required parameters and defaults together are as many as the parameters.
pub apply_defaults-completed :
    (f : Function) (args : List Value) {ds : List Value}
    → HasDefaults f ds
    → (apply_defaults true f args ≡ completed f ds args)
      × (get_required_params f + length ds ≡ length f.param_names)
apply_defaults-completed f args {ds} h = (
  apply_step f args
      ∙ by_range (leb (get_required_params f) (length args)) refl
          (leb (length args) (length f.param_names)) refl,
  required-count f h,
)
  where
    by_range :
        (a : Bool)
        → leb (get_required_params f) (length args) ≡ a
        → (b : Bool) → leb (length args) (length f.param_names) ≡ b
        → (if leb (get_required_params f) (length args) && leb (length args) (length f.param_names)
            then fill_arguments args f
            else none)
          ≡ completed f ds args
    by_range true lo true hi =
        rw (lo, hi)
          (fill_arguments-completed f args h (leb→le (get_required_params f) (length args) lo)
            (leb→le (length args) (length f.param_names) hi))
    by_range true lo false hi = rw (lo, hi) refl
    by_range false lo b hi = rw lo refl
