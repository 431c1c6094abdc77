-- ===== src/Functions/Table.antt =====
-- The table of functions: what a registration makes of it.
use bread_lang.Prelude.{
  ◌≤◌, ◌<◌, ◌≡◌, refl, sym, ap, ◌∙◌, inl, inr, Bool, true, false, ◌&&◌, Option, none, some, List,
  [], ◌∷◌, ◌++◌, leb, if◌then◌else◌, length, length-append, Text, text_eq, text_eq_refl, text_eq→eq,
  Bool-cases, Option-cases, arith,
}
use bread_lang.Values.{Call}
use bread_lang.Functions.{
  Function, Functions, max_functions, find_function, get_function, registered, register_function,
}

-- Every name is that of one function, and there are at most 256.
abbrev pub Distinct : Functions → Type 0
Distinct [] = Unit
Distinct (f ∷ fs) = (find_function fs f.name ≡ none) × Distinct fs

pub record IsValid (fs : Functions) : Type 0 where
  pub bound : length fs ≤ 256
  pub distinct : Distinct fs

abbrev or_last : Option Function → Option Function → Option Function
or_last none b = b
or_last (some a) b = some a

find_function-concat :
    (fs : Functions) (f : Function) (n : Text)
    → find_function (fs ++ f ∷ []) n
      ≡ or_last (find_function fs n) (if text_eq f.name n then some f else none)
unfolding find_function
find_function-concat [] f n = refl
find_function-concat (g ∷ fs) f n = elim (Bool-cases (text_eq g.name n)) [
  | inl hit ↦ rw hit refl
  | inr miss ↦ rw miss (find_function-concat fs f n)
]

-- A registration is refused, or adds the function.
data Registers (fs : Functions) (f : Function) : Bool × Functions × List Call → Type 0 where
  refuses : Registers fs f (false, fs, [])
  adds :
      {calls : List Call}
      → length fs < 256
      → find_function fs f.name ≡ none
      → Registers fs f (true, fs ++ registered f ∷ [], calls)

register_function-Registers :
    (granted : Bool) (fs : Functions) (f : Function)
    → Registers fs f (register_function granted fs f)
unfolding register_function
register_function-Registers granted fs f = elim (Bool-cases (leb max_functions (length fs))) [
  | inl full ↦ rw full refuses
  | inr room ↦ elim (Option-cases (find_function fs f.name)) [
    | inr (g, old) ↦ rw (room, old) refuses
    | inl new ↦ elim (Bool-cases granted) [
      | inr lost ↦ rw (room, new, lost) refuses
      | inl given ↦ rw (room, new, given) (adds (ground arith) new)
    ]
  ]
]

registered-name : (f : Function) → (registered f).name ≡ f.name
unfolding registered
registered-name f = refl

find_function-Registers :
    (fs : Functions) (f : Function) (n : Text) {o : Bool × Functions × List Call}
    → Registers fs f o
    → find_function o.1 n
      ≡ (if o.0 && text_eq f.name n then some (registered f) else find_function fs n)
find_function-Registers fs f n refuses = refl
find_function-Registers fs f n (adds lt new) =
    find_function-concat fs (registered f) n
    ∙ rw (registered-name f) (elim (Bool-cases (text_eq f.name n)) [
      | inl hit ↦ rw (hit, ap (find_function fs) (sym (text_eq→eq f.name n hit)) ∙ new) refl
      | inr miss ↦ rw miss (or_last-none (find_function fs n))
    ])
  where
    or_last-none : (a : Option Function) → or_last a none ≡ a
    or_last-none none = refl
    or_last-none (some g) = refl

-- After `register_function`, `get_function` finds the function under its name, with the copy of its
-- parameters, if it was registered, and every other name as before.
pub get_function-register_function :
    (granted : Bool) (fs : Functions) (f : Function) (n : Text)
    → get_function (register_function granted fs f).1 (some n) ≡ (
        if (register_function granted fs f).0 && text_eq f.name n
        then some (registered f)
        else get_function fs (some n))
unfolding get_function
get_function-register_function granted fs f n =
    find_function-Registers fs f n (register_function-Registers granted fs f)

Distinct-concat :
    (fs : Functions) (f : Function)
    → Distinct fs
    → find_function fs f.name ≡ none
    → Distinct (fs ++ f ∷ [])
unfolding find_function
Distinct-concat [] f h e = (refl, tt)
Distinct-concat (g ∷ fs) f h e = elim (Bool-cases (text_eq g.name f.name)) [
  | inl hit ↦ cc (rw hit at e)
  | inr miss ↦
      let rest : find_function fs f.name ≡ none = rw miss at e in
      (
        find_function-concat fs f g.name ∙ rw (h.0) (other (text_eq f.name g.name) refl miss),
        Distinct-concat fs f h.1 rest,
      )
]
  where
    other :
        (b : Bool)
        → text_eq f.name g.name ≡ b
        → text_eq g.name f.name ≡ false
        → or_last none (if b then some f else none) ≡ none
    other false e miss = refl
    other true e miss =
        let same = text_eq→eq f.name g.name e in
        cc (sym (text_eq_refl f.name) ∙ ap (λ n. text_eq n f.name) same ∙ miss)

Registers-IsValid :
    (fs : Functions) (f : Function) {o : Bool × Functions × List Call}
    → Registers fs f o
    → IsValid fs
    → IsValid o.1
unfolding registered
Registers-IsValid fs f refuses h = h
Registers-IsValid fs f (adds lt new) h = record {
  bound = omega (arith, length-append fs (registered f ∷ []));
  distinct = Distinct-concat fs (registered f) h.distinct new;
}

-- `register_function` keeps the table within 256 functions whose names differ, whether it registers or not.
pub register_function-IsValid :
    (granted : Bool) (fs : Functions) (f : Function)
    → IsValid fs
    → IsValid (register_function granted fs f).1
register_function-IsValid granted fs f h =
    Registers-IsValid fs f (register_function-Registers granted fs f) h
