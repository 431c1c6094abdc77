-- ===== src/Arrays/Room.antt =====
-- The invariant of an array, and the array with room and a type for one more item.
use bread_lang.Prelude.{
  ℕ, zero, suc, ◌*◌, ◌≤◌, ◌<◌, ◌≡◌, refl, ap, Bool, true, false, not, ◌&&◌, inl, inr, some, List,
  [], ◌∷◌, ◌++◌, ◌==◌, leb, if◌then◌else◌, Bool-cases, set, take, drop, length, &&-elim, subst,
  arith,
}
use bread_lang.Types.{VarType}
use bread_lang.Values.{Value, type_of, type_eq, is_nil_type}
use bread_lang.Arrays.{Array, count, mismatched, adopt_type, reserve}

abbrev pub AllOf : VarType → List Value → Type 0
AllOf t [] = Unit
AllOf t (x ∷ xs) = (type_eq t (type_of x) ≡ true) × AllOf t xs

-- The items fit into the buffer, and are of the array's type if it has one.
pub record IsValid (a : Array) : Type 0 where
  pub fits : count a ≤ a.capacity
  pub typed : is_nil_type a.element_type ≡ false → AllOf a.element_type a.items

module _ (t : VarType) where
  pub AllOf-insert :
      (xs : List Value) (i : ℕ) (v : Value)
      → AllOf t xs
      → type_eq t (type_of v) ≡ true
      → AllOf t (take i xs ++ v ∷ drop i xs)
  AllOf-insert xs zero v h e = (e, h)
  AllOf-insert [] (suc i) v h e = (e, tt)
  AllOf-insert (x ∷ xs) (suc i) v h e = (h.0, AllOf-insert xs i v h.1 e)

  pub AllOf-append :
      (xs : List Value) (v : Value)
      → AllOf t xs
      → type_eq t (type_of v) ≡ true
      → AllOf t (xs ++ v ∷ [])
  AllOf-append [] v h e = (e, tt)
  AllOf-append (x ∷ xs) v h e = (h.0, AllOf-append xs v h.1 e)

  pub AllOf-remove : (xs : List Value) (i : ℕ) → AllOf t xs → AllOf t (take i xs ++ drop (suc i) xs)
  AllOf-remove [] zero h = tt
  AllOf-remove [] (suc i) h = tt
  AllOf-remove (x ∷ xs) zero h = h.1
  AllOf-remove (x ∷ xs) (suc i) h = (h.0, AllOf-remove xs i h.1)

  pub AllOf-set :
      (xs : List Value) (i : ℕ) (v : Value)
      → AllOf t xs
      → type_eq t (type_of v) ≡ true
      → AllOf t (set xs i v)
  AllOf-set [] i v h e = tt
  AllOf-set (x ∷ xs) zero v h e = (e, h.1)
  AllOf-set (x ∷ xs) (suc i) v h e = (h.0, AllOf-set xs i v h.1 e)

pub type_eq_refl : (t : VarType) → type_eq t t ≡ true
unfolding type_eq
type_eq_refl t = ground arith

mismatched_step :
    (a : Array) (v : Value)
    → mismatched a v ≡ not (is_nil_type a.element_type) && not (type_eq a.element_type (type_of v))
unfolding mismatched
mismatched_step a v = refl

not-false : (b : Bool) → not b ≡ false → b ≡ true
not-false b h = ground arith

pub matched :
    (a : Array) (v : Value)
    → mismatched a v ≡ false
    → is_nil_type a.element_type ≡ false
    → type_eq a.element_type (type_of v) ≡ true
matched a v good typed = not-false _ (rw (mismatched_step, typed) at good)

AllOf-empty : (t : VarType) (xs : List Value) → (length xs == 0) ≡ true → AllOf t xs
AllOf-empty t [] h = tt
AllOf-empty t (x ∷ xs) h = absurd (ground arith)

-- `b` is `a` with a type that suits `v`.
pub record Suits (a : Array) (v : Value) (b : Array) : Type 0 where
  pub items : b.items ≡ a.items
  pub capacity : b.capacity ≡ a.capacity
  pub typed : is_nil_type b.element_type ≡ false → AllOf b.element_type a.items
  pub suits : is_nil_type b.element_type ≡ false → type_eq b.element_type (type_of v) ≡ true

adopt_step :
    (a : Array) (v : Value)
    → adopt_type a v ≡ record a {
      element_type =
          if is_nil_type a.element_type && count a == 0 then type_of v else a.element_type;
    }
unfolding adopt_type
adopt_step a v = refl

pub adopt_type-Suits :
    (a : Array) (v : Value) → IsValid a → mismatched a v ≡ false → Suits a v (adopt_type a v)
adopt_type-Suits a v h good = elim (Bool-cases (is_nil_type a.element_type && count a == 0)) [
  | inl fresh ↦
      let (untyped, empty) = &&-elim (is_nil_type a.element_type) (count a == 0) fresh in
      rw (adopt_step, fresh)
        (record {
          items = refl;
          capacity = refl;
          typed = λ _. AllOf-empty (type_of v) a.items empty;
          suits = λ _. type_eq_refl (type_of v);
        })
  | inr old ↦
      rw (adopt_step, old)
        (record { items = refl; capacity = refl; typed = h.typed; suits = matched a v good })
]

-- `b` is `a` with room for an item of the type of `v`.
pub record Ready (a : Array) (v : Value) (b : Array) : Type 0 where
  pub items : b.items ≡ a.items
  pub room : count a < b.capacity
  pub typed : is_nil_type b.element_type ≡ false → AllOf b.element_type a.items
  pub suits : is_nil_type b.element_type ≡ false → type_eq b.element_type (type_of v) ≡ true

-- The state that an insertion or an append works on, or what is left if the allocation fails.
pub reserve-Suits :
    (alloc : ℕ → Bool) {a c b : Array} (v : Value)
    → IsValid a
    → Suits a v c
    → reserve alloc c ≡ some b
    → Ready a v b
unfolding reserve
reserve-Suits alloc {a} {c} {b} v h s e =
    let fits = h.fits in
    let same = s.capacity in
    let items = ap (λ (xs : List Value). length xs) s.items in
    elim (Bool-cases (leb c.capacity (count c))) [
      | inr roomy ↦
          let is_c : c ≡ b = cc (rw roomy at e) in
          subst (λ r. Ready a v r) is_c
            (record { items = s.items; room = ground arith; typed = s.typed; suits = s.suits })
      | inl tight ↦ elim (Bool-cases (alloc (if c.capacity == 0 then 8 else c.capacity * 2))) [
        | inr refused ↦ absurd (cc (rw (tight, refused) at e))
        | inl granted ↦
            let grown : Array = record c {
              capacity = if c.capacity == 0 then 8 else c.capacity * 2;
            } in
            let is_c : grown ≡ b = cc (rw (tight, granted) at e) in
            subst (λ r. Ready a v r) is_c
              (record { items = s.items; room = ground arith; typed = s.typed; suits = s.suits })
      ]
    ]
