-- ===== src/Objects/Fields.antt =====
-- Reading a field after writing one.
use bread_lang.Prelude.{
  ℕ, zero, suc, ◌+◌, ◌-◌, ◌≤◌, ◌<◌, ◌≡◌, ◌≢◌, refl, sym, ap, ◌∙◌, false, Option, none, some, List,
  [], ◌∷◌, inl, inr, if◌then◌else◌, get_elem?, get_or, set, length, Text, text_eq, text_eq_refl,
  text_eq→eq, Bool-cases, Option-cases, get_elem?-set_self, get_elem?-set_ne, arith,
}
use bread_lang.Values.{Value}
use bread_lang.Objects.{
  index_of_name, field_at, replace_at, read_field, write_field, Struct, struct_get_field,
  struct_set_field, Class, class_get_field, class_set_field,
}

-- The index is that of a field of the name.
index_of_name-found :
    (k : ℕ) (names : List Text) (n : Text) (i : ℕ)
    → index_of_name k names n ≡ some i
    → (k ≤ i) × (i < k + length names) × (get_or names (i - k) [] ≡ n)
unfolding index_of_name
index_of_name-found k [] n i h = absurd (cc)
index_of_name-found k (x ∷ xs) n i h = elim (Bool-cases (text_eq x n)) [
  | inl e ↦
      let eq : k ≡ i = ground arith in
      let z : i - k ≡ 0 = omega arith in (omega arith, omega arith, rw z (text_eq→eq x n e))
  | inr e ↦
      let rest : index_of_name (suc k) xs n ≡ some i = ground arith in
      let (low, high, here) = index_of_name-found (suc k) xs n i rest in
      let z : i - k ≡ suc (i - suc k) = omega arith in (omega arith, omega arith, rw z here)
]

-- The value is there.
get_elem-inside :
    (vs : List Value) (i : ℕ) → i < length vs → (w : Value) × (get_elem? vs i ≡ some w)
get_elem-inside [] i lt = absurd (omega arith)
get_elem-inside (v ∷ vs) zero lt = (v, refl)
get_elem-inside (v ∷ vs) (suc i) lt = get_elem-inside vs i (omega arith)

-- What is read where `v` was written over what was there.
abbrev pub overwritten : Option Value → Value → Option Value
overwritten none v = none
overwritten (some w) v = some v

read-write_some :
    (vs : List Value) (i : ℕ) (v : Value)
    → i < length vs
    → get_elem? (set vs i v) i ≡ overwritten (get_elem? vs i) v
read-write_some vs i v lt =
    let (w, e) = get_elem-inside vs i lt in
    get_elem?-set_self vs i v lt ∙ sym (ap (λ o. overwritten o v) e)

other_field :
    (names : List Text) (f g : Text) (i j : ℕ)
    → index_of_name 0 names f ≡ some i
    → index_of_name 0 names g ≡ some j
    → text_eq f g ≡ false
    → i ≢ j
other_field names f g i j at_i at_j ne same =
    let (_, _, is_f) = index_of_name-found 0 names f i at_i in
    let (_, _, is_g) = index_of_name-found 0 names g j at_j in
    let z : i - 0 ≡ j - 0 = omega arith in
    let eq : f ≡ g = sym is_f ∙ ap (λ k. get_or names k []) z ∙ is_g in
    absurd (cc (text_eq_refl g, ne, eq))

-- The fields of an object, of which each has a value.
module _ (names : List Text) (vs : List Value) (f : Text) (v : Value)
    (full : length names ≡ length vs) where
  read-write_same :
      read_field names (write_field names vs f v).0 f ≡ overwritten (read_field names vs f) v
  unfolding read_field write_field field_at replace_at
  read-write_same = elim (Option-cases (index_of_name 0 names f)) [
    | inl e ↦ rw e
    | inr (i, e) ↦
        let (low, high, here) = index_of_name-found 0 names f i e in
        rw e (read-write_some vs i v (omega arith))
  ]

  read-write_other :
      (g : Text)
      → text_eq f g ≡ false
      → read_field names (write_field names vs f v).0 g ≡ read_field names vs g
  unfolding read_field write_field field_at replace_at
  read-write_other g ne = elim (Option-cases (index_of_name 0 names f)) [
    | inl e ↦ rw e
    | inr (i, e) ↦ elim (Option-cases (index_of_name 0 names g)) [
      | inl z ↦ rw (e, z)
      | inr (j, at_j) ↦ rw (e, at_j) (get_elem?-set_ne vs v (other_field names f g i j e at_j ne))
    ]
  ]

  read_field-write_field :
      (g : Text)
      → read_field names (write_field names vs f v).0 g
        ≡ (if text_eq f g then overwritten (read_field names vs g) v else read_field names vs g)
  read_field-write_field g = elim (Bool-cases (text_eq f g)) [
    | inr ne ↦ rw ne (read-write_other g ne)
    | inl e ↦
        let same = text_eq→eq f g e in
        rw e (
          ap (λ n. read_field names (write_field names vs f v).0 n) (sym same)
          ∙ read-write_same
          ∙ ap (λ n. overwritten (read_field names vs n) v) same)
  ]

-- Where each field of a struct has a value, after a write of one, a field of that name reads the
-- new value if the struct has one, and every other name reads as before.
pub struct_get_field-struct_set_field :
    (s : Struct) (f g : Text) (v : Value)
    → length s.field_names ≡ length s.field_values
    → struct_get_field (struct_set_field s (some f) v).0 (some g) ≡ (
        if text_eq f g
        then overwritten (struct_get_field s (some g)) v
        else struct_get_field s (some g))
unfolding struct_get_field struct_set_field
struct_get_field-struct_set_field s f g v full =
    read_field-write_field s.field_names s.field_values f v full g

-- Where each field of a class has a value, after a write of one, a field of that name reads the
-- new value if the class has one, and every other name reads as before.
pub class_get_field-class_set_field :
    (c : Class) (f g : Text) (v : Value)
    → length c.field_names ≡ length c.field_values
    → class_get_field (class_set_field c (some f) v).0 (some g) ≡ (
        if text_eq f g
        then overwritten (class_get_field c (some g)) v
        else class_get_field c (some g))
unfolding class_get_field class_set_field
class_get_field-class_set_field c f g v full =
    read_field-write_field c.field_names c.field_values f v full g
