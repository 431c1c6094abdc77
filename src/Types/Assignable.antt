-- ===== src/Types/Assignable.antt =====
-- What `type_descriptor_compatible` decides: the rules by which a value of one type may be assigned
-- to a place of another.
use bread_lang.Prelude.{
  ◌≡◌, refl, ◌↔◌, inl, inr, Option, none, some, true, ◌||◌, Text, text_eq, text_eq_refl, text_eq→eq,
  &&-elim, ||-elim, ||-left, ||-right, &&-intro,
}
use bread_lang.Types.{
  TypeDescriptor, primitive, array, dict, optional, struct_type, class_type, nil, equals, is_nil,
  same_name, compatible,
}
use bread_lang.Types.Equality.{skeleton, equals_iff}

abbrev pub name_of : TypeDescriptor → Option Text
name_of (struct_type n _) = some n
name_of (class_type n _ _) = some n
name_of _ = none

pub data Assignable : TypeDescriptor → TypeDescriptor → Type 0 where
  same : {t u : TypeDescriptor} → skeleton t ≡ skeleton u → Assignable t u
  named :
      {t u : TypeDescriptor} (n : Text) → name_of t ≡ some n → name_of u ≡ some n → Assignable t u
  empty_array : {t u : TypeDescriptor} → t ≡ primitive nil → Assignable (array t) (array u)
  elements : {t u : TypeDescriptor} → Assignable t u → Assignable (array t) (array u)
  empty_dict :
      {k v l w : TypeDescriptor}
      → k ≡ primitive nil
      → v ≡ primitive nil
      → Assignable (dict k v) (dict l w)
  entries :
      {k v l w : TypeDescriptor}
      → Assignable k l
      → Assignable v w
      → Assignable (dict k v) (dict l w)
  absent : {t u : TypeDescriptor} → t ≡ primitive nil → Assignable t (optional u)
  wrapped : {t u : TypeDescriptor} → skeleton t ≡ skeleton u → Assignable t (optional u)

is_nil→eq : (t : TypeDescriptor) → is_nil t ≡ true → t ≡ primitive nil
unfolding is_nil
is_nil→eq (primitive nil) h = refl
is_nil→eq (primitive p) h = cc
is_nil→eq _ h = cc

text_eq_of : (a b : Text) → a ≡ b → text_eq a b ≡ true
text_eq_of a b e = rw e (text_eq_refl b)

same_name→Assignable : (t u : TypeDescriptor) → same_name t u ≡ true → Assignable t u
unfolding same_name
same_name→Assignable (struct_type n _) (struct_type m _) h = named m (cc (text_eq→eq n m h)) refl
same_name→Assignable (struct_type n _) (class_type m _ _) h = named m (cc (text_eq→eq n m h)) refl
same_name→Assignable (class_type n _ _) (struct_type m _) h = named m (cc (text_eq→eq n m h)) refl
same_name→Assignable (class_type n _ _) (class_type m _ _) h = named m (cc (text_eq→eq n m h)) refl
same_name→Assignable _ _ h = absurd (cc)

-- the two tests that apply to any pair of types
plain→Assignable : (t u : TypeDescriptor) → (equals t u || same_name t u) ≡ true → Assignable t u
plain→Assignable t u h = elim (||-elim _ _ h) [
  | inl e ↦ same ((equals_iff t u).0 e)
  | inr e ↦ same_name→Assignable t u e
]

compatible→Assignable : (t u : TypeDescriptor) → compatible t u ≡ true → Assignable t u
unfolding compatible
compatible→Assignable (array a) (array b) h = elim (||-elim _ _ h) [
  | inl e ↦ elim (||-elim _ _ e) [
    | inl eq ↦ same ((equals_iff (array a) (array b)).0 eq)
    | inr n ↦ empty_array (is_nil→eq a n)
  ]
  | inr c ↦ elements (compatible→Assignable a b c)
]
compatible→Assignable (dict k v) (dict l w) h = elim (||-elim _ _ h) [
  | inl e ↦ elim (||-elim _ _ e) [
    | inl eq ↦ same ((equals_iff (dict k v) (dict l w)).0 eq)
    | inr n ↦ let (p, q) = &&-elim _ _ n in empty_dict (is_nil→eq k p) (is_nil→eq v q)
  ]
  | inr c ↦
      let (p, q) = &&-elim _ _ c in
      entries (compatible→Assignable k l p) (compatible→Assignable v w q)
]
compatible→Assignable t (optional u) h = elim (||-elim _ _ h) [
  | inl e ↦ elim (||-elim _ _ e) [
    | inl eq ↦ same ((equals_iff t (optional u)).0 eq)
    | inr n ↦ absent (is_nil→eq t n)
  ]
  | inr eq ↦ wrapped ((equals_iff t u).0 eq)
]
compatible→Assignable t u h = plain→Assignable t u h

named→same_name :
    (t u : TypeDescriptor) (n : Text)
    → name_of t ≡ some n
    → name_of u ≡ some n
    → same_name t u ≡ true
unfolding same_name
named→same_name (struct_type m _) (struct_type k _) n p q = text_eq_of m k (cc)
named→same_name (struct_type m _) (class_type k _ _) n p q = text_eq_of m k (cc)
named→same_name (class_type m _ _) (struct_type k _) n p q = text_eq_of m k (cc)
named→same_name (class_type m _ _) (class_type k _ _) n p q = text_eq_of m k (cc)
named→same_name _ _ n p q = absurd (cc)

equals→compatible : (t u : TypeDescriptor) → equals t u ≡ true → compatible t u ≡ true
unfolding compatible
equals→compatible (array a) (array b) h = rw h
equals→compatible (dict k v) (dict l w) h = rw h
equals→compatible (optional w) (optional u) h = rw h
equals→compatible t (optional u) h = absurd (cc)
equals→compatible t u h = ||-left (equals t u) (same_name t u) h

same_name→compatible : (t u : TypeDescriptor) → same_name t u ≡ true → compatible t u ≡ true
unfolding compatible
same_name→compatible (struct_type _ _) (struct_type _ _) h = ||-right _ _ h
same_name→compatible (struct_type _ _) (class_type _ _ _) h = h
same_name→compatible (class_type _ _ _) (struct_type _ _) h = h
same_name→compatible (class_type _ _ _) (class_type _ _ _) h = ||-right _ _ h
same_name→compatible _ _ h = absurd (cc)

wrapped→compatible : (t u : TypeDescriptor) → equals t u ≡ true → compatible t (optional u) ≡ true
unfolding compatible
wrapped→compatible (array a) u h = rw h
wrapped→compatible t u h = ||-right (equals t (optional u) || is_nil t) (equals t u) h

absent→compatible : (u : TypeDescriptor) → compatible (primitive nil) (optional u) ≡ true
unfolding compatible
absent→compatible u = refl

Assignable→compatible : {t u : TypeDescriptor} → Assignable t u → compatible t u ≡ true
unfolding compatible
Assignable→compatible (same {t} {u} e) = equals→compatible t u ((equals_iff t u).1 e)
Assignable→compatible (named {t} {u} n p q) = same_name→compatible t u (named→same_name t u n p q)
Assignable→compatible (empty_array e) = rw e (||-left _ _ (||-right _ _ refl))
Assignable→compatible (elements d) = ||-right _ _ (Assignable→compatible d)
Assignable→compatible (empty_dict p q) = rw (p, q) (||-left _ _ (||-right _ _ refl))
Assignable→compatible (entries d e) =
    ||-right _ _ (&&-intro _ _ (Assignable→compatible d) (Assignable→compatible e))
Assignable→compatible (absent {t} {u} e) = rw e (absent→compatible u)
Assignable→compatible (wrapped {t} {u} e) = wrapped→compatible t u ((equals_iff t u).1 e)

-- The check accepts an assignment exactly when the rules derive it: equal types, two nominal types of
-- one name, an empty literal, elements or entries in turn, nothing or a plain value into an optional.
pub compatible_iff : (t u : TypeDescriptor) → (compatible t u ≡ true) ↔ Assignable t u
compatible_iff t u = (compatible→Assignable t u, Assignable→compatible)
