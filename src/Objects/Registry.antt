-- ===== src/Objects/Registry.antt =====
-- The registry of class definitions.
use bread_lang.Prelude.{
  ℕ, ◌≡◌, sym, ap, ◌∙◌, true, false, some, List, [], ◌∷◌, inl, inr, if◌then◌else◌, get_elem?, Text,
  text_eq, text_eq→eq, Bool-cases, Option-cases,
}
use bread_lang.Objects.{
  Class, Classes, has_name, find_in, find_definition, register_in, register_definition,
}

has_name_self :
    (cs : List Class) (a : ℕ) (c : Class) (m : Text)
    → get_elem? cs a ≡ some c
    → has_name cs m a ≡ text_eq c.class_name m
unfolding has_name
has_name_self cs a c m e = rw e

-- Two definitions of one name answer alike.
has_name-same :
    (cs : List Class) (n m : Text) (b : ℕ) → has_name cs n b ≡ true → has_name cs m b ≡ text_eq n m
unfolding has_name
has_name-same cs n m b h = elim (Option-cases (get_elem? cs b)) [
  | inl e ↦ absurd (cc (rw e at h))
  | inr (c, e) ↦
      let eq : c.class_name ≡ n = text_eq→eq c.class_name n (rw e at h) in
      rw e (ap (λ k. text_eq k m) eq)
]

module _ (cs : List Class) (a : ℕ) (c : Class) (here : get_elem? cs a ≡ some c) (m : Text) where
  find_in-register_in :
      (rs : List ℕ)
      → find_in cs m (register_in true cs c.class_name a rs).0
        ≡ (if text_eq c.class_name m then some a else find_in cs m rs)
  unfolding find_in register_in
  find_in-register_in [] = rw (has_name_self cs a c m here)
  find_in-register_in (b ∷ bs) = elim (Bool-cases (has_name cs c.class_name b)) [
    | inl hit ↦
        rw (hit, has_name_self cs a c m here, has_name-same cs c.class_name m b hit)
          (elim (Bool-cases (text_eq c.class_name m)) [ inl e ↦ rw e | inr e ↦ rw e ])
    | inr miss ↦
        rw (miss, find_in-register_in bs)
          (elim (Bool-cases (text_eq c.class_name m)) [
            | inr e ↦ rw e
            | inl e ↦
                let eq = text_eq→eq c.class_name m e in
                let missed : has_name cs m b ≡ false = sym (ap (λ n. has_name cs n b) eq) ∙ miss in
                rw (e, missed)
          ])
  ]

-- Where its allocation succeeds, the registration of a class makes `bread_class_find_definition` find
-- it under its name, in place of a definition of the same name, and every other name as before.
pub find_definition-register_definition :
    (st : Classes) (a : ℕ) (c : Class) (m : Text)
    → get_elem? st.objects a ≡ some c
    → find_definition (register_definition true st c.class_name a).0 m
      ≡ (if text_eq c.class_name m then some a else find_definition st m)
unfolding find_definition register_definition
find_definition-register_definition st a c m here =
    find_in-register_in st.objects a c here m st.registry
