-- ===== src/Types/Equality.antt =====
-- What `type_descriptor_equals` decides.
use bread_lang.Prelude.{
  ◌≡◌, refl, sym, ◌∙◌, ◌↔◌, none, true, ◌&&◌, text_eq, text_eq_refl, text_eq→eq, &&-elim, arith,
}
use bread_lang.Types.{
  TypeDescriptor, primitive, array, dict, optional, struct_type, class_type, Fields, end, field,
  Primitive, string, primitive_eq, equals, equals_fields,
}

-- A descriptor without what equality does not see: the parent and the fields of its classes.
mutual
  pub skeleton : TypeDescriptor → TypeDescriptor
  skeleton (primitive p) = primitive p
  skeleton (array e) = array (skeleton e)
  skeleton (dict k v) = dict (skeleton k) (skeleton v)
  skeleton (optional w) = optional (skeleton w)
  skeleton (struct_type n fs) = struct_type n (skeleton_fields fs)
  skeleton (class_type n p fs) = class_type n none end

  pub skeleton_fields : Fields → Fields
  skeleton_fields end = end
  skeleton_fields (field n t fs) = field n (skeleton t) (skeleton_fields fs)

primitive_eq_refl : (p : Primitive) → primitive_eq p p ≡ true
primitive_eq_refl string = refl
primitive_eq_refl p = refl

pub primitive_eq→eq : (p q : Primitive) → primitive_eq p q ≡ true → p ≡ q
primitive_eq→eq p q h = ground arith

mutual
  unfolding equals equals_fields

  pub equals_refl : (t : TypeDescriptor) → equals t t ≡ true
  equals_refl (primitive p) = primitive_eq_refl p
  equals_refl (array e) = equals_refl e
  equals_refl (dict k v) = ground (arith, equals_refl k, equals_refl v)
  equals_refl (optional w) = equals_refl w
  equals_refl (struct_type n fs) = ground (arith, text_eq_refl n, equals_fields_refl fs)
  equals_refl (class_type n p fs) = text_eq_refl n

  equals_fields_refl : (fs : Fields) → equals_fields fs fs ≡ true
  equals_fields_refl end = refl
  equals_fields_refl (field n t fs) =
      ground (arith, text_eq_refl n, equals_refl t, equals_fields_refl fs)

mutual
  unfolding equals equals_fields skeleton skeleton_fields

  equals→skeleton : (t u : TypeDescriptor) → equals t u ≡ true → skeleton t ≡ skeleton u
  equals→skeleton (primitive p) (primitive q) h = cc (primitive_eq→eq p q h)
  equals→skeleton (array a) (array b) h = cc (equals→skeleton a b h)
  equals→skeleton (dict k v) (dict l w) h =
      let (p, q) = &&-elim (equals k l) (equals v w) h in
      cc (equals→skeleton k l p, equals→skeleton v w q)
  equals→skeleton (optional a) (optional b) h = cc (equals→skeleton a b h)
  equals→skeleton (struct_type n fs) (struct_type m gs) h =
      let (p, q) = &&-elim (text_eq n m) (equals_fields fs gs) h in
      cc (text_eq→eq n m p, fields→skeleton fs gs q)
  equals→skeleton (class_type n _ _) (class_type m _ _) h = cc (text_eq→eq n m h)
  equals→skeleton _ _ h = cc

  fields→skeleton :
      (fs gs : Fields) → equals_fields fs gs ≡ true → skeleton_fields fs ≡ skeleton_fields gs
  fields→skeleton end end h = refl
  fields→skeleton (field n t fs) (field m u gs) h =
      let (first, r) = &&-elim (text_eq n m && equals t u) (equals_fields fs gs) h in
      let (p, q) = &&-elim (text_eq n m) (equals t u) first in
      cc (text_eq→eq n m p, equals→skeleton t u q, fields→skeleton fs gs r)
  fields→skeleton _ _ h = cc

mutual
  unfolding equals equals_fields skeleton skeleton_fields

  equals-skeleton : (t u : TypeDescriptor) → equals (skeleton t) (skeleton u) ≡ equals t u
  equals-skeleton (primitive p) (primitive q) = refl
  equals-skeleton (array a) (array b) = equals-skeleton a b
  equals-skeleton (dict k v) (dict l w) = rw (equals-skeleton k l, equals-skeleton v w)
  equals-skeleton (optional a) (optional b) = equals-skeleton a b
  equals-skeleton (struct_type n fs) (struct_type m gs) = rw (fields-skeleton fs gs)
  equals-skeleton (class_type n _ _) (class_type m _ _) = refl
  equals-skeleton _ _ = refl

  fields-skeleton :
      (fs gs : Fields)
      → equals_fields (skeleton_fields fs) (skeleton_fields gs) ≡ equals_fields fs gs
  fields-skeleton end end = refl
  fields-skeleton (field n t fs) (field m u gs) = rw (equals-skeleton t u, fields-skeleton fs gs)
  fields-skeleton _ _ = refl

-- Two descriptors are equal to the code exactly when they are the same up to the parents and the
-- fields of classes.
pub equals_iff : (t u : TypeDescriptor) → (equals t u ≡ true) ↔ (skeleton t ≡ skeleton u)
equals_iff t u =
    (equals→skeleton t u, λ same. sym (equals-skeleton t u) ∙ rw same (equals_refl (skeleton u)))
