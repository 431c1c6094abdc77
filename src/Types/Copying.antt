-- ===== src/Types/Copying.antt =====
-- Copies of type descriptors (`type_descriptor_clone`).
use Prim.Native.Nat.{max}
use bread_lang.Prelude.{ℕ, zero, suc, ◌+◌, ◌<◌, ◌≡◌, refl, some, Option, arith}
use bread_lang.Types.{
  TypeDescriptor, primitive, array, dict, optional, struct_type, class_type, Fields, end, field,
  Primitive, string, int, bool, float, double, nil, clone, clone_fields, create_primitive,
  base_type,
}

-- How deep the descriptors are nested.
unfoldable mutual
  pub depth : TypeDescriptor → ℕ
  depth (primitive _) = 0
  depth (array e) = 1 + depth e
  depth (dict k v) = 1 + max (depth k) (depth v)
  depth (optional w) = 1 + depth w
  depth (struct_type _ fs) = 1 + depth_fields fs
  depth (class_type _ _ fs) = 1 + depth_fields fs

  pub depth_fields : Fields → ℕ
  depth_fields end = 0
  depth_fields (field _ t fs) = max (depth t) (depth_fields fs)

clone_primitive : (p : Primitive) → create_primitive (base_type (primitive p)) ≡ some (primitive p)
unfolding create_primitive base_type
clone_primitive string = refl
clone_primitive int = refl
clone_primitive bool = refl
clone_primitive float = refl
clone_primitive double = refl
clone_primitive nil = refl

clone_fields_lem :
    (f : ℕ) (copy : TypeDescriptor → Option TypeDescriptor)
    → ((t : TypeDescriptor) → depth t < f → copy t ≡ some t)
    → (fs : Fields) → depth_fields fs < f
    → clone_fields copy fs ≡ some fs
unfolding clone_fields depth depth_fields
clone_fields_lem f copy h end lt = refl
clone_fields_lem f copy h (field n t fs) lt =
    rw (h t (omega arith), clone_fields_lem f copy h fs (omega arith))

-- With fuel above the depth of a descriptor, its copy exists and equals it.
pub clone-eq : (f : ℕ) (t : TypeDescriptor) → depth t < f → clone f t ≡ some t
unfolding clone depth depth_fields
clone-eq zero t lt = absurd (omega arith)
clone-eq (suc f) (primitive p) lt = clone_primitive p
clone-eq (suc f) (array e) lt = rw (clone-eq f e (omega arith))
clone-eq (suc f) (dict k v) lt = rw (clone-eq f k (omega arith), clone-eq f v (omega arith))
clone-eq (suc f) (optional w) lt = rw (clone-eq f w (omega arith))
clone-eq (suc f) (struct_type n fs) lt =
    let same = clone_fields_lem f (clone f) (clone-eq f) fs (omega arith) in rw (same, same)
clone-eq (suc f) (class_type n p fs) lt =
    let same = clone_fields_lem f (clone f) (clone-eq f) fs (omega arith) in rw (same, same)
