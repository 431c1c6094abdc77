-- ===== src/Types.antt =====
-- Type descriptors (include/core/var.h, src/core/type_descriptor.c): the data, the constructors'
-- checks, copying, equality and assignability. `malloc` is taken to succeed.
pub mod Copying
pub mod Equality
pub mod Assignable
use bread_lang.Prelude.{
  ℕ, zero, suc, Bool, true, false, ◌&&◌, ◌||◌, Option, none, some, Text, text_eq,
}

-- `enum VarType`
pub data VarType : Type 0 where
  t_string t_int t_bool t_float t_double t_array t_dict t_optional t_struct t_class t_nil : VarType

-- The base types that carry no parameters.
pub data Primitive : Type 0 where
  string int bool float double nil : Primitive

-- `struct TypeDescriptor`. The two parallel arrays of a record type's fields are one list. No code
-- fills the methods of a class descriptor, which are left out.
mutual
  pub data TypeDescriptor : Type 0 where
    primitive : Primitive → TypeDescriptor
    array : TypeDescriptor → TypeDescriptor
    dict : TypeDescriptor → TypeDescriptor → TypeDescriptor
    optional : TypeDescriptor → TypeDescriptor
    struct_type : Text → Fields → TypeDescriptor
    class_type : Text → Option Text → Fields → TypeDescriptor

  pub data Fields : Type 0 where
    end : Fields
    field : Text → TypeDescriptor → Fields → Fields

unfoldable pub base_type : TypeDescriptor → VarType
base_type (primitive string) = t_string
base_type (primitive int) = t_int
base_type (primitive bool) = t_bool
base_type (primitive float) = t_float
base_type (primitive double) = t_double
base_type (primitive nil) = t_nil
base_type (array _) = t_array
base_type (dict _ _) = t_dict
base_type (optional _) = t_optional
base_type (struct_type _ _) = t_struct
base_type (class_type _ _ _) = t_class

-- `type_descriptor_create_primitive`
unfoldable pub create_primitive : VarType → Option TypeDescriptor
create_primitive t_string = some (primitive string)
create_primitive t_int = some (primitive int)
create_primitive t_bool = some (primitive bool)
create_primitive t_float = some (primitive float)
create_primitive t_double = some (primitive double)
create_primitive t_nil = some (primitive nil)
create_primitive t_array = none
create_primitive t_dict = none
create_primitive t_optional = none
create_primitive t_struct = none
create_primitive t_class = none

infixl 5 ◌>>=◌
abbrev pub ◌>>=◌ {ℓ κ} : {A : Type ℓ} {B : Type κ} → Option A → (A → Option B) → Option B
none >>= f = none
some a >>= f = f a

-- `type_descriptor_create_array` and `type_descriptor_create_optional`, given what may be NULL.
unfoldable pub create_array : Option TypeDescriptor → Option TypeDescriptor
create_array none = none
create_array (some t) = some (array t)

unfoldable pub create_dict : Option TypeDescriptor → Option TypeDescriptor → Option TypeDescriptor
create_dict none _ = none
create_dict (some k) none = none
create_dict (some k) (some v) = some (dict k v)

unfoldable pub create_optional : Option TypeDescriptor → Option TypeDescriptor
create_optional none = none
create_optional (some t) = some (optional t)

-- The loop over the field types of a struct or class, with the copy of one type.
unfoldable pub clone_fields : (TypeDescriptor → Option TypeDescriptor) → Fields → Option Fields
clone_fields copy end = some end
clone_fields copy (field n t fs) =
    copy t >>= λ c. clone_fields copy fs >>= λ gs. some (field n c gs)

-- `type_descriptor_create_struct` and `type_descriptor_create_class` copy the fields once more.
unfoldable pub create_struct :
    (TypeDescriptor → Option TypeDescriptor) → Option Text → Fields → Option TypeDescriptor
create_struct copy none fs = none
create_struct copy (some n) fs = clone_fields copy fs >>= λ gs. some (struct_type n gs)

unfoldable pub create_class :
    (TypeDescriptor → Option TypeDescriptor)
    → Option Text
    → Option Text
    → Fields
    → Option TypeDescriptor
create_class copy none p fs = none
create_class copy (some n) p fs = clone_fields copy fs >>= λ gs. some (class_type n p gs)

-- `type_descriptor_clone`, with fuel for the depth of the calls.
unfoldable pub clone : ℕ → TypeDescriptor → Option TypeDescriptor
unfolding clone_fields create_struct create_class create_array create_dict create_optional
    create_primitive base_type
clone zero t = none
clone (suc f) (array e) = clone f e >>= λ c. create_array (some c)
clone (suc f) (dict k v) = clone f k >>= λ c. clone f v >>= λ d. create_dict (some c) (some d)
clone (suc f) (optional w) = clone f w >>= λ c. create_optional (some c)
clone (suc f) (struct_type n fs) =
    clone_fields (clone f) fs >>= λ gs. create_struct (clone f) (some n) gs
clone (suc f) (class_type n p fs) =
    clone_fields (clone f) fs >>= λ gs. create_class (clone f) (some n) p gs
clone (suc f) (primitive p) = create_primitive (base_type (primitive p))

abbrev primitive_eq : Primitive → Primitive → Bool
primitive_eq string string = true
primitive_eq int int = true
primitive_eq bool bool = true
primitive_eq float float = true
primitive_eq double double = true
primitive_eq nil nil = true
primitive_eq _ _ = false

-- `type_descriptor_equals` on descriptors that are not NULL. Classes are compared by name alone.
-- The loop over the fields stops at the first difference; that both lists end together is the
-- test of the field counts.
unfoldable mutual
  pub equals : TypeDescriptor → TypeDescriptor → Bool
  equals (primitive p) (primitive q) = primitive_eq p q
  equals (array a) (array b) = equals a b
  equals (dict k v) (dict l w) = equals k l && equals v w
  equals (optional a) (optional b) = equals a b
  equals (struct_type n fs) (struct_type m gs) = text_eq n m && equals_fields fs gs
  equals (class_type n _ _) (class_type m _ _) = text_eq n m
  equals _ _ = false

  pub equals_fields : Fields → Fields → Bool
  equals_fields end end = true
  equals_fields (field n t fs) (field m u gs) = text_eq n m && equals t u && equals_fields fs gs
  equals_fields _ _ = false

unfoldable pub is_nil : TypeDescriptor → Bool
is_nil (primitive nil) = true
is_nil _ = false

-- The four tests of a struct or class against a struct or class of the same name.
unfoldable pub same_name : TypeDescriptor → TypeDescriptor → Bool
same_name (struct_type n _) (struct_type m _) = text_eq n m
same_name (struct_type n _) (class_type m _ _) = text_eq n m
same_name (class_type n _ _) (struct_type m _) = text_eq n m
same_name (class_type n _ _) (class_type m _ _) = text_eq n m
same_name _ _ = false

-- `type_descriptor_compatible` on descriptors that are not NULL.
unfoldable pub compatible : TypeDescriptor → TypeDescriptor → Bool
unfolding equals is_nil same_name
compatible (array a) (array b) = equals (array a) (array b) || is_nil a || compatible a b
compatible (dict k v) (dict l w) =
    equals (dict k v) (dict l w) || (is_nil k && is_nil v) || (compatible k l && compatible v w)
compatible from (optional t) = equals from (optional t) || is_nil from || equals from t
compatible from to = equals from to || same_name from to
