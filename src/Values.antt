-- ===== src/Values.antt =====
-- Runtime values (include/core/value.h, src/core/value_core.c): their data, the test by which arrays
-- and dictionaries compare them, and the reference counting calls that copying and dropping a value
-- make. A heap object is its address; a string also shows its bytes, which never change.
pub mod Keys
use Prim.Native.Nat.{bit_xor}
use bread_lang.Prelude.{
  ℕ, suc, ◌+◌, ◌-◌, ◌*◌, ◌/◌, ◌%◌, ◌^◌, Bool, true, false, not, ◌&&◌, ◌||◌, Option, none, some,
  List, [], ◌∷◌, ◌==◌, ltb, leb, if◌then◌else◌, Text, text_eq,
}
use bread_lang.Prelude.Int.{ℤ, pos, negsuc}
use bread_lang.Types.{
  VarType, t_string, t_int, t_bool, t_float, t_double, t_array, t_dict, t_optional, t_struct,
  t_class, t_nil,
}

-- `struct BreadString`: `len` bytes, which may hold NULs.
pub record Str : Type 0 where
  pub address : ℕ
  pub chars : List ℕ

-- `struct BreadValue`. Floats and doubles are their bit patterns; a pointer may be NULL.
pub data Value : Type 0 where
  nil : Value
  bool : Bool → Value
  int : ℤ → Value
  float double : ℕ → Value
  string : Option Str → Value
  array dict optional struct class : Option ℕ → Value

unfoldable pub type_of : Value → VarType
type_of nil = t_nil
type_of (bool _) = t_bool
type_of (int _) = t_int
type_of (float _) = t_float
type_of (double _) = t_double
type_of (string _) = t_string
type_of (array _) = t_array
type_of (dict _) = t_dict
type_of (optional _) = t_optional
type_of (struct _) = t_struct
type_of (class _) = t_class

unfoldable pub type_code : VarType → ℕ
type_code t_string = 0
type_code t_int = 1
type_code t_bool = 2
type_code t_float = 3
type_code t_double = 4
type_code t_array = 5
type_code t_dict = 6
type_code t_optional = 7
type_code t_struct = 8
type_code t_class = 9
type_code t_nil = 10

-- `==` on the enumeration
unfoldable pub type_eq : VarType → VarType → Bool
unfolding type_code
type_eq a b = type_code a == type_code b

unfoldable pub is_nil_type : VarType → Bool
unfolding type_eq
is_nil_type t = type_eq t t_nil

-- The heap object that a value refers to.
unfoldable pub ref : Value → Option ℕ
ref (string (some s)) = some s.address
ref (array p) = p
ref (dict p) = p
ref (optional p) = p
ref (struct p) = p
ref (class p) = p
ref _ = none

-- The calls of `bread_object_retain` and of the objects' release functions, in their order.
pub data Call : Type 0 where
  retain release : ℕ → Call

-- `bread_value_clone` returns its argument, with one more reference.
unfoldable pub clone_calls : Value → List Call
unfolding ref
clone_calls v = elim (ref v) [ none ↦ [] | some p ↦ retain p ∷ [] ]

-- `bread_value_release` drops the reference; the value is nil afterwards.
unfoldable pub release_calls : Value → List Call
unfolding ref
release_calls v = elim (ref v) [ none ↦ [] | some p ↦ release p ∷ [] ]

-- `bread_string_cstr` as `strcmp` sees it: the bytes before the first NUL.
unfoldable pub c_str : List ℕ → Text
c_str [] = []
c_str (c ∷ cs) = let rest = c_str cs in if c == 0 then [] else c ∷ rest

-- `==` on doubles: a NaN equals nothing, and the two zeros are equal.
unfoldable pub is_nan : ℕ → Bool
is_nan w = ltb 0x7ff0_0000_0000_0000 (w % 0x8000_0000_0000_0000)

unfoldable pub is_zero : ℕ → Bool
is_zero w = w % 0x8000_0000_0000_0000 == 0

unfoldable pub double_eq : ℕ → ℕ → Bool
unfolding is_nan is_zero
double_eq a b = not (is_nan a) && not (is_nan b) && (a == b || (is_zero a && is_zero b))

unfoldable pub int_eq : ℤ → ℤ → Bool
int_eq (pos a) (pos b) = a == b
int_eq (negsuc a) (negsuc b) = a == b
int_eq _ _ = false

abbrev pub bool_eq : Bool → Bool → Bool
bool_eq true b = b
bool_eq false b = not b

-- `strcmp` on two strings, where both are there
unfoldable pub str_eq : Option Str → Option Str → Bool
unfolding c_str
str_eq (some a) (some b) = text_eq (c_str a.chars) (c_str b.chars)
str_eq _ _ = false

-- The comparison in `bread_dict_find_slot`, `bread_array_contains` and `bread_array_index_of`.
unfoldable pub same_value : Value → Value → Bool
unfolding str_eq double_eq int_eq
same_value nil nil = true
same_value (bool a) (bool b) = bool_eq a b
same_value (int a) (int b) = int_eq a b
same_value (double a) (double b) = double_eq a b
same_value (string a) (string b) = str_eq a b
same_value _ _ = false

-- `(uint32_t)` of an `int64_t`
unfoldable pub to_u32 : ℤ → ℕ
to_u32 (pos n) = n % 2 ^ 32
to_u32 (negsuc n) = 2 ^ 32 - 1 - n % 2 ^ 32

-- `((x >> 16) ^ x) * 0x45d9f3b`
unfoldable pub mix : ℕ → ℕ
mix x = bit_xor (x / 2 ^ 16) x * 0x45d9f3b % 2 ^ 32

-- `(uint32_t)str[i]`, where `char` is signed
unfoldable pub widen : ℕ → ℕ
widen c = if ltb c 128 then c else c + (2 ^ 32 - 256)

-- The loop of the FNV-1a hash.
unfoldable pub fnv1a : ℕ → List ℕ → ℕ
unfolding widen
fnv1a h [] = h
fnv1a h (c ∷ cs) = fnv1a (bit_xor h (widen c) * 16777619 % 2 ^ 32) cs

-- `bread_dict_hash_key`
unfoldable pub hash_key : Value → ℕ
unfolding to_u32 mix fnv1a
hash_key (int n) = let x = mix (mix (to_u32 n)) in bit_xor (x / 2 ^ 16) x
hash_key (double w) = bit_xor (w % 2 ^ 32) (w / 2 ^ 32)
hash_key (string (some s)) = fnv1a 2166136261 s.chars
hash_key (bool b) = if b then 1 else 0
hash_key _ = 0

-- `BREAD_ERROR_SET_…`: which error a call leaves behind.
pub data Failure : Type 0 where
  runtime type_mismatch index_out_of_bounds memory_allocation : Failure

-- What a call that changes an object leaves: its result, the object, the reference counting calls
-- that it made in their order, and the error that it set.
pub record Outcome (S A : Type 0) : Type 0 where
  pub result : A
  pub state : S
  pub calls : List Call
  pub failure : Option Failure
