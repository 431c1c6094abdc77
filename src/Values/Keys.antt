-- ===== src/Values/Keys.antt =====
-- Values that serve as dictionary keys: on these the comparison is an equivalence, and the hash
-- respects it.
use bread_lang.Prelude.{
  ◌≡◌, refl, sym, ap, ◌∙◌, true, false, Option, none, some, text_eq_refl, text_eq→eq, text_eq_symm,
  arith,
}
use bread_lang.Prelude.Int.{ℤ, pos, negsuc}
use bread_lang.Values.{
  Value, Str, nil, bool, int, float, double, string, array, dict, optional, struct, class,
  same_value, hash_key, str_eq, c_str, is_nan, is_zero, int_eq,
}

-- A key is nil, a Boolean, an integer, a double that is neither NaN nor zero, or a string without
-- NUL bytes.
abbrev pub IsKey : Value → Type 0
IsKey nil = Unit
IsKey (bool _) = Unit
IsKey (int _) = Unit
IsKey (double w) = (is_nan w ≡ false) × (is_zero w ≡ false)
IsKey (string (some s)) = c_str s.chars ≡ s.chars
IsKey _ = ⊥

int_eq_refl : (a : ℤ) → int_eq a a ≡ true
unfolding int_eq
int_eq_refl (pos n) = ground arith
int_eq_refl (negsuc n) = ground arith

int_eq→eq : (a b : ℤ) → int_eq a b ≡ true → a ≡ b
unfolding int_eq
int_eq→eq a b h = ground arith

pub same_value_refl : (k : Value) → IsKey k → same_value k k ≡ true
unfolding same_value
same_value_refl nil h = refl
same_value_refl (bool true) h = refl
same_value_refl (bool false) h = refl
same_value_refl (int n) h = int_eq_refl n
same_value_refl (double w) h = ground arith
same_value_refl (string (some s)) h = text_eq_refl (c_str s.chars)
same_value_refl k h = absurd h

-- What two keys that compare equal have in common.
abbrev Alike : Value → Value → Type 0
Alike nil nil = Unit
Alike (bool a) (bool b) = a ≡ b
Alike (int a) (int b) = a ≡ b
Alike (double a) (double b) = a ≡ b
Alike (string (some a)) (string (some b)) = a.chars ≡ b.chars
Alike _ _ = ⊥

same_value→Alike : (k l : Value) → IsKey k → IsKey l → same_value k l ≡ true → Alike k l
unfolding same_value
same_value→Alike nil nil h g e = tt
same_value→Alike (bool true) (bool b) h g e = sym e
same_value→Alike (bool false) (bool b) h g e = ground arith
same_value→Alike (int a) (int b) h g e = int_eq→eq a b e
same_value→Alike (double a) (double b) h g e = ground arith
same_value→Alike (string (some a)) (string (some b)) h g e =
    sym h ∙ text_eq→eq (c_str a.chars) (c_str b.chars) e ∙ g
same_value→Alike (string none) l h g e = absurd h
same_value→Alike (string (some a)) (string none) h g e = absurd g
same_value→Alike _ _ h g e = absurd (cc)

Alike-hash : (k l : Value) → Alike k l → hash_key k ≡ hash_key l
unfolding hash_key
Alike-hash nil nil e = refl
Alike-hash (bool a) (bool b) e = rw e
Alike-hash (int a) (int b) e = rw e
Alike-hash (double a) (double b) e = rw e
Alike-hash (string (some a)) (string (some b)) e = rw e
Alike-hash _ _ e = absurd e

str_eq_congr :
    (x : Option Str) (a b : Str) → a.chars ≡ b.chars → str_eq x (some a) ≡ str_eq x (some b)
unfolding str_eq
str_eq_congr none a b e = refl
str_eq_congr (some s) a b e = rw e

same_value-strings :
    (x : Value) (a b : Str)
    → a.chars ≡ b.chars
    → same_value x (string (some a)) ≡ same_value x (string (some b))
unfolding same_value
same_value-strings (string s) a b e = str_eq_congr s a b e
same_value-strings x a b e = refl

Alike-same_value : (x k l : Value) → Alike k l → same_value x k ≡ same_value x l
Alike-same_value x nil nil e = refl
Alike-same_value x (bool a) (bool b) e = ap (λ c. same_value x (bool c)) e
Alike-same_value x (int a) (int b) e = ap (λ c. same_value x (int c)) e
Alike-same_value x (double a) (double b) e = ap (λ c. same_value x (double c)) e
Alike-same_value x (string (some a)) (string (some b)) e = same_value-strings x a b e
Alike-same_value x _ _ e = absurd e

int_eq_symm : (a b : ℤ) → int_eq a b ≡ int_eq b a
unfolding int_eq
int_eq_symm a b = ground arith

str_eq_symm : (a b : Option Str) → str_eq a b ≡ str_eq b a
unfolding str_eq
str_eq_symm (some a) (some b) = text_eq_symm (c_str a.chars) (c_str b.chars)
str_eq_symm (some a) none = refl
str_eq_symm none (some b) = refl
str_eq_symm none none = refl

pub same_value_symm : (k l : Value) → same_value k l ≡ same_value l k
unfolding same_value
same_value_symm nil nil = refl
same_value_symm (bool a) (bool b) = ground arith
same_value_symm (int a) (int b) = int_eq_symm a b
same_value_symm (double a) (double b) = ground arith
same_value_symm (string a) (string b) = str_eq_symm a b
same_value_symm (float _) nil = refl
same_value_symm (array _) nil = refl
same_value_symm (dict _) nil = refl
same_value_symm (optional _) nil = refl
same_value_symm (struct _) nil = refl
same_value_symm (class _) nil = refl
same_value_symm _ _ = refl

-- Two keys, which are nil, Booleans, integers, doubles that are neither NaN nor zero or strings
-- without NUL bytes, that compare equal in `bread_dict_find_slot` have one `bread_dict_hash_key`
-- and compare alike with every value.
pub key_congr :
    (k l : Value)
    → IsKey k
    → IsKey l
    → same_value k l ≡ true
    → (hash_key k ≡ hash_key l) × ((x : Value) → same_value x k ≡ same_value x l)
key_congr k l h g e =
    let alike = same_value→Alike k l h g e in
    (Alike-hash k l alike, λ x. Alike-same_value x k l alike)
