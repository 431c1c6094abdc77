-- ===== src/Operators/Order.antt =====
-- The comparison operators on integers, Booleans and strings.
use bread_lang.Prelude.{
  ◌≡◌, refl, sym, ap, ◌∙◌, Bool, true, false, not, ◌&&◌, ◌||◌, Option, none, [], ◌∷◌, ltb, inl, inr,
  Bool-cases, Text, arith,
}
use bread_lang.Prelude.Int.{ℤ, ltb_ℤ}
use bread_lang.Values.{Value, bool, int, string, Str, int_eq, bool_eq}
use bread_lang.Operators.{
  Floats, Answer, gives, Sign, less, equal, greater, strcmp, cstr, is_less, is_equal, is_greater,
  tested, compare_values, binary_op,
}

-- Two values of one type that has an order.
pub data Ordered : Value → Value → Type 0 where
  ints : (a b : ℤ) → Ordered (int a) (int b)
  bools : (a b : Bool) → Ordered (bool a) (bool b)
  strings : (a b : Option Str) → Ordered (string a) (string b)

abbrev pub negated : Answer → Answer
negated (gives (bool b)) = gives (bool (not b))
negated a = a

-- Exactly one of three answers is true.
pub data OneOf : Answer → Answer → Answer → Type 0 where
  first : OneOf (gives (bool true)) (gives (bool false)) (gives (bool false))
  second : OneOf (gives (bool false)) (gives (bool true)) (gives (bool false))
  third : OneOf (gives (bool false)) (gives (bool false)) (gives (bool true))

abbrev pub flip : Sign → Sign
flip less = greater
flip equal = equal
flip greater = less

strcmp-flip : (a b : Text) → strcmp b a ≡ flip (strcmp a b)
unfolding strcmp
strcmp-flip [] [] = refl
strcmp-flip [] (b ∷ bs) = refl
strcmp-flip (a ∷ xs) [] = refl
strcmp-flip (a ∷ xs) (b ∷ bs) = elim (Bool-cases (ltb a b)) [
  | inl lt ↦ let ge : ltb b a ≡ false = ground arith in rw (lt, ge) refl
  | inr ge ↦ elim (Bool-cases (ltb b a)) [
    | inl lt ↦ rw (ge, lt) refl
    | inr le ↦ rw (ge, le) (strcmp-flip xs bs)
  ]
]

-- The laws of the comparison operators.
pub record Laws (f : Floats) (v w : Value) : Type 0 where
  pub not_equal : binary_op f none b'!' v w ≡ negated (binary_op f none b'=' v w)
  pub at_most : binary_op f none b'l' v w ≡ negated (binary_op f none b'>' v w)
  pub at_least : binary_op f none b'g' v w ≡ negated (binary_op f none b'<' v w)
  pub converse : binary_op f none b'>' v w ≡ binary_op f none b'<' w v
  pub one :
      OneOf (binary_op f none b'<' v w) (binary_op f none b'=' v w) (binary_op f none b'>' v w)

sign-OneOf :
    (s : Sign)
    → OneOf (gives (bool (is_less s))) (gives (bool (is_equal s))) (gives (bool (is_greater s)))
sign-OneOf less = first
sign-OneOf equal = second
sign-OneOf greater = third

bools-OneOf :
    (a b : Bool)
    → OneOf (gives (bool (not a && b))) (gives (bool (bool_eq a b))) (gives (bool (a && not b)))
bools-OneOf true true = second
bools-OneOf true false = third
bools-OneOf false true = first
bools-OneOf false false = second

ints-OneOf :
    (a b : ℤ)
    → OneOf (gives (bool (ltb_ℤ a b))) (gives (bool (int_eq a b))) (gives (bool (ltb_ℤ b a)))
ints-OneOf a b = elim (Bool-cases (ltb_ℤ a b)) [
  | inl lt ↦ let (ne, ge) = below lt in rw (lt, ne, ge) first
  | inr ge ↦ elim (Bool-cases (ltb_ℤ b a)) [
    | inl lt ↦ let ne = above lt in rw (ge, ne, lt) third
    | inr le ↦ let same = meet ge le in rw (ge, same, le) second
  ]
]
  where
    below : ltb_ℤ a b ≡ true → (int_eq a b ≡ false) × (ltb_ℤ b a ≡ false)
    below lt = unfold int_eq in ground arith

    above : ltb_ℤ b a ≡ true → int_eq a b ≡ false
    above lt = unfold int_eq in ground arith

    meet : ltb_ℤ a b ≡ false → ltb_ℤ b a ≡ false → int_eq a b ≡ true
    meet h k = unfold int_eq in ground arith

-- On two integers, two Booleans or two strings, `bread_binary_op` answers exactly one of less, equal and
-- greater with yes; at most, at least and not equal are the negations of greater, less and equal, and
-- greater is less with the operands exchanged.
pub binary_op-Laws : (f : Floats) {v w : Value} → Ordered v w → Laws f v w
unfolding binary_op compare_values tested
binary_op-Laws f (ints a b) = record {
  not_equal = refl;
  at_most = refl;
  at_least = refl;
  converse = refl;
  one = ints-OneOf a b;
}
binary_op-Laws f (bools a b) = record {
  not_equal = refl;
  at_most = ap (λ c. gives (bool c)) (demorgan a b);
  at_least = ap (λ c. gives (bool c)) (demorgan' a b);
  converse = ap (λ c. gives (bool c)) (swap a b);
  one = bools-OneOf a b;
}
  where
    demorgan : (a b : Bool) → (not a || b) ≡ not (a && not b)
    demorgan a b = ground arith

    demorgan' : (a b : Bool) → (a || not b) ≡ not (not a && b)
    demorgan' a b = ground arith

    swap : (a b : Bool) → (a && not b) ≡ (not b && a)
    swap a b = ground arith
binary_op-Laws f (strings a b) = record {
  not_equal = refl;
  at_most = refl;
  at_least = refl;
  converse =
      ap (λ c. gives (bool c))
        (turned (strcmp (cstr a) (cstr b)) ∙ ap is_less (sym (strcmp-flip (cstr a) (cstr b))));
  one = sign-OneOf (strcmp (cstr a) (cstr b));
}
  where
    turned : (s : Sign) → is_greater s ≡ is_less (flip s)
    turned less = refl
    turned equal = refl
    turned greater = refl
