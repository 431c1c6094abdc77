-- ===== src/Operators/Division.antt =====
-- Division and remainder of integers.
use bread_lang.Prelude.{
  ℕ, zero, suc, ◌+◌, ◌*◌, ◌/◌, ◌%◌, ◌^◌, ◌≤◌, ◌<◌, ◌≡◌, refl, sym, ap, ◌∙◌, Bool, true, false, none,
  ◌==◌, if◌then◌else◌, inl, inr, Bool-cases, arith,
}
use native.Mathlib.Nat.{div-add-mod, mod-le, mod-lt, mul_comm}
use bread_lang.Prelude.Int.{ℤ, pos, negsuc, pos_part, neg_part, ◌+ℤ◌, ◌*ℤ◌, +ℤ_parts, eq_of_parts}
use bread_lang.Values.{int}
use bread_lang.Operators.{
  Floats, gives, fails, division_by_zero, wrap_64, magnitude, is_negative, signed, differ, int_div,
  int_mod, int_arithmetic, arithmetic_op, binary_op,
}

-- The integers of 64 bits.
abbrev pub Fits : ℤ → Type 0
Fits (pos n) = n < 2 ^ 63
Fits (negsuc n) = n < 2 ^ 63

wrap_64-Fits : (a : ℤ) → Fits a → wrap_64 a ≡ a
unfolding wrap_64
wrap_64-Fits (pos n) h = ground arith
wrap_64-Fits (negsuc n) h = ground arith

*ℤ_parts :
    (a b : ℤ)
    → pos_part (a *ℤ b) + (pos_part a * neg_part b + neg_part a * pos_part b)
      ≡ neg_part (a *ℤ b) + (pos_part a * pos_part b + neg_part a * neg_part b)
unfolding ◌*ℤ◌
*ℤ_parts a b = ground arith

abbrev positive : Bool → ℕ → ℕ
positive true n = 0
positive false n = n

abbrev negative : Bool → ℕ → ℕ
negative true n = n
negative false n = 0

pos_part-signed : (s : Bool) (n : ℕ) → pos_part (signed s n) ≡ positive s n
pos_part-signed true zero = refl
pos_part-signed true (suc n) = refl
pos_part-signed false zero = refl
pos_part-signed false (suc n) = refl

neg_part-signed : (s : Bool) (n : ℕ) → neg_part (signed s n) ≡ negative s n
neg_part-signed true zero = refl
neg_part-signed true (suc n) = refl
neg_part-signed false zero = refl
neg_part-signed false (suc n) = refl

signed-magnitude : (a : ℤ) → signed (is_negative a) (magnitude a) ≡ a
signed-magnitude (pos zero) = refl
signed-magnitude (pos (suc n)) = ground arith
signed-magnitude (negsuc n) = ground arith

signed-Fits : (a : ℤ) (n : ℕ) → n ≤ magnitude a → Fits a → Fits (signed (is_negative a) n)
signed-Fits (pos m) zero h k = omega arith
signed-Fits (pos m) (suc n) h k = omega arith
signed-Fits (negsuc m) zero h k = omega arith
signed-Fits (negsuc m) (suc n) h k = omega arith

sum-of_parts :
    (x y z w : ℤ) (p n : ℕ)
    → pos_part (x *ℤ y) + n ≡ neg_part (x *ℤ y) + p
    → pos_part z + p + neg_part w ≡ neg_part z + n + pos_part w
    → x *ℤ y +ℤ z ≡ w
sum-of_parts x y z w p n h k =
    eq_of_parts (x *ℤ y +ℤ z) w (omega (arith, h, k, +ℤ_parts (x *ℤ y) z))

product-signed :
    (s t : Bool) (q d : ℕ)
    → pos_part (signed s q *ℤ signed t d)
        + (positive s q * negative t d + negative s q * positive t d)
      ≡ neg_part (signed s q *ℤ signed t d)
        + (positive s q * positive t d + negative s q * negative t d)
product-signed s t q d =
    rw (pos_part-signed s q, neg_part-signed s q, pos_part-signed t d, neg_part-signed t d) at
      (*ℤ_parts (signed s q) (signed t d))

-- The quotient times the divisor, and the remainder.
signed-product :
    (s t : Bool) (q d r : ℕ)
    → signed (differ s t) q *ℤ signed t d +ℤ signed s r ≡ signed s (q * d + r)
signed-product s t q d r =
    sum-of_parts (signed (differ s t) q) (signed t d) (signed s r) (signed s (q * d + r))
      (positive (differ s t) q * positive t d + negative (differ s t) q * negative t d)
      (positive (differ s t) q * negative t d + negative (differ s t) q * positive t d)
      (product-signed (differ s t) t q d)
      (rw
        (
          pos_part-signed s r,
          neg_part-signed s r,
          pos_part-signed s (q * d + r),
          neg_part-signed s (q * d + r),
        )
        (signs s t))
  where
    signs :
        (s t : Bool)
        → positive s r
            + (positive (differ s t) q * positive t d + negative (differ s t) q * negative t d)
            + negative s (q * d + r)
          ≡ negative s r
            + (positive (differ s t) q * negative t d + negative (differ s t) q * positive t d)
            + positive s (q * d + r)
    signs true true = omega arith
    signs true false = omega arith
    signs false true = omega arith
    signs false false = omega arith

int_div-int_mod : (a b : ℤ) → int_div a b *ℤ b +ℤ int_mod a b ≡ a
unfolding int_div int_mod
int_div-int_mod a b =
    let s = is_negative a in
    let q = magnitude a / magnitude b in
    let r = magnitude a % magnitude b in
    ap (λ (c : ℤ). signed (differ s (is_negative b)) q *ℤ c +ℤ signed s r)
      (sym (signed-magnitude b))
    ∙ signed-product s (is_negative b) q (magnitude b) r
    ∙ ap (signed s) (mod-add-mul (magnitude a) (magnitude b))
    ∙ signed-magnitude a
  where
    mod-add-mul : (n m : ℕ) → n / m * m + n % m ≡ n
    mod-add-mul n m = omega (arith, div-add-mod n m, mul_comm m (n / m))

-- What the operators `/` and `%` of two integers answer.
pub record Divides (f : Floats) (a b q r : ℤ) : Type 0 where
  pub quotient : binary_op f none b'/' (int a) (int b) ≡ gives (int q)
  pub remainder : binary_op f none b'%' (int a) (int b) ≡ gives (int r)
  pub whole : q *ℤ b +ℤ r ≡ a
  pub small : magnitude r < magnitude b

magnitude-signed : (s : Bool) (n : ℕ) → magnitude (signed s n) ≡ n
magnitude-signed true zero = refl
magnitude-signed true (suc n) = omega arith
magnitude-signed false zero = refl
magnitude-signed false (suc n) = omega arith

divided :
    (f : Floats) (a b : ℤ)
    → (magnitude b == 0) ≡ false
    → (binary_op f none b'/' (int a) (int b) ≡ gives (int (wrap_64 (int_div a b))))
      × (binary_op f none b'%' (int a) (int b) ≡ gives (int (wrap_64 (int_mod a b))))
unfolding binary_op arithmetic_op int_arithmetic
divided f a b h = (rw h refl, rw h refl)

-- On two integers of 64 bits, if the divisor is not zero and the quotient fits into 64 bits,
-- `bread_binary_op` answers `/` with a quotient and `%` with a remainder, which is less than the divisor
-- in magnitude, such that the quotient times the divisor and the remainder make the dividend. If the
-- divisor is zero, both answer with the error of a division by zero.
pub binary_op-Divides :
    (f : Floats) (a b : ℤ)
    → Fits a
    → Fits (int_div a b)
    → (if magnitude b == 0
        then (binary_op f none b'/' (int a) (int b) ≡ fails division_by_zero)
          × (binary_op f none b'%' (int a) (int b) ≡ fails division_by_zero)
        else Divides f a b (int_div a b) (int_mod a b))
binary_op-Divides f a b fits quotient = elim (Bool-cases (magnitude b == 0)) [
  | inl zero_divisor ↦ rw zero_divisor (refused zero_divisor)
  | inr h ↦ rw h (record {
    quotient = (divided f a b h).0 ∙ ap (λ c. gives (int c)) (wrap_64-Fits (int_div a b) quotient);
    remainder =
        (divided f a b h).1
        ∙ ap (λ c. gives (int c)) (wrap_64-Fits (int_mod a b) (remainder_fits h));
    whole = int_div-int_mod a b;
    small = remainder_small h;
  })
]
  where
    refused :
        (magnitude b == 0) ≡ true
        → (binary_op f none b'/' (int a) (int b) ≡ fails division_by_zero)
          × (binary_op f none b'%' (int a) (int b) ≡ fails division_by_zero)
    refused e = unfold binary_op arithmetic_op int_arithmetic in (rw e refl, rw e refl)

    remainder_fits : (magnitude b == 0) ≡ false → Fits (int_mod a b)
    remainder_fits e =
        unfold int_mod in
        signed-Fits a (magnitude a % magnitude b) (mod-le (magnitude a) (magnitude b)) fits

    remainder_small : (magnitude b == 0) ≡ false → magnitude (int_mod a b) < magnitude b
    remainder_small e =
        let some_divisor : 0 < magnitude b = ground arith in
        unfold int_mod in
        omega (
          arith,
          magnitude-signed (is_negative a) (magnitude a % magnitude b),
          mod-lt (magnitude a) some_divisor,
        )
