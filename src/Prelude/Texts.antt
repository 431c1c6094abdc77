-- ===== src/Prelude/Texts.antt =====
-- C strings as lists of byte values, and the comparisons of `string.h` on them.
use Prim.Native.Nat.{ℕ}
use Prim.Native.Char.{code}
use Prim.Native.String.{String}
use mathlib.Core.Bool.{Bool, true, false, ◌&&◌}
use mathlib.Core.List.{List, [], ◌∷◌}
use mathlib.Core.Path.{◌≡◌, refl}
use native.Mathlib.Omega.{arith}
use bread_lang.Prelude.Tests.{◌==◌}

-- The bytes before the terminating NUL.
abbrev pub Text : Type 0
Text = List ℕ

abbrev pub bytes : String → Text
bytes String.[] = []
bytes (String.◌∷◌ c s) = code c ∷ bytes s

-- `strcmp(a, b) == 0`
unfoldable pub text_eq : Text → Text → Bool
text_eq [] [] = true
text_eq [] (b ∷ bs) = false
text_eq (a ∷ as₁) [] = false
text_eq (a ∷ as₁) (b ∷ bs) = a == b && text_eq as₁ bs

pub text_eq_refl : (a : Text) → text_eq a a ≡ true
unfolding text_eq
text_eq_refl [] = refl
text_eq_refl (a ∷ as₁) = ground (arith, text_eq_refl as₁)

pub text_eq→eq : (a b : Text) → text_eq a b ≡ true → a ≡ b
unfolding text_eq
text_eq→eq [] [] h = refl
text_eq→eq [] (b ∷ bs) h = ground arith
text_eq→eq (a ∷ as₁) [] h = ground arith
text_eq→eq (a ∷ as₁) (b ∷ bs) h = ground (arith, text_eq→eq as₁ bs)

pub text_eq_symm : (a b : Text) → text_eq a b ≡ text_eq b a
unfolding text_eq
text_eq_symm [] [] = refl
text_eq_symm [] (b ∷ bs) = refl
text_eq_symm (a ∷ as₁) [] = refl
text_eq_symm (a ∷ as₁) (b ∷ bs) = ground (arith, text_eq_symm as₁ bs)
