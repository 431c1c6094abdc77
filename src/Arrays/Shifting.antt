-- ===== src/Arrays/Shifting.antt =====
-- The loops that make room for an item and that close the gap of a removed one.
use mathlib.Core.List.{append_assoc, append-nil}
use bread_lang.Prelude.{
  ℕ, zero, suc, ◌-◌, ◌≤◌, ◌<◌, ◌≡◌, refl, sym, ap, ◌∙◌, List, [], ◌∷◌, ◌++◌, get_or, set, take,
  drop, length, length-append, length-set, arith,
}
use bread_lang.Values.{Value, nil}
use bread_lang.Arrays.{shift_up, shift_down, insert_items, remove_items}

suc-sub-one : (n : ℕ) → suc n - 1 ≡ n
suc-sub-one n = omega arith

-- Above the first item the loop does not see it.
shift_up-cons :
    (r i : ℕ) (x : Value) (xs : List Value)
    → r ≤ i
    → shift_up r (suc i) (x ∷ xs) ≡ x ∷ shift_up r i xs
unfolding shift_up
shift_up-cons zero i x xs h = refl
shift_up-cons (suc r) zero x xs h = absurd (omega arith)
shift_up-cons (suc r) (suc i) x xs h =
    rw (suc-sub-one (suc i), suc-sub-one i)
      (shift_up-cons r i x (set xs (suc i) (get_or xs i nil)) (omega arith))

drop-set :
    (xs : List Value) (i : ℕ) (v : Value)
    → i < length xs
    → drop i (set xs i v) ≡ v ∷ drop (suc i) xs
drop-set [] i v h = absurd (omega arith)
drop-set (x ∷ xs) zero v h = refl
drop-set (x ∷ xs) (suc i) v h = drop-set xs i v (omega arith)

take-set : (xs : List Value) (r i : ℕ) (v : Value) → r ≤ i → take r (set xs i v) ≡ take r xs
take-set xs zero i v h = refl
take-set [] (suc r) i v h = refl
take-set (x ∷ xs) (suc r) zero v h = absurd (omega arith)
take-set (x ∷ xs) (suc r) (suc i) v h = ap (λ t. x ∷ t) (take-set xs r i v (omega arith))

take_last :
    (xs : List Value) (r : ℕ) → r < length xs → take (suc r) xs ≡ take r xs ++ get_or xs r nil ∷ []
take_last [] r h = absurd (omega arith)
take_last (x ∷ xs) zero h = refl
take_last (x ∷ xs) (suc r) h = ap (λ t. x ∷ t) (take_last xs r (omega arith))

get_or-set_before :
    (xs : List Value) (i : ℕ) (v : Value) → get_or (set xs (suc i) v) 0 nil ≡ get_or xs 0 nil
get_or-set_before [] i v = refl
get_or-set_before (x ∷ xs) i v = refl

-- Down to the first item, the loop doubles that item.
shift_up_all :
    (r : ℕ) (xs : List Value)
    → r < length xs
    → shift_up r r xs ≡ get_or xs 0 nil ∷ (take r xs ++ drop (suc r) xs)
unfolding shift_up
shift_up_all zero (x ∷ xs) h = refl
shift_up_all zero [] h = absurd (omega arith)
shift_up_all (suc r) xs h =
    let g = get_or xs r nil in
    let same_length = length-set xs (suc r) g in
    rw (suc-sub-one r) (
      shift_up_all r (set xs (suc r) g) (omega arith)
      ∙ rw (
        get_or-set_before xs r g,
        take-set xs r (suc r) g (omega arith),
        drop-set xs (suc r) g h,
        take_last xs r (omega arith),
        append_assoc,
      ))

shift_down-cons :
    (r i : ℕ) (x : Value) (xs : List Value) → shift_down r (suc i) (x ∷ xs) ≡ x ∷ shift_down r i xs
unfolding shift_down
shift_down-cons zero i x xs = refl
shift_down-cons (suc r) i x xs = shift_down-cons r (suc i) x (set xs i (get_or xs (suc i) nil))

-- Closing the gap in front leaves the other items.
shift_down_all :
    (x : Value) (xs : List Value) → take (length xs) (shift_down (length xs) 0 (x ∷ xs)) ≡ xs
unfolding shift_down
shift_down_all x [] = refl
shift_down_all x (y ∷ ys) = rw shift_down-cons (ap (λ t. y ∷ t) (shift_down_all y ys))

take-append : (xs : List Value) (ys : List Value) → take (length xs) (xs ++ ys) ≡ xs
take-append [] ys = refl
take-append (x ∷ xs) ys = ap (λ t. x ∷ t) (take-append xs ys)

drop-append : (xs : List Value) (y : Value) → drop (suc (length xs)) (xs ++ y ∷ []) ≡ []
drop-append [] y = refl
drop-append (x ∷ xs) y = drop-append xs y

insert_items_by :
    (xs : List Value) (i r : ℕ) (v : Value)
    → length xs - i ≡ r
    → insert_items xs i v ≡ set (shift_up r (length xs) (xs ++ nil ∷ [])) i v
unfolding insert_items
insert_items_by xs i r v e = rw e

remove_items_by :
    (xs : List Value) (i m r : ℕ)
    → length xs - 1 ≡ m
    → m - i ≡ r
    → remove_items xs i ≡ take m (shift_down r i xs)
unfolding remove_items
remove_items_by xs i m r e f = rw (e, f)

-- The shifting loop of `bread_array_insert` and the write after it put the value before the
-- items from an index up to the count on.
pub insert_items_lem :
    (xs : List Value) (i : ℕ) (v : Value)
    → i ≤ length xs
    → insert_items xs i v ≡ take i xs ++ v ∷ drop i xs
insert_items_lem xs zero v h =
    let n = length xs in
    let wide = length-append xs (nil ∷ []) in
    insert_items_by xs 0 n v (omega arith)
    ∙ ap (λ t. set t 0 v) (shift_up_all n (xs ++ nil ∷ []) (omega arith))
    ∙ rw (take-append, drop-append, append-nil)
insert_items_lem [] (suc i) v h = absurd (omega arith)
insert_items_lem (x ∷ xs) (suc i) v h =
    let n = length xs in
    insert_items_by (x ∷ xs) (suc i) (n - i) v (omega arith)
    ∙ ap (λ t. set t (suc i) v) (shift_up-cons (n - i) n x (xs ++ nil ∷ []) (omega arith))
    ∙ ap (λ t. x ∷ t)
        (sym (insert_items_by xs i (n - i) v refl) ∙ insert_items_lem xs i v (omega arith))

-- The shifting loop of `bread_array_remove_at` takes out the item at an index below the count.
pub remove_items_lem :
    (xs : List Value) (i : ℕ) → i < length xs → remove_items xs i ≡ take i xs ++ drop (suc i) xs
remove_items_lem [] i h = absurd (omega arith)
remove_items_lem (x ∷ xs) zero h =
    let n = length xs in
    remove_items_by (x ∷ xs) 0 n n (omega arith) (omega arith) ∙ shift_down_all x xs
remove_items_lem (x ∷ []) (suc i) h = absurd (omega arith)
remove_items_lem (x ∷ y ∷ ys) (suc i) h =
    let m = length ys in
    remove_items_by (x ∷ y ∷ ys) (suc i) (suc m) (m - i) (omega arith) (omega arith)
    ∙ ap (take (suc m)) (shift_down-cons (m - i) i x (y ∷ ys))
    ∙ ap (λ t. x ∷ t)
        (sym (remove_items_by (y ∷ ys) i m (m - i) (omega arith) refl)
          ∙ remove_items_lem (y ∷ ys) i (omega arith))
