-- ===== src/Arrays.antt =====
-- Arrays (src/core/value_array.c). `malloc` and `realloc` are the parameter `alloc`, which says whether
-- a request of that many values succeeds. The items are those below `count`; what lies between them
-- and the capacity is not initialised. An index is a C `int`.
pub mod Shifting
pub mod Room
pub mod Validity
pub mod OneType
pub mod Editing
pub mod Searching
use bread_lang.Prelude.{
  ℕ, zero, suc, ◌+◌, ◌-◌, ◌*◌, Bool, true, false, not, ◌&&◌, ◌||◌, Option, none, some, List, [],
  ◌∷◌, ◌++◌, map, ◌==◌, ltb, leb, if◌then◌else◌, get_elem?, get_or, set, take, replicate, length,
}
use bread_lang.Prelude.Int.{ℤ, pos, negsuc, sub_ℕ}
use bread_lang.Types.{VarType, t_nil}
use bread_lang.Values.{
  Value, nil, type_of, type_eq, is_nil_type, same_value, Call, clone_calls, release_calls, Failure,
  runtime, type_mismatch, index_out_of_bounds, memory_allocation, Outcome,
}

-- `struct BreadArray`; its `count` is the number of items.
pub record Array : Type 0 where
  pub items : List Value
  pub capacity : ℕ
  pub element_type : VarType

abbrev pub count : Array → ℕ
count a = length a.items

-- `bread_array_new_typed`; `bread_array_new` is that of the nil type
abbrev pub new_typed : VarType → Array
new_typed t = record { items = []; capacity = 0; element_type = t }

abbrev pub new : Array
new = new_typed t_nil

-- `bread_array_new_with_capacity`
unfoldable pub new_with_capacity : (ℕ → Bool) → ℕ → VarType → Option Array
new_with_capacity alloc n t =
    if n == 0 || alloc n then some (record { items = []; capacity = n; element_type = t }) else none

-- A value of another type than the array's, which has one.
unfoldable pub mismatched : Array → Value → Bool
unfolding is_nil_type type_eq type_of
mismatched a v = not (is_nil_type a.element_type) && not (type_eq a.element_type (type_of v))

-- An empty array without a type takes that of its first item.
unfoldable pub adopt_type : Array → Value → Array
unfolding is_nil_type type_eq type_of
adopt_type a v = record a {
  element_type = if is_nil_type a.element_type && count a == 0 then type_of v else a.element_type;
}

-- Room for one more item; `none` if `realloc` fails.
unfoldable pub reserve : (ℕ → Bool) → Array → Option Array
reserve alloc a =
    let n = if a.capacity == 0 then 8 else a.capacity * 2 in
    if leb a.capacity (count a)
    then if alloc n then some (record a { capacity = n }) else none
    else some a

-- A call that fails, and leaves this state and this error.
abbrev pub failed : {A : Type 0} → A → Array → Option Failure → Outcome Array A
failed r a e = record { result = r; state = a; calls = []; failure = e }

-- The end of `bread_array_append`, on an array of the right type, with room if there is any.
unfoldable pub append_ready : Array → Value → Option Array → Outcome Array Bool
append_ready c v none = failed false c none
append_ready c v (some b) = record {
  result = true;
  state = record b { items = b.items ++ v ∷ [] };
  calls = clone_calls v;
  failure = none;
}

-- `bread_array_append` on an array that is not NULL
unfoldable pub append : (ℕ → Bool) → Array → Value → Outcome Array Bool
unfolding mismatched adopt_type reserve append_ready
append alloc a v =
    let c = adopt_type a v in
    if mismatched a v then failed false a none else append_ready c v (reserve alloc c)

-- `bread_array_negative_index`: an index from the end.
unfoldable pub negative_index : ℕ → ℤ → ℤ
negative_index n (pos i) = pos i
negative_index n (negsuc i) = sub_ℕ n (suc i)

-- The position of an index below a bound, once it is not negative.
unfoldable pub position : ℕ → ℤ → Option ℕ
position bound (pos i) = if ltb i bound then some i else none
position bound (negsuc i) = none

-- `bread_array_get`, which takes no negative index
unfoldable pub get : Array → ℤ → Option Value
unfolding position
get a idx = elim (position (count a) idx) [ none ↦ none | some i ↦ get_elem? a.items i ]

-- What is written over is released first.
unfoldable pub replace : Array → ℕ → Value → Outcome Array Bool
replace a i v = record {
  result = true;
  state = record a { items = set a.items i v };
  calls = release_calls (get_or a.items i nil) ++ clone_calls v;
  failure = none;
}

-- `bread_array_set`
unfoldable pub set_at : Array → ℤ → Value → Outcome Array Bool
unfolding position mismatched replace
set_at a idx v = elim (position (count a) idx) [
  | none ↦ failed false a none
  | some i ↦ if mismatched a v then failed false a none else replace a i v
]

-- `bread_array_get_safe`
unfoldable pub get_safe : Option Array → ℤ → Option Value × Option Failure
unfolding position negative_index
get_safe none idx = (none, some runtime)
get_safe (some a) idx = elim (position (count a) (negative_index (count a) idx)) [
  | none ↦ (none, some index_out_of_bounds)
  | some i ↦ (get_elem? a.items i, none)
]

-- `bread_array_set_safe` on an array that is not NULL, once the index is checked
unfoldable pub set_found : Array → Value → Option ℕ → Outcome Array Bool
unfolding mismatched replace
set_found a v none = failed false a (some index_out_of_bounds)
set_found a v (some i) =
    if mismatched a v then failed false a (some type_mismatch) else replace a i v

unfoldable pub set_safe : Array → ℤ → Value → Outcome Array Bool
unfolding position negative_index set_found
set_safe a idx v = set_found a v (position (count a) (negative_index (count a) idx))

-- `for (int i = count; i > index; i--) items[i] = items[i - 1];`, in so many rounds
unfoldable pub shift_up : ℕ → ℕ → List Value → List Value
shift_up zero i xs = xs
shift_up (suc rounds) i xs = shift_up rounds (i - 1) (set xs i (get_or xs (i - 1) nil))

-- The items with the new one in, where the slot behind the last is not initialised.
unfoldable pub insert_items : List Value → ℕ → Value → List Value
unfolding shift_up
insert_items xs i v = set (shift_up (length xs - i) (length xs) (xs ++ nil ∷ [])) i v

-- The end of `bread_array_insert`, on an array of the right type, with room if there is any.
unfoldable pub insert_ready : Array → ℕ → Value → Option Array → Outcome Array Bool
unfolding insert_items
insert_ready c i v none = failed false c (some memory_allocation)
insert_ready c i v (some b) = record {
  result = true;
  state = record b { items = insert_items b.items i v };
  calls = clone_calls v;
  failure = none;
}

-- `bread_array_insert` on an array that is not NULL, once the index is checked
unfoldable pub insert_found : (ℕ → Bool) → Array → Value → Option ℕ → Outcome Array Bool
unfolding mismatched adopt_type reserve insert_ready
insert_found alloc a v none = failed false a (some index_out_of_bounds)
insert_found alloc a v (some i) =
    let c = adopt_type a v in
    if mismatched a v
    then failed false a (some type_mismatch)
    else insert_ready c i v (reserve alloc c)

unfoldable pub insert : (ℕ → Bool) → Array → Value → ℤ → Outcome Array Bool
unfolding position negative_index insert_found
insert alloc a v idx =
    insert_found alloc a v (position (suc (count a)) (negative_index (count a) idx))

-- `for (int i = index; i < count - 1; i++) items[i] = items[i + 1];`, in so many rounds
unfoldable pub shift_down : ℕ → ℕ → List Value → List Value
shift_down zero i xs = xs
shift_down (suc rounds) i xs = shift_down rounds (suc i) (set xs i (get_or xs (suc i) nil))

unfoldable pub remove_items : List Value → ℕ → List Value
unfolding shift_down
remove_items xs i = take (length xs - 1) (shift_down (length xs - 1 - i) i xs)

-- `bread_array_remove_at` on an array that is not NULL, once the index is checked
unfoldable pub remove_found : Array → Option ℕ → Outcome Array Value
unfolding remove_items
remove_found a none = failed nil a (some index_out_of_bounds)
remove_found a (some i) =
    let old = get_or a.items i nil in
    record {
      result = old;
      state = record a { items = remove_items a.items i };
      calls = clone_calls old ++ release_calls old;
      failure = none;
    }

unfoldable pub remove_at : Array → ℤ → Outcome Array Value
unfolding position negative_index remove_found
remove_at a idx = remove_found a (position (count a) (negative_index (count a) idx))

-- `bread_array_contains` and `bread_array_index_of`; -1 is `none`
unfoldable pub contains_items : List Value → Value → Bool
contains_items [] v = false
contains_items (x ∷ xs) v = let rest = contains_items xs v in if same_value x v then true else rest

unfoldable pub contains : Option Array → Value → Bool
unfolding contains_items
contains none v = false
contains (some a) v = contains_items a.items v

unfoldable pub index_from : ℕ → List Value → Value → Option ℕ
index_from i [] v = none
index_from i (x ∷ xs) v =
    let rest = index_from (suc i) xs v in if same_value x v then some i else rest

unfoldable pub index_of : Option Array → Value → Option ℕ
unfolding index_from
index_of none v = none
index_of (some a) v = index_from 0 a.items v

-- The test of a literal's elements against the type of the first.
unfoldable pub all_of_type : VarType → List Value → Bool
unfolding type_eq type_of
all_of_type t [] = true
all_of_type t (x ∷ xs) = type_eq (type_of x) t && all_of_type t xs

unfoldable pub clone_all : List Value → List Call
clone_all [] = []
clone_all (x ∷ xs) = clone_calls x ++ clone_all xs

abbrev pub first_type : List Value → VarType
first_type [] = t_nil
first_type (x ∷ xs) = type_of x

-- `bread_array_from_literal` with elements that are not NULL
unfoldable pub from_literal : (ℕ → Bool) → List Value → Option Array × List Call × Option Failure
unfolding all_of_type new_with_capacity clone_all type_of
from_literal alloc xs =
    if all_of_type (first_type xs) xs
    then elim (new_with_capacity alloc (length xs) (first_type xs)) [
      | none ↦ (none, [], none)
      | some a ↦ (some (record a { items = xs }), clone_all xs, none)
    ]
    else (none, [], some type_mismatch)

-- `bread_array_repeating`
unfoldable pub repeating : (ℕ → Bool) → Value → ℤ → Option Array × List Call × Option Failure
unfolding new_with_capacity clone_all type_of
repeating alloc v (negsuc n) = (none, [], some runtime)
repeating alloc v (pos n) = elim (new_with_capacity alloc n (type_of v)) [
  | none ↦ (none, [], none)
  | some a ↦ (some (record a { items = replicate n v }), clone_all (replicate n v), none)
]
