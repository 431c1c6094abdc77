-- ===== src/Operators/Indexing.antt =====
-- Indexing of arrays and assignment to an index (src/runtime/operators.c), on arrays that are not NULL. An
-- index of 64 bits is narrowed to a C `int`, which is taken to wrap around. The source brings a negative
-- index to a position twice, in `bread_index_op` and in `bread_array_set_value`.
use bread_lang.Prelude.{
  ℕ, suc, ◌+◌, ◌-◌, ◌%◌, ◌^◌, ◌<◌, ◌≤◌, ◌≡◌, Bool, false, Option, none, some, List, ltb, leb,
  if◌then◌else◌, set, get_elem?,
}
use bread_lang.Prelude.Int.{ℤ, pos, negsuc, ◌+ℤ◌}
use bread_lang.Values.{
  Value, int, Call, clone_calls, Failure, runtime, type_mismatch, index_out_of_bounds, Outcome,
}
use bread_lang.Arrays.{Array, count, failed, get, set_at}

-- `int`
unfoldable pub wrap_32 : ℤ → ℤ
wrap_32 (pos n) = let r = n % 2 ^ 32 in if ltb r (2 ^ 31) then pos r else negsuc (2 ^ 32 - 1 - r)
wrap_32 (negsuc n) = let r = n % 2 ^ 32 in if ltb r (2 ^ 31) then negsuc r else pos (2 ^ 32 - 1 - r)

-- `index < 0 || index >= length` of a C `int`, otherwise the index
unfoldable pub in_bounds : ℕ → ℤ → Option ℕ
in_bounds bound (pos i) = if leb bound i then none else some i
in_bounds bound (negsuc i) = none

-- The position that `bread_index_op` reads.
unfoldable pub read_position : ℕ → ℤ → Option ℕ
unfolding in_bounds
read_position bound (pos i) = in_bounds bound (pos i)
read_position bound (negsuc i) = in_bounds bound (negsuc i +ℤ pos bound)

-- The result of an index operation: a copy with the calls that make it, or an error.
pub data Indexed : Type 0 where
  copies : Value → List Call → Indexed
  wrong : Failure → Indexed

unfoldable pub copied_item : Option Value → Indexed
copied_item none = wrong runtime
copied_item (some v) = copies v (clone_calls v)

-- What `bread_index_op` makes of the position.
unfoldable pub item_at : Array → Option ℕ → Indexed
unfolding copied_item get
item_at a none = wrong index_out_of_bounds
item_at a (some k) = copied_item (get a (pos k))

-- `bread_index_op` on an array
unfoldable pub index_array : Array → Value → Indexed
unfolding read_position item_at wrap_32
index_array a (int i) = item_at a (read_position (count a) (wrap_32 i))
index_array a v = wrong type_mismatch

-- The position that `bread_array_set_value` writes.
unfoldable pub write_position : ℕ → ℤ → Option ℕ
unfolding in_bounds
write_position bound (pos i) = in_bounds bound (pos i)
write_position bound (negsuc i) = in_bounds bound (negsuc i +ℤ pos bound)

unfoldable pub set_item : Array → Value → Option ℕ → Outcome Array Bool
unfolding set_at
set_item a v none = failed false a (some index_out_of_bounds)
set_item a v (some k) = set_at a (pos k) v

-- `bread_array_set_value`
unfoldable pub array_set_value : Array → ℤ → Value → Outcome Array Bool
unfolding write_position set_item
array_set_value a index v = set_item a v (write_position (count a) index)

-- `bread_index_set_op` on an array
unfoldable pub index_set_array : Array → Value → Value → Outcome Array Bool
unfolding array_set_value wrap_32
index_set_array a (int i) v = array_set_value a (wrap_32 i) v
index_set_array a w v = failed false a (some type_mismatch)

-- The item that an index names in an array of that many items: counted from the first, or from the last
-- if the index is negative, or none.
pub data Names (bound : ℕ) : ℤ → Option ℕ → Type 0 where
  from_first : {k : ℕ} → k < bound → Names bound (pos k) (some k)
  from_last : {k i : ℕ} → k + suc i ≡ bound → Names bound (negsuc i) (some k)
  behind : {k : ℕ} → bound ≤ k → Names bound (pos k) none
  before : {i : ℕ} → bound ≤ i → Names bound (negsuc i) none

-- The item as it is read, and the items with one written.
abbrev pub item_in : List Value → Option ℕ → Indexed
item_in xs none = wrong index_out_of_bounds
item_in xs (some k) = copied_item (get_elem? xs k)

abbrev pub with_item : List Value → Option ℕ → Value → List Value
with_item xs none v = xs
with_item xs (some k) v = set xs k v
