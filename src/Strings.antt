-- ===== src/Strings.antt =====
-- Strings (src/runtime/string_ops.c): their bytes, and the table of literals, which has one string for each
-- of its 256 buckets. A C string is its bytes before the NUL; the address of a new string is a parameter.
pub mod Literals
use bread_lang.Prelude.{
  ℕ, suc, ◌+◌, ◌*◌, ◌%◌, ◌^◌, Bool, true, false, not, ◌&&◌, ◌||◌, Option, none, some, List, [], ◌∷◌,
  ◌++◌, ltb, leb, ◌==◌, if◌then◌else◌, length, get_or, set, replicate, Text, text_eq,
}
use bread_lang.Values.{
  Str, Call, retain, release, Failure, runtime, index_out_of_bounds, memory_allocation, Outcome,
}

abbrev pub intern_table_size : ℕ
intern_table_size = 256

-- `intern_table` and `intern_initialized`
pub record InternTable : Type 0 where
  pub buckets : List (Option Str)
  pub initialized : Bool

abbrev pub empty_buckets : List (Option Str)
empty_buckets = replicate 256 none

-- `bread_string_hash`, a 32-bit number before the last step
unfoldable pub hash_from : ℕ → Text → ℕ
hash_from h [] = h % 256
hash_from h (c ∷ cs) = hash_from ((h * 33 + c) % 2 ^ 32) cs

unfoldable pub string_hash : Text → ℕ
unfolding hash_from
string_hash s = hash_from 5381 s

-- `bread_string_intern_init`
unfoldable pub intern_init : InternTable → InternTable
intern_init t = if t.initialized then t else record { buckets = empty_buckets; initialized = true }

abbrev pub release_string : Option Str → List Call
release_string none = []
release_string (some s) = release s.address ∷ []

unfoldable pub release_buckets : List (Option Str) → List Call
release_buckets [] = []
release_buckets (b ∷ bs) = release_string b ++ release_buckets bs

-- `bread_string_intern_cleanup`
unfoldable pub intern_cleanup : InternTable → InternTable × List Call
unfolding release_buckets
intern_cleanup t =
    if t.initialized
    then (record { buckets = empty_buckets; initialized = false }, release_buckets t.buckets)
    else (t, [])

-- `bread_string_new_len`, for memory at an address
abbrev pub new_len : Option ℕ → List ℕ → Option Str
new_len none s = none
new_len (some a) s = some (record { address = a; chars = s })

-- The new string takes the place of the one in its bucket.
abbrev pub replace_bucket : InternTable → ℕ → Option Str → Outcome InternTable (Option Str)
replace_bucket t h none = record {
  result = none;
  state = t;
  calls = [];
  failure = some memory_allocation;
}
replace_bucket t h (some s) = record {
  result = some s;
  state = record t { buckets = set t.buckets h (some s) };
  calls = release_string (get_or t.buckets h none) ++ retain s.address ∷ [];
  failure = none;
}

abbrev pub holds : Option Str → Text → Bool
holds none s = false
holds (some t) s = text_eq t.chars s

-- The bucket's string, which is retained.
abbrev pub shared : InternTable → Option Str → Outcome InternTable (Option Str)
shared t none = record { result = none; state = t; calls = []; failure = none }
shared t (some s) = record {
  result = some s;
  state = t;
  calls = retain s.address ∷ [];
  failure = none;
}

unfoldable pub literal_in : Option ℕ → InternTable → ℕ → Text → Outcome InternTable (Option Str)
literal_in fresh t h s =
    if holds (get_or t.buckets h none) s
    then shared t (get_or t.buckets h none)
    else replace_bucket t h (new_len fresh s)

-- `bread_string_new_literal`
unfoldable pub new_literal : Option ℕ → InternTable → Text → Outcome InternTable (Option Str)
unfolding intern_init string_hash literal_in
new_literal fresh t s = literal_in fresh (intern_init t) (string_hash s) s

-- `bread_string_get_char`, 0 with an error out of bounds
unfoldable pub get_char : Option Str → ℕ → ℕ × Option Failure
get_char none i = (0, some runtime)
get_char (some s) i =
    if leb (length s.chars) i then (0, some index_out_of_bounds) else (get_or s.chars i 0, none)

-- `bread_string_eq`
abbrev pub bytes_of : Option Str → List ℕ
bytes_of none = []
bytes_of (some s) = s.chars

unfoldable pub string_eq : Option Str → Option Str → Bool
string_eq a b =
    if not (length (bytes_of a) == length (bytes_of b))
    then false
    else if length (bytes_of a) == 0
    then true
    else text_eq (bytes_of a) (bytes_of b)
