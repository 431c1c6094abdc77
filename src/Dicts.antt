-- ===== src/Dicts.antt =====
-- Dictionaries (src/core/value_dict.c): an open-addressing hash table with linear probing, tombstones
-- and doubling. `calloc` is the parameter `alloc`, which says whether a request of that many entries
-- succeeds. Object headers are not part of the state.
pub mod Probing
pub mod Slots
pub mod Stored
pub mod Placing
pub mod Counting
pub mod Adding
pub mod Moving
pub mod Reading
pub mod Growing
pub mod Setting
pub mod RoundTrip
pub mod Removing
pub mod Forgetting
pub mod Literals
pub mod Listing
use bread_lang.Prelude.{
  ℕ, zero, suc, ◌+◌, ◌-◌, ◌*◌, ◌/◌, ◌%◌, Bool, true, false, not, ◌&&◌, ◌||◌, Option, none, some,
  List, [], ◌∷◌, ◌++◌, map, ◌==◌, ltb, if◌then◌else◌, get_or, set, replicate, length,
}
use bread_lang.Types.{VarType, t_nil, t_string}
use bread_lang.Values.{
  Value, nil, string, type_of, type_eq, is_nil_type, same_value, hash_key, Call, clone_calls,
  release_calls, Failure, runtime, type_mismatch, Outcome,
}

-- `BreadDictEntry`
pub record Entry : Type 0 where
  pub key : Value
  pub value : Value
  pub is_occupied : Bool
  pub is_deleted : Bool

-- `struct BreadDict`; `entries` holds `capacity` entries.
pub record Dict : Type 0 where
  pub count : ℕ
  pub capacity : ℕ
  pub key_type : VarType
  pub value_type : VarType
  pub entries : List Entry

-- An entry of zero bytes, as `calloc` makes it: the type number 0 is that of strings.
abbrev pub empty_entry : Entry
empty_entry = record {
  key = string none;
  value = string none;
  is_occupied = false;
  is_deleted = false;
}

-- `bread_dict_new`
abbrev pub new : Dict
new = record { count = 0; capacity = 0; key_type = t_nil; value_type = t_nil; entries = [] }

-- `bread_dict_new_with_capacity`
unfoldable pub new_with_capacity : (ℕ → Bool) → ℕ → VarType → VarType → Option Dict
new_with_capacity alloc capacity kt vt =
    if capacity == 0 || alloc capacity
    then some (record {
      count = 0;
      capacity = capacity;
      key_type = kt;
      value_type = vt;
      entries = replicate capacity empty_entry;
    })
    else none

abbrev pub entry_at : List Entry → ℕ → Entry
entry_at es i = get_or es i empty_entry

-- An entry that holds a key and its value.
unfoldable pub is_live : Entry → Bool
is_live e = e.is_occupied && not e.is_deleted

-- The three tests that end the probe at an entry: free, deleted, or of the same key.
unfoldable pub ends_probe : Value → Entry → Bool
ends_probe key e = not e.is_occupied || e.is_deleted || same_value e.key key

-- The loop of `bread_dict_find_slot`; `none` means that the fuel ran out, `some none` that the probe
-- came back to its start.
unfoldable pub scan : List Entry → ℕ → Value → ℕ → ℕ → ℕ → Option (Option ℕ)
unfolding ends_probe
scan es capacity key start zero slot = none
scan es capacity key start (suc fuel) slot =
    let next = (slot + 1) % capacity in
    let rest = if next == start then some none else scan es capacity key start fuel next in
    if ends_probe key (entry_at es slot) then some (some slot) else rest

abbrev pub join : Option (Option ℕ) → Option ℕ
join none = none
join (some r) = r

-- `bread_dict_find_slot`; -1 is `none`
unfoldable pub find_slot : Dict → Value → Option ℕ
unfolding scan
find_slot d key =
    let start = hash_key key % d.capacity in
    if d.capacity == 0 then none else join (scan d.entries d.capacity key start d.capacity start)

-- The test of a key or a value against the type of the dictionary.
unfoldable pub mismatched : VarType → Value → Bool
unfolding is_nil_type type_eq type_of
mismatched t v = not (is_nil_type t) && not (type_eq t (type_of v))

-- The value at the slot that was found, if it is live.
unfoldable pub value_at : List Entry → Option ℕ → Option Value
unfolding is_live
value_at es none = none
value_at es (some i) = if is_live (entry_at es i) then some (entry_at es i).value else none

unfoldable pub lookup : Dict → Value → Option Value
unfolding find_slot value_at
lookup d key = value_at d.entries (find_slot d key)

-- `bread_dict_get_safe`
unfoldable pub get_safe : Option Dict → Value → Option Value × Option Failure
unfolding mismatched lookup
get_safe none key = (none, some runtime)
get_safe (some d) key =
    if mismatched d.key_type key
    then (none, some type_mismatch)
    else if d.capacity == 0
    then (none, none)
    else (lookup d key, none)

-- `bread_dict_get_with_default`: the value, with one more reference, and the error that was set
unfoldable pub get_with_default : Option Dict → Value → Value → Value × List Call × Option Failure
unfolding get_safe
get_with_default d key default = elim ((get_safe d key).0) [
  | none ↦ (default, clone_calls default, (get_safe d key).1)
  | some v ↦ (v, clone_calls v, (get_safe d key).1)
]

abbrev pub is_found : Option Value → Bool
is_found none = false
is_found (some v) = true

-- `bread_dict_contains_key`
unfoldable pub contains_key : Option Dict → Value → Bool
unfolding mismatched lookup
contains_key none key = false
contains_key (some d) key =
    if mismatched d.key_type key
    then false
    else if d.capacity == 0
    then false
    else is_found (lookup d key)

-- One round of the loop in `bread_dict_resize`, with the slot that was found.
unfoldable pub move_to : Dict → Entry → Option ℕ → Dict
move_to d e none = d
move_to d e (some i) = record d { entries = set d.entries i e; count = d.count + 1 }

unfoldable pub move_entry : Entry → Dict → Dict
unfolding is_live find_slot move_to
move_entry e d = if is_live e then move_to d e (find_slot d e.key) else d

unfoldable pub move_entries : List Entry → Dict → Dict
unfolding move_entry
move_entries [] d = d
move_entries (e ∷ es) d = move_entries es (move_entry e d)

-- `bread_dict_resize`
unfoldable pub resize : (ℕ → Bool) → Dict → ℕ → Dict
unfolding move_entries
resize alloc d n =
    let fresh = record d { entries = replicate n empty_entry; capacity = n; count = 0 } in
    let moved = move_entries d.entries fresh in if n == 0 then d else if alloc n then moved else d

-- A dictionary without types takes those of its first entry.
unfoldable pub adopt_types : Dict → Value → Value → Dict
unfolding is_nil_type type_eq type_of
adopt_types d key value = record d {
  key_type = if is_nil_type d.key_type && d.count == 0 then type_of key else d.key_type;
  value_type = if is_nil_type d.value_type && d.count == 0 then type_of value else d.value_type;
}

-- The growth step. The quotient `(count + 1) / capacity` of doubles is exact enough that its order
-- to 0.75 is that of the fractions.
unfoldable pub grow : (ℕ → Bool) → Dict → Dict
unfolding resize
grow alloc d =
    if d.capacity == 0 || ltb (3 * d.capacity) (4 * (d.count + 1))
    then resize alloc d (if d.capacity == 0 then 8 else d.capacity * 2)
    else d

-- The last part of `bread_dict_set_safe`: a live entry gets the new value, any other is taken.
unfoldable pub overwrite : Dict → Value → ℕ → Outcome Dict Bool
overwrite d value i =
    let old = entry_at d.entries i in
    record {
      result = true;
      state = record d { entries = set d.entries i (record old { value = value }) };
      calls = release_calls old.value ++ clone_calls value;
      failure = none;
    }

unfoldable pub occupy : Dict → Value → Value → ℕ → Outcome Dict Bool
occupy d key value i =
    let fresh : Entry = record {
      key = key;
      value = value;
      is_occupied = true;
      is_deleted = false;
    } in
    record {
      result = true;
      state = record d { entries = set d.entries i fresh; count = d.count + 1 };
      calls = clone_calls key ++ clone_calls value;
      failure = none;
    }

unfoldable pub write : Dict → Value → Value → Option ℕ → Outcome Dict Bool
unfolding is_live overwrite occupy
write d key value none = record { result = false; state = d; calls = []; failure = some runtime }
write d key value (some i) =
    if is_live (entry_at d.entries i) then overwrite d value i else occupy d key value i

-- `bread_dict_set_safe` on a dictionary that is not NULL
unfoldable pub set_safe : (ℕ → Bool) → Dict → Value → Value → Outcome Dict Bool
unfolding mismatched adopt_types grow find_slot write
set_safe alloc d key value =
    let ready = grow alloc (adopt_types d key value) in
    if mismatched d.key_type key
    then record { result = false; state = d; calls = []; failure = some type_mismatch }
    else if mismatched d.value_type value
    then record { result = false; state = d; calls = []; failure = some type_mismatch }
    else write ready key value (find_slot ready key)

-- `bread_dict_remove` on a dictionary that is not NULL: the entry becomes a tombstone, its key and
-- value are nil.
unfoldable pub tombstone : Entry
tombstone = record { key = nil; value = nil; is_occupied = true; is_deleted = true }

-- A table with a live entry has a count above 0 (`Dicts.Stored.IsValid`); in another one the source's count
-- would become -1, where this one stays 0.
unfoldable pub erase : Dict → Option ℕ → Outcome Dict Value
unfolding is_live tombstone
erase d none = record { result = nil; state = d; calls = []; failure = none }
erase d (some i) =
    let old = entry_at d.entries i in
    if is_live old
    then record {
      result = old.value;
      state = record d { entries = set d.entries i tombstone; count = d.count - 1 };
      calls = clone_calls old.value ++ release_calls old.key ++ release_calls old.value;
      failure = none;
    }
    else record { result = nil; state = d; calls = []; failure = none }

unfoldable pub remove : Dict → Value → Outcome Dict Value
unfolding mismatched find_slot erase
remove d key =
    if mismatched d.key_type key
    then record { result = nil; state = d; calls = []; failure = some type_mismatch }
    else if d.capacity == 0
    then record { result = nil; state = d; calls = []; failure = none }
    else erase d (find_slot d key)

-- `bread_dict_clear`: live entries are released, which leaves nil in them, and all become free.
unfoldable pub clear_entry : Entry → Entry
unfolding is_live
clear_entry e =
    if is_live e
    then record { key = nil; value = nil; is_occupied = false; is_deleted = false }
    else record e { is_occupied = false; is_deleted = false }

unfoldable pub clear_calls : List Entry → List Call
unfolding is_live
clear_calls [] = []
clear_calls (e ∷ es) =
    let rest = clear_calls es in
    if is_live e then release_calls e.key ++ release_calls e.value ++ rest else rest

unfoldable pub clear : Dict → Dict × List Call
unfolding clear_entry clear_calls
clear d = (record d { entries = map clear_entry d.entries; count = 0 }, clear_calls d.entries)
