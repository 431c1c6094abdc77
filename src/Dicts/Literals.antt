-- ===== src/Dicts/Literals.antt =====
-- `bread_dict_from_literal`: the table of a dictionary literal.
use bread_lang.Prelude.{
  ℕ, ◌+◌, ◌*◌, ◌/◌, ◌≤◌, ◌≡◌, refl, ap, ◌∙◌, Bool, true, false, ◌&&◌, Option, none, some, List, [],
  ◌∷◌, ◌++◌, map, ltb, ◌==◌, if◌then◌else◌, length, inl, inr, Bool-cases, arith,
}
use bread_lang.Types.{VarType, t_nil}
use bread_lang.Values.{Value, type_of, type_eq, Call, clone_calls, Failure, type_mismatch, Outcome}
use bread_lang.Values.Keys.{IsKey}
use bread_lang.Dicts.{
  Entry, Dict, is_live, lookup, new, new_with_capacity, find_slot, move_entry, move_entries,
}
use bread_lang.Dicts.Stored.{IsValid, live_count}
use bread_lang.Dicts.Moving.{
  assoc, or_else, Distinct, move_entries-Moved, Missing, Missing-after, move_entry-Placed,
}
use bread_lang.Dicts.Counting.{find_slot_room}
use bread_lang.Dicts.Growing.{
  cleared, cleared-IsValid, lookup-cleared, Missing-cleared, or_else-none,
}

-- An element of the literal as an entry that is taken.
abbrev pub taken : Value × Value → Entry
taken (k, v) = record { key = k; value = v; is_occupied = true; is_deleted = false }

abbrev pub first_types : List (Value × Value) → VarType × VarType
first_types [] = (t_nil, t_nil)
first_types ((k, v) ∷ ps) = (type_of k, type_of v)

-- The test of the elements against the types of the first.
unfoldable pub pairs_of_type : VarType → VarType → List (Value × Value) → Bool
unfolding type_eq type_of
pairs_of_type t u [] = true
pairs_of_type t u ((k, v) ∷ ps) =
    type_eq (type_of k) t && type_eq (type_of v) u && pairs_of_type t u ps

-- `count > 0 ? (int)(count / 0.75) + 1 : 8`, and at least 8
unfoldable pub literal_capacity : ℕ → ℕ
literal_capacity n = let c = if n == 0 then 8 else n * 4 / 3 + 1 in if ltb c 8 then 8 else c

-- `slot >= 0`
unfoldable pub if_slot : Option ℕ → List Call → List Call → List Call
if_slot none found missing = missing
if_slot (some i) found missing = found

-- The clones that the loop over the elements makes: those of an element for which there is a slot.
unfoldable pub fill_calls : List (Value × Value) → Dict → List Call
unfolding find_slot if_slot
fill_calls [] d = []
fill_calls ((k, v) ∷ ps) d =
    let rest = fill_calls ps (move_entry (taken (k, v)) d) in
    if_slot (find_slot d k) (clone_calls k ++ clone_calls v ++ rest) rest

abbrev pub literal_failure : Option Failure → Outcome (Option Dict) Bool
literal_failure e = record { result = false; state = none; calls = []; failure = e }

-- The loop over the elements, which writes and counts as that of `bread_dict_resize` does.
unfoldable pub fill : List (Value × Value) → Option Dict → Outcome (Option Dict) Bool
unfolding fill_calls move_entries
fill ps none = literal_failure none
fill ps (some d) = record {
  result = true;
  state = some (move_entries (map taken ps) d);
  calls = fill_calls ps d;
  failure = none;
}

-- `bread_dict_from_literal` with elements that are not NULL; the state is the table that it returns.
unfoldable pub from_literal : (ℕ → Bool) → List (Value × Value) → Outcome (Option Dict) Bool
unfolding pairs_of_type literal_capacity new_with_capacity type_of fill
from_literal alloc ps =
    let (t, u) = first_types ps in
    if pairs_of_type t u ps
    then fill ps (new_with_capacity alloc (literal_capacity (length ps)) t u)
    else literal_failure (some type_mismatch)

literal_capacity-le : (n : ℕ) → n ≤ literal_capacity n
unfolding literal_capacity
literal_capacity-le n = ground arith

live_count-taken : (ps : List (Value × Value)) → live_count (map taken ps) ≡ length ps
unfolding live_count is_live
live_count-taken [] = refl
live_count-taken ((k, v) ∷ ps) = omega (arith, live_count-taken ps)

-- The table has an entry for each element, and reads as the list of the elements.
pub record Holds (ps : List (Value × Value)) (d : Dict) : Type 0 where
  pub valid : IsValid d
  pub counted : d.count ≡ length ps
  pub reads : (k : Value) → IsKey k → lookup d k ≡ assoc (map taken ps) k

fill-Holds :
    (ps : List (Value × Value)) (d : Dict) (n : ℕ)
    → length ps ≤ n
    → Distinct (map taken ps)
    → Holds ps (move_entries (map taken ps) (cleared d n))
fill-Holds ps d n le apart =
    let m =
      move_entries-Moved (map taken ps) (cleared d n) (cleared-IsValid d n)
        (omega (arith, live_count-taken ps)) apart (Missing-cleared d n (map taken ps)) in
    let total = m.count in
    record {
      valid = m.valid;
      counted = omega (arith, live_count-taken ps);
      reads = λ k key.
          m.reads k key
          ∙ ap (λ o. or_else (assoc (map taken ps) k) o) (lookup-cleared d n k)
          ∙ or_else-none (assoc (map taken ps) k);
    }

granted_step :
    (alloc : ℕ → Bool) (n : ℕ) (t u : VarType)
    → ((m : ℕ) → alloc m ≡ true)
    → new_with_capacity alloc n t u ≡ some (cleared (record new { key_type = t; value_type = u }) n)
unfolding new_with_capacity
granted_step alloc n t u granted = elim (Bool-cases (n == 0)) [
  | inl e ↦ rw e
  | inr e ↦ rw (e, granted n)
]

-- The clones of all keys and values.
pub all_clones : List (Value × Value) → List Call
all_clones [] = []
all_clones ((k, v) ∷ ps) = clone_calls k ++ clone_calls v ++ all_clones ps

fill_calls_nil : (d : Dict) → fill_calls [] d ≡ []
unfolding fill_calls
fill_calls_nil d = refl

fill_calls_step :
    (k v : Value) (ps : List (Value × Value)) (d : Dict)
    → fill_calls ((k, v) ∷ ps) d ≡ (
        let rest = fill_calls ps (move_entry (taken (k, v)) d) in
        if_slot (find_slot d k) (clone_calls k ++ clone_calls v ++ rest) rest)
unfolding fill_calls
fill_calls_step k v ps d = refl

fill_calls-all_clones :
    (ps : List (Value × Value)) (d : Dict)
    → IsValid d
    → d.count + length ps ≤ d.capacity
    → Distinct (map taken ps)
    → Missing d (map taken ps)
    → fill_calls ps d ≡ all_clones ps
unfolding all_clones is_live if_slot
fill_calls-all_clones [] d v room u m = fill_calls_nil d
fill_calls-all_clones ((k, x) ∷ ps) d v room u m =
    let (key, absent) = u.0 refl in
    let (i, found) = find_slot_room k v (omega arith) in
    let p = move_entry-Placed (taken (k, x)) v (omega arith) refl key (m.0 refl) in
    let counted = p.count in
    let wide = p.same_capacity in
    let rest =
      fill_calls-all_clones ps (move_entry (taken (k, x)) d) p.valid (omega arith) u.1
        (Missing-after k x (map taken ps) p absent u.1 m.1) in
    rw (fill_calls_step, found) (ap (λ cs. clone_calls k ++ clone_calls x ++ cs) rest)

-- Call a key good if it is nil, a Bool, an Int, a double that is neither NaN nor zero, or a string without a
-- NUL byte. Let the allocation succeed, the elements of a literal be of the types of its first, and its keys
-- be good and no two of them equal. Then `bread_dict_from_literal` clones each key and value and makes a valid
-- table with an entry for each element, which reads at each good key as the list of the elements.
pub from_literal-Holds :
    (alloc : ℕ → Bool) (ps : List (Value × Value))
    → ((m : ℕ) → alloc m ≡ true)
    → pairs_of_type (first_types ps).0 (first_types ps).1 ps ≡ true
    → Distinct (map taken ps)
    → (d : Dict) × (from_literal alloc ps
        ≡ record { result = true; state = some d; calls = all_clones ps; failure = none })
      × Holds ps d
unfolding from_literal fill
from_literal-Holds alloc ps granted typed apart =
    let n = literal_capacity (length ps) in
    let d : Dict = record new { key_type = (first_types ps).0; value_type = (first_types ps).1 } in
    let le = literal_capacity-le (length ps) in
    (
      move_entries (map taken ps) (cleared d n),
      rw
          (
            typed,
            granted_step alloc n (first_types ps).0 (first_types ps).1 granted,
            fill_calls-all_clones ps (cleared d n) (cleared-IsValid d n) (omega (arith, le)) apart
                (Missing-cleared d n (map taken ps)),
          )
          refl,
      fill-Holds ps d n le apart,
    )
