-- ===== src/Dicts/RoundTrip.antt =====
-- What is set is read back.
use bread_lang.Prelude.{
  ℕ, ◌+◌, ◌≡◌, refl, ◌∙◌, Bool, true, false, inl, inr, Option, none, some, List, [], ◌∷◌, ◌*◌, ◌||◌,
  ltb, ◌==◌, if◌then◌else◌, Bool-cases, arith,
}
use bread_lang.Values.{Value, type_mismatch}
use bread_lang.Values.Keys.{IsKey, same_value_refl}
use bread_lang.Dicts.{
  Entry, Dict, entry_at, is_live, is_found, find_slot, lookup, mismatched, adopt_types, move_to,
  move_entry, move_entries, resize, grow, write, set_safe, get_safe, contains_key,
}
use bread_lang.Dicts.Slots.{find_slot_empty}
use bread_lang.Dicts.Stored.{IsValid}
use bread_lang.Dicts.Forgetting.{lookup_nowhere}
use bread_lang.Dicts.Moving.{move_entry_step}
use bread_lang.Dicts.Growing.{cleared, resize_step, grow_step}
use bread_lang.Dicts.Setting.{set_safe_step, set_safe-Updates}

move_to-key_type : (d : Dict) (e : Entry) (s : Option ℕ) → (move_to d e s).key_type ≡ d.key_type
unfolding move_to
move_to-key_type d e none = refl
move_to-key_type d e (some i) = refl

move_entry-key_type : (e : Entry) (d : Dict) → (move_entry e d).key_type ≡ d.key_type
move_entry-key_type e d = elim (Bool-cases (is_live e)) [
  | inl live ↦ rw (move_entry_step, live) (move_to-key_type d e (find_slot d e.key))
  | inr dead ↦ rw (move_entry_step, dead)
]

move_entries_step :
    (e : Entry) (es : List Entry) (d : Dict)
    → move_entries (e ∷ es) d ≡ move_entries es (move_entry e d)
unfolding move_entries
move_entries_step e es d = refl

move_entries-key_type : (es : List Entry) (d : Dict) → (move_entries es d).key_type ≡ d.key_type
move_entries-key_type [] d = unfold move_entries in refl
move_entries-key_type (e ∷ es) d =
    rw move_entries_step (move_entries-key_type es (move_entry e d) ∙ move_entry-key_type e d)

resize-key_type : (alloc : ℕ → Bool) (d : Dict) (n : ℕ) → (resize alloc d n).key_type ≡ d.key_type
resize-key_type alloc d n =
    let moved = move_entries-key_type d.entries (cleared d n) in
    rw resize_step (elim (Bool-cases (n == 0)) [
      | inl z ↦ rw z
      | inr nz ↦ elim (Bool-cases (alloc n)) [
        | inl ok ↦ rw (nz, ok) moved
        | inr failed ↦ rw (nz, failed)
      ]
    ])

grow-key_type : (alloc : ℕ → Bool) (d : Dict) → (grow alloc d).key_type ≡ d.key_type
grow-key_type alloc d =
    elim (Bool-cases (d.capacity == 0 || ltb (3 * d.capacity) (4 * (d.count + 1)))) [
      | inl tight ↦ rw (grow_step, tight) (resize-key_type alloc d _)
      | inr room ↦ rw (grow_step, room)
    ]

write-key_type :
    (d : Dict) (key value : Value) (s : Option ℕ)
    → (write d key value s).state.key_type ≡ d.key_type
unfolding write
write-key_type d key value none = refl
write-key_type d key value (some i) = elim (Bool-cases (is_live (entry_at d.entries i))) [
  | inl live ↦ rw live
  | inr dead ↦ rw dead
]

adopted :
    (d : Dict) (key value : Value)
    → mismatched d.key_type key ≡ false
    → mismatched (adopt_types d key value).key_type key ≡ false
unfolding mismatched adopt_types
adopted d key value h = ground arith

-- The key type of the dictionary that a call leaves is one that the key fits.
set_safe-fits :
    (alloc : ℕ → Bool) (d : Dict) (key value : Value)
    → (set_safe alloc d key value).result ≡ true
    → mismatched (set_safe alloc d key value).state.key_type key ≡ false
set_safe-fits alloc d key value h = elim (Bool-cases (mismatched d.key_type key)) [
  | inl bad ↦ absurd (cc (rw (set_safe_step, bad) at h))
  | inr good ↦ elim (Bool-cases (mismatched d.value_type value)) [
    | inl bad ↦ absurd (cc (rw (set_safe_step, good, bad) at h))
    | inr fine ↦
        let ready = adopt_types d key value in
        rw (set_safe_step, good, fine, write-key_type, grow-key_type alloc ready)
          (adopted d key value good)
  ]
]

get_safe_step :
    (d : Dict) (key : Value)
    → get_safe (some d) key ≡ (
        if mismatched d.key_type key
        then (none, some type_mismatch)
        else if d.capacity == 0
        then (none, none)
        else (lookup d key, none))
unfolding get_safe
get_safe_step d key = refl

contains_key_step :
    (d : Dict) (key : Value)
    → contains_key (some d) key ≡ (
        if mismatched d.key_type key
        then false
        else if d.capacity == 0
        then false
        else is_found (lookup d key))
unfolding contains_key
contains_key_step d key = refl

found_reads :
    (d : Dict) (key w : Value)
    → mismatched d.key_type key ≡ false
    → lookup d key ≡ some w
    → (get_safe (some d) key ≡ (some w, none)) × (contains_key (some d) key ≡ true)
found_reads d key w good found = elim (Bool-cases (d.capacity == 0)) [
  | inl z ↦ absurd (cc (lookup_nowhere d key (find_slot_empty d key z), found))
  | inr pos ↦ (rw (get_safe_step, good, pos, found), rw (contains_key_step, good, pos, found))
]

-- After a successful `bread_dict_set_safe` on a valid table, of a key that can be found again,
-- `bread_dict_get_safe` returns the value without an error and `bread_dict_contains_key` finds
-- the key.
pub get_safe-set_safe :
    (alloc : ℕ → Bool) {d : Dict} (key value : Value)
    → IsValid d
    → IsKey key
    → (set_safe alloc d key value).result ≡ true
    → (get_safe (some (set_safe alloc d key value).state) key ≡ (some value, none))
      × (contains_key (some (set_safe alloc d key value).state) key ≡ true)
get_safe-set_safe alloc {d} key value v is_key h =
    let u = set_safe-Updates alloc key value v is_key in
    found_reads (set_safe alloc d key value).state key value (set_safe-fits alloc d key value h)
      (u.reads key is_key ∙ rw (h, same_value_refl key is_key))
