-- ===== src/Dicts/Forgetting.antt =====
-- What `bread_dict_remove` returns and leaves, and which other keys it makes the table forget.
use bread_lang.Prelude.{
  ℕ, ◌-◌, ◌<◌, ◌≡◌, ◌≢◌, refl, sym, ap, ◌∙◌, true, false, inl, inr, Option, none, some, List, [],
  ◌==◌, length, Option-cases, Bool-cases, arith,
}
use bread_lang.Values.{Value, nil, Outcome}
use bread_lang.Values.Keys.{IsKey}
use bread_lang.Dicts.{
  Entry, Dict, entry_at, is_live, find_slot, value_at, lookup, mismatched, erase, remove,
}
use bread_lang.Dicts.Slots.{tests, home, find_slot-Reaches, find_slot_empty}
use bread_lang.Dicts.Probing.{visit}
use bread_lang.Dicts.Stored.{IsValid, Stored, find_slot-Stored, Stored-lookup, value_at_live}
use bread_lang.Dicts.Removing.{
  buried, lookup-buried, find_slot_kept, off_grave, erase_live, erase_dead,
}

-- A value or nil, as the functions return it.
abbrev pub or_nil : Option Value → Value
or_nil none = nil
or_nil (some w) = w

-- How much shorter the table is for what was found.
abbrev pub found_count : Option Value → ℕ
found_count none = 0
found_count (some w) = 1

remove_step :
    (d : Dict) (key : Value)
    → mismatched d.key_type key ≡ false
    → (d.capacity == 0) ≡ false
    → remove d key ≡ erase d (find_slot d key)
unfolding remove
remove_step d key good pos = rw (good, pos)

remove_empty :
    (d : Dict) (key : Value)
    → mismatched d.key_type key ≡ false
    → (d.capacity == 0) ≡ true
    → remove d key ≡ record { result = nil; state = d; calls = []; failure = none }
unfolding remove
remove_empty d key good pos = rw (good, pos)

-- What is left of a lookup when `r` has come from `d` by a removal of `key`.
pub record Removed (d : Dict) (key : Value) (o : Outcome Dict Value) : Type 0 where
  pub returned : o.result ≡ or_nil (lookup d key)
  pub gone : lookup o.state key ≡ none
  pub count : o.state.count ≡ d.count - found_count (lookup d key)

lookup_at :
    (d : Dict) (key : Value) (i : ℕ)
    → find_slot d key ≡ some i
    → lookup d key ≡ value_at d.entries (some i)
unfolding lookup
lookup_at d key i h = rw h

pub lookup_nowhere : (d : Dict) (key : Value) → find_slot d key ≡ none → lookup d key ≡ none
unfolding lookup value_at
lookup_nowhere d key h = rw h

value_at_dead :
    (es : List Entry) (i : ℕ) → is_live (entry_at es i) ≡ false → value_at es (some i) ≡ none
unfolding value_at
value_at_dead es i h = rw h

erase_live_result :
    (d : Dict) (i : ℕ)
    → is_live (entry_at d.entries i) ≡ true
    → (erase d (some i)).result ≡ (entry_at d.entries i).value
unfolding erase
erase_live_result d i live = rw live

erase_dead_result :
    (d : Dict) (i : ℕ) → is_live (entry_at d.entries i) ≡ false → (erase d (some i)).result ≡ nil
unfolding erase
erase_dead_result d i live = rw live

erase-none :
    (d : Dict) → erase d none ≡ record { result = nil; state = d; calls = []; failure = none }
unfolding erase
erase-none d = refl

erase-Removed :
    (d : Dict) (key : Value)
    → length d.entries ≡ d.capacity
    → Removed d key (erase d (find_slot d key))
erase-Removed d key width = elim (Option-cases (find_slot d key)) [
  | inl nowhere ↦
      let held = lookup_nowhere d key nowhere in
      rw (nowhere, erase-none)
        (record { returned = sym (ap or_nil held); gone = held; count = rw held (omega arith) })
  | inr (i, found) ↦ elim (Bool-cases (is_live (entry_at d.entries i))) [
    | inl live ↦
        let (j, r, at_j) = find_slot-Reaches d key i found in
        let w = r.within in
        let held = lookup_at d key i found ∙ value_at_live d.entries i live in
        rw found (record {
          returned = erase_live_result d i live ∙ sym (ap or_nil held);
          gone = rw (erase_live d i live) (lookup-buried d i (omega arith) key j at_j r.before);
          count = rw (erase_live d i live, held);
        })
    | inr dead ↦
        let held = lookup_at d key i found ∙ value_at_dead d.entries i dead in
        rw found (record {
          returned = erase_dead_result d i dead ∙ sym (ap or_nil held);
          gone = rw (erase_dead d i dead) held;
          count = rw (erase_dead d i dead, held) (omega arith);
        })
  ]
]

-- On a table with an entry for each slot and a key that its type admits, `bread_dict_remove`
-- returns the value that was read under the key, or nil, the key is not found afterwards, and
-- the count is one less exactly if it was found.
pub remove-Removed :
    (d : Dict) (key : Value)
    → length d.entries ≡ d.capacity
    → mismatched d.key_type key ≡ false
    → Removed d key (remove d key)
remove-Removed d key width good = elim (Bool-cases (d.capacity == 0)) [
  | inr pos ↦ rw (remove_step d key good pos) (erase-Removed d key width)
  | inl z ↦
      let held = lookup_nowhere d key (find_slot_empty d key z) in
      rw (remove_empty d key good z)
        (record { returned = sym (ap or_nil held); gone = held; count = rw held (omega arith) })
]

module _ {d : Dict} (v : IsValid d) (key l : Value) (i t : ℕ) where
  remove_buries :
      IsKey key
      → mismatched d.key_type key ≡ false
      → Stored d key i
      → (remove d key).state ≡ buried d i
  remove_buries is_key good s =
      let p = s.inside in
      let pos : (d.capacity == 0) ≡ false = ground arith in
      rw (remove_step d key good pos, find_slot-Stored key i v is_key s) (erase_live d i s.live)

  -- On a valid table, if the probe for a stored key, before its end, comes to the slot of
  -- another stored key that the table admits, then removing that other key makes the table
  -- forget the first.
  pub remove_hides :
      (m : ℕ)
      → IsKey key
      → IsKey l
      → mismatched d.key_type key ≡ false
      → Stored d key i
      → Stored d l t
      → i ≢ t
      → i ≡ visit (home d l) d.capacity m
      → ((p : ℕ) → p < m → tests d l p ≡ false)
      → (lookup d l ≡ some (entry_at d.entries t).value) × (lookup (remove d key).state l ≡ none)
  remove_hides m kk kl good sk sl ne at_m before =
      let p = sk.inside in
      let width = v.width in
      (
        Stored-lookup l t v kl sl,
        rw (remove_buries kk good sk) (lookup-buried d i (omega arith) l m at_m before),
      )

  -- On a valid table, if the probe for a stored key does not pass over the slot of another
  -- stored key, removing that other key leaves what the first reads.
  pub remove_keeps :
      IsKey key
      → IsKey l
      → mismatched d.key_type key ≡ false
      → Stored d key i
      → Stored d l t
      → i ≢ t
      → ((p q : ℕ)
          → p < d.capacity
          → t ≡ visit (home d l) d.capacity p
          → q < p
          → i ≢ visit (home d l) d.capacity q)
      → lookup (remove d key).state l ≡ lookup d l
  remove_keeps kk kl good sk sl ne clear =
      let p = sk.inside in
      let width = v.width in
      let inside : i < length d.entries = omega arith in
      let off = off_grave d i inside t ne in
      let found = find_slot_kept d i inside l t (find_slot-Stored l t v kl sl) ne clear in
      rw (remove_buries kk good sk) (
        lookup_at (buried d i) l t found
        ∙ value_at_live (buried d i).entries t (rw off sl.live)
        ∙ ap (λ (e : Entry). some e.value) off
        ∙ sym (Stored-lookup l t v kl sl))
