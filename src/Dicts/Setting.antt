-- ===== src/Dicts/Setting.antt =====
-- `bread_dict_set_safe` updates the map that a valid table reads as.
use bread_lang.Prelude.{
  ℕ, ◌≡◌, refl, ap, ◌∙◌, Bool, true, false, inl, inr, none, some, List, [], ◌++◌, if◌then◌else◌,
  Option-cases, Bool-cases, arith,
}
use bread_lang.Values.{
  Value, same_value, Outcome, release_calls, clone_calls, Failure, Call, runtime, type_mismatch,
}
use bread_lang.Values.Keys.{IsKey, same_value_refl}
use bread_lang.Dicts.{
  Entry, Dict, entry_at, is_live, find_slot, lookup, mismatched, adopt_types, grow, overwrite,
  occupy, write, set_safe,
}
use bread_lang.Dicts.Stored.{IsValid, find_slot_live}
use bread_lang.Dicts.Placing.{Fits}
use bread_lang.Dicts.Adding.{Placed, place_new, place_over}
use bread_lang.Dicts.Counting.{find_slot_room}
use bread_lang.Dicts.Growing.{Same, grow-Same}

adopt_types-Same : {d : Dict} (k w : Value) → IsValid d → Same d (adopt_types d k w)
unfolding adopt_types find_slot lookup
adopt_types-Same {d} k w v = record {
  valid = record { width = v.width; keys = v.keys; findable = v.findable; counted = v.counted };
  count = refl;
  reads = λ l key. refl;
}

-- What `write` does to the map: if it returns 1 the value is under the key, if it returns 0 nothing
-- has changed.
pub record Updates (d : Dict) (key value : Value) (o : Outcome Dict Bool) : Type 0 where
  pub valid : IsValid o.state
  pub reads :
      (k : Value)
      → IsKey k
      → lookup o.state k
        ≡ (if o.result then (if same_value key k then some value else lookup d k) else lookup d k)

Placed-Updates :
    {d r : Dict} (key value : Value) (n : ℕ) (cs : List Call)
    → Placed d key value n r
    → Updates d key value (record { result = true; state = r; calls = cs; failure = none })
Placed-Updates key value n cs p = record { valid = p.valid; reads = p.reads }

kept-Updates :
    {d : Dict} (key value : Value) (f : Failure)
    → IsValid d
    → Updates d key value (record { result = false; state = d; calls = []; failure = some f })
kept-Updates key value f v = record { valid = v; reads = λ k is_key. refl }

module _ {d : Dict} (key value : Value) (v : IsValid d) (is_key : IsKey key) (i : ℕ)
    (found : find_slot d key ≡ some i) where
  overwrite-Updates :
      is_live (entry_at d.entries i) ≡ true → Updates d key value (overwrite d value i)
  unfolding overwrite is_live
  overwrite-Updates old =
      let s = find_slot_live key i found old in
      let fits : Fits d key i (record (entry_at d.entries i) { value = value }) = record {
        found = found;
        is_key = is_key;
        live = old;
        entry_key = v.keys i s.inside old;
        same = s.keyed;
        kept = λ _. refl;
      } in
      Placed-Updates key value 0 (release_calls (entry_at d.entries i).value ++ clone_calls value)
        (place_over v fits old)

  occupy-Updates :
      is_live (entry_at d.entries i) ≡ false → Updates d key value (occupy d key value i)
  unfolding occupy is_live
  occupy-Updates dead =
      let fresh : Entry = record {
        key = key;
        value = value;
        is_occupied = true;
        is_deleted = false;
      } in
      let fits : Fits d key i fresh = record {
        found = found;
        is_key = is_key;
        live = refl;
        entry_key = is_key;
        same = same_value_refl key is_key;
        kept = λ old. absurd (cc (old, dead));
      } in
      Placed-Updates key value 1 (clone_calls key ++ clone_calls value) (place_new v fits dead)

write_step :
    (d : Dict) (key value : Value) (i : ℕ)
    → write d key value (some i)
      ≡ (if is_live (entry_at d.entries i) then overwrite d value i else occupy d key value i)
unfolding write
write_step d key value i = refl

write_full :
    (d : Dict) (key value : Value)
    → write d key value none
      ≡ record { result = false; state = d; calls = []; failure = some runtime }
unfolding write
write_full d key value = refl

write-Updates :
    {d : Dict} (key value : Value)
    → IsValid d
    → IsKey key
    → Updates d key value (write d key value (find_slot d key))
write-Updates {d} key value v is_key = elim (Option-cases (find_slot d key)) [
  | inl full ↦ rw (full, write_full) (kept-Updates key value runtime v)
  | inr (i, found) ↦
      rw (found, write_step)
        (elim (Bool-cases (is_live (entry_at d.entries i))) [
          | inl old ↦ rw old (overwrite-Updates key value v is_key i found old)
          | inr dead ↦ rw dead (occupy-Updates key value v is_key i found dead)
        ])
]

pub set_safe_step :
    (alloc : ℕ → Bool) (d : Dict) (key value : Value)
    → set_safe alloc d key value ≡ (
        if mismatched d.key_type key
        then record { result = false; state = d; calls = []; failure = some type_mismatch }
        else if mismatched d.value_type value
        then record { result = false; state = d; calls = []; failure = some type_mismatch }
        else write
            (grow alloc (adopt_types d key value))
            key
            value
            (find_slot (grow alloc (adopt_types d key value)) key))
unfolding set_safe
set_safe_step alloc d key value = refl

ready-Same :
    (alloc : ℕ → Bool) {d : Dict} (key value : Value)
    → IsValid d
    → Same d (grow alloc (adopt_types d key value))
ready-Same alloc key value v =
    let a = adopt_types-Same key value v in
    let g = (grow-Same alloc a.valid).0 in
    record {
      valid = g.valid;
      count = g.count ∙ a.count;
      reads = λ k is_key. g.reads k is_key ∙ a.reads k is_key;
    }

Updates-through :
    {d r : Dict} {key value : Value} {o : Outcome Dict Bool}
    → Same d r
    → Updates r key value o
    → Updates d key value o
Updates-through {key} {value} {o} s u = record {
  valid = u.valid;
  reads = λ k is_key.
      u.reads k is_key
      ∙ ap (λ x. if o.result then (if same_value key k then some value else x) else x)
          (s.reads k is_key);
}

-- `bread_dict_set_safe` on a valid table, with a key that can be found again, leaves a valid table
-- on every branch, whether the growth succeeds or not. If it returns 1, the value is read under the
-- key and every other key reads as before; if it returns 0, every key reads as before.
pub set_safe-Updates :
    (alloc : ℕ → Bool) {d : Dict} (key value : Value)
    → IsValid d
    → IsKey key
    → Updates d key value (set_safe alloc d key value)
set_safe-Updates alloc {d} key value v is_key = elim (Bool-cases (mismatched d.key_type key)) [
  | inl bad ↦ rw (set_safe_step, bad) (kept-Updates key value type_mismatch v)
  | inr good ↦ elim (Bool-cases (mismatched d.value_type value)) [
    | inl bad ↦ rw (set_safe_step, good, bad) (kept-Updates key value type_mismatch v)
    | inr fine ↦
        let s = ready-Same alloc key value v in
        rw (set_safe_step, good, fine) (Updates-through s (write-Updates key value s.valid is_key))
  ]
]

write-some : (d : Dict) (key value : Value) (i : ℕ) → (write d key value (some i)).result ≡ true
unfolding write
write-some d key value i = ground arith

-- Where allocations succeed, `bread_dict_set_safe` of a key and a value of the right types into
-- a valid table returns 1: the growth step leaves a slot.
pub set_safe_succeeds :
    (alloc : ℕ → Bool) {d : Dict} (key value : Value)
    → ((n : ℕ) → alloc n ≡ true)
    → IsValid d
    → mismatched d.key_type key ≡ false
    → mismatched d.value_type value ≡ false
    → (set_safe alloc d key value).result ≡ true
set_safe_succeeds alloc key value always v good fine =
    let a = adopt_types-Same key value v in
    let (s, room) = grow-Same alloc a.valid in
    let (i, found) = find_slot_room key s.valid (room always) in
    rw (set_safe_step, good, fine, found) (write-some _ key value i)
