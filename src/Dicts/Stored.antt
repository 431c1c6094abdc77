-- ===== src/Dicts/Stored.antt =====
-- Valid tables: every live entry is where the probe for its key ends. There `bread_dict_find_slot`
-- finds exactly the keys that are stored.
use mathlib.Core.Path.{fun_ext}
use bread_lang.Prelude.{
  ℕ, ◌+◌, ◌%◌, ◌<◌, ◌≡◌, sym, ap, ◌∙◌, Bool, true, false, inl, inr, none, some, List, [], ◌∷◌, ◌==◌,
  if◌then◌else◌, Option-cases, Bool-cases, length, arith,
}
use bread_lang.Values.{Value, same_value, hash_key}
use bread_lang.Values.Keys.{IsKey, key_congr, same_value_symm}
use bread_lang.Dicts.{Entry, Dict, entry_at, is_live, ends_probe, find_slot, lookup, value_at}
use bread_lang.Dicts.Slots.{tests, find_slot-Reaches, home, find_slot_lem, find_slot_empty}
use bread_lang.Dicts.Probing.{visit, first, slot_after}

-- How many entries are live.
unfoldable pub live_count : List Entry → ℕ
live_count [] = 0
live_count (e ∷ es) = (if is_live e then 1 else 0) + live_count es

-- The key is that of the live entry at the slot.
pub record Stored (d : Dict) (key : Value) (i : ℕ) : Type 0 where
  pub inside : i < d.capacity
  pub live : is_live (entry_at d.entries i) ≡ true
  pub keyed : same_value (entry_at d.entries i).key key ≡ true

pub record IsValid (d : Dict) : Type 0 where
  pub width : length d.entries ≡ d.capacity
  pub keys :
      (i : ℕ)
      → i < d.capacity
      → is_live (entry_at d.entries i) ≡ true
      → IsKey (entry_at d.entries i).key
  pub findable :
      (i : ℕ)
      → i < d.capacity
      → is_live (entry_at d.entries i) ≡ true
      → find_slot d (entry_at d.entries i).key ≡ some i
  pub counted : d.count ≡ live_count d.entries

pub live_iff :
    (e : Entry) (key : Value) → is_live e ≡ true → ends_probe key e ≡ same_value e.key key
unfolding is_live ends_probe
live_iff e key h = ground arith

pub dead_ends : (e : Entry) (key : Value) → is_live e ≡ false → ends_probe key e ≡ true
unfolding is_live ends_probe
dead_ends e key h = ground arith

ends_congr :
    (e : Entry) (k l : Value)
    → same_value e.key k ≡ same_value e.key l
    → ends_probe k e ≡ ends_probe l e
unfolding ends_probe
ends_congr e k l h = rw h

-- The probe treats keys alike that compare equal.
tests_congr :
    (d : Dict) (k l : Value)
    → hash_key k ≡ hash_key l
    → ((x : Value) → same_value x k ≡ same_value x l)
    → (j : ℕ) → tests d k j ≡ tests d l j
tests_congr d k l h same j =
    ap (λ (n : ℕ). ends_probe k (entry_at d.entries (visit (n % d.capacity) d.capacity j))) h
    ∙ ends_congr (entry_at d.entries (visit (home d l) d.capacity j)) k l (same _)

pub find_slot_congr :
    (d : Dict) (k l : Value)
    → IsKey k
    → IsKey l
    → same_value k l ≡ true
    → find_slot d k ≡ find_slot d l
find_slot_congr d k l p q e = elim (Bool-cases (d.capacity == 0)) [
  | inl z ↦ find_slot_empty d k z ∙ sym (find_slot_empty d l z)
  | inr some_slots ↦
      let pos : 0 < d.capacity = ground arith in
      let c = d.capacity in
      let (h, same) = key_congr k l p q e in
      find_slot_lem d k pos
      ∙ ap (λ (n : ℕ). slot_after (n % c) c (first c (tests d k) 0)) h
      ∙ ap (λ (t : ℕ → Bool). slot_after (home d l) c (first c t 0))
          (fun_ext (tests_congr d k l h same))
      ∙ sym (find_slot_lem d l pos)
]

-- Two keys that an entry's key equals are equal.
pub same_value_join :
    (x k l : Value) → IsKey x → IsKey k → same_value x k ≡ true → same_value x l ≡ same_value k l
same_value_join x k l p q e = same_value_symm x l ∙ (key_congr x k p q e).1 l ∙ same_value_symm l k

pub find_slot-Stored :
    {d : Dict} (key : Value) (i : ℕ)
    → IsValid d
    → IsKey key
    → Stored d key i
    → find_slot d key ≡ some i
find_slot-Stored {d} key i v k s =
    sym (find_slot_congr d (entry_at d.entries i).key key (v.keys i s.inside s.live) k s.keyed)
    ∙ v.findable i s.inside s.live

-- What the slot of a key holds is live only if it is that key.
pub find_slot_live :
    {d : Dict} (key : Value) (i : ℕ)
    → find_slot d key ≡ some i
    → is_live (entry_at d.entries i) ≡ true
    → Stored d key i
find_slot_live {d} key i e h =
    let (j, r, at_j) = find_slot-Reaches d key i e in
    let ends : ends_probe key (entry_at d.entries i) ≡ true = rw at_j r.ends in
    let w = r.within in
    record {
      inside = omega arith;
      live = h;
      keyed = sym (live_iff (entry_at d.entries i) key h) ∙ ends;
    }

pub value_at_live :
    (es : List Entry) (i : ℕ)
    → is_live (entry_at es i) ≡ true
    → value_at es (some i) ≡ some (entry_at es i).value
unfolding value_at
value_at_live es i h = ground arith

value_at-none : (es : List Entry) (w : Value) → value_at es none ≡ some w → ⊥
unfolding value_at
value_at-none es w h = cc

value_at-some :
    (es : List Entry) (i : ℕ) (w : Value)
    → value_at es (some i) ≡ some w
    → (is_live (entry_at es i) ≡ true) × ((entry_at es i).value ≡ w)
unfolding value_at
value_at-some es i w h = ground arith

-- A stored key is looked up with the value of its entry.
pub Stored-lookup :
    {d : Dict} (key : Value) (i : ℕ)
    → IsValid d
    → IsKey key
    → Stored d key i
    → lookup d key ≡ some (entry_at d.entries i).value
unfolding lookup
Stored-lookup {d} key i v k s = rw (find_slot-Stored key i v k s) (value_at_live d.entries i s.live)

-- What is looked up is stored.
pub lookup-Stored :
    (d : Dict) (key w : Value)
    → lookup d key ≡ some w
    → (i : ℕ) × (find_slot d key ≡ some i) × Stored d key i × ((entry_at d.entries i).value ≡ w)
unfolding lookup
lookup-Stored d key w e = elim (Option-cases (find_slot d key)) [
  | inl f ↦ absurd (value_at-none d.entries w (rw f at e))
  | inr (i, f) ↦
      let (live, same) = value_at-some d.entries i w (rw f at e) in
      (i, f, find_slot_live key i f live, same)
]
