-- ===== src/Dicts/Slots.antt =====
-- The slot that `bread_dict_find_slot` returns, as the first that ends the probe.
use native.Mathlib.Decide.{dec_lt}
use bread_lang.Prelude.{
  ℕ, ◌%◌, ◌<◌, ◌≡◌, refl, Bool, true, false, inl, inr, none, some, ◌==◌, if◌then◌else◌,
  Option-cases, arith,
}
use bread_lang.Values.{Value, hash_key}
use bread_lang.Dicts.{Dict, entry_at, ends_probe, scan, find_slot, join}
use bread_lang.Dicts.Probing.{
  visit, first, slot_after, scan_round, first-some, first-none, first_intro, ne→==,
}

abbrev pub home : Dict → Value → ℕ
home d key = hash_key key % d.capacity

-- The test that `bread_dict_find_slot` makes after `j` steps.
abbrev pub tests : Dict → Value → ℕ → Bool
tests d key j = ends_probe key (entry_at d.entries (visit (home d key) d.capacity j))

-- The probe for `key` reaches the slot after `j` steps, and none of the slots before ends it.
pub record Reaches (d : Dict) (key : Value) (j : ℕ) : Type 0 where
  pub within : j < d.capacity
  pub ends : tests d key j ≡ true
  pub before : (k : ℕ) → k < j → tests d key k ≡ false

home-lt : (d : Dict) (key : Value) → 0 < d.capacity → home d key < d.capacity
home-lt d key h = omega arith

-- In a table with slots, the probe of `bread_dict_find_slot` ends within as many rounds as there
-- are slots, at the first slot on its way that is free, deleted or of the key.
pub scan_total :
    (d : Dict) (key : Value)
    → 0 < d.capacity
    → scan d.entries d.capacity key (home d key) d.capacity (home d key)
      ≡ some (slot_after (home d key) d.capacity (first d.capacity (tests d key) 0))
scan_total d key h =
    scan_round d.entries d.capacity key (home d key) (home-lt d key h) d.capacity refl

find_slot_step :
    (d : Dict) (key : Value)
    → find_slot d key ≡ (
        if d.capacity == 0
        then none
        else join (scan d.entries d.capacity key (home d key) d.capacity (home d key)))
unfolding find_slot
find_slot_step d key = refl

pub find_slot_empty : (d : Dict) (key : Value) → (d.capacity == 0) ≡ true → find_slot d key ≡ none
find_slot_empty d key h = rw (find_slot_step, h)

pub find_slot_lem :
    (d : Dict) (key : Value)
    → 0 < d.capacity
    → find_slot d key ≡ slot_after (home d key) d.capacity (first d.capacity (tests d key) 0)
find_slot_lem d key h = rw (find_slot_step, ne→== d.capacity 0 (omega arith), scan_total d key h)

find_slot_pos : (d : Dict) (key : Value) (i : ℕ) → find_slot d key ≡ some i → 0 < d.capacity
find_slot_pos d key i e = elim (dec_lt 0 d.capacity) [
  | yes h ↦ h
  | no h ↦
      let zero_capacity : (d.capacity == 0) ≡ true = ground arith in
      absurd (cc (e, find_slot_empty d key zero_capacity))
]

pub find_slot-Reaches :
    (d : Dict) (key : Value) (i : ℕ)
    → find_slot d key ≡ some i
    → (j : ℕ) × Reaches d key j × (i ≡ visit (home d key) d.capacity j)
find_slot-Reaches d key i e =
    let pos = find_slot_pos d key i e in
    elim (Option-cases (first d.capacity (tests d key) 0)) [
      | inl none_there ↦ absurd (cc (find_slot_lem d key pos))
      | inr (j, at_j) ↦
          let (lo, hi, hit, miss) = first-some (tests d key) d.capacity 0 j at_j in
          (
            j,
            record { within = omega arith; ends = hit; before = λ k lt. miss k (omega arith) lt },
            cc (find_slot_lem d key pos),
          )
    ]

pub Reaches-find_slot :
    (d : Dict) (key : Value) (j : ℕ)
    → Reaches d key j
    → find_slot d key ≡ some (visit (home d key) d.capacity j)
Reaches-find_slot d key j r =
    let w = r.within in
    rw (
      find_slot_lem d key (omega arith),
      first_intro (tests d key) d.capacity 0 j (omega arith) (omega arith) r.ends
          (λ k lo hi. r.before k hi),
    )

pub find_slot-none :
    (d : Dict) (key : Value) (k : ℕ)
    → find_slot d key ≡ none
    → k < d.capacity
    → tests d key k ≡ false
find_slot-none d key k e lt = elim (Option-cases (first d.capacity (tests d key) 0)) [
  | inl none_there ↦ first-none (tests d key) d.capacity 0 none_there k (omega arith) (omega arith)
  | inr (j, at_j) ↦ absurd (cc (find_slot_lem d key (omega arith), at_j))
]
