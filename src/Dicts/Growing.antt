-- ===== src/Dicts/Growing.antt =====
-- `bread_dict_resize` and the growth step: the table changes, what it reads as does not.
use bread_lang.Prelude.{
  ℕ, ◌+◌, ◌*◌, ◌≤◌, ◌<◌, ◌≡◌, refl, ap, ◌∙◌, Bool, true, false, ◌||◌, inl, inr, Option, none, some,
  List, [], ◌∷◌, ◌==◌, ltb, if◌then◌else◌, Option-cases, Bool-cases, replicate, get_or-replicate,
  length-replicate, arith,
}
use bread_lang.Values.{Value}
use bread_lang.Values.Keys.{IsKey}
use bread_lang.Dicts.{
  Entry, Dict, entry_at, empty_entry, is_live, lookup, move_entries, resize, grow,
}
use bread_lang.Dicts.Stored.{IsValid, lookup-Stored}
use bread_lang.Dicts.Counting.{live_count-replicate, count-le}
use bread_lang.Dicts.Moving.{assoc, or_else, Missing, move_entries-Moved}
use bread_lang.Dicts.Reading.{valid-Distinct, assoc-lookup}

-- The table that `calloc` makes.
abbrev pub cleared : Dict → ℕ → Dict
cleared d n = record d { entries = replicate n empty_entry; capacity = n; count = 0 }

empty_not_live : (n i : ℕ) → is_live (entry_at (replicate n empty_entry) i) ≡ false
unfolding is_live
empty_not_live n i = rw (get_or-replicate n i empty_entry)

pub cleared-IsValid : (d : Dict) (n : ℕ) → IsValid (cleared d n)
cleared-IsValid d n = record {
  width = length-replicate n empty_entry;
  keys = λ i lt live. absurd (cc (live, empty_not_live n i));
  findable = λ i lt live. absurd (cc (live, empty_not_live n i));
  counted = omega (arith, live_count-replicate n);
}

pub lookup-cleared : (d : Dict) (n : ℕ) (k : Value) → lookup (cleared d n) k ≡ none
lookup-cleared d n k = elim (Option-cases (lookup (cleared d n) k)) [
  | inl e ↦ e
  | inr (w, e) ↦
      let (i, at_i, s, val) = lookup-Stored (cleared d n) k w e in
      absurd (cc (s.live, empty_not_live n i))
]

pub Missing-cleared : (d : Dict) (n : ℕ) (es : List Entry) → Missing (cleared d n) es
Missing-cleared d n [] = tt
Missing-cleared d n (e ∷ es) = (λ live. lookup-cleared d n e.key, Missing-cleared d n es)

-- The table `r` reads as `d` does.
pub record Same (d r : Dict) : Type 0 where
  pub valid : IsValid r
  pub count : r.count ≡ d.count
  pub reads : (k : Value) → IsKey k → lookup r k ≡ lookup d k

pub resize_step :
    (alloc : ℕ → Bool) (d : Dict) (n : ℕ)
    → resize alloc d n
      ≡ (if n == 0 then d else if alloc n then move_entries d.entries (cleared d n) else d)
unfolding resize
resize_step alloc d n = refl

Same-refl : {d : Dict} → IsValid d → Same d d
Same-refl v = record { valid = v; count = refl; reads = λ k key. refl }

pub or_else-none : (o : Option Value) → or_else o none ≡ o
or_else-none none = refl
or_else-none (some w) = refl

moved-Same :
    {d : Dict} (n : ℕ)
    → IsValid d
    → d.count ≤ n
    → Same d (move_entries d.entries (cleared d n))
      × ((move_entries d.entries (cleared d n)).capacity ≡ n)
moved-Same {d} n v room =
    let counted = v.counted in
    let m =
      move_entries-Moved d.entries (cleared d n) (cleared-IsValid d n) (omega arith)
        (valid-Distinct v) (Missing-cleared d n d.entries) in
    let total = m.count in
    (
      record {
        valid = m.valid;
        count = omega arith;
        reads = λ k key.
            m.reads k key
            ∙ ap (λ o. or_else (assoc d.entries k) o) (lookup-cleared d n k)
            ∙ or_else-none (assoc d.entries k)
            ∙ assoc-lookup k v key;
      },
      m.same_capacity,
    )

-- `bread_dict_resize` of a valid table to at least as many slots as there are entries keeps the
-- table valid, its count and what every key that can be found again reads, and reaches the new
-- capacity where the allocation succeeds.
pub resize-Same :
    (alloc : ℕ → Bool) {d : Dict} (n : ℕ)
    → IsValid d
    → d.count ≤ n
    → Same d (resize alloc d n) × (0 < n → alloc n ≡ true → (resize alloc d n).capacity ≡ n)
resize-Same alloc {d} n v room = elim (Bool-cases (n == 0)) [
  | inl z ↦ rw (resize_step, z) (Same-refl v, λ pos. absurd (ground arith))
  | inr nz ↦ elim (Bool-cases (alloc n)) [
    | inl ok ↦
        let (s, wide) = moved-Same n v room in rw (resize_step, nz, ok) (s, λ pos yes_ok. wide)
    | inr failed ↦ rw (resize_step, nz, failed) (Same-refl v, λ pos ok. absurd (cc (ok)))
  ]
]

pub grow_step :
    (alloc : ℕ → Bool) (d : Dict)
    → grow alloc d ≡ (
        if d.capacity == 0 || ltb (3 * d.capacity) (4 * (d.count + 1))
        then resize alloc d (if d.capacity == 0 then 8 else d.capacity * 2)
        else d)
unfolding grow
grow_step alloc d = refl

target : ℕ → ℕ
target c = if c == 0 then 8 else c * 2

target_bounds : (c n : ℕ) → n ≤ c → (n < target c) × (0 < target c)
unfolding target
target_bounds c n h = ground arith

-- The growth step keeps what the table reads as, and where allocations succeed it leaves a free slot.
pub grow-Same :
    (alloc : ℕ → Bool) {d : Dict}
    → IsValid d
    → Same d (grow alloc d)
      × (((n : ℕ) → alloc n ≡ true) → (grow alloc d).count < (grow alloc d).capacity)
unfolding target
grow-Same alloc {d} v =
    let c = d.capacity in
    elim (Bool-cases (c == 0 || ltb (3 * c) (4 * (d.count + 1)))) [
      | inr room ↦ rw (grow_step, room) (Same-refl v, λ always. ground arith)
      | inl tight ↦
          let (lt, pos) = target_bounds c d.count (count-le v) in
          let (s, wide) = resize-Same alloc (target c) v (omega arith) in
          rw (grow_step, tight)
            (s, λ always. let n = s.count in let w = wide pos (always (target c)) in omega arith)
    ]
