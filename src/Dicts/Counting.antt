-- ===== src/Dicts/Counting.antt =====
-- The number of live entries, and room for one more.
use native.Mathlib.Nat.{add-mod-mod, add-mod_right, mod-eq_of_lt}
use bread_lang.Prelude.{
  ℕ, zero, suc, ◌+◌, ◌-◌, ◌%◌, ◌≤◌, ◌<◌, ◌≡◌, refl, ap, ◌∙◌, true, false, inl, inr, none, some,
  List, [], ◌∷◌, if◌then◌else◌, Option-cases, Bool-cases, length, set, replicate, arith,
}
use bread_lang.Values.{Value}
use bread_lang.Dicts.{Entry, Dict, entry_at, empty_entry, is_live, ends_probe, find_slot}
use bread_lang.Dicts.Slots.{home, find_slot-none}
use bread_lang.Dicts.Probing.{visit}
use bread_lang.Dicts.Stored.{live_count, IsValid, dead_ends}

pub weight : Entry → ℕ
weight e = if is_live e then 1 else 0

pub weight_live : (e : Entry) → is_live e ≡ true → weight e ≡ 1
unfolding weight
weight_live e h = rw h

pub weight_dead : (e : Entry) → is_live e ≡ false → weight e ≡ 0
unfolding weight
weight_dead e h = rw h

pub live_count-cons : (e : Entry) (es : List Entry) → live_count (e ∷ es) ≡ weight e + live_count es
unfolding live_count weight
live_count-cons e es = refl

pub live_count-set :
    (es : List Entry) (i : ℕ) (e : Entry)
    → i < length es
    → live_count (set es i e) + weight (entry_at es i) ≡ live_count es + weight e
live_count-set [] i e h = absurd (omega arith)
live_count-set (x ∷ es) zero e h = omega (arith, live_count-cons e es, live_count-cons x es)
live_count-set (x ∷ es) (suc i) e h = omega (
  arith,
  live_count-cons x (set es i e),
  live_count-cons x es,
  live_count-set es i e (omega arith),
)

pub live_count-replicate : (n : ℕ) → live_count (replicate n empty_entry) ≡ 0
unfolding live_count is_live
live_count-replicate zero = refl
live_count-replicate (suc n) = omega (arith, live_count-replicate n)

pub live_count-le : (es : List Entry) → live_count es ≤ length es
unfolding live_count
live_count-le [] = omega arith
live_count-le (e ∷ es) = ground (arith, live_count-le es)

all_live :
    (es : List Entry)
    → ((i : ℕ) → i < length es → is_live (entry_at es i) ≡ true)
    → live_count es ≡ length es
all_live [] h = live_count-replicate 0
all_live (e ∷ es) h = omega (
  arith,
  live_count-cons e es,
  weight_live e (h 0 (omega arith)),
  all_live es (λ i lt. h (suc i) (omega arith)),
)

visit_back : (h s c : ℕ) → h < c → s < c → visit h c ((s + c - h) % c) ≡ s
visit_back h s c p q =
    add-mod-mod h (s + c - h) c
    ∙ ap (λ (n : ℕ). n % c) (omega arith)
    ∙ add-mod_right s c
    ∙ mod-eq_of_lt q

full_live :
    (d : Dict) (key : Value) (s : ℕ)
    → find_slot d key ≡ none
    → s < d.capacity
    → is_live (entry_at d.entries s) ≡ true
full_live d key s e lt = elim (Bool-cases (is_live (entry_at d.entries s))) [
  | inl live ↦ live
  | inr dead ↦
      let h = home d key in
      let j = (s + d.capacity - h) % d.capacity in
      let ends : ends_probe key (entry_at d.entries (visit h d.capacity j)) ≡ true =
        rw (visit_back h s d.capacity (omega arith) lt)
          (dead_ends (entry_at d.entries s) key dead) in
      absurd (cc (ends, find_slot-none d key j e (omega arith)))
]

-- In a valid table that is not full the probe finds a slot.
pub find_slot_room :
    {d : Dict} (key : Value)
    → IsValid d
    → d.count < d.capacity
    → (i : ℕ) × (find_slot d key ≡ some i)
find_slot_room {d} key v room = elim (Option-cases (find_slot d key)) [
  | inr found ↦ found
  | inl e ↦
      let width = v.width in
      let counted = v.counted in
      let full = all_live d.entries (λ i lt. full_live d key i e (omega arith)) in
      absurd (omega arith)
]

pub count-le : {d : Dict} → IsValid d → d.count ≤ d.capacity
count-le {d} v =
    let width = v.width in let counted = v.counted in omega (arith, live_count-le d.entries)
