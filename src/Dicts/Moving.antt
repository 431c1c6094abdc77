-- ===== src/Dicts/Moving.antt =====
-- The rehashing loop of `bread_dict_resize`.
use bread_lang.Prelude.{
  ℕ, ◌+◌, ◌≤◌, ◌<◌, ◌≡◌, refl, sym, subst, ap, ◌∙◌, true, false, ◌&&◌, inl, inr, Option, none, some,
  List, [], ◌∷◌, if◌then◌else◌, Bool-cases, arith,
}
use bread_lang.Values.{Value, same_value}
use bread_lang.Values.Keys.{IsKey, same_value_refl, same_value_symm}
use bread_lang.Dicts.{
  Entry, Dict, entry_at, is_live, find_slot, lookup, move_to, move_entry, move_entries,
}
use bread_lang.Dicts.Stored.{live_count, IsValid, same_value_join, find_slot_live, Stored-lookup}
use bread_lang.Dicts.Placing.{Fits, place}
use bread_lang.Dicts.Adding.{Placed, place_new}
use bread_lang.Dicts.Counting.{
  weight_live, weight_dead, live_count-cons, live_count-replicate, find_slot_room,
}

-- The value of the first live entry with the key.
unfoldable pub assoc : List Entry → Value → Option Value
assoc [] k = none
assoc (e ∷ es) k =
    let rest = assoc es k in if is_live e && same_value e.key k then some e.value else rest

abbrev pub or_else : Option Value → Option Value → Option Value
or_else none b = b
or_else (some a) b = some a

-- No live entry has the key.
abbrev pub Absent : Value → List Entry → Type 0
Absent k [] = Unit
Absent k (e ∷ es) = (is_live e ≡ true → same_value k e.key ≡ false) × Absent k es

-- The live entries have keys, no two of which are equal.
abbrev pub Distinct : List Entry → Type 0
Distinct [] = Unit
Distinct (e ∷ es) = (is_live e ≡ true → IsKey e.key × Absent e.key es) × Distinct es

-- The table has none of the live entries' keys.
abbrev pub Missing : Dict → List Entry → Type 0
Missing d [] = Unit
Missing d (e ∷ es) = (is_live e ≡ true → lookup d e.key ≡ none) × Missing d es

pub move_entry_step :
    (d : Dict) (e : Entry)
    → move_entry e d ≡ (if is_live e then move_to d e (find_slot d e.key) else d)
unfolding move_entry
move_entry_step d e = refl

move_entry_live :
    (d : Dict) (e : Entry) (i : ℕ)
    → is_live e ≡ true
    → find_slot d e.key ≡ some i
    → move_entry e d ≡ place d i e (d.count + 1)
unfolding move_to
move_entry_live d e i live found = rw (move_entry_step, live, found)

pub move_entry-Placed :
    {d : Dict} (e : Entry)
    → IsValid d
    → d.count < d.capacity
    → is_live e ≡ true
    → IsKey e.key
    → lookup d e.key ≡ none
    → Placed d e.key e.value 1 (move_entry e d)
move_entry-Placed {d} e v room live key absent =
    let (i, found) = find_slot_room e.key v room in
    let dead : is_live (entry_at d.entries i) ≡ false =
      elim (Bool-cases (is_live (entry_at d.entries i))) [
        | inr h ↦ h
        | inl old ↦
            absurd (cc (Stored-lookup e.key i v key (find_slot_live e.key i found old), absent))
      ] in
    let fits : Fits d e.key i e = record {
      found = found;
      is_key = key;
      live = live;
      entry_key = key;
      same = same_value_refl e.key key;
      kept = λ old. absurd (cc (old, dead));
    } in
    subst (λ r. Placed d e.key e.value 1 r) (sym (move_entry_live d e i live found))
      (place_new v fits dead)

move_entry_dead : (d : Dict) (e : Entry) → is_live e ≡ false → move_entry e d ≡ d
move_entry_dead d e h = rw (move_entry_step, h)

pub Missing-after :
    {d r : Dict} (key value : Value) (es : List Entry)
    → Placed d key value 1 r
    → Absent key es
    → Distinct es
    → Missing d es
    → Missing r es
Missing-after key value [] p a u m = tt
Missing-after {d} {r} key value (e ∷ es) p a u m = (
  λ live. rw (p.reads e.key ((u.0 live).0), a.0 live) (m.0 live),
  Missing-after key value es p a.1 u.1 m.1,
)

-- What the loop over the old entries leaves: the table with all of them moved in.
pub record Moved (d : Dict) (es : List Entry) (r : Dict) : Type 0 where
  pub valid : IsValid r
  pub same_capacity : r.capacity ≡ d.capacity
  pub count : r.count ≡ d.count + live_count es
  pub reads : (k : Value) → IsKey k → lookup r k ≡ or_else (assoc es k) (lookup d k)

pub assoc_nil : (k : Value) → assoc [] k ≡ none
unfolding assoc
assoc_nil k = refl

pub assoc_step :
    (e : Entry) (es : List Entry) (k : Value)
    → assoc (e ∷ es) k ≡ (if is_live e && same_value e.key k then some e.value else assoc es k)
unfolding assoc
assoc_step e es k = refl

assoc-Absent :
    (x k : Value) (es : List Entry)
    → IsKey x
    → IsKey k
    → same_value x k ≡ true
    → Absent x es
    → assoc es k ≡ none
assoc-Absent x k [] p q same a = assoc_nil k
assoc-Absent x k (e ∷ es) p q same a = elim (Bool-cases (is_live e)) [
  | inr dead ↦ rw (assoc_step, dead) (assoc-Absent x k es p q same a.1)
  | inl live ↦
      let other : same_value e.key k ≡ false =
        same_value_symm e.key k ∙ sym (same_value_join x k e.key p q same) ∙ a.0 live in
      rw (assoc_step, live, other) (assoc-Absent x k es p q same a.1)
]

reads_moved :
    (e : Entry) (es : List Entry) (k : Value) (old : Option Value)
    → is_live e ≡ true
    → (same_value e.key k ≡ true → assoc es k ≡ none)
    → or_else (assoc es k) (if same_value e.key k then some e.value else old)
      ≡ or_else (assoc (e ∷ es) k) old
reads_moved e es k old live alone = elim (Bool-cases (same_value e.key k)) [
  | inl same ↦ rw (assoc_step, live, same, alone same)
  | inr other ↦ rw (assoc_step, live, other)
]

pub move_entries-Moved :
    (es : List Entry) (d : Dict)
    → IsValid d
    → d.count + live_count es ≤ d.capacity
    → Distinct es
    → Missing d es
    → Moved d es (move_entries es d)
unfolding move_entries
move_entries-Moved [] d v room u m = record {
  valid = v;
  same_capacity = refl;
  count = omega (arith, live_count-replicate 0);
  reads = λ k key. rw assoc_nil;
}
move_entries-Moved (e ∷ es) d v room u m = elim (Bool-cases (is_live e)) [
  | inr dead ↦
      let rest =
        move_entries-Moved es d v (omega (arith, live_count-cons e es, weight_dead e dead)) u.1
          m.1 in
      rw (move_entry_dead d e dead) (record {
        valid = rest.valid;
        same_capacity = rest.same_capacity;
        count = let c = rest.count in omega (arith, live_count-cons e es, weight_dead e dead);
        reads = λ k key. rest.reads k key ∙ rw (assoc_step, dead);
      })
  | inl live ↦
      let (key, absent) = u.0 live in
      let sizes = live_count-cons e es in
      let one = weight_live e live in
      let p = move_entry-Placed e v (omega arith) live key (m.0 live) in
      let counted = p.count in
      let wide = p.same_capacity in
      let rest =
        move_entries-Moved es (move_entry e d) p.valid (omega arith) u.1
          (Missing-after e.key e.value es p absent u.1 m.1) in
      let total = rest.count in
      record {
        valid = rest.valid;
        same_capacity = rest.same_capacity ∙ wide;
        count = omega arith;
        reads = λ k is_key.
            rest.reads k is_key
            ∙ ap (λ o. or_else (assoc es k) o) (p.reads k is_key)
            ∙ reads_moved e es k (lookup d k) live
                (λ same. assoc-Absent e.key k es key is_key same absent);
      }
]
