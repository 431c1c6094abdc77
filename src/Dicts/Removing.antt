-- ===== src/Dicts/Removing.antt =====
-- `bread_dict_remove`: what a tombstone does to the probes.
use native.Mathlib.Decide.{ℕ_discrete, dec_lt}
use bread_lang.Prelude.{
  ℕ, ◌-◌, ◌<◌, ◌≡◌, ◌≢◌, refl, sym, subst, ap, ◌∙◌, true, false, inl, inr, none, some, Option-cases,
  length, set, get_or-set_self, get_or-set_ne, arith,
}
use bread_lang.Values.{Value}
use bread_lang.Dicts.{
  Dict, entry_at, empty_entry, is_live, ends_probe, find_slot, lookup, tombstone, erase,
}
use bread_lang.Dicts.Slots.{tests, find_slot-Reaches, Reaches-find_slot, home}
use bread_lang.Dicts.Probing.{visit}
use bread_lang.Dicts.Stored.{dead_ends, lookup-Stored}

-- `d` with a tombstone at slot `i`.
abbrev pub buried : Dict → ℕ → Dict
buried d i = record d { entries = set d.entries i tombstone; count = d.count - 1 }

tombstone_dead : is_live tombstone ≡ false
unfolding is_live tombstone
tombstone_dead = refl

module _ (d : Dict) (i : ℕ) (inside : i < length d.entries) where
  at_grave : entry_at (buried d i).entries i ≡ tombstone
  at_grave = get_or-set_self d.entries i tombstone empty_entry inside

  pub off_grave : (t : ℕ) → i ≢ t → entry_at (buried d i).entries t ≡ entry_at d.entries t
  off_grave t ne = get_or-set_ne d.entries i t tombstone empty_entry ne

  grave_ends : (l : Value) → ends_probe l (entry_at (buried d i).entries i) ≡ true
  grave_ends l = rw at_grave (dead_ends tombstone l tombstone_dead)

  -- A key whose probe comes to the tombstone is no longer found.
  pub lookup-buried :
      (l : Value) (m : ℕ)
      → i ≡ visit (home d l) d.capacity m
      → ((p : ℕ) → p < m → tests d l p ≡ false)
      → lookup (buried d i) l ≡ none
  lookup-buried l m at_m before = elim (Option-cases (lookup (buried d i) l)) [
    | inl e ↦ e
    | inr (w, e) ↦
        let (t, found, s, val) = lookup-Stored (buried d i) l w e in
        let (j, r, at_j) = find_slot-Reaches (buried d i) l t found in
        elim (ℕ_discrete i t) [
          | yes same ↦ absurd (
              cc (
                subst (λ u. is_live (entry_at (buried d i).entries u) ≡ true) (sym same) s.live,
                at_grave,
                tombstone_dead,
              ))
          | no ne ↦ elim (dec_lt j m) [
            | yes early ↦ absurd (cc (before j early, r.ends, off_grave _ (λ q. ne (q ∙ sym at_j))))
            | no late ↦ elim (dec_lt m j) [
              | yes after ↦
                  let ends : ends_probe l
                        (entry_at (buried d i).entries (visit (home d l) d.capacity m))
                      ≡ true =
                    subst (λ u. ends_probe l (entry_at (buried d i).entries u) ≡ true) at_m
                      (grave_ends l) in
                  absurd (cc (ends, r.before m after))
              | no not_after ↦
                  let eq : j ≡ m = omega arith in
                  absurd (ne (at_m ∙ ap (visit (home d l) d.capacity) (sym eq) ∙ sym at_j))
            ]
          ]
        ]
  ]

  -- A key whose probe ends at another slot, before which it does not come to the tombstone, is found
  -- as before.
  pub find_slot_kept :
      (l : Value) (t : ℕ)
      → find_slot d l ≡ some t
      → i ≢ t
      → ((p q : ℕ)
          → p < d.capacity
          → t ≡ visit (home d l) d.capacity p
          → q < p
          → i ≢ visit (home d l) d.capacity q)
      → find_slot (buried d i) l ≡ some t
  find_slot_kept l t found ne clear =
      let (j, r, at_j) = find_slot-Reaches d l t found in
      Reaches-find_slot (buried d i) l j (record {
        within = r.within;
        ends = rw (off_grave _ (λ q. ne (q ∙ sym at_j))) r.ends;
        before = λ q lt. rw (off_grave _ (clear j q r.within at_j lt)) (r.before q lt);
      })
      ∙ ap some (sym at_j)

pub erase_live :
    (d : Dict) (i : ℕ)
    → is_live (entry_at d.entries i) ≡ true
    → (erase d (some i)).state ≡ buried d i
unfolding erase
erase_live d i live = rw live

pub erase_dead :
    (d : Dict) (i : ℕ) → is_live (entry_at d.entries i) ≡ false → (erase d (some i)).state ≡ d
unfolding erase
erase_dead d i dead = rw dead
