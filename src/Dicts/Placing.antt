-- ===== src/Dicts/Placing.antt =====
-- One live entry written at the slot that the probe for its key found: the step that
-- `bread_dict_set_safe`, `bread_dict_resize` and `bread_dict_from_literal` share.
use native.Mathlib.Decide.{ℕ_discrete}
use bread_lang.Prelude.{
  ℕ, ◌<◌, ◌≡◌, ◌≢◌, sym, subst, ◌↔◌, ap, ◌∙◌, true, false, inl, inr, some, if◌then◌else◌,
  Option-cases, Bool-cases, length, length-set, get_or-set_self, get_or-set_ne, set, arith,
}
use bread_lang.Values.{Value, same_value}
use bread_lang.Values.Keys.{IsKey}
use bread_lang.Dicts.{Entry, Dict, entry_at, empty_entry, is_live, ends_probe, find_slot, lookup}
use bread_lang.Dicts.Slots.{find_slot-Reaches, Reaches-find_slot}
use bread_lang.Dicts.Stored.{
  live_count, Stored, IsValid, live_iff, dead_ends, same_value_join, find_slot_congr, Stored-lookup,
  lookup-Stored,
}

-- The entry `e` may be written at slot `i` for `key`: the probe found the slot, and a key that is
-- there already stays.
pub record Fits (d : Dict) (key : Value) (i : ℕ) (e : Entry) : Type 0 where
  pub found : find_slot d key ≡ some i
  pub is_key : IsKey key
  pub live : is_live e ≡ true
  pub entry_key : IsKey e.key
  pub same : same_value e.key key ≡ true
  pub kept : is_live (entry_at d.entries i) ≡ true → e.key ≡ (entry_at d.entries i).key

abbrev pub place : Dict → ℕ → Entry → ℕ → Dict
place d i e n = record d { entries = set d.entries i e; count = n }

module _ {d : Dict} (v : IsValid d) {key : Value} {i : ℕ} {e : Entry} (f : Fits d key i e)
    (n : ℕ) where
  pub slot_inside : i < length d.entries
  slot_inside =
      let (j, r, at_j) = find_slot-Reaches d key i f.found in
      let w = r.within in let wide = v.width in omega arith

  at_slot : entry_at (place d i e n).entries i ≡ e
  at_slot = get_or-set_self d.entries i e empty_entry slot_inside

  off_slot : (t : ℕ) → i ≢ t → entry_at (place d i e n).entries t ≡ entry_at d.entries t
  off_slot t ne = get_or-set_ne d.entries i t e empty_entry ne

  passed_slot : (k : Value) → ends_probe k (entry_at d.entries i) ≡ false → ends_probe k e ≡ false
  passed_slot k h = elim (Bool-cases (is_live (entry_at d.entries i))) [
    | inr dead ↦ absurd (cc (h, dead_ends (entry_at d.entries i) k dead))
    | inl old ↦
        live_iff e k f.live
        ∙ ap (λ (x : Value). same_value x k) (f.kept old)
        ∙ sym (live_iff (entry_at d.entries i) k old)
        ∙ h
  ]

  -- A slot that the probe for some key passes over is passed over still.
  passed :
      (k : Value) (t : ℕ)
      → ends_probe k (entry_at d.entries t) ≡ false
      → ends_probe k (entry_at (place d i e n).entries t) ≡ false
  passed k t h = elim (ℕ_discrete i t) [
    | no ne ↦ rw (off_slot t ne) h
    | yes eq ↦
        subst (λ s. ends_probe k (entry_at (place d i e n).entries s) ≡ false) eq
          (rw at_slot (passed_slot k (rw (← eq) at h)))
  ]

  -- Probes for other keys end where they did.
  others_reach :
      (k : Value) (t : ℕ) → find_slot d k ≡ some t → i ≢ t → find_slot (place d i e n) k ≡ some t
  others_reach k t h ne =
      let (j, r, at_j) = find_slot-Reaches d k t h in
      Reaches-find_slot (place d i e n) k j (record {
        within = r.within;
        ends = rw (off_slot _ (λ q. ne (q ∙ sym at_j))) r.ends;
        before = λ m lt. passed k _ (r.before m lt);
      })
      ∙ ap some (sym at_j)

  own_reach : find_slot (place d i e n) key ≡ some i
  own_reach =
      let (j, r, at_j) = find_slot-Reaches d key i f.found in
      Reaches-find_slot (place d i e n) key j (record {
        within = r.within;
        ends =
            subst (λ s. ends_probe key (entry_at (place d i e n).entries s) ≡ true) at_j
              (rw at_slot (live_iff e key f.live ∙ f.same));
        before = λ m lt. passed key _ (r.before m lt);
      })
      ∙ ap some (sym at_j)

  pub place-IsValid : n ≡ live_count (set d.entries i e) → IsValid (place d i e n)
  place-IsValid counted = record {
    width = length-set d.entries i e ∙ v.width;
    keys = λ t lt live. elim (ℕ_discrete i t) [
      | yes eq ↦
          subst (λ s. IsKey (entry_at (place d i e n).entries s).key) eq (rw at_slot f.entry_key)
      | no ne ↦ rw (off_slot t ne) (v.keys t lt (rw (off_slot t ne) at live))
    ];
    findable = λ t lt live. elim (ℕ_discrete i t) [
      | yes eq ↦
          subst (λ s. find_slot (place d i e n) (entry_at (place d i e n).entries s).key ≡ some s)
            eq
            (rw at_slot
              (find_slot_congr (place d i e n) e.key key f.entry_key f.is_key f.same ∙ own_reach))
      | no ne ↦ rw (off_slot t ne) (
          others_reach (entry_at d.entries t).key t (v.findable t lt (rw (off_slot t ne) at live))
            ne)
    ];
    counted = counted;
  }

  own_Stored : (k : Value) → same_value key k ≡ true → Stored (place d i e n) k i
  own_Stored k h = record {
    inside = let w = v.width in let p = slot_inside in omega arith;
    live = rw at_slot f.live;
    keyed = rw at_slot (same_value_join e.key key k f.entry_key f.is_key f.same ∙ h);
  }

  -- Away from the slot, the same keys are stored.
  off_Stored : (k : Value) (t : ℕ) → i ≢ t → Stored d k t ↔ Stored (place d i e n) k t
  off_Stored k t ne = (
    λ s. record {
      inside = s.inside;
      live = rw (off_slot t ne) s.live;
      keyed = rw (off_slot t ne) s.keyed;
    },
    λ s. record {
      inside = s.inside;
      live = rw (off_slot t ne) at s.live;
      keyed = rw (off_slot t ne) at s.keyed;
    },
  )

  -- The slot stores no key that differs from the one written.
  slot_not_other : (k : Value) → same_value key k ≡ false → ¬ Stored d k i
  slot_not_other k h s =
      let eq : e.key ≡ (entry_at d.entries i).key = f.kept s.live in
      let keyed : same_value e.key k ≡ true = rw eq s.keyed in
      cc (same_value_join e.key key k f.entry_key f.is_key f.same, keyed, h)

  slot_not_other_after : (k : Value) → same_value key k ≡ false → ¬ Stored (place d i e n) k i
  slot_not_other_after k h s =
      let keyed : same_value e.key k ≡ true = rw at_slot at s.keyed in
      cc (same_value_join e.key key k f.entry_key f.is_key f.same, keyed, h)

  module _ (valid : IsValid (place d i e n)) (k : Value) (is_key : IsKey k) where
    lookup_own : same_value key k ≡ true → lookup (place d i e n) k ≡ some e.value
    lookup_own h =
        Stored-lookup k i valid is_key (own_Stored k h) ∙ ap (λ (x : Entry). some x.value) at_slot

    lookup_kept :
        (w : Value)
        → same_value key k ≡ false
        → lookup d k ≡ some w
        → lookup (place d i e n) k ≡ some w
    lookup_kept w h found =
        let (t, at_t, s, val) = lookup-Stored d k w found in
        let ne : i ≢ t = λ q. slot_not_other k h (subst (λ u. Stored d k u) (sym q) s) in
        Stored-lookup k t valid is_key ((off_Stored k t ne).0 s)
        ∙ ap (λ (x : Entry). some x.value) (off_slot t ne)
        ∙ ap some val

    lookup_new :
        (w : Value)
        → same_value key k ≡ false
        → lookup (place d i e n) k ≡ some w
        → lookup d k ≡ some w
    lookup_new w h found =
        let (t, at_t, s, val) = lookup-Stored (place d i e n) k w found in
        let ne : i ≢ t =
          λ q. slot_not_other_after k h (subst (λ u. Stored (place d i e n) k u) (sym q) s) in
        Stored-lookup k t v is_key ((off_Stored k t ne).1 s)
        ∙ ap (λ (x : Entry). some x.value) (sym (off_slot t ne))
        ∙ ap some val

    -- A lookup afterwards sees the entry under its key, and under every other key what was there.
    pub lookup-place :
        lookup (place d i e n) k ≡ (if same_value key k then some e.value else lookup d k)
    lookup-place = elim (Bool-cases (same_value key k)) [
      | inl h ↦ rw h (lookup_own h)
      | inr h ↦ rw h (elim (Option-cases (lookup d k)) [
        | inr (w, found) ↦ lookup_kept w h found ∙ sym found
        | inl none_there ↦ elim (Option-cases (lookup (place d i e n) k)) [
          | inl still ↦ still ∙ sym none_there
          | inr (w, found) ↦ absurd (cc (lookup_new w h found, none_there))
        ]
      ])
    ]
