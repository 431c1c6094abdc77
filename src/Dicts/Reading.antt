-- ===== src/Dicts/Reading.antt =====
-- A valid table reads as the list of its live entries, whose keys are distinct.
use bread_lang.Prelude.{
  ℕ, zero, suc, ◌<◌, ◌≡◌, refl, sym, ap, ◌∙◌, Bool, true, false, ◌&&◌, inl, inr, Option, none, some,
  List, [], ◌∷◌, if◌then◌else◌, Option-cases, Bool-cases, length, &&-elim, arith,
}
use bread_lang.Values.{Value, same_value}
use bread_lang.Values.Keys.{IsKey}
use bread_lang.Dicts.{Entry, Dict, entry_at, is_live, lookup}
use bread_lang.Dicts.Stored.{IsValid, find_slot_congr, lookup-Stored, Stored-lookup}
use bread_lang.Dicts.Moving.{assoc, assoc_nil, assoc_step, Absent, Distinct}

Absent-of :
    (k : Value) (es : List Entry)
    → ((j : ℕ)
        → j < length es
        → is_live (entry_at es j) ≡ true
        → same_value k (entry_at es j).key ≡ false)
    → Absent k es
Absent-of k [] h = tt
Absent-of k (e ∷ es) h = (h 0 (omega arith), Absent-of k es (λ j lt. h (suc j) (omega arith)))

Distinct-of :
    (es : List Entry)
    → ((i : ℕ) → i < length es → is_live (entry_at es i) ≡ true → IsKey (entry_at es i).key)
    → ((i j : ℕ)
        → i < j
        → j < length es
        → is_live (entry_at es i) ≡ true
        → is_live (entry_at es j) ≡ true
        → same_value (entry_at es i).key (entry_at es j).key ≡ false)
    → Distinct es
Distinct-of [] keys apart = tt
Distinct-of (e ∷ es) keys apart = (
  λ live. (
    keys 0 (omega arith) live,
    Absent-of e.key es (λ j lt other. apart 0 (suc j) (omega arith) (omega arith) live other),
  ),
  Distinct-of es (λ i lt. keys (suc i) (omega arith))
      (λ i j a b. apart (suc i) (suc j) (omega arith) (omega arith)),
)

pub valid-Distinct : {d : Dict} → IsValid d → Distinct d.entries
valid-Distinct {d} v =
    let width = v.width in
    Distinct-of d.entries (λ i lt. v.keys i (omega arith))
      (λ i j a b li lj.
        elim (Bool-cases (same_value (entry_at d.entries i).key (entry_at d.entries j).key)) [
          | inr other ↦ other
          | inl same ↦
              let meet : some i ≡ some j =
                sym (v.findable i (omega arith) li)
                ∙ find_slot_congr d _ _ (v.keys i (omega arith) li) (v.keys j (omega arith) lj) same
                ∙ v.findable j (omega arith) lj in
              let eq : i ≡ j = cc in absurd (omega arith)
        ])

assoc-some :
    (es : List Entry) (k w : Value)
    → assoc es k ≡ some w
    → (i : ℕ) × (i < length es)
      × (is_live (entry_at es i) ≡ true)
      × (same_value (entry_at es i).key k ≡ true)
      × ((entry_at es i).value ≡ w)
assoc-some [] k w h = absurd (cc (assoc_nil k))
assoc-some (e ∷ es) k w h = elim (Bool-cases (is_live e && same_value e.key k)) [
  | inl hit ↦
      let (a, b) = &&-elim (is_live e) (same_value e.key k) hit in
      (0, omega arith, a, b, cc (rw (assoc_step, hit) at h))
  | inr miss ↦
      let (i, lt, a, b, val) = assoc-some es k w (rw (assoc_step, miss) at h) in
      (suc i, omega arith, a, b, val)
]

if_none :
    (b : Bool) (x : Option Value) (v : Value)
    → (if b then some v else x) ≡ none
    → (b ≡ false) × (x ≡ none)
if_none true x v h = absurd (cc)
if_none false x v h = (refl, h)

assoc-none :
    (es : List Entry) (k : Value)
    → assoc es k ≡ none
    → (i : ℕ) → i < length es
    → is_live (entry_at es i) ≡ true
    → same_value (entry_at es i).key k ≡ false
assoc-none [] k h i lt live = absurd (omega arith)
assoc-none (e ∷ es) k h zero lt live =
    let (miss, rest) =
      if_none (is_live e && same_value e.key k) (assoc es k) e.value (rw assoc_step at h) in
    ground arith
assoc-none (e ∷ es) k h (suc i) lt live =
    assoc-none es k
      ((if_none (is_live e && same_value e.key k) (assoc es k) e.value (rw assoc_step at h)).1) i
      (omega arith) live

-- For keys that can be found again, a valid table reads as the list of its live entries.
pub assoc-lookup : {d : Dict} (k : Value) → IsValid d → IsKey k → assoc d.entries k ≡ lookup d k
assoc-lookup {d} k v key = elim (Option-cases (assoc d.entries k)) [
  | inr (w, e) ↦
      let width = v.width in
      let (i, lt, live, same, val) = assoc-some d.entries k w e in
      e
      ∙ ap some (sym val)
      ∙ sym (Stored-lookup k i v key (record { inside = omega arith; live = live; keyed = same }))
  | inl e ↦ elim (Option-cases (lookup d k)) [
    | inl f ↦ e ∙ sym f
    | inr (w, f) ↦
        let width = v.width in
        let (i, at_i, s, val) = lookup-Stored d k w f in
        let p = s.inside in absurd (cc (assoc-none d.entries k e i (omega arith) s.live, s.keyed))
  ]
]
