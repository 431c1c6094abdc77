-- ===== src/Dicts/Probing.antt =====
-- The probe of `bread_dict_find_slot`: it ends, and it finds the first slot of the probe sequence that
-- is free, deleted or of the same key.
use native.Mathlib.Nat.{mod-add-mod, add-mod_right, mod-eq_of_lt, mod-eq-sub-mod}
use native.Mathlib.Decide.{dec_lt}
use bread_lang.Prelude.{
  ℕ, zero, suc, ◌+◌, ◌-◌, ◌%◌, ◌≤◌, ◌<◌, ◌≡◌, ◌≢◌, refl, ap, ◌∙◌, ltb, ltb→lt, Bool, true, false,
  ◌⊎◌, inl, inr, sym, subst, Option, none, some, List, ◌==◌, ==_iff, Bool-cases, if◌then◌else◌,
  arith,
}
use bread_lang.Values.{Value}
use bread_lang.Dicts.{Entry, entry_at, ends_probe, scan}

-- The slot that the probe visits after `j` steps.
abbrev pub visit : ℕ → ℕ → ℕ → ℕ
visit start capacity j = (start + j) % capacity

-- The least number from `j` on, among `n`, that passes the test.
unfoldable pub first : ℕ → (ℕ → Bool) → ℕ → Option ℕ
first zero p j = none
first (suc n) p j = let rest = first n p (suc j) in if p j then some j else rest

mod_once : (a c : ℕ) → a < c + c → ((a < c) × (a % c ≡ a)) ⊎ ((c ≤ a) × (a % c ≡ a - c))
mod_once a c h = elim (Bool-cases (ltb a c)) [
  | inl small ↦ let p = ltb→lt a c small in inl (p, mod-eq_of_lt p)
  | inr large ↦
      let p : c ≤ a = ground arith in
      let q : a - c < c = omega arith in inr (p, mod-eq-sub-mod p ∙ mod-eq_of_lt q)
]

pub ne→== : (a b : ℕ) → a ≢ b → (a == b) ≡ false
ne→== a b h = ground arith

visit_next : (start c j : ℕ) → start < c → j < c → (visit start c j + 1) % c ≡ visit start c (suc j)
visit_next start c j p q = mod-add-mod (start + j) c 1 ∙ ap (λ (n : ℕ). n % c) (omega arith)

visit_start : (start c j : ℕ) → start < c → 0 < j → j < c → visit start c j ≢ start
visit_start start c j p q r = elim (mod_once (start + j) c (omega arith)) [
  | inl h ↦ omega arith
  | inr h ↦ omega arith
]

-- What the probe ends at, as the slot after some steps.
abbrev pub slot_after : ℕ → ℕ → Option ℕ → Option ℕ
slot_after start capacity none = none
slot_after start capacity (some j) = some (visit start capacity j)

module _ (es : List Entry) (c : ℕ) (key : Value) (start : ℕ) (lt : start < c) where
  abbrev pub ends_after : ℕ → Bool
  ends_after j = ends_probe key (entry_at es (visit start c j))

  -- One round, with the rest of the probe shut.
  scan_step :
      (fuel slot : ℕ)
      → scan es c key start (suc fuel) slot ≡ (
          if ends_probe key (entry_at es slot)
          then some (some slot)
          else if (slot + 1) % c == start
          then some none
          else scan es c key start fuel ((slot + 1) % c))
  unfolding scan
  scan_step fuel slot = refl

  first_step :
      (n j : ℕ)
      → first (suc n) ends_after j ≡ (if ends_after j then some j else first n ends_after (suc j))
  unfolding first
  first_step n j = refl

  last_round : (j : ℕ) → j + 1 ≡ c → ((visit start c j + 1) % c == start) ≡ true
  last_round j e = (==_iff _ _).1 (
      visit_next start c j lt (omega arith)
      ∙ ap (λ (n : ℕ). n % c) (omega arith)
      ∙ add-mod_right start c
      ∙ mod-eq_of_lt lt)

  inner_round : (j : ℕ) → suc j < c → ((visit start c j + 1) % c == start) ≡ false
  inner_round j h =
      rw (visit_next start c j lt (omega arith))
        (ne→== _ _ (visit_start start c (suc j) lt (omega arith) h))

  scan-first :
      (fuel j : ℕ)
      → j + suc fuel ≡ c
      → scan es c key start (suc fuel) (visit start c j)
        ≡ some (slot_after start c (first (suc fuel) ends_after j))
  scan-first zero j e =
      rw (scan_step, first_step)
        (elim (Bool-cases (ends_after j)) [
          | inl h ↦ rw h
          | inr h ↦ rw (h, last_round j e) (unfold first in refl)
        ])
  scan-first (suc fuel) j e =
      rw (scan_step, first_step)
        (elim (Bool-cases (ends_after j)) [
          | inl h ↦ rw h
          | inr h ↦
              rw (h, inner_round j (omega arith), visit_next start c j lt (omega arith))
                (scan-first fuel (suc j) (omega arith))
        ])

module _ (es : List Entry) (c : ℕ) (key : Value) (start : ℕ) (lt : start < c) where
  pub scan_round :
      (m : ℕ)
      → m ≡ c
      → scan es c key start m start
        ≡ some (slot_after start c (first m (ends_after es c key start lt) 0))
  scan_round zero e = absurd (omega arith)
  scan_round (suc f) e =
      subst
        (λ s.
          scan es c key start (suc f) s
          ≡ some (slot_after start c (first (suc f) (ends_after es c key start lt) 0)))
        (ap (λ (n : ℕ). n % c) (omega arith) ∙ mod-eq_of_lt lt)
        (scan-first es c key start lt f 0 (omega arith))

le_antisymm : (j k : ℕ) → j ≤ k → ¬ (j < k) → j ≡ k
le_antisymm j k a b = omega arith

none_of : (x : Option ℕ) (j : ℕ) (b : Bool) → b ≡ true → (if b then some j else x) ≡ none → ⊥
none_of x j b h e = ground arith

rest_none :
    (x : Option ℕ) (j : ℕ) (b : Bool) → b ≡ false → (if b then some j else x) ≡ none → x ≡ none
rest_none x j b h e = ground arith

module _ (p : ℕ → Bool) where
  pub first-some :
      (n j i : ℕ)
      → first n p j ≡ some i
      → (j ≤ i) × (i < j + n) × (p i ≡ true) × ((k : ℕ) → j ≤ k → k < i → p k ≡ false)
  unfolding first
  first-some zero j i e = absurd (cc)
  first-some (suc n) j i e = elim (Bool-cases (p j)) [
    | inl h ↦
        let same : i ≡ j = ground arith in
        (omega arith, omega arith, rw same h, λ k a b. absurd (omega arith))
    | inr h ↦
        let rest : first n p (suc j) ≡ some i = ground arith in
        let (lo, hi, hit, miss) = first-some n (suc j) i rest in
        (
          omega arith,
          omega arith,
          hit,
          λ k a b. elim (dec_lt j k) [ yes q ↦ miss k q b | no q ↦ rw (le_antisymm j k a q) at h ],
        )
  ]

  pub first-none : (n j : ℕ) → first n p j ≡ none → (k : ℕ) → j ≤ k → k < j + n → p k ≡ false
  unfolding first
  first-none zero j e k a b = absurd (omega arith)
  first-none (suc n) j e k a b = elim (Bool-cases (p j)) [
    | inl h ↦ absurd (none_of (first n p (suc j)) j (p j) h e)
    | inr h ↦ elim (dec_lt j k) [
      | yes q ↦ first-none n (suc j) (rest_none (first n p (suc j)) j (p j) h e) k q (omega arith)
      | no q ↦ rw (le_antisymm j k a q) at h
    ]
  ]

  pub first_intro :
      (n j i : ℕ)
      → j ≤ i
      → i < j + n
      → p i ≡ true
      → ((k : ℕ) → j ≤ k → k < i → p k ≡ false)
      → first n p j ≡ some i
  unfolding first
  first_intro zero j i a b hit miss = absurd (omega arith)
  first_intro (suc n) j i a b hit miss = elim (dec_lt j i) [
    | yes q ↦
        rw (miss j (omega arith) q)
          (first_intro n (suc j) i q (omega arith) hit (λ k lo hi. miss k (omega arith) hi))
    | no q ↦ let same : i ≡ j = omega arith in rw (rw same at hit) (ap some (sym same))
  ]
