-- ===== src/Scopes/Retaining.antt =====
-- Scopes whose variables keep their names and whose constants keep their values.
use bread_lang.Prelude.{
  suc, ◌≡◌, refl, ap, ◌∙◌, true, false, some, [], ◌∷◌, ◌++◌, inl, inr, Bool-cases, Option-cases,
  length, subst, Text,
}
use bread_lang.Values.{Value}
use bread_lang.Scopes.{Variable, Scope, Scopes, has_name, find_in, find_out, write_in, write_out}

-- The same variable, with its value if it is a constant.
pub record Retains (v w : Variable) : Type 0 where
  pub name : w.name ≡ v.name
  pub is_const : w.is_const ≡ v.is_const
  pub value : v.is_const ≡ true → w.value ≡ v.value

abbrev pub RetainsScope : Scope → Scope → Type 0
RetainsScope [] [] = Unit
RetainsScope (v ∷ vs) (w ∷ ws) = Retains v w × RetainsScope vs ws
RetainsScope [] (w ∷ ws) = ⊥
RetainsScope (v ∷ vs) [] = ⊥

abbrev pub RetainsScopes : Scopes → Scopes → Type 0
RetainsScopes [] [] = Unit
RetainsScopes (s ∷ ss) (t ∷ ts) = RetainsScope s t × RetainsScopes ss ts
RetainsScopes [] (t ∷ ts) = ⊥
RetainsScopes (s ∷ ss) [] = ⊥

Retains-refl : (v : Variable) → Retains v v
Retains-refl v = record { name = refl; is_const = refl; value = λ h. refl }

RetainsScope-refl : (s : Scope) → RetainsScope s s
RetainsScope-refl [] = tt
RetainsScope-refl (v ∷ vs) = (Retains-refl v, RetainsScope-refl vs)

pub RetainsScopes-refl : (s : Scopes) → RetainsScopes s s
RetainsScopes-refl [] = tt
RetainsScopes-refl (s ∷ ss) = (RetainsScope-refl s, RetainsScopes-refl ss)

Retains-trans : {u v w : Variable} → Retains u v → Retains v w → Retains u w
Retains-trans p q = record {
  name = q.name ∙ p.name;
  is_const = q.is_const ∙ p.is_const;
  value = λ h. q.value (p.is_const ∙ h) ∙ p.value h;
}

RetainsScope-trans : (s t u : Scope) → RetainsScope s t → RetainsScope t u → RetainsScope s u
RetainsScope-trans [] [] [] p q = tt
RetainsScope-trans (a ∷ s) (b ∷ t) (c ∷ u) p q =
    (Retains-trans p.0 q.0, RetainsScope-trans s t u p.1 q.1)
RetainsScope-trans [] [] (c ∷ u) p q = absurd q
RetainsScope-trans [] (b ∷ t) u p q = absurd p
RetainsScope-trans (a ∷ s) [] u p q = absurd p
RetainsScope-trans (a ∷ s) (b ∷ t) [] p q = absurd q

pub RetainsScopes-trans :
    (s t u : Scopes) → RetainsScopes s t → RetainsScopes t u → RetainsScopes s u
RetainsScopes-trans [] [] [] p q = tt
RetainsScopes-trans (a ∷ s) (b ∷ t) (c ∷ u) p q =
    (RetainsScope-trans a b c p.0 q.0, RetainsScopes-trans s t u p.1 q.1)
RetainsScopes-trans [] [] (c ∷ u) p q = absurd q
RetainsScopes-trans [] (b ∷ t) u p q = absurd p
RetainsScopes-trans (a ∷ s) [] u p q = absurd p
RetainsScopes-trans (a ∷ s) (b ∷ t) [] p q = absurd q

-- Writing to the variable that is found, which is no constant.
module _ (n : Text) (x : Variable) (v : Value) (free : x.is_const ≡ false) where
  Retains-new : Retains x (record x { value = v })
  Retains-new = record { name = refl; is_const = refl; value = λ h. absurd (cc (h, free)) }

  RetainsScope-write_in :
      (s : Scope) → find_in s n ≡ some x → RetainsScope s (write_in s n (record x { value = v }))
  unfolding find_in write_in
  RetainsScope-write_in [] e = cc
  RetainsScope-write_in (y ∷ ys) e = elim (Bool-cases (has_name n y)) [
    | inr miss ↦ rw miss (Retains-refl y, RetainsScope-write_in ys (rw miss at e))
    | inl hit ↦
        let same : x ≡ y = cc (rw hit at e) in
        rw hit
          (subst (λ z. Retains z (record x { value = v })) same Retains-new, RetainsScope-refl ys)
  ]

  RetainsScopes-write_out :
      (ss : Scopes)
      → find_out ss n ≡ some x
      → RetainsScopes ss (write_out ss n (record x { value = v }))
  unfolding find_out write_out
  RetainsScopes-write_out [] e = cc
  RetainsScopes-write_out (s ∷ ss) e = elim (Option-cases (find_in s n)) [
    | inr (y, hit) ↦
        let same : y ≡ x = cc (rw hit at e) in
        rw hit (RetainsScope-write_in s (hit ∙ ap some same), RetainsScopes-refl ss)
    | inl miss ↦ rw miss (RetainsScope-refl s, RetainsScopes-write_out ss (rw miss at e))
  ]

  -- A write in a block is to one of its own scopes or to one around it.
  pub write_out-split :
      (inner outer : Scopes)
      → find_out (inner ++ outer) n ≡ some x
      → (inside : Scopes) × (around : Scopes) × (write_out
            (inner ++ outer)
            n
            (record x { value = v })
          ≡ inside ++ around)
        × (length inside ≡ length inner)
        × RetainsScopes outer around
  unfolding find_out write_out
  write_out-split [] outer e =
      ([], write_out outer n (record x { value = v }), refl, refl, RetainsScopes-write_out outer e)
  write_out-split (i ∷ is) outer e = elim (Option-cases (find_in i n)) [
    | inr (y, hit) ↦
        (write_in i n (record x { value = v }) ∷ is, outer, rw hit, refl, RetainsScopes-refl outer)
    | inl miss ↦
        let (inside, around, eq, size, kept) = write_out-split is outer (rw miss at e) in
        (i ∷ inside, around, rw (miss, eq), ap suc size, kept)
  ]
