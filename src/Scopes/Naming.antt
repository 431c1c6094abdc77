-- ===== src/Scopes/Naming.antt =====
-- The search for a variable after a write to one.
use bread_lang.Prelude.{
  ◌≡◌, sym, ap, ◌∙◌, true, false, Option, none, some, [], ◌∷◌, ltb, if◌then◌else◌, inl, inr,
  Bool-cases, Option-cases, length, Text, text_eq, text_eq→eq, &&-elim,
}
use bread_lang.Scopes.{
  Variable, Scope, Scopes, max_name, has_name, find_in, find_out, write_in, write_out,
}

-- The name that is compared, of which 255 bytes would be too many.
has_name-eq :
    (n : Text) (v : Variable)
    → has_name n v ≡ true
    → (v.name ≡ n) × (ltb (length n) max_name ≡ true)
unfolding has_name
has_name-eq n v h =
    let (short, same) = &&-elim (ltb (length v.name) max_name) (text_eq v.name n) h in
    let e = text_eq→eq v.name n same in (e, rw (← e) short)

pub has_name-of : (n m : Text) (v : Variable) → has_name n v ≡ true → has_name m v ≡ text_eq n m
unfolding has_name
has_name-of n m v h = let (e, short) = has_name-eq n v h in rw (e, short)

-- `w` over what is there, if anything is.
abbrev pub replaced : Option Variable → Variable → Option Variable
replaced none w = none
replaced (some v) w = some w

same_name_missed :
    (n m : Text) (v : Variable) → text_eq n m ≡ true → has_name n v ≡ false → has_name m v ≡ false
same_name_missed n m v e h = sym (ap (λ k. has_name k v) (text_eq→eq n m e)) ∙ h

module _ (n m : Text) (w : Variable) (named : has_name n w ≡ true) where
  pub find_in-write_in :
      (s : Scope)
      → find_in (write_in s n w) m ≡ (if text_eq n m then replaced (find_in s m) w else find_in s m)
  unfolding find_in write_in
  find_in-write_in [] = elim (Bool-cases (text_eq n m)) [ inl e ↦ rw e | inr e ↦ rw e ]
  find_in-write_in (v ∷ vs) = elim (Bool-cases (has_name n v)) [
    | inl hit ↦
        rw (hit, has_name-of n m w named, has_name-of n m v hit)
          (elim (Bool-cases (text_eq n m)) [ inl e ↦ rw e | inr e ↦ rw e ])
    | inr miss ↦
        rw (miss, find_in-write_in vs)
          (elim (Bool-cases (text_eq n m)) [
            | inl e ↦ rw (e, same_name_missed n m v e miss)
            | inr e ↦ rw e
          ])
  ]

  find_in_again : (s : Scope) → text_eq n m ≡ true → find_in s m ≡ find_in s n
  find_in_again s e = ap (find_in s) (sym (text_eq→eq n m e))

  -- A write to the variable that is found is read under its name, and under no other.
  pub find_out-write_out :
      (s : Scopes)
      → find_out (write_out s n w) m
        ≡ (if text_eq n m then replaced (find_out s m) w else find_out s m)
  unfolding find_out write_out
  find_out-write_out [] = elim (Bool-cases (text_eq n m)) [ inl e ↦ rw e | inr e ↦ rw e ]
  find_out-write_out (s ∷ ss) = elim (Option-cases (find_in s n)) [
    | inr (v, hit) ↦
        rw (hit, find_in-write_in s)
          (elim (Bool-cases (text_eq n m)) [
            | inl e ↦ rw (e, find_in_again s e, hit)
            | inr e ↦ rw e
          ])
    | inl miss ↦
        rw (miss, find_out-write_out ss)
          (elim (Bool-cases (text_eq n m)) [
            | inl e ↦ rw (e, find_in_again s e, miss)
            | inr e ↦ rw e
          ])
  ]
